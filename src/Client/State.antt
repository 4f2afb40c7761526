-- ===== src/Client/State.antt =====
-- client/state.go: the outbox map, the contacts, and the file that keeps both; upsertContact of
-- client/session.go. Times are Unix seconds that are not negative.
pub mod Contacts
pub mod Paths
use mathlib.Core.Option
use knock.Prelude.{
  ℕ, ◌≡◌, Bool, true, false, not, Option, none, some, List, [], ◌∷◌, map, Bytes, eq_bytes, leb,
  if◌then◌else◌, select, Map, lookup, insert, ◌++◌, codes, ltb, length, take,
}
use knock.Crypto.{Primitives, fp_hex}

pub record Contact : Type 0 where
  pub fingerprint : Bytes
  pub invite_url : Bytes
  pub last_seen : ℕ
  pub alias : Bytes

pub record State : Type 0 where
  pub outbox : Map Bytes
  pub contacts : Map Contact

-- statePath: the file is named after the first eight digits of the fingerprint.
unfoldable pub state_path : (List Bytes → Bytes) → Primitives → Option Bytes → Bytes → Option Bytes
state_path join p none box_pub = none
state_path join p (some dir) box_pub =
    let clean = fp_hex p box_pub in
    if ltb (length clean) 8
    then none
    else some
        (join (dir ∷ codes "knock" ∷ (codes "state-" ++ (take 8 clean ++ codes ".json")) ∷ []))

-- What the decoder makes of a state file: none for the nil of a map.
pub record FileState : Type 0 where
  pub outbox : Option (Map Bytes)
  pub contacts : Option (Map Contact)

-- A file that is not there, or cannot be read, is a new state.
unfoldable pub load_state : Option FileState → State
load_state none = record { outbox = []; contacts = [] }
load_state (some f) = record {
  outbox = Option.get_or f.outbox [];
  contacts = Option.get_or f.contacts [];
}

-- The file as saveState writes it.
unfoldable pub file_of : State → FileState
file_of st = record { outbox = some st.outbox; contacts = some st.contacts }

-- The new entry of a contact, or the old one with the link and the time replaced.
refresh : Bytes → Bytes → ℕ → Option Contact → Contact
refresh fp raw_link now none = record {
  fingerprint = fp;
  invite_url = raw_link;
  last_seen = now;
  alias = [];
}
refresh fp raw_link now (some c) = record c { invite_url = raw_link; last_seen = now }

unfoldable pub upsert_contact : Bytes → Bytes → ℕ → State → State
unfolding refresh
upsert_contact fp raw_link now st = record st {
  contacts = insert fp (refresh fp raw_link now (lookup fp st.contacts)) st.contacts;
}

has_link : Contact → Bool
has_link c = not (eq_bytes c.invite_url [])

-- sort.Slice by LastSeen, the latest first; contacts of one second stay in the order of the list.
place : Contact → List Contact → List Contact
place c [] = c ∷ []
place c (d ∷ ds) = if leb d.last_seen c.last_seen then c ∷ d ∷ ds else d ∷ place c ds

sort_recent : List Contact → List Contact
unfolding place
sort_recent [] = []
sort_recent (c ∷ cs) = place c (sort_recent cs)

-- The map is walked in the order of the model's list.
unfoldable pub sorted_contacts : State → List Contact
unfolding sort_recent has_link
sorted_contacts st = sort_recent (select has_link (map (λ e. e.1) st.contacts))
