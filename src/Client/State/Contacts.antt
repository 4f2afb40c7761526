-- ===== src/Client/State/Contacts.antt =====
-- client/state.go and client/session.go: laws of the contact list.
use mathlib.Core.List.{Perm}
use mathlib.Core.List.Perm
use knock.Prelude.{
  ℕ, ◌≤◌, ◌≡◌, refl, not, Option, none, some, List, [], ◌∷◌, map, Bytes, eq_bytes, leb,
  if◌then◌else◌, select, lookup, lookup-insert, All, All-imp, Bool-cases, inl, inr, arith,
}
use knock.Client.State.{
  Contact, State, load_state, file_of, refresh, upsert_contact, has_link, place, sort_recent,
  sorted_contacts,
}

-- Each contact was seen no earlier than those behind it.
abbrev pub IsRecentFirst : List Contact → Type 0
IsRecentFirst [] = Unit
IsRecentFirst (c ∷ cs) = All (λ d. d.last_seen ≤ c.last_seen) cs × IsRecentFirst cs

All-place :
    (n : ℕ) (c : Contact) (ds : List Contact)
    → c.last_seen ≤ n
    → All (λ d. d.last_seen ≤ n) ds
    → All (λ d. d.last_seen ≤ n) (place c ds)
unfolding place
All-place n c [] h a = (h, tt)
All-place n c (d ∷ ds) h a = elim (Bool-cases (leb d.last_seen c.last_seen)) [
  | inl le ↦ rw le (h, a)
  | inr gt ↦ rw gt (a.0, All-place n c ds h a.1)
]

place-IsRecentFirst :
    (c : Contact) (ds : List Contact) → IsRecentFirst ds → IsRecentFirst (place c ds)
unfolding place
place-IsRecentFirst c [] o = (tt, tt)
place-IsRecentFirst c (d ∷ ds) o = elim (Bool-cases (leb d.last_seen c.last_seen)) [
  | inl le ↦ rw le ((ground arith, All-imp (λ y h. ground arith) ds o.0), o)
  | inr gt ↦ rw gt (All-place d.last_seen c ds (ground arith) o.0, place-IsRecentFirst c ds o.1)
]

sort_recent-IsRecentFirst : (cs : List Contact) → IsRecentFirst (sort_recent cs)
unfolding sort_recent
sort_recent-IsRecentFirst [] = tt
sort_recent-IsRecentFirst (c ∷ cs) =
    place-IsRecentFirst c (sort_recent cs) (sort_recent-IsRecentFirst cs)

place-Perm : (c : Contact) (ds : List Contact) → Perm (place c ds) (c ∷ ds)
unfolding place
place-Perm c [] = Perm.refl (c ∷ [])
place-Perm c (d ∷ ds) = elim (Bool-cases (leb d.last_seen c.last_seen)) [
  | inl le ↦ rw le (Perm.refl (c ∷ d ∷ ds))
  | inr gt ↦ rw gt (Perm.trans (Perm.cons d (place-Perm c ds)) (Perm.swap c d ds))
]

sort_recent-Perm : (cs : List Contact) → Perm (sort_recent cs) cs
unfolding sort_recent
sort_recent-Perm [] = Perm.refl []
sort_recent-Perm (c ∷ cs) =
    Perm.trans (place-Perm c (sort_recent cs)) (Perm.cons c (sort_recent-Perm cs))

-- The list that the user chooses from holds each contact that has a link, once for each entry of the
-- map, the one seen last in front.
pub sorted_contacts_lem :
    (st : State)
    → IsRecentFirst (sorted_contacts st)
      × Perm
          (sorted_contacts st)
          (select (λ c. not (eq_bytes c.invite_url [])) (map (λ e. e.1) st.contacts))
unfolding sorted_contacts
sorted_contacts_lem st = (sort_recent-IsRecentFirst linked, sort_recent-Perm linked)
  where
    linked : List Contact
    linked = select has_link (map (λ (e : Bytes × Contact). e.1) st.contacts)

-- The alias of an entry, and none for a contact that is new.
abbrev pub alias_of : Option Contact → Bytes
alias_of none = []
alias_of (some c) = c.alias

-- After a chat the contact has the link that was used and the time, and keeps the alias that it had;
-- no other contact and no outbox changes. This is also what the next start loads from the file.
pub upsert_contact_lem :
    (fp raw_link : Bytes) (now : ℕ) (st : State)
    → (c : Contact) × (c.invite_url ≡ raw_link)
      × (c.last_seen ≡ now)
      × (c.alias ≡ alias_of (lookup fp st.contacts))
      × ((k : Bytes)
          → lookup k (load_state (some (file_of (upsert_contact fp raw_link now st)))).contacts
            ≡ (if eq_bytes fp k then some c else lookup k st.contacts))
      × ((load_state (some (file_of (upsert_contact fp raw_link now st)))).outbox ≡ st.outbox)
unfolding upsert_contact load_state file_of
upsert_contact_lem fp raw_link now st = (
  refresh fp raw_link now (lookup fp st.contacts),
  ground arith,
  ground arith,
  ground arith,
  λ k. lookup-insert fp k _ st.contacts,
  refl,
)
