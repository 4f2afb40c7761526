-- ===== src/Server/Hub/State.antt =====
-- server/hub.go: the registry of connections and queues, and what changes it besides the commands.
-- A connection is a number in place of the pointer *Client.
pub mod Release
use knock.Prelude.{
  ℕ, ◌≡◌, ◌⊎◌, arith, Bool, true, false, Option, none, some, [], ◌∷◌, Bytes, codes, ◌==◌,
  if◌then◌else◌, Map, lookup, insert,
}
use knock.Protocol.Envelope.{code_queue_not_found, code_server_error}
use knock.Server.Store.{Store, Faults, queue_exists}
use knock.Server.Run.{Run, ok, panic, close_of_closed, ◌>>=◌}
use knock.Server.Channel.{Channel, fresh}

pub record QueueState : Type 0 where
  pub owner : Option ℕ
  pub sub : Option ℕ

abbrev pub idle : QueueState
idle = record { owner = none; sub = none }

pub record Hub : Type 0 where
  pub store : Store
  pub clients : ℕ → Bool
  pub queues : Map QueueState
  pub chans : ℕ → Channel

unfoldable pub update {ℓ} : {A : Type ℓ} → (ℕ → A) → ℕ → A → ℕ → A
update f i a k = if i == k then a else f k

-- What one event meets outside the program: the clock in Unix seconds, the random bytes, and the
-- statements that the driver fails.
pub record World : Type 0 where
  pub now : ℕ
  pub random : Option Bytes
  pub faults : Faults

abbrev pub is_client : Option ℕ → ℕ → Bool
is_client none c = false
is_client (some d) c = d == c

unfoldable pub new_hub : Store → Hub
new_hub s = record { store = s; clients = λ _. false; queues = []; chans = λ _. fresh }

-- close(c.send)
unfoldable pub close_send : ℕ → Hub → Run Hub
unfolding update
close_send c h =
    if (h.chans c).closed
    then panic close_of_closed
    else ok (record h { chans = update h.chans c (record (h.chans c) { closed = true }) })

-- delete(h.clients, c)
abbrev pub forget : ℕ → Hub → Hub
forget c h = record h { clients = update h.clients c false }

unfoldable pub kick : ℕ → Hub → Run Hub
unfolding update close_send
kick c h = if h.clients c then close_send c (forget c h) else ok h

-- The entry that a connection leaves behind, none where the entry is deleted.
leave : ℕ → QueueState → Option QueueState
leave c qs =
    let owner = if is_client qs.owner c then none else qs.owner in
    let sub = if is_client qs.sub c then none else qs.sub in
    elim owner [
      | some o ↦ some (record { owner = some o; sub = sub })
      | none ↦ elim sub [ some s ↦ some (record { owner = none; sub = some s }) | none ↦ none ]
    ]

keep_entry : Bytes → Option QueueState → Map QueueState → Map QueueState
keep_entry qid none m = m
keep_entry qid (some qs) m = (qid, qs) ∷ m

-- The slices of the log lines are left out.
unfoldable pub release_queue : ℕ → Map QueueState → Map QueueState
unfolding leave keep_entry
release_queue c [] = []
release_queue c ((qid, qs) ∷ m) = keep_entry qid (leave c qs) (release_queue c m)

unfoldable pub unregister : ℕ → Hub → Run Hub
unfolding update close_send release_queue
unregister c h =
    if h.clients c
    then (do h' ← close_send c (forget c h); ok (record h' { queues = release_queue c h'.queues }))
    else ok h

unfoldable pub register : ℕ → Hub → Hub
unfolding update
register c h = record h { clients = update h.clients c true }

pub data Found : Type 0 where
  missing : ℕ → Bytes → Found
  found : QueueState → Hub → Found

-- The entry of a queue, taken up again from the table where memory has none.
pub revive : Bytes → Option Bool → Hub → Found
revive qid none h = missing code_server_error (codes "storage error")
revive qid (some false) h = missing code_queue_not_found (codes "queue not found")
revive qid (some true) h = found idle (record h { queues = insert qid idle h.queues })

unfoldable pub find_queue : World → Bytes → Hub → Found
unfolding revive
find_queue w qid h = elim (lookup qid h.queues) [
  | some qs ↦ found qs h
  | none ↦ revive qid (queue_exists w.faults qid h.store) h
]

-- What find_queue leaves is the hub, or the hub with one more idle entry.
pub lookup_found :
    (w : World) (qid : Bytes) (h : Hub) (qs : QueueState) (h₀ : Hub)
    → find_queue w qid h ≡ found qs h₀
    → (h₀ ≡ h) ⊎ (h₀ ≡ record h { queues = insert qid idle h.queues })
unfolding find_queue
lookup_found w qid h qs h₀ e = ground arith
