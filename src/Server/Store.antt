-- ===== src/Server/Store.antt =====
-- server/store.go: the two tables, and one function for each statement that the server sends.
-- SQLite is not modelled beyond what the SQL text says: `faults` tells which statements the driver
-- fails, and a statement that fails changes nothing.
pub mod Order
pub mod Effects
pub mod Changes
pub mod Writes
pub mod Sweeps
pub mod References
use Order.{order_by_ts}
use knock.Prelude.{
  ℕ, ◌+◌, ◌-◌, Bool, true, false, not, ◌&&◌, ◌||◌, Option, none, some, List, [], ◌∷◌, ◌++◌, map,
  Bytes, eq_bytes, ltb, if◌then◌else◌, length, select, any, has_key,
}

pub record QueueRow : Type 0 where
  pub qid : Bytes
  pub created_at : ℕ
  pub last_active : ℕ

-- StoredMessage
pub record StoredMessage : Type 0 where
  pub mid : Bytes
  pub qid : Bytes
  pub payload : Bytes
  pub ts : ℕ

-- A row of the table messages; the rows stand in the order of their rowid.
pub record MessageRow : Type 0 where
  pub message : StoredMessage
  pub open message use *
  pub delivered : Bool
  pub delivered_at : Option ℕ

pub record Store : Type 0 where
  pub queues : List QueueRow
  pub messages : List MessageRow

abbrev pub empty : Store
empty = record { queues = []; messages = [] }

-- What the driver may fail: a statement, or the check of foreign keys, which is off on a connection of
-- the pool that did not get the PRAGMA of Open.
pub data Statement : Type 0 where
  checking_keys : Statement
  creating existing saving listing marking touching deleting : Statement
  sweeping_messages sweeping_queues sweeping_delivered : Statement

abbrev pub Faults : Type 0
Faults = Statement → Bool

abbrev pub has_queue : Bytes → List QueueRow → Bool
has_queue = has_key (λ q. q.qid)

abbrev pub has_mid : Bytes → List MessageRow → Bool
has_mid = has_key (λ m. m.mid)

-- The new state of a store, or the old one where the error is ignored.
abbrev pub or_same : Option Store → Store → Store
or_same none s = s
or_same (some s') s = s'

-- INSERT OR IGNORE
unfoldable pub create_queue : Faults → Bytes → ℕ → Store → Option Store
create_queue faults qid now s =
    if faults creating
    then none
    else if has_queue qid s.queues
    then some s
    else some (record s {
      queues = s.queues ++ record { qid = qid; created_at = now; last_active = 0 } ∷ [];
    })

unfoldable pub queue_exists : Faults → Bytes → Store → Option Bool
queue_exists faults qid s = if faults existing then none else some (has_queue qid s.queues)

-- The primary key refuses a second row with the same mid, the foreign key, where it is checked, a queue that
-- is not there.
unfoldable pub save_message : Faults → StoredMessage → Store → Option Store
save_message faults m s =
    if faults saving
      || has_mid m.mid s.messages
      || (not (faults checking_keys) && not (has_queue m.qid s.queues))
    then none
    else some (record s {
      messages = s.messages ++ record { message = m; delivered = false; delivered_at = none } ∷ [];
    })

abbrev pub pending : Bytes → MessageRow → Bool
pending qid m = eq_bytes m.qid qid && not m.delivered

-- ORDER BY ts, rowid
unfoldable pub undelivered : Faults → Bytes → Store → Option (List StoredMessage)
undelivered faults qid s =
    if faults listing
    then none
    else some (map (λ m. m.message) (order_by_ts (λ m. m.ts) (select (pending qid) s.messages)))

pub mark : Bytes → ℕ → MessageRow → MessageRow
mark mid now m =
    if eq_bytes m.mid mid then record m { delivered = true; delivered_at = some now } else m

unfoldable pub mark_delivered : Faults → Bytes → ℕ → Store → Option Store
unfolding mark
mark_delivered faults mid now s =
    if faults marking then none else some (record s { messages = map (mark mid now) s.messages })

unfoldable pub touch_row : Bytes → ℕ → QueueRow → QueueRow
touch_row qid now q = if eq_bytes q.qid qid then record q { last_active = now } else q

unfoldable pub touch_queue : Faults → Bytes → ℕ → Store → Option Store
unfolding touch_row
touch_queue faults qid now s =
    if faults touching then none else some (record s { queues = map (touch_row qid now) s.queues })

unfoldable pub delete_message : Faults → Bytes → Store → Option Store
delete_message faults mid s =
    if faults deleting
    then none
    else some (record s { messages = select (λ m. not (eq_bytes m.mid mid)) s.messages })

-- last_active < now - queueTTL AND last_active > 0
abbrev pub expired : ℕ → ℕ → QueueRow → Bool
expired now ttl q = ltb (q.last_active + ttl) now && ltb 0 q.last_active

-- qid IN (SELECT qid FROM queues WHERE …)
abbrev pub in_expired : ℕ → ℕ → List QueueRow → MessageRow → Bool
in_expired now ttl queues m = has_queue m.qid (select (expired now ttl) queues)

abbrev pub residue : ℕ → ℕ → MessageRow → Bool
residue now grace m = m.delivered && ltb (m.ts + grace) now

-- ① the messages of expired queues
unfoldable pub sweep_messages : Faults → ℕ → ℕ → Store → Option Store
sweep_messages faults now ttl s =
    if faults sweeping_messages
    then none
    else some (record s { messages = select (λ m. not (in_expired now ttl s.queues m)) s.messages })

-- ② the expired queues; the foreign key, where it is checked, refuses it while a message refers to
-- one of them
unfoldable pub sweep_queues : Faults → ℕ → ℕ → Store → Option Store
sweep_queues faults now ttl s =
    if faults sweeping_queues
      || (not (faults checking_keys) && any (in_expired now ttl s.queues) s.messages)
    then none
    else some (record s { queues = select (λ q. not (expired now ttl q)) s.queues })

-- ③ what was delivered and is older than the grace
unfoldable pub sweep_delivered : Faults → ℕ → ℕ → Store → Option Store
sweep_delivered faults now grace s =
    if faults sweeping_delivered
    then none
    else some (record s { messages = select (λ m. not (residue now grace m)) s.messages })

-- The counts that Sweep returns: expired queues, their messages, delivered residue.
pub record Swept : Type 0 where
  pub queues : ℕ
  pub orphaned : ℕ
  pub acked : ℕ

-- The store that a sweep leaves, and none for an error; what went before an error stays done.
sweep_third : Faults → ℕ → ℕ → Store → Store → Store → Store × Option Swept
unfolding sweep_delivered
sweep_third faults now grace s s₁ s₂ = elim (sweep_delivered faults now grace s₂) [
  | none ↦ (s₂, none)
  | some s₃ ↦ (
    s₃,
    some (record {
      queues = length s₁.queues - length s₂.queues;
      orphaned = length s.messages - length s₁.messages;
      acked = length s₂.messages - length s₃.messages;
    }),
  )
]

sweep_second : Faults → ℕ → ℕ → ℕ → Store → Store → Store × Option Swept
unfolding sweep_queues sweep_third
sweep_second faults now ttl grace s s₁ = elim (sweep_queues faults now ttl s₁) [
  | none ↦ (s₁, none)
  | some s₂ ↦ sweep_third faults now grace s s₁ s₂
]

unfoldable pub sweep : Faults → ℕ → ℕ → ℕ → Store → Store × Option Swept
unfolding sweep_messages sweep_second
sweep faults now ttl grace s = elim (sweep_messages faults now ttl s) [
  | none ↦ (s, none)
  | some s₁ ↦ sweep_second faults now ttl grace s s₁
]
