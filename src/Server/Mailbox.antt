-- ===== src/Server/Mailbox.antt =====
-- What the server promises of its queues, without its tables: boxes by queue id, each with the messages that
-- wait in it, in the order in which they will be delivered.
pub mod Refine
use knock.Prelude.{
  ℕ, ◌≡◌, ◌⊎◌, Bool, true, false, not, ◌||◌, Option, some, List, [], ◌∷◌, Bytes, eq_bytes, ltb,
  if◌then◌else◌, select, any, map,
}
use knock.Server.Store.{StoredMessage, MessageRow, Store, has_queue, pending}
use knock.Server.Store.Order.{order_by_ts}
use knock.Server.Store.Order.Arrival.{arrive}

-- `is_box` says which queues there are.
pub record Mailboxes : Type 0 where
  pub is_box : Bytes → Bool
  pub mail : Bytes → List StoredMessage

abbrev pub open_box : Bytes → Mailboxes → Mailboxes
open_box qid b = record b { is_box = λ q. b.is_box q || eq_bytes qid q }

abbrev pub post : StoredMessage → Mailboxes → Mailboxes
post m b = record b {
  mail = λ q. if eq_bytes m.qid q then arrive (λ x. x.ts) m (b.mail q) else b.mail q;
}

abbrev pub discard : Bytes → Mailboxes → Mailboxes
discard mid b = record b { mail = λ q. select (λ m. not (eq_bytes m.mid mid)) (b.mail q) }

-- The boxes that the tables stand for.
abbrev pub waiting : Bytes → List MessageRow → List StoredMessage
waiting q rows = map (λ r. r.message) (order_by_ts (λ r. r.ts) (select (pending q) rows))

abbrev pub view : Store → Mailboxes
view s = record { is_box = λ q. has_queue q s.queues; mail = λ q. waiting q s.messages }

-- What one command may do to the boxes: open boxes, put a new message behind those of its box, and
-- discard the message that the command acknowledges. The box of a new message is there, unless foreign
-- keys go `unchecked`.
pub data Served (unchecked : Bool) (acked : Option Bytes) (b : Mailboxes) : Mailboxes → Type 0 where
  unchanged : Served unchecked acked b b
  opens :
      {c : Mailboxes}
      → Served unchecked acked b c
      → (qid : Bytes) → Served unchecked acked b (open_box qid c)
  posts :
      {c : Mailboxes}
      → Served unchecked acked b c
      → (m : StoredMessage) → (unchecked ≡ true) ⊎ (c.is_box m.qid ≡ true)
      → ((q : Bytes) → any (λ x. eq_bytes x.mid m.mid) (c.mail q) ≡ false)
      → Served unchecked acked b (post m c)
  discards :
      {c : Mailboxes}
      → Served unchecked acked b c
      → (mid : Bytes) → acked ≡ some mid
      → Served unchecked acked b (discard mid c)

-- A sequence of commands, by whether foreign keys go unchecked and by the mids that they acknowledge.
pub data Serves : List (Bool × Option Bytes) → Mailboxes → Mailboxes → Type 0 where
  ended : {b : Mailboxes} → Serves [] b b
  then_served :
      {unchecked : Bool} {acked : Option Bytes} {rest : List (Bool × Option Bytes)}
      {b c d : Mailboxes}
      → Served unchecked acked b c
      → Serves rest c d
      → Serves ((unchecked, acked) ∷ rest) b d
