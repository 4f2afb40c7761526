-- ===== src/Server/Store/Sweeps.antt =====
-- server/store.go: what a whole Sweep leaves, and in which order messages are replayed.
use knock.Prelude.{
  Bool, ◌&&◌, ltb, ◌+◌, ℕ, ◌≤◌, ◌≡◌, refl, false, not, some, List, [], ◌∷◌, map, Bytes, ◌==◌,
  length, any-select_self, select, length-select_rest, ap, ◌∙◌, arith, All,
}
use knock.Server.Store.{
  QueueRow, has_queue, StoredMessage, MessageRow, Store, Faults, expired, in_expired, residue,
  pending, undelivered, sweep, Swept, sweeping_messages, sweeping_queues, sweeping_delivered,
  listing,
}
use knock.Server.Store.Order.{IsOrdered, order_by_ts, order_by_ts-IsOrdered, select-order_by_ts}

-- A queue that was used once, and not for as long as `ttl`; a delivered message older than `grace`.
abbrev pub is_stale : ℕ → ℕ → QueueRow → Bool
is_stale now ttl q = ltb (q.last_active + ttl) now && ltb 0 q.last_active

abbrev pub is_residue : ℕ → ℕ → MessageRow → Bool
is_residue now grace m = m.delivered && ltb (m.ts + grace) now

-- The messages at queues that are not stale.
abbrev pub at_live : ℕ → ℕ → Store → List MessageRow
at_live now ttl s =
    select (λ m. not (has_queue m.qid (select (is_stale now ttl) s.queues))) s.messages

-- The tables that a sweep should leave.
abbrev pub kept : ℕ → ℕ → ℕ → Store → Store
kept now ttl grace s = record {
  queues = select (λ q. not (is_stale now ttl q)) s.queues;
  messages = select (λ m. not (is_residue now grace m)) (at_live now ttl s);
}

-- The counts that it should report.
abbrev pub dropped : ℕ → ℕ → ℕ → Store → Swept
dropped now ttl grace s = record {
  queues = length (select (is_stale now ttl) s.queues);
  orphaned = length (select (λ m. has_queue m.qid (select (is_stale now ttl) s.queues)) s.messages);
  acked = length (select (is_residue now grace) (at_live now ttl s));
}

-- If the driver fails none of its statements, a sweep succeeds, whatever the tables hold: it drops
-- exactly the stale queues, their messages, and the old delivered ones, and it reports how many.
pub sweep_lem :
    (f : Faults) (now ttl grace : ℕ) (s : Store)
    → f sweeping_messages ≡ false
    → f sweeping_queues ≡ false
    → f sweeping_delivered ≡ false
    → sweep f now ttl grace s ≡ (kept now ttl grace s, some (dropped now ttl grace s))
unfolding sweep
sweep_lem f now ttl grace s h₁ h₂ h₃ = ground (
  arith,
  any-select_self (in_expired now ttl s.queues) s.messages,
  length-select_rest (expired now ttl) s.queues,
  length-select_rest (in_expired now ttl s.queues) s.messages,
  length-select_rest (residue now grace)
      (select (λ m. not (in_expired now ttl s.queues m)) s.messages),
)

select-message :
    (t : ℕ) (ms : List MessageRow)
    → select (λ (m : StoredMessage). m.ts == t) (map (λ (r : MessageRow). r.message) ms)
      ≡ map (λ (r : MessageRow). r.message) (select (λ (r : MessageRow). r.ts == t) ms)
select-message t [] = refl
select-message t (m ∷ ms) = ground (arith, select-message t ms)

All-message :
    (n : ℕ) (ms : List MessageRow)
    → All (λ (r : MessageRow). n ≤ r.ts) ms
    → All (λ (m : StoredMessage). n ≤ m.ts) (map (λ (r : MessageRow). r.message) ms)
All-message n [] h = tt
All-message n (m ∷ ms) h = (h.0, All-message n ms h.1)

IsOrdered-message :
    (ms : List MessageRow)
    → IsOrdered (λ (r : MessageRow). r.ts) ms
    → IsOrdered (λ (m : StoredMessage). m.ts) (map (λ (r : MessageRow). r.message) ms)
IsOrdered-message [] h = tt
IsOrdered-message (m ∷ ms) h = (All-message m.ts ms h.0, IsOrdered-message ms h.1)

-- Undelivered, if the driver does not fail it, returns the messages of the queue that are not marked
-- as delivered, oldest time first; those of one second come in the order in which they were saved.
pub undelivered_lem :
    (f : Faults) (qid : Bytes) (s : Store)
    → f listing ≡ false
    → (ms : List StoredMessage) × (undelivered f qid s ≡ some ms)
      × IsOrdered (λ m. m.ts) ms
      × ((t : ℕ)
          → select (λ m. m.ts == t) ms
            ≡ map (λ r. r.message) (select (λ r. r.ts == t) (select (pending qid) s.messages)))
unfolding undelivered
undelivered_lem f qid s h = (
  map (λ r. r.message) sorted,
  ground arith,
  IsOrdered-message sorted (order_by_ts-IsOrdered (λ r. r.ts) rows),
  λ t.
      select-message t sorted
      ∙ ap (map (λ (r : MessageRow). r.message)) (select-order_by_ts (λ r. r.ts) t rows),
)
  where
    rows : List MessageRow
    rows = select (pending qid) s.messages

    sorted : List MessageRow
    sorted = order_by_ts (λ r. r.ts) rows
