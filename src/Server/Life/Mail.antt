-- ===== src/Server/Life/Mail.antt =====
-- server/main.go: the sweeper does not take mail from a queue that is in use.
use knock.Prelude.{
  ℕ, ◌+◌, ◌≤◌, ◌≡◌, ◌≢◌, refl, ◌⊎◌, inl, inr, false, not, Option, none, some, List, [], ◌∷◌, map,
  Bytes, eq_bytes, select, All, All-append, All-select, arith,
}
use knock.Protocol.Envelope.{Json}
use knock.Server.Store.{
  QueueRow, MessageRow, Store, Faults, has_queue, expired, in_expired, residue, touch_row, or_same,
  sweep_messages, sweep_queues, sweep_delivered,
}
use knock.Server.Store.Effects.{
  create_queue-eq-some, save_message-eq-some, touch_queue-eq-some, delete_message-eq-some,
  sweep_messages-eq-some, sweep_queues-eq-some, sweep_delivered-eq-some,
}
use knock.Server.Store.Changes.{
  Change, creates, touches, deletes, saves, marks, sweeps_messages, sweeps_queues, sweeps_delivered,
  change,
}
use knock.Server.Store.Writes.{In, In-select, Allowed, Writes, done, next, Writes-In}
use knock.Server.Run.{ok, Ensures, Ensures-ok, Ensures-bind, Ensures-imp, Any}
use knock.Server.Hub.State.{Hub}
use knock.Server.Hub.Loop.{step}
use knock.Server.Hub.Loop.Durable.{event_acks, step-Wrote}
use knock.Server.Life.{
  Turn, serves, sweeps_orphans, sweeps_stale, sweeps_residue, queue_ttl, ack_grace, turn, live,
}

-- A row of the queue that was used at `a` or later, or not at all; rows of other queues are as they like.
abbrev pub IsFresh : ℕ → Bytes → QueueRow → Type 0
IsFresh a qid q = (eq_bytes q.qid qid ≡ false) ⊎ ((q.last_active ≡ 0) ⊎ (a ≤ q.last_active))

abbrev pub AllFresh : ℕ → Bytes → Store → Type 0
AllFresh a qid s = All (IsFresh a qid) s.queues

touch_row-IsFresh :
    (a now : ℕ) (qid k : Bytes) (q : QueueRow)
    → a ≤ now
    → IsFresh a qid q
    → IsFresh a qid (touch_row k now q)
unfolding touch_row
touch_row-IsFresh a now qid k q l h = ground arith

touch_rows-IsFresh :
    (a now : ℕ) (qid k : Bytes) (qs : List QueueRow)
    → a ≤ now
    → All (IsFresh a qid) qs
    → All (IsFresh a qid) (map (touch_row k now) qs)
touch_rows-IsFresh a now qid k [] l h = tt
touch_rows-IsFresh a now qid k (q ∷ qs) l h =
    (touch_row-IsFresh a now qid k q l h.0, touch_rows-IsFresh a now qid k qs l h.1)

change-AllFresh :
    (f : Faults) (now : ℕ) (acked : Option Bytes) (a : ℕ) (qid : Bytes) (x : Change) (t u : Store)
    → a ≤ now
    → Allowed acked x
    → change f now x t ≡ some u
    → AllFresh a qid t
    → AllFresh a qid u
unfolding change
change-AllFresh f now acked a qid (creates k) t u l w e h =
    elim (create_queue-eq-some f t u k now e) [
      | inl same ↦ rw same.1 h
      | inr new ↦ rw new.1 (All-append (IsFresh a qid) t.queues _ h (inr (inl refl), tt))
    ]
change-AllFresh f now acked a qid (touches k) t u l w e h =
    rw (touch_queue-eq-some f t u k now e) (touch_rows-IsFresh a now qid k t.queues l h)
change-AllFresh f now acked a qid (deletes mid) t u l w e h =
    rw (delete_message-eq-some f t u mid e) h
change-AllFresh f now acked a qid (saves m) t u l w e h = rw ((save_message-eq-some f t u m e).2) h
change-AllFresh f now acked a qid (marks mid) t u l w e h = absurd w
change-AllFresh f now acked a qid (sweeps_messages k) t u l w e h = absurd w
change-AllFresh f now acked a qid (sweeps_queues k) t u l w e h = absurd w
change-AllFresh f now acked a qid (sweeps_delivered k) t u l w e h = absurd w

Writes-AllFresh :
    {f : Faults} {now : ℕ} {acked : Option Bytes} {s t : Store} (a : ℕ) (qid : Bytes)
    → a ≤ now
    → Writes f now acked s t
    → AllFresh a qid s
    → AllFresh a qid t
Writes-AllFresh a qid l done h = h
Writes-AllFresh {f} {now} {acked} a qid l (next {t = u} {u = t} c x w e) h =
    change-AllFresh f now acked a qid x u t l w e (Writes-AllFresh a qid l c h)

-- No row of the queue has expired.
fresh_not_expired :
    (a now ttl : ℕ) (qid : Bytes) (qs : List QueueRow)
    → now ≤ a + ttl
    → All (IsFresh a qid) qs
    → has_queue qid (select (expired now ttl) qs) ≡ false
fresh_not_expired a now ttl qid [] l h = refl
fresh_not_expired a now ttl qid (q ∷ qs) l h =
    ground (arith, h.0, fresh_not_expired a now ttl qid qs l h.1)

-- A message that waits at the queue, and the queue's rows.
record IsKept (a : ℕ) (r : MessageRow) (s : Store) : Type 0 where
  is_in : In r s.messages
  in_use : AllFresh a r.qid s

-- What a turn must not do: acknowledge the message, go behind the time `a`, or sweep when the queue has
-- not been used for as long as queue_ttl since.
abbrev pub Spares : ℕ → MessageRow → Turn → Type 0
Spares a r (serves w e) = (event_acks e ≢ some r.mid) × (a ≤ w.now)
Spares a r (sweeps_orphans f now) = now ≤ a + queue_ttl
Spares a r (sweeps_stale f now) = Unit
Spares a r (sweeps_residue f now) = Unit

swept-IsKept :
    (a : ℕ) (r : MessageRow) (s : Store) (o : Option Store)
    → ((t : Store) → o ≡ some t → IsKept a r t)
    → IsKept a r s
    → IsKept a r (or_same o s)
swept-IsKept a r s none f h = h
swept-IsKept a r s (some t) f h = f t refl

module _ (j : Json) (a : ℕ) (r : MessageRow) (waits : r.delivered ≡ false) where
  turn-IsKept :
      (t : Turn) (h : Hub)
      → Spares a r t
      → IsKept a r h.store
      → Ensures (λ g. IsKept a r g.store) Any (turn j t h)
  unfolding turn
  turn-IsKept (serves w e) h p k = Ensures-imp (step j w e h) (step-Wrote j w h e) λ g c. record {
    is_in = Writes-In r p.0 c k.is_in;
    in_use = Writes-AllFresh a r.qid p.1 c k.in_use;
  }
  turn-IsKept (sweeps_orphans f now) h p k = Ensures-ok _ (
      swept-IsKept a r h.store (sweep_messages f now queue_ttl h.store)
        (λ t e. rw (sweep_messages-eq-some f h.store t now queue_ttl e) (record {
          is_in =
              In-select r (λ m. not (in_expired now queue_ttl h.store.queues m)) h.store.messages
                (rw (fresh_not_expired a now queue_ttl r.qid h.store.queues p k.in_use)) k.is_in;
          in_use = k.in_use;
        }))
        k)
  turn-IsKept (sweeps_stale f now) h p k = Ensures-ok _ (
      swept-IsKept a r h.store (sweep_queues f now queue_ttl h.store)
        (λ t e. rw (sweep_queues-eq-some f h.store t now queue_ttl e) (record {
          is_in = k.is_in;
          in_use =
              All-select (IsFresh a r.qid) (λ q. not (expired now queue_ttl q)) h.store.queues
                k.in_use;
        }))
        k)
  turn-IsKept (sweeps_residue f now) h p k = Ensures-ok _ (
      swept-IsKept a r h.store (sweep_delivered f now ack_grace h.store)
        (λ t e. rw (sweep_delivered-eq-some f h.store t now ack_grace e) (record {
          is_in =
              In-select r (λ m. not (residue now ack_grace m)) h.store.messages (rw waits) k.is_in;
          in_use = k.in_use;
        }))
        k)

  live-IsKept :
      (ts : List Turn) (h : Hub)
      → All (Spares a r) ts
      → IsKept a r h.store
      → Ensures (λ g. IsKept a r g.store) Any (live j ts h)
  unfolding live
  live-IsKept [] h p k = Ensures-ok h k
  live-IsKept (t ∷ ts) h p k = Ensures-bind _ (turn-IsKept t h p.0 k) λ g q. live-IsKept ts g p.1 q

  -- With the sweeper at work, statement by statement between the events of the hub, a message that waits
  -- is not lost or changed: it is in the table after any run that does not panic, with any faults, in
  -- which no ACK carries its mid, no clock goes back behind a time `a`, and the orphans are swept no
  -- later than queue_ttl after `a`, if its queue was used at `a` or later, or never, when the run began.
  pub live_keeps_message :
      (ts : List Turn) (h g : Hub)
      → All (Spares a r) ts
      → In r h.store.messages
      → All (IsFresh a r.qid) h.store.queues
      → live j ts h ≡ ok g
      → In r g.store.messages
  live_keeps_message ts h g p i q e =
      ((live-IsKept ts h p (record { is_in = i; in_use = q })).returns g e).is_in
