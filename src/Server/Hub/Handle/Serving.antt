-- ===== src/Server/Hub/Handle/Serving.antt =====
-- server/hub.go: the commands do not panic while every queue has one reader and the ids are long enough.
use knock.Prelude.{
  ℕ, ◌≤◌, ◌≡◌, sym, ◌⊎◌, Bool, true, Option, none, some, List, [], ◌∷◌, Bytes, eq_bytes,
  eq_bytes_iff, ◌==◌, ==_iff, length, All, Map, lookup, insert, Bool-cases, inl, inr, arith, ltb,
}
use mathlib.Core.Option.{some-injective}
use knock.Protocol.Envelope.{Envelope, type_sub, type_send, type_ack}
use knock.Server.Store.{Store}
use knock.Server.Run.{Panic, Run, Ensures, Ensures-ok, Ensures-if, short_log}
use knock.Server.Channel.Offers.{IsLive, push, push-IsLive}
use knock.Server.Hub.State.{Hub, World, QueueState, idle, found, find_queue}
use knock.Server.Hub.Handle.{message_id}
use knock.Server.Hub.Handle.Mail.{update_self, update_ne, mail}

-- No panic at all.
abbrev pub Never : Panic → Type 0
Never p = ⊥

-- A subscriber is the reader of its queue, and there.
abbrev pub IsRead : (ℕ → Bool) → ℕ → Option ℕ → Type 0
IsRead here r none = Unit
IsRead here r (some c) = (c ≡ r) × (here c ≡ true)

-- The connections that are there are registered and have live channels, and the only subscriber of a queue is
-- its reader.
pub record IsServing (here : ℕ → Bool) (reader : Bytes → ℕ) (h : Hub) : Type 0 where
  pub present : (c : ℕ) → h.clients c ≡ here c
  pub lively : (c : ℕ) → here c ≡ true → IsLive (h.chans c)
  pub readers : All (λ (e : Bytes × QueueState). IsRead here (reader e.0) (e.1).sub) h.queues

-- A command that keeps to the rules: SUB comes from the reader of its queue, and the ids that the log lines
-- cut have eight bytes; what crypto/rand delivers has 16.
pub record IsProper (reader : Bytes → ℕ) (w : World) (c : ℕ) (env : Envelope) : Type 0 where
  pub reads : env.msg_type ≡ type_sub → c ≡ reader env.queue_id
  pub sends : env.msg_type ≡ type_send → 8 ≤ length (message_id w env)
  pub acks_queue : env.msg_type ≡ type_ack → 8 ≤ length env.queue_id
  pub acks_message : env.msg_type ≡ type_ack → 8 ≤ length env.msg_id
  pub random : (b : Bytes) → w.random ≡ some b → length b ≡ 16

pub log_long : (s : Bytes) → 8 ≤ length s → Ensures (λ _. Unit) Never (short_log s)
unfolding short_log
log_long s long =
    Ensures-if (ltb (length s) 8) (λ short. absurd (ground (arith, short, long)))
      λ _. Ensures-ok tt tt

-- An entry of the map, or a new idle one.
entry_found :
    (w : World) (qid : Bytes) (h : Hub) (qs : QueueState) (h₀ : Hub)
    → find_queue w qid h ≡ found qs h₀
    → ((lookup qid h.queues ≡ some qs) × (h₀ ≡ h))
      ⊎ ((qs ≡ idle) × (h₀ ≡ record h { queues = insert qid idle h.queues }))
unfolding find_queue
entry_found w qid h qs h₀ e = ground arith

module _ (here : ℕ → Bool) (reader : Bytes → ℕ) where
  readers-lookup :
      (qid : Bytes) (qs : QueueState) (m : Map QueueState)
      → All (λ (e : Bytes × QueueState). IsRead here (reader e.0) (e.1).sub) m
      → lookup qid m ≡ some qs
      → IsRead here (reader qid) qs.sub
  unfolding lookup
  readers-lookup qid qs [] a e = cc
  readers-lookup qid qs ((k, v) ∷ m) a e = elim (Bool-cases (eq_bytes k qid)) [
    | inl same ↦
        let e' : ◌≡◌ {A = Option QueueState} (some v) (some qs) = rw same at e in
        rw (sym ((eq_bytes_iff k qid).0 same), sym (some-injective v qs e')) a.0
    | inr other ↦ readers-lookup qid qs m a.1 (rw other at e)
  ]

  readers-insert :
      (qid : Bytes) (qs : QueueState) (m : Map QueueState)
      → IsRead here (reader qid) qs.sub
      → All (λ (e : Bytes × QueueState). IsRead here (reader e.0) (e.1).sub) m
      → All (λ (e : Bytes × QueueState). IsRead here (reader e.0) (e.1).sub) (insert qid qs m)
  unfolding insert
  readers-insert qid qs [] r a = (r, tt)
  readers-insert qid qs ((k, v) ∷ m) r a = elim (Bool-cases (eq_bytes k qid)) [
    | inl same ↦ rw (same, (eq_bytes_iff k qid).0 same) (r, a.1)
    | inr other ↦ rw other (a.0, readers-insert qid qs m r a.1)
  ]

  pub mail-IsServing :
      (c : ℕ) (es : List Envelope) (h : Hub)
      → IsServing here reader h
      → IsServing here reader (mail c es h)
  mail-IsServing c es h s = record {
    present = s.present;
    lively = λ d k. kept d k;
    readers = s.readers;
  }
    where
      kept : (d : ℕ) → here d ≡ true → IsLive ((mail c es h).chans d)
      kept d k = elim (Bool-cases (c == d)) [
        | inl same ↦
            let e = (==_iff c d).0 same in
            rw (e, update_self h.chans d (push es (h.chans d))) (push-IsLive es (s.lively d k))
        | inr other ↦
            rw (update_ne h.chans c (push es (h.chans c)) d (λ e. ground (arith, e, other)))
              (s.lively d k)
      ]

  pub enter-IsServing :
      (qid : Bytes) (qs : QueueState) (h : Hub)
      → IsRead here (reader qid) qs.sub
      → IsServing here reader h
      → IsServing here reader (record h { queues = insert qid qs h.queues })
  enter-IsServing qid qs h r s = record {
    present = s.present;
    lively = s.lively;
    readers = readers-insert qid qs h.queues r s.readers;
  }

  pub store-IsServing :
      (t : Store) (h : Hub)
      → IsServing here reader h
      → IsServing here reader (record h { store = t })
  store-IsServing t h s = record { present = s.present; lively = s.lively; readers = s.readers }

  -- What find_queue gives: the subscriber of the entry is the reader of the queue.
  pub find_queue-IsServing :
      (w : World) (qid : Bytes) (h : Hub) (qs : QueueState) (h₀ : Hub)
      → find_queue w qid h ≡ found qs h₀
      → IsServing here reader h
      → IsServing here reader h₀ × IsRead here (reader qid) qs.sub
  find_queue-IsServing w qid h qs h₀ e s = elim (entry_found w qid h qs h₀ e) [
    | inl (known, same) ↦ rw same (s, readers-lookup qid qs h.queues s.readers known)
    | inr (new, fresh) ↦ rw (fresh, new) (enter-IsServing qid idle h tt s, tt)
  ]

  abbrev pub Calm : Run Hub → Type 0
  Calm = Ensures (IsServing here reader) Never
