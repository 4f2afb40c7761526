-- ===== src/Server/Store/References.antt =====
-- server/store.go: a Sweep leaves no message of a queue that is gone.
use knock.Prelude.{
  ℕ, ◌≡◌, true, false, not, eq_bytes, select, any, any-select_self, any-select_rest, All, All-imp,
  All-select, All-any, All-both, Bool-cases, ◌||◌, ◌&&◌, inl, inr,
}
use knock.Server.Store.{
  checking_keys, sweeping_messages, sweeping_queues, sweeping_delivered, MessageRow, Store, Faults,
  has_queue, expired, in_expired, residue, sweep_messages, sweep_queues, sweep_delivered, sweep,
  sweep_second, sweep_third,
}

-- Every message is at a queue of the table.
abbrev pub Refers : Store → Type 0
Refers s = All (λ (m : MessageRow). has_queue m.qid s.queues ≡ true) s.messages

third-Refers :
    (f : Faults) (now grace : ℕ) (s s₁ s₂ : Store)
    → Refers s₂
    → Refers (sweep_third f now grace s s₁ s₂).0
unfolding sweep_third
third-Refers f now grace s s₁ s₂ r = elim (Bool-cases (f sweeping_delivered)) [
  | inl bad ↦ rw (sweep_third, sweep_delivered, bad) r
  | inr good ↦
      rw (sweep_third, sweep_delivered, good)
        (All-select (λ (m : MessageRow). has_queue m.qid s₂.queues ≡ true)
          (λ m. not (residue now grace m)) s₂.messages r)
]

-- Queues may go when their messages are gone.
rest-Refers :
    (now ttl : ℕ) (s : Store)
    → Refers s
    → any (in_expired now ttl s.queues) s.messages ≡ false
    → Refers (record s { queues = select (λ q. not (expired now ttl q)) s.queues })
rest-Refers now ttl s r free =
    All-imp (λ m e. any-select_rest (λ q. eq_bytes q.qid m.qid) (expired now ttl) s.queues e.0 e.1)
      s.messages (All-both _ _ s.messages r (All-any _ s.messages free))

second-Refers :
    (f : Faults) (now ttl grace : ℕ) (s s₁ : Store)
    → Refers s₁
    → any (in_expired now ttl s₁.queues) s₁.messages ≡ false
    → Refers (sweep_second f now ttl grace s s₁).0
unfolding sweep_second
second-Refers f now ttl grace s s₁ r free =
    elim (Bool-cases (
      f sweeping_queues
      || (not (f checking_keys) && any (in_expired now ttl s₁.queues) s₁.messages))) [
        | inl bad ↦ rw (sweep_second, sweep_queues, bad) r
        | inr good ↦
            rw (sweep_second, sweep_queues, good)
              (third-Refers f now grace s s₁
                (record s₁ { queues = select (λ q. not (expired now ttl q)) s₁.queues })
                (rest-Refers now ttl s₁ r free))
      ]

-- A Sweep, with nothing between its statements and whatever the driver fails of them, leaves no message of a
-- queue that is gone, if there was none: it does not need the foreign key for that.
pub sweep-Refers :
    (f : Faults) (now ttl grace : ℕ) (s : Store) → Refers s → Refers (sweep f now ttl grace s).0
unfolding sweep
sweep-Refers f now ttl grace s r = elim (Bool-cases (f sweeping_messages)) [
  | inl bad ↦ rw (sweep, sweep_messages, bad) r
  | inr good ↦
      rw (sweep, sweep_messages, good)
        (second-Refers f now ttl grace s
          (record s { messages = select (λ m. not (in_expired now ttl s.queues m)) s.messages })
          (All-select (λ (m : MessageRow). has_queue m.qid s.queues ≡ true)
            (λ m. not (in_expired now ttl s.queues m)) s.messages r)
          (any-select_self (in_expired now ttl s.queues) s.messages))
]
