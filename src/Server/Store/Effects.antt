-- ===== src/Server/Store/Effects.antt =====
-- server/store.go: when a statement succeeds, and the tables that it leaves.
use knock.Prelude.{
  ℕ, ◌≡◌, true, false, not, none, some, ◌∷◌, [], ◌++◌, map, Bytes, eq_bytes, select, arith, ◌⊎◌,
}
use knock.Server.Store.{
  StoredMessage, MessageRow, Store, Faults, has_queue, has_mid, create_queue, save_message, mark,
  mark_delivered, touch_row, touch_queue, delete_message, expired, in_expired, residue,
  sweep_messages, sweep_queues, sweep_delivered, checking_keys,
}

abbrev pub row : StoredMessage → MessageRow
row m = record { message = m; delivered = false; delivered_at = none }

module _ (f : Faults) (s t : Store) where
  pub create_queue-eq-some :
      (qid : Bytes) (now : ℕ)
      → create_queue f qid now s ≡ some t
      → ((has_queue qid s.queues ≡ true) × (t ≡ s))
        ⊎ ((has_queue qid s.queues ≡ false)
            × (t ≡ record s {
              queues = s.queues ++ record { qid = qid; created_at = now; last_active = 0 } ∷ [];
            }))
  unfolding create_queue
  create_queue-eq-some qid now e = ground arith

  pub save_message-eq-some :
      (m : StoredMessage)
      → save_message f m s ≡ some t
      → (has_mid m.mid s.messages ≡ false)
        × ((f checking_keys ≡ true) ⊎ (has_queue m.qid s.queues ≡ true))
        × (t ≡ record s { messages = s.messages ++ row m ∷ [] })
  unfolding save_message
  save_message-eq-some m e = ground arith

  pub mark_delivered-eq-some :
      (mid : Bytes) (now : ℕ)
      → mark_delivered f mid now s ≡ some t
      → t ≡ record s { messages = map (mark mid now) s.messages }
  unfolding mark_delivered
  mark_delivered-eq-some mid now e = ground arith

  pub touch_queue-eq-some :
      (qid : Bytes) (now : ℕ)
      → touch_queue f qid now s ≡ some t
      → t ≡ record s { queues = map (touch_row qid now) s.queues }
  unfolding touch_queue
  touch_queue-eq-some qid now e = ground arith

  pub delete_message-eq-some :
      (mid : Bytes)
      → delete_message f mid s ≡ some t
      → t ≡ record s { messages = select (λ m. not (eq_bytes m.mid mid)) s.messages }
  unfolding delete_message
  delete_message-eq-some mid e = ground arith

  pub sweep_messages-eq-some :
      (now ttl : ℕ)
      → sweep_messages f now ttl s ≡ some t
      → t ≡ record s { messages = select (λ m. not (in_expired now ttl s.queues m)) s.messages }
  unfolding sweep_messages
  sweep_messages-eq-some now ttl e = ground arith

  pub sweep_queues-eq-some :
      (now ttl : ℕ)
      → sweep_queues f now ttl s ≡ some t
      → t ≡ record s { queues = select (λ q. not (expired now ttl q)) s.queues }
  unfolding sweep_queues
  sweep_queues-eq-some now ttl e = ground arith

  pub sweep_delivered-eq-some :
      (now grace : ℕ)
      → sweep_delivered f now grace s ≡ some t
      → t ≡ record s { messages = select (λ m. not (residue now grace m)) s.messages }
  unfolding sweep_delivered
  sweep_delivered-eq-some now grace e = ground arith
