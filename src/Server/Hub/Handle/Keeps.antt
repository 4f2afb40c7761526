-- ===== src/Server/Hub/Handle/Keeps.antt =====
-- server/hub.go: invariants of the commands, from what the sends, the kick and the assignments keep.
use knock.Prelude.{
  ℕ, ◌≤◌, ◌≡◌, refl, true, Option, none, some, List, [], ◌∷◌, Bytes, eq_bytes, ◌==◌, length, insert,
  Option-cases, inl, inr, arith,
}
use knock.Protocol.Id.{valid_queue_id}
use knock.Protocol.Id.Valid.{valid_queue_id_iff}
use knock.Protocol.Envelope.{Envelope, Payload, Json, type_new, type_sub, type_send, type_ack}
use knock.Server.Store.{
  Store, StoredMessage, create_queue, save_message, undelivered, delete_message,
}
use knock.Server.Run.{
  Panic, slice_out_of_range, Ensures, Ensures-ok, Ensures-bind, Ensures-if, short_log,
  short_log-Ensures,
}
use knock.Server.Hub.State.{
  Hub, World, QueueState, idle, Found, missing, found, is_client, kick, find_queue, lookup_found,
}
use knock.Server.Hub.Handle.{
  touched, own, set_sub, incoming, send_to, error_to, create, replay, replay_offline, kick_previous,
  subscribe, deliver_online, deliver, handle_ack, handle,
}

pub record Keeps (j : Json) (w : World) (P : Hub → Type 0) (E : Panic → Type 0) : Type 0 where
  pub slices : E slice_out_of_range
  pub stores : (s : Store) (h : Hub) → P h → P (record h { store = s })
  pub queues :
      (qid : Bytes) (qs : QueueState) (h : Hub)
      → 8 ≤ length qid
      → P h
      → P (record h { queues = insert qid qs h.queues })
  pub sends :
      (c : ℕ) (t qid mid : Bytes) (p : Payload) (h : Hub)
      → P h
      → Ensures P E (send_to j w c t qid mid p h)
  pub kicks : (c : ℕ) (h : Hub) → P h → Ensures P E (kick c h)

module _ {j : Json} {w : World} {P : Hub → Type 0} {E : Panic → Type 0} (k : Keeps j w P E) where
  error_to-Keeps :
      (c code : ℕ) (msg : Bytes) (h : Hub) → P h → Ensures P E (error_to j w c code msg h)
  unfolding error_to
  error_to-Keeps c code msg h q = k.sends c _ [] [] _ h q

  create-Keeps : (c : ℕ) (o : Option Bytes) (h : Hub) → P h → Ensures P E (create j w c o h)
  unfolding create
  create-Keeps c none h q = error_to-Keeps c _ _ h q
  create-Keeps c (some qid) h q = elim (Option-cases (create_queue w.faults qid w.now h.store)) [
    | inl bad ↦ rw (bad, create) (error_to-Keeps c _ _ h q)
    | inr (t, good) ↦
        rw (good, create)
          (Ensures-bind _ (short_log-Ensures E qid k.slices) λ _ long.
            k.sends c _ qid [] _ (own c qid (touched w qid (record h { store = t })))
              (k.queues qid _ (touched w qid (record h { store = t })) long (k.stores _ h q)))
  ]

  replay-Keeps :
      (c : ℕ) (qid : Bytes) (ms : List StoredMessage) (h : Hub)
      → P h
      → Ensures P E (replay j w c qid ms h)
  unfolding replay
  replay-Keeps c qid [] h q = Ensures-ok h q
  replay-Keeps c qid (m ∷ ms) h q =
      Ensures-bind _ (k.sends c _ qid m.mid _ h q) λ h' q'. replay-Keeps c qid ms h' q'

  replay_offline-Keeps :
      (c : ℕ) (qid : Bytes) (h : Hub) → P h → Ensures P E (replay_offline j w c qid h)
  unfolding replay_offline
  replay_offline-Keeps c qid h q = elim (Option-cases (undelivered w.faults qid h.store)) [
    | inl bad ↦ rw (bad, replay_offline) (Ensures-ok h q)
    | inr (ms, good) ↦ rw (good, replay_offline) (replay-Keeps c qid ms h q)
  ]

  kick_previous-Keeps : (c : ℕ) (o : Option ℕ) (h : Hub) → P h → Ensures P E (kick_previous c o h)
  unfolding kick_previous
  kick_previous-Keeps c none h q = Ensures-ok h q
  kick_previous-Keeps c (some old) h q =
      Ensures-if (old == c) (λ _. Ensures-ok h q) (λ _. k.kicks old h q)

  -- What find_queue leaves is the hub, or the hub with one more idle entry.
  find_queue-Keeps :
      (qid : Bytes) (h : Hub)
      → 8 ≤ length qid
      → P h
      → (qs : QueueState) (h₀ : Hub) → find_queue w qid h ≡ found qs h₀
      → P h₀
  find_queue-Keeps qid h long q qs h₀ e = elim (lookup_found w qid h qs h₀ e) [
    | inl same ↦ rw same q
    | inr new ↦ rw new (k.queues qid idle h long q)
  ]

  subscribe-Keeps :
      (c : ℕ) (qid : Bytes) (r : Found) (h : Hub)
      → 8 ≤ length qid
      → P h
      → ((qs : QueueState) (h₀ : Hub) → r ≡ found qs h₀ → P h₀)
      → Ensures P E (subscribe j w c qid r h)
  unfolding subscribe
  subscribe-Keeps c qid (missing code msg) h long q f = error_to-Keeps c code msg h q
  subscribe-Keeps c qid (found qs h₀) h long q f =
      Ensures-if (is_client qs.owner c) (λ _. error_to-Keeps c _ _ h₀ (f qs h₀ refl))
        λ _. Ensures-bind _ (kick_previous-Keeps c qs.sub h₀ (f qs h₀ refl)) λ h₁ q₁.
          Ensures-bind _ (k.sends c _ qid [] _ (set_sub c qid qs h₁) (k.queues qid _ h₁ long q₁))
            λ h₂ q₂.
              Ensures-bind _ (replay_offline-Keeps c qid h₂ q₂)
                λ h₃ q₃. Ensures-ok (touched w qid h₃) (k.stores _ h₃ q₃)

  deliver_online-Keeps :
      (o : Option ℕ) (qid mid : Bytes) (env : Envelope) (h : Hub)
      → P h
      → Ensures P E (deliver_online j w o qid mid env h)
  unfolding deliver_online
  deliver_online-Keeps none qid mid env h q = Ensures-ok h q
  deliver_online-Keeps (some c) qid mid env h q = k.sends c _ qid mid _ h q

  deliver-Keeps :
      (c : ℕ) (env : Envelope) (qid mid : Bytes) (r : Found) (h : Hub)
      → P h
      → ((qs : QueueState) (h₀ : Hub) → r ≡ found qs h₀ → P h₀)
      → Ensures P E (deliver j w c env qid mid r h)
  unfolding deliver
  deliver-Keeps c env qid mid (missing code msg) h q f = error_to-Keeps c code msg h q
  deliver-Keeps c env qid mid (found qs h₀) h q f =
      elim (Option-cases (save_message w.faults (incoming w qid mid env) h₀.store)) [
        | inl bad ↦ rw (bad, deliver) (error_to-Keeps c _ _ h₀ (f qs h₀ refl))
        | inr (t, good) ↦
            rw (good, deliver)
              (Ensures-bind _
                (deliver_online-Keeps qs.sub qid mid env (touched w qid (record h₀ { store = t }))
                  (k.stores _ h₀ (f qs h₀ refl)))
                λ h₁ q₁. Ensures-bind _ (short_log-Ensures E qid k.slices) λ _ _.
                  Ensures-bind _ (short_log-Ensures E mid k.slices)
                    λ _ _. k.sends c _ qid mid _ h₁ q₁)
      ]

  handle_ack-Keeps : (env : Envelope) (h : Hub) → P h → Ensures P E (handle_ack w env h)
  unfolding handle_ack
  handle_ack-Keeps env h q = elim (Option-cases (delete_message w.faults env.msg_id h.store)) [
    | inl bad ↦
        rw (bad, handle_ack)
          (Ensures-bind _ (log env.msg_id) λ _ _.
            Ensures-bind _ (log env.queue_id)
              λ _ _. Ensures-bind _ (log env.msg_id) λ _ _. Ensures-ok h q)
    | inr (t, good) ↦
        rw (good, handle_ack)
          (Ensures-bind _ (log env.queue_id) λ _ _.
            Ensures-bind _ (log env.msg_id)
              λ _ _. Ensures-ok (record h { store = t }) (k.stores t h q))
  ]
    where
      log : (s : Bytes) → Ensures (λ _. 8 ≤ length s) E (short_log s)
      log s = short_log-Ensures E s k.slices

  -- A command keeps what its sends, its kick and its assignments keep.
  pub handle-Keeps : (c : ℕ) (env : Envelope) (h : Hub) → P h → Ensures P E (handle j w c env h)
  unfolding handle
  handle-Keeps c env h q =
      Ensures-if (eq_bytes env.msg_type type_new)
        (λ _. Ensures-if (eq_bytes env.queue_id []) (λ _. create-Keeps c _ h q) (λ _. refuse _ _))
        λ _.
          Ensures-if (eq_bytes env.msg_type type_sub)
            (λ _.
              Ensures-if (valid_queue_id env.queue_id)
                (λ v.
                  subscribe-Keeps c env.queue_id _ h (long v) q
                    (find_queue-Keeps env.queue_id h (long v) q))
                (λ _. refuse _ _))
            λ _.
              Ensures-if (eq_bytes env.msg_type type_send)
                (λ _.
                  Ensures-if (valid_queue_id env.queue_id)
                    (λ v.
                      deliver-Keeps c env env.queue_id _ _ h q
                        (find_queue-Keeps env.queue_id h (long v) q))
                    (λ _. refuse _ _))
                λ _.
                  Ensures-if (eq_bytes env.msg_type type_ack) (λ _. handle_ack-Keeps env h q)
                    (λ _. refuse _ _)
    where
      refuse : (code : ℕ) (msg : Bytes) → Ensures P E (error_to j w c code msg h)
      refuse code msg = error_to-Keeps c code msg h q

      long : valid_queue_id env.queue_id ≡ true → 8 ≤ length env.queue_id
      long v = omega (arith, ((valid_queue_id_iff env.queue_id).0 v).0)
