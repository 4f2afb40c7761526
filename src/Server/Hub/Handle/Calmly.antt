-- ===== src/Server/Hub/Handle/Calmly.antt =====
-- server/hub.go: each command of handle, without a panic.
use knock.Prelude.{
  ℕ, ◌≤◌, ◌≡◌, refl, sym, Bool, true, Option, none, some, List, [], ◌∷◌, Bytes, eq_bytes,
  eq_bytes_iff, ==_refl, length, Option-cases, inl, inr, arith,
}
use mathlib.Core.Option.{some-injective}
use knock.Protocol.Id.{new_id, valid_queue_id}
use knock.Protocol.Id.Valid.{valid_queue_id_iff, length-encode_hex}
use knock.Protocol.Envelope.{
  Envelope, Payload, Json, type_new, type_sub, type_send, type_ack, new_envelope,
}
use knock.Server.Store.{StoredMessage, create_queue, save_message, undelivered, delete_message}
use knock.Server.Run.{Ensures-ok, Ensures-bind, Ensures-if}
use knock.Server.Channel.Offers.{frames}
use knock.Server.Hub.State.{Hub, World, QueueState, Found, missing, found, is_client, find_queue}
use knock.Server.Hub.Handle.{
  touched, own, set_sub, incoming, send_to, error_to, create, replay, replay_offline, kick_previous,
  subscribe, deliver_online, deliver, handle_ack, handle,
}
use knock.Server.Hub.Handle.Mail.{send_to-mail}
use knock.Server.Hub.Handle.Serving.{
  IsRead, IsServing, IsProper, Calm, log_long, mail-IsServing, enter-IsServing, store-IsServing,
  find_queue-IsServing,
}

-- A new id has 32 digits.
hex_long :
    (o : Option Bytes)
    → ((b : Bytes) → o ≡ some b → length b ≡ 16)
    → (q : Bytes) → new_id o ≡ some q
    → 8 ≤ length q
unfolding new_id
hex_long none r q e = cc
hex_long (some b) r q e =
    rw (sym (some-injective _ q e)) (omega (arith, length-encode_hex b, r b refl))

module _ (here : ℕ → Bool) (reader : Bytes → ℕ) where
  module _ (j : Json) (w : World) where
    send_to-Calm :
        (c : ℕ) (t qid mid : Bytes) (p : Payload) (h : Hub)
        → here c ≡ true
        → IsServing here reader h
        → Calm here reader (send_to j w c t qid mid p h)
    send_to-Calm c t qid mid p h k s = rw (send_to-mail j w c t qid mid p h (s.lively c k)) (
        Ensures-ok _ (mail-IsServing here reader c (frames (new_envelope j w.now t qid mid p)) h s))

    module _ (c : ℕ) (k : here c ≡ true) where
      error_to-Calm :
          (code : ℕ) (msg : Bytes) (h : Hub)
          → IsServing here reader h
          → Calm here reader (error_to j w c code msg h)
      unfolding error_to
      error_to-Calm code msg h s = send_to-Calm c _ [] [] _ h k s

      create-Calm :
          (o : Option Bytes) (h : Hub)
          → ((q : Bytes) → o ≡ some q → 8 ≤ length q)
          → IsServing here reader h
          → Calm here reader (create j w c o h)
      unfolding create
      create-Calm none h long s = error_to-Calm _ _ h s
      create-Calm (some qid) h long s =
          elim (Option-cases (create_queue w.faults qid w.now h.store)) [
            | inl bad ↦ rw (bad, create) (error_to-Calm _ _ h s)
            | inr (t, good) ↦
                rw (good, create)
                  (Ensures-bind _ (log_long qid (long qid refl)) λ _ _.
                    send_to-Calm c _ qid [] _ (own c qid (touched w qid (record h { store = t }))) k
                      (enter-IsServing here reader qid _ (touched w qid (record h { store = t })) tt
                        (store-IsServing here reader _ h s)))
          ]

      replay-Calm :
          (qid : Bytes) (ms : List StoredMessage) (h : Hub)
          → IsServing here reader h
          → Calm here reader (replay j w c qid ms h)
      unfolding replay
      replay-Calm qid [] h s = Ensures-ok h s
      replay-Calm qid (m ∷ ms) h s =
          Ensures-bind _ (send_to-Calm c _ qid m.mid _ h k s) λ h' s'. replay-Calm qid ms h' s'

      replay_offline-Calm :
          (qid : Bytes) (h : Hub)
          → IsServing here reader h
          → Calm here reader (replay_offline j w c qid h)
      unfolding replay_offline
      replay_offline-Calm qid h s = elim (Option-cases (undelivered w.faults qid h.store)) [
        | inl bad ↦ rw (bad, replay_offline) (Ensures-ok h s)
        | inr (ms, good) ↦ rw (good, replay_offline) (replay-Calm qid ms h s)
      ]

      -- The reader of a queue kicks nobody.
      kick_previous-Calm :
          (o : Option ℕ) (r : ℕ) (h : Hub)
          → c ≡ r
          → IsRead here r o
          → IsServing here reader h
          → Calm here reader (kick_previous c o h)
      unfolding kick_previous
      kick_previous-Calm none r h e i s = Ensures-ok h s
      kick_previous-Calm (some old) r h e i s = rw (i.0, e, ==_refl r) (Ensures-ok h s)

      subscribe-Calm :
          (qid : Bytes) (r : Found) (h : Hub)
          → c ≡ reader qid
          → IsServing here reader h
          → ((qs : QueueState) (h₀ : Hub)
              → r ≡ found qs h₀
              → IsServing here reader h₀ × IsRead here (reader qid) qs.sub)
          → Calm here reader (subscribe j w c qid r h)
      unfolding subscribe
      subscribe-Calm qid (missing code msg) h e s f = error_to-Calm code msg h s
      subscribe-Calm qid (found qs h₀) h e s f =
          let (s₀, i) = f qs h₀ refl in
          Ensures-if (is_client qs.owner c) (λ _. error_to-Calm _ _ h₀ s₀)
            λ _. Ensures-bind _ (kick_previous-Calm qs.sub (reader qid) h₀ e i s₀) λ h₁ s₁.
              Ensures-bind _
                (send_to-Calm c _ qid [] _ (set_sub c qid qs h₁) k
                  (enter-IsServing here reader qid _ h₁ (e, k) s₁))
                λ h₂ s₂.
                  Ensures-bind _ (replay_offline-Calm qid h₂ s₂)
                    λ h₃ s₃. Ensures-ok (touched w qid h₃) (store-IsServing here reader _ h₃ s₃)

      deliver_online-Calm :
          (o : Option ℕ) (r : ℕ) (qid mid : Bytes) (env : Envelope) (h : Hub)
          → IsRead here r o
          → IsServing here reader h
          → Calm here reader (deliver_online j w o qid mid env h)
      unfolding deliver_online
      deliver_online-Calm none r qid mid env h i s = Ensures-ok h s
      deliver_online-Calm (some d) r qid mid env h i s = send_to-Calm d _ qid mid _ h i.1 s

      deliver-Calm :
          (env : Envelope) (qid mid : Bytes) (r : Found) (h : Hub)
          → 8 ≤ length qid
          → 8 ≤ length mid
          → IsServing here reader h
          → ((qs : QueueState) (h₀ : Hub)
              → r ≡ found qs h₀
              → IsServing here reader h₀ × IsRead here (reader qid) qs.sub)
          → Calm here reader (deliver j w c env qid mid r h)
      unfolding deliver
      deliver-Calm env qid mid (missing code msg) h long long' s f = error_to-Calm code msg h s
      deliver-Calm env qid mid (found qs h₀) h long long' s f =
          let (s₀, i) = f qs h₀ refl in
          elim (Option-cases (save_message w.faults (incoming w qid mid env) h₀.store)) [
            | inl bad ↦ rw (bad, deliver) (error_to-Calm _ _ h₀ s₀)
            | inr (t, good) ↦
                rw (good, deliver)
                  (Ensures-bind _
                    (deliver_online-Calm qs.sub (reader qid) qid mid env
                      (touched w qid (record h₀ { store = t })) i
                      (store-IsServing here reader _ h₀ s₀))
                    λ h₁ s₁. Ensures-bind _ (log_long qid long) λ _ _.
                      Ensures-bind _ (log_long mid long') λ _ _. send_to-Calm c _ qid mid _ h₁ k s₁)
          ]

      handle_ack-Calm :
          (env : Envelope) (h : Hub)
          → 8 ≤ length env.queue_id
          → 8 ≤ length env.msg_id
          → IsServing here reader h
          → Calm here reader (handle_ack w env h)
      unfolding handle_ack
      handle_ack-Calm env h long long' s =
          elim (Option-cases (delete_message w.faults env.msg_id h.store)) [
            | inl bad ↦
                rw (bad, handle_ack)
                  (Ensures-bind _ (log_long env.msg_id long') λ _ _.
                    Ensures-bind _ (log_long env.queue_id long)
                      λ _ _. Ensures-bind _ (log_long env.msg_id long') λ _ _. Ensures-ok h s)
            | inr (t, good) ↦
                rw (good, handle_ack)
                  (Ensures-bind _ (log_long env.queue_id long) λ _ _.
                    Ensures-bind _ (log_long env.msg_id long') λ _ _.
                      Ensures-ok (record h { store = t }) (store-IsServing here reader t h s))
          ]

      pub handle-Calm :
          (env : Envelope) (h : Hub)
          → IsProper reader w c env
          → IsServing here reader h
          → Calm here reader (handle j w c env h)
      unfolding handle
      handle-Calm env h p s =
          Ensures-if (eq_bytes env.msg_type type_new)
            (λ _.
              Ensures-if (eq_bytes env.queue_id [])
                (λ _. create-Calm _ h (hex_long w.random p.random) s) (λ _. error_to-Calm _ _ h s))
            λ _.
              Ensures-if (eq_bytes env.msg_type type_sub)
                (λ t.
                  Ensures-if (valid_queue_id env.queue_id)
                    (λ _.
                      subscribe-Calm env.queue_id _ h (p.reads (is_type t)) s
                        (looked_up env.queue_id))
                    (λ _. error_to-Calm _ _ h s))
                λ _.
                  Ensures-if (eq_bytes env.msg_type type_send)
                    (λ t.
                      Ensures-if (valid_queue_id env.queue_id)
                        (λ v.
                          deliver-Calm env env.queue_id _ _ h (long v) (p.sends (is_type t)) s
                            (looked_up env.queue_id))
                        (λ _. error_to-Calm _ _ h s))
                    λ _.
                      Ensures-if (eq_bytes env.msg_type type_ack)
                        (λ t.
                          handle_ack-Calm env h (p.acks_queue (is_type t))
                            (p.acks_message (is_type t)) s)
                        (λ _. error_to-Calm _ _ h s)
        where
          is_type : {t : Bytes} → eq_bytes env.msg_type t ≡ true → env.msg_type ≡ t
          is_type {t} e = (eq_bytes_iff env.msg_type t).0 e

          long : valid_queue_id env.queue_id ≡ true → 8 ≤ length env.queue_id
          long v = omega (arith, ((valid_queue_id_iff env.queue_id).0 v).0)

          looked_up :
              (qid : Bytes) (qs : QueueState) (h₀ : Hub)
              → find_queue w qid h ≡ found qs h₀
              → IsServing here reader h₀ × IsRead here (reader qid) qs.sub
          looked_up qid qs h₀ e = find_queue-IsServing here reader w qid h qs h₀ e s
