-- ===== src/Server/Hub/Handle/Tables.antt =====
-- server/hub.go: what a command does to the tables.
use knock.Prelude.{
  ℕ, ◌≡◌, refl, true, Option, none, some, List, [], ◌∷◌, Bytes, eq_bytes, ◌==◌, if◌then◌else◌,
  Option-cases, inl, inr, arith,
}
use knock.Protocol.Id.{valid_queue_id}
use knock.Protocol.Envelope.{Envelope, Payload, Json, type_new, type_sub, type_send, type_ack}
use knock.Server.Store.{
  Store, StoredMessage, create_queue, save_message, undelivered, delete_message,
}
use knock.Server.Store.Changes.{change, creates, saves, deletes}
use knock.Server.Store.Writes.{Writes, done, next, Writes-touch}
use knock.Server.Run.{
  Run, Ensures, Ensures-ok, Ensures-Any, Ensures-bind, Ensures-if, Ensures-panic, Any,
  close_of_closed, short_log,
}
use knock.Server.Channel.{send_envelope}
use knock.Server.Hub.State.{
  Hub, World, QueueState, Found, is_client, missing, found, kick, close_send, forget, find_queue,
}
use knock.Server.Hub.Handle.{
  touched, own, set_sub, incoming, send_to, error_to, create, replay, replay_offline, kick_previous,
  subscribe, deliver_online, deliver, handle_ack, handle,
}

-- A property of the tables, after a run that returns.
abbrev pub OfStore : (Store → Type 0) → Run Hub → Type 0
OfStore Q = Ensures (λ h. Q h.store) Any

module _ (Q : Store → Type 0) where
  pub close_send-OfStore : (c : ℕ) (h : Hub) → Q h.store → OfStore Q (close_send c h)
  unfolding close_send
  close_send-OfStore c h q =
      Ensures-if (h.chans c).closed (λ _. Ensures-panic close_of_closed tt) (λ _. Ensures-ok _ q)

  kick-OfStore : (c : ℕ) (h : Hub) → Q h.store → OfStore Q (kick c h)
  unfolding kick
  kick-OfStore c h q =
      Ensures-if (h.clients c) (λ _. close_send-OfStore c (forget c h) q) (λ _. Ensures-ok h q)

  kick_previous-OfStore :
      (c : ℕ) (o : Option ℕ) (h : Hub) → Q h.store → OfStore Q (kick_previous c o h)
  unfolding kick_previous
  kick_previous-OfStore c none h q = Ensures-ok h q
  kick_previous-OfStore c (some old) h q =
      Ensures-if (old == c) (λ _. Ensures-ok h q) (λ _. kick-OfStore old h q)

module _ (j : Json) (w : World) (Q : Store → Type 0) where
  send_to-OfStore :
      (c : ℕ) (t qid mid : Bytes) (p : Payload) (h : Hub)
      → Q h.store
      → OfStore Q (send_to j w c t qid mid p h)
  unfolding send_to
  send_to-OfStore c t qid mid p h q =
      Ensures-bind _ (Ensures-Any (send_envelope j w.now t qid mid p (h.chans c)))
        λ ch _. Ensures-ok _ q

  error_to-OfStore :
      (c code : ℕ) (msg : Bytes) (h : Hub) → Q h.store → OfStore Q (error_to j w c code msg h)
  unfolding error_to
  error_to-OfStore c code msg h q = send_to-OfStore c _ [] [] _ h q

  replay-OfStore :
      (c : ℕ) (qid : Bytes) (ms : List StoredMessage) (h : Hub)
      → Q h.store
      → OfStore Q (replay j w c qid ms h)
  unfolding replay
  replay-OfStore c qid [] h q = Ensures-ok h q
  replay-OfStore c qid (m ∷ ms) h q =
      Ensures-bind _ (send_to-OfStore c _ qid m.mid _ h q) λ h' q'. replay-OfStore c qid ms h' q'

  replay_offline-OfStore :
      (c : ℕ) (qid : Bytes) (h : Hub) → Q h.store → OfStore Q (replay_offline j w c qid h)
  unfolding replay_offline
  replay_offline-OfStore c qid h q = elim (Option-cases (undelivered w.faults qid h.store)) [
    | inl bad ↦ rw (bad, replay_offline) (Ensures-ok h q)
    | inr (ms, good) ↦ rw (good, replay_offline) (replay-OfStore c qid ms h q)
  ]

  deliver_online-OfStore :
      (o : Option ℕ) (qid mid : Bytes) (env : Envelope) (h : Hub)
      → Q h.store
      → OfStore Q (deliver_online j w o qid mid env h)
  unfolding deliver_online
  deliver_online-OfStore none qid mid env h q = Ensures-ok h q
  deliver_online-OfStore (some c) qid mid env h q = send_to-OfStore c _ qid mid _ h q

-- Taking a queue up again leaves the tables alone.
pub found-store :
    (w : World) (qid : Bytes) (h h₀ : Hub) (qs : QueueState)
    → find_queue w qid h ≡ found qs h₀
    → h₀.store ≡ h.store
unfolding find_queue
found-store w qid h h₀ qs e = ground arith

-- The tables after the command, from the tables `s` before it.
abbrev pub Wrote : World → Option Bytes → Store → Run Hub → Type 0
Wrote w acked s = OfStore (Writes w.faults w.now acked s)

module _ (j : Json) (w : World) (acked : Option Bytes) (s : Store) where
  abbrev Reached : Store → Type 0
  Reached = Writes w.faults w.now acked s

  create-Wrote :
      (c : ℕ) (o : Option Bytes) (h : Hub)
      → Writes w.faults w.now acked s h.store
      → Wrote w acked s (create j w c o h)
  unfolding create
  create-Wrote c none h q = error_to-OfStore j w Reached c _ _ h q
  create-Wrote c (some qid) h q = elim (Option-cases (create_queue w.faults qid w.now h.store)) [
    | inl bad ↦ rw (bad, create) (error_to-OfStore j w Reached c _ _ h q)
    | inr (t, good) ↦
        rw (good, create)
          (Ensures-bind _ (Ensures-Any (short_log qid)) λ _ _.
            send_to-OfStore j w Reached c _ qid [] _
              (own c qid (touched w qid (record h { store = t })))
              (Writes-touch qid (next {u = t} q (creates qid) tt (unfold change in good))))
  ]

  subscribe-Wrote :
      (c : ℕ) (qid : Bytes) (r : Found) (h : Hub)
      → Writes w.faults w.now acked s h.store
      → ((qs : QueueState) (h₀ : Hub) → r ≡ found qs h₀ → Writes w.faults w.now acked s h₀.store)
      → Wrote w acked s (subscribe j w c qid r h)
  unfolding subscribe
  subscribe-Wrote c qid (missing code msg) h q k = error_to-OfStore j w Reached c code msg h q
  subscribe-Wrote c qid (found qs h₀) h q k =
      Ensures-if (is_client qs.owner c) (λ _. error_to-OfStore j w Reached c _ _ h₀ (k qs h₀ refl))
        λ _. Ensures-bind _ (kick_previous-OfStore Reached c qs.sub h₀ (k qs h₀ refl)) λ h₁ q₁.
          Ensures-bind _ (send_to-OfStore j w Reached c _ qid [] _ (set_sub c qid qs h₁) q₁)
            λ h₂ q₂.
              Ensures-bind _ (replay_offline-OfStore j w Reached c qid h₂ q₂)
                λ h₃ q₃. Ensures-ok (touched w qid h₃) (Writes-touch qid q₃)

  deliver-Wrote :
      (c : ℕ) (env : Envelope) (qid mid : Bytes) (r : Found) (h : Hub)
      → Writes w.faults w.now acked s h.store
      → ((qs : QueueState) (h₀ : Hub) → r ≡ found qs h₀ → Writes w.faults w.now acked s h₀.store)
      → Wrote w acked s (deliver j w c env qid mid r h)
  unfolding deliver
  deliver-Wrote c env qid mid (missing code msg) h q k = error_to-OfStore j w Reached c code msg h q
  deliver-Wrote c env qid mid (found qs h₀) h q k =
      elim (Option-cases (save_message w.faults (incoming w qid mid env) h₀.store)) [
        | inl bad ↦ rw (bad, deliver) (error_to-OfStore j w Reached c _ _ h₀ (k qs h₀ refl))
        | inr (t, good) ↦
            rw (good, deliver)
              (Ensures-bind _
                (deliver_online-OfStore j w Reached qs.sub qid mid env
                  (touched w qid (record h₀ { store = t }))
                  (Writes-touch qid (
                    next {u = t} (k qs h₀ refl) (saves (incoming w qid mid env)) tt
                      (unfold change in good))))
                λ h₁ q₁. Ensures-bind _ (Ensures-Any (short_log qid)) λ _ _.
                  Ensures-bind _ (Ensures-Any (short_log mid))
                    λ _ _. send_to-OfStore j w Reached c _ qid mid _ h₁ q₁)
      ]

  find_queue-Writes :
      (qid : Bytes) (h : Hub)
      → Writes w.faults w.now acked s h.store
      → (qs : QueueState) (h₀ : Hub) → find_queue w qid h ≡ found qs h₀
      → Writes w.faults w.now acked s h₀.store
  find_queue-Writes qid h q qs h₀ e = rw (found-store w qid h h₀ qs e) q

  handle_ack-Wrote :
      (env : Envelope) (h : Hub)
      → acked ≡ some env.msg_id
      → Writes w.faults w.now acked s h.store
      → Wrote w acked s (handle_ack w env h)
  unfolding handle_ack
  handle_ack-Wrote env h e q = elim (Option-cases (delete_message w.faults env.msg_id h.store)) [
    | inl bad ↦
        rw (bad, handle_ack)
          (Ensures-bind _ (Ensures-Any (short_log env.msg_id)) λ _ _.
            Ensures-bind _ (Ensures-Any (short_log env.queue_id))
              λ _ _. Ensures-bind _ (Ensures-Any (short_log env.msg_id)) λ _ _. Ensures-ok h q)
    | inr (t, good) ↦
        rw (good, handle_ack)
          (Ensures-bind _ (Ensures-Any (short_log env.queue_id)) λ _ _.
            Ensures-bind _ (Ensures-Any (short_log env.msg_id)) λ _ _.
              Ensures-ok (record h { store = t })
                (next {u = t} q (deletes env.msg_id) e (unfold change in good)))
  ]

  handle-Reached :
      (c : ℕ) (env : Envelope) (h : Hub)
      → (eq_bytes env.msg_type type_ack ≡ true → acked ≡ some env.msg_id)
      → Writes w.faults w.now acked s h.store
      → Wrote w acked s (handle j w c env h)
  unfolding handle
  handle-Reached c env h a q =
      Ensures-if (eq_bytes env.msg_type type_new)
        (λ _. Ensures-if (eq_bytes env.queue_id []) (λ _. create-Wrote c _ h q) (λ _. refuse _ _))
        λ _.
          Ensures-if (eq_bytes env.msg_type type_sub)
            (λ _.
              Ensures-if (valid_queue_id env.queue_id)
                (λ _. subscribe-Wrote c env.queue_id _ h q (find_queue-Writes env.queue_id h q))
                (λ _. refuse _ _))
            λ _.
              Ensures-if (eq_bytes env.msg_type type_send)
                (λ _.
                  Ensures-if (valid_queue_id env.queue_id)
                    (λ _.
                      deliver-Wrote c env env.queue_id _ _ h q (find_queue-Writes env.queue_id h q))
                    (λ _. refuse _ _))
                λ _.
                  Ensures-if (eq_bytes env.msg_type type_ack)
                    (λ is_ack. handle_ack-Wrote env h (a is_ack) q) (λ _. refuse _ _)
    where
      refuse : (code : ℕ) (msg : Bytes) → Wrote w acked s (error_to j w c code msg h)
      refuse code msg = error_to-OfStore j w Reached c code msg h q

-- The mid that a command acknowledges.
abbrev pub acks : Envelope → Option Bytes
acks env = if eq_bytes env.msg_type type_ack then some env.msg_id else none

-- A command changes the tables only by a row of successful statements, none of which marks or
-- sweeps a message, and which delete a message only if the command is an ACK of its mid.
pub handle-Wrote :
    (j : Json) (w : World) (c : ℕ) (env : Envelope) (h : Hub)
    → Wrote w (acks env) h.store (handle j w c env h)
handle-Wrote j w c env h = handle-Reached j w (acks env) h.store c env h (λ e. rw e) done
