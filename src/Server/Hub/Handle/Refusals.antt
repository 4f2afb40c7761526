-- ===== src/Server/Hub/Handle/Refusals.antt =====
-- server/hub.go: the commands that handle refuses.
use knock.Prelude.{
  ℕ, ◌≡◌, ◌⊎◌, refl, ◌∙◌, true, false, none, some, [], Bytes, codes, eq_bytes, eq_bytes_iff, lookup,
  insert, inl, inr, Bool-cases, Option-cases, arith,
}
use knock.Protocol.Id.{new_id, valid_queue_id}
use knock.Protocol.Envelope.{
  Envelope, error_message, Json, new_envelope, type_new, type_sub, type_send, type_ack, type_error,
  code_bad_request, code_queue_not_found, code_server_error,
}
use knock.Server.Store.{Store, has_queue, queue_exists, create_queue, save_message}
use knock.Server.Run.{Run, ok}
use knock.Server.Channel.Offers.{IsLive, frames}
use knock.Server.Hub.State.{
  Hub, World, QueueState, idle, Found, missing, found, is_client, find_queue, lookup_found,
}
use knock.Server.Hub.Handle.Mail.{mail, send_to-mail}
use knock.Server.Hub.Handle.{
  error_to, create, subscribe, deliver, incoming, message_id, handle_new, handle_sub, handle_send,
  handle,
}

-- What a command must meet to be accepted: NEW carries no queue id, and NewID and CreateQueue succeed; SUB is for
-- a queue that is known and whose owner is another connection; SEND is for one that is known, and its row is
-- saved. Any ACK is accepted.
pub data Accepted (w : World) (from : ℕ) (env : Envelope) (h : Hub) : Type 0 where
  makes :
      env.msg_type ≡ type_new
      → env.queue_id ≡ []
      → (qid : Bytes) (s : Store) → new_id w.random ≡ some qid
      → create_queue w.faults qid w.now h.store ≡ some s
      → Accepted w from env h
  joins :
      env.msg_type ≡ type_sub
      → valid_queue_id env.queue_id ≡ true
      → (qs : QueueState) (h₀ : Hub) → find_queue w env.queue_id h ≡ found qs h₀
      → is_client qs.owner from ≡ false
      → Accepted w from env h
  saves :
      env.msg_type ≡ type_send
      → valid_queue_id env.queue_id ≡ true
      → (qs : QueueState) (h₀ : Hub) → find_queue w env.queue_id h ≡ found qs h₀
      → (s : Store)
      → save_message w.faults (incoming w env.queue_id (message_id w env) env) h₀.store ≡ some s
      → Accepted w from env h
  acknowledges : env.msg_type ≡ type_ack → Accepted w from env h

-- Whose fault a refusal is: the command's, or that of a queue that neither the memory nor the table has,
-- or the server's.
abbrev pub Blamed : Envelope → Hub → ℕ → Type 0
Blamed env h code =
    (code ≡ code_bad_request)
    ⊎ (((code ≡ code_queue_not_found)
          × (lookup env.queue_id h.queues ≡ none)
          × (has_queue env.queue_id h.store.queues ≡ false))
        ⊎ (code ≡ code_server_error))

-- The hub, but for an idle entry of the queue that find_queue may have taken up again.
pub record IsAlike (qid : Bytes) (h g : Hub) : Type 0 where
  pub store : g.store ≡ h.store
  pub clients : g.clients ≡ h.clients
  pub chans : g.chans ≡ h.chans
  pub queues : (g.queues ≡ h.queues) ⊎ (g.queues ≡ insert qid idle h.queues)

IsAlike-refl : (qid : Bytes) (h : Hub) → IsAlike qid h h
IsAlike-refl qid h = record { store = refl; clients = refl; chans = refl; queues = inl refl }

Found-cases :
    (r : Found)
    → ((code : ℕ) × (text : Bytes) × (r ≡ missing code text))
      ⊎ ((qs : QueueState) × (h₀ : Hub) × (r ≡ found qs h₀))
Found-cases (missing code text) = inl (code, text, refl)
Found-cases (found qs h₀) = inr (qs, h₀, refl)

missing-Blamed :
    (w : World) (env : Envelope) (h : Hub) (code : ℕ) (text : Bytes)
    → find_queue w env.queue_id h ≡ missing code text
    → Blamed env h code
unfolding find_queue queue_exists
missing-Blamed w env h code text e = ground arith

found-IsAlike :
    (w : World) (qid : Bytes) (h : Hub) (qs : QueueState) (h₀ : Hub)
    → find_queue w qid h ≡ found qs h₀
    → IsAlike qid h h₀
found-IsAlike w qid h qs h₀ e = elim (lookup_found w qid h qs h₀ e) [
  | inl same ↦ rw same (IsAlike-refl qid h)
  | inr new ↦ rw new (record { store = refl; clients = refl; chans = refl; queues = inr refl })
]

module _ (j : Json) (w : World) (from : ℕ) (env : Envelope) (h : Hub) where
  pub handle-send : env.msg_type ≡ type_send → handle j w from env h ≡ handle_send j w from env h
  unfolding handle eq_bytes
  handle-send e = rw e

  -- The hub after an ERROR to the sender.
  abbrev pub told : ℕ → Bytes → Hub
  told code text =
      mail from (frames (new_envelope j w.now type_error [] [] (error_message code text))) h

  error_to-told :
      (code : ℕ) (text : Bytes)
      → IsLive (h.chans from)
      → error_to j w from code text h ≡ ok (told code text)
  unfolding error_to
  error_to-told code text l = send_to-mail j w from type_error [] [] (error_message code text) h l

  -- A SEND to a queue of the memory whose row the table does not take.
  pub send_unsaved :
      (qs : QueueState)
      → env.msg_type ≡ type_send
      → valid_queue_id env.queue_id ≡ true
      → lookup env.queue_id h.queues ≡ some qs
      → save_message w.faults (incoming w env.queue_id (message_id w env) env) h.store ≡ none
      → IsLive (h.chans from)
      → handle j w from env h ≡ ok (told code_server_error (codes "storage error"))
  unfolding handle_send find_queue
  send_unsaved qs t v m e l =
      handle-send t ∙ rw (v, m, find_queue, e, deliver) (error_to-told code_server_error _ l)

module _ (j : Json) (w : World) (from : ℕ) (env : Envelope) (h : Hub)
    (l : IsLive (h.chans from)) where
  -- An ERROR to the sender, and nothing else.
  pub record IsRefused (r : Run Hub) : Type 0 where
    pub code : ℕ
    pub text : Bytes
    pub left : Hub
    pub returns : r ≡ ok (told j w from env left code text)
    pub blamed : Blamed env h code
    pub alike : IsAlike env.queue_id h left

  refuse :
      (code : ℕ) (text : Bytes) (g : Hub)
      → Blamed env h code
      → IsAlike env.queue_id h g
      → IsRefused (error_to j w from code text g)
  refuse code text g b a = record {
    code = code;
    text = text;
    left = g;
    returns = error_to-told j w from env g code text (rw a.chans l);
    blamed = b;
    alike = a;
  }

  new-refuses :
      env.msg_type ≡ type_new → Accepted w from env h ⊎ IsRefused (handle_new j w from env h)
  unfolding handle_new
  new-refuses t = elim (Bool-cases (eq_bytes env.queue_id [])) [
    | inr other ↦
        inr (rw other (refuse code_bad_request _ h (inl refl) (IsAlike-refl env.queue_id h)))
    | inl none_ ↦ elim (Option-cases (new_id w.random)) [
      | inl bad ↦ inr (
          rw (none_, bad, create)
            (refuse code_server_error _ h (inr (inr refl)) (IsAlike-refl env.queue_id h)))
      | inr (qid, made) ↦ elim (Option-cases (create_queue w.faults qid w.now h.store)) [
        | inl bad ↦ inr (
            rw (none_, made, create, bad)
              (refuse code_server_error _ h (inr (inr refl)) (IsAlike-refl env.queue_id h)))
        | inr (s, good) ↦ inl (makes t ((eq_bytes_iff env.queue_id []).0 none_) qid s made good)
      ]
    ]
  ]

  sub-refuses :
      env.msg_type ≡ type_sub → Accepted w from env h ⊎ IsRefused (handle_sub j w from env h)
  unfolding handle_sub
  sub-refuses t = elim (Bool-cases (valid_queue_id env.queue_id)) [
    | inr bad ↦ inr (rw bad (refuse code_bad_request _ h (inl refl) (IsAlike-refl env.queue_id h)))
    | inl good ↦ elim (Found-cases (find_queue w env.queue_id h)) [
      | inl (code, text, e) ↦ inr (
          rw (good, e, subscribe)
            (refuse code text h (missing-Blamed w env h code text e) (IsAlike-refl env.queue_id h)))
      | inr (qs, h₀, e) ↦ elim (Bool-cases (is_client qs.owner from)) [
        | inl own_ ↦ inr (
            rw (good, e, subscribe, own_)
              (refuse code_bad_request _ h₀ (inl refl) (found-IsAlike w env.queue_id h qs h₀ e)))
        | inr other ↦ inl (joins t good qs h₀ e other)
      ]
    ]
  ]

  send-refuses :
      env.msg_type ≡ type_send → Accepted w from env h ⊎ IsRefused (handle_send j w from env h)
  unfolding handle_send
  send-refuses t = elim (Bool-cases (valid_queue_id env.queue_id)) [
    | inr bad ↦ inr (rw bad (refuse code_bad_request _ h (inl refl) (IsAlike-refl env.queue_id h)))
    | inl good ↦ elim (Found-cases (find_queue w env.queue_id h)) [
      | inl (code, text, e) ↦ inr (
          rw (good, e, deliver)
            (refuse code text h (missing-Blamed w env h code text e) (IsAlike-refl env.queue_id h)))
      | inr (qs, h₀, e) ↦
          elim (Option-cases
            (save_message w.faults (incoming w env.queue_id (message_id w env) env) h₀.store)) [
              | inl bad ↦ inr (
                  rw (good, e, deliver, bad)
                    (refuse code_server_error _ h₀ (inr (inr refl))
                      (found-IsAlike w env.queue_id h qs h₀ e)))
              | inr (s, saved) ↦ inl (saves t good qs h₀ e s saved)
            ]
    ]
  ]

  -- Any command is accepted or refused. One that does not meet what it must to be accepted gets one ERROR,
  -- as far as the channel of its sender has room, with 404 only for a queue that neither the memory nor
  -- the table has; nobody else is sent anything, and the tables, the registered connections and the
  -- queues in memory are as they were, but for an idle entry of the queue that may have been taken up
  -- from the table, if the channel of the sender is open and not overfull.
  pub handle_refuses : Accepted w from env h ⊎ IsRefused (handle j w from env h)
  unfolding handle
  handle_refuses = elim (Bool-cases (eq_bytes env.msg_type type_new)) [
    | inl t ↦ rw t (new-refuses ((eq_bytes_iff env.msg_type type_new).0 t))
    | inr n ↦ elim (Bool-cases (eq_bytes env.msg_type type_sub)) [
      | inl t ↦ rw (n, t) (sub-refuses ((eq_bytes_iff env.msg_type type_sub).0 t))
      | inr s ↦ elim (Bool-cases (eq_bytes env.msg_type type_send)) [
        | inl t ↦ rw (n, s, t) (send-refuses ((eq_bytes_iff env.msg_type type_send).0 t))
        | inr d ↦ elim (Bool-cases (eq_bytes env.msg_type type_ack)) [
          | inl t ↦ inl (acknowledges ((eq_bytes_iff env.msg_type type_ack).0 t))
          | inr a ↦ inr (
              rw (n, s, d, a)
                (refuse code_bad_request _ h (inl refl) (IsAlike-refl env.queue_id h)))
        ]
      ]
    ]
  ]
