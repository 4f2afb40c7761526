-- ===== src/Client/Pumps/Signing.antt =====
-- client/pumps.go: the ACKs of a session, and the texts of what it sends.
use mathlib.Core.List
use knock.Prelude.{
  ℕ, ◌≡◌, sym, ap, ◌∙◌, Bool, true, false, List, [], ◌∷◌, ◌++◌, Bytes, eq_bytes, select,
  select-append,
}
use knock.Protocol.Envelope.{
  Envelope, chat_message, ack_message, Json, new_envelope, sealed, struct_text, type_ack, type_send,
}
use knock.Server.Channel.{encode}
use knock.Client.Pumps.{Shown, message, failure, queue_full, Session, frame_of, sign}

abbrev pub is_ack : Envelope → Bool
is_ack e = eq_bytes e.msg_type type_ack

abbrev pub is_message : Shown → Bool
is_message (message text) = true
is_message (failure code text) = false
is_message queue_full = false

-- The ACKs that the session has put on its channel so far.
abbrev pub acks : Session → List Envelope
acks s = select is_ack (s.written ++ s.send)

-- Frames put behind what was sent.
pub acks-more :
    (s : Session) (es : List Envelope)
    → acks (record s { send = s.send ++ es }) ≡ acks s ++ select is_ack es
acks-more s es =
    ap (select is_ack) (sym (mathlib.Core.List.append_assoc s.written s.send es))
    ∙ select-append is_ack (s.written ++ s.send) es

module _ (j : Json) where
  frame_of-ack :
      (now : ℕ) (qid mid : Bytes)
      → frame_of j now type_ack qid mid (ack_message mid)
        ≡ sealed now type_ack qid mid (struct_text j.quote (ack_message mid)) ∷ []
  unfolding frame_of new_envelope encode
  frame_of-ack now qid mid = rw (j.compact-own (ack_message mid) tt)

  pub frame_of-send :
      (now : ℕ) (qid mid text : Bytes)
      → select is_ack (frame_of j now type_send qid mid (chat_message text)) ≡ []
  unfolding frame_of new_envelope encode eq_bytes
  frame_of-send now qid mid text = rw (j.compact-own (chat_message text) tt)

  -- The ACK of a message.
  abbrev pub signature : ℕ → Envelope → Envelope
  signature now env =
      sealed now type_ack env.queue_id env.msg_id (struct_text j.quote (ack_message env.msg_id))

  pub acks-sign :
      (now : ℕ) (env : Envelope) (s : Session)
      → acks (sign j now env s) ≡ acks s ++ signature now env ∷ []
  unfolding sign eq_bytes
  acks-sign now env s =
      acks-more s (frame_of j now type_ack env.queue_id env.msg_id (ack_message env.msg_id))
      ∙ ap (λ (es : List Envelope). acks s ++ select is_ack es)
          (frame_of-ack now env.queue_id env.msg_id)
