-- ===== src/Client/Pumps.antt =====
-- client/pumps.go: what readPump does with a frame, stdinLoop with a line, and writePump with the
-- channel between them. What json.Unmarshal makes of a payload is a parameter.
pub mod Signing
pub mod Once
pub mod Deliver
use knock.Prelude.{
  ℕ, ◌≡◌, Bool, true, false, Option, none, some, List, [], ◌∷◌, ◌++◌, Bytes, codes, eq_bytes, ltb,
  if◌then◌else◌, ◌||◌, length, has_key,
}
use knock.Prelude.Int.{ℤ}
use knock.Protocol.Id.{new_id}
use knock.Protocol.Envelope.{
  Envelope, Payload, chat_message, ack_message, Json, new_envelope, type_deliver, type_error,
  type_ack, type_send, Decoded, Parsed, accepted, refused, parse,
}
use knock.Server.Channel.{encode}
use mathlib.Core.Option

-- make(chan []byte, 16)
abbrev pub send_capacity : ℕ
send_capacity = 16

-- A line on the terminal, without the prompt and the name of the other side.
pub data Shown : Type 0 where
  message : Bytes → Shown
  failure : ℤ → Bytes → Shown
  queue_full : Shown

-- `send` is the channel, with the frame of a sender that waits for room as its last; `written` is what
-- the write pump has taken out.
pub record Session : Type 0 where
  pub seen : List Bytes
  pub send : List Envelope
  pub written : List Envelope
  pub screen : List Shown

-- The session that runChat starts.
abbrev pub started : Session
started = record { seen = []; send = []; written = []; screen = [] }

abbrev pub is_seen : Bytes → Session → Bool
is_seen mid s = has_key (λ m. m) mid s.seen

pub data Turn : Type 0 where
  reads : Decoded → Turn
  types : Option Bytes → Bytes → Turn
  writes : Turn

write_one : List Envelope → Session → Session
write_one [] s = s
write_one (e ∷ rest) s = record s { send = rest; written = s.written ++ e ∷ [] }

module _ (j : Json) where
  as_frame : Option Envelope → List Envelope
  as_frame none = []
  as_frame (some e) = e ∷ []

  encoded : Option Envelope → List Envelope
  unfolding as_frame
  encoded none = []
  encoded (some e) = as_frame (encode j e)

  -- The bytes of NewEnvelope and json.Marshal, whose errors do not occur for the program's structs.
  pub frame_of : ℕ → Bytes → Bytes → Bytes → Payload → List Envelope
  unfolding encoded
  frame_of now msg_type qid mid payload = encoded (new_envelope j now msg_type qid mid payload)

  -- s.send <- data: the reader blocks until there is room.
  pub sign : ℕ → Envelope → Session → Session
  unfolding frame_of
  sign now env s = record s {
    send = s.send ++ frame_of now type_ack env.queue_id env.msg_id (ack_message env.msg_id);
  }

  show_chat : ℕ → Envelope → Option Bytes → Session → Session
  unfolding sign
  show_chat now env none s = s
  show_chat now env (some text) s =
      sign now env (record s { screen = s.screen ++ message text ∷ [] })

  show_error : Option (ℤ × Bytes) → Session → Session
  show_error none s = s
  show_error (some (code, text)) s = record s { screen = s.screen ++ failure code text ∷ [] }

  -- A line of the user, trimmed, that is sent to the queue `outbox`. On a full channel it is dropped;
  -- /quit ends the session.
  type_line : ℕ → Option Bytes → Bytes → Bytes → Session → Session
  unfolding frame_of
  type_line now random outbox text s =
      if eq_bytes text [] || eq_bytes text (codes "/quit")
      then s
      else if ltb (length s.send) send_capacity
      then record s {
        send =
            s.send
            ++ frame_of now type_send outbox (Option.get_or (new_id random) []) (chat_message text);
      }
      else record s { screen = s.screen ++ queue_full ∷ [] }

  module _ (chat_text : Option Bytes → Option Bytes)
      (error_text : Option Bytes → Option (ℤ × Bytes)) where
    -- case protocol.TypeDeliver
    receive : ℕ → Envelope → Session → Session
    unfolding show_chat
    receive now env s =
        if is_seen env.msg_id s
        then s
        else show_chat now env (chat_text env.payload) (record s { seen = env.msg_id ∷ s.seen })

    read : ℕ → Parsed → Session → Session
    unfolding receive show_error
    read now (refused text) s = s
    read now (accepted env) s =
        if eq_bytes env.msg_type type_deliver
        then receive now env s
        else if eq_bytes env.msg_type type_error
        then show_error (error_text env.payload) s
        else s

    -- One turn of the session. The reader takes no frame while its ACK waits for room.
    unfoldable pub turn : ℕ → Bytes → Turn → Session → Session
    unfolding read type_line write_one parse
    turn now outbox (reads d) s =
        if ltb send_capacity (length s.send) then s else read now (parse d) s
    turn now outbox (types random text) s = type_line now random outbox text s
    turn now outbox writes s = write_one s.send s

    unfoldable pub chat : Bytes → List (ℕ × Turn) → Session → Session
    unfolding turn
    chat outbox [] s = s
    chat outbox ((now, t) ∷ ts) s = chat outbox ts (turn now outbox t s)
