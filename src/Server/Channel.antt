-- ===== src/Server/Channel.antt =====
-- server/client.go: the send channel of a connection, SendEnvelope, and the rounds of its two pumps.
-- A frame on the channel stands for its JSON text.
pub mod Offers
pub mod Reader
use knock.Prelude.{
  ℕ, ◌≡◌, Bool, true, false, Option, none, some, List, [], ◌∷◌, ◌++◌, Bytes, codes, eq_bytes, ltb,
  if◌then◌else◌, length,
}
use knock.Protocol.Envelope.{
  Envelope, Payload, nothing, error_message, Json, new_envelope, type_pong, type_error, type_ping,
  code_bad_request, Decoded, Parsed, accepted, refused, parse,
}
use knock.Server.Run.{Run, ok, panic, send_on_closed, ◌>>=◌}

-- make(chan []byte, 16)
abbrev pub capacity : ℕ
capacity = 16

pub record Channel : Type 0 where
  pub closed : Bool
  pub buffer : List Envelope

abbrev pub fresh : Channel
fresh = record { closed = false; buffer = [] }

-- A send under `select` with a default: on a full channel the frame is dropped.
unfoldable pub offer : Envelope → Channel → Run Channel
offer e ch =
    if ch.closed
    then panic send_on_closed
    else if ltb (length ch.buffer) capacity
    then ok (record ch { buffer = ch.buffer ++ e ∷ [] })
    else ok ch

module _ (j : Json) where
  with_payload : Envelope → Option Bytes → Option Envelope
  with_payload e none = none
  with_payload e (some b) = some (record e { payload = some b })

  -- json.Marshal of an envelope: its raw payload must be JSON, nil is written as null.
  unfoldable pub encode : Envelope → Option Envelope
  unfolding with_payload
  encode e = elim e.payload [
    | none ↦ with_payload e (some (codes "null"))
    | some b ↦ with_payload e (j.compact b)
  ]

  encode_and_offer : Option Envelope → Channel → Run Channel
  encode_and_offer none ch = ok ch
  encode_and_offer (some env) ch = elim (encode env) [ none ↦ ok ch | some e ↦ offer e ch ]

  unfoldable pub send_envelope : ℕ → Bytes → Bytes → Bytes → Payload → Channel → Run Channel
  unfolding encode_and_offer
  send_envelope now msg_type qid mid payload ch =
      encode_and_offer (new_envelope j now msg_type qid mid payload) ch

  unfoldable pub send_error : ℕ → ℕ → Bytes → Channel → Run Channel
  send_error now code msg ch = send_envelope now type_error [] [] (error_message code msg) ch

  -- A round of readPump: what it answers itself, and what it routes to the hub.
  pub dispatch : ℕ → Parsed → Channel → Run (Channel × Option Envelope)
  dispatch now (refused text) ch = do ch' ← send_error now code_bad_request text ch; ok (ch', none)
  dispatch now (accepted env) ch =
      if eq_bytes env.msg_type type_ping
      then (do ch' ← send_envelope now type_pong [] [] nothing ch; ok (ch', none))
      else ok (ch, some env)

  unfoldable pub read_round : ℕ → Decoded → Channel → Run (Channel × Option Envelope)
  unfolding dispatch parse
  read_round now d ch = dispatch now (parse d) ch

-- What writePump does when it looks at its channel: it waits, writes a frame, or closes and leaves.
pub data Write : Type 0 where
  waits : Write
  text : Envelope → Channel → Write
  close : Write

write_next : Bool → List Envelope → Write
write_next closed (e ∷ rest) = text e (record { closed = closed; buffer = rest })
write_next true [] = close
write_next false [] = waits

unfoldable pub write_round : Channel → Write
unfolding write_next
write_round ch = write_next ch.closed ch.buffer
