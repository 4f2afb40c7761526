-- ===== src/Server/Channel/Reader.antt =====
-- server/client.go: what readPump hands on to the hub.
use knock.Prelude.{ℕ, ◌≤◌, ◌∷◌, length, ◌≡◌, refl, Option, none, some, [], eq_bytes, arith}
use knock.Protocol.Envelope.{
  Envelope, Json, Decoded, Parsed, accepted, refused, parse, type_ping, type_pong, nothing,
  code_bad_request, error_message, type_error, new_envelope,
}
use knock.Server.Run.{Panic, Ensures, Ensures-ok, Ensures-Any, Ensures-bind, Ensures-if, Any}
use knock.Server.Channel.Offers.{
  IsLive, push-IsLive, frames, send_envelope-push, NoDoubleClose, send_envelope-closed,
  send_error-closed,
}
use knock.Server.Channel.{
  capacity, Channel, dispatch, read_round, write_round, text, send_envelope, send_error,
}

-- What the reader hands on is the envelope of its frame.
abbrev pub Routed : Parsed → Option Envelope → Type 0
Routed p none = Unit
Routed p (some env) = p ≡ accepted env

dispatch-Routed :
    (j : Json) (now : ℕ) (p : Parsed) (ch : Channel)
    → Ensures (λ x. Routed p x.1) Any (dispatch j now p ch)
unfolding dispatch
dispatch-Routed j now (refused msg) ch =
    Ensures-bind _ (Ensures-Any (send_error j now code_bad_request msg ch))
      λ ch' _. Ensures-ok (ch', none) tt
dispatch-Routed j now (accepted env) ch =
    Ensures-if (eq_bytes env.msg_type type_ping)
      (λ _.
        Ensures-bind _ (Ensures-Any (send_envelope j now type_pong [] [] nothing ch))
          λ ch' _. Ensures-ok (ch', none) tt)
      (λ _. Ensures-ok (ch, some env) refl)

pub read_round-Routed :
    (j : Json) (now : ℕ) (d : Decoded) (ch : Channel)
    → Ensures (λ x. Routed (parse d) x.1) Any (read_round j now d ch)
unfolding read_round
read_round-Routed j now d ch = dispatch-Routed j now (parse d) ch

dispatch-closed :
    (j : Json) (now : ℕ) (p : Parsed) (ch : Channel)
    → Ensures (λ x. (x.0).closed ≡ ch.closed) NoDoubleClose (dispatch j now p ch)
unfolding dispatch
dispatch-closed j now (refused msg) ch =
    Ensures-bind _ (send_error-closed j now code_bad_request msg ch)
      λ ch' e. Ensures-ok (ch', none) e
dispatch-closed j now (accepted env) ch =
    Ensures-if (eq_bytes env.msg_type type_ping)
      (λ _.
        Ensures-bind _ (send_envelope-closed j now type_pong [] [] nothing ch)
          λ ch' e. Ensures-ok (ch', none) e)
      (λ _. Ensures-ok (ch, some env) refl)

-- A round of the reader neither opens nor closes its channel.
pub read_round-closed :
    (j : Json) (now : ℕ) (d : Decoded) (ch : Channel)
    → Ensures (λ x. (x.0).closed ≡ ch.closed) NoDoubleClose (read_round j now d ch)
unfolding read_round
read_round-closed j now d ch = dispatch-closed j now (parse d) ch

-- Nor does a round of the writer.
pub write_round-closed :
    (ch ch' : Channel) (e : Envelope) → write_round ch ≡ text e ch' → ch'.closed ≡ ch.closed
unfolding write_round
write_round-closed ch ch' e h = ground arith

-- On a live channel the reader does not panic, and leaves it live.
dispatch-IsLive :
    (E : Panic → Type 0) (j : Json) (now : ℕ) (p : Parsed) (ch : Channel)
    → IsLive ch
    → Ensures (λ x. Routed p x.1 × IsLive x.0) E (dispatch j now p ch)
unfolding dispatch send_error
dispatch-IsLive E j now (refused msg) ch l =
    rw (send_envelope-push j now type_error [] [] (error_message code_bad_request msg) l) (
      Ensures-ok _ (
        tt,
        push-IsLive
            (frames (new_envelope j now type_error [] [] (error_message code_bad_request msg))) l,
      ))
dispatch-IsLive E j now (accepted env) ch l =
    Ensures-if (eq_bytes env.msg_type type_ping)
      (λ _.
        rw (send_envelope-push j now type_pong [] [] nothing l)
          (Ensures-ok _ (tt, push-IsLive (frames (new_envelope j now type_pong [] [] nothing)) l)))
      (λ _. Ensures-ok (ch, some env) (refl, l))

pub read_round-IsLive :
    (E : Panic → Type 0) (j : Json) (now : ℕ) (d : Decoded) (ch : Channel)
    → IsLive ch
    → Ensures (λ x. Routed (parse d) x.1 × IsLive x.0) E (read_round j now d ch)
unfolding read_round
read_round-IsLive E j now d ch l = dispatch-IsLive E j now (parse d) ch l

-- The frame that is written was the first of the buffer.
write_round-pops :
    (ch ch' : Channel) (e : Envelope) → write_round ch ≡ text e ch' → ch.buffer ≡ e ∷ ch'.buffer
unfolding write_round
write_round-pops ch ch' e h = ground arith

pub write_round-IsLive :
    (ch ch' : Channel) (e : Envelope) → write_round ch ≡ text e ch' → IsLive ch → IsLive ch'
unfolding write_round
write_round-IsLive ch ch' e h l = record { open_ = ground (arith, l.open_); fits = shorter }
  where
    shorter : length ch'.buffer ≤ capacity
    shorter = let some_ = rw (write_round-pops ch ch' e h) at l.fits in omega (arith, some_)
