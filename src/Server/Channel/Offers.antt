-- ===== src/Server/Channel/Offers.antt =====
-- server/client.go: what SendEnvelope leaves on a channel that is open.
use knock.Prelude.{
  ℕ, ◌≤◌, ◌≡◌, ◌≢◌, refl, true, false, Option, none, some, List, [], ◌∷◌, ◌++◌, Bytes, length,
  length-append, take, take_all, take-append_full, take-take_append, length-take-le, ap, ◌∙◌, sym,
  arith, ltb, Option-cases, inl, inr,
}
use knock.Protocol.Envelope.{
  Envelope, Payload, raw, error_message, Json, marshal, new_envelope, sealed, type_error,
}
use knock.Server.Run.{
  ok, panic, Panic, close_of_closed, send_on_closed, Ensures, Ensures-ok, Ensures-panic, Ensures-if,
}
use knock.Server.Channel.{
  Channel, capacity, offer, encode, encode_and_offer, send_envelope, send_error,
}

-- An open channel, within its capacity.
pub record IsLive (ch : Channel) : Type 0 where
  pub open_ : ch.closed ≡ false
  pub fits : length ch.buffer ≤ capacity

-- Frames put on a channel one after the other: what does not fit is dropped.
abbrev pub push : List Envelope → Channel → Channel
push es ch = record ch { buffer = take capacity (ch.buffer ++ es) }

abbrev pub frames : Option Envelope → List Envelope
frames none = []
frames (some e) = e ∷ []

pub push-IsLive : (es : List Envelope) {ch : Channel} → IsLive ch → IsLive (push es ch)
push-IsLive es {ch} l = record { open_ = l.open_; fits = length-take-le capacity (ch.buffer ++ es) }

pub push-push : (es fs : List Envelope) (ch : Channel) → push fs (push es ch) ≡ push (es ++ fs) ch
push-push es fs ch =
    ap (λ (b : List Envelope). record ch { buffer = b })
      (take-take_append capacity (ch.buffer ++ es) fs
        ∙ ap (take capacity) (mathlib.Core.List.append_assoc ch.buffer es fs))

pub push-nil : {ch : Channel} → length ch.buffer ≤ capacity → push [] ch ≡ ch
push-nil {ch} fits =
    ap (λ (b : List Envelope). record ch { buffer = b })
      (ap (take capacity) (mathlib.Core.List.append-nil ch.buffer)
        ∙ take_all capacity ch.buffer fits)

offer-push : (e : Envelope) {ch : Channel} → IsLive ch → offer e ch ≡ ok (push (e ∷ []) ch)
unfolding offer
offer-push e {ch} l = ground (
  arith,
  take_all capacity (ch.buffer ++ e ∷ []),
  take-append_full capacity ch.buffer (e ∷ []),
  length-append ch.buffer (e ∷ []),
)

module _ (j : Json) where
  -- json.Marshal writes a payload again as it stands.
  marshal_again : (p : Payload) (b : Bytes) → marshal j p ≡ some b → j.compact b ≡ some b
  unfolding marshal
  marshal_again (raw (some c)) b e = j.compact_idem c b e
  marshal_again p b e = cc (e, j.compact-own p tt)

  pub new_envelope-some :
      (now : ℕ) (t qid mid : Bytes) (p : Payload) (b : Bytes)
      → marshal j p ≡ some b
      → new_envelope j now t qid mid p ≡ some (sealed now t qid mid b)
  unfolding new_envelope
  new_envelope-some now t qid mid p b e = rw e

  new_envelope-none :
      (now : ℕ) (t qid mid : Bytes) (p : Payload)
      → marshal j p ≡ none
      → new_envelope j now t qid mid p ≡ none
  unfolding new_envelope
  new_envelope-none now t qid mid p e = rw e

  encode-sealed :
      (now : ℕ) (t qid mid b : Bytes)
      → j.compact b ≡ some b
      → encode j (sealed now t qid mid b) ≡ some (sealed now t qid mid b)
  unfolding encode
  encode-sealed now t qid mid b e = rw e

  -- SendEnvelope puts the envelope that NewEnvelope makes on the channel; a payload that is no JSON
  -- is dropped without a word.
  pub send_envelope-push :
      (now : ℕ) (t qid mid : Bytes) (p : Payload) {ch : Channel}
      → IsLive ch
      → send_envelope j now t qid mid p ch ≡ ok (push (frames (new_envelope j now t qid mid p)) ch)
  unfolding send_envelope
  send_envelope-push now t qid mid p {ch} l = elim (Option-cases (marshal j p)) [
    | inl bad ↦ rw (new_envelope-none now t qid mid p bad) (ap ok (sym (push-nil l.fits)))
    | inr (b, good) ↦
        rw
          (
            new_envelope-some now t qid mid p b good,
            encode_and_offer,
            encode-sealed now t qid mid b (marshal_again p b good),
          )
          (offer-push (sealed now t qid mid b) l)
  ]

-- A send on a channel that is closed panics, if there is a frame to send.
pub send_envelope-send_on_closed :
    (j : Json) (now : ℕ) (t qid mid : Bytes) (p : Payload) (b : Bytes) (ch : Channel)
    → marshal j p ≡ some b
    → ch.closed ≡ true
    → send_envelope j now t qid mid p ch ≡ panic send_on_closed
unfolding send_envelope offer
send_envelope-send_on_closed j now t qid mid p b ch good shut = rw (
  new_envelope-some j now t qid mid p b good,
  encode_and_offer,
  encode-sealed j now t qid mid b (marshal_again j p b good),
  offer,
  shut,
)

-- No double close: a panic for another reason.
abbrev pub NoDoubleClose : Panic → Type 0
NoDoubleClose p = p ≢ close_of_closed

offer-closed :
    (e : Envelope) (ch : Channel)
    → Ensures (λ ch'. ch'.closed ≡ ch.closed) NoDoubleClose (offer e ch)
unfolding offer
offer-closed e ch =
    Ensures-if ch.closed (λ _. Ensures-panic send_on_closed (λ e. cc))
      λ _.
        Ensures-if (ltb (length ch.buffer) capacity) (λ _. Ensures-ok _ refl)
          (λ _. Ensures-ok ch refl)

-- A send neither opens nor closes a channel.
pub send_envelope-closed :
    (j : Json) (now : ℕ) (t qid mid : Bytes) (p : Payload) (ch : Channel)
    → Ensures (λ ch'. ch'.closed ≡ ch.closed) NoDoubleClose (send_envelope j now t qid mid p ch)
unfolding send_envelope
send_envelope-closed j now t qid mid p ch = go (new_envelope j now t qid mid p)
  where
    go :
        (o : Option Envelope)
        → Ensures (λ ch'. ch'.closed ≡ ch.closed) NoDoubleClose (encode_and_offer j o ch)
    go none = Ensures-ok ch refl
    go (some env) = elim (Option-cases (encode j env)) [
      | inl bad ↦ rw (bad, encode_and_offer) (Ensures-ok ch refl)
      | inr (e, good) ↦ rw (good, encode_and_offer) (offer-closed e ch)
    ]

pub send_error-closed :
    (j : Json) (now code : ℕ) (msg : Bytes) (ch : Channel)
    → Ensures (λ ch'. ch'.closed ≡ ch.closed) NoDoubleClose (send_error j now code msg ch)
unfolding send_error
send_error-closed j now code msg ch =
    send_envelope-closed j now type_error [] [] (error_message code msg) ch
