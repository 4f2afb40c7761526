-- ===== src/Server/Hub/Handle/Mail.antt =====
-- server/hub.go: sends of the hub to connections whose channels are open.
use mathlib.Core.Path.{fun_ext}
use knock.Prelude.{
  ℕ, ◌≡◌, ◌≢◌, ap, ◌∙◌, sym, some, List, [], ◌∷◌, ◌++◌, Bytes, ◌==◌, ==_refl, ==_iff, ◌≤◌, length,
  length-take-le, Bool-cases, inl, inr, if◌then◌else◌, arith,
}
use knock.Protocol.Envelope.{Envelope, Payload, raw, Json, new_envelope, type_deliver}
use knock.Server.Store.{StoredMessage}
use knock.Server.Run.{ok}
use knock.Server.Channel.{Channel, capacity}
use knock.Server.Channel.Offers.{
  IsLive, push, push-push, push-IsLive, push-nil, frames, send_envelope-push,
}
use knock.Server.Hub.State.{Hub, World, update}
use knock.Server.Hub.Handle.{send_to, replay}

module _ {ℓ} {A : Type ℓ} (f : ℕ → A) (i : ℕ) where
  pub update_self : (a : A) → update f i a i ≡ a
  unfolding update
  update_self a = ground (arith, ==_refl i)

  pub update_ne : (a : A) (k : ℕ) → i ≢ k → update f i a k ≡ f k
  unfolding update
  update_ne a k h = ground arith

  pub update-update : (a b : A) → update (update f i a) i b ≡ update f i b
  unfolding update
  update-update a b = fun_ext λ k. ground arith

  pub update_same : update f i (f i) ≡ f
  unfolding update
  update_same = fun_ext λ k. ground arith

-- Frames put on the channel of a connection.
abbrev pub mail : ℕ → List Envelope → Hub → Hub
mail c es h = record h { chans = update h.chans c (push es (h.chans c)) }

pub mail-mail :
    (c : ℕ) (es fs : List Envelope) (h : Hub) → mail c fs (mail c es h) ≡ mail c (es ++ fs) h
mail-mail c es fs h =
    ap (λ (f : ℕ → Channel). record h { chans = f })
      (ap (λ (x : Channel). update (update h.chans c (push es (h.chans c))) c (push fs x))
          (update_self h.chans c (push es (h.chans c)))
        ∙ update-update h.chans c (push es (h.chans c)) (push fs (push es (h.chans c)))
        ∙ ap (update h.chans c) (push-push es fs (h.chans c)))

-- The frames for one connection reach no other.
pub mail-chans :
    (c : ℕ) (es : List Envelope) (h : Hub) (d : ℕ)
    → length (h.chans d).buffer ≤ capacity
    → (mail c es h).chans d ≡ push (if c == d then es else []) (h.chans d)
mail-chans c es h d fits = elim (Bool-cases (c == d)) [
  | inl same ↦ rw (same, (==_iff c d).0 same, update_self h.chans d (push es (h.chans d)))
  | inr other ↦
      rw (other, update_ne h.chans c (push es (h.chans c)) d (λ e. ground arith))
        (sym (push-nil fits))
]

pub mail-fits :
    (c : ℕ) (es : List Envelope) (h : Hub) (d : ℕ)
    → length (h.chans d).buffer ≤ capacity
    → length ((mail c es h).chans d).buffer ≤ capacity
mail-fits c es h d fits =
    rw (mail-chans c es h d fits)
      (length-take-le capacity ((h.chans d).buffer ++ (if c == d then es else [])))

pub mail-IsLive :
    (c : ℕ) (es : List Envelope) (h : Hub) → IsLive (h.chans c) → IsLive ((mail c es h).chans c)
mail-IsLive c es h l = rw update_self (push-IsLive es l)

module _ (j : Json) (w : World) (c : ℕ) where
  pub send_to-mail :
      (t qid mid : Bytes) (p : Payload) (h : Hub)
      → IsLive (h.chans c)
      → send_to j w c t qid mid p h ≡ ok (mail c (frames (new_envelope j w.now t qid mid p)) h)
  unfolding send_to
  send_to-mail t qid mid p h l = rw (send_envelope-push j w.now t qid mid p l)

  -- The frames of a replay: one for each message whose payload is JSON.
  unfoldable pub replayed : Bytes → List StoredMessage → List Envelope
  replayed qid [] = []
  replayed qid (m ∷ ms) =
      frames (new_envelope j w.now type_deliver qid m.mid (raw (some m.payload))) ++ replayed qid ms

  pub replay-mail :
      (qid : Bytes) (ms : List StoredMessage) (h : Hub)
      → IsLive (h.chans c)
      → replay j w c qid ms h ≡ ok (mail c (replayed qid ms) h)
  unfolding replay replayed
  replay-mail qid [] h l = ap ok (
      sym (
        ap (λ (f : ℕ → Channel). record h { chans = f })
          (ap (update h.chans c) (push-nil l.fits) ∙ update_same h.chans c)))
  replay-mail qid (m ∷ ms) h l =
      rw (send_to-mail type_deliver qid m.mid (raw (some m.payload)) h l) (
        replay-mail qid ms (mail c first h) (mail-IsLive c first h l)
        ∙ ap ok (mail-mail c first (replayed qid ms) h))
    where
      first : List Envelope
      first = frames (new_envelope j w.now type_deliver qid m.mid (raw (some m.payload)))
