-- ===== src/Client/Pumps/Once.antt =====
-- client/pumps.go: a message is shown and signed for once.
use mathlib.Core.List
use knock.Prelude.{
  ℕ, ◌≡◌, refl, sym, ap, ◌∙◌, true, false, Option, none, some, List, [], ◌∷◌, ◌++◌, Bytes, eq_bytes,
  eq_bytes_iff, eq_bytes_refl, ◌+◌, ltb, length, length-append, select, select-append, All,
  All-append, All-imp, has_key, Distinct, Distinct-append_one, arith, Bool-cases, inl, inr, ◌||◌,
  codes,
}
use knock.Prelude.Int.{ℤ}
use knock.Protocol.Envelope.{
  Envelope, Json, type_deliver, type_error, Parsed, accepted, refused, parse,
}
use knock.Client.Pumps.{
  send_capacity, Shown, message, failure, queue_full, Session, started, is_seen, Turn, reads, types,
  writes, write_one, sign, show_chat, show_error, receive, read, type_line, turn, chat,
}
use knock.Client.Pumps.Signing.{
  is_ack, is_message, acks, acks-more, frame_of-send, signature, acks-sign,
}

-- No mid is signed for twice, only what was seen is, and there is one ACK for each message shown.
pub record IsOnce (s : Session) : Type 0 where
  pub mids : Distinct (λ (e : Envelope). e.msg_id) (acks s)
  pub known : All (λ (e : Envelope). is_seen e.msg_id s ≡ true) (acks s)
  pub count : length (acks s) ≡ length (select is_message s.screen)

unseen-mid :
    (mid : Bytes) (s : Session) (es : List Envelope)
    → is_seen mid s ≡ false
    → All (λ (e : Envelope). is_seen e.msg_id s ≡ true) es
    → has_key (λ (e : Envelope). e.msg_id) mid es ≡ false
unseen-mid mid s [] h a = refl
unseen-mid mid s (e ∷ es) h a = elim (Bool-cases (eq_bytes e.msg_id mid)) [
  | inl same ↦
      let eq : e.msg_id ≡ mid = (eq_bytes_iff e.msg_id mid).0 same in absurd (cc (h, eq, a.0))
  | inr other ↦ rw other (unseen-mid mid s es h a.1)
]

shown-count :
    (screen : List Shown) (text : Bytes)
    → length (select is_message screen) + 1
      ≡ length (select is_message (screen ++ message text ∷ []))
shown-count screen text = sym (
    ap length (select-append is_message screen (message text ∷ []))
    ∙ length-append (select is_message screen) (message text ∷ []))

other-count :
    (screen : List Shown) (x : Shown)
    → is_message x ≡ false
    → select is_message (screen ++ x ∷ []) ≡ select is_message screen
other-count screen x h =
    select-append is_message screen (x ∷ [])
    ∙ rw h (mathlib.Core.List.append-nil (select is_message screen))

module _ (j : Json) where
  is_seen-more :
      (mid : Bytes) (s : Session) (es : List Envelope)
      → All (λ (e : Envelope). is_seen e.msg_id s ≡ true) es
      → All (λ (e : Envelope). is_seen e.msg_id (record s { seen = mid ∷ s.seen }) ≡ true) es
  is_seen-more mid s es a =
      All-imp (λ (e : Envelope) (h : is_seen e.msg_id s ≡ true). ground (arith, h)) es a

  signed-IsOnce :
      (now : ℕ) (env : Envelope) (text : Bytes) (s : Session)
      → is_seen env.msg_id s ≡ false
      → IsOnce s
      → IsOnce (
          sign j now env
            (record s { seen = env.msg_id ∷ s.seen; screen = s.screen ++ message text ∷ [] }))
  signed-IsOnce now env text s new o = record {
    mids = rw (acks-sign j now env shown) (
        Distinct-append_one (λ e. e.msg_id) (acks s) (signature j now env) o.mids
          (unseen-mid env.msg_id s (acks s) new o.known));
    known = rw (acks-sign j now env shown) (
        All-append _ (acks s) (signature j now env ∷ [])
          (unfold sign in is_seen-more env.msg_id s (acks s) o.known)
          (unfold sign in rw (eq_bytes_refl env.msg_id), tt));
    count =
        rw (acks-sign j now env shown, length-append (acks s) (signature j now env ∷ []), o.count)
          (unfold sign in shown-count s.screen text);
  }
    where
      shown : Session
      shown = record s { seen = env.msg_id ∷ s.seen; screen = s.screen ++ message text ∷ [] }

  -- A message with a new mid is shown and signed for.
  show_chat-IsOnce :
      (now : ℕ) (env : Envelope) (o : Option Bytes) (s : Session)
      → is_seen env.msg_id s ≡ false
      → IsOnce s
      → IsOnce (show_chat j now env o (record s { seen = env.msg_id ∷ s.seen }))
  unfolding show_chat
  show_chat-IsOnce now env none s new o = record {
    mids = o.mids;
    known = is_seen-more env.msg_id s (acks s) o.known;
    count = o.count;
  }
  show_chat-IsOnce now env (some text) s new o = signed-IsOnce now env text s new o

  sent-IsOnce :
      (es : List Envelope) (s : Session)
      → select is_ack es ≡ []
      → IsOnce s
      → IsOnce (record s { send = s.send ++ es })
  sent-IsOnce es s h o =
      let same : acks (record s { send = s.send ++ es }) ≡ acks s =
        acks-more s es ∙ rw h (mathlib.Core.List.append-nil (acks s)) in
      record { mids = rw same o.mids; known = rw same o.known; count = rw same o.count }

  type_line-IsOnce :
      (now : ℕ) (random : Option Bytes) (outbox text : Bytes) (s : Session)
      → IsOnce s
      → IsOnce (type_line j now random outbox text s)
  unfolding type_line
  type_line-IsOnce now random outbox text s o =
      elim (Bool-cases (eq_bytes text [] || eq_bytes text (codes "/quit"))) [
        | inl skip ↦ rw skip o
        | inr line ↦ elim (Bool-cases (ltb (length s.send) send_capacity)) [
          | inl room ↦ rw (line, room) (sent-IsOnce _ s (frame_of-send j now outbox _ text) o)
          | inr full ↦
              rw (line, full)
                (record {
                  mids = o.mids;
                  known = o.known;
                  count = rw (other-count s.screen queue_full refl) o.count;
                })
        ]
      ]

  write_one-IsOnce :
      (es : List Envelope) (s : Session) → s.send ≡ es → IsOnce s → IsOnce (write_one es s)
  unfolding write_one
  write_one-IsOnce [] s e o = o
  write_one-IsOnce (x ∷ rest) s e o =
      let same : acks (record s { send = rest; written = s.written ++ x ∷ [] }) ≡ acks s =
        ap (select is_ack) (
          mathlib.Core.List.append_assoc s.written (x ∷ []) rest
          ∙ ap (λ (es : List Envelope). s.written ++ es) (sym e)) in
      record { mids = rw same o.mids; known = rw same o.known; count = rw same o.count }

  show_error-IsOnce : (o : Option (ℤ × Bytes)) (s : Session) → IsOnce s → IsOnce (show_error j o s)
  unfolding show_error
  show_error-IsOnce none s o = o
  show_error-IsOnce (some (code, text)) s o = record {
    mids = o.mids;
    known = o.known;
    count = rw (other-count s.screen (failure code text) refl) o.count;
  }

  module _ (chat_text : Option Bytes → Option Bytes)
      (error_text : Option Bytes → Option (ℤ × Bytes)) where
    receive-IsOnce :
        (now : ℕ) (env : Envelope) (s : Session)
        → IsOnce s
        → IsOnce (receive j chat_text error_text now env s)
    unfolding receive
    receive-IsOnce now env s o = elim (Bool-cases (is_seen env.msg_id s)) [
      | inl old ↦ rw old o
      | inr new ↦ rw new (show_chat-IsOnce now env (chat_text env.payload) s new o)
    ]

    read-IsOnce :
        (now : ℕ) (p : Parsed) (s : Session)
        → IsOnce s
        → IsOnce (read j chat_text error_text now p s)
    unfolding read
    read-IsOnce now (refused text) s o = o
    read-IsOnce now (accepted env) s o = elim (Bool-cases (eq_bytes env.msg_type type_deliver)) [
      | inl here ↦ rw here (receive-IsOnce now env s o)
      | inr other ↦ elim (Bool-cases (eq_bytes env.msg_type type_error)) [
        | inl bad ↦ rw (other, bad) (show_error-IsOnce (error_text env.payload) s o)
        | inr skip ↦ rw (other, skip) o
      ]
    ]

    turn-IsOnce :
        (now : ℕ) (outbox : Bytes) (t : Turn) (s : Session)
        → IsOnce s
        → IsOnce (turn j chat_text error_text now outbox t s)
    unfolding turn
    turn-IsOnce now outbox (reads d) s o = elim (Bool-cases (ltb send_capacity (length s.send))) [
      | inl blocked ↦ rw blocked o
      | inr free ↦ rw free (read-IsOnce now (parse d) s o)
    ]
    turn-IsOnce now outbox (types random text) s o = type_line-IsOnce now random outbox text s o
    turn-IsOnce now outbox writes s o = write_one-IsOnce s.send s refl o

    chat-keeps :
        (outbox : Bytes) (ts : List (ℕ × Turn)) (s : Session)
        → IsOnce s
        → IsOnce (chat j chat_text error_text outbox ts s)
    unfolding chat
    chat-keeps outbox [] s o = o
    chat-keeps outbox ((now, t) ∷ ts) s o =
        chat-keeps outbox ts (turn j chat_text error_text now outbox t s)
          (turn-IsOnce now outbox t s o)

    -- However often the server delivers a message again, and whatever the user types in between, from
    -- its start a session never signs for a mid twice: the mids of its ACKs differ, each is one that
    -- was seen, and there are as many ACKs as messages on the screen.
    pub chat-IsOnce :
        (outbox : Bytes) (ts : List (ℕ × Turn))
        → IsOnce (chat j chat_text error_text outbox ts started)
    chat-IsOnce outbox ts =
        chat-keeps outbox ts started (record { mids = tt; known = tt; count = refl })
