-- ===== src/Client/Pumps/Deliver.antt =====
-- client/pumps.go: a new message is shown and signed for.
use knock.Prelude.{ℕ, ◌≡◌, refl, false, Option, some, [], ◌∷◌, ◌++◌, Bytes, eq_bytes, ltb, length}
use knock.Prelude.Int.{ℤ, pos, eq_int}
use knock.Protocol.Envelope.{Envelope, Json, new_envelope, type_deliver, decoded, parse}
use knock.Client.Pumps.{
  send_capacity, message, Session, is_seen, reads, sign, show_chat, receive, read, turn,
}
use knock.Client.Pumps.Signing.{acks, signature, acks-sign}

module _ (j : Json) (chat_text : Option Bytes → Option Bytes)
    (error_text : Option Bytes → Option (ℤ × Bytes)) where
  turn-sign :
      (now : ℕ) (outbox : Bytes) (env : Envelope) (text : Bytes) (s : Session)
      → env.version ≡ pos 1
      → env.msg_type ≡ type_deliver
      → is_seen env.msg_id s ≡ false
      → ltb send_capacity (length s.send) ≡ false
      → chat_text env.payload ≡ some text
      → turn j chat_text error_text now outbox (reads (decoded env)) s
        ≡ sign j now env
            (record s { seen = env.msg_id ∷ s.seen; screen = s.screen ++ message text ∷ [] })
  unfolding turn parse eq_int read receive show_chat eq_bytes new_envelope
  turn-sign now outbox env text s v t new free good = rw (free, v, t, new, good)

  -- A DELIVER of this version whose mid is new and whose payload has a text is shown, as the last
  -- line, and answered by an ACK of its queue and mid, unless the ACK before it still waits for room.
  pub deliver_new :
      (now : ℕ) (outbox : Bytes) (env : Envelope) (text : Bytes) (s : Session)
      → env.version ≡ pos 1
      → env.msg_type ≡ type_deliver
      → is_seen env.msg_id s ≡ false
      → ltb send_capacity (length s.send) ≡ false
      → chat_text env.payload ≡ some text
      → (acks (turn j chat_text error_text now outbox (reads (decoded env)) s)
          ≡ acks s ++ signature j now env ∷ [])
        × ((turn j chat_text error_text now outbox (reads (decoded env)) s).screen
            ≡ s.screen ++ message text ∷ [])
  deliver_new now outbox env text s v t new free good =
      let signed = turn-sign now outbox env text s v t new free good in
      (
        rw signed (
            acks-sign j now env
              (record s { seen = env.msg_id ∷ s.seen; screen = s.screen ++ message text ∷ [] })),
        rw signed (unfold sign in refl),
      )
