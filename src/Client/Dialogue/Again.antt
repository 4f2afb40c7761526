-- ===== src/Client/Dialogue/Again.antt =====
-- client/session.go: a chat with a peer is taken up again with the same queues.
use knock.Prelude.{ℕ, ◌≡◌, refl, true, false, some, List, [], ◌∷◌, ◌++◌, Bytes, eq_bytes, lookup}
use knock.Protocol.Envelope.{Envelope, type_sub, type_sub_ok, type_error, Decoded, accepted, parse}
use knock.Protocol.Invite
use knock.Protocol.Invite.{Invite, parse_invite}
use knock.Client.State.{FileState}
use knock.Client.Address.{build_ws_url, valid_qid}
use knock.Client.Request.{Desk, done, Outside, dial, save}
use knock.Client.Request.Waits.{IsSkipped, frame, request_lem}
use knock.Client.Dialogue.{
  Chat, reuse, own_queue, meet, named, name_peer, server_of, my_invite, talk, run_chat,
}
use knock.Client.Dialogue.Queues.{state}

module _ (o : Outside) (host : Bytes) (q : Bytes) (d : Desk)
    (known : lookup host (state d).outbox ≡ some q) (valid : valid_qid q ≡ true) where
  own_queue-again : own_queue o host [] d ≡ done q d
  unfolding own_queue reuse
  own_queue-again = rw (known, valid)

-- A peer's link takes a client that has a valid queue on the link's server in its state file to a chat
-- with that queue, if the server is reached and answers SUB_OK and the file can be saved: nothing but
-- SUB is sent, the frames behind the answer are unread, and the own invitation names the same queue.
pub run_chat_again :
    (o : Outside) (x : ℕ) (xs server q : Bytes) (inv : Invite) (d : Desk) (resp : Envelope)
    (skipped rest : List Decoded) (f : Decoded)
    → parse_invite o.primitives.sha256 (x ∷ xs) ≡ Invite.ok inv
    → lookup inv.host (state d).outbox ≡ some q
    → valid_qid q ≡ true
    → o.dials (build_ws_url inv.host inv.port) ≡ true
    → o.writes (frame o type_sub inv.queue_id) ≡ true
    → ((file : FileState) → o.saves file ≡ true)
    → IsSkipped type_sub_ok skipped
    → parse f ≡ accepted resp
    → resp.msg_type ≡ type_sub_ok
    → d.incoming ≡ skipped ++ f ∷ rest
    → (c : Chat) × (d' : Desk) × (run_chat o (x ∷ xs) server [] d ≡ done c d')
      × (c.outbox ≡ q)
      × (c.own_invite ≡ my_invite o inv.host inv.port q)
      × (c.inbox ≡ inv.queue_id)
      × (d'.sent ≡ d.sent ++ frame o type_sub inv.queue_id ∷ [])
      × (d'.incoming ≡ rest)
unfolding run_chat name_peer named server_of talk dial meet save
run_chat_again o x xs server q inv d resp skipped rest f link known valid dials writes saves h p t
      inc =
    rw
      (
        link,
        dials,
        own_queue-again o inv.host q d known valid,
        request_lem o type_sub inv.queue_id type_sub_ok resp skipped rest f d writes h p t not_error
            inc,
        saves,
      )
      (_, _, refl, refl, refl, refl, refl, refl)
  where
    not_error : eq_bytes type_sub_ok type_error ≡ false
    not_error = unfold eq_bytes in refl
