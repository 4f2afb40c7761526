-- ===== src/Tests/Pairs.antt =====
-- A run of the theorem on two clients: Ann writes to `queue_b`, and Bob takes up Ann's invitation.
use knock.Prelude.{
  ◌≡◌, refl, sym, ap, ◌∙◌, true, none, some, [], ◌∷◌, Bytes, codes, eq_bytes, lookup, arith,
}
use knock.Prelude.Int.{eq_int, show_nat}
use knock.Protocol.Id.{valid_queue_id, decode_hex, hex_value, encode_hex, hex_digit}
use knock.Protocol.Url.{show_url}
use knock.Protocol.Escapes.{escape}
use knock.Protocol.Base64.{encode_64}
use knock.Protocol.Invite
use knock.Protocol.Invite.{Invite, show_invite, parse_invite, invite_checksum}
use knock.Protocol.Invite.RoundTrip.{parse_invite-show_invite}
use knock.Protocol.Envelope.{Envelope, type_sub, type_sub_ok, decoded, parse, accepted}
use knock.Crypto.{zeros, fp_hex}
use knock.Client.State.{FileState, Contact, load_state}
use knock.Client.Address.{valid_qid}
use knock.Client.Request.{holds, Desk, done, Outside}
use knock.Client.Request.Waits.{frame}
use knock.Client.Dialogue.{Chat, server_of, my_invite, run_chat}
use knock.Client.Dialogue.Queues.{state}
use knock.Client.Dialogue.Again.{run_chat_again}
use knock.Client.Dialogue.Pairs.{run_chat_pairs}
use knock.Tests.{queue_a, queue_b, command}
use knock.Tests.Invites.{some_bytes, hash, hash-IsHash, invitation, link_tail, host_IsWord}
use knock.Tests.Starts.{outside, desk, link_parses, reconnected}

abbrev pub bob : Outside
bob = record outside { own_box_pub = zeros 32 }

-- Bob has the queue `queue_a` on the server.
abbrev bob_file : FileState
bob_file = record { outbox = some ((codes "chat.example", queue_a) ∷ []); contacts = none }

abbrev sub_ok : Envelope
sub_ok = command type_sub_ok queue_b []

abbrev pub bob_desk : Desk
bob_desk = record { incoming = decoded sub_ok ∷ []; sent = []; file = holds bob_file; lines = [] }

abbrev pub ann_invite : Invite
ann_invite = record {
  host = codes "chat.example";
  port = 8080;
  queue_id = queue_b;
  box_pub = some_bytes 32;
}

abbrev pub ann_tail : Bytes
ann_tail =
    codes
      "nock://chat.example:8080/v2/fedcba9876543210fedcba9876543210?k=qqqqqqqqqqqqqqqqqqqqqqqqqqqqqqqqqqqqqqqqqqo&c=aaaaaaaa"

pub shown : show_invite hash ann_invite ≡ b'k' ∷ ann_tail
unfolding show_invite show_url encode_64 escape invite_checksum encode_hex hex_digit show_nat
shown = refl

pub valid_b : valid_queue_id queue_b ≡ true
unfolding valid_queue_id decode_hex hex_value
valid_b = refl

ann_link_parses : parse_invite hash (b'k' ∷ ann_tail) ≡ Invite.ok ann_invite
ann_link_parses =
    ap (parse_invite hash) (sym shown)
    ∙ parse_invite-show_invite hash hash-IsHash ann_invite host_IsWord valid_b
        (hash-IsHash.bytes []) (omega arith) (omega arith) refl

queue_known : lookup (codes "chat.example") (state bob_desk).outbox ≡ some queue_a
unfolding load_state lookup eq_bytes
queue_known = refl

queue_valid : valid_qid queue_a ≡ true
unfolding valid_qid
queue_valid = refl

answer_parses : parse (decoded sub_ok) ≡ accepted sub_ok
unfolding parse eq_int eq_bytes
answer_parses = refl

pub met :
    (c : Chat) × (d' : Desk) × (run_chat bob (b'k' ∷ ann_tail) [] [] bob_desk ≡ done c d')
    × (c.outbox ≡ queue_a)
    × (c.own_invite ≡ my_invite bob (codes "chat.example") 8080 queue_a)
    × (c.inbox ≡ queue_b)
    × (d'.sent ≡ frame bob type_sub queue_b ∷ [])
    × (d'.incoming ≡ [])
met =
    run_chat_again bob b'k' ann_tail [] queue_a ann_invite bob_desk sub_ok [] [] (decoded sub_ok)
      ann_link_parses queue_known queue_valid refl refl (λ f. refl) tt answer_parses refl refl

ann_link : reconnected.0.own_invite ≡ b'k' ∷ ann_tail
ann_link = reconnected.4 ∙ (unfold my_invite in shown)

run_chat_pairs_example :
    (met.0.dialled ≡ reconnected.0.dialled)
    × (met.0.inbox ≡ reconnected.0.outbox)
    × (k : Contact) × (lookup (fp_hex bob.primitives (some_bytes 32)) (state met.1).contacts
        ≡ some k)
    × (k.invite_url ≡ reconnected.0.own_invite)
run_chat_pairs_example =
    run_chat_pairs outside bob hash-IsHash refl (b'k' ∷ link_tail) [] [] [] []
      (some (invitation 8080, b'k' ∷ link_tail)) desk reconnected.1 bob_desk met.1 reconnected.0
      met.0 (refl, link_parses) (unfold server_of in host_IsWord) (unfold server_of in omega arith)
      (unfold server_of in omega arith) (hash-IsHash.bytes []) refl (rw reconnected.3 valid_b)
      reconnected.2 (rw ann_link met.2)
