-- ===== src/Tests/Starts.antt =====
-- Runs of the theorems on the start of a chat in client/session.go.
use knock.Prelude.{
  ◌≡◌, ◌≢◌, refl, sym, ◌∙◌, ap, true, none, some, [], ◌∷◌, codes, eq_bytes, lookup, insert, ◌⊎◌,
  Bytes,
}
use knock.Protocol.Envelope.{
  Envelope, type_sub, type_sub_ok, type_pong, decoded, malformed, parse, accepted,
}
use knock.Prelude.Int.{eq_int}
use knock.Protocol.Invite
use knock.Protocol.Invite.{Invite, show_invite, parse_invite}
use knock.Client.State.{Contact, file_of, FileState, load_state, sorted_contacts}
use knock.Client.Address.{valid_qid, parse_addr}
use knock.Client.Request.{holds, no_input, Desk, done, failed, Outside, pick}
use knock.Client.Request.Waits.{frame, IsSkipped}
use knock.Client.Dialogue.Choices.{choose-in_range}
use knock.Client.Dialogue.{Chat, choose, past_end, my_invite, run_chat}
use knock.Client.Dialogue.Queues.{state}
use knock.Client.Dialogue.Started.{IsConnected, run_chat_started, run_chat_failed}
use knock.Client.Dialogue.Again.{run_chat_again}
use knock.Tests.{json, queue_a, queue_b, command}
use knock.Tests.Invites.{
  some_bytes, hash, invitation, link_tail, show_invite_text, parse_invite-show_invite_8080,
}
use knock.Tests.Keys.{primitives}

abbrev pub outside : Outside
outside = record {
  json = json;
  primitives = primitives;
  dials = λ url. true;
  writes = λ e. true;
  saves = λ f. true;
  new_ok_of = λ p. p;
  now = 5000;
  own_box_pub = some_bytes 32;
}

abbrev pong : Envelope
pong = command type_pong [] []

abbrev sub_ok : Envelope
sub_ok = command type_sub_ok queue_a []

abbrev known_file : FileState
known_file = record { outbox = some ((codes "chat.example", queue_b) ∷ []); contacts = none }

abbrev pub desk : Desk
desk = record {
  incoming = malformed (codes "eof") ∷ decoded pong ∷ decoded sub_ok ∷ decoded pong ∷ [];
  sent = [];
  file = holds known_file;
  lines = [];
}

pub link_parses : parse_invite hash (b'k' ∷ link_tail) ≡ Invite.ok (invitation 8080)
link_parses = ap (parse_invite hash) (sym show_invite_text) ∙ parse_invite-show_invite_8080

queue_known : lookup (codes "chat.example") (state desk).outbox ≡ some queue_b
unfolding load_state lookup eq_bytes
queue_known = refl

queue_valid : valid_qid queue_b ≡ true
unfolding valid_qid
queue_valid = refl

noise-IsSkipped : IsSkipped type_sub_ok (malformed (codes "eof") ∷ decoded pong ∷ [])
unfolding pick parse eq_int eq_bytes
noise-IsSkipped = (refl, (refl, tt))

answer_parses : parse (decoded sub_ok) ≡ accepted sub_ok
unfolding parse eq_int eq_bytes
answer_parses = refl

pub reconnected :
    (c : Chat) × (d' : Desk) × (run_chat outside (b'k' ∷ link_tail) [] [] desk ≡ done c d')
    × (c.outbox ≡ queue_b)
    × (c.own_invite ≡ my_invite outside (codes "chat.example") 8080 queue_b)
    × (c.inbox ≡ queue_a)
    × (d'.sent ≡ frame outside type_sub queue_a ∷ [])
    × (d'.incoming ≡ decoded pong ∷ [])
reconnected =
    run_chat_again outside b'k' link_tail [] queue_b (invitation 8080) desk sub_ok
      (malformed (codes "eof") ∷ decoded pong ∷ []) (decoded pong ∷ []) (decoded sub_ok) link_parses
      queue_known queue_valid refl refl (λ f. refl) noise-IsSkipped answer_parses refl refl

run_chat_again_example :
    (c : Chat) × (d' : Desk) × (run_chat outside (b'k' ∷ link_tail) [] [] desk ≡ done c d')
    × (c.outbox ≡ queue_b)
    × (c.own_invite ≡ my_invite outside (codes "chat.example") 8080 queue_b)
    × (c.inbox ≡ queue_a)
    × (d'.sent ≡ frame outside type_sub queue_a ∷ [])
    × (d'.incoming ≡ decoded pong ∷ [])
run_chat_again_example =
    run_chat_again outside b'k' link_tail [] queue_b (invitation 8080) desk sub_ok
      (malformed (codes "eof") ∷ decoded pong ∷ []) (decoded pong ∷ []) (decoded sub_ok) link_parses
      queue_known queue_valid refl refl (λ f. refl) noise-IsSkipped answer_parses refl refl

run_chat_started_example :
    IsConnected outside (b'k' ∷ link_tail) [] desk reconnected.0 reconnected.1
run_chat_started_example =
    run_chat_started outside (b'k' ∷ link_tail) [] desk [] reconnected.0 reconnected.1 reconnected.2

-- A queue is given and saved, and the user closes the input before there is a peer.
abbrev ann : Contact
ann = record {
  fingerprint = codes "0123456789ABCDEF";
  invite_url = codes "knock://x";
  last_seen = 10;
  alias = codes "Ann";
}

abbrev old_file : FileState
old_file = record { outbox = none; contacts = some ((codes "0123456789ABCDEF", ann) ∷ []) }

abbrev idle_desk : Desk
idle_desk = record { incoming = []; sent = []; file = holds old_file; lines = [] }

abbrev left_desk : Desk
left_desk = record idle_desk {
  file = holds (record {
    outbox = some ((codes "chat.example", queue_b) ∷ []);
    contacts = old_file.contacts;
  });
}

no_peer : run_chat outside [] (codes "chat.example") queue_b idle_desk ≡ failed no_input left_desk
unfolding run_chat parse_addr lookup insert eq_bytes load_state file_of valid_qid sorted_contacts
no_peer = refl

run_chat_failed_example :
    ((left_desk.file ≡ idle_desk.file)
      ⊎ ((host : Bytes) × (q : Bytes) × (left_desk.file
            ≡ holds (
                file_of
                  (record (state idle_desk) { outbox = insert host q (state idle_desk).outbox })))))
    × ((state left_desk).contacts ≡ (state idle_desk).contacts)
run_chat_failed_example =
    run_chat_failed outside [] (codes "chat.example") idle_desk queue_b no_input left_desk no_peer

choose-in_range_example : choose outside [] (codes "7" ∷ codes "x" ∷ []) ≢ past_end
choose-in_range_example = choose-in_range outside [] (codes "7" ∷ codes "x" ∷ [])
