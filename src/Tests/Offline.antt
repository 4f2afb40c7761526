-- ===== src/Tests/Offline.antt =====
-- A run of the theorem on a message that is sent while nobody listens.
use knock.Prelude.{
  ◌≤◌, ◌≡◌, refl, true, false, ◌||◌, ◌==◌, none, some, [], ◌∷◌, ◌++◌, codes, eq_bytes, length,
  lookup, arith, if◌then◌else◌,
}
use knock.Protocol.Id.{valid_queue_id, decode_hex}
use knock.Protocol.Envelope.{
  Envelope, marshal, new_envelope, sealed, struct_text, type_deliver, type_sub, type_send, type_ack,
  ack_message,
}
use knock.Server.Store.{Store, StoredMessage, save_message, undelivered, touch_queue}
use knock.Server.Store.Order.{order_by_ts}
use knock.Server.Store.Effects.{row}
use knock.Server.Run.{ok, short_log}
use knock.Server.Channel.{capacity, fresh, send_envelope, encode, offer}
use knock.Server.Channel.Offers.{IsLive}
use knock.Server.Hub.State.{Hub, QueueState, found, find_queue}
use knock.Server.Hub.Handle.{incoming, message_id, handle_sub, handle_send}
use knock.Server.Hub.Handle.Mail.{replayed}
use knock.Server.Hub.Handle.Subscribe.{IsOpen, greeting}
use knock.Server.Hub.Handle.Offline.{Has, send_then_sub}
use knock.Tests.{json, calm, noon, queue_a, hello, tables, command, quoted, row_a, row_b}

-- Connections 2 and 3 are there, and nobody subscribes.
abbrev unread : QueueState
unread = record { owner = none; sub = none }

abbrev quiet : Hub
quiet = record {
  store = tables;
  clients = λ c. c == 2 || c == 3;
  queues = (queue_a, unread) ∷ [];
  chans = λ _. fresh;
}

abbrev letter : Envelope
letter = command type_send queue_a (codes "message7")

abbrev sub_a : Envelope
sub_a = command type_sub queue_a []

abbrev stored : StoredMessage
stored = record { mid = codes "message7"; qid = queue_a; payload = codes "{}"; ts = 5000 }

-- The message is saved, and its sender has the ACK.
abbrev receipt : Envelope
receipt =
    sealed 5000 type_ack queue_a (codes "message7")
      (struct_text quoted (ack_message (codes "message7")))

abbrev after : Hub
after = record quiet {
  store = record {
    queues = record row_a { last_active = 5000 } ∷ row_b ∷ [];
    messages = tables.messages ++ row stored ∷ [];
  };
  chans = λ c. if 2 == c then record { buffer = receipt ∷ []; closed = false } else fresh;
}

sends : handle_send json noon 2 letter quiet ≡ ok after
unfolding handle_send valid_queue_id decode_hex lookup eq_bytes send_envelope new_envelope encode
    struct_text offer save_message touch_queue message_id short_log
sends = refl

valid_a : valid_queue_id queue_a ≡ true
unfolding valid_queue_id decode_hex
valid_a = refl

unread_before : find_queue noon queue_a quiet ≡ found unread quiet
unfolding find_queue lookup eq_bytes
unread_before = refl

entry_found : find_queue noon queue_a after ≡ found unread after
unfolding find_queue lookup eq_bytes
entry_found = refl

after-IsOpen : IsOpen after
after-IsOpen c e = ground arith

live_after : IsLive (after.chans 3)
live_after = record { open_ = refl; fits = omega arith }

listed_after : undelivered calm queue_a after.store ≡ some (hello ∷ stored ∷ [])
unfolding undelivered eq_bytes order_by_ts
listed_after = refl

room :
    length ((after.chans 3).buffer ++ greeting json noon 3 sub_a (hello ∷ stored ∷ [])) ≤ capacity
unfolding replayed new_envelope marshal struct_text
room = omega arith

mid_7 : message_id noon letter ≡ codes "message7"
unfolding message_id eq_bytes
mid_7 = refl

store_after : Store
store_after = record tables { messages = tables.messages ++ row stored ∷ [] }

saved_7 :
    save_message calm (incoming noon queue_a (message_id noon letter) letter) tables
    ≡ some store_after
unfolding save_message message_id eq_bytes store_after
saved_7 = refl

send_then_sub_example :
    (g : Hub) × (handle_sub json noon 3 sub_a after ≡ ok g)
    × Has
        (sealed 5000 type_deliver queue_a (message_id noon letter) (codes "{}"))
        (g.chans 3).buffer
send_then_sub_example =
    send_then_sub json noon 2 letter quiet quiet after unread store_after noon 3 sub_a after unread
      (hello ∷ stored ∷ []) (codes "{}") valid_a unread_before saved_7 (rw mid_7 (omega arith))
      (record { live = record { open_ = refl; fits = omega arith }; fits = λ d. omega arith }) tt
      sends refl entry_found refl after-IsOpen live_after listed_after refl room
