-- ===== src/Tests/Commands.antt =====
-- Runs of the theorems on server/hub.go.
use knock.Prelude.{
  ℕ, ◌≡◌, ◌≢◌, refl, ap, true, not, ◌&&◌, ◌||◌, none, some, [], ◌∷◌, ◌++◌, Bytes, codes, eq_bytes,
  ◌==◌, if◌then◌else◌, lookup, insert, arith,
}
use knock.Protocol.Id.{valid_queue_id, decode_hex}
use knock.Protocol.Envelope.{
  Envelope, marshal, new_envelope, struct_text, type_sub, type_send, type_ack,
}
use knock.Server.Store.{Store, save_message, undelivered, touch_queue}
use knock.Server.Store.Order.{order_by_ts}
use knock.Server.Store.Effects.{row}
use knock.Server.Store.Writes.{In}
use knock.Server.Run.{ok, panic, send_on_closed, slice_out_of_range}
use knock.Server.Channel.{fresh, send_envelope, encode, offer}
use knock.Server.Channel.Offers.{IsLive, push}
use knock.Server.Hub.State.{Hub, QueueState, found, kick, find_queue}
use knock.Server.Hub.Handle.{incoming, message_id, handle_sub, handle_send, handle}
use knock.Server.Hub.Handle.Send.{sent, send_accepted}
use knock.Server.Hub.Handle.Subscribe.{kicks, greeting, sub_accepted}
use knock.Prelude.{◌⊎◌}
use knock.Server.Hub.Handle.Refusals.{Accepted, IsRefused, handle_refuses}
use knock.Server.Hub.Handle.Crashes.{ack_short_queue_id_panics, kicked_subscriber_panics}
use knock.Tests.{json, returned, calm, noon, queue_a, queue_b, hello, tables, command}

-- Connection 1 subscribes both queues; connections 2 and 3 are there as well.
abbrev serving : QueueState
serving = record { owner = none; sub = some 1 }

abbrev busy : Hub
busy = record {
  store = tables;
  clients = λ c. c == 1 || (c == 2 || c == 3);
  queues = (queue_a, serving) ∷ (queue_b, serving) ∷ [];
  chans = λ _. fresh;
}

abbrev send_a : Envelope
send_a = command type_send queue_a (codes "message7")

abbrev sub_a : Envelope
sub_a = command type_sub queue_a []

abbrev send_b : Envelope
send_b = command type_send queue_b (codes "message8")

valid_a : valid_queue_id queue_a ≡ true
unfolding valid_queue_id decode_hex
valid_a = refl

valid_b : valid_queue_id queue_b ≡ true
unfolding valid_queue_id decode_hex
valid_b = refl

found_a : find_queue noon queue_a busy ≡ found serving busy
unfolding find_queue lookup eq_bytes
found_a = refl

abbrev store_after : Store
store_after = record tables {
  messages = tables.messages ++ row (incoming noon queue_a (codes "message7") send_a) ∷ [];
}

mid_a : message_id noon send_a ≡ codes "message7"
unfolding message_id eq_bytes
mid_a = refl

saved_a :
    save_message calm (incoming noon queue_a (message_id noon send_a) send_a) tables
    ≡ some store_after
unfolding save_message message_id eq_bytes
saved_a = refl

abbrev anybody : (c : ℕ) → IsLive (busy.chans c)
anybody c = record { open_ = refl; fits = omega arith }

send_accepted_example :
    (g : Hub) × (handle_send json noon 2 send_a busy ≡ ok g)
    × In (row (incoming noon queue_a (message_id noon send_a) send_a)) g.store.messages
    × ((d : ℕ) → g.chans d ≡ push (sent json noon 2 send_a serving d) (busy.chans d))
send_accepted_example =
    send_accepted json noon 2 send_a busy busy serving store_after valid_a found_a saved_a
      (rw mid_a (omega arith)) (record { live = anybody 2; fits = λ d. omega arith }) (anybody 1)

listed_a : undelivered calm queue_a tables ≡ some (hello ∷ [])
unfolding undelivered eq_bytes order_by_ts
listed_a = refl

sub_accepted_example :
    (g : Hub) × (handle_sub json noon 2 sub_a busy ≡ ok g)
    × (g.queues ≡ insert queue_a (record serving { sub = some 2 }) busy.queues)
    × (g.store.messages ≡ busy.store.messages)
    × ((d : ℕ) → g.clients d ≡ (busy.clients d && not (kicks 2 serving.sub busy d)))
    × ((d : ℕ)
        → g.chans d ≡ (
            if d == 2
            then push (greeting json noon 2 sub_a (hello ∷ [])) (busy.chans d)
            else if kicks 2 serving.sub busy d
            then record (busy.chans d) { closed = true }
            else busy.chans d))
sub_accepted_example =
    sub_accepted json noon 2 sub_a busy busy serving (hello ∷ []) valid_a found_a refl (λ c r. refl)
      (anybody 2) listed_a

ack_short_queue_id_panics_example :
    handle json noon 2 (command type_ack [] (codes "message1")) busy ≡ panic slice_out_of_range
ack_short_queue_id_panics_example =
    ack_short_queue_id_panics json noon 2 (command type_ack [] (codes "message1")) busy refl
      (omega arith)

abbrev handed_over : Hub
handed_over = returned busy (handle_sub json noon 2 sub_a busy)

handed_over_returns : handle_sub json noon 2 sub_a busy ≡ ok handed_over
unfolding handle_sub valid_queue_id decode_hex lookup eq_bytes kick send_envelope new_envelope
    encode struct_text offer undelivered order_by_ts
handed_over_returns = refl

abbrev stored_last : Store
stored_last = record handed_over.store {
  messages =
      handed_over.store.messages
      ++ row (incoming noon queue_b (message_id noon send_b) send_b) ∷ [];
}

saved_last :
    save_message calm (incoming noon queue_b (message_id noon send_b) send_b) handed_over.store
    ≡ some stored_last
unfolding handle_sub save_message valid_queue_id decode_hex lookup eq_bytes kick send_envelope
    new_envelope encode struct_text offer undelivered order_by_ts touch_queue message_id
saved_last = refl

abbrev initial : Bytes → ℕ
initial [] = 0
initial (c ∷ s) = c

apart : queue_a ≢ queue_b
apart e = let same : 48 ≡ 102 = ap initial e in omega (arith, same)

kicked_subscriber_panics_example : handle_send json noon 3 send_b handed_over ≡ panic send_on_closed
kicked_subscriber_panics_example =
    kicked_subscriber_panics json noon noon 2 3 1 sub_a send_b (codes "{}") busy handed_over serving
      serving (hello ∷ []) stored_last valid_a (unfold lookup eq_bytes in refl) refl (λ c r. refl)
      (anybody 2) listed_a refl (λ e. omega (arith, e)) refl valid_b apart
      (unfold lookup eq_bytes in refl) refl (unfold marshal in refl) handed_over_returns saved_last

abbrev queue_c : Bytes
queue_c = codes "00000000000000000000000000000000"

-- A SUB of a queue that there is not.
abbrev sub_c : Envelope
sub_c = command type_sub queue_c []

handle_refuses_example :
    Accepted noon 2 sub_c busy
    ⊎ IsRefused json noon 2 sub_c busy (anybody 2) (handle json noon 2 sub_c busy)
handle_refuses_example = handle_refuses json noon 2 sub_c busy (anybody 2)
