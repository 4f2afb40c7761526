-- ===== src/Tests/Lives.antt =====
-- Runs of the theorems on the server as a whole: its mailboxes, and the sweeper beside the hub.
use knock.Prelude.{
  ℕ, Distinct, false, ◌≡◌, refl, true, ◌==◌, none, some, List, [], ◌∷◌, codes, eq_bytes, map, All,
  lookup, inl, inr, arith,
}
use knock.Prelude.Int.{eq_int}
use knock.Protocol.Id.{valid_queue_id, decode_hex}
use knock.Protocol.Envelope.{
  Envelope, type_send, type_ack, code_server_error, decoded, parse, new_envelope, struct_text,
}
use knock.Server.Store.Effects
use knock.Server.Channel.Offers.{IsLive, push}
use knock.Server.Hub.Handle.{message_id, incoming}
use knock.Server.Hub.Handle.Send.{sent}
use knock.Server.Store.{
  QueueRow, Faults, checking_keys, has_queue, queue_exists, save_message, delete_message, sweep,
  sweep_messages, sweep_queues, sweep_delivered,
}
use knock.Server.Store.Writes.{In}
use knock.Server.Run.{ok, short_log}
use knock.Server.Channel.{fresh, read_round, send_envelope, encode, offer}
use knock.Server.Hub.State.{Hub, World, QueueState, new_hub}
use knock.Server.Hub.Handle.{handle}
use knock.Server.Hub.Handle.Refusals.{told}
use knock.Server.Hub.Loop.{step, Event, connects, leaves, frame, writes, run}
use knock.Server.Hub.Loop.Durable.{event_acks}
use knock.Server.Mailbox.{Serves, view}
use knock.Server.Mailbox.Refine.{run_refines}
use knock.Server.Life.{turn, Turn, serves, sweeps_orphans, sweeps_stale, sweeps_residue, live}
use knock.Server.Life.Mail.{IsFresh, Spares, live_keeps_message}
use knock.Server.Life.Stale.{swept_hub, sent_to_swept, sent_to_swept_unchecked}
use knock.Tests.{json, returned, calm, noon, queue_a, hello_row, tables, command, row_a}

-- A client comes, sends a message, acknowledges an older one and goes.
abbrev errand : List (World × Event)
errand =
    (noon, connects 7)
    ∷ (noon, frame 7 (decoded (command type_send queue_a (codes "message9"))))
    ∷ (noon, writes 7)
    ∷ (noon, frame 7 (decoded (command type_ack queue_a hello_row.mid)))
    ∷ (noon, leaves 7)
    ∷ []

abbrev back : Hub
back = returned (new_hub tables) (run json errand (new_hub tables))

back_returns : run json errand (new_hub tables) ≡ ok back
unfolding run new_hub read_round eq_int eq_bytes handle valid_queue_id decode_hex lookup
    queue_exists save_message delete_message short_log send_envelope new_envelope encode struct_text
    offer
back_returns = refl

run_refines_example :
    Serves
      (map (λ x. ((x.0).faults checking_keys, event_acks x.1)) errand)
      (view (new_hub tables).store)
      (view back.store)
run_refines_example = run_refines json errand (new_hub tables) back back_returns

-- The client sends, and a sweep runs between its two frames.
abbrev busy_day : List Turn
busy_day =
    serves noon (connects 7)
    ∷ serves noon (frame 7 (decoded (command type_send queue_a (codes "message9"))))
    ∷ sweeps_orphans calm 604900
    ∷ sweeps_stale calm 704901
    ∷ sweeps_residue calm 704901
    ∷ serves noon (leaves 7)
    ∷ []

abbrev by_night : Hub
by_night = returned (new_hub tables) (live json busy_day (new_hub tables))

by_night_returns : live json busy_day (new_hub tables) ≡ ok by_night
unfolding live turn step new_hub read_round eq_int eq_bytes handle valid_queue_id decode_hex lookup
    queue_exists save_message short_log send_envelope new_envelope encode struct_text offer
    sweep_messages sweep_queues sweep_delivered
by_night_returns = refl

spared : All (Spares 100 hello_row) busy_day
unfolding parse eq_int eq_bytes
spared = (
  ((λ e. cc), omega arith),
  (((λ e. cc), omega arith), (omega arith, (tt, (tt, (((λ e. cc), omega arith), tt))))),
)

never_old : All (IsFresh 100 hello_row.qid) tables.queues
never_old = (inr (inr (omega arith)), (inr (inr (omega arith)), tt))

live_keeps_message_example : In hello_row by_night.store.messages
live_keeps_message_example =
    live_keeps_message json 100 hello_row refl busy_day (new_hub tables) by_night spared
      (unfold new_hub in inl refl) (unfold new_hub in never_old) by_night_returns

-- Connection 1 reads both queues; the queue `queue_a` has not been used for longer than a week.
abbrev serving : QueueState
serving = record { owner = none; sub = some 1 }

abbrev attended : Hub
attended = record {
  store = tables;
  clients = λ c. c == 1;
  queues = (queue_a, serving) ∷ [];
  chans = λ _. fresh;
}

valid_a : valid_queue_id queue_a ≡ true
unfolding valid_queue_id decode_hex
valid_a = refl

serving_a : lookup queue_a attended.queues ≡ some serving
unfolding lookup eq_bytes
serving_a = refl

abbrev too_late : Envelope
too_late = command type_send queue_a (codes "message7")

distinct : Distinct (λ (q : QueueRow). q.qid) attended.store.queues
unfolding eq_bytes
distinct = (refl, (refl, tt))

sent_to_swept_example :
    handle json noon 2 too_late (swept_hub calm 604901 attended)
    ≡ ok (
        told json noon 2 too_late
          (swept_hub calm 604901 attended)
          code_server_error
          (codes "storage error"))
sent_to_swept_example =
    sent_to_swept too_late attended row_a calm 604901 distinct (inl refl) refl refl refl refl refl
      json noon 2 serving serving_a refl valid_a refl (record { open_ = refl; fits = omega arith })

open_place : IsLive fresh
open_place = record { open_ = refl; fits = omega arith }

-- The connection to the database does not check foreign keys.
abbrev lax : Faults
lax checking_keys = true
lax _ = false

abbrev lax_noon : World
lax_noon = record noon { faults = lax }

nothing_left : (swept_hub calm 604901 attended).store.messages ≡ []
unfolding sweep eq_bytes
nothing_left = refl

mid_7 : message_id lax_noon too_late ≡ codes "message7"
unfolding message_id eq_bytes
mid_7 = refl

sent_to_swept_unchecked_example :
    (has_queue queue_a (swept_hub calm 604901 attended).store.queues ≡ false)
    × (g : Hub) × (handle json lax_noon 2 too_late (swept_hub calm 604901 attended) ≡ ok g)
    × In
        (Effects.row (incoming lax_noon queue_a (message_id lax_noon too_late) too_late))
        g.store.messages
    × ((d : ℕ) → g.chans d ≡ push (sent json lax_noon 2 too_late serving d) (attended.chans d))
sent_to_swept_unchecked_example =
    sent_to_swept_unchecked too_late attended row_a calm 604901 distinct (inl refl) refl refl refl
      refl refl json lax_noon 2 serving serving_a refl valid_a refl refl (rw nothing_left)
      (rw mid_7 (omega arith)) (record { live = open_place; fits = λ d. omega arith }) open_place
