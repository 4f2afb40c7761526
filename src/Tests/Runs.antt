-- ===== src/Tests/Runs.antt =====
-- Runs of the theorems on the server's loop: a client comes, sends a message and goes.
use knock.Prelude.{◌≡◌, ◌≢◌, refl, List, [], ◌∷◌, codes, eq_bytes, lookup, inl}
use knock.Protocol.Envelope.{type_send, parse, decoded, new_envelope, struct_text}
use knock.Server.Store.{queue_exists, save_message}
use knock.Server.Store.Writes.{In}
use knock.Server.Run.{ok, panic, close_of_closed, short_log}
use knock.Server.Hub.State.{Hub, World, new_hub}
use knock.Server.Hub.Handle.{handle}
use knock.Server.Channel.{read_round, send_envelope, encode, offer}
use knock.Protocol.Id.{valid_queue_id, decode_hex}
use knock.Prelude.Int.{eq_int}
use knock.Server.Hub.Loop.{Event, connects, leaves, frame, writes, run}
use knock.Server.Hub.Loop.Durable.{NoAck, run_keeps_message}
use knock.Server.Hub.Loop.Tidy.{IsTidy, run-IsTidy, run-no_double_close}
use knock.Tests.{json, returned, noon, queue_a, hello_row, tables, command}

abbrev visit : List (World × Event)
visit =
    (noon, connects 7)
    ∷ (noon, frame 7 (decoded (command type_send queue_a (codes "message9"))))
    ∷ (noon, writes 7)
    ∷ (noon, leaves 7)
    ∷ []

abbrev visited : Hub
visited = returned (new_hub tables) (run json visit (new_hub tables))

visited_returns : run json visit (new_hub tables) ≡ ok visited
unfolding run new_hub read_round eq_int eq_bytes handle valid_queue_id decode_hex lookup
    queue_exists save_message short_log send_envelope new_envelope encode struct_text offer
visited_returns = refl

visit-NoAck : NoAck hello_row.mid visit
unfolding parse eq_int eq_bytes
visit-NoAck = ((λ e. cc), ((λ e. cc), ((λ e. cc), ((λ e. cc), tt))))

run_keeps_message_example : In hello_row visited.store.messages
run_keeps_message_example =
    run_keeps_message json hello_row visit (new_hub tables) visited visit-NoAck
      (unfold new_hub in inl refl) visited_returns

run-no_double_close_example : run json visit (new_hub tables) ≢ panic close_of_closed
run-no_double_close_example = run-no_double_close json tables visit

run-IsTidy_example : IsTidy visited
run-IsTidy_example = run-IsTidy json tables visit visited visited_returns
