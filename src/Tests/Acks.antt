-- ===== src/Tests/Acks.antt =====
-- A run of the theorem on ACK.
use knock.Prelude.{◌≡◌, refl, false, arith}
use knock.Protocol.Envelope.{type_ack}
use knock.Server.Store.{has_mid}
use knock.Server.Run.{ok}
use knock.Server.Hub.State.{Hub, new_hub}
use knock.Server.Hub.Handle.{handle}
use knock.Server.Hub.Handle.Acks.{others, ack_accepted}
use knock.Tests.{json, noon, queue_a, hello, tables, command}

ack_accepted_example :
    (g : Hub) × (handle json noon 5 (command type_ack queue_a hello.mid) (new_hub tables) ≡ ok g)
    × (has_mid hello.mid g.store.messages ≡ false)
    × (others hello.mid g ≡ others hello.mid (new_hub tables))
    × (g.store.queues ≡ (new_hub tables).store.queues)
    × (g.queues ≡ (new_hub tables).queues)
    × (g.clients ≡ (new_hub tables).clients)
    × (g.chans ≡ (new_hub tables).chans)
ack_accepted_example =
    ack_accepted json noon 5 (command type_ack queue_a hello.mid) (new_hub tables) refl
      (omega arith) (omega arith) refl
