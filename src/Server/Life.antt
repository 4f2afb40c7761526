-- ===== src/Server/Life.antt =====
-- server/main.go: sweepLoop beside the hub. The two goroutines meet in the database alone; each statement of a
-- sweep comes between two events of the hub.
pub mod Mail
pub mod Stale
use knock.Prelude.{ℕ, ◌*◌, Option, List, [], ◌∷◌}
use knock.Protocol.Envelope.{Json}
use knock.Server.Store.{Store, Faults, sweep_messages, sweep_queues, sweep_delivered, or_same}
use knock.Server.Run.{Run, ok, ◌>>=◌}
use knock.Server.Hub.State.{Hub, World}
use knock.Server.Hub.Loop.{Event, step}

-- 7 * 24 * time.Hour and 24 * time.Hour, in seconds
abbrev pub queue_ttl : ℕ
queue_ttl = 7 * 24 * 3600

abbrev pub ack_grace : ℕ
ack_grace = 24 * 3600

-- An event of the hub, or one of the three statements of a sweep at a time. A sweep that fails in one
-- of them does not come to the next.
pub data Turn : Type 0 where
  serves : World → Event → Turn
  sweeps_orphans : Faults → ℕ → Turn
  sweeps_stale : Faults → ℕ → Turn
  sweeps_residue : Faults → ℕ → Turn

abbrev pub with_store : (Store → Option Store) → Hub → Hub
with_store f h = record h { store = or_same (f h.store) h.store }

module _ (j : Json) where
  unfoldable pub turn : Turn → Hub → Run Hub
  turn (serves w e) h = step j w e h
  turn (sweeps_orphans f now) h = ok (with_store (sweep_messages f now queue_ttl) h)
  turn (sweeps_stale f now) h = ok (with_store (sweep_queues f now queue_ttl) h)
  turn (sweeps_residue f now) h = ok (with_store (sweep_delivered f now ack_grace) h)

  unfoldable pub live : List Turn → Hub → Run Hub
  live [] h = ok h
  live (t ∷ ts) h = do h' ← turn t h; live ts h'
