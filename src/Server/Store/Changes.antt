-- ===== src/Server/Store/Changes.antt =====
-- server/store.go: the statements that change the tables.
use knock.Prelude.{ℕ, ◌≡◌, Option, Bytes, arith}
use knock.Server.Store.{
  StoredMessage, QueueRow, Store, Faults, create_queue, save_message, mark_delivered, touch_row,
  touch_queue, delete_message, sweep_messages, sweep_queues, sweep_delivered,
}

pub touch_row-qid : (qid : Bytes) (now : ℕ) (q : QueueRow) → (touch_row qid now q).qid ≡ q.qid
unfolding touch_row
touch_row-qid qid now q = ground arith

-- The statements that change the tables, with their arguments.
pub data Change : Type 0 where
  creates touches deletes : Bytes → Change
  saves : StoredMessage → Change
  marks : Bytes → Change
  sweeps_messages sweeps_queues sweeps_delivered : ℕ → Change

unfoldable pub change : Faults → ℕ → Change → Store → Option Store
change f now (creates qid) s = create_queue f qid now s
change f now (touches qid) s = touch_queue f qid now s
change f now (deletes mid) s = delete_message f mid s
change f now (saves m) s = save_message f m s
change f now (marks mid) s = mark_delivered f mid now s
change f now (sweeps_messages ttl) s = sweep_messages f now ttl s
change f now (sweeps_queues ttl) s = sweep_queues f now ttl s
change f now (sweeps_delivered grace) s = sweep_delivered f now grace s
