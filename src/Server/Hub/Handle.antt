-- ===== src/Server/Hub/Handle.antt =====
-- server/hub.go: handle, one function for each command, with kick and replayOffline.
pub mod Mail
pub mod Tables
pub mod Keeps
pub mod Send
pub mod Subscribe
pub mod Offline
pub mod Crashes
pub mod Refusals
pub mod Serving
pub mod Calmly
pub mod Acks
use mathlib.Core.Option
use knock.Prelude.{
  ℕ, Bool, true, false, Option, none, some, List, [], ◌∷◌, ◌++◌, Bytes, codes, eq_bytes, ◌==◌,
  if◌then◌else◌, insert,
}
use knock.Protocol.Id.{new_id, valid_queue_id}
use knock.Protocol.Envelope.{
  Envelope, Payload, nothing, raw, ack_message, new_ok_message, error_message, Json, type_new,
  type_sub, type_send, type_ack, type_new_ok, type_sub_ok, type_deliver, type_error,
  code_bad_request, code_server_error,
}
use knock.Server.Store.{
  StoredMessage, create_queue, save_message, undelivered, touch_queue, delete_message, or_same,
}
use knock.Server.Run.{Run, ok, short_log, ◌>>=◌, ◌>>◌}
use knock.Server.Channel.{send_envelope}
use knock.Server.Hub.State.{
  Hub, World, QueueState, Found, missing, found, update, is_client, kick, find_queue,
}

-- Only the subscriber before is kicked, never the owner.
kick_previous : ℕ → Option ℕ → Hub → Run Hub
kick_previous from none h = ok h
kick_previous from (some old) h = if old == from then ok h else kick old h

-- The client's mid, or one of the server; an error of NewID is ignored and leaves it empty.
unfoldable pub message_id : World → Envelope → Bytes
message_id w env = if eq_bytes env.msg_id [] then Option.get_or (new_id w.random) [] else env.msg_id

-- The hub after TouchQueue, whose error is ignored.
abbrev touched : World → Bytes → Hub → Hub
touched w qid h = record h { store = or_same (touch_queue w.faults qid w.now h.store) h.store }

-- The entry of a new queue, whose owner is the connection that made it.
abbrev own : ℕ → Bytes → Hub → Hub
own c qid h = record h { queues = insert qid (record { owner = some c; sub = none }) h.queues }

-- qs.sub = from
abbrev set_sub : ℕ → Bytes → QueueState → Hub → Hub
set_sub c qid qs h = record h { queues = insert qid (record qs { sub = some c }) h.queues }

-- The row that a SEND saves.
abbrev pub incoming : World → Bytes → Bytes → Envelope → StoredMessage
incoming w qid mid env = record {
  mid = mid;
  qid = qid;
  payload = Option.get_or env.payload [];
  ts = w.now;
}

-- case protocol.TypeAck
unfoldable pub handle_ack : World → Envelope → Hub → Run Hub
handle_ack w env h = elim (delete_message w.faults env.msg_id h.store) [
  | none ↦ do short_log env.msg_id; short_log env.queue_id; short_log env.msg_id; ok h
  | some s ↦ do short_log env.queue_id; short_log env.msg_id; ok (record h { store = s })
]

module _ (j : Json) where
  -- c.SendEnvelope and c.SendError from the hub's goroutine
  unfoldable pub send_to : World → ℕ → Bytes → Bytes → Bytes → Payload → Hub → Run Hub
  unfolding update
  send_to w c msg_type qid mid payload h = do
    ch ← send_envelope j w.now msg_type qid mid payload (h.chans c)
    ok (record h { chans = update h.chans c ch })

  unfoldable pub error_to : World → ℕ → ℕ → Bytes → Hub → Run Hub
  unfolding send_to
  error_to w c code msg h = send_to w c type_error [] [] (error_message code msg) h

  -- case protocol.TypeNew
  create : World → ℕ → Option Bytes → Hub → Run Hub
  unfolding error_to
  create w from none h = error_to w from code_server_error (codes "internal error") h
  create w from (some qid) h = elim (create_queue w.faults qid w.now h.store) [
    | none ↦ error_to w from code_server_error (codes "storage error") h
    | some s ↦ do
      short_log qid
      send_to w from type_new_ok qid [] (new_ok_message qid)
          (own from qid (touched w qid (record h { store = s })))
  ]

  unfoldable pub handle_new : World → ℕ → Envelope → Hub → Run Hub
  unfolding error_to create
  handle_new w from env h =
      if eq_bytes env.queue_id []
      then create w from (new_id w.random) h
      else error_to w from code_bad_request (codes "NEW must not carry a queue id") h

  pub replay : World → ℕ → Bytes → List StoredMessage → Hub → Run Hub
  replay w c qid [] h = ok h
  replay w c qid (m ∷ ms) h = do
    h' ← send_to w c type_deliver qid m.mid (raw (some m.payload)) h
    replay w c qid ms h'

  unfoldable pub replay_offline : World → ℕ → Bytes → Hub → Run Hub
  unfolding replay
  replay_offline w c qid h = elim (undelivered w.faults qid h.store) [
    | none ↦ ok h
    | some msgs ↦ replay w c qid msgs h
  ]

  subscribe : World → ℕ → Bytes → Found → Hub → Run Hub
  unfolding kick_previous replay_offline
  subscribe w from qid (missing code msg) h = error_to w from code msg h
  subscribe w from qid (found qs h₀) h =
      if is_client qs.owner from
      then error_to w from code_bad_request (codes "cannot subscribe your own queue") h₀
      else do
        h₁ ← kick_previous from qs.sub h₀
        h₂ ← send_to w from type_sub_ok qid [] nothing (set_sub from qid qs h₁)
        h₃ ← replay_offline w from qid h₂
        ok (touched w qid h₃)

  -- case protocol.TypeSub
  unfoldable pub handle_sub : World → ℕ → Envelope → Hub → Run Hub
  unfolding error_to subscribe find_queue
  handle_sub w from env h =
      let qid = env.queue_id in
      if valid_queue_id qid
      then subscribe w from qid (find_queue w qid h) h
      else error_to w from code_bad_request (codes "invalid queue id") h

  deliver_online : World → Option ℕ → Bytes → Bytes → Envelope → Hub → Run Hub
  deliver_online w none qid mid env h = ok h
  deliver_online w (some c) qid mid env h = send_to w c type_deliver qid mid (raw env.payload) h

  deliver : World → ℕ → Envelope → Bytes → Bytes → Found → Hub → Run Hub
  unfolding deliver_online
  deliver w from env qid mid (missing code msg) h = error_to w from code msg h
  deliver w from env qid mid (found qs h₀) h =
      elim (save_message w.faults (incoming w qid mid env) h₀.store) [
        | none ↦ error_to w from code_server_error (codes "storage error") h₀
        | some s ↦ do
          h₁ ← deliver_online w qs.sub qid mid env (touched w qid (record h₀ { store = s }))
          short_log qid
          short_log mid
          send_to w from type_ack qid mid (ack_message mid) h₁
      ]

  -- case protocol.TypeSend
  unfoldable pub handle_send : World → ℕ → Envelope → Hub → Run Hub
  unfolding error_to deliver find_queue message_id
  handle_send w from env h =
      let qid = env.queue_id in
      if valid_queue_id qid
      then deliver w from env qid (message_id w env) (find_queue w qid h) h
      else error_to w from code_bad_request (codes "invalid queue id") h

  unfoldable pub handle : World → ℕ → Envelope → Hub → Run Hub
  unfolding handle_new handle_sub handle_send handle_ack error_to
  handle w from env h =
      if eq_bytes env.msg_type type_new
      then handle_new w from env h
      else if eq_bytes env.msg_type type_sub
      then handle_sub w from env h
      else if eq_bytes env.msg_type type_send
      then handle_send w from env h
      else if eq_bytes env.msg_type type_ack
      then handle_ack w env h
      else error_to w from code_bad_request (codes "unknown command: " ++ env.msg_type) h
