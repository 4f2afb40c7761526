-- ===== src/Server/Hub/Handle/Crashes.antt =====
-- server/hub.go: commands of a client that end the server.
use knock.Prelude.{
  ℕ, ◌<◌, ◌≡◌, ◌≢◌, refl, sym, ap, ◌∙◌, true, false, some, List, Bytes, eq_bytes, if◌then◌else◌,
  length, arith, lookup, lookup-insert_ne, ==_refl, ◌==◌,
}
use knock.Protocol.Id.{valid_queue_id}
use knock.Protocol.Envelope.{Envelope, raw, Json, marshal, type_ack, type_deliver}
use knock.Server.Store.{Store, StoredMessage, save_message, undelivered}
use knock.Server.Run.{ok, panic, slice_out_of_range, send_on_closed, short_log, ok-injective}
use knock.Server.Channel.Offers.{IsLive, push, send_envelope-send_on_closed}
use knock.Server.Hub.State.{Hub, World, QueueState, found, is_client, find_queue}
use knock.Server.Hub.Handle.Subscribe.{IsOpen, kicks, greeting, sub_accepted}
use knock.Server.Hub.Handle.{
  touched, incoming, message_id, send_to, deliver_online, deliver, handle_sub, handle_send,
  handle_ack, handle,
}

short_log-short : (s : Bytes) → length s < 8 → short_log s ≡ panic slice_out_of_range
unfolding short_log
short_log-short s h = ground arith

handle_ack-short :
    (w : World) (env : Envelope) (h : Hub)
    → length env.queue_id < 8
    → handle_ack w env h ≡ panic slice_out_of_range
unfolding handle_ack short_log
handle_ack-short w env h short = ground arith

-- An ACK whose queue id has less than eight bytes, such as one that has none, panics the hub, in
-- every state of the server and whoever sends it.
pub ack_short_queue_id_panics :
    (j : Json) (w : World) (c : ℕ) (env : Envelope) (h : Hub)
    → env.msg_type ≡ type_ack
    → length env.queue_id < 8
    → handle j w c env h ≡ panic slice_out_of_range
unfolding handle eq_bytes
ack_short_queue_id_panics j w c env h is_ack short = rw is_ack (handle_ack-short w env h short)

module _ (j : Json) where
  find_queue-some :
      (w : World) (qid : Bytes) (h : Hub) (qs : QueueState)
      → lookup qid h.queues ≡ some qs
      → find_queue w qid h ≡ found qs h
  unfolding find_queue
  find_queue-some w qid h qs e = rw (e, find_queue)

  deliver_online-closed :
      (w : World) (c : ℕ) (qid mid : Bytes) (env : Envelope) (b : Bytes) (h : Hub)
      → marshal j (raw env.payload) ≡ some b
      → (h.chans c).closed ≡ true
      → deliver_online j w (some c) qid mid env h ≡ panic send_on_closed
  unfolding deliver_online send_to
  deliver_online-closed w c qid mid env b h good shut = rw (
      send_envelope-send_on_closed j w.now type_deliver qid mid (raw env.payload) b (h.chans c) good
        shut)

  send_to_closed :
      (w : World) (from c : ℕ) (env : Envelope) (b : Bytes) (h : Hub) (qs : QueueState) (s : Store)
      → valid_queue_id env.queue_id ≡ true
      → lookup env.queue_id h.queues ≡ some qs
      → qs.sub ≡ some c
      → (h.chans c).closed ≡ true
      → marshal j (raw env.payload) ≡ some b
      → save_message w.faults (incoming w env.queue_id (message_id w env) env) h.store ≡ some s
      → handle_send j w from env h ≡ panic send_on_closed
  unfolding handle_send
  send_to_closed w from c env b h qs s v e sub shut good saved = rw (
    v,
    find_queue-some w env.queue_id h qs e,
    deliver,
    saved,
    sub,
    deliver_online-closed w c env.queue_id (message_id w env) env b
        (touched w env.queue_id (record h { store = s })) good shut,
  )

  -- When a connection that is registered and subscribes two queues is kicked from one of them by a
  -- new subscriber, who is not the owner and has an open channel, while every registered channel is
  -- open, the other queue keeps pointing to its closed channel: after the SUB, every SEND to the
  -- other queue whose row the table takes and whose payload is JSON panics the hub.
  pub kicked_subscriber_panics :
      (w w' : World) (from sender old : ℕ) (env env' : Envelope) (b : Bytes) (h g : Hub)
      (qs qs' : QueueState) (ms : List StoredMessage) (s : Store)
      → valid_queue_id env.queue_id ≡ true
      → lookup env.queue_id h.queues ≡ some qs
      → is_client qs.owner from ≡ false
      → IsOpen h
      → IsLive (h.chans from)
      → undelivered w.faults env.queue_id h.store ≡ some ms
      → qs.sub ≡ some old
      → old ≢ from
      → h.clients old ≡ true
      → valid_queue_id env'.queue_id ≡ true
      → env.queue_id ≢ env'.queue_id
      → lookup env'.queue_id h.queues ≡ some qs'
      → qs'.sub ≡ some old
      → marshal j (raw env'.payload) ≡ some b
      → handle_sub j w from env h ≡ ok g
      → save_message w'.faults (incoming w' env'.queue_id (message_id w' env') env') g.store
        ≡ some s
      → handle_send j w' sender env' g ≡ panic send_on_closed
  kicked_subscriber_panics w w' from sender old env env' b h g qs qs' ms s v e o t l u sub n c v' d
        e' sub' good r saved =
      let (g', returns, queues, _, _, chans) =
        sub_accepted j w from env h h qs ms v (find_queue-some w env.queue_id h qs e) o t l u in
      let same : g' ≡ g = ok-injective g' g (sym returns ∙ r) in
      send_to_closed w' sender old env' b g qs' s v'
        (ap (λ (x : Hub). lookup env'.queue_id x.queues) (sym same)
          ∙ ap (lookup env'.queue_id) queues
          ∙ lookup-insert_ne env.queue_id env'.queue_id _ h.queues d
          ∙ e')
        sub' (ap (λ (x : Hub). (x.chans old).closed) (sym same) ∙ shut g' (chans old)) good saved
    where
      shut :
          (x : Hub)
          → x.chans old ≡ (
              if old == from
              then push (greeting j w from env ms) (h.chans old)
              else if kicks from qs.sub h old
              then record (h.chans old) { closed = true }
              else h.chans old)
          → (x.chans old).closed ≡ true
      shut x q =
          let other : (old == from) ≡ false = ground (arith, n) in
          rw (q, other, sub, ==_refl old, c) refl
