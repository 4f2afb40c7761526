-- ===== src/Server/Hub/Loop/Durable.antt =====
-- server/hub.go and server/client.go: what any sequence of events does to the tables.
use knock.Prelude.{ℕ, ◌≡◌, ◌≢◌, refl, Option, none, some, List, [], ◌∷◌, Bytes, All}
use knock.Protocol.Envelope.{Envelope, Json, Parsed, accepted, refused, parse}
use knock.Server.Store.{MessageRow}
use knock.Server.Store.Writes.{In, Writes, done, Writes-In}
use knock.Server.Run.{ok, Ensures, Ensures-ok, Ensures-bind, Ensures-if, Any}
use knock.Server.Channel.{Write, text, waits, close, write_round}
use knock.Server.Channel.Reader.{Routed, read_round-Routed}
use knock.Server.Hub.State.{Hub, World, forget, update, release_queue}
use knock.Server.Hub.Handle.Tables.{Wrote, acks, handle-Wrote, close_send-OfStore}
use knock.Server.Hub.Loop.{
  Event, connects, leaves, frame, writes, step, run, route, written, serve_ws,
}

-- The mid that a frame acknowledges.
abbrev pub parsed_acks : Parsed → Option Bytes
parsed_acks (refused msg) = none
parsed_acks (accepted env) = acks env

abbrev pub event_acks : Event → Option Bytes
event_acks (connects c) = none
event_acks (leaves c) = none
event_acks (writes c) = none
event_acks (frame c d) = parsed_acks (parse d)

store-written : (c : ℕ) (x : Write) (h : Hub) → (written c x h).store ≡ h.store
unfolding written
store-written c (text e ch) h = refl
store-written c waits h = refl
store-written c close h = refl

module _ (j : Json) (w : World) (h : Hub) where
  route-Wrote :
      (c : ℕ) (p : Parsed) (o : Option Envelope)
      → Routed p o
      → (g : Hub) → g.store ≡ h.store
      → Wrote w (parsed_acks p) h.store (route j w c o g)
  unfolding route
  route-Wrote c p none r g e = Ensures-ok g (rw e done)
  route-Wrote c p (some env) r g e = rw (r, ← e) (handle-Wrote j w c env g)

  -- Whatever the event, the tables change only as the command that it carries allows.
  pub step-Wrote : (e : Event) → Wrote w (event_acks e) h.store (step j w e h)
  unfolding step
  step-Wrote (connects c) = Ensures-ok (serve_ws c h) done
  step-Wrote (leaves c) =
      Ensures-if (h.clients c)
        (λ _.
          Ensures-bind _
            (close_send-OfStore (Writes w.faults w.now none h.store) c (forget c h) done)
            λ g q. Ensures-ok (record g { queues = release_queue c g.queues }) q)
        (λ _. Ensures-ok h done)
  step-Wrote (writes c) =
      Ensures-ok (written c (write_round (h.chans c)) h) (rw (store-written c _ h) done)
  step-Wrote (frame c d) =
      Ensures-bind _ (read_round-Routed j w.now d (h.chans c))
        λ x r. route-Wrote c (parse d) x.1 r (record h { chans = update h.chans c x.0 }) refl

-- The events of a run, none of which acknowledges `mid`.
abbrev pub NoAck : Bytes → List (World × Event) → Type 0
NoAck mid = All (λ x. event_acks x.1 ≢ some mid)

module _ (j : Json) where
  run-In :
      (r : MessageRow) (es : List (World × Event)) (h : Hub)
      → NoAck r.mid es
      → In r h.store.messages
      → Ensures (λ g. In r g.store.messages) Any (run j es h)
  unfolding run
  run-In r [] h n i = Ensures-ok h i
  run-In r ((w, e) ∷ es) h n i =
      Ensures-bind _ (step-Wrote j w h e) λ g q. run-In r es g n.1 (Writes-In r n.0 q i)

  -- A stored message is never lost or changed: it is in the table, with the payload, the time and
  -- the mark that it had, after any sequence of connections, disconnections, frames and writes, with
  -- any faults of the driver, that does not panic and in which no ACK carries its mid.
  pub run_keeps_message :
      (r : MessageRow) (es : List (World × Event)) (h g : Hub)
      → NoAck r.mid es
      → In r h.store.messages
      → run j es h ≡ ok g
      → In r g.store.messages
  run_keeps_message r es h g n i e = (run-In r es h n i).returns g e
