-- ===== src/Server/Hub/Loop/Tidy.antt =====
-- server/hub.go: no channel is closed twice, and the names of queues are long enough for the logs.
use knock.Prelude.{
  ℕ, ◌≤◌, ◌≡◌, ◌≢◌, refl, true, false, Option, none, some, List, [], ◌∷◌, Bytes, eq_bytes, length,
  All, Map, insert, arith, Bool-cases, inl, inr,
}
use knock.Protocol.Envelope.{Envelope, Payload, Json}
use knock.Server.Store.{Store}
use knock.Server.Run.{ok, panic, close_of_closed, Ensures, Ensures-ok, Ensures-bind, Ensures-if}
use knock.Server.Channel.{Channel, Write, text, waits, close, write_round}
use knock.Server.Channel.Offers.{NoDoubleClose, send_envelope-closed}
use knock.Server.Channel.Reader.{read_round-closed, write_round-closed}
use knock.Server.Hub.State.{
  Hub, World, QueueState, update, forget, close_send, kick, release_queue, new_hub,
}
use knock.Server.Hub.State.Release.{release_queue-keys}
use knock.Server.Hub.Handle.{send_to}
use knock.Server.Hub.Handle.Keeps.{Keeps, handle-Keeps}
use knock.Server.Hub.Loop.{
  Event, connects, leaves, frame, writes, step, run, route, written, serve_ws,
}

-- A registered connection's channel is open, and a queue's name has the eight bytes of the logs.
pub record IsTidy (h : Hub) : Type 0 where
  pub open_ : (c : ℕ) → h.clients c ≡ true → (h.chans c).closed ≡ false
  pub keys : All (λ (e : Bytes × QueueState). 8 ≤ length e.0) h.queues

All-insert :
    (qid : Bytes) (qs : QueueState) (m : Map QueueState)
    → 8 ≤ length qid
    → All (λ (e : Bytes × QueueState). 8 ≤ length e.0) m
    → All (λ (e : Bytes × QueueState). 8 ≤ length e.0) (insert qid qs m)
unfolding insert
All-insert qid qs [] long a = (long, tt)
All-insert qid qs ((k, v) ∷ m) long a = elim (Bool-cases (eq_bytes k qid)) [
  | inl same ↦ rw same (a.0, a.1)
  | inr other ↦ rw other (a.0, All-insert qid qs m long a.1)
]

-- A channel may be replaced by one that is open if it was.
swap-IsTidy :
    (c : ℕ) (ch : Channel) (h : Hub)
    → ch.closed ≡ (h.chans c).closed
    → IsTidy h
    → IsTidy (record h { chans = update h.chans c ch })
swap-IsTidy c ch h e t = record { open_ = λ d r. swapped d r; keys = t.keys }
  where
    swapped : (d : ℕ) → h.clients d ≡ true → (update h.chans c ch d).closed ≡ false
    swapped d r = unfold update in ground (arith, t.open_ d r)

close_send-IsTidy :
    (c : ℕ) (h : Hub)
    → IsTidy h
    → h.clients c ≡ true
    → Ensures IsTidy NoDoubleClose (close_send c (forget c h))
unfolding close_send update
close_send-IsTidy c h t r =
    Ensures-if (h.chans c).closed (λ e. absurd (cc (e, t.open_ c r)))
      λ _. Ensures-ok _ (record { open_ = λ d s. ground (arith, t.open_ d); keys = t.keys })

kick-IsTidy : (c : ℕ) (h : Hub) → IsTidy h → Ensures IsTidy NoDoubleClose (kick c h)
unfolding kick
kick-IsTidy c h t = Ensures-if (h.clients c) (λ r. close_send-IsTidy c h t r) (λ _. Ensures-ok h t)

IsTidy-keeps : (j : Json) (w : World) → Keeps j w IsTidy NoDoubleClose
IsTidy-keeps j w = record {
  slices = λ e. cc;
  stores = λ s h t. record { open_ = t.open_; keys = t.keys };
  queues =
      λ qid qs h long t. record { open_ = t.open_; keys = All-insert qid qs h.queues long t.keys };
  sends = λ c t qid mid p h tidy. send_to-IsTidy c t qid mid p h tidy;
  kicks = kick-IsTidy;
}
  where
    send_to-IsTidy :
        (c : ℕ) (t qid mid : Bytes) (p : Payload) (h : Hub)
        → IsTidy h
        → Ensures IsTidy NoDoubleClose (send_to j w c t qid mid p h)
    send_to-IsTidy c t qid mid p h tidy =
        unfold send_to in
        Ensures-bind _ (send_envelope-closed j w.now t qid mid p (h.chans c))
          λ ch e. Ensures-ok _ (swap-IsTidy c ch h e tidy)

written-IsTidy :
    (c : ℕ) (x : Write) (h : Hub)
    → ((e : Envelope) (ch : Channel) → x ≡ text e ch → ch.closed ≡ (h.chans c).closed)
    → IsTidy h
    → IsTidy (written c x h)
unfolding written
written-IsTidy c (text e ch) h same t = swap-IsTidy c ch h (same e ch refl) t
written-IsTidy c waits h same t = t
written-IsTidy c close h same t = t

module _ (j : Json) where
  route-IsTidy :
      (w : World) (c : ℕ) (o : Option Envelope) (h : Hub)
      → IsTidy h
      → Ensures IsTidy NoDoubleClose (route j w c o h)
  unfolding route
  route-IsTidy w c none h t = Ensures-ok h t
  route-IsTidy w c (some env) h t = handle-Keeps (IsTidy-keeps j w) c env h t

  step-IsTidy :
      (w : World) (e : Event) (h : Hub) → IsTidy h → Ensures IsTidy NoDoubleClose (step j w e h)
  unfolding step
  step-IsTidy w (connects c) h t =
      Ensures-ok (serve_ws c h) (record { open_ = λ d r. ground (arith, t.open_ d); keys = t.keys })
  step-IsTidy w (leaves c) h t =
      Ensures-if (h.clients c)
        (λ r. Ensures-bind _ (close_send-IsTidy c h t r) λ g t'.
          Ensures-ok (record g { queues = release_queue c g.queues })
            (record {
              open_ = t'.open_;
              keys = release_queue-keys (λ k. 8 ≤ length k) c g.queues t'.keys;
            }))
        (λ _. Ensures-ok h t)
  step-IsTidy w (writes c) h t =
      Ensures-ok (written c (write_round (h.chans c)) h) (
        written-IsTidy c (write_round (h.chans c)) h (λ e ch. write_round-closed (h.chans c) ch e)
          t)
  step-IsTidy w (frame c d) h t = Ensures-bind _ (read_round-closed j w.now d (h.chans c)) λ x e.
      route-IsTidy w c x.1 (record h { chans = update h.chans c x.0 }) (swap-IsTidy c x.0 h e t)

  run-Ensures :
      (es : List (World × Event)) (h : Hub) → IsTidy h → Ensures IsTidy NoDoubleClose (run j es h)
  unfolding run
  run-Ensures [] h t = Ensures-ok h t
  run-Ensures ((w, e) ∷ es) h t = Ensures-bind _ (step-IsTidy w e h t) λ g t'. run-Ensures es g t'

  pub new_hub-IsTidy : (s : Store) → IsTidy (new_hub s)
  unfolding new_hub
  new_hub-IsTidy s = record { open_ = λ c r. cc; keys = tt }

  -- From the start of the server, no sequence of events, of whatever clients, closes a channel twice.
  pub run-no_double_close :
      (s : Store) (es : List (World × Event)) → run j es (new_hub s) ≢ panic close_of_closed
  run-no_double_close s es e =
      (run-Ensures es (new_hub s) (new_hub-IsTidy s)).panics close_of_closed e refl

  -- In every state that the server reaches, a registered connection's channel is open, and the names
  -- of the queues in memory have the eight bytes that the log lines of releaseQueue cut out.
  pub run-IsTidy :
      (s : Store) (es : List (World × Event)) (g : Hub) → run j es (new_hub s) ≡ ok g → IsTidy g
  run-IsTidy s es g e = (run-Ensures es (new_hub s) (new_hub-IsTidy s)).returns g e
