-- ===== src/Server/Hub/Handle/Subscribe.antt =====
-- server/hub.go: what an accepted SUB does.
use knock.Prelude.{
  ℕ, ◌≡◌, refl, ap, ◌∙◌, Bool, true, false, not, ◌&&◌, Option, none, some, List, [], ◌++◌, ◌==◌,
  if◌then◌else◌, arith, inl, inr, Bool-cases, insert, ==_iff,
}
use knock.Protocol.Id.{valid_queue_id}
use knock.Protocol.Envelope.{Envelope, nothing, Json, new_envelope, type_sub_ok}
use knock.Server.Store.{Store, StoredMessage, undelivered}
use knock.Server.Run.{Run, ok, panic, ◌>>=◌}
use knock.Server.Channel.Offers.{IsLive, push, frames}
use knock.Server.Hub.State.{
  Hub, World, QueueState, found, is_client, update, close_send, kick, find_queue,
}
use knock.Server.Hub.Handle.Mail.{
  mail, mail-mail, mail-IsLive, send_to-mail, replayed, replay-mail, update_self, update_ne,
}
use knock.Server.Hub.Handle.Send.{touched-messages}
use knock.Server.Hub.Handle.{
  touched, set_sub, send_to, kick_previous, replay_offline, subscribe, handle_sub,
}

-- The hub after the subscriber before is kicked.
abbrev pub kicked : ℕ → Hub → Hub
kicked c h = record h {
  clients = update h.clients c false;
  chans = update h.chans c (record (h.chans c) { closed = true });
}

abbrev pub after_kick : ℕ → Option ℕ → Hub → Hub
after_kick from none h = h
after_kick from (some old) h = if old == from then h else if h.clients old then kicked old h else h

-- Whether a SUB of `from` kicks a connection.
abbrev pub kicks : ℕ → Option ℕ → Hub → ℕ → Bool
kicks from o h d = is_client o d && (not (d == from) && h.clients d)

-- Every registered connection's channel is open.
abbrev pub IsOpen : Hub → Type 0
IsOpen h = (c : ℕ) → h.clients c ≡ true → (h.chans c).closed ≡ false

kick_previous-after_kick :
    (from : ℕ) (o : Option ℕ) (h : Hub)
    → IsOpen h
    → kick_previous from o h ≡ ok (after_kick from o h)
unfolding kick_previous kick close_send
kick_previous-after_kick from none h t = refl
kick_previous-after_kick from (some old) h t = elim (Bool-cases (old == from)) [
  | inl same ↦ rw same
  | inr other ↦ elim (Bool-cases (h.clients old)) [
    | inl here ↦ rw (other, here, t old here)
    | inr gone ↦ rw (other, gone)
  ]
]

-- The kick spares the connection that subscribes, and closes the one before it.
after_kick-chans :
    (from : ℕ) (o : Option ℕ) (h : Hub) → (after_kick from o h).chans from ≡ h.chans from
unfolding update
after_kick-chans from none h = refl
after_kick-chans from (some old) h = ground arith

after_kick-queues : (from : ℕ) (o : Option ℕ) (h : Hub) → (after_kick from o h).queues ≡ h.queues
after_kick-queues from none h = refl
after_kick-queues from (some old) h = ground arith

after_kick-store : (from : ℕ) (o : Option ℕ) (h : Hub) → (after_kick from o h).store ≡ h.store
after_kick-store from none h = refl
after_kick-store from (some old) h = ground arith

after_kick-clients :
    (from : ℕ) (o : Option ℕ) (h : Hub) (d : ℕ)
    → (after_kick from o h).clients d ≡ (h.clients d && not (kicks from o h d))
unfolding update
after_kick-clients from none h d = ground arith
after_kick-clients from (some old) h d = ground arith

after_kick-others :
    (from : ℕ) (o : Option ℕ) (h : Hub) (d : ℕ)
    → (d == from) ≡ false
    → (after_kick from o h).chans d
      ≡ (if is_client o d && h.clients d then record (h.chans d) { closed = true } else h.chans d)
unfolding update
after_kick-others from none h d n = refl
after_kick-others from (some old) h d n = ground arith

module _ (j : Json) (w : World) (from : ℕ) (env : Envelope) where
  -- SUB_OK, then the messages that wait, oldest first.
  abbrev pub greeting : List StoredMessage → List Envelope
  greeting ms =
      frames (new_envelope j w.now type_sub_ok env.queue_id [] nothing)
      ++ replayed j w from env.queue_id ms

  abbrev greeted : List StoredMessage → QueueState → Hub → Hub
  greeted ms qs h = mail from (greeting ms) (set_sub from env.queue_id qs h)

  replay_offline-mail :
      (ms : List StoredMessage) (a : Hub)
      → undelivered w.faults env.queue_id a.store ≡ some ms
      → IsLive (a.chans from)
      → replay_offline j w from env.queue_id a
        ≡ ok (mail from (replayed j w from env.queue_id ms) a)
  unfolding replay_offline
  replay_offline-mail ms a u l = rw (u, replay_offline) (replay-mail j w from env.queue_id ms a l)

  greet :
      (ms : List StoredMessage) (a : Hub)
      → undelivered w.faults env.queue_id a.store ≡ some ms
      → IsLive (a.chans from)
      → (send_to j w from type_sub_ok env.queue_id [] nothing a
          >>= replay_offline j w from env.queue_id)
        ≡ ok (mail from (greeting ms) a)
  greet ms a u l = rw (send_to-mail j w from type_sub_ok env.queue_id [] nothing a l) (
      replay_offline-mail ms (mail from first a) u (mail-IsLive from first a l)
      ∙ ap ok (mail-mail from first (replayed j w from env.queue_id ms) a))
    where
      first : List Envelope
      first = frames (new_envelope j w.now type_sub_ok env.queue_id [] nothing)

  bind-greet :
      (m : Run Hub) (g : Hub)
      → (m >>= replay_offline j w from env.queue_id) ≡ ok g
      → (m >>= λ h₂.
          replay_offline j w from env.queue_id h₂ >>= λ h₃. ok (touched w env.queue_id h₃))
        ≡ ok (touched w env.queue_id g)
  bind-greet (ok a) g e = rw e
  bind-greet (panic p) g e = cc

  handle_sub-greeted :
      (h h₀ : Hub) (qs : QueueState) (ms : List StoredMessage)
      → valid_queue_id env.queue_id ≡ true
      → find_queue w env.queue_id h ≡ found qs h₀
      → is_client qs.owner from ≡ false
      → IsOpen h₀
      → IsLive (h₀.chans from)
      → undelivered w.faults env.queue_id h₀.store ≡ some ms
      → handle_sub j w from env h
        ≡ ok (touched w env.queue_id (greeted ms qs (after_kick from qs.sub h₀)))
  unfolding handle_sub
  handle_sub-greeted h h₀ qs ms v e o t l u =
      rw (v, e, subscribe, o, kick_previous-after_kick from qs.sub h₀ t)
        (bind-greet _ _ (
          greet ms (set_sub from env.queue_id qs (after_kick from qs.sub h₀))
            (rw (after_kick-store from qs.sub h₀) u) (rw (after_kick-chans from qs.sub h₀) l)))

  -- A SUB of a valid queue that memory or the table has, by a connection with an open channel that
  -- is not the queue's owner, returns, if every registered connection's channel is open and the
  -- driver lists the messages: the connection is the queue's subscriber and no other entry changes,
  -- no message is deleted or marked, another subscriber before it that is still registered is not
  -- any more and its channel is closed, the connection is sent SUB_OK and then the messages that
  -- wait, as far as its channel has room, and nobody else is sent or loses anything.
  pub sub_accepted :
      (h h₀ : Hub) (qs : QueueState) (ms : List StoredMessage)
      → valid_queue_id env.queue_id ≡ true
      → find_queue w env.queue_id h ≡ found qs h₀
      → is_client qs.owner from ≡ false
      → IsOpen h₀
      → IsLive (h₀.chans from)
      → undelivered w.faults env.queue_id h₀.store ≡ some ms
      → (g : Hub) × (handle_sub j w from env h ≡ ok g)
        × (g.queues ≡ insert env.queue_id (record qs { sub = some from }) h₀.queues)
        × (g.store.messages ≡ h₀.store.messages)
        × ((d : ℕ) → g.clients d ≡ (h₀.clients d && not (kicks from qs.sub h₀ d)))
        × ((d : ℕ)
            → g.chans d ≡ (
                if d == from
                then push (greeting ms) (h₀.chans d)
                else if kicks from qs.sub h₀ d
                then record (h₀.chans d) { closed = true }
                else h₀.chans d))
  sub_accepted h h₀ qs ms v e o t l u = (
    touched w env.queue_id (greeted ms qs (after_kick from qs.sub h₀)),
    handle_sub-greeted h h₀ qs ms v e o t l u,
    ap (insert env.queue_id (record qs { sub = some from })) (after_kick-queues from qs.sub h₀),
    touched-messages w env.queue_id (greeted ms qs (after_kick from qs.sub h₀))
        ∙ ap (λ (x : Store). x.messages) (after_kick-store from qs.sub h₀),
    after_kick-clients from qs.sub h₀,
    greeted-chans,
  )
    where
      greeted-chans :
          (d : ℕ)
          → (greeted ms qs (after_kick from qs.sub h₀)).chans d ≡ (
              if d == from
              then push (greeting ms) (h₀.chans d)
              else if kicks from qs.sub h₀ d
              then record (h₀.chans d) { closed = true }
              else h₀.chans d)
      greeted-chans d = elim (Bool-cases (d == from)) [
        | inl same ↦
            let at_from : d ≡ from = (==_iff d from).0 same in
            rw (
              same,
              at_from,
              update_self (after_kick from qs.sub h₀).chans from,
              after_kick-chans from qs.sub h₀,
            )
        | inr other ↦
            rw
              (other, update_ne (after_kick from qs.sub h₀).chans from _ d (λ x. ground (arith, x)))
              (after_kick-others from qs.sub h₀ d other)
      ]
