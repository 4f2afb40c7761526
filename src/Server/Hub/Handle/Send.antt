-- ===== src/Server/Hub/Handle/Send.antt =====
-- server/hub.go: what a SEND does when it is accepted, and when it is not.
use knock.Prelude.{
  ℕ, ◌≤◌, ◌≡◌, refl, sym, ap, ◌∙◌, true, Option, none, some, List, [], ◌++◌, Bytes, ◌==◌,
  if◌then◌else◌, length, arith, inl, inr, Option-cases,
}
use knock.Protocol.Id.{valid_queue_id}
use knock.Protocol.Id.Valid.{valid_queue_id_iff}
use knock.Protocol.Envelope.{Envelope, raw, ack_message, Json, new_envelope, type_deliver, type_ack}
use knock.Server.Store.{Store, save_message, touch_queue}
use knock.Server.Store.Writes.{In, In-append_last}
use knock.Server.Store.Effects.{row, save_message-eq-some, touch_queue-eq-some}
use knock.Server.Run.{ok, short_log}
use knock.Server.Channel.{capacity}
use knock.Server.Channel.Offers.{IsLive, push, push-push, push-nil, push-IsLive, frames}
use knock.Server.Hub.State.{Hub, World, QueueState, found, is_client, find_queue, lookup_found}
use knock.Server.Hub.Handle.Mail.{mail, mail-chans, mail-fits, send_to-mail}
use knock.Server.Hub.Handle.{touched, incoming, message_id, deliver_online, deliver, handle_send}

-- The connections that can be written to, and no channel above its capacity.
pub record IsReady (c : ℕ) (h : Hub) : Type 0 where
  pub live : IsLive (h.chans c)
  pub fits : (d : ℕ) → length (h.chans d).buffer ≤ capacity

abbrev pub SubLive : Option ℕ → Hub → Type 0
SubLive none h = Unit
SubLive (some c) h = IsLive (h.chans c)

-- TouchQueue changes no message.
pub touched-messages :
    (w : World) (qid : Bytes) (h : Hub) → (touched w qid h).store.messages ≡ h.store.messages
touched-messages w qid h = elim (Option-cases (touch_queue w.faults qid w.now h.store)) [
  | inl bad ↦ rw bad
  | inr (t, good) ↦
      rw good
        (ap (λ (x : Store). x.messages) (touch_queue-eq-some w.faults h.store t qid w.now good))
]

pub found-chans :
    (w : World) (qid : Bytes) (h : Hub) (qs : QueueState) (h₀ : Hub)
    → find_queue w qid h ≡ found qs h₀
    → h₀.chans ≡ h.chans
found-chans w qid h qs h₀ e = elim (lookup_found w qid h qs h₀ e) [
  | inl same ↦ ap (λ (x : Hub). x.chans) same
  | inr new ↦ ap (λ (x : Hub). x.chans) new
]

pub valid-long : (qid : Bytes) → valid_queue_id qid ≡ true → 8 ≤ length qid
valid-long qid v = omega (arith, ((valid_queue_id_iff qid).0 v).0)

SubLive-chans : (o : Option ℕ) (g h : Hub) → g.chans ≡ h.chans → SubLive o h → SubLive o g
SubLive-chans none g h e l = tt
SubLive-chans (some c) g h e l = rw e l

-- The tables do not matter for the channels.
SubLive-store :
    (o : Option ℕ) (s : Store) (h : Hub) → SubLive o h → SubLive o (record h { store = s })
SubLive-store none s h l = tt
SubLive-store (some c) s h l = l

module _ (j : Json) (w : World) (from : ℕ) (env : Envelope) where
  -- The frames that a SEND of this envelope makes: to the subscriber, and to the sender.
  abbrev pub delivery : List Envelope
  delivery =
      frames (new_envelope j w.now type_deliver env.queue_id (message_id w env) (raw env.payload))

  abbrev pub receipt : List Envelope
  receipt = frames (
      new_envelope j w.now type_ack env.queue_id (message_id w env)
        (ack_message (message_id w env)))

  abbrev pub sent : QueueState → ℕ → List Envelope
  sent qs d = (if is_client qs.sub d then delivery else []) ++ (if from == d then receipt else [])

  abbrev mail_to : Option ℕ → List Envelope → Hub → Hub
  mail_to none es h = h
  mail_to (some c) es h = mail c es h

  -- The hub after the row is saved and the queue touched.
  abbrev saved_hub : Hub → Store → Hub
  saved_hub h₀ s = touched w env.queue_id (record h₀ { store = s })

  deliver_online-mail_to :
      (o : Option ℕ) (h : Hub)
      → SubLive o h
      → deliver_online j w o env.queue_id (message_id w env) env h ≡ ok (mail_to o delivery h)
  unfolding deliver_online
  deliver_online-mail_to none h l = refl
  deliver_online-mail_to (some c) h l =
      send_to-mail j w c type_deliver env.queue_id (message_id w env) (raw env.payload) h l

  short_log-long : (s : Bytes) → 8 ≤ length s → short_log s ≡ ok tt
  unfolding short_log
  short_log-long s h = ground arith

  handle_send-mail :
      (h h₀ : Hub) (qs : QueueState) (s : Store)
      → valid_queue_id env.queue_id ≡ true
      → find_queue w env.queue_id h ≡ found qs h₀
      → save_message w.faults (incoming w env.queue_id (message_id w env) env) h₀.store ≡ some s
      → 8 ≤ length env.queue_id
      → 8 ≤ length (message_id w env)
      → SubLive qs.sub h₀
      → IsLive ((mail_to qs.sub delivery (saved_hub h₀ s)).chans from)
      → handle_send j w from env h
        ≡ ok (mail from receipt (mail_to qs.sub delivery (saved_hub h₀ s)))
  unfolding handle_send
  handle_send-mail h h₀ qs s v e saved long_q long_m l lf =
      rw
        (
          v,
          e,
          deliver,
          saved,
          deliver_online-mail_to qs.sub (saved_hub h₀ s) (SubLive-store qs.sub _ h₀ l),
        )
        (rw (short_log-long env.queue_id long_q, short_log-long (message_id w env) long_m)
          (send_to-mail j w from type_ack env.queue_id (message_id w env)
            (ack_message (message_id w env)) (mail_to qs.sub delivery (saved_hub h₀ s)) lf))

  mail_to-IsLive :
      (o : Option ℕ) (h : Hub) → IsReady from h → IsLive ((mail_to o delivery h).chans from)
  mail_to-IsLive none h r = r.live
  mail_to-IsLive (some c) h r =
      rw (mail-chans c delivery h from (r.fits from)) (push-IsLive _ r.live)

  mail_to-fits :
      (o : Option ℕ) (h : Hub) (d : ℕ)
      → length (h.chans d).buffer ≤ capacity
      → length ((mail_to o delivery h).chans d).buffer ≤ capacity
  mail_to-fits none h d f = f
  mail_to-fits (some c) h d f = mail-fits c delivery h d f

  mail_to-chans :
      (o : Option ℕ) (h : Hub) (d : ℕ)
      → length (h.chans d).buffer ≤ capacity
      → (mail_to o delivery h).chans d ≡ push (if is_client o d then delivery else []) (h.chans d)
  mail_to-chans none h d f = sym (push-nil f)
  mail_to-chans (some c) h d f = mail-chans c delivery h d f

  mail_to-store : (o : Option ℕ) (es : List Envelope) (h : Hub) → (mail_to o es h).store ≡ h.store
  mail_to-store none es h = refl
  mail_to-store (some c) es h = refl

  abbrev answered : Hub → QueueState → Store → Hub
  answered h₀ qs s = mail from receipt (mail_to qs.sub delivery (saved_hub h₀ s))

  answered-chans :
      (h₀ : Hub) (qs : QueueState) (s : Store) (d : ℕ)
      → length (h₀.chans d).buffer ≤ capacity
      → (answered h₀ qs s).chans d ≡ push (sent qs d) (h₀.chans d)
  answered-chans h₀ qs s d fits =
      mail-chans from receipt (mail_to qs.sub delivery (saved_hub h₀ s)) d
        (mail_to-fits qs.sub (saved_hub h₀ s) d fits)
      ∙ ap (push (if from == d then receipt else [])) (mail_to-chans qs.sub (saved_hub h₀ s) d fits)
      ∙ push-push (if is_client qs.sub d then delivery else []) (if from == d then receipt else [])
          (h₀.chans d)

  answered-In :
      (h₀ : Hub) (qs : QueueState) (s : Store)
      → save_message w.faults (incoming w env.queue_id (message_id w env) env) h₀.store ≡ some s
      → In (row (incoming w env.queue_id (message_id w env) env)) (answered h₀ qs s).store.messages
  answered-In h₀ qs s saved =
      rw
        (
          mail_to-store qs.sub delivery (saved_hub h₀ s),
          touched-messages w env.queue_id (record h₀ { store = s }),
          (save_message-eq-some w.faults h₀.store s (incoming w env.queue_id (message_id w env) env)
              saved).2,
        )
        (In-append_last _ h₀.store.messages)

  -- A SEND to a valid queue that memory or the table has, whose row the table takes, and whose mid
  -- has the eight bytes of the log lines, returns, if the channels of the sender and of the
  -- subscriber are open and no channel is above its capacity: the message is in the table, the subscriber, if there is one, is sent
  -- DELIVER, the sender ACK, in this order, and nobody else anything. A full channel drops the rest.
  pub send_accepted :
      (h h₀ : Hub) (qs : QueueState) (s : Store)
      → valid_queue_id env.queue_id ≡ true
      → find_queue w env.queue_id h ≡ found qs h₀
      → save_message w.faults (incoming w env.queue_id (message_id w env) env) h₀.store ≡ some s
      → 8 ≤ length (message_id w env)
      → IsReady from h
      → SubLive qs.sub h
      → (g : Hub) × (handle_send j w from env h ≡ ok g)
        × In (row (incoming w env.queue_id (message_id w env) env)) g.store.messages
        × ((d : ℕ) → g.chans d ≡ push (sent qs d) (h.chans d))
  send_accepted h h₀ qs s v e saved long r l = (
    answered h₀ qs s,
    handle_send-mail h h₀ qs s v e saved (valid-long env.queue_id v) long
        (SubLive-chans qs.sub h₀ h same l)
        (mail_to-IsLive qs.sub (saved_hub h₀ s)
          (record { live = rw same r.live; fits = λ d. rw same (r.fits d) })),
    answered-In h₀ qs s saved,
    λ d. answered-chans h₀ qs s d (rw same (r.fits d)) ∙ ap (λ f. push (sent qs d) (f d)) same,
  )
    where
      same : h₀.chans ≡ h.chans
      same = found-chans w env.queue_id h qs h₀ e
