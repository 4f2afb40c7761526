-- ===== src/Server/Hub/Handle/Offline.antt =====
-- server/hub.go: a message that is sent while nobody listens reaches the next subscriber.
use mathlib.Core.Option.{some-injective}
use knock.Prelude.{
  ℕ, ◌≤◌, ◌≡◌, refl, sym, ap, ◌∙◌, ◌⊎◌, inl, inr, Bool, true, false, some, List, [], ◌∷◌, ◌++◌, map,
  Bytes, ◌==◌, ==_refl, eq_bytes_refl, if◌then◌else◌, length, select, take_all, arith,
}
use knock.Protocol.Id.{valid_queue_id}
use knock.Protocol.Envelope.{Envelope, Json, raw, sealed, marshal, type_deliver}
use knock.Server.Store.{
  Store, StoredMessage, MessageRow, Faults, listing, pending, undelivered, save_message,
}
use knock.Server.Store.Effects.{row}
use knock.Server.Store.Writes.{In, In-select}
use knock.Server.Store.Sweeps.{undelivered_lem}
use knock.Server.Run.{ok, ok-injective}
use knock.Server.Channel.{capacity}
use knock.Server.Channel.Offers.{IsLive, new_envelope-some}
use knock.Server.Hub.State.{Hub, World, QueueState, found, is_client, find_queue, lookup_found}
use knock.Server.Hub.Handle.Mail.{replayed}
use knock.Server.Hub.Handle.Subscribe.{IsOpen, greeting, sub_accepted}
use knock.Server.Hub.Handle.Send.{IsReady, SubLive, send_accepted}
use knock.Server.Hub.Handle.{handle_sub, handle_send, incoming, message_id}

-- A list has an element.
abbrev pub Has : {A : Type 0} → A → List A → Type 0
Has x [] = ⊥
Has x (y ∷ ys) = (y ≡ x) ⊎ Has x ys

module _ {A : Type 0} (x : A) where
  Has-kept :
      (b : Bool) (y : A) (zs ys : List A)
      → (Has x zs → Has x ys)
      → Has x (if b then y ∷ zs else zs)
      → Has x (y ∷ ys)
  Has-kept true y zs ys f (inl e) = inl e
  Has-kept true y zs ys f (inr h) = inr (f h)
  Has-kept false y zs ys f h = inr (f h)

  Has-select : (p : A → Bool) (ys : List A) → Has x (select p ys) → Has x ys
  Has-select p [] i = i
  Has-select p (y ∷ ys) i = Has-kept (p y) y (select p ys) ys (Has-select p ys) i

  Has-append : (xs ys : List A) → Has x ys → Has x (xs ++ ys)
  Has-append [] ys h = h
  Has-append (z ∷ xs) ys h = inr (Has-append xs ys h)

  Has-append_left : (xs ys : List A) → Has x xs → Has x (xs ++ ys)
  Has-append_left [] ys h = elim h [ ]
  Has-append_left (z ∷ xs) ys (inl e) = inl e
  Has-append_left (z ∷ xs) ys (inr h) = inr (Has-append_left xs ys h)

In-Has :
    (m : StoredMessage) (rs : List MessageRow) → In (row m) rs → Has m (map (λ r. r.message) rs)
In-Has m [] i = elim i [ ]
In-Has m (r ∷ rs) (inl e) = inl (ap (λ (x : MessageRow). x.message) e)
In-Has m (r ∷ rs) (inr i) = inr (In-Has m rs i)

listing-false :
    (f : Faults) (qid : Bytes) (s : Store) (ms : List StoredMessage)
    → undelivered f qid s ≡ some ms
    → f listing ≡ false
unfolding undelivered
listing-false f qid s ms u = ground arith

-- A message that waits in the table is among those that are listed.
undelivered-Has :
    (f : Faults) (s : Store) (ms : List StoredMessage) (m : StoredMessage)
    → undelivered f m.qid s ≡ some ms
    → In (row m) s.messages
    → Has m ms
undelivered-Has f s ms m u i =
    let l = undelivered_lem f m.qid s (listing-false f m.qid s ms u) in
    let same : l.0 ≡ ms = some-injective _ _ (sym l.1 ∙ u) in
    let waits : pending m.qid (row m) ≡ true = rw (eq_bytes_refl m.qid) in
    let at_ts : Has m (select (λ (x : StoredMessage). x.ts == m.ts) l.0) = rw (l.3 m.ts) (
      In-Has m _ (
        In-select (row m) (λ r. r.ts == m.ts) _ (==_refl m.ts)
          (In-select (row m) (pending m.qid) s.messages waits i))) in
    rw (sym same) (Has-select m (λ (x : StoredMessage). x.ts == m.ts) l.0 at_ts)

module _ (j : Json) (w : World) (from : ℕ) where
  -- The frame in which a message of the table is delivered.
  abbrev pub delivered_as : StoredMessage → Bytes → Envelope
  delivered_as m b = sealed w.now type_deliver m.qid m.mid b

  replayed-Has :
      (ms : List StoredMessage) (m : StoredMessage) (b : Bytes)
      → j.compact m.payload ≡ some b
      → Has m ms
      → Has (delivered_as m b) (replayed j w from m.qid ms)
  unfolding replayed
  replayed-Has [] m b c h = elim h [ ]
  replayed-Has (x ∷ ms) m b c (inl e) =
      rw
        (
          e,
          new_envelope-some j w.now type_deliver m.qid m.mid (raw (some m.payload)) b
              (unfold marshal in c),
        )
        (inl refl)
  replayed-Has (x ∷ ms) m b c (inr h) = Has-append _ _ _ (replayed-Has ms m b c h)

  greeting-Has :
      (env : Envelope) (ms : List StoredMessage) (m : StoredMessage) (b : Bytes)
      → env.queue_id ≡ m.qid
      → j.compact m.payload ≡ some b
      → Has m ms
      → Has (delivered_as m b) (greeting j w from env ms)
  greeting-Has env ms m b q c h = rw q (Has-append _ _ _ (replayed-Has ms m b c h))

  -- A message that waits in the table is sent to the connection whose SUB of its queue is accepted, if
  -- its payload is JSON and the connection's channel has room for SUB_OK and all that waits.
  pub sub_delivers :
      (env : Envelope) (h h₀ : Hub) (qs : QueueState) (ms : List StoredMessage) (m : StoredMessage)
      (b : Bytes)
      → valid_queue_id env.queue_id ≡ true
      → find_queue w env.queue_id h ≡ found qs h₀
      → is_client qs.owner from ≡ false
      → IsOpen h₀
      → IsLive (h₀.chans from)
      → undelivered w.faults env.queue_id h₀.store ≡ some ms
      → In (row m) h₀.store.messages
      → env.queue_id ≡ m.qid
      → j.compact m.payload ≡ some b
      → length ((h₀.chans from).buffer ++ greeting j w from env ms) ≤ capacity
      → (g : Hub) × (handle_sub j w from env h ≡ ok g)
        × Has (delivered_as m b) (g.chans from).buffer
  sub_delivers env h h₀ qs ms m b v e o t l u i q c room =
      let r = sub_accepted j w from env h h₀ qs ms v e o t l u in
      let listed : Has m ms =
        undelivered-Has w.faults h₀.store ms m
          (ap (λ k. undelivered w.faults k h₀.store) (sym q) ∙ u) i in
      let whole = take_all capacity ((h₀.chans from).buffer ++ greeting j w from env ms) room in
      let sent : Has (delivered_as m b) ((h₀.chans from).buffer ++ greeting j w from env ms) =
        Has-append _ (h₀.chans from).buffer _ (greeting-Has env ms m b q c listed) in
      (r.0, r.1, rw (r.5 from, ==_refl from) (rw whole sent))

found-store :
    (w : World) (qid : Bytes) (h : Hub) (qs : QueueState) (h₀ : Hub)
    → find_queue w qid h ≡ found qs h₀
    → h₀.store ≡ h.store
found-store w qid h qs h₀ e = elim (lookup_found w qid h qs h₀ e) [
  | inl same ↦ ap (λ (x : Hub). x.store) same
  | inr new ↦ ap (λ (x : Hub). x.store) new
]

-- The message of an accepted SEND reaches whoever subscribes to its queue next: after the SEND, an
-- accepted SUB of the queue sends the subscriber DELIVER with the mid and the payload of the message,
-- if the payload is JSON and the subscriber's channel has room for SUB_OK and all that waits.
pub send_then_sub :
    (j : Json) (w : World) (sender : ℕ) (send : Envelope) (h h₀ g : Hub) (qs : QueueState)
    (s : Store) (w' : World) (from : ℕ) (sub : Envelope) (h₁ : Hub) (qs' : QueueState)
    (ms : List StoredMessage) (b : Bytes)
    → valid_queue_id send.queue_id ≡ true
    → find_queue w send.queue_id h ≡ found qs h₀
    → save_message w.faults (incoming w send.queue_id (message_id w send) send) h₀.store ≡ some s
    → 8 ≤ length (message_id w send)
    → IsReady sender h
    → SubLive qs.sub h
    → handle_send j w sender send h ≡ ok g
    → sub.queue_id ≡ send.queue_id
    → find_queue w' sub.queue_id g ≡ found qs' h₁
    → is_client qs'.owner from ≡ false
    → IsOpen h₁
    → IsLive (h₁.chans from)
    → undelivered w'.faults sub.queue_id h₁.store ≡ some ms
    → j.compact (incoming w send.queue_id (message_id w send) send).payload ≡ some b
    → length ((h₁.chans from).buffer ++ greeting j w' from sub ms) ≤ capacity
    → (g' : Hub) × (handle_sub j w' from sub g ≡ ok g')
      × Has (sealed w'.now type_deliver send.queue_id (message_id w send) b) (g'.chans from).buffer
send_then_sub j w sender send h h₀ g qs s w' from sub h₁ qs' ms b v e saved long r l sends q e' o t
      l' u c room =
    let r₁ = send_accepted j w sender send h h₀ qs s v e saved long r l in
    let same : r₁.0 ≡ g = ok-injective _ _ (sym r₁.1 ∙ sends) in
    let waits : In (row (incoming w send.queue_id (message_id w send) send)) h₁.store.messages =
      rw (found-store w' sub.queue_id g qs' h₁ e', sym same) r₁.2 in
    sub_delivers j w' from sub g h₁ qs' ms (incoming w send.queue_id (message_id w send) send) b
      (rw q v) e' o t l' u waits q c room
