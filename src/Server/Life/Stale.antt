-- ===== src/Server/Life/Stale.antt =====
-- server/main.go and server/hub.go: a queue that is swept is still in the hub's memory.
use knock.Prelude.{
  Bytes, ◌∙◌, ℕ, ◌≤◌, ◌≡◌, length, ◌++◌, sym, ap, inl, inr, Bool, true, false, not, none, some,
  List, [], ◌∷◌, codes, eq_bytes, eq_bytes_refl, eq_bytes_iff, select, any-select, Distinct, lookup,
  Bool-cases, arith,
}
use knock.Protocol.Id.{valid_queue_id}
use knock.Protocol.Envelope.{Envelope, Json, type_send, code_server_error}
use knock.Server.Store.{
  checking_keys, saving, has_mid, QueueRow, Store, Faults, has_queue, expired, save_message, sweep,
  sweeping_messages, sweeping_queues, sweeping_delivered,
}
use knock.Server.Store.Writes.{In}
use knock.Server.Store.Effects
use knock.Server.Store.Sweeps.{sweep_lem}
use knock.Server.Run.{ok}
use knock.Server.Channel.Offers.{IsLive, push}
use knock.Server.Hub.State.{find_queue, found, Hub, World, QueueState}
use knock.Server.Hub.Handle.{incoming, message_id, handle}
use knock.Server.Hub.Handle.Offline.{Has}
use knock.Server.Hub.Handle.Refusals.{told, send_unsaved, handle-send}
use knock.Server.Hub.Handle.Send.{IsReady, SubLive, sent, send_accepted}
use knock.Server.Life.{queue_ttl, ack_grace}

listed-Has : (x : QueueRow) (xs : List QueueRow) → Has x xs → has_queue x.qid xs ≡ true
listed-Has x [] i = elim i [ ]
listed-Has x (y ∷ ys) (inl e) = rw (e, eq_bytes_refl x.qid)
listed-Has x (y ∷ ys) (inr i) = ground (arith, listed-Has x ys i)

other_key :
    (x y : QueueRow) (ys : List QueueRow)
    → has_queue y.qid ys ≡ false
    → Has x ys
    → eq_bytes y.qid x.qid ≡ false
other_key x y ys new i = elim (Bool-cases (eq_bytes y.qid x.qid)) [
  | inl same ↦
      let e = (eq_bytes_iff y.qid x.qid).0 same in
      let there = listed-Has x ys i in let gone = rw e at new in ground (arith, there, gone)
  | inr differ ↦ differ
]

-- A key that one element has is gone with it.
gone-select :
    (p : QueueRow → Bool) (x : QueueRow) (xs : List QueueRow)
    → p x ≡ false
    → Distinct (λ q. q.qid) xs
    → Has x xs
    → has_queue x.qid (select p xs) ≡ false
gone-select p x [] out d i = elim i [ ]
gone-select p x (y ∷ ys) out d (inl e) =
    rw (e, out)
      (any-select (λ q. eq_bytes q.qid x.qid) p ys (rw (ap (λ (q : QueueRow). q.qid) e) at d.0))
gone-select p x (y ∷ ys) out d (inr i) =
    ground (arith, gone-select p x ys out d.1 i, other_key x y ys d.0 i)

-- The hub when a sweep by the periods of the program is done: only its tables have changed.
abbrev pub swept_hub : Faults → ℕ → Hub → Hub
swept_hub f now h = record h { store = (sweep f now queue_ttl ack_grace h.store).0 }

known_found :
    (w : World) (qid : Bytes) (g : Hub) (qs : QueueState)
    → lookup qid g.queues ≡ some qs
    → find_queue w qid g ≡ found qs g
unfolding find_queue
known_found w qid g qs e = rw (find_queue, e)

module _ (env : Envelope) (h : Hub) (row : QueueRow) (f : Faults) (now : ℕ)
    (keys : Distinct (λ (q : QueueRow). q.qid) h.store.queues) (i : Has row h.store.queues)
    (e : row.qid ≡ env.queue_id) (old : expired now queue_ttl row ≡ true)
    (f₁ : f sweeping_messages ≡ false) (f₂ : f sweeping_queues ≡ false)
    (f₃ : f sweeping_delivered ≡ false) where
  swept_gone : has_queue env.queue_id (swept_hub f now h).store.queues ≡ false
  swept_gone =
      rw (sweep_lem f now queue_ttl ack_grace h.store f₁ f₂ f₃, sym e)
        (gone-select (λ q. not (expired now queue_ttl q)) row h.store.queues (rw old) keys i)

  module _ (j : Json) (w : World) (from : ℕ) (qs : QueueState)
      (known : lookup env.queue_id h.queues ≡ some qs) (t : env.msg_type ≡ type_send)
      (v : valid_queue_id env.queue_id ≡ true) where
    unsaved :
        (s : Store)
        → w.faults checking_keys ≡ false
        → has_queue env.queue_id s.queues ≡ false
        → save_message w.faults (incoming w env.queue_id (message_id w env) env) s ≡ none
    unfolding save_message
    unsaved s k g = ground (arith, g, k)

    -- A queue that a sweep has dropped, unused for longer than queue_ttl, stays in the memory of the hub: a SEND
    -- to it is then answered by ERROR 500 alone, not by 404, where the connection to the database checks
    -- foreign keys, whatever else the driver does with the SEND, if the queue id is valid, the
    -- three statements of the sweep succeeded on tables with unique queue ids that had the expired
    -- queue, and the sender's channel is open and not overfull.
    pub sent_to_swept :
        w.faults checking_keys ≡ false
        → IsLive (h.chans from)
        → handle j w from env (swept_hub f now h)
          ≡ ok (told j w from env (swept_hub f now h) code_server_error (codes "storage error"))
    sent_to_swept k l =
        send_unsaved j w from env (swept_hub f now h) qs t v known
          (unsaved (swept_hub f now h).store k swept_gone) l

    -- Where the connection to the database does not check foreign keys, a SEND to a queue that a sweep has
    -- dropped, unused for longer than queue_ttl, and that is still in the memory of the hub is taken: its
    -- row is in the table of messages, though the queue is not in that of queues, and the subscriber gets DELIVER and the
    -- sender ACK as far as their channels have room, if the queue id is valid, the three statements of
    -- the sweep succeeded on tables with unique queue ids that had the expired queue, the INSERT does
    -- not fail, the mid is new and has eight bytes, no channel is overfull and those of the two are open.
    pub sent_to_swept_unchecked :
        w.faults checking_keys ≡ true
        → w.faults saving ≡ false
        → has_mid (message_id w env) (swept_hub f now h).store.messages ≡ false
        → 8 ≤ length (message_id w env)
        → IsReady from (swept_hub f now h)
        → SubLive qs.sub (swept_hub f now h)
        → (has_queue env.queue_id (swept_hub f now h).store.queues ≡ false)
          × (g : Hub) × (handle j w from env (swept_hub f now h) ≡ ok g)
          × In (Effects.row (incoming w env.queue_id (message_id w env) env)) g.store.messages
          × ((d : ℕ) → g.chans d ≡ push (sent j w from env qs d) (h.chans d))
    sent_to_swept_unchecked k b new long ready sub =
        let a =
          send_accepted j w from env (swept_hub f now h) (swept_hub f now h) qs _ v
            (known_found w env.queue_id (swept_hub f now h) qs known) (saved k b new) long ready
            sub in
        (swept_gone, a.0, handle-send j w from env (swept_hub f now h) t ∙ a.1, a.2, a.3)
      where
        saved :
            w.faults checking_keys ≡ true
            → w.faults saving ≡ false
            → has_mid (message_id w env) (swept_hub f now h).store.messages ≡ false
            → save_message w.faults
                (incoming w env.queue_id (message_id w env) env)
                (swept_hub f now h).store
              ≡ some (record (swept_hub f now h).store {
                messages =
                    (swept_hub f now h).store.messages
                    ++ Effects.row (incoming w env.queue_id (message_id w env) env) ∷ [];
              })
        saved k b new = unfold save_message in ground (arith, k, b, new)
