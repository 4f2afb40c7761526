-- ===== src/Server/Mailbox/Refine.antt =====
-- server/hub.go and server/store.go: the server with its tables does what the boxes promise.
use mathlib.Core.Path.{fun_ext}
use knock.Prelude.{
  ℕ, ◌≡◌, refl, sym, ap, ◌∙◌, Bool, false, not, Option, some, List, [], ◌∷◌, ◌++◌, map, Bytes,
  eq_bytes, select, select-append, any, any-append, any-map, any-select, has_key-map, if◌then◌else◌,
  inl, inr, Bool-cases, arith,
}
use knock.Protocol.Envelope.{Json}
use knock.Server.Store.{
  checking_keys, StoredMessage, MessageRow, QueueRow, Store, Faults, has_mid, pending, touch_row,
  listing, undelivered,
}
use knock.Server.Store.Effects.{
  row, create_queue-eq-some, save_message-eq-some, touch_queue-eq-some, delete_message-eq-some,
}
use knock.Server.Store.Changes.{
  Change, creates, touches, deletes, saves, marks, sweeps_messages, sweeps_queues, sweeps_delivered,
  change, touch_row-qid,
}
use knock.Server.Store.Writes.{Allowed, Writes, done, next}
use knock.Server.Store.Order.{order_by_ts}
use knock.Server.Store.Order.Arrival.{
  arrive, order_by_ts-append_last, order_by_ts-select, any-order_by_ts, arrive-map, select-map,
  select_comm,
}
use knock.Server.Run.{ok, Ensures, Ensures-ok, Ensures-bind, Ensures-imp, Any}
use knock.Server.Hub.State.{Hub, World}
use knock.Server.Hub.Loop.{Event, run}
use knock.Server.Hub.Loop.Durable.{event_acks, step-Wrote}
use knock.Server.Mailbox.{
  Mailboxes, open_box, post, discard, waiting, view, Served, unchanged, opens, posts, discards,
  Serves, ended, then_served,
}

-- Boxes are equal when they are equal everywhere.
boxes_eq :
    (a b : Mailboxes)
    → ((q : Bytes) → a.is_box q ≡ b.is_box q)
    → ((q : Bytes) → a.mail q ≡ b.mail q)
    → a ≡ b
boxes_eq a b e f =
    ap (λ (g : Bytes → Bool). record a { is_box = g }) (fun_ext e)
    ∙ ap (λ (g : Bytes → List StoredMessage). record b { mail = g }) (fun_ext f)

waiting-append_last :
    (q : Bytes) (rows : List MessageRow) (m : StoredMessage)
    → waiting q (rows ++ row m ∷ [])
      ≡ (if eq_bytes m.qid q then arrive (λ x. x.ts) m (waiting q rows) else waiting q rows)
waiting-append_last q rows m =
    rw (select-append (pending q) rows (row m ∷ [])) (elim (Bool-cases (eq_bytes m.qid q)) [
      | inl here ↦
          rw
            (
              here,
              order_by_ts-append_last (λ (r : MessageRow). r.ts) (select (pending q) rows) (row m),
            )
            (arrive-map (λ (r : MessageRow). r.message) (λ x. x.ts) (row m) _)
      | inr other ↦ rw (other, mathlib.Core.List.append-nil (select (pending q) rows))
    ])

waiting-select :
    (q mid : Bytes) (rows : List MessageRow)
    → waiting q (select (λ m. not (eq_bytes m.mid mid)) rows)
      ≡ select (λ m. not (eq_bytes m.mid mid)) (waiting q rows)
waiting-select q mid rows =
    ap
      (λ (rs : List MessageRow).
        map (λ (r : MessageRow). r.message) (order_by_ts (λ (r : MessageRow). r.ts) rs))
      (select_comm (pending q) (λ (r : MessageRow). not (eq_bytes r.mid mid)) rows)
    ∙ ap (map (λ (r : MessageRow). r.message)) (
        order_by_ts-select (λ (r : MessageRow). r.ts) (λ r. not (eq_bytes r.mid mid))
          (select (pending q) rows))
    ∙ sym (select-map (λ (r : MessageRow). r.message) (λ m. not (eq_bytes m.mid mid)) _)

-- A mid that no row has is not waiting anywhere.
waiting_new :
    (q mid : Bytes) (rows : List MessageRow)
    → has_mid mid rows ≡ false
    → any (λ (x : StoredMessage). eq_bytes x.mid mid) (waiting q rows) ≡ false
waiting_new q mid rows h =
    any-map (λ (x : StoredMessage). eq_bytes x.mid mid) (λ (r : MessageRow). r.message) _
    ∙ any-order_by_ts (λ (r : MessageRow). r.ts) (λ r. eq_bytes r.mid mid) (select (pending q) rows)
    ∙ any-select (λ (r : MessageRow). eq_bytes r.mid mid) (pending q) rows h

module _ (t : Store) where
  view-create :
      (r : QueueRow) → view (record t { queues = t.queues ++ r ∷ [] }) ≡ open_box r.qid (view t)
  view-create r =
      boxes_eq _ _
        (λ q. ground (arith, any-append (λ (x : QueueRow). eq_bytes x.qid q) t.queues (r ∷ [])))
        λ q. refl

  view-touch :
      (qid : Bytes) (now : ℕ)
      → view (record t { queues = map (touch_row qid now) t.queues }) ≡ view t
  view-touch qid now =
      boxes_eq _ _
        (λ q.
          has_key-map (λ (x : QueueRow). x.qid) (touch_row qid now) (touch_row-qid qid now) q
            t.queues)
        λ q. refl

  view-save :
      (m : StoredMessage)
      → view (record t { messages = t.messages ++ row m ∷ [] }) ≡ post m (view t)
  view-save m = boxes_eq _ _ (λ q. refl) λ q. waiting-append_last q t.messages m

  view-delete :
      (mid : Bytes)
      → view (record t { messages = select (λ m. not (eq_bytes m.mid mid)) t.messages })
        ≡ discard mid (view t)
  view-delete mid = boxes_eq _ _ (λ q. refl) λ q. waiting-select q mid t.messages

module _ (f : Faults) (now : ℕ) (acked : Option Bytes) (b : Mailboxes) where
  change-Served :
      (x : Change) (t u : Store)
      → Allowed acked x
      → change f now x t ≡ some u
      → Served (f checking_keys) acked b (view t)
      → Served (f checking_keys) acked b (view u)
  unfolding change
  change-Served (creates qid) t u a e s = elim (create_queue-eq-some f t u qid now e) [
    | inl same ↦ rw same.1 s
    | inr new ↦
        rw (new.1, view-create t (record { qid = qid; created_at = now; last_active = 0 }))
          (opens s qid)
  ]
  change-Served (touches qid) t u a e s =
      rw (touch_queue-eq-some f t u qid now e, view-touch t qid now) s
  change-Served (deletes mid) t u a e s =
      rw (delete_message-eq-some f t u mid e, view-delete t mid) (discards s mid a)
  change-Served (saves m) t u a e s =
      let (new, there, after) = save_message-eq-some f t u m e in
      rw (after, view-save t m) (posts s m there (λ q. waiting_new q m.mid t.messages new))
  change-Served (marks mid) t u a e s = absurd a
  change-Served (sweeps_messages k) t u a e s = absurd a
  change-Served (sweeps_queues k) t u a e s = absurd a
  change-Served (sweeps_delivered k) t u a e s = absurd a

pub Writes-Served :
    {f : Faults} {now : ℕ} {acked : Option Bytes} {s t : Store}
    → Writes f now acked s t
    → Served (f checking_keys) acked (view s) (view t)
Writes-Served done = unchanged
Writes-Served {f} {now} {acked} {s} (next {t = u} {u = t} c x a e) =
    change-Served f now acked (view s) x u t a e (Writes-Served c)

module _ (j : Json) where
  run-Serves :
      (es : List (World × Event)) (h : Hub)
      → Ensures
          (λ g.
            Serves
              (map (λ x. ((x.0).faults checking_keys, event_acks x.1)) es)
              (view h.store)
              (view g.store))
          Any
          (run j es h)
  unfolding run
  run-Serves [] h = Ensures-ok h ended
  run-Serves ((w, e) ∷ es) h =
      Ensures-bind _ (step-Wrote j w h e)
        λ g c. Ensures-imp (run j es g) (run-Serves es g) λ g' r. then_served (Writes-Served c) r

  -- The server keeps what the boxes promise: whatever connects, leaves, is read and written, and
  -- whatever the driver fails, a run that does not panic changes the boxes that the tables stand for only as
  -- the commands may: it opens boxes, puts new messages behind those of their box that are as old, the box being there unless
  -- foreign keys go unchecked, and discards what the command at hand acknowledges. No message moves past another.
  pub run_refines :
      (es : List (World × Event)) (h g : Hub)
      → run j es h ≡ ok g
      → Serves
          (map (λ x. ((x.0).faults checking_keys, event_acks x.1)) es)
          (view h.store)
          (view g.store)
  run_refines es h g e = (run-Serves es h).returns g e

-- What a replay lists is the mail of the box.
pub undelivered-view :
    (f : Faults) (qid : Bytes) (s : Store)
    → f listing ≡ false
    → undelivered f qid s ≡ some ((view s).mail qid)
unfolding undelivered
undelivered-view f qid s h = rw h
