-- ===== src/Server/Hub/Handle/Acks.antt =====
-- server/hub.go: what an ACK does when it does not panic.
use knock.Prelude.{
  ℕ, ◌≤◌, ◌≡◌, refl, Bool, false, not, List, [], ◌∷◌, Bytes, eq_bytes, length, select,
  any-select_self, arith, Bool-cases, inl, inr, ap,
}
use knock.Protocol.Envelope.{Envelope, Json, type_ack}
use knock.Server.Store.{MessageRow, deleting, delete_message, has_mid}
use knock.Server.Run.{ok, short_log}
use knock.Server.Hub.State.{Hub, World}
use knock.Server.Hub.Handle.{handle_ack, handle}

select_idem : (p : MessageRow → Bool) (xs : List MessageRow) → select p (select p xs) ≡ select p xs
select_idem p [] = refl
select_idem p (x ∷ xs) = elim (Bool-cases (p x)) [
  | inl keep ↦ rw (keep, keep) (ap (λ (ys : List MessageRow). x ∷ ys) (select_idem p xs))
  | inr drop ↦ rw drop (select_idem p xs)
]

-- The rows with another mid.
abbrev pub others : Bytes → Hub → List MessageRow
others mid h = select (λ m. not (eq_bytes m.mid mid)) h.store.messages

-- The hub without the rows of a mid.
abbrev acked : Bytes → Hub → Hub
acked mid h = record h { store = record h.store { messages = others mid h } }

handle_ack-acked :
    (w : World) (env : Envelope) (h : Hub)
    → 8 ≤ length env.queue_id
    → 8 ≤ length env.msg_id
    → w.faults deleting ≡ false
    → handle_ack w env h ≡ ok (acked env.msg_id h)
unfolding handle_ack short_log delete_message
handle_ack-acked w env h long_q long_m calm = ground arith

-- An ACK whose queue id and mid have the eight bytes of the log line returns, if the driver does not
-- fail the DELETE, whoever sends it and whatever queue it names: no row has its mid any more, the
-- other rows are as they were, and so are the queues, the connections and the channels.
pub ack_accepted :
    (j : Json) (w : World) (from : ℕ) (env : Envelope) (h : Hub)
    → env.msg_type ≡ type_ack
    → 8 ≤ length env.queue_id
    → 8 ≤ length env.msg_id
    → w.faults deleting ≡ false
    → (g : Hub) × (handle j w from env h ≡ ok g)
      × (has_mid env.msg_id g.store.messages ≡ false)
      × (others env.msg_id g ≡ others env.msg_id h)
      × (g.store.queues ≡ h.store.queues)
      × (g.queues ≡ h.queues)
      × (g.clients ≡ h.clients)
      × (g.chans ≡ h.chans)
ack_accepted j w from env h t long_q long_m calm = (
  acked env.msg_id h,
  (unfold handle eq_bytes in rw t (handle_ack-acked w env h long_q long_m calm)),
  any-select_self (λ m. eq_bytes m.mid env.msg_id) h.store.messages,
  select_idem (λ m. not (eq_bytes m.mid env.msg_id)) h.store.messages,
  refl,
  refl,
  refl,
  refl,
)
