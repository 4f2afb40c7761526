-- ===== src/Tests/Lasting.antt =====
-- A run of the theorem on runs that cannot panic: connection 8 reads the queue to which 7 writes.
use knock.Prelude.{ℕ, ◌≡◌, refl, sym, ◌∙◌, false, List, [], ◌∷◌, Bytes, codes, eq_bytes, arith}
use knock.Prelude.Int.{eq_int}
use knock.Protocol.Envelope.{
  Envelope, Parsed, type_sub, type_send, type_ack, decoded, accepted, parse,
}
use knock.Server.Run.{ok}
use knock.Server.Hub.State.{Hub, World, new_hub, update}
use knock.Server.Hub.Handle.{message_id}
use knock.Server.Hub.Handle.Serving.{IsProper}
use knock.Server.Hub.Loop.{Event, connects, leaves, frame, writes, run}
use knock.Server.Hub.Loop.Lasting.{Proper, run_returns}
use knock.Tests.{json, noon, queue_a, hello_row, tables, command}

abbrev reader : Bytes → ℕ
reader q = 8

abbrev sub_a : Envelope
sub_a = command type_sub queue_a (codes "message0")

abbrev send_a : Envelope
send_a = command type_send queue_a (codes "message9")

abbrev ack_a : Envelope
ack_a = command type_ack queue_a hello_row.mid

abbrev shared_day : List (World × Event)
shared_day =
    (noon, connects 7)
    ∷ (noon, connects 8)
    ∷ (noon, frame 8 (decoded sub_a))
    ∷ (noon, frame 7 (decoded send_a))
    ∷ (noon, writes 8)
    ∷ (noon, frame 8 (decoded ack_a))
    ∷ (noon, leaves 8)
    ∷ (noon, frame 7 (decoded send_a))
    ∷ (noon, leaves 7)
    ∷ []

accepted-injective : (a b : Envelope) → ◌≡◌ {A = Parsed} (accepted a) (accepted b) → a ≡ b
accepted-injective a b e = cc

only :
    (c : ℕ) (e : Envelope)
    → parse (decoded e) ≡ accepted e
    → IsProper reader noon c e
    → (env : Envelope) → parse (decoded e) ≡ accepted env
    → IsProper reader noon c env
only c e p i env q = rw (sym (accepted-injective e env (sym p ∙ q))) i

sub-IsProper : IsProper reader noon 8 sub_a
sub-IsProper = record {
  reads = λ e. refl;
  sends = λ e. cc;
  acks_queue = λ e. omega arith;
  acks_message = λ e. omega arith;
  random = λ b e. cc;
}

send-IsProper : IsProper reader noon 7 send_a
unfolding message_id eq_bytes
send-IsProper = record {
  reads = λ e. cc;
  sends = λ e. omega arith;
  acks_queue = λ e. omega arith;
  acks_message = λ e. omega arith;
  random = λ b e. cc;
}

ack-IsProper : IsProper reader noon 8 ack_a
ack-IsProper = record {
  reads = λ e. cc;
  sends = λ e. cc;
  acks_queue = λ e. omega arith;
  acks_message = λ e. omega arith;
  random = λ b e. cc;
}

parses_sub : parse (decoded sub_a) ≡ accepted sub_a
unfolding parse eq_int eq_bytes
parses_sub = refl

parses_send : parse (decoded send_a) ≡ accepted send_a
unfolding parse eq_int eq_bytes
parses_send = refl

parses_ack : parse (decoded ack_a) ≡ accepted ack_a
unfolding parse eq_int eq_bytes
parses_ack = refl

proper : Proper reader (λ _. false) shared_day
unfolding update
proper = (
  refl,
  only 8 sub_a parses_sub sub-IsProper,
  (
    refl,
    only 7 send_a parses_send send-IsProper,
    (
      refl,
      only 8 ack_a parses_ack ack-IsProper,
      (refl, only 7 send_a parses_send send-IsProper, tt),
    ),
  ),
)

run_returns_example : (g : Hub) × (run json shared_day (new_hub tables) ≡ ok g)
run_returns_example = run_returns json reader tables shared_day proper
