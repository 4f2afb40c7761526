-- ===== src/Tests/Joins.antt =====
-- A run of the theorem on `knock new` and `knock chat`.
use mathlib.Core.Option
use knock.Prelude.{
  ℕ, ◌≡◌, ◌≢◌, refl, none, Option, some, List, [], ◌∷◌, Bytes, codes, eq_bytes, lookup, arith, ◌==◌,
  ==_iff, if◌then◌else◌,
}
use knock.Prelude.Int.{eq_int}
use knock.Prelude.Decimal.{atoi}
use knock.Protocol.Envelope.{
  Envelope, type_new_ok, decoded, parse, marshal, new_envelope, struct_text,
}
use knock.Protocol.Id.{encode_hex, hex_digit}
use knock.Prelude.Int.{show_nat}
use knock.Protocol.Url.{show_url}
use knock.Protocol.Escapes.{escape}
use knock.Protocol.Base64.{encode_64}
use knock.Protocol.Invite.{show_invite, invite_checksum}
use knock.Server.Channel.{encode}
use knock.Crypto.{fp_hex}
use knock.Client.State.{Contact}
use knock.Client.Address.{parse_addr, build_ws_url}
use knock.Client.Request.{no_file, Desk, answer, await, taken, pick, request, written, dial}
use knock.Client.Dialogue.{my_invite, run_new}
use knock.Client.Dialogue.Queues.{state}
use knock.Client.Program.{printed, chats, Flags, program}
use knock.Client.Program.Joining.{new_then_chat}
use knock.Tests.{queue_b, command}
use knock.Tests.Invites.{some_bytes, hash-IsHash, host_IsWord}
use knock.Tests.Starts.{outside}
use knock.Tests.Pairs.{bob, bob_desk, ann_tail, valid_b, met}

-- Any argument with a dash is a bad flag.
abbrev no_flags : List Bytes → Option Flags
no_flags [] = some (record { server = []; queue = []; rest = [] })
no_flags ([] ∷ rest) = some (record { server = []; queue = []; rest = [] ∷ rest })
no_flags ((x ∷ xs) ∷ rest) =
    if x == b'-' then none else some (record { server = []; queue = []; rest = (x ∷ xs) ∷ rest })

dashless :
    (x : ℕ) (xs : Bytes) (rest : List Bytes)
    → x ≢ b'-'
    → no_flags ((x ∷ xs) ∷ rest) ≡ some (record { server = []; queue = []; rest = (x ∷ xs) ∷ rest })
dashless x xs rest h = ground (arith, ==_iff x b'-', h)

abbrev new_ok : Envelope
new_ok = record (command type_new_ok queue_b []) { payload = some queue_b }

abbrev new_desk : Desk
new_desk = record { incoming = decoded new_ok ∷ []; sent = []; file = no_file; lines = [] }

abbrev rest_of_address : Bytes
rest_of_address = codes "hat.example:8080"

answered_new : await type_new_ok new_desk.incoming ≡ (answer new_ok, [])
unfolding await taken pick parse eq_int eq_bytes
answered_new = refl

address_parses : parse_addr (b'c' ∷ rest_of_address) ≡ (codes "chat.example", 8080)
unfolding parse_addr atoi eq_bytes
address_parses = refl

abbrev asked : Desk
asked =
    (program outside no_flags (codes "knock" ∷ codes "new" ∷ (b'c' ∷ rest_of_address) ∷ [])
      new_desk).1

prints :
    program outside no_flags (codes "knock" ∷ codes "new" ∷ (b'c' ∷ rest_of_address) ∷ []) new_desk
    ≡ (printed (b'k' ∷ ann_tail), asked)
unfolding program Option.bind run_new dial request written encode new_envelope marshal struct_text
    await taken pick parse eq_int eq_bytes my_invite parse_addr atoi show_invite show_url encode_64
    escape invite_checksum encode_hex hex_digit show_nat
prints = refl

joins_in :
    program bob no_flags (codes "knock" ∷ codes "chat" ∷ (b'k' ∷ ann_tail) ∷ []) bob_desk
    ≡ (chats met.0, met.1)
unfolding program eq_bytes
joins_in = rw met.2

new_then_chat_example :
    (met.0.dialled
      ≡ build_ws_url
          (parse_addr (b'c' ∷ rest_of_address)).0
          (parse_addr (b'c' ∷ rest_of_address)).1)
    × (met.0.inbox ≡ queue_b)
    × (k : Contact) × (lookup (fp_hex bob.primitives (some_bytes 32)) (state met.1).contacts
        ≡ some k)
    × (k.invite_url ≡ b'k' ∷ ann_tail)
new_then_chat_example =
    new_then_chat outside bob no_flags no_flags hash-IsHash refl dashless (codes "knock")
      (codes "knock") b'c' rest_of_address (b'k' ∷ ann_tail) new_desk asked bob_desk met.1 met.0
      new_ok [] (rw address_parses host_IsWord) (rw address_parses (omega arith))
      (rw address_parses (omega arith)) (hash-IsHash.bytes []) refl answered_new valid_b prints
      joins_in
