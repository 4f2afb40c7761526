-- ===== src/Tests/Invites.antt =====
-- Runs of the theorems on protocol/invite.go.
use knock.Prelude.{ℕ, zero, suc, ◌≡◌, refl, true, some, [], ◌∷◌, Bytes, codes, arith, All}
use knock.Protocol.Id.{valid_queue_id, decode_hex, hex_value, encode_hex, hex_digit}
use knock.Prelude.Int.{show_nat}
use knock.Protocol.Url.{show_url}
use knock.Protocol.Escapes.{escape}
use knock.Protocol.Url.Links.{IsWord}
use knock.Protocol.Id.Valid.{IsByte}
use knock.Protocol.Base64.{encode_64, decode_64}
use knock.Protocol.Base64.RoundTrip.{decode_64-encode_64}
use knock.Protocol.Invite.{
  Invite, ok, refused, bad_port, show_invite, parse_invite, invite_checksum,
}
use knock.Protocol.Invite.RoundTrip.{IsHash, parse_invite-show_invite, parse_invite-port_zero}
use knock.Protocol.Invite.Sound.{Carries, parse_invite_sound}
use knock.Tests.{queue_a}

-- A hash for the tests: 32 bytes that are all the same.
abbrev pub some_bytes : ℕ → Bytes
some_bytes zero = []
some_bytes (suc n) = 170 ∷ some_bytes n

abbrev pub hash : Bytes → Bytes
hash b = some_bytes 32

pub hash-IsHash : IsHash hash
hash-IsHash = record { long = λ b. refl; bytes = λ b. bytes_32 }
  where
    bytes : (n : ℕ) → All IsByte (some_bytes n)
    bytes zero = tt
    bytes (suc n) = (omega arith, bytes n)

    bytes_32 : All IsByte (some_bytes 32)
    bytes_32 = bytes 32

abbrev pub invitation : ℕ → Invite
invitation port = record {
  host = codes "chat.example";
  port = port;
  queue_id = queue_a;
  box_pub = some_bytes 32;
}

pub host_IsWord : IsWord (codes "chat.example")
host_IsWord = (
  refl,
  (refl, (refl, (refl, (refl, (refl, (refl, (refl, (refl, (refl, (refl, (refl, tt))))))))))),
)

valid_a : valid_queue_id queue_a ≡ true
unfolding valid_queue_id decode_hex hex_value
valid_a = refl

-- The link of the invitation on port 8080, behind its first letter.
abbrev pub link_tail : Bytes
link_tail =
    codes
      "nock://chat.example:8080/v2/0123456789abcdef0123456789abcdef?k=qqqqqqqqqqqqqqqqqqqqqqqqqqqqqqqqqqqqqqqqqqo&c=aaaaaaaa"

pub show_invite_text : show_invite hash (invitation 8080) ≡ b'k' ∷ link_tail
unfolding show_invite show_url encode_64 escape invite_checksum encode_hex hex_digit show_nat
show_invite_text = refl

pub parse_invite-show_invite_8080 :
    parse_invite hash (show_invite hash (invitation 8080)) ≡ ok (invitation 8080)
parse_invite-show_invite_8080 =
    parse_invite-show_invite hash hash-IsHash (invitation 8080) host_IsWord valid_a
      (hash-IsHash.bytes []) (omega arith) (omega arith) refl

parse_invite-show_invite_example :
    parse_invite hash (show_invite hash (invitation 8080)) ≡ ok (invitation 8080)
parse_invite-show_invite_example =
    parse_invite-show_invite hash hash-IsHash (invitation 8080) host_IsWord valid_a
      (hash-IsHash.bytes []) (omega arith) (omega arith) refl

parse_invite-port_zero_example :
    parse_invite hash (show_invite hash (invitation 0)) ≡ refused bad_port
parse_invite-port_zero_example =
    parse_invite-port_zero hash hash-IsHash (invitation 0) host_IsWord valid_a
      (hash-IsHash.bytes []) refl

parse_invite_sound_example : Carries hash (show_invite hash (invitation 8080)) (invitation 8080)
parse_invite_sound_example =
    parse_invite_sound hash (show_invite hash (invitation 8080)) (invitation 8080)
      parse_invite-show_invite_8080

decode_64-encode_64_example : decode_64 (encode_64 (codes "Hello")) ≡ some (codes "Hello")
decode_64-encode_64_example =
    decode_64-encode_64 (codes "Hello")
      (omega arith, (omega arith, (omega arith, (omega arith, (omega arith, tt)))))
