-- ===== src/Protocol/Id.antt =====
-- protocol/envelope.go: NewID and ValidQueueID, over encoding/hex.
pub mod Valid
use knock.Prelude.{
  ℕ, ◌+◌, ◌-◌, ◌*◌, ◌/◌, ◌%◌, ◌<◌, ◌≡◌, refl, Bool, true, false, ◌&&◌, ◌||◌, Option, none, some,
  List, [], ◌∷◌, Bytes, ltb, leb, ◌==◌, if◌then◌else◌, length,
}

-- hex.EncodeToString: two lower-case digits for each byte.
unfoldable pub hex_digit : ℕ → ℕ
hex_digit d = if ltb d 10 then b'0' + d else b'a' + (d - 10)

unfoldable pub encode_hex : Bytes → Bytes
unfolding hex_digit
encode_hex [] = []
encode_hex (b ∷ bs) = hex_digit (b / 16) ∷ hex_digit (b % 16) ∷ encode_hex bs

-- hex.DecodeString takes digits of either case, and an even number of them.
unfoldable pub hex_value : ℕ → Option ℕ
hex_value c =
    if leb b'0' c && leb c b'9'
    then some (c - b'0')
    else if leb b'a' c && leb c b'f'
    then some (c - b'a' + 10)
    else if leb b'A' c && leb c b'F'
    then some (c - b'A' + 10)
    else none

byte_of : Option ℕ → Option ℕ → Option Bytes → Option Bytes
byte_of (some hi) (some lo) (some rest) = some ((hi * 16 + lo) ∷ rest)
byte_of _ _ _ = none

unfoldable pub decode_hex : Bytes → Option Bytes
unfolding byte_of hex_value
decode_hex [] = some []
decode_hex (c ∷ []) = none
decode_hex (c ∷ d ∷ s) = byte_of (hex_value c) (hex_value d) (decode_hex s)

abbrev pub is_some : Option Bytes → Bool
is_some none = false
is_some (some _) = true

-- `random` is what crypto/rand delivers: 16 bytes, or none on an error.
unfoldable pub new_id : Option Bytes → Option Bytes
new_id none = none
new_id (some b) = some (encode_hex b)

unfoldable pub valid_queue_id : Bytes → Bool
valid_queue_id qid = if length qid == 32 then is_some (decode_hex qid) else false
