-- ===== src/Protocol/Base64.antt =====
-- base64.RawURLEncoding, which protocol/invite.go uses for the public key.
pub mod RoundTrip
use knock.Prelude.{
  ℕ, ◌+◌, ◌-◌, ◌*◌, ◌/◌, ◌%◌, ◌<◌, ◌≡◌, refl, Bool, true, false, not, ◌&&◌, ◌||◌, Option, none,
  some, List, [], ◌∷◌, Bytes, ltb, leb, ◌==◌, if◌then◌else◌, length, select, All, All-imp, arith,
}
use knock.Protocol.Id.Valid.{IsByte}

unfoldable pub digit_64 : ℕ → ℕ
digit_64 d =
    if ltb d 26
    then b'A' + d
    else if ltb d 52
    then b'a' + (d - 26)
    else if ltb d 62
    then b'0' + (d - 52)
    else if d == 62
    then b'-'
    else b'_'

-- EncodeToString: four digits for three bytes, and two or three for what is left.
unfoldable pub encode_64 : Bytes → Bytes
unfolding digit_64
encode_64 [] = []
encode_64 (a ∷ []) = digit_64 (a / 4) ∷ digit_64 (a % 4 * 16) ∷ []
encode_64 (a ∷ b ∷ []) =
    digit_64 (a / 4) ∷ digit_64 (a % 4 * 16 + b / 16) ∷ digit_64 (b % 16 * 4) ∷ []
encode_64 (a ∷ b ∷ c ∷ s) =
    digit_64 (a / 4)
    ∷ digit_64 (a % 4 * 16 + b / 16)
    ∷ digit_64 (b % 16 * 4 + c / 64)
    ∷ digit_64 (c % 64)
    ∷ encode_64 s

unfoldable pub value_64 : ℕ → Option ℕ
value_64 c =
    if leb b'A' c && leb c b'Z'
    then some (c - b'A')
    else if leb b'a' c && leb c b'z'
    then some (c - b'a' + 26)
    else if leb b'0' c && leb c b'9'
    then some (c - b'0' + 52)
    else if c == b'-'
    then some 62
    else if c == b'_'
    then some 63
    else none

-- The first byte of the digits a and b, the second one of b and c, the third one of c and d.
one_byte : Option ℕ → Option ℕ → Option Bytes
one_byte (some a) (some b) = some ((a * 4 + b / 16) ∷ [])
one_byte _ _ = none

two_bytes : Option ℕ → Option ℕ → Option ℕ → Option Bytes
two_bytes (some a) (some b) (some c) = some ((a * 4 + b / 16) ∷ (b % 16 * 16 + c / 4) ∷ [])
two_bytes _ _ _ = none

three_bytes : Option ℕ → Option ℕ → Option ℕ → Option ℕ → Option Bytes → Option Bytes
three_bytes (some a) (some b) (some c) (some d) (some s) =
    some ((a * 4 + b / 16) ∷ (b % 16 * 16 + c / 4) ∷ (c % 4 * 64 + d) ∷ s)
three_bytes _ _ _ _ _ = none

-- Bits behind the last byte are ignored, as the decoder is not strict; a single digit is an error.
quanta : Bytes → Option Bytes
unfolding one_byte two_bytes three_bytes value_64
quanta [] = some []
quanta (a ∷ []) = none
quanta (a ∷ b ∷ []) = one_byte (value_64 a) (value_64 b)
quanta (a ∷ b ∷ c ∷ []) = two_bytes (value_64 a) (value_64 b) (value_64 c)
quanta (a ∷ b ∷ c ∷ d ∷ s) =
    three_bytes (value_64 a) (value_64 b) (value_64 c) (value_64 d) (quanta s)

abbrev is_text : ℕ → Bool
is_text c = not (c == 10 || c == 13)

-- DecodeString skips the ends of lines.
unfoldable pub decode_64 : Bytes → Option Bytes
unfolding quanta
decode_64 s = quanta (select is_text s)
