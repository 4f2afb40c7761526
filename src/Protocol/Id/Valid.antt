-- ===== src/Protocol/Id/Valid.antt =====
-- protocol/envelope.go: which queue ids are valid, and that the server's own ids are.
use knock.Prelude.{
  ℕ, ◌+◌, ◌/◌, ◌%◌, ◌≤◌, ◌<◌, ◌≡◌, refl, ◌↔◌, ◌⊎◌, Bool, true, false, ◌&&◌, ◌-◌, Option, none, some,
  [], ◌∷◌, Bytes, length, All, arith,
}
use knock.Protocol.Id.{
  hex_digit, encode_hex, hex_value, byte_of, decode_hex, is_some, new_id, valid_queue_id,
}

abbrev is_value : Option ℕ → Bool
is_value none = false
is_value (some _) = true

abbrev pub IsByte : ℕ → Type 0
IsByte b = b < 256

abbrev pub IsHexDigit : ℕ → Type 0
IsHexDigit c = ((b'0' ≤ c) × (c ≤ b'9')) ⊎ (((b'a' ≤ c) × (c ≤ b'f')) ⊎ ((b'A' ≤ c) × (c ≤ b'F')))

hex_value-hex_digit : (d : ℕ) → d < 16 → hex_value (hex_digit d) ≡ some d
unfolding hex_value hex_digit
hex_value-hex_digit d h = ground arith

-- Decoding undoes encoding.
pub decode_hex-encode_hex : (b : Bytes) → All IsByte b → decode_hex (encode_hex b) ≡ some b
unfolding decode_hex encode_hex
decode_hex-encode_hex [] h = refl
decode_hex-encode_hex (x ∷ xs) (hx, hxs) = ground (
  arith,
  hex_value-hex_digit (x / 16),
  hex_value-hex_digit (x % 16),
  decode_hex-encode_hex xs hxs,
)

pub length-encode_hex : (b : Bytes) → length (encode_hex b) ≡ length b + length b
unfolding encode_hex
length-encode_hex [] = refl
length-encode_hex (x ∷ xs) = omega (arith, length-encode_hex xs)

hex_value_sound : (c : ℕ) → is_value (hex_value c) ≡ true → IsHexDigit c
unfolding hex_value
hex_value_sound c h = ground arith

hex_value_complete : (c : ℕ) → IsHexDigit c → is_value (hex_value c) ≡ true
unfolding hex_value
hex_value_complete c h = ground arith

is_some-byte_of :
    (a b : Option ℕ) (r : Option Bytes)
    → is_some (byte_of a b r) ≡ (is_value a && (is_value b && is_some r))
unfolding byte_of
is_some-byte_of none b r = refl
is_some-byte_of (some x) none r = refl
is_some-byte_of (some x) (some y) none = refl
is_some-byte_of (some x) (some y) (some r) = refl

decode_sound : (s : Bytes) → is_some (decode_hex s) ≡ true → All IsHexDigit s
unfolding decode_hex
decode_sound [] h = tt
decode_sound (c ∷ []) h = cc
decode_sound (c ∷ d ∷ s) h = ground (
  arith,
  is_some-byte_of (hex_value c) (hex_value d) (decode_hex s),
  hex_value_sound c,
  hex_value_sound d,
  decode_sound s,
)

decode_complete :
    (s : Bytes) (n : ℕ) → length s ≡ n + n → All IsHexDigit s → is_some (decode_hex s) ≡ true
unfolding decode_hex
decode_complete [] n e h = refl
decode_complete (c ∷ []) n e h = absurd (omega arith)
decode_complete (c ∷ d ∷ s) n e (hc, (hd, hs)) = ground (
  arith,
  is_some-byte_of (hex_value c) (hex_value d) (decode_hex s),
  hex_value_complete c hc,
  hex_value_complete d hd,
  decode_complete s (n - 1) (omega arith) hs,
)

-- A queue id is valid exactly when it has 32 characters and each is a hexadecimal digit, of either
-- case.
pub valid_queue_id_iff :
    (s : Bytes) → (valid_queue_id s ≡ true) ↔ ((length s ≡ 32) × All IsHexDigit s)
unfolding valid_queue_id
valid_queue_id_iff s = (forth, back)
  where
    forth : valid_queue_id s ≡ true → (length s ≡ 32) × All IsHexDigit s
    forth h = (ground arith, decode_sound s (ground arith))

    back : (length s ≡ 32) × All IsHexDigit s → valid_queue_id s ≡ true
    back (e, hs) = ground (arith, decode_complete s 16 (omega arith) hs)

-- From any 16 random bytes the server makes an id that is valid and that decodes to those bytes.
pub new_id-valid_queue_id :
    (b : Bytes)
    → length b ≡ 16
    → All IsByte b
    → (q : Bytes) × (new_id (some b) ≡ some q) × (valid_queue_id q ≡ true) × (decode_hex q ≡ some b)
unfolding new_id valid_queue_id
new_id-valid_queue_id b e h =
    (encode_hex b, refl, ground (arith, length-encode_hex b, decode), decode)
  where
    decode : decode_hex (encode_hex b) ≡ some b
    decode = decode_hex-encode_hex b h
