-- ===== src/Crypto/Fingerprints.antt =====
-- crypto/crypto.go and client/state.go: what a fingerprint without its spaces tells of the hash.
use knock.Prelude.{
  ℕ, ◌+◌, ◌/◌, ◌%◌, ◌≤◌, ◌<◌, ◌≡◌, refl, ap, ◌∙◌, Bool, true, not, some, [], ◌∷◌, map, Bytes, ◌==◌,
  length, take, select, All, length-take_full, All-take, arith,
}
use knock.Protocol.Id.{hex_digit, encode_hex, hex_value, decode_hex}
use knock.Protocol.Id.Valid.{IsByte}
use knock.Crypto.{Primitives, to_upper, spaced_rest, spaced, fingerprint, fp_hex}

-- A byte in two digits, the letters upper-case.
upper_hex : Bytes → Bytes
upper_hex s = map to_upper (encode_hex s)

is_mark : ℕ → Bool
is_mark c = not (c == b' ')

is_mark-upper : (d : ℕ) → is_mark (to_upper (hex_digit d)) ≡ true
unfolding is_mark hex_digit
is_mark-upper d = ground arith

select-spaced_rest : (s : Bytes) → select is_mark (spaced_rest (encode_hex s)) ≡ upper_hex s
unfolding spaced_rest encode_hex upper_hex is_mark
select-spaced_rest [] = refl
select-spaced_rest (b ∷ s) =
    rw (is_mark-upper (b / 16), is_mark-upper (b % 16), select-spaced_rest s)

select-spaced : (s : Bytes) → select is_mark (spaced (encode_hex s)) ≡ upper_hex s
unfolding spaced encode_hex upper_hex is_mark
select-spaced [] = refl
select-spaced (b ∷ s) = rw (is_mark-upper (b / 16), is_mark-upper (b % 16), select-spaced_rest s)

-- The key of a contact: the first eight bytes of the hash in upper-case digits.
fp_hex-upper_hex :
    (p : Primitives) (box_pub : Bytes) → fp_hex p box_pub ≡ upper_hex (take 8 (p.sha256 box_pub))
unfolding fp_hex fingerprint is_mark
fp_hex-upper_hex p box_pub = select-spaced (take 8 (p.sha256 box_pub))

hex_value-to_upper : (d : ℕ) → d < 16 → hex_value (to_upper (hex_digit d)) ≡ some d
unfolding hex_value hex_digit
hex_value-to_upper d h = ground arith

decode_hex-upper_hex : (s : Bytes) → All IsByte s → decode_hex (upper_hex s) ≡ some s
unfolding decode_hex upper_hex encode_hex
decode_hex-upper_hex [] h = refl
decode_hex-upper_hex (b ∷ s) (hb, hs) =
    ground
      (arith, hex_value-to_upper (b / 16), hex_value-to_upper (b % 16), decode_hex-upper_hex s hs)

length-upper_hex : (s : Bytes) → length (upper_hex s) ≡ length s + length s
unfolding upper_hex encode_hex
length-upper_hex [] = refl
length-upper_hex (b ∷ s) = omega (arith, length-upper_hex s)

-- A fingerprint without its spaces has 16 digits and decodes to the first eight bytes of the hash of
-- the key.
pub fp_hex-decodes :
    (p : Primitives) (box_pub : Bytes)
    → 8 ≤ length (p.sha256 box_pub)
    → All IsByte (p.sha256 box_pub)
    → (length (fp_hex p box_pub) ≡ 16)
      × (decode_hex (fp_hex p box_pub) ≡ some (take 8 (p.sha256 box_pub)))
fp_hex-decodes p box_pub long bytes =
    let digits = fp_hex-upper_hex p box_pub in
    (
      ap length digits
          ∙ omega (
            arith,
            length-upper_hex (take 8 (p.sha256 box_pub)),
            length-take_full 8 (p.sha256 box_pub) long,
          ),
      ap decode_hex digits ∙ decode_hex-upper_hex _ (All-take IsByte 8 (p.sha256 box_pub) bytes),
    )
