-- ===== src/Protocol/Base64/RoundTrip.antt =====
-- base64.RawURLEncoding: decoding undoes encoding.
use knock.Prelude.{
  ℕ, ◌+◌, ◌*◌, ◌/◌, ◌%◌, ◌<◌, ◌≡◌, refl, Bool, true, ◌&&◌, ◌||◌, some, [], ◌∷◌, Bytes, leb, ◌==◌,
  select, All, arith, ap, ◌∙◌,
}
use knock.Protocol.Id.Valid.{IsByte}
use knock.Protocol.Base64.{digit_64, encode_64, value_64, quanta, is_text, decode_64}

-- The digits of the encoding.
abbrev pub is_digit_64 : ℕ → Bool
is_digit_64 c =
    (leb b'A' c && leb c b'Z')
    || ((leb b'a' c && leb c b'z') || ((leb b'0' c && leb c b'9') || (c == b'-' || c == b'_')))

value_64-digit_64 : (d : ℕ) → d < 64 → value_64 (digit_64 d) ≡ some d
unfolding value_64 digit_64
value_64-digit_64 d h = ground arith

is_digit_64-digit_64 : (d : ℕ) → d < 64 → is_digit_64 (digit_64 d) ≡ true
unfolding digit_64
is_digit_64-digit_64 d h = ground arith

bytes-eq : {a b a' b' : ℕ} → a ≡ a' → b ≡ b' → (s : Bytes) → some (a ∷ b ∷ s) ≡ some (a' ∷ b' ∷ s)
bytes-eq e f s = cc

third-eq : (a b : ℕ) (s : Bytes) {c c' : ℕ} → c ≡ c' → some (a ∷ b ∷ c ∷ s) ≡ some (a ∷ b ∷ c' ∷ s)
third-eq a b s e = cc

quanta-encode_64 : (b : Bytes) → All IsByte b → quanta (encode_64 b) ≡ some b
unfolding quanta encode_64
quanta-encode_64 [] h = refl
quanta-encode_64 (a ∷ []) (ha, _) =
    rw (value_64-digit_64 (a / 4) (omega arith), value_64-digit_64 (a % 4 * 16) (omega arith))
      (ap (λ (x : ℕ). some (x ∷ [])) (omega arith))
quanta-encode_64 (a ∷ b ∷ []) (ha, (hb, _)) =
    rw
      (
        value_64-digit_64 (a / 4) (omega arith),
        value_64-digit_64 (a % 4 * 16 + b / 16) (omega arith),
        value_64-digit_64 (b % 16 * 4) (omega arith),
      )
      (bytes-eq (omega arith) (omega arith) [])
quanta-encode_64 (a ∷ b ∷ c ∷ s) (ha, (hb, (hc, hs))) =
    rw
      (
        value_64-digit_64 (a / 4) (omega arith),
        value_64-digit_64 (a % 4 * 16 + b / 16) (omega arith),
        value_64-digit_64 (b % 16 * 4 + c / 64) (omega arith),
        value_64-digit_64 (c % 64) (omega arith),
        quanta-encode_64 s hs,
      )
      (bytes-eq (omega arith) (omega arith) _ ∙ third-eq a b s (omega arith))

pub encode_64-digits : (b : Bytes) → All IsByte b → All (λ c. is_digit_64 c ≡ true) (encode_64 b)
unfolding encode_64
encode_64-digits [] h = tt
encode_64-digits (a ∷ []) (ha, _) = (
  is_digit_64-digit_64 (a / 4) (omega arith),
  (is_digit_64-digit_64 (a % 4 * 16) (omega arith), tt),
)
encode_64-digits (a ∷ b ∷ []) (ha, (hb, _)) = (
  is_digit_64-digit_64 (a / 4) (omega arith),
  (
    is_digit_64-digit_64 (a % 4 * 16 + b / 16) (omega arith),
    (is_digit_64-digit_64 (b % 16 * 4) (omega arith), tt),
  ),
)
encode_64-digits (a ∷ b ∷ c ∷ s) (ha, (hb, (hc, hs))) = (
  is_digit_64-digit_64 (a / 4) (omega arith),
  (
    is_digit_64-digit_64 (a % 4 * 16 + b / 16) (omega arith),
    (
      is_digit_64-digit_64 (b % 16 * 4 + c / 64) (omega arith),
      (is_digit_64-digit_64 (c % 64) (omega arith), encode_64-digits s hs),
    ),
  ),
)

select_all : (s : Bytes) → All (λ c. is_digit_64 c ≡ true) s → select is_text s ≡ s
select_all [] h = refl
select_all (c ∷ s) h =
    let kept : is_text c ≡ true = ground (arith, h.0) in rw (kept, select_all s h.1)

-- Decoding undoes encoding.
pub decode_64-encode_64 : (b : Bytes) → All IsByte b → decode_64 (encode_64 b) ≡ some b
unfolding decode_64
decode_64-encode_64 b h =
    rw (select_all (encode_64 b) (encode_64-digits b h)) (quanta-encode_64 b h)
