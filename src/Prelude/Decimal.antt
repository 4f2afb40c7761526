-- ===== src/Prelude/Decimal.antt =====
-- strconv.Atoi, and that it reads what %d prints.
use Prim.Native.Nat.{ℕ, zero, suc, ◌+◌, ◌-◌, ◌*◌, ◌/◌, ◌%◌, ◌^◌, ◌<◌}
use mathlib.Core.Path.{◌≡◌, refl, ◌∙◌}
use mathlib.Core.Bool.{Bool, true, false, ◌&&◌}
use mathlib.Core.Logic.{inl, inr, ◌≢◌}
use mathlib.Core.Option.{Option, none, some}
use mathlib.Core.List.{[], ◌∷◌}
use native.Mathlib.Omega.{arith}
use knock.Prelude.Tests.{◌==◌, ltb, leb, if◌then◌else◌, Bool-cases}
use knock.Prelude.Lists.{All}
use knock.Prelude.Strings.{Bytes}
use knock.Prelude.Int.{ℤ, pos, negsuc, digits, show_nat}

abbrev pub is_digit : ℕ → Bool
is_digit c = leb b'0' c && leb c b'9'

-- The value of a row of digits behind `n`.
unfoldable pub digits_value : ℕ → Bytes → Option ℕ
digits_value n [] = some n
digits_value n (c ∷ s) =
    let rest = digits_value (n * 10 + (c - b'0')) s in if is_digit c then rest else none

-- strconv.Atoi of a text with no sign: at least one digit, and no more than an int64 holds.
unsigned : Bytes → Option ℕ
unfolding digits_value
unsigned [] = none
unsigned (c ∷ s) = elim (digits_value 0 (c ∷ s)) [
  | none ↦ none
  | some n ↦ if ltb n (2 ^ 63) then some n else none
]

negated : Option ℕ → Option ℤ
negated none = none
negated (some zero) = some (pos 0)
negated (some (suc n)) = some (negsuc n)

positive : Option ℕ → Option ℤ
positive none = none
positive (some n) = some (pos n)

-- strconv.Atoi; the one value -2^63 is left out.
unfoldable pub atoi : Bytes → Option ℤ
unfolding unsigned negated positive
atoi [] = none
atoi (c ∷ s) =
    if c == b'-'
    then negated (unsigned s)
    else if c == b'+'
    then positive (unsigned s)
    else positive (unsigned (c ∷ s))

-- Every digit that %d writes is a digit, and there is one.
digits-digits :
    (f n : ℕ) (out : Bytes)
    → n < f
    → All (λ c. is_digit c ≡ true) out
    → All (λ c. is_digit c ≡ true) (digits f n out)
unfolding digits
digits-digits zero n out h a = absurd (omega arith)
digits-digits (suc f) n out h a = elim (Bool-cases (ltb n 10)) [
  | inl small ↦ rw small (ground arith, a)
  | inr big ↦
      rw big (digits-digits f (n / 10) ((b'0' + n % 10) ∷ out) (ground arith) (ground arith, a))
]

next :
    (v d n : ℕ) (out : Bytes)
    → d < 10
    → n ≡ v * 10 + d
    → digits_value v ((b'0' + d) ∷ out) ≡ digits_value n out
unfolding digits_value
next v d n out h e =
    let digit : is_digit (b'0' + d) ≡ true = ground arith in
    let value : v * 10 + (b'0' + d - b'0') ≡ n = omega arith in rw (digit, value)

digits_value-digits :
    (f n : ℕ) (out : Bytes) → n < f → digits_value 0 (digits f n out) ≡ digits_value n out
unfolding digits
digits_value-digits zero n out h = absurd (omega arith)
digits_value-digits (suc f) n out h = elim (Bool-cases (ltb n 10)) [
  | inl small ↦ rw small (next 0 n n out (ground arith) (omega arith))
  | inr big ↦ rw big (
      digits_value-digits f (n / 10) ((b'0' + n % 10) ∷ out) (ground arith)
      ∙ next (n / 10) (n % 10) n out (omega arith) (omega arith))
]

-- What %d prints for a number is made of digits.
pub show_nat-digits : (n : ℕ) → All (λ c. is_digit c ≡ true) (show_nat n)
unfolding show_nat
show_nat-digits n = digits-digits (suc n) n [] (omega arith) tt

digits_value-show_nat : (n : ℕ) → digits_value 0 (show_nat n) ≡ some n
unfolding show_nat digits_value
digits_value-show_nat n = digits_value-digits (suc n) n [] (omega arith)

-- Atoi reads an unsigned text of digits by its value.
atoi-digits :
    (s : Bytes) (n : ℕ)
    → All (λ c. is_digit c ≡ true) s
    → s ≢ []
    → digits_value 0 s ≡ some n
    → n < 2 ^ 63
    → atoi s ≡ some (pos n)
unfolding atoi
atoi-digits [] n a ne e h = absurd (ne refl)
atoi-digits (c ∷ s) n a ne e h =
    let minus : (c == b'-') ≡ false = ground (arith, a.0) in
    let plus : (c == b'+') ≡ false = ground (arith, a.0) in
    let small : ltb n (2 ^ 63) ≡ true = ground arith in rw (minus, plus, e, positive, small)

digits-cons : (f n : ℕ) (out : Bytes) → n < f → (c : ℕ) × (s : Bytes) × (digits f n out ≡ c ∷ s)
unfolding digits
digits-cons zero n out h = absurd (omega arith)
digits-cons (suc f) n out h = elim (Bool-cases (ltb n 10)) [
  | inl small ↦ rw small (b'0' + n, out, refl)
  | inr big ↦ rw big (digits-cons f (n / 10) ((b'0' + n % 10) ∷ out) (ground arith))
]

-- What %d prints has a first byte.
pub show_nat-cons : (n : ℕ) → (c : ℕ) × (s : Bytes) × (show_nat n ≡ c ∷ s)
unfolding show_nat
show_nat-cons n = digits-cons (suc n) n [] (omega arith)

show_nat-ne-nil : (n : ℕ) → show_nat n ≢ []
show_nat-ne-nil n e = let (c, s, q) = show_nat-cons n in cc (e, q)

-- Atoi reads back what %d prints.
pub atoi-show_nat : (n : ℕ) → n < 2 ^ 63 → atoi (show_nat n) ≡ some (pos n)
atoi-show_nat n h =
    atoi-digits (show_nat n) n (show_nat-digits n) (show_nat-ne-nil n) (digits_value-show_nat n) h
