-- ===== src/Prelude/Int.antt =====
-- Go's signed integers, where the program only compares or prints them.
use Prim.Native.Nat.{ℕ, zero, suc, ◌+◌, ◌/◌, ◌%◌}
use mathlib.Core.Bool.{Bool, false}
use mathlib.Core.List.{[], ◌∷◌}
use knock.Prelude.Tests.{◌==◌, ltb, if◌then◌else◌}
use knock.Prelude.Strings.{Bytes}

-- `negsuc n` is -(n + 1).
pub data ℤ : Type 0 where
  pos : ℕ → ℤ
  negsuc : ℕ → ℤ

unfoldable pub eq_int : ℤ → ℤ → Bool
eq_int (pos a) (pos b) = a == b
eq_int (negsuc a) (negsuc b) = a == b
eq_int _ _ = false

-- The decimal digits of `n` in front of `out`; the fuel is the number of digits at most.
unfoldable pub digits : ℕ → ℕ → Bytes → Bytes
digits zero n out = out
digits (suc f) n out =
    let more = digits f (n / 10) ((b'0' + n % 10) ∷ out) in
    if ltb n 10 then (b'0' + n) ∷ out else more

-- `%d` on a number that is not negative; a number has no more digits than its own value, or one.
unfoldable pub show_nat : ℕ → Bytes
unfolding digits
show_nat n = digits (suc n) n []

-- `%d` on an int.
unfoldable pub show_int : ℤ → Bytes
show_int (pos n) = show_nat n
show_int (negsuc n) = b'-' ∷ show_nat (suc n)
