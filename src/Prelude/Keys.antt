-- ===== src/Prelude/Keys.antt =====
-- Rows whose keys differ from one another.
use mathlib.Core.Path.{◌≡◌, refl}
use mathlib.Core.Bool.{Bool, true, false}
use mathlib.Core.List.{List, [], ◌∷◌, ◌++◌, map}
use native.Mathlib.Omega.{arith}
use knock.Prelude.Tests.{if◌then◌else◌}
use knock.Prelude.Lists.{any, select, any-append, any-select}
use knock.Prelude.Strings.{Bytes, eq_bytes, eq_bytes_iff}

module _ {ℓ} {A : Type ℓ} (key : A → Bytes) where
  abbrev pub has_key : Bytes → List A → Bool
  has_key k = any (λ y. eq_bytes (key y) k)

  abbrev pub Distinct : List A → Type 0
  Distinct [] = Unit
  Distinct (x ∷ xs) = (has_key (key x) xs ≡ false) × Distinct xs

  pub Distinct-append_one :
      (xs : List A) (y : A) → Distinct xs → has_key (key y) xs ≡ false → Distinct (xs ++ y ∷ [])
  Distinct-append_one [] y d h = (refl, tt)
  Distinct-append_one (x ∷ xs) y d h = (
    ground (
      arith,
      any-append (λ z. eq_bytes (key z) (key x)) xs (y ∷ []),
      eq_bytes_iff (key x) (key y),
      eq_bytes_iff (key y) (key x),
    ),
    Distinct-append_one xs y d.1 (ground arith),
  )

  pub Distinct-select : (p : A → Bool) (xs : List A) → Distinct xs → Distinct (select p xs)
  Distinct-select p [] d = tt
  Distinct-select p (x ∷ xs) d = go (p x) (Distinct-select p xs d.1)
    where
      go :
          (b : Bool)
          → Distinct (select p xs)
          → Distinct (if b then x ∷ select p xs else select p xs)
      go true r = (any-select (λ z. eq_bytes (key z) (key x)) p xs d.0, r)
      go false r = r

  pub has_key-map :
      (f : A → A)
      → ((a : A) → key (f a) ≡ key a)
      → (k : Bytes) (xs : List A) → has_key k (map f xs) ≡ has_key k xs
  has_key-map f h k [] = refl
  has_key-map f h k (x ∷ xs) = ground (arith, h x, has_key-map f h k xs)

  pub Distinct-map :
      (f : A → A)
      → ((a : A) → key (f a) ≡ key a)
      → (xs : List A) → Distinct xs
      → Distinct (map f xs)
  Distinct-map f h [] d = tt
  Distinct-map f h (x ∷ xs) d = (rw (h x, has_key-map f h (key x) xs) d.0, Distinct-map f h xs d.1)
