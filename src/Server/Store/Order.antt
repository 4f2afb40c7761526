-- ===== src/Server/Store/Order.antt =====
-- ORDER BY ts, rowid: a stable sort of rows that stand in the order of their rowid.
pub mod Arrival
use knock.Prelude.{
  ℕ, ◌≤◌, ◌≡◌, refl, List, [], ◌∷◌, arith, leb, ◌==◌, Bool-cases, if◌then◌else◌, All, All-imp, inl,
  inr, select,
}

module _ {ℓ} {A : Type ℓ} (key : A → ℕ) where
  place : A → List A → List A
  place a [] = a ∷ []
  place a (x ∷ xs) = if leb (key a) (key x) then a ∷ x ∷ xs else x ∷ place a xs

  unfoldable pub order_by_ts : List A → List A
  unfolding place
  order_by_ts [] = []
  order_by_ts (x ∷ xs) = place x (order_by_ts xs)

  -- Each element's key is at most the keys behind it.
  abbrev pub IsOrdered : List A → Type 0
  IsOrdered [] = Unit
  IsOrdered (x ∷ xs) = All (λ y. key x ≤ key y) xs × IsOrdered xs

  All-place :
      (n : ℕ) (a : A) (xs : List A)
      → n ≤ key a
      → All (λ y. n ≤ key y) xs
      → All (λ y. n ≤ key y) (place a xs)
  unfolding place
  All-place n a [] h hs = (h, tt)
  All-place n a (x ∷ xs) h hs = elim (Bool-cases (leb (key a) (key x))) [
    | inl le ↦ rw le (h, hs)
    | inr gt ↦ rw gt (hs.0, All-place n a xs h hs.1)
  ]

  place-IsOrdered : (a : A) (xs : List A) → IsOrdered xs → IsOrdered (place a xs)
  unfolding place
  place-IsOrdered a [] o = (tt, tt)
  place-IsOrdered a (x ∷ xs) o = elim (Bool-cases (leb (key a) (key x))) [
    | inl le ↦ rw le ((ground arith, All-imp (λ y h. ground arith) xs o.0), o)
    | inr gt ↦ rw gt (All-place (key x) a xs (ground arith) o.0, place-IsOrdered a xs o.1)
  ]

  pub order_by_ts-IsOrdered : (xs : List A) → IsOrdered (order_by_ts xs)
  unfolding order_by_ts
  order_by_ts-IsOrdered [] = tt
  order_by_ts-IsOrdered (x ∷ xs) = place-IsOrdered x (order_by_ts xs) (order_by_ts-IsOrdered xs)

  select-place :
      (t : ℕ) (a : A) (xs : List A)
      → select (λ y. key y == t) (place a xs) ≡ select (λ y. key y == t) (a ∷ xs)
  unfolding place
  select-place t a [] = refl
  select-place t a (x ∷ xs) = ground (arith, select-place t a xs)

  -- The sort moves no row past another with the same key, and loses and adds none.
  pub select-order_by_ts :
      (t : ℕ) (xs : List A)
      → select (λ y. key y == t) (order_by_ts xs) ≡ select (λ y. key y == t) xs
  unfolding order_by_ts
  select-order_by_ts t [] = refl
  select-order_by_ts t (x ∷ xs) =
      ground (arith, select-place t x (order_by_ts xs), select-order_by_ts t xs)
