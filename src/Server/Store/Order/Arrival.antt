-- ===== src/Server/Store/Order/Arrival.antt =====
-- The order of delivery with one more row, and with fewer.
use knock.Prelude.{
  ℕ, ◌≤◌, ◌≡◌, refl, sym, ap, ◌∙◌, Bool, ◌||◌, List, [], ◌∷◌, ◌++◌, map, leb, ltb, if◌then◌else◌,
  select, any, All, All-imp, All-select, Bool-cases, inl, inr, arith,
}
use knock.Server.Store.Order.{place, order_by_ts, IsOrdered, order_by_ts-IsOrdered}

-- Behind all that is as old or older.
abbrev pub arrive : {A : Type 0} → (A → ℕ) → A → List A → List A
arrive key a [] = a ∷ []
arrive key a (x ∷ xs) =
    let later = arrive key a xs in if ltb (key a) (key x) then a ∷ x ∷ xs else x ∷ later

module _ {A : Type 0} (key : A → ℕ) where
  arrive-place :
      (a x : A) (ys : List A) → arrive key a (place key x ys) ≡ place key x (arrive key a ys)
  unfolding place
  arrive-place a x [] = ground arith
  arrive-place a x (y ∷ ys) = ground (arith, arrive-place a x ys)

  -- A row that is added last stands behind those that are as old.
  pub order_by_ts-append_last :
      (xs : List A) (a : A) → order_by_ts key (xs ++ a ∷ []) ≡ arrive key a (order_by_ts key xs)
  unfolding order_by_ts place
  order_by_ts-append_last [] a = refl
  order_by_ts-append_last (x ∷ xs) a =
      ap (place key x) (order_by_ts-append_last xs a) ∙ sym (arrive-place a x (order_by_ts key xs))

  place_front : (a : A) (xs : List A) → All (λ y. key a ≤ key y) xs → place key a xs ≡ a ∷ xs
  unfolding place
  place_front a [] h = refl
  place_front a (x ∷ xs) h = ground (arith, h.0)

  select-place :
      (p : A → Bool) (a : A) (xs : List A)
      → IsOrdered key xs
      → select p (place key a xs) ≡ (if p a then place key a (select p xs) else select p xs)
  unfolding place
  select-place p a [] o = refl
  select-place p a (x ∷ xs) o = elim (Bool-cases (leb (key a) (key x))) [
    | inl le ↦ ground (
      arith,
      le,
      place_front a (select p xs)
          (All-select _ p xs (All-imp (λ y h. ground (arith, le, h)) xs o.0)),
    )
    | inr gt ↦ ground (arith, gt, select-place p a xs o.1)
  ]

  -- The order of what a filter keeps is what it keeps of the order.
  pub order_by_ts-select :
      (p : A → Bool) (xs : List A) → order_by_ts key (select p xs) ≡ select p (order_by_ts key xs)
  unfolding order_by_ts
  order_by_ts-select p [] = refl
  order_by_ts-select p (x ∷ xs) = ground (
    arith,
    select-place p x (order_by_ts key xs) (order_by_ts-IsOrdered key xs),
    order_by_ts-select p xs,
  )

  any-place : (p : A → Bool) (a : A) (xs : List A) → any p (place key a xs) ≡ (p a || any p xs)
  unfolding place
  any-place p a [] = refl
  any-place p a (x ∷ xs) = ground (arith, any-place p a xs)

  pub any-order_by_ts : (p : A → Bool) (xs : List A) → any p (order_by_ts key xs) ≡ any p xs
  unfolding order_by_ts
  any-order_by_ts p [] = refl
  any-order_by_ts p (x ∷ xs) =
      ground (arith, any-place p x (order_by_ts key xs), any-order_by_ts p xs)

pub arrive-map :
    {A B : Type 0} (f : A → B) (k : B → ℕ) (a : A) (xs : List A)
    → map f (arrive (λ x. k (f x)) a xs) ≡ arrive k (f a) (map f xs)
arrive-map f k a [] = refl
arrive-map f k a (x ∷ xs) = ground (arith, arrive-map f k a xs)

pub select-map :
    {A B : Type 0} (f : A → B) (p : B → Bool) (xs : List A)
    → select p (map f xs) ≡ map f (select (λ x. p (f x)) xs)
select-map f p [] = refl
select-map f p (x ∷ xs) = ground (arith, select-map f p xs)

pub select_comm :
    {A : Type 0} (p q : A → Bool) (xs : List A) → select p (select q xs) ≡ select q (select p xs)
select_comm p q [] = refl
select_comm p q (x ∷ xs) = ground (arith, select_comm p q xs)
