-- ===== src/Prelude/Cuts.antt =====
-- Strings taken apart at a byte: strings.Cut, strings.LastIndex and strings.Split.
use mathlib.Core.Path.{◌≡◌, refl}
use mathlib.Core.Bool.{Bool, true, false}
use mathlib.Core.Option.{Option, none, some}
use mathlib.Core.List.{List, [], ◌∷◌, ◌++◌}
use Prim.Native.Nat.{ℕ}
use knock.Prelude.Tests.{◌==◌, if◌then◌else◌, ==_refl}
use knock.Prelude.Lists.{All}
use knock.Prelude.Strings.{Bytes}

-- No byte of the string is `c`.
abbrev pub Lacks : ℕ → Bytes → Type 0
Lacks c = All (λ x. (x == c) ≡ false)

keep_before : ℕ → Bytes × Option Bytes → Bytes × Option Bytes
keep_before x (a, b) = (x ∷ a, b)

-- The text before the first `c`, and the text behind it where there is one.
unfoldable pub cut : ℕ → Bytes → Bytes × Option Bytes
unfolding keep_before
cut c [] = ([], none)
cut c (x ∷ s) = if x == c then ([], some s) else keep_before x (cut c s)

pub cut-append : (c : ℕ) (a b : Bytes) → Lacks c a → cut c (a ++ c ∷ b) ≡ (a, some b)
unfolding cut
cut-append c [] b h = rw (==_refl c)
cut-append c (x ∷ a) b h = rw (h.0, cut-append c a b h.1)

pub cut_whole : (c : ℕ) (a : Bytes) → Lacks c a → cut c a ≡ (a, none)
unfolding cut
cut_whole c [] h = refl
cut_whole c (x ∷ a) h = rw (h.0, cut_whole c a h.1)

later_or : ℕ → Bytes → Bool → Option (Bytes × Bytes) → Option (Bytes × Bytes)
later_or x s here (some (a, b)) = some (x ∷ a, b)
later_or x s true none = some ([], s)
later_or x s false none = none

-- The texts before and behind the last `c`.
unfoldable pub last_cut : ℕ → Bytes → Option (Bytes × Bytes)
unfolding later_or
last_cut c [] = none
last_cut c (x ∷ s) = later_or x s (x == c) (last_cut c s)

pub last_cut-none : (c : ℕ) (b : Bytes) → Lacks c b → last_cut c b ≡ none
unfolding last_cut
last_cut-none c [] h = refl
last_cut-none c (x ∷ b) h = rw (h.0, last_cut-none c b h.1)

pub last_cut-append : (c : ℕ) (a b : Bytes) → Lacks c b → last_cut c (a ++ c ∷ b) ≡ some (a, b)
unfolding last_cut
last_cut-append c [] b h = rw (==_refl c, last_cut-none c b h)
last_cut-append c (x ∷ a) b h = rw (last_cut-append c a b h)

onto_first : ℕ → List Bytes → List Bytes
onto_first x [] = (x ∷ []) ∷ []
onto_first x (s ∷ ss) = (x ∷ s) ∷ ss

unfoldable pub split : ℕ → Bytes → List Bytes
unfolding onto_first
split c [] = [] ∷ []
split c (x ∷ s) = let rest = split c s in if x == c then [] ∷ rest else onto_first x rest

pub split-append : (c : ℕ) (a b : Bytes) → Lacks c a → split c (a ++ c ∷ b) ≡ a ∷ split c b
unfolding split
split-append c [] b h = rw (==_refl c)
split-append c (x ∷ a) b h = rw (h.0, split-append c a b h.1)

pub split_whole : (c : ℕ) (a : Bytes) → Lacks c a → split c a ≡ a ∷ []
unfolding split
split_whole c [] h = refl
split_whole c (x ∷ a) h = rw (h.0, split_whole c a h.1)
