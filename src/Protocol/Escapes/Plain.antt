-- ===== src/Protocol/Escapes/Plain.antt =====
-- net/url: a text of plain bytes is its own escape.
use knock.Prelude.{
  ℕ, ◌≡◌, refl, Bool, true, false, not, ◌&&◌, ◌||◌, Option, some, [], ◌∷◌, Bytes, ltb, ◌==◌, All,
  arith,
}
use knock.Protocol.Escapes.{
  Part, host_part, path_part, query_part, is_unreserved, should_escape, escape, onto, plain_byte,
  unescape,
}

pub escape-plain : (p : Part) (s : Bytes) → All (λ c. should_escape p c ≡ false) s → escape p s ≡ s
unfolding escape
escape-plain p [] h = refl
escape-plain p (c ∷ s) h = rw (h.0, escape-plain p s h.1)

-- A byte that unescape copies.
abbrev pub copies : Part → ℕ → Bool
copies host_part c = not (ltb c 128 && should_escape host_part c) && not (c == b'%')
copies path_part c = not (c == b'%')
copies query_part c = not (c == b'%' || c == b'+')

plain_byte-copies :
    (p : Part) (c : ℕ) (o : Option Bytes) → copies p c ≡ true → plain_byte p c o ≡ onto c o
unfolding plain_byte
plain_byte-copies host_part c o h = ground arith
plain_byte-copies path_part c o h = refl
plain_byte-copies query_part c o h = ground arith

copies-percent : (p : Part) (c : ℕ) → copies p c ≡ true → (c == b'%') ≡ false
copies-percent host_part c h = ground arith
copies-percent path_part c h = ground arith
copies-percent query_part c h = ground arith

pub unescape-plain : (p : Part) (s : Bytes) → All (λ c. copies p c ≡ true) s → unescape p s ≡ some s
unfolding unescape onto
unescape-plain p [] h = refl
unescape-plain p (c ∷ []) h = rw (copies-percent p c h.0, plain_byte-copies p c (some []) h.0)
unescape-plain p (c ∷ a ∷ []) h = rw (
  copies-percent p c h.0,
  plain_byte-copies p c (unescape p (a ∷ [])) h.0,
  unescape-plain p (a ∷ []) h.1,
)
unescape-plain p (c ∷ a ∷ b ∷ s) h = rw (
  copies-percent p c h.0,
  plain_byte-copies p c (unescape p (a ∷ b ∷ s)) h.0,
  unescape-plain p (a ∷ b ∷ s) h.1,
)

-- The bytes of a host with a port, of a path, and of a query's values.
pub copies-host : (c : ℕ) → (is_unreserved c || c == b':') ≡ true → copies host_part c ≡ true
unfolding should_escape
copies-host c h = ground arith

pub copies-path : (c : ℕ) → (is_unreserved c || c == b'/') ≡ true → copies path_part c ≡ true
copies-path c h = ground arith

pub copies-query : (c : ℕ) → is_unreserved c ≡ true → copies query_part c ≡ true
copies-query c h = ground arith

pub should_escape-host :
    (c : ℕ) → (is_unreserved c || c == b':') ≡ true → should_escape host_part c ≡ false
unfolding should_escape
should_escape-host c h = ground arith

pub should_escape-path :
    (c : ℕ) → (is_unreserved c || c == b'/') ≡ true → should_escape path_part c ≡ false
unfolding should_escape
should_escape-path c h = ground arith
