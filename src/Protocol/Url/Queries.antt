-- ===== src/Protocol/Url/Queries.antt =====
-- net/url: the settings of a query of plain bytes.
use knock.Prelude.{
  ℕ, ◌≡◌, refl, ◌∙◌, true, false, ◌||◌, some, [], ◌∷◌, ◌++◌, Bytes, eq_bytes, ◌==◌, All-imp, arith,
}
use knock.Prelude.Cuts.{Lacks, cut-append, split, split-append, split_whole}
use knock.Protocol.Escapes.{query_part, is_unreserved}
use knock.Protocol.Escapes.Plain.{unescape-plain, copies-query}
use knock.Protocol.Url.{both, pair_of, setting, first_value, query_get}
use knock.Protocol.Url.Links.{IsWord, IsWords, word-Words, class-Lacks, any-none}

-- The text of one setting with a name of one byte.
abbrev pair_text : ℕ → Bytes → Bytes
pair_text k v = k ∷ b'=' ∷ v

module _ (k : ℕ) (v : Bytes) (h : is_unreserved k ≡ true) (w : IsWord v) where
  pair_text-Words : IsWords b'=' (pair_text k v)
  pair_text-Words = (rw h, (ground arith, word-Words b'=' v w))

  setting-pair : setting (pair_text k v) ≡ some (k ∷ [], v)
  unfolding setting pair_of both eq_bytes
  setting-pair = rw (
    any-none (λ d. d == b';') (pair_text k v)
        (class-Lacks (λ c. is_unreserved c || c == b'=') b';' (pair_text k v) refl pair_text-Words),
    cut-append b'=' (k ∷ []) v (class-Lacks is_unreserved b'=' (k ∷ []) refl (h, tt)),
    unescape-plain query_part (k ∷ []) (copies-query k h, tt),
    unescape-plain query_part v (All-imp copies-query v w),
  )

  pair_text-Lacks : Lacks b'&' (pair_text k v)
  pair_text-Lacks =
      class-Lacks (λ c. is_unreserved c || c == b'=') b'&' (pair_text k v) refl pair_text-Words

-- Two settings with names of one byte are each found under its name.
module _ (a b : ℕ) (x y : Bytes) (ha : is_unreserved a ≡ true) (hb : is_unreserved b ≡ true)
    (wx : IsWord x) (wy : IsWord y) where
  split-pairs :
      split b'&' (pair_text a x ++ b'&' ∷ pair_text b y) ≡ pair_text a x ∷ pair_text b y ∷ []
  split-pairs =
      split-append b'&' (pair_text a x) (pair_text b y) (pair_text-Lacks a x ha wx)
      ∙ rw (split_whole b'&' (pair_text b y) (pair_text-Lacks b y hb wy))

  pub query_get-first : query_get (a ∷ []) (pair_text a x ++ b'&' ∷ pair_text b y) ≡ x
  unfolding query_get first_value eq_bytes
  query_get-first = rw (split-pairs, setting-pair a x ha wx, first_value) (ground arith)

  pub query_get-second :
      (a == b) ≡ false → query_get (b ∷ []) (pair_text a x ++ b'&' ∷ pair_text b y) ≡ y
  unfolding query_get first_value eq_bytes
  query_get-second n =
      rw (split-pairs, setting-pair a x ha wx, setting-pair b y hb wy, first_value) (ground arith)
