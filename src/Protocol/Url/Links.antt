-- ===== src/Protocol/Url/Links.antt =====
-- net/url: a link with a host, a port, a path and a query of plain bytes is read as it was written.
use mathlib.Core.List
use knock.Prelude.{
  ℕ, ◌≡◌, refl, sym, ap, Bool, true, false, not, ◌||◌, some, [], ◌∷◌, ◌++◌, Bytes, codes, eq_bytes,
  ◌==◌, ==_iff, any, All, All-append, All-imp, Bool-cases, inl, inr, arith,
}
use knock.Prelude.Cuts.{Lacks, last_cut, cut-append, cut_whole, last_cut-append, last_cut-none}
use knock.Prelude.Decimal.{is_digit}
use knock.Protocol.Escapes.{host_part, path_part, is_unreserved}
use knock.Protocol.Escapes.Plain.{
  escape-plain, unescape-plain, copies-host, copies-path, should_escape-host, should_escape-path,
}
use knock.Protocol.Url.{
  Url, scheme, get_scheme, colon_port, valid_port, parse_host, authority_host, parse_path,
  parse_schemed, parse_url, host_and_port, bare, split_host, show_url, is_control,
}

-- Bytes that are never escaped.
abbrev pub IsWord : Bytes → Type 0
IsWord = All (λ c. is_unreserved c ≡ true)

-- Such bytes and one more.
abbrev pub IsWords : ℕ → Bytes → Type 0
IsWords m = All (λ c. (is_unreserved c || c == m) ≡ true)

-- The bytes of a query that is not escaped.
abbrev pub is_query : ℕ → Bool
is_query c = is_unreserved c || (c == b'&' || c == b'=')

abbrev is_link : ℕ → Bool
is_link c = is_query c || (c == b':' || (c == b'/' || c == b'?'))

-- What is not in a class is not in a text of the class.
pub class-Lacks :
    (p : ℕ → Bool) (d : ℕ) (s : Bytes) → p d ≡ false → All (λ c. p c ≡ true) s → Lacks d s
class-Lacks p d s n = All-imp apart s
  where
    apart : (c : ℕ) → p c ≡ true → (c == d) ≡ false
    apart c h = elim (Bool-cases (c == d)) [
      | inl same ↦ let e : c ≡ d = (==_iff c d).0 same in absurd (cc (h, e, n))
      | inr other ↦ other
    ]

pub any-none : (p : ℕ → Bool) (s : Bytes) → All (λ c. p c ≡ false) s → any p s ≡ false
any-none p [] h = refl
any-none p (c ∷ s) h = rw (h.0, any-none p s h.1)

pub digits-IsWord : (s : Bytes) → All (λ c. is_digit c ≡ true) s → IsWord s
digits-IsWord = All-imp (λ c h. ground arith)

digits-valid_port : (s : Bytes) → All (λ c. is_digit c ≡ true) s → valid_port (b':' ∷ s) ≡ true
unfolding valid_port
digits-valid_port s h =
    rw (any-none (λ d. not (is_digit d)) s (All-imp (λ (c : ℕ) (e : is_digit c ≡ true). rw e) s h))

pub word-Words : (m : ℕ) (s : Bytes) → IsWord s → IsWords m s
word-Words m = All-imp (λ c h. rw h)

parse_host-plain :
    (h : Bytes) → IsWords b':' h → colon_port (last_cut b':' h) ≡ true → parse_host h ≡ some h
unfolding parse_host
parse_host-plain [] w p = refl
parse_host-plain (c ∷ s) w p =
    let open_ : (c == b'[') ≡ false = ground (arith, w.0) in
    rw (open_, p) (unescape-plain host_part (c ∷ s) (All-imp copies-host (c ∷ s) w))

bare-word : (s : Bytes) → IsWord s → bare s ≡ s
unfolding bare
bare-word [] w = refl
bare-word (c ∷ s) w = let open_ : (c == b'[') ≡ false = ground (arith, w.0) in rw open_

-- The port of a host is found behind its colon.
pub split_host-append :
    (host port : Bytes)
    → IsWord host
    → All (λ c. is_digit c ≡ true) port
    → split_host (host ++ b':' ∷ port) ≡ (host, port)
unfolding split_host host_and_port
split_host-append host port w d = rw (
  last_cut-append b':' host port (class-Lacks is_digit b':' port refl d),
  digits-valid_port port d,
  bare-word host w,
)

module _ (host port p q : Bytes) where
  abbrev pub site : Bytes
  site = host ++ b':' ∷ port

  -- The text behind the scheme, and the whole link.
  abbrev body : Bytes
  body = (b'/' ∷ b'/' ∷ (site ++ b'/' ∷ p)) ++ b'?' ∷ q

  abbrev link : Bytes
  link = codes "knock:" ++ body

  abbrev pub parts : Url
  parts = record { scheme = codes "knock"; host = site; path = b'/' ∷ p; raw_query = q }

  module _ (w : IsWord host) (d : All (λ c. is_digit c ≡ true) port) (u : IsWords b'/' p)
      (v : All (λ c. is_query c ≡ true) q) where
    site-Words : IsWords b':' site
    site-Words =
        All-append _ host (b':' ∷ port) (word-Words b':' host w)
          (refl, word-Words b':' port (digits-IsWord port d))

    show_url-link : show_url parts ≡ link
    unfolding show_url
    show_url-link =
        rw
          (
            escape-plain host_part site (All-imp should_escape-host site site-Words),
            escape-plain path_part (b'/' ∷ p) (All-imp should_escape-path (b'/' ∷ p) (refl, u)),
          )
          (ap (λ (s : Bytes). codes "knock://" ++ s)
            (sym (mathlib.Core.List.append_assoc site (b'/' ∷ p) (b'?' ∷ q))))

    link-links : All (λ c. is_link c ≡ true) link
    link-links =
        All-append _ (codes "knock:") body (refl, (refl, (refl, (refl, (refl, (refl, tt))))))
          (All-append _ (b'/' ∷ b'/' ∷ (site ++ b'/' ∷ p)) (b'?' ∷ q)
            (
              refl,
              (
                refl,
                All-append _ site (b'/' ∷ p) (All-imp (λ c h. ground (arith, h)) site site-Words)
                    (refl, All-imp (λ c h. ground (arith, h)) p u),
              ),
            )
            (refl, All-imp (λ c h. ground (arith, h)) q v))

    quiet : any is_control link ≡ false
    quiet = any-none is_control link (All-imp (λ c h. ground (arith, h)) link link-links)

    port-colon : colon_port (last_cut b':' site) ≡ true
    unfolding colon_port
    port-colon =
        rw (last_cut-append b':' host port (class-Lacks is_digit b':' port refl d))
          (digits-valid_port port d)

    parse_path-body : parse_path (codes "knock") q (b'/' ∷ b'/' ∷ (site ++ b'/' ∷ p)) ≡ some parts
    unfolding parse_path authority_host eq_bytes
    parse_path-body = rw (
      cut-append b'/' site p
          (class-Lacks (λ c. is_unreserved c || c == b':') b'/' site refl site-Words),
      last_cut-none b'@' site
          (class-Lacks (λ c. is_unreserved c || c == b':') b'@' site refl site-Words),
      parse_host-plain site site-Words port-colon,
      unescape-plain path_part (b'/' ∷ p) (All-imp copies-path (b'/' ∷ p) (refl, u)),
    )

    front-Lacks : Lacks b'?' (b'/' ∷ b'/' ∷ (site ++ b'/' ∷ p))
    front-Lacks = (
      refl,
      (
        refl,
        All-append _ site (b'/' ∷ p)
            (class-Lacks (λ c. is_unreserved c || c == b':') b'?' site refl site-Words)
            (refl, class-Lacks (λ c. is_unreserved c || c == b'/') b'?' p refl u),
      ),
    )

    get_scheme-link : get_scheme link ≡ scheme (codes "knock") body
    unfolding get_scheme
    get_scheme-link = refl

    parse_schemed-link : parse_schemed link (get_scheme link) ≡ some parts
    unfolding parse_schemed
    parse_schemed-link =
        rw (get_scheme-link, cut-append b'?' (b'/' ∷ b'/' ∷ (site ++ b'/' ∷ p)) q front-Lacks)
          parse_path-body

    not_star : eq_bytes link (codes "*") ≡ false
    unfolding eq_bytes
    not_star = refl

    -- Such a link is read as it was written.
    pub parse_url-show_url : parse_url (show_url parts) ≡ some parts
    unfolding parse_url
    parse_url-show_url =
        rw
          (
            show_url-link,
            cut_whole b'#' link (class-Lacks is_link b'#' link refl link-links),
            quiet,
            not_star,
          )
          parse_schemed-link
