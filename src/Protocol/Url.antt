-- ===== src/Protocol/Url.antt =====
-- net/url as protocol/invite.go uses it: Parse, Hostname, Port, Query and String. The escapes of an
-- IPv6 zone and the check that brackets hold an IPv6 address are left out.
pub mod Links
pub mod Queries
use mathlib.Core.Option
use knock.Prelude.{
  ℕ, ◌+◌, ◌-◌, ◌*◌, ◌/◌, ◌%◌, Bool, true, false, not, ◌&&◌, ◌||◌, Option, none, some, List, [], ◌∷◌,
  ◌++◌, map, Bytes, codes, eq_bytes, ltb, leb, ◌==◌, if◌then◌else◌, any, length, drop, take,
}
use knock.Prelude.Cuts.{cut, last_cut, split}
use knock.Prelude.Decimal.{is_digit}
use knock.Protocol.Id.{is_some}
use knock.Protocol.Escapes.{
  Part, host_part, path_part, query_part, is_lower, is_upper, is_unreserved, contains, escape,
  unescape,
}

-- What getScheme makes of a text: an error, no scheme, or a scheme and the rest.
pub data Schemed : Type 0 where
  bad_scheme no_scheme : Schemed
  scheme : Bytes → Bytes → Schemed

longer : ℕ → Schemed → Schemed
longer c (scheme s rest) = scheme (c ∷ s) rest
longer c other = other

-- The scheme behind its first letter.
scheme_rest : Bytes → Schemed
unfolding longer
scheme_rest [] = no_scheme
scheme_rest (c ∷ s) =
    let later = scheme_rest s in
    if is_lower c || (is_upper c || (is_digit c || (c == b'+' || (c == b'-' || c == b'.'))))
    then longer c later
    else if c == b':'
    then scheme [] s
    else no_scheme

unfoldable pub get_scheme : Bytes → Schemed
unfolding scheme_rest
get_scheme [] = no_scheme
get_scheme (c ∷ s) =
    if is_lower c || is_upper c
    then longer c (scheme_rest s)
    else if c == b':'
    then bad_scheme
    else no_scheme

to_lower : Bytes → Bytes
to_lower = map (λ c. if is_upper c then c + 32 else c)

-- validOptionalPort
valid_port : Bytes → Bool
valid_port [] = true
valid_port (c ∷ s) = c == b':' && not (any (λ d. not (is_digit d)) s)

-- The rest behind "]" of a bracketed host is a port or nothing.
bracket_port : Option (Bytes × Bytes) → Bool
unfolding valid_port
bracket_port none = false
bracket_port (some (a, b)) = valid_port b

colon_port : Option (Bytes × Bytes) → Bool
unfolding valid_port
colon_port none = true
colon_port (some (a, b)) = valid_port (b':' ∷ b)

-- parseHost
unfoldable pub parse_host : Bytes → Option Bytes
unfolding bracket_port colon_port
parse_host [] = some []
parse_host (c ∷ s) =
    if (if c == b'['
      then bracket_port (last_cut b']' (c ∷ s))
      else colon_port (last_cut b':' (c ∷ s)))
    then unescape host_part (c ∷ s)
    else none

-- The userinfo before "@" may hold escapes and these bytes.
unfoldable pub valid_userinfo : Bytes → Bool
valid_userinfo s = not (any (λ c. not (is_unreserved c || contains c (codes ":!$&'()*+,;=%@"))) s)

-- parseAuthority, whose userinfo the program does not use.
authority_host : Bytes → Option (Bytes × Bytes) → Option Bytes
authority_host whole none = parse_host whole
authority_host whole (some (user, host)) =
    if valid_userinfo user && is_some (unescape path_part user) then parse_host host else none

pub record Url : Type 0 where
  pub scheme : Bytes
  pub host : Bytes
  pub path : Bytes
  pub raw_query : Bytes

at_path : Bytes → Bytes → Bytes → Option Bytes → Option Url
at_path sc host query none = none
at_path sc host query (some path) =
    some (record { scheme = sc; host = host; path = path; raw_query = query })

-- setPath, behind an authority that is good
with_path : Bytes → Bytes → Bytes → Option Bytes → Option Url
unfolding at_path
with_path sc query rest none = none
with_path sc query rest (some host) = at_path sc host query (unescape path_part rest)

-- The path behind the authority starts at its first slash.
slashed : Option Bytes → Bytes
slashed none = []
slashed (some s) = b'/' ∷ s

with_authority : Bytes → Bytes → Bytes × Option Bytes → Option Url
unfolding with_path slashed authority_host
with_authority sc query (authority, rest) =
    with_path sc query (slashed rest) (authority_host authority (last_cut b'@' authority))

abbrev starts : ℕ → Bytes → Bool
starts c [] = false
starts c (x ∷ s) = x == c

-- The part of a URL behind its scheme and before its query.
parse_path : Bytes → Bytes → Bytes → Option Url
unfolding with_authority with_path
parse_path sc query [] = with_path sc query [] (some [])
parse_path sc query (c ∷ s) =
    if c == b'/'
    then (if starts b'/' s && (not (eq_bytes sc []) || not (starts b'/' (drop 1 s)))
        then with_authority sc query (cut b'/' (drop 1 s))
        else with_path sc query (c ∷ s) (some []))
    else if not (eq_bytes sc [])
    then with_path sc query [] (some [])
    else if contains b':' (cut b'/' (c ∷ s)).0
    then none
    else with_path sc query (c ∷ s) (some [])

parse_hier : Bytes → Bytes × Option Bytes → Option Url
unfolding parse_path
parse_hier sc (path, query) = parse_path sc (Option.get_or query []) path

parse_schemed : Bytes → Schemed → Option Url
unfolding parse_hier to_lower
parse_schemed whole bad_scheme = none
parse_schemed whole no_scheme = parse_hier [] (cut b'?' whole)
parse_schemed whole (scheme sc rest) = parse_hier (to_lower sc) (cut b'?' rest)

abbrev pub is_control : ℕ → Bool
is_control c = ltb c 32 || c == 127

parse_main : Bytes → Option Url
unfolding parse_schemed
parse_main s =
    if any is_control s
    then none
    else if eq_bytes s (codes "*")
    then some (record { scheme = []; host = []; path = s; raw_query = [] })
    else parse_schemed s (get_scheme s)

with_fragment : Option Url → Option Bytes → Option Url
with_fragment u none = u
with_fragment u (some f) = if is_some (unescape path_part f) then u else none

-- Parse
unfoldable pub parse_url : Bytes → Option Url
unfolding parse_main with_fragment
parse_url link = with_fragment (parse_main (cut b'#' link).0) (cut b'#' link).1

unbracket : Bytes → Option (Bytes × Bytes) → Bytes
unbracket host (some (a, [])) = a
unbracket host _ = host

-- The host without the brackets of an IPv6 address.
bare : Bytes → Bytes
unfolding unbracket
bare [] = []
bare (c ∷ s) = if c == b'[' then unbracket (c ∷ s) (last_cut b']' s) else c ∷ s

host_and_port : Bytes → Option (Bytes × Bytes) → Bytes × Bytes
unfolding bare valid_port
host_and_port whole none = (bare whole, [])
host_and_port whole (some (a, b)) = if valid_port (b':' ∷ b) then (bare a, b) else (bare whole, [])

-- Hostname and Port
unfoldable pub split_host : Bytes → Bytes × Bytes
unfolding host_and_port
split_host host = host_and_port host (last_cut b':' host)

both : Option Bytes → Option Bytes → Option (Bytes × Bytes)
both (some k) (some v) = some (k, v)
both _ _ = none

pair_of : Bytes × Option Bytes → Option (Bytes × Bytes)
unfolding both
pair_of (k, v) = both (unescape query_part k) (unescape query_part (Option.get_or v []))

-- A setting of a query, none where ParseQuery leaves it out.
setting : Bytes → Option (Bytes × Bytes)
unfolding pair_of
setting p = if contains b';' p || eq_bytes p [] then none else pair_of (cut b'=' p)

first_value : Bytes → List Bytes → Bytes
unfolding setting
first_value name [] = []
first_value name (p ∷ ps) =
    let later = first_value name ps in
    elim (setting p) [ none ↦ later | some (k, v) ↦ if eq_bytes k name then v else later ]

-- Query().Get
unfoldable pub query_get : Bytes → Bytes → Bytes
unfolding first_value
query_get name query = first_value name (split b'&' query)

-- String of a URL with a host, a path that starts with a slash and a query
unfoldable pub show_url : Url → Bytes
show_url u =
    u.scheme
    ++ (codes "://"
        ++ (escape host_part u.host ++ (escape path_part u.path ++ (b'?' ∷ u.raw_query))))
