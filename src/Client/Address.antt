-- ===== src/Client/Address.antt =====
-- client/session.go: server addresses, queue ids and contact numbers as the user writes them, over
-- strconv.Atoi and net.SplitHostPort.
pub mod Index
use knock.Prelude.{
  ℕ, zero, suc, ◌+◌, ◌-◌, ◌*◌, ◌^◌, ◌≡◌, Bool, true, false, not, ◌&&◌, ◌||◌, Option, none, some,
  List, [], ◌∷◌, ◌++◌, Bytes, codes, eq_bytes, ltb, leb, ◌==◌, if◌then◌else◌, length, any, take,
  drop,
}
use knock.Prelude.Decimal.{is_digit, atoi}
use knock.Prelude.Int.{ℤ, pos, negsuc, show_nat}

-- The text before and behind the last colon.
last_colon : Bytes → Option (Bytes × Bytes)
last_colon [] = none
last_colon (c ∷ s) = elim (last_colon s) [
  | some (before, behind) ↦ some (c ∷ before, behind)
  | none ↦ if c == b':' then some ([], s) else none
]

-- The text before and behind the first closing bracket.
first_bracket : Bytes → Option (Bytes × Bytes)
first_bracket [] = none
first_bracket (c ∷ s) =
    let later = first_bracket s in
    if c == b']'
    then some ([], s)
    else elim later [ none ↦ none | some (before, behind) ↦ some (c ∷ before, behind) ]

abbrev contains : ℕ → Bytes → Bool
contains c = any (λ d. d == c)

-- The rest behind a bracketed host: a colon, and a port with no colon or bracket.
bracketed : Option (Bytes × Bytes) → Option (Bytes × Bytes)
bracketed none = none
bracketed (some (host, [])) = none
bracketed (some (host, c ∷ port)) =
    if c == b':'
      && not (contains b':' port || contains b'[' port || contains b']' port)
      && not (contains b'[' host)
    then some (host, port)
    else none

plain : Option (Bytes × Bytes) → Option (Bytes × Bytes)
plain none = none
plain (some (host, port)) =
    if contains b':' host
      || contains b'[' host
      || contains b']' host
      || contains b'[' port
      || contains b']' port
    then none
    else some (host, port)

-- net.SplitHostPort
unfoldable pub split_host_port : Bytes → Option (Bytes × Bytes)
unfolding last_colon first_bracket bracketed plain
split_host_port [] = none
split_host_port (c ∷ s) =
    if c == b'[' then bracketed (first_bracket s) else plain (last_colon (c ∷ s))

pub in_range : Option ℤ → ℕ
in_range none = 0
in_range (some (negsuc n)) = 0
in_range (some (pos n)) = if ltb n 1 || ltb 65535 n then 0 else n

address : Bytes → Option (Bytes × Bytes) → Bytes × ℕ
address addr none = (addr, 0)
address addr (some (host, port)) = (host, in_range (atoi port))

unfoldable pub parse_addr : Bytes → Bytes × ℕ
unfolding address in_range atoi split_host_port
parse_addr addr = address addr (split_host_port addr)

unfoldable pub build_ws_url : Bytes → ℕ → Bytes
build_ws_url host port =
    if port == 0 || port == 443
    then codes "wss://" ++ (host ++ codes "/ws")
    else codes "ws://" ++ (host ++ (codes ":" ++ (show_nat port ++ codes "/ws")))

is_lower_hex : ℕ → Bool
is_lower_hex c = is_digit c || (leb b'a' c && leb c b'f')

-- validQID, with true for the nil error
unfoldable pub valid_qid : Bytes → Bool
unfolding is_lower_hex
valid_qid q = if length q == 32 then not (any (λ c. not (is_lower_hex c)) q) else false

selects : ℕ → Option ℤ → Bool
selects n none = false
selects n (some (negsuc v)) = false
selects n (some (pos v)) = leb 1 v && leb v n

unfoldable pub is_index : Bytes → ℕ → Bool
unfolding selects
is_index input n =
    if n == 0 || eq_bytes input []
    then false
    else if any (λ c. not (is_digit c)) input
    then false
    else selects n (atoi input)

before : Option ℤ → ℤ
before none = negsuc 0
before (some (pos zero)) = negsuc 0
before (some (pos (suc v))) = pos v
before (some (negsuc v)) = negsuc (suc v)

-- The index is v - 1, and -1 where Atoi fails.
unfoldable pub to_index : Bytes → ℤ
unfolding before
to_index input = before (atoi input)
