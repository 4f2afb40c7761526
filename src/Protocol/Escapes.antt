-- ===== src/Protocol/Escapes.antt =====
-- net/url: escape and unescape.
pub mod Plain
use knock.Prelude.{
  ℕ, ◌+◌, ◌-◌, ◌*◌, ◌/◌, ◌%◌, Bool, true, false, not, ◌&&◌, ◌||◌, Option, none, some, List, [], ◌∷◌,
  ◌++◌, Bytes, codes, ltb, leb, ◌==◌, if◌then◌else◌, any,
}
use knock.Prelude.Decimal.{is_digit}
use knock.Protocol.Id.{hex_value}

pub data Part : Type 0 where
  host_part path_part query_part : Part

abbrev pub is_lower : ℕ → Bool
is_lower c = leb b'a' c && leb c b'z'

abbrev pub is_upper : ℕ → Bool
is_upper c = leb b'A' c && leb c b'Z'

-- The bytes that no part escapes.
abbrev pub is_unreserved : ℕ → Bool
is_unreserved c =
    is_lower c
    || (is_upper c || (is_digit c || (c == b'-' || (c == b'_' || (c == b'.' || c == b'~')))))

-- "!$&'()*+,;=:[]<>" and the quotation mark
abbrev host_marks : Bytes
host_marks = 34 ∷ codes "!$&'()*+,;=:[]<>"

abbrev path_marks : Bytes
path_marks = codes "$&+,/:;=@"

abbrev pub contains : ℕ → Bytes → Bool
contains c = any (λ d. d == c)

-- shouldEscape
pub should_escape : Part → ℕ → Bool
should_escape host_part c = not (is_unreserved c || contains c host_marks)
should_escape path_part c = not (is_unreserved c || contains c path_marks)
should_escape query_part c = not (is_unreserved c)

upper_digit : ℕ → ℕ
upper_digit d = if ltb d 10 then b'0' + d else b'A' + (d - 10)

unfoldable pub escape : Part → Bytes → Bytes
unfolding should_escape upper_digit
escape p [] = []
escape p (c ∷ s) =
    let rest = escape p s in
    if should_escape p c
    then b'%' ∷ upper_digit (c / 16) ∷ upper_digit (c % 16) ∷ rest
    else c ∷ rest

-- A byte of a text that is unescaped, with what follows it.
onto : ℕ → Option Bytes → Option Bytes
onto c none = none
onto c (some s) = some (c ∷ s)

-- In a host only "%25" and bytes that are not ASCII may be escaped.
decoded_byte : Part → Option ℕ → Option ℕ → Option Bytes → Option Bytes
unfolding onto
decoded_byte host_part (some a) (some b) rest =
    if ltb a 8 && not (a == 2 && b == 5) then none else onto (a * 16 + b) rest
decoded_byte p (some a) (some b) rest = onto (a * 16 + b) rest
decoded_byte p _ _ rest = none

plain_byte : Part → ℕ → Option Bytes → Option Bytes
unfolding onto should_escape
plain_byte host_part c rest = if ltb c 128 && should_escape host_part c then none else onto c rest
plain_byte path_part c rest = onto c rest
plain_byte query_part c rest = onto (if c == b'+' then b' ' else c) rest

-- unescape, an error as none
unfoldable pub unescape : Part → Bytes → Option Bytes
unfolding decoded_byte plain_byte hex_value
unescape p [] = some []
unescape p (c ∷ []) = if c == b'%' then none else plain_byte p c (some [])
unescape p (c ∷ a ∷ []) =
    let rest = unescape p (a ∷ []) in if c == b'%' then none else plain_byte p c rest
unescape p (c ∷ a ∷ b ∷ s) =
    let far = unescape p s in
    let near = unescape p (a ∷ b ∷ s) in
    if c == b'%' then decoded_byte p (hex_value a) (hex_value b) far else plain_byte p c near
