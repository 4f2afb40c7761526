-- ===== src/Client/Address/Index.antt =====
-- client/session.go: what the tests on the user's input guarantee.
use Prim.Native.Nat.{zero}
use knock.Prelude.{
  ℕ, suc, ◌≤◌, ◌<◌, ◌≡◌, refl, ◌↔◌, ◌⊎◌, true, false, not, Option, none, some, [], ◌∷◌, Bytes, any,
  All, arith, Option-cases, inl, inr,
}
use knock.Prelude.Int.{ℤ, pos, negsuc}
use knock.Protocol.Id.{valid_queue_id}
use knock.Protocol.Id.Valid.{valid_queue_id_iff, IsHexDigit}
use knock.Client.Address.{
  atoi, selects, is_index, before, to_index, is_lower_hex, valid_qid, parse_addr, address, in_range,
  split_host_port,
}

selects-before :
    (n : ℕ) (o : Option ℤ) → selects n o ≡ true → (i : ℕ) × (before o ≡ pos i) × (i < n)
unfolding selects before
selects-before n none h = cc
selects-before n (some (negsuc v)) h = cc
selects-before n (some (pos zero)) h = absurd (ground arith)
selects-before n (some (pos (suc v))) h = (v, refl, ground arith)

is_index-selects : (input : Bytes) (n : ℕ) → is_index input n ≡ true → selects n (atoi input) ≡ true
unfolding is_index
is_index-selects input n h = ground arith

-- An input that passes for a number of the list is in the range of the slice: the index that is made
-- of it is neither negative nor past the end.
pub to_index-lt :
    (input : Bytes) (n : ℕ) → is_index input n ≡ true → (i : ℕ) × (to_index input ≡ pos i) × (i < n)
unfolding to_index
to_index-lt input n h = selects-before n (atoi input) (is_index-selects input n h)

in_range-le : (o : Option ℤ) → in_range o ≤ 65535
unfolding in_range
in_range-le none = omega arith
in_range-le (some (negsuc n)) = omega arith
in_range-le (some (pos n)) = ground arith

address-le : (addr : Bytes) (o : Option (Bytes × Bytes)) → (address addr o).1 ≤ 65535
unfolding address
address-le addr none = omega arith
address-le addr (some (host, port)) = in_range-le (atoi port)

-- Whatever the address, its port is at most 65535. Where the address has a host and a port, the host
-- is this one and the port its number, or 0 if it is none from 1 to 65535; otherwise the host is the
-- whole text and the port is 0.
pub parse_addr_lem :
    (addr : Bytes)
    → ((parse_addr addr).1 ≤ 65535)
      × ((parse_addr addr ≡ (addr, 0))
          ⊎ ((b : Bytes × Bytes) × (split_host_port addr ≡ some b)
              × (parse_addr addr ≡ (b.0, in_range (atoi b.1)))))
unfolding parse_addr address
parse_addr_lem addr = (
  address-le addr (split_host_port addr),
  elim (Option-cases (split_host_port addr)) [
    | inl bare ↦ inl (rw (bare, address) refl)
    | inr (b, both) ↦ inr (b, both, rw (both, address) refl)
  ],
)

abbrev pub IsLowerHex : ℕ → Type 0
IsLowerHex c = ((b'0' ≤ c) × (c ≤ b'9')) ⊎ ((b'a' ≤ c) × (c ≤ b'f'))

IsLowerHex-sound : (s : Bytes) → any (λ c. not (is_lower_hex c)) s ≡ false → All IsLowerHex s
unfolding is_lower_hex
IsLowerHex-sound [] h = tt
IsLowerHex-sound (c ∷ s) h = (ground arith, IsLowerHex-sound s (ground arith))

IsLowerHex-complete : (s : Bytes) → All IsLowerHex s → any (λ c. not (is_lower_hex c)) s ≡ false
unfolding is_lower_hex
IsLowerHex-complete [] h = refl
IsLowerHex-complete (c ∷ s) h = ground (arith, IsLowerHex-complete s h.1)

IsLowerHex-IsHexDigit : (s : Bytes) → All IsLowerHex s → All IsHexDigit s
IsLowerHex-IsHexDigit [] h = tt
IsLowerHex-IsHexDigit (c ∷ s) h = (ground arith, IsLowerHex-IsHexDigit s h.1)

-- The client takes exactly the queue ids of the server that have no upper-case digit.
pub valid_qid_iff :
    (q : Bytes) → (valid_qid q ≡ true) ↔ ((valid_queue_id q ≡ true) × All IsLowerHex q)
unfolding valid_qid
valid_qid_iff q = (forth, back)
  where
    forth : valid_qid q ≡ true → (valid_queue_id q ≡ true) × All IsLowerHex q
    forth h =
        let lower : All IsLowerHex q = IsLowerHex-sound q (ground arith) in
        ((valid_queue_id_iff q).1 (ground arith, IsLowerHex-IsHexDigit q lower), lower)

    back : (valid_queue_id q ≡ true) × All IsLowerHex q → valid_qid q ≡ true
    back (v, lower) = ground (arith, IsLowerHex-complete q lower, ((valid_queue_id_iff q).0 v).0)
