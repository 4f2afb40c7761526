-- ===== src/Tests/Vectors.antt =====
-- Runs of the theorem on crypto/genvectors/main.go.
use knock.Prelude.{
  codes, eq_bytes, length, if◌then◌else◌, arith, ◌≡◌, refl, true, false, some, Bytes,
}
use knock.Crypto.{Primitives, zeros, fingerprint, derive_key, encrypt, decrypt, sign}
use knock.Crypto.Vectors.{
  seed_a, seed_b, fixed_nonce, plaintext, fixed_aad, del_message, document, vectors,
}
use knock.Crypto.Vectors.Agree.{vectors_lem}
use knock.Tests.Invites.{some_bytes}
use knock.Tests.Keys.{primitives}

-- The curve of one point: every public half and every secret are the same bytes. The keys of the two
-- directions differ.
abbrev half : Bytes
half = some_bytes 32

abbrev key_of_info : Bytes → Bytes
key_of_info info = if eq_bytes info (codes "knock-m3-v1:a2b") then some_bytes 32 else zeros 32

length-key_of_info : (info : Bytes) → length (key_of_info info) ≡ 32
length-key_of_info info = ground arith

abbrev two_keys : Primitives
two_keys = record primitives {
  hkdf = λ secret info. key_of_info info;
  length-hkdf = λ secret info. length-key_of_info info;
}

vectors_lem_example :
    (vectors two_keys (λ b. b)
      ≡ some (
          document two_keys
            (λ b. b)
            half
            half
            half
            (zeros 32)
            plaintext
            (some_bytes 64)
            del_message
            (fingerprint two_keys half)))
    × (derive_key two_keys seed_a half true ≡ some half)
    × (derive_key two_keys seed_b half true ≡ some half)
    × (derive_key two_keys seed_a half false ≡ some (zeros 32))
    × (derive_key two_keys seed_b half false ≡ some (zeros 32))
    × (encrypt two_keys (some fixed_nonce) half plaintext fixed_aad ≡ some (plaintext, fixed_nonce))
    × (decrypt two_keys half plaintext fixed_aad fixed_nonce ≡ some plaintext)
vectors_lem_example =
    unfold sign eq_bytes in vectors_lem two_keys (λ b. b) half half half refl refl refl
