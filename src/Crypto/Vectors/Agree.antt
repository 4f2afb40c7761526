-- ===== src/Crypto/Vectors/Agree.antt =====
-- crypto/genvectors/main.go: the vectors are what crypto/crypto.go computes.
use knock.Prelude.{
  ℕ, ◌+◌, ◌<◌, ◌≡◌, refl, sym, ap, ◌∙◌, true, false, some, [], ◌∷◌, Bytes, codes, take, arith,
}
use knock.Protocol.Id.{encode_hex}
use knock.Crypto.{
  Primitives, to_upper, spaced_rest, spaced, fingerprint, derived, derive_key, sealed_with, encrypt,
  decrypt, sign, verify,
}
use knock.Crypto.Vectors.{
  seed_a, seed_b, sign_seed_a, fixed_nonce, plaintext, fixed_aad, del_message, pairs_from,
  raw_fingerprint, raw_derive_key, raw_seal, document, vectors,
}

pairs_from-spaced_rest : (i : ℕ) (s : Bytes) → 0 < i → pairs_from i s ≡ spaced_rest s
unfolding pairs_from spaced_rest
pairs_from-spaced_rest i [] h = refl
pairs_from-spaced_rest i (a ∷ []) h = ground arith
pairs_from-spaced_rest i (a ∷ b ∷ s) h =
    ground (arith, pairs_from-spaced_rest (i + 2) s (omega arith))

pairs_from-spaced : (s : Bytes) → pairs_from 0 s ≡ spaced s
unfolding pairs_from spaced
pairs_from-spaced [] = refl
pairs_from-spaced (a ∷ []) = refl
pairs_from-spaced (a ∷ b ∷ s) =
    ap (λ (t : Bytes). to_upper a ∷ to_upper b ∷ t) (pairs_from-spaced_rest 2 s (omega arith))

module _ (p : Primitives) where
  -- The program's own copies are the functions of the package.
  pub raw_fingerprint-fingerprint :
      (box_pub : Bytes) → raw_fingerprint p box_pub ≡ fingerprint p box_pub
  unfolding raw_fingerprint fingerprint
  raw_fingerprint-fingerprint box_pub = pairs_from-spaced (encode_hex (take 8 (p.sha256 box_pub)))

  module _ (b64 : Bytes → Bytes) (pub_a pub_b shared : Bytes)
      (x_a : p.x25519 seed_a p.base ≡ some pub_a) (x_b : p.x25519 seed_b p.base ≡ some pub_b)
      (x_s : p.x25519 seed_a pub_b ≡ some shared) where
    abbrev key_ab : Bytes
    key_ab = p.hkdf shared (codes "knock-m3-v1:a2b")

    abbrev key_ba : Bytes
    key_ba = p.hkdf shared (codes "knock-m3-v1:b2a")

    abbrev ciphertext : Bytes
    ciphertext = p.seal key_ab fixed_nonce plaintext fixed_aad

    x_s' : p.x25519 seed_b pub_a ≡ some shared
    x_s' = sym (p.agreement seed_a seed_b pub_a pub_b x_a x_b) ∙ x_s

    -- The vectors hold what the package computes: the two keys are those that DeriveKey gives
    -- either side for the directions, the ciphertext is that of Encrypt with the fixed nonce and Decrypt gives
    -- the text back, the signature is that of Sign, and the fingerprint is that of
    -- Fingerprint, if the curve gives the two seeds public halves and a secret.
    pub vectors_lem :
        (vectors p b64
          ≡ some (
              document p b64 pub_a pub_b key_ab key_ba ciphertext
                (p.key_of_seed sign_seed_a)
                (sign p (p.key_of_seed sign_seed_a) del_message)
                (fingerprint p pub_b)))
        × (derive_key p seed_a pub_b true ≡ some key_ab)
        × (derive_key p seed_b pub_a true ≡ some key_ab)
        × (derive_key p seed_a pub_b false ≡ some key_ba)
        × (derive_key p seed_b pub_a false ≡ some key_ba)
        × (encrypt p (some fixed_nonce) key_ab plaintext fixed_aad ≡ some (ciphertext, fixed_nonce))
        × (decrypt p key_ab ciphertext fixed_aad fixed_nonce ≡ some plaintext)
    unfolding vectors raw_derive_key raw_seal derive_key derived encrypt sealed_with decrypt sign
        verify
    vectors_lem = (
      rw (
        x_a,
        x_b,
        x_s,
        x_s',
        p.length-hkdf shared (codes "knock-m3-v1:a2b"),
        p.length-hkdf shared (codes "knock-m3-v1:b2a"),
        raw_fingerprint-fingerprint pub_b,
      ),
      rw x_s,
      rw x_s',
      rw x_s,
      rw x_s',
      rw (p.length-hkdf shared (codes "knock-m3-v1:a2b")),
      rw (p.length-hkdf shared (codes "knock-m3-v1:a2b")) (
          p.open_seal-seal key_ab fixed_nonce plaintext fixed_aad
            (p.length-hkdf shared (codes "knock-m3-v1:a2b")) refl),
    )
