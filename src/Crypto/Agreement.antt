-- ===== src/Crypto/Agreement.antt =====
-- crypto/crypto.go: both sides have the same keys, and an identity outlives its file.
use knock.Prelude.{
  ◌≡◌, refl, sym, ap, ◌∙◌, Bool, Option, none, some, Bytes, eq_bytes, length, lookup, arith,
}
use mathlib.Core.Option.{some-injective}
use knock.Crypto.{
  Primitives, Identity, with_box_pub, signed, generate_identity, save, sized, sign_half, box_half,
  of_map, load_identity, derived, derive_key, sealed_with, encrypt, decrypt,
}

module _ (p : Primitives) where
  -- An identity whose public halves belong to its private ones, of the lengths of their keys.
  pub record IsOwnIdentity (id : Identity) : Type 0 where
    pub box : p.x25519 id.box_priv p.base ≡ some id.box_pub
    pub sign : p.sign_public id.sign_priv ≡ id.sign_pub
    pub box_long : length id.box_priv ≡ 32
    pub sign_long : length id.sign_priv ≡ 64

  signed-IsOwnIdentity :
      (bp sp : Bytes) (id : Identity) (r : Option Bytes)
      → p.x25519 bp p.base ≡ r
      → length bp ≡ 32
      → length sp ≡ 64
      → signed p bp r (some sp) ≡ some id
      → IsOwnIdentity id
  unfolding signed with_box_pub
  signed-IsOwnIdentity bp sp id none x long_b long_s e = ground (arith, e)
  signed-IsOwnIdentity bp sp id (some pub_key) x long_b long_s e =
      rw (sym (some-injective _ _ e))
        (record { box = x; sign = refl; box_long = long_b; sign_long = long_s })

  -- What GenerateIdentity makes of 32 random bytes and a key of GenerateKey is such an identity.
  pub generate_identity-IsOwnIdentity :
      (bp sp : Bytes) (id : Identity)
      → length bp ≡ 32
      → length sp ≡ 64
      → generate_identity p (some bp) (some sp) ≡ some id
      → IsOwnIdentity id
  unfolding generate_identity
  generate_identity-IsOwnIdentity bp sp id long_b long_s =
      signed-IsOwnIdentity bp sp id (p.x25519 bp p.base) refl long_b long_s

  -- An identity that is saved and loaded again is the same identity.
  pub load_identity-save :
      (id : Identity) → IsOwnIdentity id → load_identity p (save p id) ≡ some id
  unfolding load_identity save lookup eq_bytes of_map sized sign_half box_half with_box_pub
  load_identity-save id o = rw (p.decode_map-encode_map, o.sign_long, o.box_long, o.box, o.sign)

  derived-long :
      (info key : Bytes) (r : Option Bytes) → derived p info r ≡ some key → length key ≡ 32
  unfolding derived
  derived-long info key none e = ground (arith, e)
  derived-long info key (some secret) e =
      rw (sym (some-injective _ _ e)) (p.length-hkdf secret info)

  derive_key-long :
      (my_priv peer_pub : Bytes) (a_to_b : Bool) (key : Bytes)
      → derive_key p my_priv peer_pub a_to_b ≡ some key
      → length key ≡ 32
  unfolding derive_key
  derive_key-long my_priv peer_pub a_to_b key e = derived-long _ key (p.x25519 my_priv peer_pub) e

  module _ (a b : Identity) (oa : IsOwnIdentity a) (ob : IsOwnIdentity b) where
    -- The two sides derive the same key for a direction.
    pub derive_key-agreement :
        (a_to_b : Bool)
        → derive_key p a.box_priv b.box_pub a_to_b ≡ derive_key p b.box_priv a.box_pub a_to_b
    unfolding derive_key
    derive_key-agreement a_to_b =
        ap (derived p _) (p.agreement a.box_priv b.box_priv a.box_pub b.box_pub oa.box ob.box)

    -- What one side encrypts with the key of a direction, the other decrypts with its own key of that
    -- direction, if the curve gives them a secret and the nonce has the 24 bytes of its type.
    pub decrypt-encrypt :
        (a_to_b : Bool) (key text aad nonce : Bytes)
        → derive_key p a.box_priv b.box_pub a_to_b ≡ some key
        → length nonce ≡ 24
        → (ciphertext : Bytes) × (key' : Bytes) × (encrypt p (some nonce) key text aad
            ≡ some (ciphertext, nonce))
          × (derive_key p b.box_priv a.box_pub a_to_b ≡ some key')
          × (decrypt p key' ciphertext aad nonce ≡ some text)
    unfolding encrypt decrypt sealed_with
    decrypt-encrypt a_to_b key text aad nonce e long = (
      p.seal key nonce text aad,
      key,
      rw (derive_key-long a.box_priv b.box_pub a_to_b key e),
      sym (derive_key-agreement a_to_b) ∙ e,
      rw (derive_key-long a.box_priv b.box_pub a_to_b key e) (
          p.open_seal-seal key nonce text aad (derive_key-long a.box_priv b.box_pub a_to_b key e)
            long),
    )
