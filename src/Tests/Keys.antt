-- ===== src/Tests/Keys.antt =====
-- Runs of the theorems on crypto/crypto.go, with primitives for the tests.
use knock.Prelude.{
  ℕ, zero, suc, ◌≡◌, refl, sym, ◌∙◌, true, Option, some, List, [], ◌∷◌, Bytes, codes, length, take,
  arith, Map,
}
use knock.Protocol.Id.{decode_hex}
use knock.Crypto.{
  Primitives, Identity, zeros, save, load_identity, derive_key, encrypt, decrypt, fp_hex,
}
use knock.Crypto.Agreement.{IsOwnIdentity, load_identity-save, decrypt-encrypt}
use knock.Crypto.Fingerprints.{fp_hex-decodes}
use knock.Tests.Invites.{some_bytes, hash, hash-IsHash}

-- A byte string as text: 1 before each byte, 0 at the end.
abbrev text_of : Bytes → Bytes → Bytes
text_of [] rest = 0 ∷ rest
text_of (c ∷ s) rest = 1 ∷ c ∷ text_of s rest

abbrev onto_first : ℕ → List Bytes → List Bytes
onto_first c [] = []
onto_first c (s ∷ ss) = (c ∷ s) ∷ ss

abbrev strings_of : Bytes → List Bytes
strings_of [] = []
strings_of (zero ∷ s) = [] ∷ strings_of s
strings_of (suc n ∷ []) = []
strings_of (suc n ∷ c ∷ s) = onto_first c (strings_of s)

strings_of-text_of : (s rest : Bytes) → strings_of (text_of s rest) ≡ s ∷ strings_of rest
strings_of-text_of [] rest = refl
strings_of-text_of (c ∷ s) rest = rw (strings_of-text_of s rest)

abbrev text_of_map : Map Bytes → Bytes
text_of_map [] = []
text_of_map ((k, v) ∷ m) = text_of k (text_of v (text_of_map m))

abbrev pairs_of : List Bytes → Map Bytes
pairs_of [] = []
pairs_of (k ∷ []) = []
pairs_of (k ∷ v ∷ ss) = (k, v) ∷ pairs_of ss

abbrev map_of : Bytes → Option (Map Bytes)
map_of s = some (pairs_of (strings_of s))

pub pairs-text_of_map : (m : Map Bytes) → pairs_of (strings_of (text_of_map m)) ≡ m
pairs-text_of_map [] = refl
pairs-text_of_map ((k, v) ∷ m) = rw (
  strings_of-text_of k (text_of v (text_of_map m)),
  strings_of-text_of v (text_of_map m),
  pairs-text_of_map m,
)

-- The curve of one point: every public half and every secret is the base point.
abbrev curve : Bytes → Bytes → Option Bytes
curve a q = some q

abbrev pub primitives : Primitives
primitives = record {
  x25519 = curve;
  base = some_bytes 32;
  agreement = λ a b a' b' e f. sym f ∙ e;
  sign_public = λ s. take 32 s;
  sign_message = λ priv msg. msg;
  verify_message = λ key msg sig. true;
  key_of_seed = λ seed. some_bytes 64;
  hkdf = λ secret info. some_bytes 32;
  length-hkdf = λ secret info. refl;
  seal = λ key nonce text aad. text;
  open_seal = λ key nonce text aad. some text;
  open_seal-seal = λ key nonce text aad long long'. refl;
  sha256 = hash;
  encode_map = text_of_map;
  decode_map = map_of;
  decode_map-encode_map = λ m. rw (pairs-text_of_map m);
}

-- An identity whose secret key is `n` times a byte.
abbrev pub keys : Bytes → Identity
keys bp = record {
  sign_priv = some_bytes 64;
  sign_pub = some_bytes 32;
  box_priv = bp;
  box_pub = some_bytes 32;
}

pub ann_keys-IsOwnIdentity : IsOwnIdentity primitives (keys (some_bytes 32))
ann_keys-IsOwnIdentity = record { box = refl; sign = refl; box_long = refl; sign_long = refl }

bob_keys-IsOwnIdentity : IsOwnIdentity primitives (keys (zeros 32))
bob_keys-IsOwnIdentity = record { box = refl; sign = refl; box_long = refl; sign_long = refl }

load_identity-save_example :
    load_identity primitives (save primitives (keys (zeros 32))) ≡ some (keys (zeros 32))
load_identity-save_example = load_identity-save primitives (keys (zeros 32)) bob_keys-IsOwnIdentity

derived_key : derive_key primitives (some_bytes 32) (some_bytes 32) true ≡ some (some_bytes 32)
unfolding derive_key
derived_key = refl

decrypt-encrypt_example :
    (ciphertext : Bytes) × (key' : Bytes) × (encrypt primitives
        (some (some_bytes 24))
        (some_bytes 32)
        (codes "hi")
        (codes "aad")
      ≡ some (ciphertext, some_bytes 24))
    × (derive_key primitives (zeros 32) (some_bytes 32) true ≡ some key')
    × (decrypt primitives key' ciphertext (codes "aad") (some_bytes 24) ≡ some (codes "hi"))
decrypt-encrypt_example =
    decrypt-encrypt primitives (keys (some_bytes 32)) (keys (zeros 32)) ann_keys-IsOwnIdentity
      bob_keys-IsOwnIdentity true (some_bytes 32) (codes "hi") (codes "aad") (some_bytes 24)
      derived_key refl

fp_hex-decodes_example :
    (length (fp_hex primitives (zeros 32)) ≡ 16)
    × (decode_hex (fp_hex primitives (zeros 32)) ≡ some (some_bytes 8))
fp_hex-decodes_example =
    fp_hex-decodes primitives (zeros 32) (omega arith) (hash-IsHash.bytes (zeros 32))
