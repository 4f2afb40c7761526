-- ===== src/Crypto.antt =====
-- crypto/crypto.go: identities, the keys of the two directions, encryption and fingerprints. The curve,
-- the signatures, HKDF, the cipher, the hash and encoding/json are parameters.
pub mod Agreement
pub mod Fingerprints
pub mod Vectors
use knock.Prelude.{
  ℕ, zero, suc, ◌+◌, ◌-◌, ◌≡◌, Bool, true, false, Option, none, some, List, [], ◌∷◌, ◌++◌, map,
  Bytes, codes, leb, ◌&&◌, ◌==◌, if◌then◌else◌, length, take, Map, lookup, select, not,
}
use knock.Protocol.Id.{encode_hex}

pub record Primitives : Type 0 where
  -- curve25519.X25519 with a point, which fails on a weak one, and with the base point.
  pub x25519 : Bytes → Bytes → Option Bytes
  pub base : Bytes
  -- The agreement of Diffie and Hellman.
  pub agreement :
      (a b a' b' : Bytes)
      → x25519 a base ≡ some a'
      → x25519 b base ≡ some b'
      → x25519 a b' ≡ x25519 b a'
  -- The public half of an ed25519 key.
  pub sign_public : Bytes → Bytes
  -- ed25519.Sign, ed25519.NewKeyFromSeed and ed25519.Verify
  pub sign_message : Bytes → Bytes → Bytes
  pub key_of_seed : Bytes → Bytes
  pub verify_message : Bytes → Bytes → Bytes → Bool
  -- 32 bytes of HKDF with SHA-256, from a secret and an info.
  pub hkdf : Bytes → Bytes → Bytes
  pub length-hkdf : (secret info : Bytes) → length (hkdf secret info) ≡ 32
  -- XChaCha20-Poly1305: key, nonce, text and additional data.
  pub seal : Bytes → Bytes → Bytes → Bytes → Bytes
  pub open_seal : Bytes → Bytes → Bytes → Bytes → Option Bytes
  pub open_seal-seal :
      (key nonce text aad : Bytes)
      → length key ≡ 32
      → length nonce ≡ 24
      → open_seal key nonce (seal key nonce text aad) aad ≡ some text
  pub sha256 : Bytes → Bytes
  -- encoding/json on a map of byte strings.
  pub encode_map : Map Bytes → Bytes
  pub decode_map : Bytes → Option (Map Bytes)
  pub decode_map-encode_map : (m : Map Bytes) → decode_map (encode_map m) ≡ some m

pub record Identity : Type 0 where
  pub sign_priv : Bytes
  pub sign_pub : Bytes
  pub box_priv : Bytes
  pub box_pub : Bytes

abbrev pub zeros : ℕ → Bytes
zeros zero = []
zeros (suc n) = 0 ∷ zeros n

module _ (p : Primitives) where
  with_box_pub : Bytes → Bytes → Bytes → Option Bytes → Option Identity
  with_box_pub sp spub bp none = none
  with_box_pub sp spub bp (some pub_key) =
      some (record { sign_priv = sp; sign_pub = spub; box_priv = bp; box_pub = pub_key })

  -- The key pair of ed25519.GenerateKey is a private key and its public half.
  signed : Bytes → Option Bytes → Option Bytes → Option Identity
  unfolding with_box_pub
  signed bp none sign = none
  signed bp (some pub_key) none = none
  signed bp (some pub_key) (some sp) = with_box_pub sp (p.sign_public sp) bp (some pub_key)

  -- GenerateIdentity, from what rand.Read and GenerateKey return.
  unfoldable pub generate_identity : Option Bytes → Option Bytes → Option Identity
  unfolding signed
  generate_identity none sign = none
  generate_identity (some bp) sign = signed bp (p.x25519 bp p.base) sign

  -- Save
  unfoldable pub save : Identity → Bytes
  save id =
      p.encode_map ((codes "v1_sign_priv", id.sign_priv) ∷ (codes "v1_box_priv", id.box_priv) ∷ [])

  -- An entry of the file counts only if it has the length of its key.
  sized : ℕ → Option Bytes → Option Bytes
  sized n none = none
  sized n (some b) = if length b == n then some b else none

  sign_half : Option Bytes → Bytes × Bytes
  sign_half none = ([], [])
  sign_half (some sp) = (sp, p.sign_public sp)

  box_half : Option Bytes → Bytes
  box_half none = zeros 32
  box_half (some bp) = bp

  of_map : Option (Map Bytes) → Option Identity
  unfolding with_box_pub sized sign_half box_half
  of_map none = none
  of_map (some raw) =
      let sign = sign_half (sized 64 (lookup (codes "v1_sign_priv") raw)) in
      let bp = box_half (sized 32 (lookup (codes "v1_box_priv") raw)) in
      with_box_pub sign.0 sign.1 bp (p.x25519 bp p.base)

  -- LoadIdentity
  unfoldable pub load_identity : Bytes → Option Identity
  unfolding of_map
  load_identity s = of_map (p.decode_map s)

  derived : Bytes → Option Bytes → Option Bytes
  derived info none = none
  derived info (some secret) = some (p.hkdf secret info)

  -- DeriveKey
  unfoldable pub derive_key : Bytes → Bytes → Bool → Option Bytes
  unfolding derived
  derive_key my_priv peer_pub a_to_b =
      derived (if a_to_b then codes "knock-m3-v1:a2b" else codes "knock-m3-v1:b2a")
        (p.x25519 my_priv peer_pub)

  sealed_with : Bytes → Bytes → Bytes → Option Bytes → Option (Bytes × Bytes)
  sealed_with key text aad none = none
  sealed_with key text aad (some nonce) = some (p.seal key nonce text aad, nonce)

  -- Encrypt, with the nonce that rand.Read returns; NewX refuses a key that has not 32 bytes.
  unfoldable pub encrypt : Option Bytes → Bytes → Bytes → Bytes → Option (Bytes × Bytes)
  unfolding sealed_with
  encrypt random key text aad = if length key == 32 then sealed_with key text aad random else none

  -- Decrypt
  unfoldable pub decrypt : Bytes → Bytes → Bytes → Bytes → Option Bytes
  decrypt key ciphertext aad nonce =
      if length key == 32 then p.open_seal key nonce ciphertext aad else none

  -- Sign and Verify
  unfoldable pub sign : Bytes → Bytes → Bytes
  sign priv msg = p.sign_message priv msg

  unfoldable pub verify : Bytes → Bytes → Bytes → Bool
  verify public_key msg sig = p.verify_message public_key msg sig

-- strings.ToUpper on hex digits
abbrev pub to_upper : ℕ → ℕ
to_upper c = if leb b'a' c && leb c b'z' then c - 32 else c

-- The digits in pairs, with a space before each pair but the first.
spaced_rest : Bytes → Bytes
spaced_rest [] = []
spaced_rest (a ∷ []) = b' ' ∷ to_upper a ∷ []
spaced_rest (a ∷ b ∷ s) = b' ' ∷ to_upper a ∷ to_upper b ∷ spaced_rest s

spaced : Bytes → Bytes
unfolding spaced_rest
spaced [] = []
spaced (a ∷ []) = to_upper a ∷ []
spaced (a ∷ b ∷ s) = to_upper a ∷ to_upper b ∷ spaced_rest s

-- Fingerprint
unfoldable pub fingerprint : Primitives → Bytes → Bytes
unfolding spaced
fingerprint p box_pub = spaced (encode_hex (take 8 (p.sha256 box_pub)))

-- fpHex of client/state.go: strings.ReplaceAll of a space by nothing.
unfoldable pub fp_hex : Primitives → Bytes → Bytes
fp_hex p box_pub = select (λ c. not (c == b' ')) (fingerprint p box_pub)
