-- ===== src/Crypto/Vectors.antt =====
-- crypto/genvectors/main.go: the test vectors for other implementations. It has its own DeriveKey and
-- Fingerprint. base64.StdEncoding and the writing of the file are left to the caller.
pub mod Agree
use mathlib.Core.Option
use knock.Prelude.{
  ℕ, zero, suc, ◌+◌, Bool, true, false, not, ◌&&◌, Option, none, some, List, [], ◌∷◌, ◌++◌, Bytes,
  codes, ltb, ◌==◌, if◌then◌else◌, length, take, Map,
}
use knock.Protocol.Id.{encode_hex}
use knock.Crypto.{Primitives, to_upper}

abbrev pub seed_a : Bytes
seed_a =
    1 ∷ 2 ∷ 3 ∷ 4 ∷ 5 ∷ 6 ∷ 7 ∷ 8 ∷ 9 ∷ 10 ∷ 11 ∷ 12 ∷ 13 ∷ 14 ∷ 15 ∷ 16 ∷ 17 ∷ 18 ∷ 19 ∷ 20 ∷ 21
    ∷ 22 ∷ 23 ∷ 24 ∷ 25 ∷ 26 ∷ 27 ∷ 28 ∷ 29 ∷ 30 ∷ 31 ∷ 32 ∷ []

abbrev pub seed_b : Bytes
seed_b =
    255 ∷ 254 ∷ 253 ∷ 252 ∷ 251 ∷ 250 ∷ 249 ∷ 248 ∷ 247 ∷ 246 ∷ 245 ∷ 244 ∷ 243 ∷ 242 ∷ 241 ∷ 240
    ∷ 239 ∷ 238 ∷ 237 ∷ 236 ∷ 235 ∷ 234 ∷ 233 ∷ 232 ∷ 231 ∷ 230 ∷ 229 ∷ 228 ∷ 227 ∷ 226 ∷ 225 ∷ 224
    ∷ []

abbrev pub sign_seed_a : Bytes
sign_seed_a =
    161 ∷ 162 ∷ 163 ∷ 164 ∷ 165 ∷ 166 ∷ 167 ∷ 168 ∷ 169 ∷ 170 ∷ 171 ∷ 172 ∷ 173 ∷ 174 ∷ 175 ∷ 176
    ∷ 177 ∷ 178 ∷ 179 ∷ 180 ∷ 181 ∷ 182 ∷ 183 ∷ 184 ∷ 185 ∷ 186 ∷ 187 ∷ 188 ∷ 189 ∷ 190 ∷ 191 ∷ 192
    ∷ []

abbrev pub fixed_nonce : Bytes
fixed_nonce =
    16 ∷ 17 ∷ 18 ∷ 19 ∷ 20 ∷ 21 ∷ 22 ∷ 23 ∷ 24 ∷ 25 ∷ 26 ∷ 27 ∷ 28 ∷ 29 ∷ 30 ∷ 31 ∷ 32 ∷ 33 ∷ 34
    ∷ 35 ∷ 36 ∷ 37 ∷ 38 ∷ 39 ∷ []

abbrev pub plaintext : Bytes
plaintext = codes "knock test payload"

abbrev pub fixed_aad : Bytes
fixed_aad = codes "test-queue-idtest-msg-id"

abbrev pub del_message : Bytes
del_message = codes "DEL qid=abcdef1234567890 ts=1728880000"

pub record Vector : Type 0 where
  pub name : Bytes
  pub op : Bytes
  pub input : Map Bytes
  pub output : Map Bytes

-- The digits from the position `i` on, in pairs; a space comes before each pair but that at 0.
pairs_from : ℕ → Bytes → Bytes
pairs_from i [] = []
pairs_from i (a ∷ []) = (if ltb 0 i then b' ' ∷ [] else []) ++ to_upper a ∷ []
pairs_from i (a ∷ b ∷ s) =
    (if ltb 0 i then b' ' ∷ [] else []) ++ to_upper a ∷ to_upper b ∷ pairs_from (i + 2) s

infixl 5 ◌>>=◌
abbrev ◌>>=◌ : {A B : Type 0} → Option A → (A → Option B) → Option B
none >>= f = none
some a >>= f = f a

abbrev guard : Bool → Option (Unit {0})
guard true = some tt
guard false = none

module _ (p : Primitives) where
  -- fingerprint
  unfoldable pub raw_fingerprint : Bytes → Bytes
  unfolding pairs_from
  raw_fingerprint box_pub = pairs_from 0 (encode_hex (take 8 (p.sha256 box_pub)))

  -- deriveKey
  unfoldable pub raw_derive_key : Bytes → Bytes → Bytes → Option Bytes
  raw_derive_key my_priv peer_pub info = do
    shared ← p.x25519 my_priv peer_pub
    some (p.hkdf shared info)

  -- chacha20poly1305.NewX and Seal
  raw_seal : Bytes → Bytes → Bytes → Bytes → Option Bytes
  raw_seal key nonce text aad = if length key == 32 then some (p.seal key nonce text aad) else none

  -- The value of the key "vectors" of the file, with `b64` for base64.StdEncoding.
  abbrev pub document :
      (Bytes → Bytes) → Bytes → Bytes → Bytes → Bytes → Bytes → Bytes → Bytes → Bytes → List Vector
  document b64 pub_a pub_b key_ab key_ba ciphertext sign_priv signature fp =
      record {
        name = codes "derive_key_a2b";
        op = codes "derive";
        input =
            (codes "my_box_priv", b64 seed_a)
            ∷ (codes "peer_box_pub", b64 pub_b)
            ∷ (codes "direction", codes "a2b")
            ∷ [];
        output = (codes "key", b64 key_ab) ∷ [];
      }
      ∷ record {
        name = codes "derive_key_b2a";
        op = codes "derive";
        input =
            (codes "my_box_priv", b64 seed_b)
            ∷ (codes "peer_box_pub", b64 pub_a)
            ∷ (codes "direction", codes "b2a")
            ∷ [];
        output = (codes "key", b64 key_ba) ∷ [];
      }
      ∷ record {
        name = codes "encrypt_roundtrip";
        op = codes "encrypt";
        input =
            (codes "key", b64 key_ab)
            ∷ (codes "nonce", b64 fixed_nonce)
            ∷ (codes "plaintext", b64 plaintext)
            ∷ (codes "aad", b64 fixed_aad)
            ∷ [];
        output = (codes "ciphertext", b64 ciphertext) ∷ [];
      }
      ∷ record {
        name = codes "sign_del";
        op = codes "sign";
        input = (codes "sign_priv", b64 sign_priv) ∷ (codes "message", b64 del_message) ∷ [];
        output = (codes "signature", b64 signature) ∷ [];
      }
      ∷ record {
        name = codes "fingerprint";
        op = codes "fingerprint";
        input = (codes "box_pub", b64 pub_b) ∷ [];
        output = (codes "fp", fp) ∷ [];
      }
      ∷ []

  -- main up to the file; none where it exits or panics.
  unfoldable pub vectors : (Bytes → Bytes) → Option (List Vector)
  unfolding raw_seal
  vectors b64 = do
    pub_a ← p.x25519 seed_a p.base
    pub_b ← p.x25519 seed_b p.base
    key_ab ← raw_derive_key seed_a pub_b (codes "knock-m3-v1:a2b")
    key_ba ← raw_derive_key seed_b pub_a (codes "knock-m3-v1:b2a")
    _ ← guard (length key_ab == 32 && length key_ba == 32)
    ciphertext ← raw_seal key_ab fixed_nonce plaintext fixed_aad
    some (
        document b64 pub_a pub_b key_ab key_ba ciphertext (p.key_of_seed sign_seed_a)
          (p.sign_message (p.key_of_seed sign_seed_a) del_message) (raw_fingerprint pub_b))
