-- ===== src/Protocol/Invite.antt =====
-- protocol/invite.go: the invitation link. SHA-256 is a parameter.
pub mod RoundTrip
pub mod Sound
use mathlib.Core.Option
use knock.Prelude.{
  ℕ, ◌≡◌, ◌<◌, Bool, true, false, not, Option, none, some, List, [], ◌∷◌, ◌++◌, Bytes, codes,
  eq_bytes, ltb, ◌==◌, ◌||◌, if◌then◌else◌, length, take, All,
}
use knock.Prelude.Int.{ℤ, pos, negsuc, show_nat}
use knock.Prelude.Decimal.{atoi}
use knock.Prelude.Cuts.{split}
use knock.Protocol.Id.{encode_hex, valid_queue_id}
use knock.Protocol.Base64.{encode_64, decode_64}
use knock.Protocol.Url.{Url, show_url, parse_url, split_host, query_get}

abbrev pub invite_version : Bytes
invite_version = codes "v2"

pub record Invite : Type 0 where
  pub host : Bytes
  pub port : ℕ
  pub queue_id : Bytes
  pub box_pub : Bytes

-- The errors of ParseInvite, in the order of its tests.
pub data Refusal : Type 0 where
  bad_url not_knock old_link bad_version bad_queue_id bad_port bad_key : Refusal
  no_checksum bad_checksum : Refusal

pub data Outcome {ℓ} (A : Type ℓ) : Type ℓ where
  ok : A → Outcome A
  refused : Refusal → Outcome A

infixl 5 ◌>>=◌ ◌>>◌
abbrev pub ◌>>=◌ {ℓ κ} : {A : Type ℓ} {B : Type κ} → Outcome A → (A → Outcome B) → Outcome B
ok a >>= f = f a
refused e >>= f = refused e

abbrev pub ◌>>◌ {ℓ} : {B : Type ℓ} → Outcome (Unit {0}) → Outcome B → Outcome B
m >> k = m >>= λ _. k

abbrev guard : Bool → Refusal → Outcome (Unit {0})
guard true e = ok tt
guard false e = refused e

abbrev pub or_refuse {ℓ} : {A : Type ℓ} → Refusal → Option A → Outcome A
or_refuse e none = refused e
or_refuse e (some a) = ok a

-- TrimPrefix(path, "/")
abbrev pub trim_slash : Bytes → Bytes
trim_slash [] = []
trim_slash (c ∷ s) = if c == b'/' then s else c ∷ s

-- The queue id of a path with two segments.
queue_of : List Bytes → Outcome Bytes
queue_of (v ∷ qid ∷ []) = do
  guard (eq_bytes v invite_version) bad_version
  guard (valid_queue_id qid) bad_queue_id
  ok qid
queue_of _ = refused old_link

port_of : Option ℤ → Outcome ℕ
port_of (some (pos n)) = if ltb n 1 || ltb 65535 n then refused bad_port else ok n
port_of _ = refused bad_port

key_of : Option Bytes → Outcome Bytes
key_of none = refused bad_key
key_of (some key) = if length key == 32 then ok key else refused bad_key

check_sum : Bytes → Bytes → Outcome (Unit {0})
check_sum got sum = do
  guard (not (eq_bytes got [])) no_checksum
  guard (eq_bytes got sum) bad_checksum

module _ (sha256 : Bytes → Bytes) where
  unfoldable pub invite_checksum : Bytes → ℕ → Bytes → Bytes → Bytes
  invite_checksum host port qid key = encode_hex (
      take 4 (
        sha256 (
          codes "knock|"
          ++ (host
              ++ (codes "|" ++ (show_nat port ++ (codes "|" ++ (qid ++ (codes "|" ++ key)))))))))

  -- String
  unfoldable pub show_invite : Invite → Bytes
  show_invite inv =
      let key = encode_64 inv.box_pub in
      show_url (record {
        scheme = codes "knock";
        host = inv.host ++ (b':' ∷ show_nat inv.port);
        path = b'/' ∷ invite_version ++ (b'/' ∷ inv.queue_id);
        raw_query =
            codes "k="
            ++ (key ++ (codes "&c=" ++ invite_checksum inv.host inv.port inv.queue_id key));
      })

  -- ParseInvite
  unfoldable pub parse_invite : Bytes → Outcome Invite
  unfolding queue_of port_of key_of check_sum
  parse_invite link = do
    u ← or_refuse bad_url (parse_url link)
    guard (eq_bytes u.scheme (codes "knock")) not_knock
    qid ← queue_of (split b'/' (trim_slash u.path))
    port ← port_of (atoi (split_host u.host).1)
    key ← key_of (decode_64 (query_get (codes "k") u.raw_query))
    check_sum (query_get (codes "c") u.raw_query)
        (invite_checksum (split_host u.host).0 port qid (query_get (codes "k") u.raw_query))
    ok (record { host = (split_host u.host).0; port = port; queue_id = qid; box_pub = key })
