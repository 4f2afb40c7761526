-- ===== src/Protocol/Invite/Sound.antt =====
-- protocol/invite.go: what a link that ParseInvite takes holds.
use knock.Prelude.{
  ℕ, ◌≤◌, ◌≡◌, refl, sym, Bool, true, false, Option, none, some, List, [], ◌∷◌, Bytes, codes,
  eq_bytes, eq_bytes_iff, length, arith,
}
use knock.Prelude.Int.{ℤ, pos, negsuc}
use knock.Prelude.Decimal.{atoi}
use knock.Prelude.Cuts.{split}
use knock.Protocol.Id.{valid_queue_id}
use knock.Protocol.Base64.{decode_64}
use knock.Protocol.Url.{Url, parse_url, split_host, query_get}
use knock.Protocol.Invite.{
  Invite, Outcome, ok, refused, Refusal, ◌>>=◌, guard, or_refuse, trim_slash, queue_of, port_of,
  key_of, check_sum, invite_checksum, parse_invite,
}

-- What holds of the value, if there is one.
record Returns {ℓ} {A : Type ℓ} (P : A → Type 0) (m : Outcome A) : Type ℓ where
  holds : (a : A) → m ≡ ok a → P a

ok-injective {ℓ} : {A : Type ℓ} (a b : A) → ◌≡◌ {A = Outcome A} (ok a) (ok b) → a ≡ b
ok-injective a b e = cc

Returns-ok {ℓ} : {A : Type ℓ} {P : A → Type 0} (a : A) → P a → Returns P (ok a)
Returns-ok a h = record { holds = λ b e. rw (sym (ok-injective a b e)) h }

Returns-bind {ℓ κ} :
    {A : Type ℓ} {B : Type κ} {P : A → Type 0} {Q : B → Type 0} (m : Outcome A) {f : A → Outcome B}
    → ((a : A) → m ≡ ok a → P a)
    → ((a : A) → P a → Returns Q (f a))
    → Returns Q (m >>= f)
Returns-bind (ok a) h k = k a (h a refl)
Returns-bind (refused r) h k = record { holds = λ b e. cc }

guard-eq-ok : (b : Bool) (r : Refusal) (u : Unit {0}) → guard b r ≡ ok u → b ≡ true
guard-eq-ok true r u e = refl
guard-eq-ok false r u e = cc

or_refuse-eq-ok {ℓ} :
    {A : Type ℓ} (r : Refusal) (o : Option A) (a : A) → or_refuse r o ≡ ok a → o ≡ some a
or_refuse-eq-ok r none a e = cc
or_refuse-eq-ok r (some b) a e = cc

queue_of-eq-ok : (ss : List Bytes) (qid : Bytes) → queue_of ss ≡ ok qid → valid_queue_id qid ≡ true
unfolding queue_of
queue_of-eq-ok [] qid e = cc
queue_of-eq-ok (v ∷ []) qid e = cc
queue_of-eq-ok (v ∷ q ∷ []) qid e = ground (arith, e)
queue_of-eq-ok (v ∷ q ∷ r ∷ ss) qid e = cc

port_of-eq-ok : (o : Option ℤ) (n : ℕ) → port_of o ≡ ok n → (1 ≤ n) × (n ≤ 65535)
unfolding port_of
port_of-eq-ok none n e = cc
port_of-eq-ok (some (negsuc v)) n e = cc
port_of-eq-ok (some (pos v)) n e = (ground arith, ground arith)

key_of-eq-ok : (o : Option Bytes) (k : Bytes) → key_of o ≡ ok k → (o ≡ some k) × (length k ≡ 32)
unfolding key_of
key_of-eq-ok none k e = cc
key_of-eq-ok (some b) k e = (ground arith, ground arith)

check_sum-eq-ok : (got sum : Bytes) (u : Unit {0}) → check_sum got sum ≡ ok u → got ≡ sum
unfolding check_sum
check_sum-eq-ok got sum u e = ground (arith, eq_bytes_iff got sum)

-- What a link that is taken says of the invitation.
abbrev pub Carries : (Bytes → Bytes) → Bytes → Invite → Type 0
Carries sha256 link inv =
    (u : Url) × (parse_url link ≡ some u)
    × (u.scheme ≡ codes "knock")
    × (1 ≤ inv.port)
    × (inv.port ≤ 65535)
    × (valid_queue_id inv.queue_id ≡ true)
    × (decode_64 (query_get (codes "k") u.raw_query) ≡ some inv.box_pub)
    × (length inv.box_pub ≡ 32)
    × (query_get (codes "c") u.raw_query
        ≡ invite_checksum sha256 inv.host inv.port inv.queue_id (query_get (codes "k") u.raw_query))

module _ (sha256 : Bytes → Bytes) (link : Bytes) where
  parse_invite-Carries : Returns (Carries sha256 link) (parse_invite sha256 link)
  unfolding parse_invite
  parse_invite-Carries =
      Returns-bind (or_refuse _ (parse_url link)) (or_refuse-eq-ok _ (parse_url link)) λ u url.
        Returns-bind (guard _ _) (guard-eq-ok (eq_bytes u.scheme (codes "knock")) _) λ _ knock.
          Returns-bind (queue_of (split b'/' (trim_slash u.path)))
            (queue_of-eq-ok (split b'/' (trim_slash u.path)))
            λ qid valid.
              Returns-bind (port_of (atoi (split_host u.host).1))
                (port_of-eq-ok (atoi (split_host u.host).1))
                λ port range.
                  Returns-bind (key_of (decode_64 (query_get (codes "k") u.raw_query)))
                    (key_of-eq-ok (decode_64 (query_get (codes "k") u.raw_query)))
                    λ key bytes.
                      Returns-bind (check_sum _ _)
                        (check_sum-eq-ok (query_get (codes "c") u.raw_query) (
                          invite_checksum sha256 (split_host u.host).0 port qid
                            (query_get (codes "k") u.raw_query)))
                        λ _ sum. Returns-ok _ (
                          u,
                          url,
                          (eq_bytes_iff u.scheme (codes "knock")).0 knock,
                          range.0,
                          range.1,
                          valid,
                          bytes.0,
                          bytes.1,
                          sum,
                        )

  -- A link that ParseInvite takes is a URL of the scheme knock, and the invitation that it gives has a
  -- port that TCP has, a valid queue id, the 32 bytes of the key in the query, and the checksum of the
  -- query, made of its host, port, queue id and key, whatever SHA-256 does.
  pub parse_invite_sound :
      (inv : Invite) → parse_invite sha256 link ≡ ok inv → Carries sha256 link inv
  parse_invite_sound inv e = parse_invite-Carries.holds inv e
