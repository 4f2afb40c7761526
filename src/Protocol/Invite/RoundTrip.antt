-- ===== src/Protocol/Invite/RoundTrip.antt =====
-- protocol/invite.go: what String prints, ParseInvite reads.
use knock.Prelude.{
  ℕ, ◌/◌, ◌%◌, ◌≤◌, ◌<◌, ◌≡◌, refl, ◌∙◌, true, false, some, [], ◌∷◌, ◌++◌, Bytes, codes, eq_bytes,
  eq_bytes_refl, length, take, All, All-append, All-imp, All-take, arith,
}
use knock.Prelude.Int.{show_nat}
use knock.Prelude.Decimal.{atoi, atoi-show_nat, show_nat-digits}
use knock.Prelude.Cuts.{split, split-append, split_whole}
use knock.Protocol.Id.{hex_digit, encode_hex, valid_queue_id}
use knock.Protocol.Id.Valid.{IsByte, IsHexDigit, valid_queue_id_iff}
use knock.Protocol.Base64.{encode_64}
use knock.Protocol.Base64.RoundTrip.{encode_64-digits, decode_64-encode_64}
use knock.Protocol.Escapes.{is_unreserved}
use knock.Protocol.Url.{Url, parse_url}
use knock.Protocol.Url.Links.{
  IsWord, word-Words, class-Lacks, is_query, parts, parse_url-show_url, split_host-append,
}
use knock.Protocol.Url.Queries.{query_get-first, query_get-second}
use knock.Protocol.Invite.{
  Invite, Outcome, ok, refused, bad_port, ◌>>=◌, ◌>>◌, queue_of, port_of, key_of, check_sum,
  invite_version, invite_checksum, show_invite, parse_invite,
}

hex_digit-word : (d : ℕ) → d < 16 → is_unreserved (hex_digit d) ≡ true
unfolding hex_digit
hex_digit-word d h = ground arith

encode_hex-IsWord : (b : Bytes) → All IsByte b → IsWord (encode_hex b)
unfolding encode_hex
encode_hex-IsWord [] h = tt
encode_hex-IsWord (x ∷ b) (hx, hb) = (
  hex_digit-word (x / 16) (omega arith),
  (hex_digit-word (x % 16) (omega arith), encode_hex-IsWord b hb),
)

hex-word : (c : ℕ) → IsHexDigit c → is_unreserved c ≡ true
hex-word c h = ground arith

queue_id-IsWord : (qid : Bytes) → valid_queue_id qid ≡ true → IsWord qid
queue_id-IsWord qid v = All-imp hex-word qid ((valid_queue_id_iff qid).0 v).1

encode_64-IsWord : (b : Bytes) → All IsByte b → IsWord (encode_64 b)
encode_64-IsWord b h = All-imp (λ c e. ground (arith, e)) (encode_64 b) (encode_64-digits b h)

word-query : (c : ℕ) → is_unreserved c ≡ true → is_query c ≡ true
word-query c h = rw h

long-encode_hex : (b : Bytes) → length b ≡ 32 → eq_bytes (encode_hex (take 4 b)) [] ≡ false
unfolding encode_hex eq_bytes
long-encode_hex [] e = absurd (omega (arith, e))
long-encode_hex (x ∷ b) e = refl

-- What SHA-256 returns: 32 bytes.
pub record IsHash (sha256 : Bytes → Bytes) : Type 0 where
  pub long : (b : Bytes) → length (sha256 b) ≡ 32
  pub bytes : (b : Bytes) → All IsByte (sha256 b)

module _ (sha256 : Bytes → Bytes) (s : IsHash sha256) (inv : Invite) where
  abbrev key : Bytes
  key = encode_64 inv.box_pub

  abbrev sum : Bytes
  sum = invite_checksum sha256 inv.host inv.port inv.queue_id key

  abbrev query : Bytes
  query = (b'k' ∷ b'=' ∷ key) ++ b'&' ∷ b'c' ∷ b'=' ∷ sum

  abbrev written : Url
  written = parts inv.host (show_nat inv.port) (invite_version ++ b'/' ∷ inv.queue_id) query

  sum-IsWord : IsWord sum
  unfolding invite_checksum
  sum-IsWord = encode_hex-IsWord (take 4 (sha256 _)) (All-take IsByte 4 (sha256 _) (s.bytes _))

  sum-some : eq_bytes sum [] ≡ false
  unfolding invite_checksum
  sum-some = long-encode_hex (sha256 _) (s.long _)

  module _ (host : IsWord inv.host) (qid : valid_queue_id inv.queue_id ≡ true)
      (k : All IsByte inv.box_pub) where
    query-query : All (λ c. is_query c ≡ true) query
    query-query =
        All-append _ (b'k' ∷ b'=' ∷ key) (b'&' ∷ b'c' ∷ b'=' ∷ sum)
          (refl, (refl, All-imp word-query key (encode_64-IsWord inv.box_pub k)))
          (refl, (refl, (refl, All-imp word-query sum sum-IsWord)))

    parse_url-written : parse_url (show_invite sha256 inv) ≡ some written
    unfolding show_invite
    parse_url-written =
        parse_url-show_url inv.host (show_nat inv.port) (invite_version ++ b'/' ∷ inv.queue_id)
          query host (show_nat-digits inv.port)
          (refl, (refl, (refl, word-Words b'/' inv.queue_id (queue_id-IsWord inv.queue_id qid))))
          query-query

    segments :
        split b'/' (invite_version ++ b'/' ∷ inv.queue_id) ≡ invite_version ∷ inv.queue_id ∷ []
    segments =
        split-append b'/' invite_version inv.queue_id (refl, (refl, tt))
        ∙ rw (
            split_whole b'/' inv.queue_id
              (class-Lacks is_unreserved b'/' inv.queue_id refl (queue_id-IsWord inv.queue_id qid)))

    queue_of-segments :
        queue_of (split b'/' (invite_version ++ b'/' ∷ inv.queue_id)) ≡ ok inv.queue_id
    unfolding queue_of eq_bytes
    queue_of-segments = rw (segments, queue_of, qid)

    -- Whatever the port, the parser reaches its test with the number that was printed.
    parse_invite-written :
        (p : Outcome ℕ)
        → port_of (atoi (show_nat inv.port)) ≡ p
        → parse_invite sha256 (show_invite sha256 inv) ≡ (
            p >>= λ n. key_of (some inv.box_pub) >>= λ b.
            check_sum sum (invite_checksum sha256 inv.host n inv.queue_id key)
            >> ok (record { host = inv.host; port = n; queue_id = inv.queue_id; box_pub = b }))
    unfolding parse_invite
    parse_invite-written p e = rw (
      parse_url-written,
      eq_bytes_refl (codes "knock"),
      queue_of-segments,
      split_host-append inv.host (show_nat inv.port) host (show_nat-digits inv.port),
      e,
      query_get-first b'k' b'c' key sum refl refl (encode_64-IsWord inv.box_pub k) sum-IsWord,
      query_get-second b'k' b'c' key sum refl refl (encode_64-IsWord inv.box_pub k) sum-IsWord refl,
      decode_64-encode_64 inv.box_pub k,
    )

    check_sum-sum : check_sum sum sum ≡ ok tt
    unfolding check_sum
    check_sum-sum = rw (sum-some, eq_bytes_refl sum)

    -- An invitation to a host name, with a port that TCP has, a valid queue id and a key of 32 bytes,
    -- is read back as it was.
    pub parse_invite-show_invite :
        1 ≤ inv.port
        → inv.port ≤ 65535
        → length inv.box_pub ≡ 32
        → parse_invite sha256 (show_invite sha256 inv) ≡ ok inv
    parse_invite-show_invite low high long =
        parse_invite-written (ok inv.port) in_range ∙ rw (key_of-long, check_sum-sum)
      where
        in_range : port_of (atoi (show_nat inv.port)) ≡ ok inv.port
        in_range = rw (atoi-show_nat inv.port (omega arith)) (unfold port_of in ground arith)

        key_of-long : key_of (some inv.box_pub) ≡ ok inv.box_pub
        key_of-long = unfold key_of in ground (arith, long)

    -- The invitation of a client that has no port, as with an address that has none, is refused by
    -- every other client: String prints ":0", which ParseInvite does not take.
    pub parse_invite-port_zero :
        inv.port ≡ 0 → parse_invite sha256 (show_invite sha256 inv) ≡ refused bad_port
    parse_invite-port_zero zero_port =
        parse_invite-written (refused bad_port)
          (rw (atoi-show_nat inv.port (omega arith)) (unfold port_of in ground arith))
