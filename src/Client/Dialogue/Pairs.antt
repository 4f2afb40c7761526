-- ===== src/Client/Dialogue/Pairs.antt =====
-- client/session.go and protocol/invite.go: two clients that share an invitation.
use knock.Prelude.{
  ℕ, ◌≤◌, ◌≡◌, inl, inr, refl, sym, ap, ◌∙◌, true, Option, none, some, [], ◌∷◌, Bytes,
  eq_bytes_refl, length, lookup, All,
}
use mathlib.Core.Option.{some-injective}
use knock.Protocol.Id.{valid_queue_id}
use knock.Protocol.Id.Valid.{IsByte}
use knock.Protocol.Url.{show_url}
use knock.Protocol.Url.Links.{IsWord}
use knock.Protocol.Invite.{Invite, Outcome, ok, show_invite, parse_invite}
use knock.Protocol.Invite.RoundTrip.{IsHash, parse_invite-show_invite}
use knock.Crypto.{fp_hex}
use knock.Client.State.{Contact}
use knock.Client.Address.{build_ws_url}
use knock.Client.Request.{Desk, done, Outside}
use knock.Client.Dialogue.{Chat, server_of, my_invite, run_chat}
use knock.Client.Dialogue.Queues.{state}
use knock.Client.Dialogue.Peers.{IsNamed}
use knock.Client.Dialogue.Started.{IsConnected, run_chat_started}

ok-injective : {A : Type 0} (a b : A) → ◌≡◌ {A = Outcome A} (ok a) (ok b) → a ≡ b
ok-injective a b e = cc

-- A link that is given and parses names its invitation.
named_peer :
    (o : Outside) (x : ℕ) (xs : Bytes) (peer : Option (Invite × Bytes)) (inv : Invite)
    → IsNamed o (x ∷ xs) peer
    → parse_invite o.primitives.sha256 (x ∷ xs) ≡ ok inv
    → peer ≡ some (inv, x ∷ xs)
named_peer o x xs none inv n e = absurd n
named_peer o x xs (some (p, link)) inv n e =
    let same : p ≡ inv = ok-injective p inv (sym n.1 ∙ (rw n.0 e)) in rw (n.0, same)

-- A link names one peer at most.
named_once :
    (o : Outside) (link : Bytes) (p q : Option (Invite × Bytes))
    → IsNamed o link p
    → IsNamed o link q
    → p ≡ q
named_once o [] p q m n = m ∙ sym n
named_once o (x ∷ xs) none q m n = absurd m
named_once o (x ∷ xs) (some p) none m n = absurd n
named_once o (x ∷ xs) (some p) (some q) m n = sym (
    named_peer o x xs (some q) p.0 n (rw (sym m.0) m.1)
    ∙ ap (λ (l : Bytes). some (p.0, l)) (sym m.0))

pub show_invite-cons :
    (sha256 : Bytes → Bytes) (inv : Invite) → (xs : Bytes) × (show_invite sha256 inv ≡ b'k' ∷ xs)
unfolding show_invite show_url
show_invite-cons sha256 inv = (_, refl)

-- The peer of a chat that was started with a link that parses is the one in the link.
given_peer :
    (o : Outside) (x : ℕ) (xs server : Bytes) (d : Desk) (c : Chat) (d' : Desk) (inv : Invite)
    → (b : IsConnected o (x ∷ xs) server d c d')
    → parse_invite o.primitives.sha256 (x ∷ xs) ≡ ok inv
    → (b.peer ≡ some (inv, x ∷ xs)) × (b.inv ≡ inv) × (b.used ≡ x ∷ xs)
given_peer o x xs server d c d' inv b e =
    let named = named_peer o x xs b.peer inv b.is_named e in
    elim b.of_peer [
      | inl empty ↦ absurd (
          let e' : ◌≡◌ {A = Option (Invite × Bytes)} none (some (inv, x ∷ xs)) =
            sym empty ∙ named in
          cc)
      | inr same ↦
          let pair : ◌≡◌ {A = Invite × Bytes} (b.inv, b.used) (inv, x ∷ xs) =
            some-injective _ _ (sym same ∙ named) in
          (named, ap (λ (p : Invite × Bytes). p.0) pair, ap (λ (p : Invite × Bytes). p.1) pair)
    ]

-- What a client makes of a link that parses.
pub joins :
    (o : Outside) (x : ℕ) (xs server : Bytes) (d : Desk) (c : Chat) (d' : Desk) (inv : Invite)
    → IsConnected o (x ∷ xs) server d c d'
    → parse_invite o.primitives.sha256 (x ∷ xs) ≡ ok inv
    → (c.dialled ≡ build_ws_url inv.host inv.port)
      × (c.inbox ≡ inv.queue_id)
      × (k : Contact) × (lookup (fp_hex o.primitives inv.box_pub) (state d').contacts ≡ some k)
      × (k.invite_url ≡ x ∷ xs)
unfolding server_of
joins o x xs server d c d' inv b e =
    let g = given_peer o x xs server d c d' inv b e in
    (
      rw g.0 at b.dialled,
      b.inbox ∙ ap (λ (i : Invite). i.queue_id) g.1,
      b.contact,
      rw (sym g.1) (
          b.contacts (fp_hex o.primitives b.inv.box_pub)
          ∙ rw (eq_bytes_refl (fp_hex o.primitives b.inv.box_pub))),
      b.contact_link ∙ g.2,
    )

module _ (o o' : Outside) (s : IsHash o.primitives.sha256)
    (same : o'.primitives.sha256 ≡ o.primitives.sha256) where
  -- Two clients meet in an invitation: when one has started its chat and the other starts with the link
  -- that the first printed, the other dials the same server, reads the queue that the first writes to, and
  -- has the first in its contacts under the fingerprint of its key, with that link, if both have the same
  -- SHA-256, of 32 bytes, the server of the first, that of the peer in its link if it has
  -- one, is a host name with a port that TCP has, the queue id of the first is valid and its key has 32
  -- bytes.
  pub run_chat_pairs :
      (link server queue server' queue' : Bytes) (peer : Option (Invite × Bytes)) (d d' e e' : Desk)
      (c c' : Chat)
      → IsNamed o link peer
      → IsWord (server_of server peer).0
      → 1 ≤ (server_of server peer).1
      → (server_of server peer).1 ≤ 65535
      → All IsByte o.own_box_pub
      → length o.own_box_pub ≡ 32
      → valid_queue_id c.outbox ≡ true
      → run_chat o link server queue d ≡ done c d'
      → run_chat o' c.own_invite server' queue' e ≡ done c' e'
      → (c'.dialled ≡ c.dialled)
        × (c'.inbox ≡ c.outbox)
        × (k : Contact) × (lookup (fp_hex o'.primitives o.own_box_pub) (state e').contacts ≡ some k)
        × (k.invite_url ≡ c.own_invite)
  unfolding my_invite
  run_chat_pairs link server queue server' queue' peer d d' e e' c c' n word low high bytes long v r
        r' =
      let a = run_chat_started o link server d queue c d' r in
      let known : a.peer ≡ peer = named_once o link a.peer peer a.is_named n in
      let inv : Invite = record {
        host = (server_of server peer).0;
        port = (server_of server peer).1;
        queue_id = c.outbox;
        box_pub = o.own_box_pub;
      } in
      let own : c.own_invite ≡ show_invite o.primitives.sha256 inv = rw known at a.own_invite in
      let cons = show_invite-cons o.primitives.sha256 inv in
      let shown : c.own_invite ≡ b'k' ∷ cons.0 = own ∙ cons.1 in
      let parses : parse_invite o'.primitives.sha256 (b'k' ∷ cons.0) ≡ ok inv =
        rw (same, sym cons.1)
          (parse_invite-show_invite o.primitives.sha256 s inv word v bytes low high long) in
      let j =
        joins o' b'k' cons.0 server' e c' e' inv
          (run_chat_started o' (b'k' ∷ cons.0) server' e queue' c' e' (rw shown at r')) parses in
      let dials : c.dialled ≡ build_ws_url inv.host inv.port = rw known at a.dialled in
      (j.0 ∙ sym dials, j.1, j.2, j.3, j.4 ∙ sym shown)
