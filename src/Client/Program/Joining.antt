-- ===== src/Client/Program/Joining.antt =====
-- client/main.go: `knock new` on one side, then `knock chat` with its link on the other.
use mathlib.Core.Option
use knock.Prelude.{
  ℕ, ◌≤◌, ◌≡◌, ◌≢◌, sym, ◌∙◌, true, Option, some, List, [], ◌∷◌, Bytes, codes, eq_bytes, length,
  lookup, All, arith,
}
use knock.Protocol.Id.{valid_queue_id}
use knock.Protocol.Id.Valid.{IsByte}
use knock.Protocol.Envelope.{Envelope, Decoded, type_new_ok}
use knock.Protocol.Url.Links.{IsWord}
use knock.Protocol.Invite.{Invite, ok, show_invite, parse_invite}
use knock.Protocol.Invite.RoundTrip.{IsHash, parse_invite-show_invite}
use knock.Crypto.{fp_hex}
use knock.Client.State.{Contact}
use knock.Client.Address.{parse_addr, build_ws_url}
use knock.Client.Request.{Desk, Ran, failed, done, Outside, answer, await}
use knock.Client.Dialogue.{Chat, my_invite, run_chat, run_new}
use knock.Client.Dialogue.Queues.{state}
use knock.Client.Dialogue.Started.{run_chat_started}
use knock.Client.Dialogue.Pairs.{show_invite-cons, joins}
use knock.Client.Dialogue.Fresh.{run_new-my_invite}
use knock.Client.Program.{Ending, printed, chats, Flags, ending, program}

ending-printed :
    (link : Bytes) (d' : Desk) (r : Ran Bytes)
    → ◌≡◌ {A = Ending × Desk} (ending printed r) (printed link, d')
    → r ≡ done link d'
ending-printed link d' (failed t d) e = cc
ending-printed link d' (done a d) e = cc

ending-chats :
    (c : Chat) (d' : Desk) (r : Ran Chat)
    → ◌≡◌ {A = Ending × Desk} (ending chats r) (chats c, d')
    → r ≡ done c d'
ending-chats c d' (failed t d) e = cc
ending-chats c d' (done a d) e = cc

module _ (o : Outside) (parse_flags : List Bytes → Option Flags) where
  program-new :
      (name addr link : Bytes) (d d' : Desk)
      → program o parse_flags (name ∷ codes "new" ∷ addr ∷ []) d ≡ (printed link, d')
      → run_new o addr d ≡ done link d'
  unfolding program eq_bytes
  program-new name addr link d d' e = ending-printed link d' (run_new o addr d) e

  program-chat :
      (name link : Bytes) (d d' : Desk) (c : Chat)
      → parse_flags (link ∷ []) ≡ some (record { server = []; queue = []; rest = link ∷ [] })
      → program o parse_flags (name ∷ codes "chat" ∷ link ∷ []) d ≡ (chats c, d')
      → run_chat o link [] [] d ≡ done c d'
  unfolding program eq_bytes
  program-chat name link d d' c f e = ending-chats c d' (run_chat o link [] [] d) (rw f at e)

module _ (o o' : Outside) (flags flags' : List Bytes → Option Flags)
    (s : IsHash o.primitives.sha256) (same : o'.primitives.sha256 ≡ o.primitives.sha256)
    (no_flag : (x : ℕ) (xs : Bytes) (rest : List Bytes)
      → x ≢ b'-'
      → flags' ((x ∷ xs) ∷ rest)
        ≡ some (record { server = []; queue = []; rest = (x ∷ xs) ∷ rest })) where
  -- `knock new` with an address, then `knock chat` with the link that it prints: when both get as far,
  -- the second client dials the server of that address, reads the queue that the server made for the first, and
  -- has the first in its contacts under the fingerprint of its key, with that link, if both
  -- have the same SHA-256, of 32 bytes, the address is a host name with a port that TCP has, the
  -- queue id in the answer of the server is valid, the key of the first has 32 bytes, and the package flag leaves
  -- an argument that does not start with a dash where it is.
  pub new_then_chat :
      (name name' : Bytes) (x : ℕ) (xs link : Bytes) (d d' e e' : Desk) (c : Chat) (resp : Envelope)
      (rest : List Decoded)
      → IsWord (parse_addr (x ∷ xs)).0
      → 1 ≤ (parse_addr (x ∷ xs)).1
      → (parse_addr (x ∷ xs)).1 ≤ 65535
      → All IsByte o.own_box_pub
      → length o.own_box_pub ≡ 32
      → await type_new_ok d.incoming ≡ (answer resp, rest)
      → valid_queue_id (Option.get_or (o.new_ok_of resp.payload) []) ≡ true
      → program o flags (name ∷ codes "new" ∷ (x ∷ xs) ∷ []) d ≡ (printed link, d')
      → program o' flags' (name' ∷ codes "chat" ∷ link ∷ []) e ≡ (chats c, e')
      → (c.dialled ≡ build_ws_url (parse_addr (x ∷ xs)).0 (parse_addr (x ∷ xs)).1)
        × (c.inbox ≡ Option.get_or (o.new_ok_of resp.payload) [])
        × (k : Contact) × (lookup (fp_hex o'.primitives o.own_box_pub) (state e').contacts ≡ some k)
        × (k.invite_url ≡ link)
  unfolding my_invite
  new_then_chat name name' x xs link d d' e e' c resp rest word low high bytes long got valid r r' =
      let inv : Invite = record {
        host = (parse_addr (x ∷ xs)).0;
        port = (parse_addr (x ∷ xs)).1;
        queue_id = Option.get_or (o.new_ok_of resp.payload) [];
        box_pub = o.own_box_pub;
      } in
      let own : link ≡ show_invite o.primitives.sha256 inv =
        run_new-my_invite o x xs link d d' resp rest got
          (program-new o flags name (x ∷ xs) link d d' r) in
      let cons = show_invite-cons o.primitives.sha256 inv in
      let shown : link ≡ b'k' ∷ cons.0 = own ∙ cons.1 in
      let parses : parse_invite o'.primitives.sha256 (b'k' ∷ cons.0) ≡ ok inv =
        rw (same, sym cons.1)
          (parse_invite-show_invite o.primitives.sha256 s inv word valid bytes low high long) in
      let chat =
        program-chat o' flags' name' (b'k' ∷ cons.0) e e' c
          (no_flag b'k' cons.0 [] (λ q. omega (arith, q))) (rw shown at r') in
      let j =
        joins o' b'k' cons.0 [] e c e' inv (run_chat_started o' (b'k' ∷ cons.0) [] e [] c e' chat)
          parses in
      (j.0, j.1, j.2, j.3, j.4 ∙ sym shown)
