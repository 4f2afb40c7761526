-- ===== src/Client/Dialogue.antt =====
-- client/session.go and runNew of client/main.go: the start of a chat, up to the pumps. The user's
-- lines come trimmed.
pub mod Queues
pub mod Choices
pub mod Peers
pub mod Started
pub mod Pairs
pub mod Fresh
pub mod Again
use mathlib.Core.Option
use knock.Prelude.{
  ℕ, ◌≡◌, Bool, true, false, not, ◌&&◌, Option, none, some, List, [], ◌∷◌, ◌++◌, Bytes, codes,
  eq_bytes, ltb, length, if◌then◌else◌, any, get_elem?, lookup, insert,
}
use knock.Prelude.Int.{ℤ, pos, negsuc}
use knock.Protocol.Envelope.{
  Envelope, nothing, Json, new_envelope, type_new, type_new_ok, type_sub, type_sub_ok, type_error,
  Decoded, Parsed, accepted, refused, parse,
}
use knock.Protocol.Invite
use knock.Protocol.Invite.{Invite, Refusal, Outcome, ok, show_invite, parse_invite}
use knock.Server.Channel.{encode}
use knock.Crypto.{Primitives, fp_hex}
use knock.Client.State.{
  Contact, State, FileState, load_state, file_of, upsert_contact, sorted_contacts,
}
use knock.Client.Address.{parse_addr, build_ws_url, valid_qid, is_index, to_index}
use knock.Client.Request.{
  decoded_file, holds, Trouble, bad_link, server_refused, not_connected, bad_queue, not_saved,
  not_sent, no_answer, bad_answer, empty_queue_id, no_input, slice_out_of_range, index_out_of_range,
  Desk, Ran, failed, done, M, and_then, ◌>>=◌, ◌>>◌, fail, return, Outside, request, dial, save,
}

pub data Chosen : Type 0 where
  no_line : Chosen
  past_end : Chosen
  chosen : Invite → Bytes → List Bytes → Chosen

pub record Chat : Type 0 where
  pub dialled : Bytes
  pub adv_host : Bytes
  pub adv_port : ℕ
  pub own_invite : Bytes
  pub outbox : Bytes
  pub inbox : Bytes

queue_id_of : Option Bytes → M Bytes
queue_id_of none = fail bad_answer
queue_id_of (some []) = fail empty_queue_id
queue_id_of (some (c ∷ cs)) = return (c ∷ cs)

entry : List Contact → ℤ → Option Bytes
entry cs (negsuc n) = none
entry cs (pos i) = Option.map (λ (c : Contact). c.invite_url) (get_elem? cs i)

-- The link that a line stands for; none where a slice is indexed past its end.
pub link_of : List Contact → Bytes → Option Bytes
unfolding entry
link_of (c ∷ cs) [] = some c.invite_url
link_of cs input = if is_index input (length cs) then entry cs (to_index input) else some input

parsed : Bytes → Outcome Invite → List Bytes → Chosen → Chosen
parsed link (Invite.ok inv) lines later = chosen inv link lines
parsed link (Invite.refused r) lines later = later

met : Chosen → M (Invite × Bytes)
met no_line d = failed no_input (record d { lines = [] })
met past_end d = failed index_out_of_range d
met (chosen inv link rest) d = done (inv, link) (record d { lines = rest })

named : Bytes → Outcome Invite → M (Option (Invite × Bytes))
named link (Invite.ok inv) = return (some (inv, link))
named link (Invite.refused r) = fail (bad_link r)

-- The link's server before the one of the flag, and localhost last.
unfoldable pub server_of : Bytes → Option (Invite × Bytes) → Bytes × ℕ
server_of server (some (inv, link)) = (inv.host, inv.port)
server_of [] none = (codes "localhost", 8080)
server_of (c ∷ cs) none = parse_addr (c ∷ cs)

module _ (o : Outside) where
  new_queue : Bytes → State → M Bytes
  unfolding request save queue_id_of
  new_queue host st = do
    resp ← request o type_new [] type_new_ok
    qid ← queue_id_of (o.new_ok_of resp.payload)
    save o (record st { outbox = insert host qid st.outbox })
    return qid

  reuse : Bytes → State → Option Bytes → M Bytes
  unfolding new_queue
  reuse host st none d = new_queue host st d
  reuse host st (some q) d = if valid_qid q then done q d else new_queue host st d

  given_queue : Bytes → State → Bytes → M Bytes
  unfolding save
  given_queue host st q d =
      if eq_bytes (Option.get_or (lookup host st.outbox) []) q
      then done q d
      else (save o (record st { outbox = insert host q st.outbox }) >> return q) d

  -- The queue of one's own: the one that is given, that of the state file, or a new one.
  pub own_queue : Bytes → Bytes → M Bytes
  unfolding reuse given_queue
  own_queue host [] d =
      reuse host (load_state (decoded_file d.file))
        (lookup host (load_state (decoded_file d.file)).outbox) d
  own_queue host (c ∷ cs) d =
      if valid_qid (c ∷ cs)
      then given_queue host (load_state (decoded_file d.file)) (c ∷ cs) d
      else failed bad_queue d

  tried : Option Bytes → List Bytes → Chosen → Chosen
  unfolding parsed
  tried none lines later = past_end
  tried (some link) lines later = parsed link (parse_invite o.primitives.sha256 link) lines later

  -- The loop over the user's lines, until one leads to an invitation.
  pub choose : List Contact → List Bytes → Chosen
  unfolding tried
  choose cs [] = no_line
  choose cs (line ∷ lines) = let later = choose cs lines in tried (link_of cs line) lines later

  -- The list of contacts shows the first eight digits of each fingerprint.
  ask : List Contact → M (Invite × Bytes)
  unfolding choose met
  ask cs d =
      if any (λ (c : Contact). ltb (length c.fingerprint) 8) cs
      then failed slice_out_of_range d
      else met (choose cs d.lines) d

  pub meet : Option (Invite × Bytes) → M (Invite × Bytes)
  unfolding ask
  meet none d = ask (sorted_contacts (load_state (decoded_file d.file))) d
  meet (some peer) d = done peer d

  -- The peer of the command line.
  pub name_peer : Bytes → M (Option (Invite × Bytes))
  unfolding named
  name_peer [] = return none
  name_peer (c ∷ cs) = named (c ∷ cs) (parse_invite o.primitives.sha256 (c ∷ cs))

  -- myInvite
  unfoldable pub my_invite : Bytes → ℕ → Bytes → Bytes
  my_invite host port qid =
      show_invite o.primitives.sha256
        (record { host = host; port = port; queue_id = qid; box_pub = o.own_box_pub })

  -- runChat from the dial to the start of the pumps
  pub talk : Option (Invite × Bytes) → Bytes → ℕ → Bytes → M Chat
  unfolding request dial save own_queue meet my_invite
  talk peer host port queue = do
    dial o host port
    qid ← own_queue host queue
    (inv, link) ← meet peer
    _ ← request o type_sub inv.queue_id type_sub_ok
    λ d.
        save o
          (upsert_contact (fp_hex o.primitives inv.box_pub) link o.now
            (load_state (decoded_file d.file)))
          d
    return (record {
      dialled = build_ws_url host port;
      adv_host = inv.host;
      adv_port = inv.port;
      own_invite = my_invite host port qid;
      outbox = qid;
      inbox = inv.queue_id;
    })

  unfoldable pub run_chat : Bytes → Bytes → Bytes → M Chat
  unfolding name_peer server_of talk
  run_chat link server queue = do
    peer ← name_peer link
    talk peer (server_of server peer).0 (server_of server peer).1 queue

  new_link : Bytes → ℕ → M Bytes
  unfolding request dial my_invite
  new_link host port = do
    dial o host port
    resp ← request o type_new [] type_new_ok
    return (my_invite host port (Option.get_or (o.new_ok_of resp.payload) []))

  -- runNew
  unfoldable pub run_new : Bytes → M Bytes
  unfolding new_link
  run_new [] =
      new_link (parse_addr (codes "localhost:8080")).0 (parse_addr (codes "localhost:8080")).1
  run_new (c ∷ cs) = new_link (parse_addr (c ∷ cs)).0 (parse_addr (c ∷ cs)).1
