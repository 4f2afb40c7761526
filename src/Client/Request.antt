-- ===== src/Client/Request.antt =====
-- client/session.go: request, dialAddr and saveState, and what they meet. The frames of the server
-- come in their order up to the error that ends the wait; `Outside` says which calls succeed.
pub mod Waits
pub mod Answers
use mathlib.Core.Option
use knock.Prelude.{
  ℕ, ◌≡◌, Bool, true, false, not, ◌&&◌, Option, none, some, List, [], ◌∷◌, ◌++◌, Bytes, codes,
  eq_bytes, ltb, length, if◌then◌else◌, any, get_elem?, lookup, insert,
}
use knock.Prelude.Int.{ℤ, pos, negsuc}
use knock.Protocol.Envelope.{
  Envelope, nothing, Json, new_envelope, type_new, type_new_ok, type_sub, type_sub_ok, type_error,
  Decoded, Parsed, accepted, refused, parse,
}
use knock.Protocol.Invite
use knock.Protocol.Invite.{Invite, Refusal, Outcome, ok, show_invite, parse_invite}
use knock.Server.Channel.{encode}
use knock.Crypto.{Primitives, fp_hex}
use knock.Client.State.{
  Contact, State, FileState, load_state, file_of, upsert_contact, sorted_contacts,
}
use knock.Client.Address.{parse_addr, build_ws_url, valid_qid, is_index, to_index}

-- The errors of runChat and runNew, and their panics.
pub data Trouble : Type 0 where
  bad_link : Refusal → Trouble
  server_refused : Envelope → Trouble
  not_connected bad_queue not_saved not_sent no_answer bad_answer empty_queue_id no_input : Trouble
  slice_out_of_range index_out_of_range : Trouble

-- The state file. One that does not open, or is no JSON, is taken for an empty one; of one with values
-- of a wrong type Decode takes the others: `unreadable` holds what comes of it.
pub data StateFile : Type 0 where
  no_file : StateFile
  unreadable : FileState → StateFile
  holds : FileState → StateFile

abbrev pub decoded_file : StateFile → Option FileState
decoded_file no_file = none
decoded_file (unreadable f) = some f
decoded_file (holds f) = some f

-- What is still to be read from the server, what was sent to it, the state file, and the lines that the user
-- will type.
pub record Desk : Type 0 where
  pub incoming : List Decoded
  pub sent : List Envelope
  pub file : StateFile
  pub lines : List Bytes

pub data Ran (A : Type 0) : Type 0 where
  failed : Trouble → Desk → Ran A
  done : A → Desk → Ran A

abbrev pub M : Type 0 → Type 0
M A = Desk → Ran A

abbrev pub and_then : {A B : Type 0} → Ran A → (A → M B) → Ran B
and_then (failed t d) f = failed t d
and_then (done a d) f = f a d

infixl 5 ◌>>=◌ ◌>>◌
abbrev pub ◌>>=◌ : {A B : Type 0} → M A → (A → M B) → M B
◌>>=◌ m f d = and_then (m d) f

abbrev pub ◌>>◌ : {B : Type 0} → M (Unit {0}) → M B → M B
m >> k = m >>= λ _. k

abbrev pub fail : {A : Type 0} → Trouble → M A
fail t d = failed t d

abbrev pub return : {A : Type 0} → A → M A
return a d = done a d

-- The dial of a URL, the write of a frame, the save of a state, json.Unmarshal of a NEW_OK, and the clock.
pub record Outside : Type 0 where
  pub json : Json
  pub primitives : Primitives
  pub dials : Bytes → Bool
  pub writes : Envelope → Bool
  pub saves : FileState → Bool
  pub new_ok_of : Option Bytes → Option Bytes
  pub now : ℕ
  pub own_box_pub : Bytes

-- What ends the wait for an answer.
pub data Answer : Type 0 where
  answer : Envelope → Answer
  rejected : Envelope → Answer
  silent : Answer

unfoldable pub pick : Bytes → Parsed → Option Answer
pick want (refused text) = none
pick want (accepted e) =
    if eq_bytes e.msg_type type_error
    then some (rejected e)
    else if eq_bytes e.msg_type want
    then some (answer e)
    else none

unfoldable pub taken : Option Answer → Answer × List Decoded → List Decoded → Answer × List Decoded
taken none later rest = later
taken (some a) later rest = (a, rest)

-- The loop of request: frames that do not parse or are of another type are skipped.
unfoldable pub await : Bytes → List Decoded → Answer × List Decoded
await want [] = (silent, [])
await want (f ∷ fs) = taken (pick want (parse f)) (await want fs) fs

answered : Answer × List Decoded → M Envelope
answered (answer e, rest) d = done e (record d { incoming = rest })
answered (rejected e, rest) d = failed (server_refused e) (record d { incoming = rest })
answered (silent, rest) d = failed no_answer (record d { incoming = rest })

module _ (o : Outside) where
  unfoldable pub written : Option Envelope → Bytes → M Envelope
  unfolding answered
  written none want d = failed not_sent d
  written (some e) want d =
      if o.writes e
      then answered (await want d.incoming) (record d { sent = d.sent ++ e ∷ [] })
      else failed not_sent d

  -- request, for an envelope of NewEnvelope without a payload
  unfoldable pub request : Bytes → Bytes → Bytes → M Envelope
  request msg_type qid want =
      written (Option.bind (new_envelope o.json o.now msg_type qid [] nothing) (encode o.json)) want

  -- dialAddr
  unfoldable pub dial : Bytes → ℕ → M (Unit {0})
  dial host port d = if o.dials (build_ws_url host port) then done tt d else failed not_connected d

  -- saveState
  unfoldable pub save : State → M (Unit {0})
  save st d =
      if o.saves (file_of st)
      then done tt (record d { file = holds (file_of st) })
      else failed not_saved d
