-- ===== src/Protocol/Envelope.antt =====
-- protocol/envelope.go and protocol/payloads.go: the envelope of every message, its construction and
-- the checks of Parse. The JSON text of an envelope is not modelled; that of a payload is.
use knock.Prelude.{ℕ, ◌≡◌, Option, none, some, [], ◌++◌, Bytes, codes, eq_bytes, if◌then◌else◌}
use knock.Prelude.Int.{ℤ, pos, eq_int, show_nat, show_int}

abbrev pub version : ℤ
version = pos 1

-- The commands of a client.
abbrev pub type_new : Bytes
type_new = codes "NEW"

abbrev pub type_sub : Bytes
type_sub = codes "SUB"

abbrev pub type_send : Bytes
type_send = codes "SEND"

abbrev pub type_ack : Bytes
type_ack = codes "ACK"

abbrev pub type_ping : Bytes
type_ping = codes "PING"

-- The answers of the server.
abbrev pub type_new_ok : Bytes
type_new_ok = codes "NEW_OK"

abbrev pub type_sub_ok : Bytes
type_sub_ok = codes "SUB_OK"

abbrev pub type_deliver : Bytes
type_deliver = codes "DELIVER"

abbrev pub type_pong : Bytes
type_pong = codes "PONG"

abbrev pub type_error : Bytes
type_error = codes "ERROR"

abbrev pub code_bad_request : ℕ
code_bad_request = 400

abbrev pub code_queue_not_found : ℕ
code_queue_not_found = 404

abbrev pub code_server_error : ℕ
code_server_error = 500

-- `payload` is the raw JSON text, none for the nil of a frame that has no payload.
pub record Envelope : Type 0 where
  pub version : ℤ
  pub msg_type : Bytes
  pub queue_id : Bytes
  pub msg_id : Bytes
  pub ts : ℤ
  pub payload : Option Bytes

-- What callers hand to NewEnvelope: nil, a raw text, or one of the payload structs.
pub data Payload : Type 0 where
  nothing : Payload
  raw : Option Bytes → Payload
  chat_message : Bytes → Payload
  ack_message : Bytes → Payload
  new_ok_message : Bytes → Payload
  error_message : ℕ → Bytes → Payload

-- The JSON object of a struct with one field.
field : Bytes → Bytes → Bytes
field key value = codes "{" ++ (key ++ (codes ":" ++ (value ++ codes "}")))

-- `quote` is the JSON text of a string.
unfoldable pub struct_text : (Bytes → Bytes) → Payload → Bytes
unfolding field
struct_text quote nothing = codes "{}"
struct_text quote (raw none) = codes "null"
struct_text quote (raw (some b)) = b
struct_text quote (chat_message text) = field (quote (codes "text")) (quote text)
struct_text quote (ack_message mid) = field (quote (codes "mid")) (quote mid)
struct_text quote (new_ok_message qid) = field (quote (codes "qid")) (quote qid)
struct_text quote (error_message code message) =
    codes "{"
    ++ (quote (codes "code")
        ++ (codes ":"
            ++ (show_nat code
                ++ (codes ","
                    ++ (quote (codes "message") ++ (codes ":" ++ (quote message ++ codes "}")))))))

-- A payload whose text the program writes itself.
abbrev pub IsOwn : Payload → Type 0
IsOwn (raw (some _)) = ⊥
IsOwn _ = Unit

-- encoding/json as far as payloads need it: `quote` writes a string, `compact` copies a raw text
-- without its white space and refuses what is no JSON.
pub record Json : Type 0 where
  pub quote : Bytes → Bytes
  pub compact : Bytes → Option Bytes
  pub compact-nil : compact [] ≡ none
  pub compact_idem : (b c : Bytes) → compact b ≡ some c → compact c ≡ some c
  pub compact-own :
      (p : Payload) → IsOwn p → compact (struct_text quote p) ≡ some (struct_text quote p)

-- The envelope around a payload that is marshalled already.
abbrev pub sealed : ℕ → Bytes → Bytes → Bytes → Bytes → Envelope
sealed now msg_type qid mid b = record {
  version = version;
  msg_type = msg_type;
  queue_id = qid;
  msg_id = mid;
  ts = pos now;
  payload = some b;
}

module _ (j : Json) where
  -- json.Marshal of a payload
  unfoldable pub marshal : Payload → Option Bytes
  marshal (raw (some b)) = j.compact b
  marshal p = some (struct_text j.quote p)

  build : ℕ → Bytes → Bytes → Bytes → Option Bytes → Option Envelope
  build now msg_type qid mid none = none
  build now msg_type qid mid (some b) = some (sealed now msg_type qid mid b)

  unfoldable pub new_envelope : ℕ → Bytes → Bytes → Bytes → Payload → Option Envelope
  unfolding build marshal
  new_envelope now msg_type qid mid payload = build now msg_type qid mid (marshal payload)

-- What json.Unmarshal makes of a frame: the text of its error, or an envelope.
pub data Decoded : Type 0 where
  malformed : Bytes → Decoded
  decoded : Envelope → Decoded

pub data Parsed : Type 0 where
  accepted : Envelope → Parsed
  refused : Bytes → Parsed

check : Envelope → Parsed
check e =
    if eq_int e.version version
    then if eq_bytes e.msg_type [] then refused (codes "missing type") else accepted e
    else refused
        (codes "unsupported protocol version " ++ (show_int e.version ++ codes " (want 1)"))

unfoldable pub parse : Decoded → Parsed
unfolding check
parse (malformed text) = refused (codes "invalid json: " ++ text)
parse (decoded e) = check e
