-- ===== src/Tests.antt =====
-- Data for the tests: a writer of JSON texts, a quiet world, queue ids and messages.
pub mod Ids
pub mod Tables
pub mod Commands
pub mod Runs
pub mod Acks
pub mod Inputs
pub mod Chats
pub mod Invites
pub mod Saves
pub mod Keys
pub mod Identities
pub mod Starts
pub mod Offline
pub mod Lives
pub mod Lasting
pub mod Vectors
pub mod Pairs
pub mod Joins
use knock.Prelude.{
  ℕ, ◌≡◌, refl, Bool, true, false, Option, none, some, List, [], ◌∷◌, ◌++◌, Bytes, codes,
}
use knock.Prelude.Int.{pos}
use knock.Protocol.Envelope.{
  Envelope, Payload, nothing, raw, chat_message, ack_message, new_ok_message, error_message, IsOwn,
  Json, struct_text, type_sub, type_send, type_ack,
}
use knock.Server.Store.{Store, QueueRow, StoredMessage, MessageRow, Faults}
use knock.Server.Run.{Run, ok, panic}
use knock.Server.Hub.State.{Hub, World}

-- It takes every text but the empty one for JSON, and does not escape.
abbrev pub compact_text : Bytes → Option Bytes
compact_text [] = none
compact_text (c ∷ s) = some (c ∷ s)

pub compact_text_idem : (b c : Bytes) → compact_text b ≡ some c → compact_text c ≡ some c
compact_text_idem [] c e = cc
compact_text_idem (x ∷ b) [] e = cc
compact_text_idem (x ∷ b) (y ∷ c) e = refl

abbrev pub quoted : Bytes → Bytes
quoted s = codes "\"" ++ (s ++ codes "\"")

pub compact_text-own :
    (p : Payload) → IsOwn p → compact_text (struct_text quoted p) ≡ some (struct_text quoted p)
unfolding struct_text
compact_text-own nothing h = refl
compact_text-own (raw none) h = refl
compact_text-own (raw (some b)) h = elim h [ ]
compact_text-own (chat_message t) h = refl
compact_text-own (ack_message mid) h = refl
compact_text-own (new_ok_message qid) h = refl
compact_text-own (error_message code m) h = refl

abbrev pub json : Json
json = record {
  quote = quoted;
  compact = compact_text;
  compact-nil = refl;
  compact_idem = compact_text_idem;
  compact-own = compact_text-own;
}

abbrev pub calm : Faults
calm s = false

abbrev pub noon : World
noon = record { now = 5000; random = none; faults = calm }

abbrev pub queue_a : Bytes
queue_a = codes "0123456789abcdef0123456789abcdef"

abbrev pub queue_b : Bytes
queue_b = codes "fedcba9876543210fedcba9876543210"

abbrev pub row_a : QueueRow
row_a = record { qid = queue_a; created_at = 100; last_active = 100 }

abbrev pub row_b : QueueRow
row_b = record { qid = queue_b; created_at = 100; last_active = 4900 }

abbrev pub hello : StoredMessage
hello = record { mid = codes "message1"; qid = queue_a; payload = codes "{}"; ts = 4000 }

abbrev pub hello_row : MessageRow
hello_row = record { message = hello; delivered = false; delivered_at = none }

abbrev pub tables : Store
tables = record { queues = row_a ∷ row_b ∷ []; messages = hello_row ∷ [] }

abbrev pub command : Bytes → Bytes → Bytes → Envelope
command t qid mid = record {
  version = pos 1;
  msg_type = t;
  queue_id = qid;
  msg_id = mid;
  ts = pos 0;
  payload = some (codes "{}");
}

-- What a run returns, and a given hub where it panics.
abbrev pub returned : Hub → Run Hub → Hub
returned h (ok g) = g
returned h (panic p) = h
