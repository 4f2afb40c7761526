-- ===== src/Tests/Chats.antt =====
-- Runs of the theorems on client/pumps.go: a message that comes twice.
use knock.Prelude.{ℕ, ◌≡◌, refl, Option, none, List, [], ◌∷◌, ◌++◌, Bytes, codes}
use knock.Prelude.Int.{ℤ}
use knock.Protocol.Envelope.{Envelope, type_deliver, decoded}
use knock.Client.Pumps.{message, started, Turn, reads, types, writes, turn, chat}
use knock.Client.Pumps.Signing.{acks, signature}
use knock.Client.Pumps.Once.{IsOnce, chat-IsOnce}
use knock.Client.Pumps.Deliver.{deliver_new}
use knock.Tests.{json, queue_a, command}

-- A reader of payloads that takes the whole payload for the text, and no payload for an error.
abbrev whole : Option Bytes → Option Bytes
whole p = p

abbrev no_error : Option Bytes → Option (ℤ × Bytes)
no_error p = none

abbrev delivery : Envelope
delivery = command type_deliver queue_a (codes "message1")

abbrev twice : List (ℕ × Turn)
twice =
    (100, reads (decoded delivery))
    ∷ (101, types none (codes "hi"))
    ∷ (102, writes)
    ∷ (103, reads (decoded delivery))
    ∷ []

chat-IsOnce_example : IsOnce (chat json whole no_error queue_a twice started)
chat-IsOnce_example = chat-IsOnce json whole no_error queue_a twice

deliver_new_example :
    (acks (turn json whole no_error 100 queue_a (reads (decoded delivery)) started)
      ≡ [] ++ signature json 100 delivery ∷ [])
    × ((turn json whole no_error 100 queue_a (reads (decoded delivery)) started).screen
        ≡ [] ++ message (codes "{}") ∷ [])
deliver_new_example =
    deliver_new json whole no_error 100 queue_a delivery (codes "{}") started refl refl refl refl
      refl
