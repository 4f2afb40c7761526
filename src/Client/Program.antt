-- ===== src/Client/Program.antt =====
-- client/main.go: the command line of the client. The package flag is a parameter; what is printed on the
-- standard output is part of the ending, other texts are left out.
pub mod Joining
use knock.Prelude.{Bool, Option, none, some, List, [], ◌∷◌, Bytes, codes, eq_bytes, if◌then◌else◌}
use knock.Client.Request.{Trouble, Desk, Ran, failed, done, Outside}
use knock.Client.Dialogue.{Chat, run_chat, run_new}

-- A link is printed, a chat goes on in its pumps, or the process exits with 1 or, for a bad flag, 2.
pub data Ending : Type 0 where
  printed : Bytes → Ending
  chats : Chat → Ending
  stops : Trouble → Ending
  shows_usage bad_flag : Ending

-- What the flag set of `chat` gives: its two flags, and the arguments behind them.
pub record Flags : Type 0 where
  pub server : Bytes
  pub queue : Bytes
  pub rest : List Bytes

abbrev pub first_or_empty : List Bytes → Bytes
first_or_empty [] = []
first_or_empty (a ∷ args) = a

abbrev pub ending : {A : Type 0} → (A → Ending) → Ran A → Ending × Desk
ending f (failed t d) = (stops t, d)
ending f (done a d) = (f a, d)

module _ (o : Outside) (parse_flags : List Bytes → Option Flags) where
  start_chat : Option Flags → Desk → Ending × Desk
  start_chat none d = (bad_flag, d)
  start_chat (some f) d = ending chats (run_chat o (first_or_empty f.rest) f.server f.queue d)

  -- main, on os.Args
  unfoldable pub program : List Bytes → Desk → Ending × Desk
  unfolding start_chat
  program [] d = (shows_usage, d)
  program (name ∷ []) d = (shows_usage, d)
  program (name ∷ command ∷ args) d =
      if eq_bytes command (codes "new")
      then ending printed (run_new o (first_or_empty args) d)
      else if eq_bytes command (codes "chat")
      then start_chat (parse_flags args) d
      else (shows_usage, d)
