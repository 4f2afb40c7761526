-- ===== src/Files.antt =====
-- The files of package os as identity/identity.go and client/state.go use them: an atomic write goes to a
-- temporary file that is then renamed. Any call may fail. Every state of the disk is kept, since
-- the power may go at any time.
pub mod Atomic
pub mod Ends
use knock.Prelude.{
  ℕ, ◌*◌, Bool, true, false, Option, none, some, List, [], ◌∷◌, Bytes, if◌then◌else◌, Map, lookup,
  insert, erase,
}

pub record File : Type 0 where
  pub content : Bytes
  pub mode : ℕ

abbrev pub Disk : Type 0
Disk = Map File

pub data Call : Type 0 where
  making_dir creating encoding closing changing_mode renaming removing statting opening : Call

-- The disk, and the states that it was in before, the last one in front.
pub record Log : Type 0 where
  pub disk : Disk
  pub past : List Disk

-- Code that changes the disk ends with an error or with a value.
pub data Ended (A : Type 0) : Type 0 where
  failed : Log → Ended A
  ended : Log → A → Ended A

abbrev pub M : Type 0 → Type 0
M A = Log → Ended A

abbrev pub and_then : {A B : Type 0} → Ended A → (A → M B) → Ended B
and_then (failed l) f = failed l
and_then (ended l a) f = f a l

infixl 5 ◌>>=◌ ◌>>◌
abbrev pub ◌>>=◌ : {A B : Type 0} → M A → (A → M B) → M B
◌>>=◌ m f l = and_then (m l) f

abbrev pub ◌>>◌ : {B : Type 0} → M (Unit {0}) → M B → M B
m >> k = m >>= λ _. k

abbrev pub moved : (Disk → Disk) → Log → Log
moved g l = record { disk = g l.disk; past = l.disk ∷ l.past }

-- What the environment does to a save: which calls fail, the name of the temporary file, and what of
-- the content reaches it when the encoder fails.
pub record Os : Type 0 where
  pub fails : Call → Bool
  pub temp : Bytes
  pub torn : Bytes

-- 0o600 and the mode of os.CreateTemp
abbrev pub private_mode : ℕ
private_mode = 6 * 64

-- A file for its owner alone, and the log before a save.
abbrev pub private_file : Bytes → File
private_file s = record { content = s; mode = private_mode }

abbrev pub unwritten : Disk → Log
unwritten d = record { disk = d; past = [] }

module _ (os : Os) where
  -- A call with its effect; a call that fails has none.
  pub call : Call → (Disk → Disk) → M (Unit {0})
  call c g l = if os.fails c then failed l else ended (moved g l) tt

  -- os.CreateTemp
  pub create_temp : M (Unit {0})
  unfolding call
  create_temp = call creating (insert os.temp (private_file []))

  put : Bytes → Disk → Disk
  put s = insert os.temp (private_file s)

  -- json.NewEncoder(tmp).Encode(…), which may fail half way.
  pub encode_to : Bytes → M (Unit {0})
  unfolding put
  encode_to s l =
      if os.fails encoding then failed (moved (put os.torn) l) else ended (moved (put s) l) tt

  -- os.Remove(tmpName), whose error is ignored.
  remove_temp : Log → Log
  remove_temp l = if os.fails removing then l else moved (erase os.temp) l

  clean : Ended (Unit {0}) → Ended (Unit {0})
  unfolding remove_temp
  clean (failed l) = failed (remove_temp l)
  clean (ended l u) = ended l u

  -- A step after whose error the temporary file is removed.
  pub or_clean : M (Unit {0}) → M (Unit {0})
  unfolding clean
  or_clean m l = clean (m l)

  set_private : Option File → Disk → Disk
  set_private none d = d
  set_private (some file) d = insert os.temp (record file { mode = private_mode }) d

  -- os.Chmod(tmpName, 0o600)
  pub chmod_temp : M (Unit {0})
  unfolding call set_private
  chmod_temp = call changing_mode (λ d. set_private (lookup os.temp d) d)

  move : Option File → Bytes → Disk → Disk
  move none path d = d
  move (some file) path d = insert path file (erase os.temp d)

  -- os.Rename(tmpName, path)
  pub rename_temp : Bytes → M (Unit {0})
  unfolding call move
  rename_temp path = call renaming (λ d. move (lookup os.temp d) path d)

  -- SaveToFile of identity/identity.go
  pub save_to_file : Bytes → Bytes → M (Unit {0})
  unfolding call create_temp encode_to or_clean chmod_temp rename_temp
  save_to_file path content = do
    call making_dir (λ d. d)
    create_temp
    or_clean (encode_to content)
    or_clean (call closing (λ d. d))
    or_clean chmod_temp
    rename_temp path

  -- saveState of client/state.go
  pub save_state : Bytes → Bytes → M (Unit {0})
  unfolding call create_temp encode_to or_clean rename_temp
  save_state path content = do
    call making_dir (λ d. d)
    create_temp
    or_clean (encode_to content)
    or_clean (call closing (λ d. d))
    rename_temp path
