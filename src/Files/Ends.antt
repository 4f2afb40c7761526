-- ===== src/Files/Ends.antt =====
-- The atomic writes: when they succeed, and what a failed rename leaves behind.
use knock.Prelude.{
  ◌≡◌, ◌≢◌, ◌∙◌, true, false, some, [], Bytes, lookup, insert, erase, lookup-insert_self,
}
use knock.Files.{
  Disk, making_dir, creating, encoding, closing, changing_mode, renaming, Log, Ended, failed, ended,
  moved, Os, private_file, unwritten, call, create_temp, put, encode_to, clean, or_clean,
  set_private, chmod_temp, move, rename_temp, save_to_file, save_state,
}
use knock.Files.Atomic.{IsDone, IsFinal, IsHeld, After, save_to_file-After, save_state-After}

-- No call before the rename fails.
pub record IsCalm (os : Os) : Type 0 where
  pub dir : os.fails making_dir ≡ false
  pub create : os.fails creating ≡ false
  pub encode : os.fails encoding ≡ false
  pub close : os.fails closing ≡ false
  pub chmod : os.fails changing_mode ≡ false

module _ (os : Os) (path content : Bytes) (before : Disk) (c : IsCalm os) where
  -- The log when the temporary file is closed, and when its mode is set.
  abbrev closed : Log
  closed =
      moved (λ d. d)
        (moved (put os content)
          (moved (insert os.temp (private_file [])) (moved (λ d. d) (unwritten before))))

  abbrev made_private : Log
  made_private = moved (λ d. set_private os (lookup os.temp d) d) closed

  closed-temp : lookup os.temp closed.disk ≡ some (private_file content)
  unfolding put
  closed-temp = lookup-insert_self os.temp (private_file content) _

  made_private-temp : lookup os.temp made_private.disk ≡ some (private_file content)
  unfolding set_private
  made_private-temp = rw closed-temp (lookup-insert_self os.temp (private_file content) _)

  save_to_file-rename :
      save_to_file os path content (unwritten before) ≡ rename_temp os path made_private
  unfolding save_to_file call create_temp encode_to or_clean clean chmod_temp
  save_to_file-rename = rw (c.dir, c.create, c.encode, c.close, c.chmod)

  save_state-rename : save_state os path content (unwritten before) ≡ rename_temp os path closed
  unfolding save_state call create_temp encode_to or_clean clean
  save_state-rename = rw (c.dir, c.create, c.encode, c.close)

  renamed : Log → Log
  renamed l = moved (λ d. insert path (private_file content) (erase os.temp d)) l

  rename_temp-renamed :
      (l : Log)
      → os.fails renaming ≡ false
      → lookup os.temp l.disk ≡ some (private_file content)
      → rename_temp os path l ≡ ended (renamed l) tt
  unfolding rename_temp call move renamed
  rename_temp-renamed l r e = rw (r, e)

  module _ (apart : os.temp ≢ path) (r : os.fails renaming ≡ false) where
    final_disk :
        (e : Ended (Unit {0})) (l : Log)
        → e ≡ ended l tt
        → After (IsFinal os path content before apart) (IsHeld os path content before apart) e
        → IsDone os path content before apart l.disk
    final_disk e l q h = let h' = rw q at h in h'.1

    -- If no call fails, a save succeeds: the path holds the new content, private to its owner, the
    -- other files are as they were, and the temporary file is gone.
    pub save_to_file-IsDone :
        (l : Log) × (save_to_file os path content (unwritten before) ≡ ended l tt)
        × IsDone os path content before apart l.disk
    save_to_file-IsDone =
        let e = save_to_file-rename ∙ rename_temp-renamed made_private r made_private-temp in
        (
          renamed made_private,
          e,
          final_disk _ _ e (save_to_file-After os path content before apart),
        )

    -- The same of the save of client/state.go.
    pub save_state-IsDone :
        (l : Log) × (save_state os path content (unwritten before) ≡ ended l tt)
        × IsDone os path content before apart l.disk
    save_state-IsDone =
        let e = save_state-rename ∙ rename_temp-renamed closed r closed-temp in
        (renamed closed, e, final_disk _ _ e (save_state-After os path content before apart))

  -- When only the rename fails, the save fails and leaves the temporary file with the whole content.
  pub save_to_file-leaves_temp :
      os.fails renaming ≡ true
      → (l : Log) × (save_to_file os path content (unwritten before) ≡ failed l)
        × (lookup os.temp l.disk ≡ some (private_file content))
  save_to_file-leaves_temp r =
      (made_private, save_to_file-rename ∙ (unfold rename_temp call in rw r), made_private-temp)
