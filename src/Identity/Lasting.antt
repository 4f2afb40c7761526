-- ===== src/Identity/Lasting.antt =====
-- identity/identity.go: an identity is made once, and never overwritten.
use knock.Prelude.{
  ◌≡◌, ◌≢◌, ◌⊎◌, inl, inr, true, false, Option, none, some, Bytes, length, lookup, Bool-cases,
  Option-cases,
}
use knock.Files.{File, Disk, Log, failed, ended, Os, renaming, statting, opening, unwritten}
use knock.Files.Ends.{IsCalm, save_to_file-IsDone}
use knock.Crypto.{Primitives, Identity, generate_identity, save, load_identity}
use knock.Crypto.Agreement.{generate_identity-IsOwnIdentity, load_identity-save}
use knock.Identity.{loaded, created, stated, load_or_create}

module _ (p : Primitives) (os : Os) (random key : Option Bytes) (path : Bytes) where
  -- Whatever happens, a file at the path is not changed, nor anything else on the disk: LoadOrCreate
  -- fails, or it returns the identity in the file and says that it is not new.
  pub load_or_create-existing :
      (d : Disk) (file : File)
      → lookup path d ≡ some file
      → (load_or_create p os random key path (unwritten d) ≡ failed (unwritten d))
        ⊎ ((id : Identity) × (load_identity p file.content ≡ some id)
            × (load_or_create p os random key path (unwritten d) ≡ ended (unwritten d) (id, false)))
  unfolding load_or_create stated loaded
  load_or_create-existing d file e = elim (Bool-cases (os.fails statting)) [
    | inl bad ↦ inl (rw bad)
    | inr good ↦ elim (Bool-cases (os.fails opening)) [
      | inl bad ↦ inl (rw (good, e, bad))
      | inr opens ↦ elim (Option-cases (load_identity p file.content)) [
        | inl damaged ↦ inl (rw (good, e, opens, damaged))
        | inr (id, l) ↦ inr (id, l, rw (good, e, opens, l))
      ]
    ]
  ]

module _ (p : Primitives) (os : Os) (path : Bytes) (apart : os.temp ≢ path) (calm : IsCalm os)
    (renames : os.fails renaming ≡ false) (stats : os.fails statting ≡ false)
    (opens : os.fails opening ≡ false) where
  -- If no call fails and the curve takes the new key, LoadOrCreate on a path without a file makes an
  -- identity and saves it, and every later LoadOrCreate with the disk as it then is returns the same
  -- identity as not new, whatever random bytes it has.
  pub load_or_create-again :
      (bp sp : Bytes) (id : Identity) (d : Disk) (random key : Option Bytes)
      → length bp ≡ 32
      → length sp ≡ 64
      → generate_identity p (some bp) (some sp) ≡ some id
      → lookup path d ≡ none
      → (l : Log) × (load_or_create p os (some bp) (some sp) path (unwritten d)
          ≡ ended l (id, true))
        × (load_or_create p os random key path (unwritten l.disk)
            ≡ ended (unwritten l.disk) (id, false))
  unfolding load_or_create stated loaded created
  load_or_create-again bp sp id d random key long_b long_s g fresh =
      let own = generate_identity-IsOwnIdentity p bp sp id long_b long_s g in
      let saved = save_to_file-IsDone os path (save p id) d calm apart renames in
      (
        saved.0,
        rw (stats, fresh, g, saved.1),
        rw (stats, saved.2.at_path, opens, load_identity-save p id own),
      )
