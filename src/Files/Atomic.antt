-- ===== src/Files/Atomic.antt =====
-- The atomic writes: what is on the disk at every moment, and at the end.
use knock.Prelude.{
  ◌≡◌, ◌≢◌, refl, sym, ◌∙◌, false, none, some, [], Bytes, eq_bytes, eq_bytes_iff, eq_bytes_refl,
  lookup, insert, erase, lookup-insert_self, lookup-insert_ne, lookup-erase, All, Bool-cases, inl,
  inr, arith,
}
use knock.Files.{
  File, Disk, Call, making_dir, creating, encoding, closing, changing_mode, renaming, removing, Log,
  Ended, failed, ended, M, and_then, Os, private_file, unwritten, call, create_temp, put, encode_to,
  remove_temp, clean, or_clean, set_private, chmod_temp, move, rename_temp, save_to_file,
  save_state,
}

-- How code that ends holds one property of the log, and code that fails another.
abbrev pub After : {A : Type 0} → (Log → Type 0) → (Log → Type 0) → Ended A → Type 0
After Q E (failed l) = E l
After Q E (ended l a) = Q l

-- A step, then what follows it.
After-then :
    {A B : Type 0} (Q R E : Log → Type 0) (r : Ended A) (k : A → M B)
    → After Q E r
    → ((a : A) (l : Log) → Q l → After R E (k a l))
    → After R E (and_then r k)
After-then Q R E (failed l) k h n = h
After-then Q R E (ended l a) k h n = n a l h

module _ (os : Os) (path : Bytes) (content : Bytes) (before : Disk) (apart : os.temp ≢ path) where
  -- The disk as it was, but for the temporary file.
  abbrev pub IsSame : Disk → Type 0
  IsSame d = (k : Bytes) → os.temp ≢ k → lookup k d ≡ lookup k before

  abbrev pub IsHeld : Log → Type 0
  IsHeld l = All IsSame l.past × IsSame l.disk

  abbrev IsReady : Log → Type 0
  IsReady l = IsHeld l × (lookup os.temp l.disk ≡ some (private_file content))

  -- A call that changes the temporary file alone.
  insert-IsSame : (file : File) (d : Disk) → IsSame d → IsSame (insert os.temp file d)
  insert-IsSame file d h k n = lookup-insert_ne os.temp k file d n ∙ h k n

  erase-IsSame : (d : Disk) → IsSame d → IsSame (erase os.temp d)
  erase-IsSame d h k n =
      let other : eq_bytes os.temp k ≡ false = ground (arith, eq_bytes_iff os.temp k) in
      rw (lookup-erase os.temp k d, other) (h k n)

  call-Held :
      (c : Call) (g : Disk → Disk) (l : Log)
      → ((d : Disk) → IsSame d → IsSame (g d))
      → IsHeld l
      → After IsHeld IsHeld (call os c g l)
  unfolding call
  call-Held c g l keep h = elim (Bool-cases (os.fails c)) [
    | inl bad ↦ rw bad h
    | inr good ↦ rw good ((h.1, h.0), keep l.disk h.1)
  ]

  encode_to-Ready : (l : Log) → IsHeld l → After IsReady IsHeld (encode_to os content l)
  unfolding encode_to put
  encode_to-Ready l h = elim (Bool-cases (os.fails encoding)) [
    | inl bad ↦ rw bad ((h.1, h.0), insert-IsSame _ l.disk h.1)
    | inr good ↦ rw good (
      ((h.1, h.0), insert-IsSame (private_file content) l.disk h.1),
      lookup-insert_self os.temp (private_file content) l.disk,
    )
  ]

  clean-Held : (r : Ended (Unit {0})) → After IsReady IsHeld r → After IsReady IsHeld (clean os r)
  unfolding clean remove_temp
  clean-Held (ended l u) h = h
  clean-Held (failed l) h = elim (Bool-cases (os.fails removing)) [
    | inl bad ↦ rw bad h
    | inr good ↦ rw good ((h.1, h.0), erase-IsSame l.disk h.1)
  ]

  closing-Ready : (l : Log) → IsReady l → After IsReady IsHeld (call os closing (λ d. d) l)
  unfolding call
  closing-Ready l h = elim (Bool-cases (os.fails closing)) [
    | inl bad ↦ rw bad h.0
    | inr good ↦ rw good (((h.0.1, h.0.0), h.0.1), h.1)
  ]

  chmod_temp-Ready : (l : Log) → IsReady l → After IsReady IsHeld (chmod_temp os l)
  unfolding chmod_temp call set_private
  chmod_temp-Ready l h = elim (Bool-cases (os.fails changing_mode)) [
    | inl bad ↦ rw bad h.0
    | inr good ↦
        rw (good, h.1)
          (
            ((h.0.1, h.0.0), insert-IsSame (private_file content) l.disk h.0.1),
            lookup-insert_self os.temp (private_file content) l.disk,
          )
  ]

  -- The disk with the new file, and nothing else that is new.
  pub record IsDone (d : Disk) : Type 0 where
    pub at_path : lookup path d ≡ some (private_file content)
    pub others : (k : Bytes) → path ≢ k → os.temp ≢ k → lookup k d ≡ lookup k before
    pub no_temp : lookup os.temp d ≡ none

  abbrev pub IsFinal : Log → Type 0
  IsFinal l = All IsSame l.past × IsDone l.disk

  renamed-IsDone :
      (d : Disk) → IsSame d → IsDone (insert path (private_file content) (erase os.temp d))
  renamed-IsDone d h = record {
    at_path = lookup-insert_self path (private_file content) (erase os.temp d);
    others = λ k n m.
        lookup-insert_ne path k (private_file content) (erase os.temp d) n ∙ erase-IsSame d h k m;
    no_temp =
        lookup-insert_ne path os.temp (private_file content) (erase os.temp d) (λ e. apart (sym e))
        ∙ rw (lookup-erase os.temp os.temp d, eq_bytes_refl os.temp);
  }

  rename_temp-Final : (l : Log) → IsReady l → After IsFinal IsHeld (rename_temp os path l)
  unfolding rename_temp call move
  rename_temp-Final l h = elim (Bool-cases (os.fails renaming)) [
    | inl bad ↦ rw bad h.0
    | inr good ↦ rw (good, h.1) ((h.0.1, h.0.0), renamed-IsDone l.disk h.0.1)
  ]

  unwritten-Held : IsHeld (unwritten before)
  unwritten-Held = (tt, λ k n. refl)

  create_temp-Held : (l : Log) → IsHeld l → After IsHeld IsHeld (create_temp os l)
  unfolding create_temp
  create_temp-Held l h = call-Held creating _ l (λ d. insert-IsSame (private_file []) d) h

  -- Until the rename a save touches the temporary file alone, and the rename puts the whole new file
  -- into its place: at every moment, and whichever calls fail, each other path holds what it held
  -- before, and if the save succeeds the path holds the new content, private to its owner, and the
  -- temporary file is gone. If it fails, the path holds what it held before.
  pub save_to_file-After : After IsFinal IsHeld (save_to_file os path content (unwritten before))
  unfolding save_to_file or_clean
  save_to_file-After =
      After-then IsHeld IsFinal IsHeld (call os making_dir (λ d. d) (unwritten before)) _
        (call-Held making_dir (λ d. d) (unwritten before) (λ d h. h) unwritten-Held)
        λ _ l₁ h₁.
          After-then IsHeld IsFinal IsHeld (create_temp os l₁) _ (create_temp-Held l₁ h₁) λ _ l₂ h₂.
            After-then IsReady IsFinal IsHeld (clean os (encode_to os content l₂)) _
              (clean-Held (encode_to os content l₂) (encode_to-Ready l₂ h₂))
              λ _ l₃ h₃.
                After-then IsReady IsFinal IsHeld (clean os (call os closing (λ d. d) l₃)) _
                  (clean-Held (call os closing (λ d. d) l₃) (closing-Ready l₃ h₃))
                  λ _ l₄ h₄.
                    After-then IsReady IsFinal IsHeld (clean os (chmod_temp os l₄)) _
                      (clean-Held (chmod_temp os l₄) (chmod_temp-Ready l₄ h₄))
                      λ _ l₅ h₅. rename_temp-Final l₅ h₅

  -- The same of the save of client/state.go.
  pub save_state-After : After IsFinal IsHeld (save_state os path content (unwritten before))
  unfolding save_state or_clean
  save_state-After =
      After-then IsHeld IsFinal IsHeld (call os making_dir (λ d. d) (unwritten before)) _
        (call-Held making_dir (λ d. d) (unwritten before) (λ d h. h) unwritten-Held)
        λ _ l₁ h₁.
          After-then IsHeld IsFinal IsHeld (create_temp os l₁) _ (create_temp-Held l₁ h₁) λ _ l₂ h₂.
            After-then IsReady IsFinal IsHeld (clean os (encode_to os content l₂)) _
              (clean-Held (encode_to os content l₂) (encode_to-Ready l₂ h₂))
              λ _ l₃ h₃.
                After-then IsReady IsFinal IsHeld (clean os (call os closing (λ d. d) l₃)) _
                  (clean-Held (call os closing (λ d. d) l₃) (closing-Ready l₃ h₃))
                  λ _ l₄ h₄. rename_temp-Final l₄ h₄
