-- ===== src/Tests/Saves.antt =====
-- Runs of the theorems on the atomic writes of identity/identity.go and client/state.go.
use knock.Prelude.{
  ◌≡◌, ◌≢◌, refl, Bool, true, false, some, [], ◌∷◌, Bytes, codes, eq_bytes, eq_bytes_iff, lookup,
}
use knock.Files.{Disk, Call, renaming, Log, failed, Os, private_file, unwritten, save_to_file}
use knock.Files.Atomic.{After, IsFinal, IsHeld, save_to_file-After}
use knock.Files.Ends.{IsCalm, save_to_file-leaves_temp}

abbrev pub home_path : Bytes
home_path = codes "knock/identity.json"

abbrev pub temp_path : Bytes
temp_path = codes "knock/identity-1.tmp"

-- No call fails, or only the rename.
abbrev pub calm_os : Os
calm_os = record { fails = λ c. false; temp = temp_path; torn = [] }

abbrev only_rename : Call → Bool
only_rename renaming = true
only_rename _ = false

abbrev no_rename_os : Os
no_rename_os = record { fails = only_rename; temp = temp_path; torn = [] }

pub apart : temp_path ≢ home_path
unfolding eq_bytes
apart e =
    let same : eq_bytes temp_path home_path ≡ true = (eq_bytes_iff temp_path home_path).1 e in cc

pub calm_os-IsCalm : IsCalm calm_os
calm_os-IsCalm = record { dir = refl; create = refl; encode = refl; close = refl; chmod = refl }

no_rename_os-IsCalm : IsCalm no_rename_os
no_rename_os-IsCalm = record {
  dir = refl;
  create = refl;
  encode = refl;
  close = refl;
  chmod = refl;
}

abbrev old_disk : Disk
old_disk = (home_path, private_file (codes "old")) ∷ []

save_to_file-After_example :
    After
      (IsFinal calm_os home_path (codes "new") old_disk apart)
      (IsHeld calm_os home_path (codes "new") old_disk apart)
      (save_to_file calm_os home_path (codes "new") (unwritten old_disk))
save_to_file-After_example = save_to_file-After calm_os home_path (codes "new") old_disk apart

save_to_file-leaves_temp_example :
    (l : Log) × (save_to_file no_rename_os home_path (codes "new") (unwritten old_disk) ≡ failed l)
    × (lookup temp_path l.disk ≡ some (private_file (codes "new")))
save_to_file-leaves_temp_example =
    save_to_file-leaves_temp no_rename_os home_path (codes "new") old_disk no_rename_os-IsCalm refl
