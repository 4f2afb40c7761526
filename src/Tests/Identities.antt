-- ===== src/Tests/Identities.antt =====
-- Runs of the theorems on LoadOrCreate of identity/identity.go.
use knock.Prelude.{◌≡◌, ◌⊎◌, refl, true, false, some, none, [], ◌∷◌, lookup, eq_bytes, Option}
use knock.Files.{File, Disk, Log, ended, failed, private_file, unwritten}
use knock.Crypto.{Identity, zeros, generate_identity, load_identity, save}
use knock.Identity.{load_or_create}
use knock.Identity.Lasting.{load_or_create-existing, load_or_create-again}
use knock.Tests.Invites.{some_bytes}
use knock.Tests.Keys.{primitives, keys}
use knock.Tests.Saves.{calm_os, calm_os-IsCalm, home_path, apart}

abbrev saved_disk : Disk
saved_disk = (home_path, private_file (save primitives (keys (zeros 32)))) ∷ []

found : lookup home_path saved_disk ≡ some (private_file (save primitives (keys (zeros 32))))
unfolding lookup eq_bytes
found = refl

absent : ◌≡◌ {A = Option File} (lookup home_path []) none
unfolding lookup
absent = refl

load_or_create-existing_example :
    (load_or_create primitives calm_os none none home_path (unwritten saved_disk)
      ≡ failed (unwritten saved_disk))
    ⊎ ((id : Identity) × (load_identity primitives (save primitives (keys (zeros 32))) ≡ some id)
        × (load_or_create primitives calm_os none none home_path (unwritten saved_disk)
            ≡ ended (unwritten saved_disk) (id, false)))
load_or_create-existing_example =
    load_or_create-existing primitives calm_os none none home_path saved_disk
      (private_file (save primitives (keys (zeros 32)))) found

made :
    generate_identity primitives (some (zeros 32)) (some (some_bytes 64)) ≡ some (keys (zeros 32))
unfolding generate_identity
made = refl

load_or_create-again_example :
    (l : Log) × (load_or_create primitives calm_os
        (some (zeros 32))
        (some (some_bytes 64))
        home_path
        (unwritten [])
      ≡ ended l (keys (zeros 32), true))
    × (load_or_create primitives calm_os none none home_path (unwritten l.disk)
        ≡ ended (unwritten l.disk) (keys (zeros 32), false))
load_or_create-again_example =
    load_or_create-again primitives calm_os home_path apart calm_os-IsCalm refl refl refl (zeros 32)
      (some_bytes 64) (keys (zeros 32)) [] none none refl refl made absent
