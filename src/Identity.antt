-- ===== src/Identity.antt =====
-- identity/identity.go: where the identity is, and LoadOrCreate. SaveToFile is in Files, and the
-- variables of the environment and package filepath are parameters.
pub mod Lasting
use knock.Prelude.{
  Bool, true, false, Option, none, some, List, [], ◌∷◌, Bytes, codes, if◌then◌else◌, lookup,
}
use knock.Files.{File, Log, M, failed, ended, ◌>>=◌, Os, statting, opening, save_to_file}
use knock.Crypto.{Primitives, Identity, generate_identity, save, load_identity}

in_config_dir : (List Bytes → Bytes) → Option Bytes → Option Bytes
in_config_dir join none = none
in_config_dir join (some dir) = some (join (dir ∷ codes "knock" ∷ codes "identity.json" ∷ []))

-- DefaultPath, from the variable KNOCK_IDENTITY and from os.UserConfigDir.
unfoldable pub default_path : (List Bytes → Bytes) → Bytes → Option Bytes → Option Bytes
unfolding in_config_dir
default_path join [] config_dir = in_config_dir join config_dir
default_path join (c ∷ cs) config_dir = some (c ∷ cs)

module _ (p : Primitives) (os : Os) where
  loaded : Option Identity → M (Identity × Bool)
  loaded none l = failed l
  loaded (some id) l = ended l (id, false)

  created : Bytes → Option Identity → M (Identity × Bool)
  created path none l = failed l
  created path (some id) l = (save_to_file os path (save p id) >>= λ _ l'. ended l' (id, true)) l

  -- What follows os.Stat, by the file at the path.
  stated : Option Bytes → Option Bytes → Bytes → Option File → M (Identity × Bool)
  unfolding loaded created
  stated random key path none l = created path (generate_identity p random key) l
  stated random key path (some file) l =
      if os.fails opening then failed l else loaded (load_identity p file.content) l

  -- LoadOrCreate: the identity, and if it is new. `random` and `key` are for GenerateIdentity.
  unfoldable pub load_or_create : Option Bytes → Option Bytes → Bytes → M (Identity × Bool)
  unfolding stated
  load_or_create random key path l =
      if os.fails statting then failed l else stated random key path (lookup path l.disk) l

  at_path : Option Bytes → Option Bytes → Option Bytes → M (Identity × Bool)
  unfolding load_or_create
  at_path random key none l = failed l
  at_path random key (some path) l = load_or_create random key path l

  -- loadMyIdentity of client/main.go
  unfoldable pub load_my_identity :
      (List Bytes → Bytes)
      → Bytes
      → Option Bytes
      → Option Bytes
      → Option Bytes
      → M (Identity × Bool)
  unfolding at_path
  load_my_identity join variable config_dir random key =
      at_path random key (default_path join variable config_dir)
