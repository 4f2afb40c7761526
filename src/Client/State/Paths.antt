-- ===== src/Client/State/Paths.antt =====
-- client/state.go: the path of the state file.
use knock.Prelude.{◌≡◌, ◌≤◌, some, List, [], ◌∷◌, ◌++◌, Bytes, codes, length, take, All}
use knock.Protocol.Id.Valid.{IsByte}
use knock.Crypto.{Primitives, fp_hex}
use knock.Crypto.Fingerprints.{fp_hex-decodes}
use knock.Client.State.{state_path}

-- The fingerprint of a hash is never too short: there is a path once the directory is known.
pub state_path_lem :
    (join : List Bytes → Bytes) (p : Primitives) (dir box_pub : Bytes)
    → 8 ≤ length (p.sha256 box_pub)
    → All IsByte (p.sha256 box_pub)
    → state_path join p (some dir) box_pub
      ≡ some (
          join (
            dir
            ∷ codes "knock"
            ∷ (codes "state-" ++ (take 8 (fp_hex p box_pub) ++ codes ".json"))
            ∷ []))
unfolding state_path
state_path_lem join p dir box_pub long bytes = rw ((fp_hex-decodes p box_pub long bytes).0)
