-- ===== src/Tests/Ids.antt =====
-- Runs of the theorems on protocol/.
use knock.Prelude.{◌≡◌, refl, true, some, [], ◌∷◌, Bytes, length, arith, All, ◌↔◌}
use knock.Protocol.Id.{new_id, valid_queue_id, decode_hex}
use knock.Protocol.Id.Valid.{IsHexDigit, valid_queue_id_iff, new_id-valid_queue_id}
use knock.Tests.{queue_a}

valid_queue_id_iff_example :
    (valid_queue_id queue_a ≡ true) ↔ ((length queue_a ≡ 32) × All IsHexDigit queue_a)
valid_queue_id_iff_example = valid_queue_id_iff queue_a

abbrev dice : Bytes
dice = 0 ∷ 255 ∷ 16 ∷ 7 ∷ 1 ∷ 2 ∷ 3 ∷ 4 ∷ 200 ∷ 201 ∷ 99 ∷ 128 ∷ 127 ∷ 0 ∷ 0 ∷ 254 ∷ []

new_id-valid_queue_id_example :
    (q : Bytes) × (new_id (some dice) ≡ some q)
    × (valid_queue_id q ≡ true)
    × (decode_hex q ≡ some dice)
new_id-valid_queue_id_example = new_id-valid_queue_id dice refl (ground arith)
