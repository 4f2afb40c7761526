-- ===== src/Tests/Inputs.antt =====
-- Runs of the theorems on client/.
use knock.Prelude.{◌≡◌, ◌↔◌, true, All}
use knock.Protocol.Id.{valid_queue_id}
use knock.Client.Address.{valid_qid}
use knock.Client.Address.Index.{IsLowerHex, valid_qid_iff}
use knock.Tests.{queue_a}

valid_qid_iff_example :
    (valid_qid queue_a ≡ true) ↔ ((valid_queue_id queue_a ≡ true) × All IsLowerHex queue_a)
valid_qid_iff_example = valid_qid_iff queue_a
