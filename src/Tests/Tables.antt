-- ===== src/Tests/Tables.antt =====
-- Runs of the theorems on server/store.go.
use knock.Prelude.{
  false, eq_bytes, ℕ, ◌≡◌, refl, true, some, List, [], ◌∷◌, map, codes, select, ◌==◌,
}
use knock.Server.Store.{
  Faults, checking_keys, sweeping_delivered, Store, StoredMessage, MessageRow, sweep, undelivered,
  pending,
}
use knock.Server.Store.References.{Refers, sweep-Refers}
use knock.Server.Store.Order.{IsOrdered}
use knock.Server.Store.Sweeps.{kept, dropped, sweep_lem, undelivered_lem}
use knock.Tests.{calm, queue_a, row_b, hello_row, tables}

abbrev old_delivered : MessageRow
old_delivered = record {
  message = record { mid = codes "message2"; qid = row_b.qid; payload = codes "1"; ts = 10 };
  delivered = true;
  delivered_at = some 20;
}

abbrev full_tables : Store
full_tables = record tables { messages = hello_row ∷ old_delivered ∷ [] }

sweep_lem_example :
    sweep calm 5000 1000 1000 full_tables
    ≡ (kept 5000 1000 1000 full_tables, some (dropped 5000 1000 1000 full_tables))
sweep_lem_example = sweep_lem calm 5000 1000 1000 full_tables refl refl refl

undelivered_lem_example :
    (ms : List StoredMessage) × (undelivered calm queue_a tables ≡ some ms)
    × IsOrdered (λ m. m.ts) ms
    × ((t : ℕ)
        → select (λ m. m.ts == t) ms
          ≡ map
              (λ r. r.message)
              (select (λ r. r.ts == t) (select (pending queue_a) tables.messages)))
undelivered_lem_example = undelivered_lem calm queue_a tables refl

-- The first queue has not been used for a week; no statement of the sweep checks foreign keys, and the last
-- one fails.
abbrev lax : Faults
lax checking_keys = true
lax sweeping_delivered = true
lax _ = false

tables-Refers : Refers full_tables
unfolding eq_bytes
tables-Refers = (refl, (refl, tt))

sweep-Refers_example : Refers (sweep lax 604901 604800 86400 full_tables).0
sweep-Refers_example = sweep-Refers lax 604901 604800 86400 full_tables tables-Refers
