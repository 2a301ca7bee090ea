-- ===== src/Examples/Decisions.antt =====
-- The theorems on human review, at an operation with two findings.
use safe_context.Base.{not, suc, ◌≡◌, ◌≤◌, refl, true, false, [], ◌∷◌, some, length}
use safe_context.Store.{Operation, escalated, completed, low, Db}
use safe_context.Agents.{find_operation, findings_of}
use safe_context.Review.{Actor, Backend, redactions_of, approval, approve_locked}
use safe_context.Review.Decisions.{approve_locked-counts}
use safe_context.Examples.{
  test_host, test_vault, test_config, test_operation, test_finding, test_findings, test_db,
}

abbrev test_sealing : Backend
test_sealing = record {
  begins = λ in_transaction. not in_transaction;
  host = test_host;
  vault = test_vault;
  audit_sign_on_write = true;
  config = test_config;
}

abbrev test_actor : Actor
test_actor = record { is_reviewer = true; is_admin = false; sub = some 8 }

abbrev open_db : Db
open_db = test_db (test_operation 5 escalated 20 ∷ []) test_findings

approve_locked-counts_example :
    (length (findings_of 5 open_db) ≤ suc (length (redactions_of 5 open_db))
      → (r : Operation) × (find_operation 5 (
            approve_locked test_sealing 60
              (test_finding 2 5 low 14 18)
              test_actor
              (test_operation 5 escalated 20)
              open_db)
          ≡ some r)
        × (r.status ≡ completed))
    × (suc (suc (length (redactions_of 5 open_db))) ≤ length (findings_of 5 open_db)
        → approve_locked test_sealing 60
            (test_finding 2 5 low 14 18)
            test_actor
            (test_operation 5 escalated 20)
            open_db
          ≡ record open_db {
            redactions =
                approval (test_finding 2 5 low 14 18) (test_operation 5 escalated 20) test_actor
                ∷ [];
          })
unfolding find_operation
approve_locked-counts_example =
    approve_locked-counts test_sealing 60 (test_finding 2 5 low 14 18) test_actor
      (test_operation 5 escalated 20) open_db refl
