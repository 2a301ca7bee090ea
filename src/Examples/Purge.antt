-- ===== src/Examples/Purge.antt =====
-- The theorems on the purge, at a table with an old sealed row and a new one.
use safe_context.Base.{◌≡◌, refl, ◌⊎◌, true, false, [], ◌∷◌, arith}
use safe_context.Store.{Text, completed, Db}
use safe_context.Evidence.{
  compute_operation_hash, compute_chain_hash, genesis_hash, last_sealed, verify_chain,
  canonical_json, uuid_text, status_text,
}
use safe_context.Evidence.Tamper.{Collision}
use safe_context.Retention.{PurgeHost, delete_operations, run_gdpr_purge}
use safe_context.Retention.Purged.{Purges, run_gdpr_purge-Purges}
use safe_context.Retention.Certified.{Certifies, run_gdpr_purge-Certifies}
use safe_context.Retention.Broken.{Preimage, delete_operations-verify_chain}
use safe_context.Examples.{test_host, test_host-IsSha256, test_operation, test_finding, test_db}
use safe_context.Store.{low}
use safe_context.Examples.Chain.{test_sealed}

-- The cutoff after one day is the moment 25, by the first reading of the clock.
abbrev test_purge : PurgeHost
test_purge = record {
  executor = "retention-purge-job";
  uuid4 = 501;
  started_at = 86400000025;
  searched_at = 86400000026;
  certified_at = 86400000027;
  hmac = λ c. b'h' ∷ [];
  stores = λ c. true;
}

abbrev first_hash : Text
first_hash =
    compute_chain_hash test_host genesis_hash
      (compute_operation_hash test_host (test_operation 5 completed 20))

abbrev second_hash : Text
second_hash =
    compute_chain_hash test_host first_hash
      (compute_operation_hash test_host (test_operation 6 completed 30))

unfoldable two_rows : Db
unfolding test_sealed
two_rows =
    test_db
      (test_sealed genesis_hash (test_operation 5 completed 20)
        ∷ test_sealed first_hash (test_operation 6 completed 30)
        ∷ [])
      (test_finding 1 5 low 4 8 ∷ [])

abbrev plain_rows : Db
plain_rows =
    test_db (test_operation 5 completed 20 ∷ test_operation 6 completed 30 ∷ [])
      (test_finding 1 5 low 4 8 ∷ [])

run_gdpr_purge-Purges_example :
    Purges test_purge 3 1 plain_rows (run_gdpr_purge test_purge 3 1 plain_rows).0
run_gdpr_purge-Purges_example =
    run_gdpr_purge-Purges test_purge 3 1 plain_rows
      (record {
        findings_belong = (refl, tt);
        redactions_belong = tt;
        redactions_of_findings = tt;
        artifacts_belong = tt;
      })
      (omega arith)

run_gdpr_purge-Certifies_example :
    Certifies test_purge 3 1 plain_rows (run_gdpr_purge test_purge 3 1 plain_rows).1
run_gdpr_purge-Certifies_example = run_gdpr_purge-Certifies test_purge 3 1 plain_rows (omega arith)

delete_operations-verify_chain_example :
    ((verify_chain test_host (delete_operations 3 25 two_rows).0.operations 3 10).valid ≡ false)
    ⊎ (Preimage test_host genesis_hash ⊎ Collision test_host)
unfolding two_rows test_sealed verify_chain test_host last_sealed genesis_hash canonical_json
    uuid_text status_text
delete_operations-verify_chain_example =
    delete_operations-verify_chain test_host test_host-IsSha256 3 25 10 two_rows first_hash
      second_hash (omega arith) refl refl refl
