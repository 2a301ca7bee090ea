-- ===== src/Examples/Chain.antt =====
-- The theorems on the evidence chain, at a table with two rows.
use safe_context.Base.{
  ◌≡◌, refl, ◌↔◌, ◌⊎◌, true, List, [], ◌∷◌, none, some, take, map, filter, is_some, All, arith,
}
use safe_context.Store.{Text, Operation, pending, completed}
use safe_context.Evidence.{
  content_of, canonical_json, uuid_text, status_text, compute_operation_hash, compute_chain_hash,
  genesis_hash, tenant_rows, verify_chain, last_sealed,
}
use safe_context.Evidence.Canonical.{SameContent, canonical_json-SameContent}
use safe_context.Evidence.Chained.{IsChained, sealed_count, unsealed_ids, verify_chain-valid}
use safe_context.Evidence.Tamper.{Collision, SameRows, verify_chain-head_commits}
use safe_context.Evidence.Edits.{Harmless, verify_chain-edits}
use safe_context.Evidence.Seal.{put_operation, seal_operation}
use safe_context.Evidence.Sealed.{seal_operation-verifies}
use safe_context.Examples.{
  test_host, test_host-IsSha256, test_operation, test_vault, test_config, test_db,
}

-- A row sealed behind the hash `prev`.
unfoldable pub test_sealed : Text → Operation → Operation
unfolding compute_chain_hash compute_operation_hash test_host
test_sealed prev op = record op {
  chain_hash = some (compute_chain_hash test_host prev (compute_operation_hash test_host op));
}

unfoldable test_rows : List Operation
unfolding test_sealed
test_rows =
    test_sealed genesis_hash (test_operation 5 completed 20) ∷ test_operation 6 pending 30 ∷ []

-- An edit that is not hashed.
abbrev unsign : Operation → Operation
unsign op = record op { event_signature = none }

verify_chain-valid_example :
    let rows = take 10 (tenant_rows test_rows 3) in
    ((verify_chain test_host test_rows 3 10).valid ≡ true ↔ IsChained test_host genesis_hash rows)
    × (IsChained test_host genesis_hash rows
        → verify_chain test_host test_rows 3 10 ≡ record {
          valid = true;
          checked = sealed_count test_host rows;
          first_broken_at = none;
          gaps = unsealed_ids test_host rows;
        })
verify_chain-valid_example = verify_chain-valid test_host test_rows 3 10

test_rows-valid : (verify_chain test_host test_rows 3 10).valid ≡ true
unfolding verify_chain test_rows test_host genesis_hash canonical_json uuid_text status_text
test_rows-valid = refl

verify_chain-edits_example :
    All
      (Harmless test_host unsign)
      (filter (λ op. is_some op.chain_hash) (take 10 (tenant_rows test_rows 3)))
unfolding verify_chain test_rows test_host genesis_hash canonical_json uuid_text status_text
verify_chain-edits_example =
    verify_chain-edits test_host test_host-IsSha256 unsign test_rows 3 10 (λ op. refl)
      ((refl, refl), ((refl, refl), tt)) refl refl

canonical_json-SameContent_example :
    SameContent
      (content_of test_host (test_operation 5 completed 20))
      (content_of test_host (unsign (test_operation 5 completed 20)))
canonical_json-SameContent_example =
    canonical_json-SameContent (content_of test_host (test_operation 5 completed 20))
      (content_of test_host (unsign (test_operation 5 completed 20))) refl

-- Two sealed rows, without a gap.
unfoldable pub test_full : List Operation
unfolding test_rows
test_full = test_sealed genesis_hash (test_operation 5 completed 20) ∷ []

verify_chain-head_commits_example :
    SameRows test_host
      (take 10 (tenant_rows test_full 3))
      (take 10 (tenant_rows (map unsign test_full) 3))
    ⊎ Collision test_host
unfolding verify_chain test_full test_host last_sealed genesis_hash canonical_json uuid_text
    status_text
verify_chain-head_commits_example =
    verify_chain-head_commits test_host test_host-IsSha256 test_full (map unsign test_full) 3 10
      refl refl refl refl refl refl

seal_operation-verifies_example :
    (verify_chain test_host
      (seal_operation test_host test_vault test_config 50
        (test_operation 6 pending 30)
        (test_db test_rows [])).1.operations
      3
      10).valid
    ≡ true
unfolding test_rows verify_chain test_host put_operation genesis_hash canonical_json uuid_text
    status_text
seal_operation-verifies_example =
    seal_operation-verifies test_host test_host-IsSha256 test_vault test_config 50
      (test_operation 6 pending 30) (test_db test_rows [])
      (test_sealed genesis_hash (test_operation 5 completed 20) ∷ []) [] 10
      (refl, ((λ e. absurd (omega (arith, e))), tt), tt, refl, tt) refl
