-- ===== src/Examples/Actors.antt =====
-- The theorems on the actors and the relay, at a table with one operation.
use safe_context.Base.{
  Bool, false, ◌≢◌, List, ◌++◌, All, inl, ◌≡◌, refl, inr, true, [], ◌∷◌, some, map, arith,
  if◌then◌else◌,
}
use safe_context.Store.{
  Detection, critical, Operation, pending, completed, escalated, approved, process_sanitize,
  process_review, rescan_operation, Task,
}
use safe_context.Sanitize.Masked.{masked}
use safe_context.Agents.{
  Services, World, success, skipped, raised, find_operation, find_outbox, document_of, findings_of,
}
use safe_context.Agents.Detector.{needs_review}
use safe_context.Agents.Escalation.{
  scan_findings, process_scan-routes, process_scan-critical, rescan_operation-keeps_decisions,
}
use safe_context.Agents.Completion.{audit_seal, process_audit-completes}
use safe_context.Agents.Redelivery.{process_audit-twice, process_sanitize-loses}
use safe_context.Agents.Sanitized.{mark_all, IsSent, process_sanitize-stores}
use safe_context.Agents.Archive.{
  Run, Site, begin, IsArchive, Reach-IsArchive, here, next, uploads, commits,
}
use safe_context.Agents as Agents
use safe_context.Relay.{relay_once}
use safe_context.Relay.Oldest.{Relayed, relay_once-Relayed}
use safe_context.Examples.{
  test_host, test_services, test_policy, test_operation, test_entry, test_findings, test_world,
  test_db, test_document,
}

abbrev fresh : World
fresh = test_world (test_db (test_operation 5 pending 20 ∷ []) [])

abbrev scanned : World
scanned = test_world (test_db (test_operation 5 pending 20 ∷ []) test_findings)

process_scan-routes_example :
    let w' = (Agents.Detector.process_scan test_services test_policy 5 fresh).0 in
    let review =
      needs_review test_services
        (scan_findings test_services test_policy (test_entry 1 "document.scan_requested" 5 20)) in
    (find_operation 5 w'.db ≡ some (test_operation 5 (if review then escalated else pending) 20))
    × (w'.queue ≡ (if review then process_review 5 else process_sanitize 5) ∷ [])
unfolding Agents.Detector.process_scan
process_scan-routes_example =
    process_scan-routes test_services test_policy 5 fresh refl refl refl refl

process_scan-critical_example :
    let w' = (Agents.Detector.process_scan test_services test_policy 5 fresh).0 in
    let regex = test_services.regex test_document in
    ((before after : List Detection) (d : Detection)
      → regex ≡ before ++ (d ∷ after)
      → d.severity ≡ critical
      → (find_operation 5 w'.db ≡ some (test_operation 5 escalated 20))
        × (w'.queue ≡ process_review 5 ∷ []))
    × (All (λ d. d.severity ≢ critical) regex
        → All (λ d. d.severity ≢ critical) (test_services.presidio test_policy test_document)
        → (find_operation 5 w'.db ≡ some (test_operation 5 pending 20))
          × (w'.queue ≡ process_sanitize 5 ∷ []))
unfolding Agents.Detector.process_scan
process_scan-critical_example =
    process_scan-critical test_services test_policy 5 fresh refl refl refl refl (λ s. refl)

abbrev decided : World
decided =
    test_world (
      test_db (record (test_operation 5 approved 20) { sanitized_text = some (b'x' ∷ []) } ∷ []) [])

rescan_operation-keeps_decisions_example :
    find_operation 5 (Agents.Rescan.rescan_operation test_services 5 decided).0.db
    ≡ some (record (test_operation 5 approved 20) { sanitized_text = some (b'x' ∷ []) })
unfolding find_operation
rescan_operation-keeps_decisions_example =
    rescan_operation-keeps_decisions test_services 5 5 decided refl (inr (inl refl))

process_audit-completes_example :
    ((Agents.Auditor.process_audit test_services 60 5 fresh).1 ≡ success)
    × ((s : Operation) × (find_operation 5
            (Agents.Auditor.process_audit test_services 60 5 fresh).0.db
          ≡ some s)
        × (s.status ≡ completed)
        × (s.chain_hash
            ≡ some (audit_seal test_services 60 (test_operation 5 pending 20) fresh.db)))
unfolding find_operation
process_audit-completes_example =
    process_audit-completes test_services 60 5 fresh refl refl refl refl

process_audit-twice_example :
    Agents.Auditor.process_audit test_services 90 5
      (Agents.Auditor.process_audit test_services 60 5 fresh).0
    ≡ ((Agents.Auditor.process_audit test_services 60 5 fresh).0, skipped)
unfolding Agents.Auditor.process_audit
process_audit-twice_example = process_audit-twice test_services test_services 60 90 5 fresh refl

-- A broker that refuses the message to the rescan, and one that refuses all.
abbrev half : Task → Bool
half (rescan_operation id) = false
half t = true

process_sanitize-stores_example :
    let w' = (Agents.Sanitizer.process_sanitize half 5 scanned).0 in
    (find_operation 5 w'.db
      ≡ some (record (test_operation 5 pending 20) {
        sanitized_text =
            some (masked mark_all test_findings 0 (document_of (find_outbox 5 scanned.db)));
      }))
    × (w'.db.redactions
        ≡ map (Agents.Sanitizer.redaction_row (test_operation 5 pending 20) 5) test_findings)
    × IsSent half 5 scanned (Agents.Sanitizer.process_sanitize half 5 scanned)
unfolding find_operation findings_of find_outbox
process_sanitize-stores_example =
    process_sanitize-stores half 5 scanned refl refl
      ((omega arith, omega arith), ((omega arith, omega arith), tt))
      ((inr (omega arith), tt), (tt, tt))

process_sanitize-loses_example :
    let r = Agents.Sanitizer.process_sanitize (λ t. false) 5 scanned in
    (r.1 ≡ raised)
    × (r.0.queue ≡ [])
    × (Agents.Sanitizer.process_sanitize (λ t. true) 5 r.0 ≡ (r.0, skipped))
unfolding find_operation findings_of
process_sanitize-loses_example =
    process_sanitize-loses (λ t. false) (λ t. true) 5 scanned refl refl refl refl

-- Two audits that overlap, the first of which commits.
abbrev start : Site
start = record { world = fresh; runs = [] }

abbrev one_upload : Site
one_upload = begin 5 (Agents.Auditor.audit_upload test_services 5 start.world) start

abbrev two_uploads : Site
two_uploads = begin 5 (Agents.Auditor.audit_upload test_services 5 one_upload.world) one_upload

abbrev test_run : Run
test_run = record { operation_id = 5; digest = test_host.sha256 test_document }

Reach-IsArchive_example : IsArchive test_host (record {
  world = (Agents.Auditor.audit_commit test_services 60 5 test_run.digest two_uploads.world).0;
  runs = test_run ∷ [];
})
unfolding Agents.Auditor.audit_upload find_operation find_outbox
Reach-IsArchive_example =
    Reach-IsArchive {s = start}
      (next (next (next here (uploads test_services 5 refl)) (uploads test_services 5 refl))
        (commits test_services 60 (test_run ∷ []) [] test_run refl))
      (record { archived = tt; in_flight = tt; faithful = tt })

relay_once-Relayed_example : Relayed (λ t. true) 10 fresh (relay_once (λ t. true) 10 fresh)
relay_once-Relayed_example = relay_once-Relayed (λ t. true) 10 fresh
