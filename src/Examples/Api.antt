-- ===== src/Examples/Api.antt =====
-- The theorems on the scan endpoint and the tools, at a request from an agent.
use safe_context.Base.{◌≡◌, refl, inl, true, false, List, [], ◌∷◌, none, some, any, map, arith}
use safe_context.Store.{Text, Finding, low, critical}
use safe_context.Relay.{relay_once}
use safe_context.RateLimit.{Limiter}
use safe_context.Sanitize.Masked.{masked}
use safe_context.Mcp.Redact.{merged_spans, sanitized_text}
use safe_context.Mcp.Redact.Covering.{as_finding, sanitized_text-eq-masked, sanitized_text_secrecy}
use safe_context.Mcp.Dispatch.{McpSettings}
use safe_context.Evidence.{text_eq}
use safe_context.Scan.{
  Tokens, Actor, timed_out, ScanRequest, Api, Situation, resolve_scan_actor, resolved_version, scan,
}
use safe_context.Scan.Accepted.{ScanEnds, scan-ScanEnds}
use safe_context.Scan.Detected.{detected, scan-process_scan}
use safe_context.Agents.{find_operation, World}
use safe_context.Agents.Detector.{process_scan}
use safe_context.Store.{process_review, process_sanitize, escalated, pending}
use safe_context.Base.{ℕ, if◌then◌else◌}
use safe_context.Scan.{new_operation}
use safe_context.Examples.{test_services, test_policy}
use safe_context.Scan.Relayed.{is_scan_of, scan-relay_once}
use safe_context.Examples.{
  test_host, test_document, test_finding, test_operation, test_db, test_world,
}
use safe_context.Store.{completed, mcp_agent}

-- Two findings that overlap.
abbrev overlapping : List Finding
overlapping = test_finding 2 5 low 6 18 ∷ test_finding 1 5 critical 4 8 ∷ []

abbrev marker : Text
marker = b'*' ∷ []

sanitized_text-eq-masked_example :
    sanitized_text marker overlapping test_document
    ≡ masked (λ _. marker) (map as_finding (merged_spans overlapping)) 0 test_document
sanitized_text-eq-masked_example =
    sanitized_text-eq-masked marker overlapping test_document
      ((omega arith, omega arith), ((omega arith, omega arith), tt))

-- Two findings that overlap, and cover two texts of three characters.
abbrev covering : List Finding
covering = test_finding 2 5 low 1 3 ∷ test_finding 1 5 critical 0 2 ∷ []

abbrev one_text : Text
one_text = b'a' ∷ b'b' ∷ b'c' ∷ []

abbrev other_text : Text
other_text = b'x' ∷ b'y' ∷ b'z' ∷ []

sanitized_text_secrecy_example :
    sanitized_text marker covering one_text ≡ sanitized_text marker covering other_text
sanitized_text_secrecy_example =
    sanitized_text_secrecy marker covering one_text other_text
      ((omega arith, omega arith), ((omega arith, omega arith), tt))
      (inl refl, (inl refl, (inl refl, tt)))

abbrev test_tokens : Tokens
test_tokens = record { mcp_auth_token = b's' ∷ []; decode = λ t. none; uuid = λ t. none }

abbrev test_header : Text
test_header = b'B' ∷ b'e' ∷ b'a' ∷ b'r' ∷ b'e' ∷ b'r' ∷ b' ' ∷ b's' ∷ []

abbrev test_situation : Situation
test_situation = record {
  trace = none;
  now = 70;
  opa = timed_out;
  commits = true;
  enqueues = false;
}

abbrev test_request : ScanRequest
test_request = record { document = test_document; policy_name = "default"; policy_version = none }

abbrev test_api : Api
test_api = record { db = test_db (test_operation 5 completed 20 ∷ []) []; scan_requests = [] }

abbrev test_actor : Actor
test_actor = record { actor_id = 1; actor_type = mcp_agent; tenant_id = 0 }

scan-ScanEnds_example :
    ScanEnds test_host test_situation test_request
      (resolve_scan_actor test_tokens test_header)
      test_api
      (scan test_host test_tokens test_situation test_header test_request test_api)
scan-ScanEnds_example =
    scan-ScanEnds test_host test_tokens test_situation test_header test_request test_api

scan-relay_once_example :
    any
      (is_scan_of 100)
      (relay_once
        (λ t. true)
        10
        (record (test_world test_api.db) {
          db = (scan test_host test_tokens test_situation test_header test_request test_api).0.db;
        })).0.queue
    ≡ true
unfolding resolve_scan_actor text_eq test_host resolved_version
scan-relay_once_example =
    scan-relay_once test_host test_tokens test_situation test_header test_request test_api
      test_actor (test_world test_api.db) (λ t. true) 10 refl refl refl (λ t. refl) (omega arith)

abbrev test_limiter : Limiter
test_limiter = record { store = []; last_eviction = 0 }

-- The static token of a development environment.
abbrev test_settings : McpSettings
test_settings = record { is_dev = true; mcp_auth_token = b't' ∷ []; decode = λ t. none }

abbrev test_submitted : World
test_submitted = record (test_world test_api.db) {
  db = (scan test_host test_tokens test_situation test_header test_request test_api).0.db;
}

scan-process_scan_example :
    (trace_id : ℕ) × (find_operation 100
        (process_scan test_services test_policy 100 test_submitted).0.db
      ≡ some
          (record (new_operation 100 trace_id test_actor
            (test_host.sha256 test_document)
            "1.0.0"
            70) {
              status =
                  if detected test_services test_policy test_document then escalated else pending;
            }))
    × ((process_scan test_services test_policy 100 test_submitted).0.queue
        ≡ (if detected test_services test_policy test_document
            then process_review 100
            else process_sanitize 100)
          ∷ [])
unfolding resolve_scan_actor text_eq test_host resolved_version process_scan scan
scan-process_scan_example =
    scan-process_scan test_host test_tokens test_situation test_header test_request test_api
      test_actor test_services test_policy (test_world test_api.db) refl refl refl refl refl refl
