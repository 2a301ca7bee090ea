-- ===== src/Examples.antt =====
-- Concrete documents, rows and services on which the theorems are tried.
mod Redaction
mod Chain
mod Actors
mod Decisions
mod Limits
mod Purge
mod Export
mod Api
mod Rules
use safe_context.Base.{
  ℕ, ◌+◌, ◌*◌, String, Bool, true, false, List, [], ◌∷◌, Option, none, some, length, ◌≡◌, refl,
}
use safe_context.Store.{
  Text, Severity, low, medium, high, critical, Explanation, Detection, Finding, Operation,
  OperationStatus, pending, human, Outbox, Db,
}
use safe_context.Evidence.{Host, IsSha256, hex_digits}
use safe_context.Evidence.Seal.{Vault, VaultConfig, sign_replied, keys_replied}
use safe_context.Agents.{Policy, Services, World}

-- A sum over the characters, in place of a digest.
unfoldable pub checksum : ℕ → Text → ℕ
checksum n [] = n
checksum n (c ∷ t) = checksum (n * 131 + c) t

unfoldable pub test_host : Host
unfolding checksum hex_digits
test_host = record { sha256 = λ t. hex_digits 64 (checksum 7 t); isoformat = λ t. hex_digits 8 t }

pub test_host-IsSha256 : IsSha256 test_host
unfolding test_host
test_host-IsSha256 = record { digest_length = λ t. refl }

abbrev pub test_detection : String → Severity → ℕ → ℕ → Detection
test_detection rule severity start end = record {
  detector = "regex";
  rule_id = rule;
  span_start = start;
  span_end = end;
  confidence = 9000;
  severity = severity;
  explanation = record {
    entity_type = none;
    pattern = some rule;
    matched_preview = none;
    is_post_sanitization = false;
  };
}

abbrev pub test_finding : ℕ → ℕ → Severity → ℕ → ℕ → Finding
test_finding id op severity start end = record {
  id = id;
  operation_id = op;
  detected = test_detection "rule" severity start end;
}

-- "key=abcd, pin=1234."
abbrev pub test_document : Text
test_document =
    b'k' ∷ b'e' ∷ b'y' ∷ b'=' ∷ b'a' ∷ b'b' ∷ b'c' ∷ b'd' ∷ b',' ∷ b' ' ∷ b'p' ∷ b'i' ∷ b'n' ∷ b'='
    ∷ b'1' ∷ b'2' ∷ b'3' ∷ b'4' ∷ b'.' ∷ []

abbrev pub test_findings : List Finding
test_findings = test_finding 2 5 low 14 18 ∷ test_finding 1 5 critical 4 8 ∷ []

abbrev pub test_operation : ℕ → OperationStatus → ℕ → Operation
test_operation id status created_at = record {
  id = id;
  tenant_id = 3;
  trace_id = 900;
  actor_id = 77;
  actor_type = human;
  document_id = 41;
  artifact_digest = b'd' ∷ [];
  policy_version = "v1";
  status = status;
  sanitized_text = none;
  created_at = created_at;
  completed_at = none;
  chain_hash = none;
  event_signature = none;
  event_signed_at = none;
  signing_key_version = none;
}

abbrev pub test_entry : ℕ → String → ℕ → ℕ → Outbox
test_entry id event_type operation_id created_at = record {
  id = id;
  event_type = event_type;
  operation_id = operation_id;
  document_text = test_document;
  processed = false;
  created_at = created_at;
}

-- A Vault that signs, with "vault:v2:x".
abbrev pub test_vault : Vault
test_vault = record {
  sign = λ t.
      sign_replied 200 (b'v' ∷ b'a' ∷ b'u' ∷ b'l' ∷ b't' ∷ b':' ∷ b'v' ∷ b'2' ∷ b':' ∷ b'x' ∷ []);
  keys = keys_replied 200 ((2, some (b'p' ∷ b'e' ∷ b'm' ∷ [])) ∷ []);
  int = λ t. some 2;
}

abbrev pub test_config : VaultConfig
test_config = record {
  vault_addr = some (b'a' ∷ []);
  vault_token = some (b't' ∷ []);
  vault_key = some (b'k' ∷ []);
}

-- One critical finding for each document, and no answer of OPA.
abbrev pub test_services : Services
test_services = record {
  regex = λ t. test_detection "secret" critical 4 8 ∷ [];
  presidio = λ p t. test_detection "name" low 14 18 ∷ [];
  requires_review = λ s. none;
  stores = λ id t. true;
  sends = λ t. true;
  commits = λ id. true;
  host = test_host;
  vault = test_vault;
  vault_config = test_config;
}

abbrev pub test_policy : Policy
test_policy = record { entities = none; score_threshold = none }

abbrev pub test_db : List Operation → List Finding → Db
test_db operations findings = record {
  operations = operations;
  findings = findings;
  redactions = [];
  artifacts = [];
  outbox = test_entry 1 "document.scan_requested" 5 20 ∷ test_entry 2 "unknown" 6 10 ∷ [];
  signing_keys = [];
  next_id = 100;
}

abbrev pub test_world : Db → World
test_world db = record { db = db; queue = []; objects = [] }
