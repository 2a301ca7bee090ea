-- ===== src/Store.antt =====
-- The database rows that the workers and the API share: apps/api/db/enums.py and
-- apps/api/db/models. A UUID is a number (its 128-bit value), a moment is a number of
-- microseconds, a confidence is counted in ten-thousandths (the code rounds to four digits), and a
-- document is the list of its code points.
use safe_context.Base.{ℕ, String, Bool, List, Option}

abbrev pub Text : Type 0
Text = List ℕ

-- `OperationStatus`
pub data OperationStatus : Type 0 where
  pending completed escalated approved rejected : OperationStatus

-- `ActorType`
pub data ActorType : Type 0 where
  human mcp_agent pipeline : ActorType

-- `Severity`
pub data Severity : Type 0 where
  low medium high critical : Severity

-- `RedactionType`
pub data RedactionType : Type 0 where
  mask remove replace : RedactionType

-- `ArtifactType`
pub data ArtifactType : Type 0 where
  original sanitized audit_export : ArtifactType

-- The keys of the JSON column `explanation` that the code reads back or writes by name.
pub record Explanation : Type 0 where
  pub entity_type : Option String
  pub pattern : Option String
  pub matched_preview : Option Text
  pub is_post_sanitization : Bool

-- `workers.core.detector.Finding`
pub record Detection : Type 0 where
  pub detector : String
  pub rule_id : String
  pub span_start : ℕ
  pub span_end : ℕ
  pub confidence : ℕ
  pub severity : Severity
  pub explanation : Explanation

-- `db.models.operation.Operation`
pub record Operation : Type 0 where
  pub id : ℕ
  pub tenant_id : ℕ
  pub trace_id : ℕ
  pub actor_id : ℕ
  pub actor_type : ActorType
  pub document_id : ℕ
  pub artifact_digest : Text
  pub policy_version : String
  pub status : OperationStatus
  pub sanitized_text : Option Text
  pub created_at : ℕ
  pub completed_at : Option ℕ
  pub chain_hash : Option Text
  pub event_signature : Option Text
  pub event_signed_at : Option ℕ
  pub signing_key_version : Option ℕ

-- `db.models.finding.Finding`: what a detector found, as a row of its operation.
pub record Finding : Type 0 where
  pub id : ℕ
  pub operation_id : ℕ
  pub detected : Detection
  pub open detected use *

-- `db.models.redaction.Redaction`
pub record Redaction : Type 0 where
  pub finding_id : ℕ
  pub operation_id : ℕ
  pub redaction_type : RedactionType
  pub policy_version : String
  pub approved_by : Option ℕ
  pub approval_trace_id : Option ℕ
  pub approved_by_agent_id : Option ℕ

-- `db.models.artifact.Artifact`; the key names the operation and the kind of object.
pub record Artifact : Type 0 where
  pub operation_id : ℕ
  pub artifact_type : ArtifactType
  pub digest : Text
  pub worm_locked : Bool

-- `db.models.outbox.Outbox`, with the two entries of its payload that the workers read.
pub record Outbox : Type 0 where
  pub id : ℕ
  pub event_type : String
  pub operation_id : ℕ
  pub document_text : Text
  pub processed : Bool
  pub created_at : ℕ

-- `db.models.signing_key.SigningKey`
pub record SigningKey : Type 0 where
  pub key_version : ℕ
  pub public_key_pem : Text

-- The tables. `next_id` stands for `uuid.uuid4()`: an id that no row has had.
pub record Db : Type 0 where
  pub operations : List Operation
  pub findings : List Finding
  pub redactions : List Redaction
  pub artifacts : List Artifact
  pub outbox : List Outbox
  pub signing_keys : List SigningKey
  pub next_id : ℕ

-- A message on a Dramatiq queue, `actor.send(operation_id)`.
pub data Task : Type 0 where
  process_scan process_sanitize process_classify process_audit process_review rescan_operation :
      ℕ → Task
