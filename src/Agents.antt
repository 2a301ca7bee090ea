-- ===== src/Agents.antt =====
-- The Dramatiq actors of apps/workers/agents: what they share. An actor is a function of the world,
-- which is the database, the messages that wait, and the writes to the object store. A session is
-- one transaction (apps/workers/core/db.py): where an actor raises before its commit, the database is as
-- it was.
pub mod Detector
pub mod Sanitizer
pub mod Auditor
pub mod Rescan
pub mod Reviewer
pub mod Classifier
pub mod Levels
mod Database
pub mod Escalation
pub mod Completion
pub mod Redelivery
pub mod Sanitized
mod Unchanged
pub mod Archive
use text.Mathlib.Text.{◌==◌ as str_eq}
use safe_context.Base.{
  ℕ, suc, ◌+◌, String, Bool, true, false, ◌&&◌, List, [], ◌∷◌, ◌++◌, Option, none, some, any, first,
  filter, update_where, ◌==◌, if◌then◌else◌,
}
use safe_context.Store.{
  Text, Operation, OperationStatus, pending, completed, escalated, approved, rejected, Detection,
  Finding, Redaction, Outbox, Db, Task,
}
use safe_context.Evidence.{Host}
use safe_context.Evidence.Seal.{Vault, VaultConfig}

-- The keys of the policy dict that a detector reads.
pub record Policy : Type 0 where
  pub entities : Option (List String)
  pub score_threshold : Option ℕ

-- What OPA is shown of a finding.
pub record FindingSummary : Type 0 where
  pub entity_type : String
  pub severity : Text
  pub confidence : ℕ

-- The services around the actors: the two implementations of `DetectorInterface.detect`, OPA's
-- answer on a list of findings (`none` for `OPAUnavailableError`), whether the object store takes a
-- write, whether the broker takes a message, whether what follows the auditor's write (the flush, the seal
-- and the commit) goes through for an operation, and what sealing needs.
pub record Services : Type 0 where
  pub regex : Text → List Detection
  pub presidio : Policy → Text → List Detection
  pub requires_review : List FindingSummary → Option Bool
  pub stores : ℕ → Text → Bool
  pub sends : Task → Bool
  pub commits : ℕ → Bool
  pub host : Host
  pub vault : Vault
  pub vault_config : VaultConfig

pub record World : Type 0 where
  pub db : Db
  pub queue : List Task
  pub objects : List (ℕ × Text)

-- The label under which `TASKS_TOTAL` counts the task, or that it raised.
pub data Outcome : Type 0 where
  success failure skipped residual raised : Outcome

abbrev pub is_pending : OperationStatus → Bool
is_pending pending = true
is_pending _ = false

abbrev pub is_escalated : OperationStatus → Bool
is_escalated escalated = true
is_escalated _ = false

-- `select(Operation).where(Operation.id == id)`
unfoldable pub find_operation : ℕ → Db → Option Operation
find_operation id db = first (λ o. o.id == id) db.operations

-- `select(FindingModel).where(FindingModel.operation_id == id)`
unfoldable pub findings_of : ℕ → Db → List Finding
findings_of id db = filter (λ f. f.operation_id == id) db.findings

-- The first outbox row of the operation.
unfoldable pub find_outbox : ℕ → Db → Option Outbox
find_outbox id db = first (λ e. e.operation_id == id) db.outbox

-- `payload.get("document_text", "")`, or no text where there is no row.
abbrev pub document_of : Option Outbox → Text
document_of none = []
document_of (some e) = e.document_text

-- `update(Operation).where(Operation.id == id)`
unfoldable pub update_operation : ℕ → (Operation → Operation) → Db → Db
update_operation id f db = record db { operations = update_where (λ o. o.id == id) f db.operations }

-- The key of the constraint `uq_finding_operation_rule_span`
unfoldable pub same_span : ℕ → Detection → Finding → Bool
same_span id d f =
    f.operation_id == id
    && (str_eq f.rule_id d.rule_id && (f.span_start == d.span_start && f.span_end == d.span_end))

-- One row for each finding; `none` where the constraint refuses a row, as an `IntegrityError`.
unfoldable pub insert_findings : ℕ → List Detection → Db → Option Db
unfolding same_span
insert_findings id [] db = some db
insert_findings id (d ∷ ds) db =
    let rest = insert_findings id ds (record db {
      findings = db.findings ++ (record { id = db.next_id; operation_id = id; detected = d } ∷ []);
      next_id = suc db.next_id;
    }) in
    if any (same_span id d) db.findings then none else rest

-- `actor.send(operation_id)`
abbrev pub send : Task → World → World
send t w = record w { queue = w.queue ++ (t ∷ []) }

-- The messages that follow a commit, one after the other: where the broker refuses one, the actor raises,
-- and what was committed and sent stays.
unfoldable pub send_each : (Task → Bool) → List Task → World → World × Outcome
send_each sends [] w = (w, success)
send_each sends (t ∷ ts) w =
    let rest = send_each sends ts (send t w) in if sends t then rest else (w, raised)
