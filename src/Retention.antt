-- ===== src/Retention.antt =====
-- The purge of old operations: apps/api/core/retention_gdpr.py, and `trigger_purge` of
-- apps/api/api/v1/admin_retention.py. A moment is a number of microseconds; a cutoff before the first
-- moment is the first moment. ON DELETE CASCADE is part of the deletion.
pub mod Purged
pub mod Certified
pub mod Parts
pub mod Broken
use safe_context.Base.{
  ℕ, String, ◌++◌, ◌-◌, ◌*◌, Bool, true, false, not, ◌&&◌, List, [], ◌∷◌, Option, none, some,
  length, map, any, filter, ltb, ◌==◌, if◌then◌else◌, sorted_by, sorted_with,
}
use safe_context.Store.{Text, Operation, Finding, Redaction, Artifact, Db}
use safe_context.Siem.{decimal}

-- `datetime.now(UTC) - timedelta(days=retention_days)`
abbrev pub cutoff_at : ℕ → ℕ → ℕ
cutoff_at now retention_days = now - retention_days * 86400000000

-- `Operation.tenant_id == tenant_id, Operation.created_at < cutoff`
abbrev pub is_expired : ℕ → ℕ → Operation → Bool
is_expired tenant_id cutoff op = op.tenant_id == tenant_id && ltb op.created_at cutoff

-- `find_expired_operations`, at the moment `now`
unfoldable pub find_expired_operations : ℕ → ℕ → ℕ → Db → List Operation
unfolding sorted_with
find_expired_operations now tenant_id retention_days db =
    sorted_by (λ o. o.created_at)
      (filter (is_expired tenant_id (cutoff_at now retention_days)) db.operations)

-- The dict that `delete_operations` returns
pub record Counts : Type 0 where
  pub operations : ℕ
  pub findings : ℕ
  pub redactions : ℕ
  pub artifacts : ℕ

-- `expired_op_ids`
unfoldable pub expired_op_ids : ℕ → ℕ → Db → List ℕ
expired_op_ids tenant_id cutoff db =
    map (λ o. o.id) (filter (is_expired tenant_id cutoff) db.operations)

-- `.in_(expired_op_ids)`
abbrev pub is_in : List ℕ → ℕ → Bool
is_in ids id = any (λ k. k == id) ids

-- The three counts of child rows, before the deletion.
unfoldable pub count_children : List ℕ → ℕ → Db → Counts
count_children ids deleted db = record {
  operations = deleted;
  findings = length (filter (λ f. is_in ids f.operation_id) db.findings);
  redactions = length (filter (λ r. is_in ids r.operation_id) db.redactions);
  artifacts = length (filter (λ a. is_in ids a.operation_id) db.artifacts);
}

-- Whether a finding is deleted with its operation, by its id.
unfoldable pub finding_goes : List ℕ → Db → ℕ → Bool
finding_goes ids db id = any (λ f. f.id == id && is_in ids f.operation_id) db.findings

-- The DELETE with its cascades: findings, redactions and artifacts go with their operation, and
-- redactions with their finding too.
unfoldable pub cascade : ℕ → ℕ → List ℕ → Db → Db
unfolding finding_goes
cascade tenant_id cutoff ids db = record db {
  operations = filter (λ o. not (is_expired tenant_id cutoff o)) db.operations;
  findings = filter (λ f. not (is_in ids f.operation_id)) db.findings;
  redactions =
      filter (λ r. not (is_in ids r.operation_id) && not (finding_goes ids db r.finding_id))
        db.redactions;
  artifacts = filter (λ a. not (is_in ids a.operation_id)) db.artifacts;
}

-- `delete_operations`; the row count is the number of operations that match.
unfoldable pub delete_operations : ℕ → ℕ → Db → Db × Counts
unfolding expired_op_ids count_children cascade
delete_operations tenant_id cutoff db =
    let ids = expired_op_ids tenant_id cutoff db in
    (cascade tenant_id cutoff ids db, count_children ids (length ids) db)

-- `DeletionCertificate`
pub record Certificate : Type 0 where
  pub certificate_id : ℕ
  pub tenant_id : ℕ
  pub deleted_at : ℕ
  pub retention_days : ℕ
  pub cutoff_date : ℕ
  pub counts : Counts
  pub operation_ids : List ℕ
  pub deletion_reason : Text
  pub executor : String
  pub signature : Option Text

-- `f"GDPR retention policy: {retention_days} days"`
unfoldable pub deletion_reason_for : ℕ → Text
unfolding decimal
deletion_reason_for retention_days =
    (b'G' ∷ b'D' ∷ b'P' ∷ b'R' ∷ b' ' ∷ b'r' ∷ b'e' ∷ b't' ∷ b'e' ∷ b'n' ∷ b't' ∷ b'i' ∷ b'o' ∷ b'n'
      ∷ b' ' ∷ b'p' ∷ b'o' ∷ b'l' ∷ b'i' ∷ b'c' ∷ b'y' ∷ b':' ∷ b' ' ∷ [])
    ++ (decimal retention_days ++ (b' ' ∷ b'd' ∷ b'a' ∷ b'y' ∷ b's' ∷ []))

-- What the purge needs besides the database: its argument `executor`, `uuid4`, the moments at which it reads the clock, HMAC-SHA256
-- with the API's key over the JSON text of a certificate that has no signature, and whether the certificate
-- can be stored.
pub record PurgeHost : Type 0 where
  pub executor : String
  pub uuid4 : ℕ
  pub started_at : ℕ
  pub searched_at : ℕ
  pub certified_at : ℕ
  pub hmac : Certificate → Text
  pub stores : Certificate → Bool

-- `generate_deletion_certificate`, with `sign`
unfoldable pub generate_deletion_certificate :
    PurgeHost → ℕ → ℕ → ℕ → List Operation → Counts → Certificate
unfolding deletion_reason_for
generate_deletion_certificate host tenant_id retention_days cutoff expired_ops counts =
    let bare : Certificate = record {
      certificate_id = host.uuid4;
      tenant_id = tenant_id;
      deleted_at = host.certified_at;
      retention_days = retention_days;
      cutoff_date = cutoff;
      counts = counts;
      operation_ids = map (λ o. o.id) expired_ops;
      deletion_reason = deletion_reason_for retention_days;
      executor = host.executor;
      signature = none;
    } in
    record bare { signature = some (host.hmac bare) }

-- The dict that `run_gdpr_purge` returns
pub data PurgeResult : Type 0 where
  nothing_to_purge : PurgeResult
  purged : Certificate → (certificate_stored : Bool) → PurgeResult

purge_found : PurgeHost → ℕ → ℕ → List Operation → Db → Db × PurgeResult
purge_found host tenant_id retention_days [] db = (db, nothing_to_purge)
purge_found host tenant_id retention_days (op ∷ ops) db =
    let cutoff = cutoff_at host.started_at retention_days in
    let r = delete_operations tenant_id cutoff db in
    let cert = generate_deletion_certificate host tenant_id retention_days cutoff (op ∷ ops) r.1 in
    (r.0, purged cert (host.stores cert))

-- `run_gdpr_purge`
unfoldable pub run_gdpr_purge : PurgeHost → ℕ → ℕ → Db → Db × PurgeResult
unfolding purge_found delete_operations generate_deletion_certificate find_expired_operations
run_gdpr_purge host tenant_id retention_days db =
    purge_found host tenant_id retention_days
      (find_expired_operations host.searched_at tenant_id retention_days db) db

-- What `trigger_purge` comes to: the status of an `HTTPException`, or the purge. `tenant` is the row's
-- `retention_days`, if there is a tenant.
unfoldable pub trigger_purge :
    PurgeHost → Bool → ℕ → Option (Option ℕ) → Db → Db × (Option PurgeResult × ℕ)
unfolding run_gdpr_purge
trigger_purge host false tenant_id tenant db = (db, (none, 403))
trigger_purge host true tenant_id none db = (db, (none, 404))
trigger_purge host true tenant_id (some days) db =
    let retention_days : ℕ = elim days [ none ↦ 365 | some n ↦ if n == 0 then 365 else n ] in
    let by_default : PurgeHost = record host { executor = "retention-purge-job" } in
    let r = run_gdpr_purge by_default tenant_id retention_days db in (r.0, (some r.1, 200))
