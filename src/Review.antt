-- ===== src/Review.antt =====
-- Human review: `_load_escalated_finding`, `approve_finding` and `reject_finding` of
-- apps/api/api/v1/review.py, with `require_reviewer` and `check_self_approval` of
-- apps/api/core/auth_oidc.py. Each handler gets the database as it is at its first read, without a
-- lock, and as it is when its transaction begins. The SELECT of `_load_escalated_finding` has begun a
-- transaction on the session by the time of `db.begin()`.
pub mod Decisions
use safe_context.Base.{
  ℕ, Bool, true, false, ◌||◌, List, [], ◌∷◌, ◌++◌, Option, none, some, first, filter, length, leb,
  ◌==◌, if◌then◌else◌,
}
use safe_context.Store.{
  Operation, OperationStatus, escalated, completed, rejected, Finding, Redaction, mask, Db,
}
use safe_context.Evidence.{Host}
use safe_context.Evidence.Seal.{Vault, VaultConfig, put_operation, seal_operation}
use safe_context.Agents.{find_operation, findings_of, is_escalated}

-- The claims of a token that the handlers read: the roles, and `sub`, if it is there, as a UUID in its
-- canonical form.
pub record Actor : Type 0 where
  pub is_reviewer : Bool
  pub is_admin : Bool
  pub sub : Option ℕ

-- What stands behind the handlers: whether `db.begin()` opens a transaction on a session, by whether the
-- session has one already (a SELECT begins one), and what sealing needs. `seal_operation_with_settings` asks Vault only where `settings.audit_sign_on_write` is set.
pub record Backend : Type 0 where
  pub begins : (in_transaction : Bool) → Bool
  pub host : Host
  pub vault : Vault
  pub audit_sign_on_write : Bool
  pub config : VaultConfig

-- The reply, or the status of an `HTTPException`.
pub data Reply : Type 0 where
  reply : ℕ → Reply
  http_error : ℕ → Reply

-- `SENTINEL_ACTOR_ID`
abbrev pub sentinel_actor_id : ℕ
sentinel_actor_id = 1

-- `uuid.UUID(sub) if sub else SENTINEL_ACTOR_ID`
abbrev pub reviewer_id : Actor → ℕ
reviewer_id actor = elim actor.sub [ none ↦ sentinel_actor_id | some u ↦ u ]

-- `check_self_approval`: whether the approver is the one who made the operation.
abbrev pub is_self : Operation → Actor → Bool
is_self op actor = elim actor.sub [ none ↦ false | some u ↦ op.actor_id == u ]

unfoldable pub find_finding : ℕ → Db → Option Finding
find_finding finding_id db = first (λ f. f.id == finding_id) db.findings

unfoldable pub redactions_of : ℕ → Db → List Redaction
redactions_of id db = filter (λ r. r.operation_id == id) db.redactions

-- The configuration that `seal_operation_with_settings` passes on.
unfoldable pub settings_config : Backend → VaultConfig
settings_config s =
    if s.audit_sign_on_write
    then s.config
    else record { vault_addr = none; vault_token = none; vault_key = none }

unfoldable pub seal_with_settings : Backend → ℕ → Operation → Db → Db
unfolding settings_config seal_operation
seal_with_settings s now op db = (seal_operation s.host s.vault (settings_config s) now op db).1

-- What `_load_escalated_finding` comes to.
pub data Loaded : Type 0 where
  loaded : Finding → Operation → Loaded
  refused : ℕ → Loaded

loaded_operation : Finding → Option Operation → Loaded
loaded_operation f none = refused 500
loaded_operation f (some op) = if is_escalated op.status then loaded f op else refused 409

loaded_finding : Db → Option Finding → Loaded
loaded_finding db none = refused 404
loaded_finding db (some f) = loaded_operation f (find_operation f.operation_id db)

-- `_load_escalated_finding`; a finding's operation is there, by its foreign key.
unfoldable pub load_escalated_finding : ℕ → Db → Loaded
unfolding loaded_finding loaded_operation find_finding find_operation
load_escalated_finding finding_id db = loaded_finding db (find_finding finding_id db)

-- The redaction that an approval adds.
abbrev pub approval : Finding → Operation → Actor → Redaction
approval f op actor = record {
  finding_id = f.id;
  operation_id = op.id;
  redaction_type = mask;
  policy_version = op.policy_version;
  approved_by = some (reviewer_id actor);
  approval_trace_id = some op.trace_id;
  approved_by_agent_id = none;
}

-- The transaction of `approve_finding`, on the row that it locked.
unfoldable pub approve_locked : Backend → ℕ → Finding → Actor → Operation → Db → Db
unfolding seal_with_settings redactions_of findings_of
approve_locked s now f actor op db =
    let db' = record db { redactions = db.redactions ++ (approval f op actor ∷ []) } in
    let done = record op { status = completed; completed_at = some now } in
    if leb (length (findings_of op.id db')) (length (redactions_of op.id db'))
    then seal_with_settings s now done db'
    else db'

-- The second SELECT locks the row, but gives the object `op` that the session has of it: the status that is
-- tested is that of the first read. What is written is written into the row.
approve_row : Backend → ℕ → Finding → Actor → Operation → Option Operation → Db → Db × Reply
approve_row s now f actor op none db = (db, http_error 500)
approve_row s now f actor op (some row) db =
    if is_escalated op.status
    then (approve_locked s now f actor row db, reply op.trace_id)
    else (db, http_error 409)

approve_loaded : Backend → ℕ → Actor → Loaded → Db → Db × Reply
approve_loaded s now actor (refused status) db = (db, http_error status)
approve_loaded s now actor (loaded f op) db =
    if is_self op actor
    then (db, http_error 403)
    else if s.begins true
    then approve_row s now f actor op (find_operation op.id db) db
    else (db, http_error 500)

-- `approve_finding`
unfoldable pub approve_finding : Backend → ℕ → ℕ → Actor → Db → Db → Db × Reply
unfolding approve_loaded approve_row approve_locked load_escalated_finding find_operation
approve_finding s now finding_id actor seen db =
    if actor.is_reviewer || actor.is_admin
    then approve_loaded s now actor (load_escalated_finding finding_id seen) db
    else (db, http_error 403)

-- The flush writes the changed columns of the row, whatever its status is by then; a row that is gone
-- is an error.
reject_row : Backend → ℕ → Option Operation → Db → Db × Reply
reject_row s now none db = (db, http_error 500)
reject_row s now (some op) db = (
  seal_with_settings s now (record op { status = rejected; completed_at = some now }) db,
  reply op.trace_id,
)

-- `reject_finding` takes no lock and does not look at the status again.
reject_loaded : Backend → ℕ → Loaded → Db → Db × Reply
reject_loaded s now (refused status) db = (db, http_error status)
reject_loaded s now (loaded f op) db =
    if s.begins true then reject_row s now (find_operation op.id db) db else (db, http_error 500)

unfoldable pub reject_finding : Backend → ℕ → ℕ → Actor → Db → Db → Db × Reply
unfolding reject_loaded reject_row find_operation seal_with_settings load_escalated_finding
reject_finding s now finding_id actor seen db =
    if actor.is_reviewer || actor.is_admin
    then reject_loaded s now (load_escalated_finding finding_id seen) db
    else (db, http_error 403)
