-- ===== src/Agents/Auditor.antt =====
-- `_process_audit_async` of apps/workers/agents/auditor_agent.py, with the storage adapter's `put`
-- of apps/workers/adapters/s3_storage.py.
use safe_context.Base.{
  ℕ, Bool, true, false, ◌&&◌, List, [], ◌∷◌, ◌++◌, Option, none, some, any, ◌==◌, if◌then◌else◌,
}
use safe_context.Store.{Text, Operation, completed, Artifact, ArtifactType, original, Db}
use safe_context.Evidence.Seal.{seal_operation}
use safe_context.Agents.{
  Services, World, Outcome, success, failure, skipped, raised, find_operation, find_outbox,
  document_of,
}

abbrev pub is_original : ArtifactType → Bool
is_original original = true
is_original _ = false

-- The artifact that the idempotency check looks for.
abbrev pub archives : ℕ → Artifact → Bool
archives id a = a.operation_id == id && is_original a.artifact_type

-- `S3StorageAdapter.put` under the key `artifacts/{id}/original`: the digest and the store with the
-- write, or `none` where the client raises.
unfoldable pub put_object : Services → ℕ → Text → List (ℕ × Text) → Option (Text × List (ℕ × Text))
put_object services id document objects =
    if services.stores id document
    then some (services.host.sha256 document, (id, document) ∷ objects)
    else none

-- The artifact row, the status and the seal.
unfoldable pub complete_operation : Services → ℕ → ℕ → Operation → Text → Db → Db
unfolding seal_operation
complete_operation services now id op digest db =
    let artifact : Artifact = record {
      operation_id = id;
      artifact_type = original;
      digest = digest;
      worm_locked = true;
    } in
    (seal_operation services.host services.vault services.vault_config now
      (record op { status = completed; completed_at = some now })
      (record db { artifacts = db.artifacts ++ (artifact ∷ []) })).1

-- How the part of the session up to the upload ends: the actor is done, or the object is written, which
-- no rollback takes back, and the digest is known.
pub data Uploaded : Type 0 where
  done : Outcome → Uploaded
  uploaded : Text → List (ℕ × Text) → Uploaded

-- The upload: where the store refuses it the actor raises.
unfoldable pub upload : Option (Text × List (ℕ × Text)) → Uploaded
upload none = done raised
upload (some (digest, objects)) = uploaded digest objects

-- After the lookup of the operation.
unfoldable pub audit_loaded : Services → ℕ → Option Operation → World → Uploaded
unfolding upload put_object find_outbox
audit_loaded services id none w = done failure
audit_loaded services id (some op) w =
    upload (put_object services id (document_of (find_outbox id w.db)) w.objects)

-- The session up to the upload.
unfoldable pub audit_upload : Services → ℕ → World → Uploaded
unfolding audit_loaded find_operation
audit_upload services id w =
    if any (archives id) w.db.artifacts
    then done skipped
    else audit_loaded services id (find_operation id w.db) w

-- The rest of the session, at the time `now`: the flush writes the changed columns into the row as it is by
-- then. Where the flush, the seal or the commit raises, the rows stay as they were.
unfoldable pub audit_commit : Services → ℕ → ℕ → Text → World → World × Outcome
unfolding complete_operation find_operation
audit_commit services now id digest w = elim (find_operation id w.db) [
  | none ↦ (w, raised)
  | some op ↦
      if services.commits id
      then (record w { db = complete_operation services now id op digest w.db }, success)
      else (w, raised)
]

-- What follows the upload.
unfoldable pub audit_finish : Services → ℕ → ℕ → Uploaded → World → World × Outcome
unfolding audit_commit
audit_finish services now id (done outcome) w = (w, outcome)
audit_finish services now id (uploaded digest objects) w =
    audit_commit services now id digest (record w { objects = objects })

-- `_process_audit_async` at the time `now`, with nothing in between.
unfoldable pub process_audit : Services → ℕ → ℕ → World → World × Outcome
unfolding audit_finish audit_upload
process_audit services now id w = audit_finish services now id (audit_upload services id w) w
