-- ===== src/Agents/Completion.antt =====
-- What the auditor makes of an operation.
use mathlib.Core.Path.{subst}
use safe_context.Base.{
  ℕ, ◌≡◌, refl, ap, ◌∙◌, inl, inr, true, false, List, [], ◌∷◌, ◌++◌, none, some, arith, any, first,
  map, ◌==◌, ==_iff, if◌then◌else◌, Bool-cases,
}
use safe_context.Store.{Text, Operation, completed, Artifact, original, Db}
use safe_context.Evidence.{compute_operation_hash, compute_chain_hash, get_latest_chain_hash}
use safe_context.Evidence.Seal.{sealed_row, try_sign, put_operation, seal_operation}
use safe_context.Evidence.Replaced.{
  put_row, seal_rows, sealed_row-Replaces, sealed_row-chain, sealed_row-status,
}
use safe_context.Agents.{
  Services, World, success, skipped, find_operation, find_outbox, document_of,
}
use safe_context.Agents.Auditor.{
  archives, put_object, complete_operation, done, upload, audit_loaded, audit_upload, audit_commit,
  audit_finish, process_audit,
}
use safe_context.Agents.Database.{first_sat}

-- The row that a lookup of `id` finds, after a row with that id was put in.
find-put_row :
    (id : ℕ) (s : Operation) (rows : List Operation) {op : Operation}
    → s.id ≡ id
    → first (λ o. o.id == id) rows ≡ some op
    → first (λ o. o.id == id) (map (put_row s) rows) ≡ some s
find-put_row id s [] e h = cc
find-put_row id s (r ∷ rows) {op} e h = elim (Bool-cases (r.id == s.id)) [
  | inl q ↦
      let hit : (s.id == id) ≡ true = ground arith in
      ap (λ b. first (λ o. o.id == id) ((if b then s else r) ∷ map (put_row s) rows)) q
      ∙ ap (λ b. if b then some s else first (λ o. o.id == id) (map (put_row s) rows)) hit
  | inr q ↦
      let miss : (r.id == id) ≡ false = ground arith in
      let rest =
        subst (λ b. (if b then some r else first (λ o. o.id == id) rows) ≡ some op) miss h in
      ap (λ b. first (λ o. o.id == id) ((if b then s else r) ∷ map (put_row s) rows)) q
      ∙ ap (λ b. if b then some r else first (λ o. o.id == id) (map (put_row s) rows)) miss
      ∙ find-put_row id s rows e rest
]

-- A lookup behind the seal finds the sealed row.
pub find-seal :
    (id : ℕ) (op s : Operation) (db : Db) {old : Operation}
    → op.id ≡ id
    → s.id ≡ id
    → find_operation id db ≡ some old
    → first (λ o. o.id == id) (put_operation s (put_operation op db)).operations ≡ some s
unfolding find_operation
find-seal id op s db e f h =
    ap (first (λ o. o.id == id)) (seal_rows op db s)
    ∙ find-put_row id s (map (put_row op) db.operations) f (find-put_row id op db.operations e h)

-- The row that the auditor completes, and the hash with which it seals it.
abbrev pub completed_row : ℕ → Operation → Operation
completed_row now op = record op { status = completed; completed_at = some now }

abbrev pub audit_seal : Services → ℕ → Operation → Db → Text
audit_seal services now op db =
    let row = completed_row now op in
    compute_chain_hash services.host
      (get_latest_chain_hash (put_operation row db).operations op.tenant_id)
      (compute_operation_hash services.host row)

complete_operation-find :
    (services : Services) (now id : ℕ) (op : Operation) (digest : Text) (db : Db)
    → find_operation id db ≡ some op
    → (s : Operation) × (find_operation id (complete_operation services now id op digest db)
        ≡ some s)
      × (s.status ≡ completed)
      × (s.chain_hash ≡ some (audit_seal services now op db))
unfolding complete_operation seal_operation find_operation
complete_operation-find services now id op digest db found =
    let row = completed_row now op in
    let artifact : Artifact = record {
      operation_id = id;
      artifact_type = original;
      digest = digest;
      worm_locked = true;
    } in
    let db' = record db { artifacts = db.artifacts ++ (artifact ∷ []) } in
    let sig =
      try_sign services.vault services.vault_config (compute_operation_hash services.host row) in
    let c = audit_seal services now op db in
    let s = sealed_row row c sig now in
    let own : op.id ≡ id =
      (==_iff op.id id).0 (first_sat (λ (o : Operation). o.id == id) db.operations op found) in
    (
      s,
      find-seal id row s db' own ((sealed_row-Replaces row c now sig).0 ∙ own) found,
      sealed_row-status row c now sig,
      sealed_row-chain row c now sig,
    )

-- Where the operation is there, has no archived original, the object store takes the write and the
-- commit goes through, so does the audit. It leaves the operation completed, whatever its status was, also `escalated`
-- or `rejected`, and seals it with the chain hash of its completed form.
pub process_audit-completes :
    (services : Services) (now id : ℕ) (w : World) {op : Operation}
    → any (archives id) w.db.artifacts ≡ false
    → find_operation id w.db ≡ some op
    → services.stores id (document_of (find_outbox id w.db)) ≡ true
    → services.commits id ≡ true
    → ((process_audit services now id w).1 ≡ success)
      × ((s : Operation) × (find_operation id (process_audit services now id w).0.db ≡ some s)
          × (s.status ≡ completed)
          × (s.chain_hash ≡ some (audit_seal services now op w.db)))
unfolding process_audit audit_finish audit_upload audit_loaded upload put_object audit_commit
process_audit-completes services now id w {op} fresh found stores commits =
    let document = document_of (find_outbox id w.db) in
    let digest = services.host.sha256 document in
    let run : process_audit services now id w ≡ (
      record w {
        db = complete_operation services now id op digest w.db;
        objects = (id, document) ∷ w.objects;
      },
      success,
    ) =
      ap
        (λ b.
          audit_finish services now id
            (if b then done skipped else audit_loaded services id (find_operation id w.db) w) w)
        fresh
      ∙ ap (λ o. audit_finish services now id (audit_loaded services id o w) w) found
      ∙ ap
          (λ b.
            audit_finish services now id
              (upload (if b then some (digest, (id, document) ∷ w.objects) else none)) w)
          stores
      ∙ rw (found, audit_commit) (rw (commits) refl) in
    rw run (refl, complete_operation-find services now id op digest w.db found)
