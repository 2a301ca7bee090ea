-- ===== src/Agents/Redelivery.antt =====
-- What a second delivery of a message does.
use mathlib.Core.Path.{subst}
use safe_context.Base.{
  ℕ, Bool, true, false, ◌≢◌, ◌≡◌, refl, sym, ap, ◌∙◌, inl, inr, List, [], ◌∷◌, ◌++◌, Option, none,
  some, arith, any, map, ◌==◌, if◌then◌else◌, Bool-cases, Option-cases,
}
use safe_context.Store.{
  Text, Operation, Artifact, original, Redaction, Finding, Db, Task, rescan_operation,
  process_audit as audit_message,
}
use safe_context.Evidence.Seal.{seal_operation}
use safe_context.Agents.{
  Services, World, Outcome, success, skipped, raised, find_operation, findings_of, send, send_each,
}
use safe_context.Agents.Auditor.{
  archives, complete_operation, Uploaded, done, uploaded, upload, put_object, audit_loaded,
  audit_upload, audit_commit, audit_finish, process_audit,
}
use safe_context.Agents.Sanitizer.{redaction_row, sanitize_operation, process_sanitize}
use safe_context.Agents.Database.{any-append}

-- Behind an audit that went through, its artifact is there.
complete_operation-archives :
    (services : Services) (now id : ℕ) (op : Operation) (digest : Text) (db : Db)
    → any (archives id) (complete_operation services now id op digest db).artifacts ≡ true
unfolding complete_operation seal_operation
complete_operation-archives services now id op digest db =
    let artifact : Artifact = record {
      operation_id = id;
      artifact_type = original;
      digest = digest;
      worm_locked = true;
    } in
    any-append (archives id) db.artifacts (artifact ∷ []) ∙ ground arith

audit_commit-archives :
    (services : Services) (now id : ℕ) (digest : Text) (w : World)
    → (audit_commit services now id digest w).1 ≡ success
    → any (archives id) (audit_commit services now id digest w).0.db.artifacts ≡ true
unfolding audit_commit
audit_commit-archives services now id digest w h = elim (Option-cases (find_operation id w.db)) [
  | inl e ↦ absurd (cc (rw (e, audit_commit) at h))
  | inr (op, e) ↦ elim (Bool-cases (services.commits id)) [
    | inl y ↦ rw (e, y, audit_commit) (complete_operation-archives services now id op digest w.db)
    | inr n ↦ absurd (cc (rw (e, n, audit_commit) at h))
  ]
]

-- The part up to the upload never counts as a success.
Unfinished : Uploaded → Type 0
Unfinished (done outcome) = outcome ≢ success
Unfinished (uploaded digest objects) = Unit

audit_upload-Unfinished :
    (services : Services) (id : ℕ) (w : World) → Unfinished (audit_upload services id w)
unfolding audit_upload audit_loaded upload put_object Unfinished
audit_upload-Unfinished services id w =
    by_archive (any (archives id) w.db.artifacts) (find_operation id w.db)
  where
    by_store :
        (stores : Bool) (digest : Text) (objects : List (ℕ × Text))
        → Unfinished (upload (if stores then some (digest, objects) else none))
    by_store true digest objects = tt
    by_store false digest objects = λ e. absurd (cc e)

    by_operation : (o : Option Operation) → Unfinished (audit_loaded services id o w)
    by_operation none = λ e. absurd (cc e)
    by_operation (some op) = by_store _ _ _

    by_archive :
        (b : Bool) (o : Option Operation)
        → Unfinished (if b then done skipped else audit_loaded services id o w)
    by_archive true o = λ e. absurd (cc e)
    by_archive false o = by_operation o

process_audit-archives :
    (services : Services) (now id : ℕ) (w : World)
    → (process_audit services now id w).1 ≡ success
    → any (archives id) (process_audit services now id w).0.db.artifacts ≡ true
unfolding process_audit audit_finish Unfinished
process_audit-archives services now id w =
    by_upload (audit_upload services id w) (audit_upload-Unfinished services id w)
  where
    by_upload :
        (u : Uploaded)
        → Unfinished u
        → (audit_finish services now id u w).1 ≡ success
        → any (archives id) (audit_finish services now id u w).0.db.artifacts ≡ true
    by_upload (done outcome) k h = absurd (k h)
    by_upload (uploaded digest objects) k h =
        audit_commit-archives services now id digest (record w { objects = objects }) h

-- An audit that went through is not made again: a second delivery, at any time, leaves the database,
-- the messages and the object store as they are.
pub process_audit-twice :
    (services services' : Services) (now later id : ℕ) (w : World)
    → (process_audit services now id w).1 ≡ success
    → process_audit services' later id (process_audit services now id w).0
      ≡ ((process_audit services now id w).0, skipped)
unfolding process_audit audit_upload audit_finish
process_audit-twice services services' now later id w h =
    let w' = (process_audit services now id w).0 in
    ap
      (λ b.
        audit_finish services' later id
          (if b then done skipped else audit_loaded services' id (find_operation id w'.db) w') w')
      (process_audit-archives services now id w h)

-- Behind a run over a finding, its redaction is there.
redactions_there :
    (id : ℕ) (op : Operation) (f : Finding) (fs : List Finding) (rows : List Redaction)
    → any (λ r. r.operation_id == id) (rows ++ map (redaction_row op id) (f ∷ fs)) ≡ true
redactions_there id op f fs rows =
    any-append (λ (r : Redaction). r.operation_id == id) rows (map (redaction_row op id) (f ∷ fs))
    ∙ ground arith

-- The sanitizer's session, as it ends for an operation that has no redactions.
abbrev sanitized_world : (Task → Bool) → ℕ → Operation → World → World × Outcome
sanitized_world sends id op w =
    send_each sends (audit_message id ∷ rescan_operation id ∷ []) (sanitize_operation id op w)

skips :
    (sends : Task → Bool) (id : ℕ) (w : World)
    → any (λ r. r.operation_id == id) w.db.redactions ≡ true
    → process_sanitize sends id w ≡ (w, skipped)
unfolding process_sanitize
skips sends id w h = rw (h, process_sanitize) refl

runs :
    (sends : Task → Bool) (id : ℕ) (w : World) {op : Operation}
    → any (λ r. r.operation_id == id) w.db.redactions ≡ false
    → find_operation id w.db ≡ some op
    → process_sanitize sends id w ≡ sanitized_world sends id op w
unfolding process_sanitize
runs sends id w fresh found = rw (fresh, process_sanitize) (rw (found, process_sanitize) refl)

-- Take an operation that has a finding and no redactions yet, and a sanitizer run at which the broker
-- refuses the message to the auditor. The run raises and no message is sent, but its rows stay: every
-- later delivery, with whatever broker, is skipped and leaves all as it is, so that neither the auditor nor
-- the rescan ever hears of the operation from the sanitizer.
pub process_sanitize-loses :
    (sends later : Task → Bool) (id : ℕ) (w : World) {op : Operation} {f : Finding}
    {fs : List Finding}
    → any (λ r. r.operation_id == id) w.db.redactions ≡ false
    → find_operation id w.db ≡ some op
    → findings_of id w.db ≡ f ∷ fs
    → sends (audit_message id) ≡ false
    → let r = process_sanitize sends id w in
      (r.1 ≡ raised) × (r.0.queue ≡ w.queue) × (process_sanitize later id r.0 ≡ (r.0, skipped))
unfolding sanitize_operation send_each
process_sanitize-loses sends later id w {op} {f} {fs} fresh found some_finding refused =
    let w' = sanitize_operation id op w in
    let run : process_sanitize sends id w ≡ (w', raised) =
      runs sends id w fresh found
      ∙ ap
          (λ b.
            if b
            then send_each sends (rescan_operation id ∷ []) (send (audit_message id) w')
            else (w', raised))
          refused in
    let there : any (λ r. r.operation_id == id) w'.db.redactions ≡ true =
      ap (λ gs. any (λ r. r.operation_id == id) (w.db.redactions ++ map (redaction_row op id) gs))
        some_finding
      ∙ redactions_there id op f fs w.db.redactions in
    subst
      (λ (r : World × Outcome).
        (r.1 ≡ raised) × (r.0.queue ≡ w.queue) × (process_sanitize later id r.0 ≡ (r.0, skipped)))
      (sym run) (refl, refl, skips later id w' there)
