-- ===== src/Review/Decisions.antt =====
-- What the review handlers do, and when the transaction of an approval completes the operation.
use mathlib.Core.Path.{subst}
use safe_context.Base.{
  ◌&&◌, ℕ, suc, ◌≡◌, ◌≤◌, refl, sym, ap, ◌∙◌, inl, inr, Bool, true, false, ◌||◌, List, [], ◌∷◌,
  ◌++◌, none, some, arith, filter, length, leb, ◌==◌, ==_refl, if◌then◌else◌, Bool-cases,
}
use safe_context.Store.{Operation, completed, Finding, Redaction, Db}
use safe_context.Evidence.{compute_operation_hash, compute_chain_hash, get_latest_chain_hash}
use safe_context.Evidence.Seal.{sealed_row, try_sign, put_operation, seal_operation}
use safe_context.Evidence.Replaced.{sealed_row-Replaces, sealed_row-status}
use safe_context.Agents.{find_operation, findings_of, is_escalated}
use safe_context.Agents.Completion.{find-seal}
use safe_context.Review.{
  Actor, Backend, is_self, find_finding, redactions_of, settings_config, seal_with_settings,
  approval, approve_locked,
}

-- A sealed row is found under its id, with the status it was sealed with.
seal_with_settings-find :
    (s : Backend) (now id : ℕ) (row : Operation) (db : Db) {old : Operation}
    → row.id ≡ id
    → find_operation id db ≡ some old
    → (r : Operation) × (find_operation id (seal_with_settings s now row db) ≡ some r)
      × (r.status ≡ row.status)
unfolding seal_with_settings seal_operation find_operation
seal_with_settings-find s now id row db e found =
    let c =
      compute_chain_hash s.host
        (get_latest_chain_hash (put_operation row db).operations row.tenant_id)
        (compute_operation_hash s.host row) in
    let sig = try_sign s.vault (settings_config s) (compute_operation_hash s.host row) in
    (
      sealed_row row c sig now,
      find-seal id row (sealed_row row c sig now) db e ((sealed_row-Replaces row c now sig).0 ∙ e)
          found,
      sealed_row-status row c now sig,
    )

-- How a handler ends for a caller, by what its first reads find; `self_check` says whether it makes the
-- check against self-approval.
abbrev pub refusal : Bool → Actor → ℕ → Db → ℕ
refusal self_check actor finding_id seen =
    if actor.is_reviewer || actor.is_admin
    then (elim (find_finding finding_id seen) [
      | none ↦ 404
      | some f ↦ elim (find_operation f.operation_id seen) [
        | none ↦ 500
        | some op ↦
            if is_escalated op.status
            then (if self_check && is_self op actor then 403 else 500)
            else 409
      ]
    ])
    else 403

-- The approvals counted so far.
redactions_of-approval :
    (f : Finding) (op : Operation) (actor : Actor) (db : Db)
    → length (
        redactions_of op.id
          (record db { redactions = db.redactions ++ (approval f op actor ∷ []) }))
      ≡ suc (length (redactions_of op.id db))
unfolding redactions_of
redactions_of-approval f op actor db = counted db.redactions
  where
    counted :
        (rs : List Redaction)
        → length (filter (λ r. r.operation_id == op.id) (rs ++ (approval f op actor ∷ [])))
          ≡ suc (length (filter (λ r. r.operation_id == op.id) rs))
    counted [] = rw (==_refl op.id) refl
    counted (r ∷ rs) = elim (Bool-cases (r.operation_id == op.id)) [
      | inl q ↦ rw (q) (ap (λ n. suc n) (counted rs))
      | inr q ↦ rw (q) (counted rs)
    ]

-- An approval completes the operation as soon as the redactions of the operation, this one included, are
-- as many as its findings, whichever findings they are for; otherwise it only adds the redaction.
pub approve_locked-counts :
    (s : Backend) (now : ℕ) (f : Finding) (actor : Actor) (op : Operation) (db : Db)
    → find_operation op.id db ≡ some op
    → (length (findings_of op.id db) ≤ suc (length (redactions_of op.id db))
        → (r : Operation) × (find_operation op.id (approve_locked s now f actor op db) ≡ some r)
          × (r.status ≡ completed))
      × (suc (suc (length (redactions_of op.id db))) ≤ length (findings_of op.id db)
          → approve_locked s now f actor op db
            ≡ record db { redactions = db.redactions ++ (approval f op actor ∷ []) })
unfolding approve_locked find_operation findings_of
approve_locked-counts s now f actor op db found =
    let db' = record db { redactions = db.redactions ++ (approval f op actor ∷ []) } in
    let done = record op { status = completed; completed_at = some now } in
    let counted = redactions_of-approval f op actor db in
    let own : op.id ≡ op.id = refl in
    (
      (λ few.
          let enough : leb (length (findings_of op.id db')) (length (redactions_of op.id db'))
              ≡ true =
            ground arith in
          subst
            (λ (v : Db).
              (r : Operation) × (find_operation op.id v ≡ some r) × (r.status ≡ completed))
            (sym (ap (λ b. if b then seal_with_settings s now done db' else db') enough))
            (seal_with_settings-find s now op.id done db' refl found)),
      (λ many.
          let short : leb (length (findings_of op.id db')) (length (redactions_of op.id db'))
              ≡ false =
            ground arith in
          ap (λ b. if b then seal_with_settings s now done db' else db') short),
    )
