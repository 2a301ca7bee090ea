-- ===== src/Agents/Rescan.antt =====
-- `_rescan_operation_async` of apps/workers/agents/rescan_agent.py
use safe_context.Base.{
  ℕ, Bool, true, false, not, ◌&&◌, List, [], ◌∷◌, ◌++◌, Option, none, some, map, any, ◌==◌,
  if◌then◌else◌,
}
use safe_context.Store.{
  Text, OperationStatus, completed, escalated, approved, rejected, Operation, Detection, Finding,
  Task, process_review,
}
use safe_context.Detect.{merge_findings}
use safe_context.Agents.{
  Policy, Services, World, Outcome, success, failure, skipped, residual, raised, is_pending,
  find_operation, update_operation, insert_findings, send,
}

-- The statuses that the rescan may turn into `escalated`.
abbrev pub may_escalate : OperationStatus → Bool
may_escalate escalated = false
may_escalate rejected = false
may_escalate approved = false
may_escalate _ = true

-- `{}`: no entities and no threshold
abbrev pub permissive : Policy
permissive = record { entities = none; score_threshold = none }

-- `{**f.explanation, "is_post_sanitization": True}`
abbrev pub mark_residual : Detection → Detection
mark_residual d =
    let e = d.explanation in record d { explanation = record e { is_post_sanitization = true } }

abbrev pub is_residual : ℕ → Finding → Bool
is_residual id f = f.operation_id == id && f.explanation.is_post_sanitization

-- What is left of the sensitive data in the sanitized text.
unfoldable pub residual_findings : Services → Text → List Detection
unfolding merge_findings
residual_findings services text =
    merge_findings (services.regex text) (services.presidio permissive text)

-- The branch with findings. The reviewer's message goes out before the session commits: where the
-- constraint refuses a row, the UPDATE of the status, if it is made, raises first by its flush, and
-- else the message is already sent. A broker that refuses it makes the actor raise.
unfoldable pub escalate_residual :
    (Task → Bool) → ℕ → Operation → List Detection → World → World × Outcome
unfolding insert_findings update_operation
escalate_residual sends id op findings w =
    elim (insert_findings id (map mark_residual findings) w.db) [
      | none ↦ (
        record w {
          queue =
              if not (may_escalate op.status) && sends (process_review id)
              then w.queue ++ (process_review id ∷ [])
              else w.queue;
        },
        raised,
      )
      | some db ↦
          let changed = update_operation id (λ o. record o { status = escalated }) db in
          let sent =
            send (process_review id)
              (record w { db = if may_escalate op.status then changed else db }) in
          if sends (process_review id) then (sent, residual) else (w, raised)
    ]

-- The branch without findings.
unfoldable pub confirm_clean : ℕ → Operation → World → World × Outcome
unfolding update_operation
confirm_clean id op w =
    let changed = update_operation id (λ o. record o { status = completed }) w.db in
    (record w { db = if is_pending op.status then changed else w.db }, success)

-- What the findings in the sanitized text lead to.
unfoldable pub act_on_findings :
    (Task → Bool) → ℕ → Operation → List Detection → World → World × Outcome
unfolding escalate_residual confirm_clean
act_on_findings sends id op [] w = confirm_clean id op w
act_on_findings sends id op (d ∷ ds) w = escalate_residual sends id op (d ∷ ds) w

-- From the sanitized text on; an empty one counts as none.
unfoldable pub rescan_text : Services → ℕ → Operation → Option Text → World → World × Outcome
unfolding act_on_findings residual_findings
rescan_text services id op none w = (w, skipped)
rescan_text services id op (some []) w = (w, skipped)
rescan_text services id op (some (c ∷ text)) w =
    if any (is_residual id) w.db.findings
    then (w, skipped)
    else act_on_findings services.sends id op (residual_findings services (c ∷ text)) w

unfoldable pub rescan_loaded : Services → ℕ → Option Operation → World → World × Outcome
unfolding rescan_text
rescan_loaded services id none w = (w, failure)
rescan_loaded services id (some op) w = rescan_text services id op op.sanitized_text w

-- `_rescan_operation_async`
unfoldable pub rescan_operation : Services → ℕ → World → World × Outcome
unfolding rescan_loaded find_operation
rescan_operation services id w = rescan_loaded services id (find_operation id w.db) w
