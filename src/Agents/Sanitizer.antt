-- ===== src/Agents/Sanitizer.antt =====
-- `_process_sanitize_async` of apps/workers/agents/sanitizer_agent.py
use safe_context.Base.{ℕ, Bool, List, [], ◌∷◌, ◌++◌, none, some, map, any, ◌==◌, if◌then◌else◌}
use safe_context.Store.{Text, Operation, Finding, Redaction, Task, process_audit, rescan_operation}
use safe_context.Sanitize.{apply_redactions, RedactionMap, severity_to_redaction_type}
use safe_context.Agents.{
  World, Outcome, failure, skipped, find_operation, findings_of, find_outbox, document_of,
  update_operation, send_each,
}

-- `redaction_map` behind the loop over the findings
unfoldable pub redaction_map : List Finding → RedactionMap
unfolding severity_to_redaction_type
redaction_map [] = []
redaction_map (f ∷ fs) = (f.id, severity_to_redaction_type f.severity) ∷ redaction_map fs

-- The row that the loop adds for a finding.
abbrev pub redaction_row : Operation → ℕ → Finding → Redaction
redaction_row op id f = record {
  finding_id = f.id;
  operation_id = id;
  redaction_type = severity_to_redaction_type f.severity;
  policy_version = op.policy_version;
  approved_by = none;
  approval_trace_id = none;
  approved_by_agent_id = none;
}

-- The text that is stored: the document itself where nothing was found.
unfoldable pub sanitized_form : Text → List Finding → Text
unfolding apply_redactions redaction_map
sanitized_form document [] = document
sanitized_form document (f ∷ fs) = apply_redactions document (f ∷ fs) (redaction_map (f ∷ fs))

-- The session, up to its commit.
unfoldable pub sanitize_operation : ℕ → Operation → World → World
unfolding sanitized_form update_operation findings_of find_outbox
sanitize_operation id op w =
    let findings = findings_of id w.db in
    let document = document_of (find_outbox id w.db) in
    let db' = record w.db { redactions = w.db.redactions ++ map (redaction_row op id) findings } in
    let text = sanitized_form document findings in
    record w { db = update_operation id (λ o. record o { sanitized_text = some text }) db' }

-- `_process_sanitize_async`, with a broker that takes the messages for which `sends` is true.
unfoldable pub process_sanitize : (Task → Bool) → ℕ → World → World × Outcome
unfolding sanitize_operation find_operation send_each
process_sanitize sends id w =
    if any (λ r. r.operation_id == id) w.db.redactions
    then (w, skipped)
    else elim (find_operation id w.db) [
      | none ↦ (w, failure)
      | some op ↦
          send_each sends (process_audit id ∷ rescan_operation id ∷ []) (sanitize_operation id op w)
    ]
