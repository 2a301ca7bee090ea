-- ===== src/Agents/Detector.antt =====
-- `_process_scan_async` of apps/workers/agents/detector_agent.py
use safe_context.Base.{
  ℕ, Bool, true, false, List, [], ◌∷◌, none, some, map, any, update_where, ◌==◌, if◌then◌else◌,
}
use safe_context.Store.{
  Text, Severity, low, medium, high, critical, pending, escalated, Detection, Outbox, Db, Task,
  process_sanitize, process_review,
}
use safe_context.Detect.{merge_findings}
use safe_context.Agents.{
  Policy, FindingSummary, Services, World, Outcome, failure, skipped, raised, is_pending,
  find_operation, find_outbox, update_operation, insert_findings, send_each,
}

-- The value of a `Severity`
abbrev pub severity_text : Severity → Text
severity_text low = b'l' ∷ b'o' ∷ b'w' ∷ []
severity_text medium = b'm' ∷ b'e' ∷ b'd' ∷ b'i' ∷ b'u' ∷ b'm' ∷ []
severity_text high = b'h' ∷ b'i' ∷ b'g' ∷ b'h' ∷ []
severity_text critical = b'c' ∷ b'r' ∷ b'i' ∷ b't' ∷ b'i' ∷ b'c' ∷ b'a' ∷ b'l' ∷ []

abbrev pub is_critical : Severity → Bool
is_critical critical = true
is_critical _ = false

-- An entry of `findings_payload`
abbrev pub summary : Detection → FindingSummary
summary d = record {
  entity_type = elim d.explanation.entity_type [ none ↦ "UNKNOWN" | some t ↦ t ];
  severity = severity_text d.severity;
  confidence = d.confidence;
}

-- Step 6: whether a person has to look at the findings.
unfoldable pub needs_review : Services → List Detection → Bool
needs_review services [] = false
needs_review services (d ∷ ds) = elim (services.requires_review (map summary (d ∷ ds))) [
  | none ↦ any (λ f. is_critical f.severity) (d ∷ ds)
  | some answer ↦ answer
]

-- Steps 7 and 8, up to the commit.
unfoldable pub conclude_scan : ℕ → Outbox → Bool → Db → World → World
unfolding update_operation
conclude_scan id entry review db w =
    let status = if review then escalated else pending in
    let db' = update_operation id (λ o. record o { status = status }) db in
    record w {
      db = record db' {
        outbox =
            update_where (λ e. e.id == entry.id) (λ e. record e { processed = true }) db'.outbox;
      };
    }

-- The message to the next stage.
abbrev pub next_stage : ℕ → Bool → Task
next_stage id review = if review then process_review id else process_sanitize id

-- Steps 4 to 8 and the message behind the commit, for an operation that is pending and has its document.
unfoldable pub scan_document : Services → Policy → ℕ → Outbox → World → World × Outcome
unfolding conclude_scan needs_review insert_findings merge_findings send_each
scan_document services policy id entry w =
    let text = entry.document_text in
    let findings = merge_findings (services.regex text) (services.presidio policy text) in
    elim (insert_findings id findings w.db) [
      | none ↦ (w, raised)
      | some db ↦
          let review = needs_review services findings in
          send_each services.sends (next_stage id review ∷ []) (conclude_scan id entry review db w)
    ]

-- `_process_scan_async`, with the policy that `opa_client.get_policy` gave.
unfoldable pub process_scan : Services → Policy → ℕ → World → World × Outcome
unfolding scan_document find_operation find_outbox
process_scan services policy id w = elim (find_operation id w.db) [
  | none ↦ (w, failure)
  | some op ↦
      if is_pending op.status
      then (elim (find_outbox id w.db) [
        | none ↦ (w, failure)
        | some entry ↦ scan_document services policy id entry w
      ])
      else (w, skipped)
]
