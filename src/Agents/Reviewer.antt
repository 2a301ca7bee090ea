-- ===== src/Agents/Reviewer.antt =====
-- `_process_review_async` of apps/workers/agents/reviewer_agent.py: what it logs about an escalated
-- operation. It writes nothing.
use safe_context.Base.{
  ℕ, String, Bool, true, false, List, Option, none, some, map, filter, length, if◌then◌else◌,
}
use safe_context.Store.{Severity, high, Operation, Finding}
use safe_context.Agents.{
  World, Outcome, success, failure, skipped, is_escalated, find_operation, findings_of,
}
use safe_context.Agents.Detector.{is_critical}

abbrev is_high : Severity → Bool
is_high high = true
is_high _ = false

-- The counts and detectors of the log entry `operation_escalated`.
pub record Escalation : Type 0 where
  pub actor_id : ℕ
  pub findings_total : ℕ
  pub critical_findings : ℕ
  pub high_findings : ℕ
  pub critical_detectors : List String

unfoldable pub escalation_log : Operation → List Finding → Escalation
escalation_log op findings =
    let critical_findings = filter (λ (f : Finding). is_critical f.severity) findings in
    let high_findings = filter (λ (f : Finding). is_high f.severity) findings in
    record {
      actor_id = op.actor_id;
      findings_total = length findings;
      critical_findings = length critical_findings;
      high_findings = length high_findings;
      critical_detectors = map (λ f. f.detector) critical_findings;
    }

-- `_process_review_async`: the outcome and the log entry.
unfoldable pub process_review : ℕ → World → Outcome × Option Escalation
unfolding escalation_log find_operation findings_of
process_review id w = elim (find_operation id w.db) [
  | none ↦ (failure, none)
  | some op ↦
      if is_escalated op.status
      then (success, some (escalation_log op (findings_of id w.db)))
      else (skipped, none)
]
