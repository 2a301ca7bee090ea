-- ===== src/Agents/Classifier.antt =====
-- `_process_classify_async` of apps/workers/agents/classifier_agent.py: the sensitivity level of an
-- operation, from its findings. It writes nothing.
use safe_context.Base.{ℕ, List, [], ◌∷◌, Option, none, some, map, ltb, if◌then◌else◌}
use safe_context.Store.{Severity, low, medium, high, critical, Finding}
use safe_context.Agents.{World, Outcome, success, failure, find_operation, findings_of}

pub data Level : Type 0 where
  restricted confidential internal public : Level

-- `_SEVERITY_RANK`
unfoldable pub severity_rank : Severity → ℕ
severity_rank critical = 4
severity_rank high = 3
severity_rank medium = 2
severity_rank low = 1

-- `_SEVERITY_TO_LEVEL`
unfoldable pub severity_to_level : Severity → Level
severity_to_level critical = restricted
severity_to_level high = confidential
severity_to_level medium = internal
severity_to_level low = public

-- `max(..., key=...)`: the first of the highest rank.
unfoldable pub highest : Severity → List Severity → Severity
unfolding severity_rank
highest best [] = best
highest best (s ∷ ss) = highest (if ltb (severity_rank best) (severity_rank s) then s else best) ss

-- `max(severity_counts or ["low"], ...)`
unfoldable pub highest_severity : List Finding → Severity
unfolding highest
highest_severity [] = low
highest_severity (f ∷ fs) = highest f.severity (map (λ g. g.severity) fs)

unfoldable pub classification_level : List Finding → Level
unfolding severity_to_level highest_severity
classification_level findings = severity_to_level (highest_severity findings)

-- `_process_classify_async`: the outcome and the level that it logs.
unfoldable pub process_classify : ℕ → World → Outcome × Option Level
unfolding classification_level find_operation findings_of
process_classify id w = elim (find_operation id w.db) [
  | none ↦ (failure, none)
  | some op ↦ (success, some (classification_level (findings_of id w.db)))
]
