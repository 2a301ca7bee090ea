-- ===== src/Detect.antt =====
-- `_merge_findings` of apps/workers/agents/detector_agent.py, and the regex detector of
-- apps/workers/ml/regex_detector.py over an unknown matching engine.
pub mod Merged
use safe_context.Base.{
  ℕ, ◌+◌, String, Bool, true, false, not, List, [], ◌∷◌, ◌++◌, Option, none, some, min, max, map,
  any, filter, take, drop, length, ltb, ◌-◌, if◌then◌else◌, sorted_by, sorted_with,
}
use safe_context.Store.{Text, Severity, Detection}

-- `max(rf.span_start, pf.span_start) < min(rf.span_end, pf.span_end)`
abbrev pub overlaps : Detection → Detection → Bool
overlaps rf pf = ltb (max rf.span_start pf.span_start) (min rf.span_end pf.span_end)

-- `_merge_findings`
unfoldable pub merge_findings : List Detection → List Detection → List Detection
unfolding sorted_with
merge_findings regex presidio =
    sorted_by (λ f. f.span_start)
      (regex ++ filter (λ pf. not (any (λ rf. overlaps rf pf) regex)) presidio)

-- `_Rule`, with `f"regex.{rule_id.upper()}"` as its detector, and with the pattern's matcher in place of the pattern: `finditer` gives the starts and ends
-- of the matches, from left to right.
pub record Rule : Type 0 where
  pub rule_id : String
  pub detector : String
  pub finditer : Text → List (ℕ × ℕ)
  pub severity : Severity
  pub confidence : ℕ

-- `matched[:30] + "..." if len(matched) > 30 else matched`
unfoldable pub matched_preview : Text → Text
matched_preview matched =
    if ltb 30 (length matched) then take 30 matched ++ (b'.' ∷ b'.' ∷ b'.' ∷ []) else matched

-- The finding for one match.
unfoldable pub rule_finding : Text → Rule → ℕ × ℕ → Detection
rule_finding text rule (start, end) = record {
  detector = rule.detector;
  rule_id = rule.rule_id;
  span_start = start;
  span_end = end;
  confidence = rule.confidence;
  severity = rule.severity;
  explanation = record {
    entity_type = none;
    pattern = some rule.rule_id;
    matched_preview = some (matched_preview (take (end - start) (drop start text)));
    is_post_sanitization = false;
  };
}

-- The two loops of `RegexDetector.detect`
unfoldable pub rule_findings : Text → List Rule → List Detection
unfolding rule_finding
rule_findings text [] = []
rule_findings text (rule ∷ rules) =
    map (rule_finding text rule) (rule.finditer text) ++ rule_findings text rules

-- `RegexDetector.detect`, which does not look at the policy
unfoldable pub regex_detect : List Rule → Text → List Detection
unfolding rule_findings sorted_with
regex_detect rules text = sorted_by (λ f. f.span_start) (rule_findings text rules)
