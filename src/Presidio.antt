-- ===== src/Presidio.antt =====
-- The filter behind Presidio: `PresidioDetector.detect` of apps/workers/ml/presidio_detector.py. The analyzer
-- and the methods of `str` are parameters; a confidence is counted in ten-thousandths.
use text.Mathlib.Text.{◌==◌ as str_eq}
use Prim.Native.String.{◌++◌ as str_append}
use safe_context.Base.{
  ℕ, ◌-◌, String, Bool, false, not, ◌&&◌, ◌||◌, List, [], ◌∷◌, Option, none, some, any, filter, map,
  take, drop, if◌then◌else◌,
}
use safe_context.Store.{Text, Severity, low, medium, high, critical, Detection}
use safe_context.Evidence.{text_eq}
use safe_context.Agents.{Policy}
use safe_context.Strings.{contains, after_last}

-- `RecognizerResult`
pub record Recognized : Type 0 where
  pub entity_type : String
  pub start : ℕ
  pub end : ℕ
  pub score : ℕ

-- The analyzer, for entities, a threshold and a text (`none` where it raises), `str.strip().lower()`, and
-- `str.lower` of the name of an entity.
pub record Analyzer : Type 0 where
  pub analyze : List String → ℕ → Text → Option (List Recognized)
  pub normalize : Text → Text
  pub lower_name : String → String

-- `_SEVERITY.get(entity_type, "medium")`
unfoldable pub entity_severity : String → Severity
entity_severity entity_type =
    if str_eq entity_type "EMAIL_ADDRESS"
    then medium
    else if str_eq entity_type "PHONE_NUMBER"
    then medium
    else if str_eq entity_type "PERSON"
    then medium
    else if str_eq entity_type "API_KEY"
    then critical
    else if str_eq entity_type "PASSWORD"
    then critical
    else if str_eq entity_type "CREDIT_CARD"
    then high
    else if str_eq entity_type "SSN"
    then critical
    else if str_eq entity_type "IBAN_CODE"
    then high
    else if str_eq entity_type "IP_ADDRESS"
    then low
    else if str_eq entity_type "MEDICAL_RECORD"
    then critical
    else medium

-- `_DEFAULT_ENTITIES`
abbrev pub default_entities : List String
default_entities =
    "EMAIL_ADDRESS" ∷ "PHONE_NUMBER" ∷ "PERSON" ∷ "CREDIT_CARD" ∷ "IBAN_CODE" ∷ "IP_ADDRESS" ∷ "SSN"
    ∷ "API_KEY" ∷ []

-- `_PERSON_DENYLIST`
abbrev pub person_denylist : List Text
person_denylist =
    (b'c' ∷ b'o' ∷ b'n' ∷ b't' ∷ b'a' ∷ b'c' ∷ b't' ∷ b'o' ∷ [])
    ∷ (b'c' ∷ b'o' ∷ b'n' ∷ b't' ∷ b'a' ∷ b'c' ∷ b't' ∷ [])
    ∷ (b'c' ∷ b'o' ∷ b'r' ∷ b'r' ∷ b'e' ∷ b'o' ∷ [])
    ∷ (b'e' ∷ b'm' ∷ b'a' ∷ b'i' ∷ b'l' ∷ [])
    ∷ (b'c' ∷ b'o' ∷ b'n' ∷ b't' ∷ b'r' ∷ b'a' ∷ b's' ∷ b'e' ∷ 241 ∷ b'a' ∷ [])
    ∷ (b'p' ∷ b'a' ∷ b's' ∷ b's' ∷ b'w' ∷ b'o' ∷ b'r' ∷ b'd' ∷ [])
    ∷ (b'u' ∷ b's' ∷ b'u' ∷ b'a' ∷ b'r' ∷ b'i' ∷ b'o' ∷ [])
    ∷ (b'u' ∷ b's' ∷ b'e' ∷ b'r' ∷ [])
    ∷ (b'n' ∷ b'o' ∷ b'm' ∷ b'b' ∷ b'r' ∷ b'e' ∷ [])
    ∷ (b'n' ∷ b'a' ∷ b'm' ∷ b'e' ∷ [])
    ∷ (b'd' ∷ b'i' ∷ b'r' ∷ b'e' ∷ b'c' ∷ b'c' ∷ b'i' ∷ 243 ∷ b'n' ∷ [])
    ∷ (b'a' ∷ b'd' ∷ b'd' ∷ b'r' ∷ b'e' ∷ b's' ∷ b's' ∷ [])
    ∷ (b't' ∷ b'e' ∷ b'l' ∷ 233 ∷ b'f' ∷ b'o' ∷ b'n' ∷ b'o' ∷ [])
    ∷ (b'p' ∷ b'h' ∷ b'o' ∷ b'n' ∷ b'e' ∷ [])
    ∷ (b'c' ∷ b'l' ∷ b'a' ∷ b'v' ∷ b'e' ∷ [])
    ∷ (b'l' ∷ b'l' ∷ b'a' ∷ b'v' ∷ b'e' ∷ [])
    ∷ (b'k' ∷ b'e' ∷ b'y' ∷ [])
    ∷ (b't' ∷ b'o' ∷ b'k' ∷ b'e' ∷ b'n' ∷ [])
    ∷ (b'd' ∷ b'a' ∷ b't' ∷ b'o' ∷ [])
    ∷ (b'd' ∷ b'a' ∷ b't' ∷ b'o' ∷ b's' ∷ [])
    ∷ (b'a' ∷ b'p' ∷ b'i' ∷ [])
    ∷ (b'u' ∷ b'r' ∷ b'l' ∷ [])
    ∷ (b'h' ∷ b't' ∷ b't' ∷ b'p' ∷ [])
    ∷ (b'h' ∷ b't' ∷ b't' ∷ b'p' ∷ b's' ∷ [])
    ∷ (b'l' ∷ b'o' ∷ b'c' ∷ b'a' ∷ b'l' ∷ b'h' ∷ b'o' ∷ b's' ∷ b't' ∷ [])
    ∷ (b's' ∷ b'e' ∷ b'r' ∷ b'v' ∷ b'e' ∷ b'r' ∷ [])
    ∷ (b'd' ∷ b'a' ∷ b't' ∷ b'a' ∷ b'b' ∷ b'a' ∷ b's' ∷ b'e' ∷ [])
    ∷ (b'a' ∷ b'd' ∷ b'm' ∷ b'i' ∷ b'n' ∷ [])
    ∷ (b'r' ∷ b'o' ∷ b'o' ∷ b't' ∷ [])
    ∷ (b's' ∷ b'y' ∷ b's' ∷ b't' ∷ b'e' ∷ b'm' ∷ [])
    ∷ (b's' ∷ b'e' ∷ b'r' ∷ b'v' ∷ b'i' ∷ b'c' ∷ b'e' ∷ [])
    ∷ (b'c' ∷ b'l' ∷ b'i' ∷ b'e' ∷ b'n' ∷ b't' ∷ [])
    ∷ (b'h' ∷ b'o' ∷ b's' ∷ b't' ∷ [])
    ∷ (b'm' ∷ b'i' ∷ [])
    ∷ (b't' ∷ b'u' ∷ [])
    ∷ (b's' ∷ b'u' ∷ [])
    ∷ (b'e' ∷ b'l' ∷ [])
    ∷ (b'l' ∷ b'a' ∷ [])
    ∷ (b'l' ∷ b'o' ∷ b's' ∷ [])
    ∷ (b'l' ∷ b'a' ∷ b's' ∷ [])
    ∷ []

-- `_EXEMPT_EMAIL_DOMAINS`
abbrev pub exempt_email_domains : List Text
exempt_email_domains =
    (b't' ∷ b'e' ∷ b's' ∷ b't' ∷ b'.' ∷ b'c' ∷ b'o' ∷ b'm' ∷ [])
    ∷ (b't' ∷ b'e' ∷ b's' ∷ b't' ∷ b'.' ∷ b'l' ∷ b'o' ∷ b'c' ∷ b'a' ∷ b'l' ∷ [])
    ∷ (b't' ∷ b'e' ∷ b's' ∷ b't' ∷ b'.' ∷ b'o' ∷ b'r' ∷ b'g' ∷ [])
    ∷ (b't' ∷ b'e' ∷ b's' ∷ b't' ∷ b'.' ∷ b'n' ∷ b'e' ∷ b't' ∷ [])
    ∷ (b'e' ∷ b'x' ∷ b'a' ∷ b'm' ∷ b'p' ∷ b'l' ∷ b'e' ∷ b'.' ∷ b'c' ∷ b'o' ∷ b'm' ∷ [])
    ∷ (b'e' ∷ b'x' ∷ b'a' ∷ b'm' ∷ b'p' ∷ b'l' ∷ b'e' ∷ b'.' ∷ b'o' ∷ b'r' ∷ b'g' ∷ [])
    ∷ (b'e' ∷ b'x' ∷ b'a' ∷ b'm' ∷ b'p' ∷ b'l' ∷ b'e' ∷ b'.' ∷ b'n' ∷ b'e' ∷ b't' ∷ [])
    ∷ (b'l' ∷ b'o' ∷ b'c' ∷ b'a' ∷ b'l' ∷ b'h' ∷ b'o' ∷ b's' ∷ b't' ∷ [])
    ∷ (b'l' ∷ b'o' ∷ b'c' ∷ b'a' ∷ b'l' ∷ [])
    ∷ (b'i' ∷ b'n' ∷ b'v' ∷ b'a' ∷ b'l' ∷ b'i' ∷ b'd' ∷ [])
    ∷ (b't' ∷ b'e' ∷ b's' ∷ b't' ∷ b'm' ∷ b'a' ∷ b'i' ∷ b'l' ∷ b'.' ∷ b'c' ∷ b'o' ∷ b'm' ∷ [])
    ∷ (b'm' ∷ b'a' ∷ b'i' ∷ b'l' ∷ b't' ∷ b'e' ∷ b's' ∷ b't' ∷ b'.' ∷ b'c' ∷ b'o' ∷ b'm' ∷ [])
    ∷ []

-- "[REDACTED]"
abbrev pub redacted_text : Text
redacted_text = (b'[' ∷ b'R' ∷ b'E' ∷ b'D' ∷ b'A' ∷ b'C' ∷ b'T' ∷ b'E' ∷ b'D' ∷ b']' ∷ [])

abbrev is_listed : List Text → Text → Bool
is_listed ts s = any (λ t. text_eq t s) ts

-- The tests that skip a result.
unfoldable pub is_skipped : Analyzer → Text → Recognized → Bool
unfolding contains after_last text_eq
is_skipped a text r =
    let matched_text = take (r.end - r.start) (drop r.start text) in
    contains redacted_text matched_text
    || ((str_eq r.entity_type "PERSON" && is_listed person_denylist (a.normalize matched_text))
        || (str_eq r.entity_type "EMAIL_ADDRESS"
            && (contains (b'@' ∷ []) matched_text
                && is_listed exempt_email_domains (a.normalize (after_last b'@' matched_text)))))

-- The finding of a result that is kept.
unfoldable pub recognized_finding : Analyzer → Recognized → Detection
unfolding entity_severity
recognized_finding a r = record {
  detector = str_append "presidio." r.entity_type;
  rule_id = str_append "presidio_" (a.lower_name r.entity_type);
  span_start = r.start;
  span_end = r.end;
  confidence = r.score;
  severity = entity_severity r.entity_type;
  explanation = record {
    entity_type = some r.entity_type;
    pattern = none;
    matched_preview = none;
    is_post_sanitization = false;
  };
}

-- The loop over the results
unfoldable pub kept_findings : Analyzer → Text → Option (List Recognized) → List Detection
unfolding is_skipped recognized_finding
kept_findings a text none = []
kept_findings a text (some results) =
    map (recognized_finding a) (filter (λ r. not (is_skipped a text r)) results)

-- `policy.get("entities", _DEFAULT_ENTITIES)`
abbrev pub entities_of : Policy → List String
entities_of policy = elim policy.entities [ none ↦ default_entities | some es ↦ es ]

-- `policy.get("score_threshold", 0.5)`
abbrev pub threshold_of : Policy → ℕ
threshold_of policy = elim policy.score_threshold [ none ↦ 5000 | some n ↦ n ]

-- `detect`
unfoldable pub presidio_detect : Analyzer → Policy → Text → List Detection
unfolding kept_findings
presidio_detect a policy text =
    kept_findings a text (a.analyze (entities_of policy) (threshold_of policy) text)
