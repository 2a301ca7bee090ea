-- ===== src/Sanitize.antt =====
-- `_apply_redactions` of apps/workers/agents/sanitizer_agent.py: the text of a document with its
-- sensitive spans replaced.
pub mod Masked
pub mod Exact
pub mod Redacts
pub mod Secrecy
pub mod Overlap
use safe_context.Base.{
  ℕ, ◌+◌, max, List, [], ◌∷◌, ◌++◌, take, drop, sorted_desc, sorted_with, ◌==◌, if◌then◌else◌,
}
use safe_context.Store.{Text, Severity, RedactionType, mask, remove, replace, Finding}

-- `"[REDACTED]"`
abbrev pub redacted_marker : Text
redacted_marker = b'[' ∷ b'R' ∷ b'E' ∷ b'D' ∷ b'A' ∷ b'C' ∷ b'T' ∷ b'E' ∷ b'D' ∷ b']' ∷ []

-- `_REDACTION_MARKERS`
unfoldable pub redaction_marker : RedactionType → Text
redaction_marker mask = redacted_marker
redaction_marker remove = []
redaction_marker replace = redacted_marker

-- `_severity_to_redaction_type`
unfoldable pub severity_to_redaction_type : Severity → RedactionType
severity_to_redaction_type Severity.critical = mask
severity_to_redaction_type Severity.high = mask
severity_to_redaction_type Severity.medium = mask
severity_to_redaction_type Severity.low = replace

-- `dict[uuid.UUID, str]`, newest entry first.
abbrev pub RedactionMap : Type 0
RedactionMap = List (ℕ × RedactionType)

-- `redaction_map.get(f.id, "mask")`
unfoldable pub redaction_for : RedactionMap → ℕ → RedactionType
redaction_for [] id = mask
redaction_for ((k, t) ∷ m) id = if k == id then t else redaction_for m id

-- `chars[a:b] = marker`: a slice that ends before it starts is empty, and lies at its start.
unfoldable pub splice : ℕ → ℕ → Text → Text → Text
splice a b marker chars = take a chars ++ (marker ++ drop (max a b) chars)

-- The loop over the sorted findings.
unfoldable pub redact_loop : (Finding → Text) → List Finding → Text → Text
redact_loop marker [] chars = chars
redact_loop marker (f ∷ fs) chars =
    redact_loop marker fs (splice f.span_start f.span_end (marker f) chars)

-- `_apply_redactions`
unfoldable pub apply_redactions : Text → List Finding → RedactionMap → Text
unfolding redact_loop splice redaction_marker redaction_for sorted_with
apply_redactions text findings redactions =
    redact_loop (λ f. redaction_marker (redaction_for redactions f.id))
      (sorted_desc (λ f. f.span_start) findings) text
