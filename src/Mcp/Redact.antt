-- ===== src/Mcp/Redact.antt =====
-- `tool_sanitize` of apps/api/mcp/router.py, which merges overlapping spans before it replaces them.
pub mod Covering
use safe_context.Base.{
  ℕ, Bool, true, false, ◌&&◌, ◌||◌, List, [], ◌∷◌, ◌++◌, Option, none, some, max, take, drop, ltb,
  leb, ◌==◌, if◌then◌else◌, sorted_with,
}
use safe_context.Store.{
  Text, OperationStatus, RedactionType, mask, remove, replace, Operation, Finding, Outbox, Db,
}
use safe_context.Evidence.{Host}
use safe_context.Sanitize.{redacted_marker}
use safe_context.Agents.{findings_of, is_escalated}
use safe_context.Mcp.{Found, absent, found, several, operation_of_trace, outbox_of_operation}

-- An entry of `merged`
pub record Span : Type 0 where
  pub start : ℕ
  pub end : ℕ
  pub group : List Finding

-- `sorted(findings, key=lambda x: (x.span_start, x.span_end))`
unfoldable pub sorted_findings : List Finding → List Finding
unfolding sorted_with
sorted_findings = sorted_with (λ x y.
    ltb x.span_start y.span_start || (x.span_start == y.span_start && leb x.span_end y.span_end))

-- One round of the loop, on `merged` with its last entry first.
unfoldable pub extend : Finding → List Span → List Span
extend f [] = record { start = f.span_start; end = f.span_end; group = f ∷ [] } ∷ []
extend f (s ∷ merged) =
    if ltb f.span_start s.end
    then record s { end = max s.end f.span_end; group = s.group ++ (f ∷ []) } ∷ merged
    else record { start = f.span_start; end = f.span_end; group = f ∷ [] } ∷ s ∷ merged

unfoldable pub merge_loop : List Finding → List Span → List Span
unfolding extend
merge_loop [] merged = merged
merge_loop (f ∷ fs) merged = merge_loop fs (extend f merged)

-- `reversed(merged)`
unfoldable pub merged_spans : List Finding → List Span
unfolding merge_loop sorted_findings
merged_spans findings = merge_loop (sorted_findings findings) []

-- The replacement for a span; an empty token counts as none.
unfoldable pub replacement_for : RedactionType → Option Text → Text
replacement_for mask token = redacted_marker
replacement_for remove token = []
replacement_for replace none = redacted_marker
replacement_for replace (some []) = redacted_marker
replacement_for replace (some (c ∷ token)) = c ∷ token

-- The loop over `reversed(merged)`
unfoldable pub replace_spans : Text → List Span → Text → Text
replace_spans replacement [] sanitized = sanitized
replace_spans replacement (s ∷ spans) sanitized =
    replace_spans replacement spans
      (take s.start sanitized ++ (replacement ++ drop s.end sanitized))

unfoldable pub sanitized_text : Text → List Finding → Text → Text
unfolding merged_spans replace_spans
sanitized_text replacement findings document =
    replace_spans replacement (merged_spans findings) document

-- The findings behind the entries of `redaction_map`: the loop's order, reversed.
unfoldable pub redaction_entries : List Span → List Finding
redaction_entries [] = []
redaction_entries (s ∷ spans) = redaction_entries spans ++ reversed s.group
  where
    reversed : List Finding → List Finding
    reversed [] = []
    reversed (f ∷ fs) = reversed fs ++ (f ∷ [])

-- `SanitizeToolRequest`
pub record SanitizeRequest : Type 0 where
  pub trace_id : ℕ
  pub redaction_type : RedactionType
  pub replacement_token : Option Text

-- `SanitizeToolResponse`, or the status of an `HTTPException`
pub data SanitizeReply : Type 0 where
  sanitize_error : ℕ → SanitizeReply
  sanitize_result : (document digest : Text) → (redacted : List Finding) → SanitizeReply

sanitize_document : Host → SanitizeRequest → Operation → Text → Db → SanitizeReply
sanitize_document host request op [] db = sanitize_error 410
sanitize_document host request op (c ∷ text) db =
    let findings = findings_of op.id db in
    let replacement = replacement_for request.redaction_type request.replacement_token in
    let sanitized = sanitized_text replacement findings (c ∷ text) in
    sanitize_result sanitized (host.sha256 sanitized) (redaction_entries (merged_spans findings))

sanitize_entry : Host → SanitizeRequest → Operation → Found Outbox → Db → SanitizeReply
sanitize_entry host request op absent db = sanitize_error 410
sanitize_entry host request op several db = sanitize_error 500
sanitize_entry host request op (found entry) db =
    sanitize_document host request op entry.document_text db

sanitize_operation_found : Host → SanitizeRequest → Found Operation → Db → SanitizeReply
sanitize_operation_found host request absent db = sanitize_error 404
sanitize_operation_found host request several db = sanitize_error 500
sanitize_operation_found host request (found op) db =
    if is_escalated op.status
    then sanitize_error 409
    else sanitize_entry host request op (outbox_of_operation op.id db) db

-- `tool_sanitize`, which reads the database only.
unfoldable pub tool_sanitize : Host → SanitizeRequest → Db → SanitizeReply
unfolding sanitize_operation_found sanitize_entry sanitize_document operation_of_trace
    outbox_of_operation findings_of sanitized_text redaction_entries merged_spans replacement_for
tool_sanitize host request db =
    sanitize_operation_found host request (operation_of_trace request.trace_id db) db
