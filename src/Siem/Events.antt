-- ===== src/Siem/Events.antt =====
-- The constructors of events of apps/api/core/siem.py, at the moment of `timestamp`.
use safe_context.Base.{ℕ, String, [], ◌∷◌, ◌++◌}
use safe_context.Store.{Text}
use safe_context.Siem.{severity_or, SiemEvent, decimal, text_value, other_value}

-- "findings_count"
abbrev pub key_findings_count : Text
key_findings_count =
    b'f' ∷ b'i' ∷ b'n' ∷ b'd' ∷ b'i' ∷ b'n' ∷ b'g' ∷ b's' ∷ b'_' ∷ b'c' ∷ b'o' ∷ b'u' ∷ b'n' ∷ b't'
    ∷ []

-- "status"
abbrev pub detail_status : Text
detail_status = b's' ∷ b't' ∷ b'a' ∷ b't' ∷ b'u' ∷ b's' ∷ []

-- "rule_id"
abbrev pub key_rule_id : Text
key_rule_id = b'r' ∷ b'u' ∷ b'l' ∷ b'e' ∷ b'_' ∷ b'i' ∷ b'd' ∷ []

-- "finding_severity"
abbrev pub key_finding_severity : Text
key_finding_severity =
    b'f' ∷ b'i' ∷ b'n' ∷ b'd' ∷ b'i' ∷ b'n' ∷ b'g' ∷ b'_' ∷ b's' ∷ b'e' ∷ b'v' ∷ b'e' ∷ b'r' ∷ b'i'
    ∷ b't' ∷ b'y' ∷ []

-- "confidence"
abbrev pub key_confidence : Text
key_confidence = b'c' ∷ b'o' ∷ b'n' ∷ b'f' ∷ b'i' ∷ b'd' ∷ b'e' ∷ b'n' ∷ b'c' ∷ b'e' ∷ []

-- "action"
abbrev pub key_action : Text
key_action = b'a' ∷ b'c' ∷ b't' ∷ b'i' ∷ b'o' ∷ b'n' ∷ []

-- "finding_id"
abbrev pub key_finding_id : Text
key_finding_id = b'f' ∷ b'i' ∷ b'n' ∷ b'd' ∷ b'i' ∷ b'n' ∷ b'g' ∷ b'_' ∷ b'i' ∷ b'd' ∷ []

-- "operations_deleted"
abbrev pub key_operations_deleted : Text
key_operations_deleted =
    b'o' ∷ b'p' ∷ b'e' ∷ b'r' ∷ b'a' ∷ b't' ∷ b'i' ∷ b'o' ∷ b'n' ∷ b's' ∷ b'_' ∷ b'd' ∷ b'e' ∷ b'l'
    ∷ b'e' ∷ b't' ∷ b'e' ∷ b'd' ∷ []

-- "certificate_id"
abbrev pub key_certificate_id : Text
key_certificate_id =
    b'c' ∷ b'e' ∷ b'r' ∷ b't' ∷ b'i' ∷ b'f' ∷ b'i' ∷ b'c' ∷ b'a' ∷ b't' ∷ b'e' ∷ b'_' ∷ b'i' ∷ b'd'
    ∷ []

-- "scan.completed"
abbrev pub scan_completed : Text
scan_completed =
    b's' ∷ b'c' ∷ b'a' ∷ b'n' ∷ b'.' ∷ b'c' ∷ b'o' ∷ b'm' ∷ b'p' ∷ b'l' ∷ b'e' ∷ b't' ∷ b'e' ∷ b'd'
    ∷ []

-- "finding.detected"
abbrev pub finding_detected : Text
finding_detected =
    b'f' ∷ b'i' ∷ b'n' ∷ b'd' ∷ b'i' ∷ b'n' ∷ b'g' ∷ b'.' ∷ b'd' ∷ b'e' ∷ b't' ∷ b'e' ∷ b'c' ∷ b't'
    ∷ b'e' ∷ b'd' ∷ []

-- "review."
abbrev pub review_prefix : Text
review_prefix = b'r' ∷ b'e' ∷ b'v' ∷ b'i' ∷ b'e' ∷ b'w' ∷ b'.' ∷ []

-- "retention.purge"
abbrev pub retention_purge : Text
retention_purge =
    b'r' ∷ b'e' ∷ b't' ∷ b'e' ∷ b'n' ∷ b't' ∷ b'i' ∷ b'o' ∷ b'n' ∷ b'.' ∷ b'p' ∷ b'u' ∷ b'r' ∷ b'g'
    ∷ b'e' ∷ []

-- "retention-purge-job"
abbrev pub retention_purge_job : Text
retention_purge_job =
    b'r' ∷ b'e' ∷ b't' ∷ b'e' ∷ b'n' ∷ b't' ∷ b'i' ∷ b'o' ∷ b'n' ∷ b'-' ∷ b'p' ∷ b'u' ∷ b'r' ∷ b'g'
    ∷ b'e' ∷ b'-' ∷ b'j' ∷ b'o' ∷ b'b' ∷ []

-- `scan_completed_event`, at the moment of `timestamp`
unfoldable pub scan_completed_event :
    (timestamp trace_id actor_id tenant_id : Text) (findings_count : ℕ) (status : Text)
    (severity : String)
    → SiemEvent
unfolding severity_or decimal
scan_completed_event timestamp trace_id actor_id tenant_id findings_count status severity = record {
  event_type = scan_completed;
  severity = severity_or 1 severity;
  trace_id = trace_id;
  actor_id = actor_id;
  tenant_id = tenant_id;
  details =
      (key_findings_count, other_value (decimal findings_count))
      ∷ (detail_status, text_value status)
      ∷ [];
  timestamp = timestamp;
}

-- `finding_detected_event`; a confidence is given as the text of its number, a severity also as a text.
unfoldable pub finding_detected_event :
    (timestamp trace_id actor_id tenant_id rule_id : Text) (severity : String)
    (severity_text confidence : Text)
    → SiemEvent
unfolding severity_or
finding_detected_event timestamp trace_id actor_id tenant_id rule_id severity severity_text
      confidence =
    record {
      event_type = finding_detected;
      severity = severity_or 5 severity;
      trace_id = trace_id;
      actor_id = actor_id;
      tenant_id = tenant_id;
      details =
          (key_rule_id, text_value rule_id)
          ∷ (key_finding_severity, text_value severity_text)
          ∷ (key_confidence, other_value confidence)
          ∷ [];
      timestamp = timestamp;
    }

-- `review_action_event`
unfoldable pub review_action_event :
    (timestamp trace_id actor_id tenant_id action finding_id : Text) → SiemEvent
unfolding severity_or
review_action_event timestamp trace_id actor_id tenant_id action finding_id = record {
  event_type = review_prefix ++ action;
  severity = severity_or 1 "info";
  trace_id = trace_id;
  actor_id = actor_id;
  tenant_id = tenant_id;
  details = (key_action, text_value action) ∷ (key_finding_id, text_value finding_id) ∷ [];
  timestamp = timestamp;
}

-- `retention_purge_event`
unfoldable pub retention_purge_event :
    (timestamp tenant_id : Text) (operations_deleted : ℕ) (certificate_id : Text) → SiemEvent
unfolding severity_or decimal
retention_purge_event timestamp tenant_id operations_deleted certificate_id = record {
  event_type = retention_purge;
  severity = severity_or 4 "warning";
  trace_id = certificate_id;
  actor_id = retention_purge_job;
  tenant_id = tenant_id;
  details =
      (key_operations_deleted, other_value (decimal operations_deleted))
      ∷ (key_certificate_id, text_value certificate_id)
      ∷ [];
  timestamp = timestamp;
}
