-- ===== src/Agents/Sanitized.antt =====
-- What the sanitizer stores.
use mathlib.Core.Path.{fun_ext}
use safe_context.Base.{
  ℕ, ◌≡◌, ◌⊎◌, refl, sym, ap, ◌∙◌, Bool, true, false, List, [], ◌∷◌, ◌++◌, some, inl, inr, any, All,
  map, length, ◌==◌, Bool-cases,
}
use safe_context.Store.{Text, Severity, Finding, Operation, Task, process_audit, rescan_operation}
use safe_context.Sanitize.{
  redaction_marker, redaction_for, redacted_marker, severity_to_redaction_type,
}
use safe_context.Sanitize.Masked.{masked, IsWithin, IsSeparated}
use safe_context.Sanitize.Exact.{masked-EndBy}
use safe_context.Sanitize.Redacts.{apply_redactions-eq-masked}
use safe_context.Agents.{
  World, Outcome, success, raised, send_each, find_operation, findings_of, find_outbox, document_of,
}
use safe_context.Agents.Sanitizer.{
  redaction_map, redaction_row, sanitized_form, sanitize_operation, process_sanitize,
}
use safe_context.Agents.Escalation.{find-operations}
use safe_context.Agents.Database.{find-update}

severity-marker : (s : Severity) → redaction_marker (severity_to_redaction_type s) ≡ redacted_marker
unfolding redaction_marker severity_to_redaction_type
severity-marker Severity.low = refl
severity-marker _ = refl

-- Every finding gets the same marker.
map-marker :
    (fs : List Finding) (id : ℕ)
    → redaction_marker (redaction_for (redaction_map fs) id) ≡ redacted_marker
unfolding redaction_map redaction_for redaction_marker
map-marker [] id = refl
map-marker (f ∷ fs) id = elim (Bool-cases (f.id == id)) [
  | inl e ↦ rw (e, redaction_map) (severity-marker f.severity)
  | inr e ↦ rw (e, redaction_map) (map-marker fs id)
]

abbrev pub mark_all : Finding → Text
mark_all f = redacted_marker

sanitized_form-masked :
    (document : Text) (fs : List Finding)
    → All (IsWithin (length document)) fs
    → IsSeparated fs
    → sanitized_form document fs ≡ masked mark_all fs 0 document
unfolding sanitized_form
sanitized_form-masked document [] h k = sym (masked-EndBy mark_all [] 0 document tt)
sanitized_form-masked document (f ∷ fs) h k =
    apply_redactions-eq-masked document (f ∷ fs) (redaction_map (f ∷ fs)) h k
    ∙ ap (λ marker. masked marker (f ∷ fs) 0 document)
        (fun_ext (λ (g : Finding). map-marker (f ∷ fs) g.id))

-- What comes of the two messages behind the sanitizer's commit.
abbrev pub IsSent : (Task → Bool) → ℕ → World → World × Outcome → Type 0
IsSent sends id w (w', outcome) =
    ((sends (process_audit id) ≡ true)
      × (sends (rescan_operation id) ≡ true)
      × (outcome ≡ success)
      × (w'.queue ≡ (w.queue ++ (process_audit id ∷ [])) ++ (rescan_operation id ∷ [])))
    ⊎ (((sends (process_audit id) ≡ true)
          × (sends (rescan_operation id) ≡ false)
          × (outcome ≡ raised)
          × (w'.queue ≡ w.queue ++ (process_audit id ∷ [])))
        ⊎ ((sends (process_audit id) ≡ false) × (outcome ≡ raised) × (w'.queue ≡ w.queue)))

send_each-IsSent :
    (sends : Task → Bool) (id : ℕ) (w : World)
    → let r = send_each sends (process_audit id ∷ rescan_operation id ∷ []) w in
      (r.0.db ≡ w.db) × IsSent sends id w r
unfolding send_each
send_each-IsSent sends id w = elim (Bool-cases (sends (process_audit id))) [
  | inr n ↦ rw (n) (refl, inr (inr (refl, refl, refl)))
  | inl y ↦ elim (Bool-cases (sends (rescan_operation id))) [
    | inl z ↦ rw (y, z) (refl, inl (refl, refl, refl, refl))
    | inr m ↦ rw (y, m) (refl, inr (inl (refl, refl, refl, refl)))
  ]
]

-- Where the operation is there and has no redactions yet, the sanitizer stores the masked document,
-- `[REDACTED]` for each span, if the spans lie within the document and no two of them meet. It changes no
-- other field of the operation and adds one redaction for each finding. Where the broker takes both
-- messages, the run succeeds and sends the operation to the auditor and to the rescan; at the first
-- message that is refused it raises, and what was stored and sent before stays.
pub process_sanitize-stores :
    (sends : Task → Bool) (id : ℕ) (w : World) {op : Operation}
    → any (λ r. r.operation_id == id) w.db.redactions ≡ false
    → find_operation id w.db ≡ some op
    → All (IsWithin (length (document_of (find_outbox id w.db)))) (findings_of id w.db)
    → IsSeparated (findings_of id w.db)
    → let w' = (process_sanitize sends id w).0 in
      let fs = findings_of id w.db in
      (find_operation id w'.db
        ≡ some (record op {
          sanitized_text = some (masked mark_all fs 0 (document_of (find_outbox id w.db)));
        }))
      × (w'.db.redactions ≡ w.db.redactions ++ map (redaction_row op id) fs)
      × IsSent sends id w (process_sanitize sends id w)
unfolding process_sanitize sanitize_operation
process_sanitize-stores sends id w {op} fresh found within apart =
    let fs = findings_of id w.db in
    let document = document_of (find_outbox id w.db) in
    let text = sanitized_form document fs in
    let stored = sanitize_operation id op w in
    let run : process_sanitize sends id w
        ≡ send_each sends (process_audit id ∷ rescan_operation id ∷ []) stored =
      rw (fresh, process_sanitize) (rw (found, process_sanitize) refl) in
    let db' = record w.db { redactions = w.db.redactions ++ map (redaction_row op id) fs } in
    let there : find_operation id db' ≡ some op = find-operations id db' w.db refl ∙ found in
    let (rows, sent) = send_each-IsSent sends id stored in
    rw run (
      ap (find_operation id) rows
          ∙ find-update id (λ o. record o { sanitized_text = some text }) db' (λ o. refl) there
          ∙ ap (λ t. some (record op { sanitized_text = some t }))
              (sanitized_form-masked document fs within apart),
      ap (λ d. d.redactions) rows,
      sent,
    )
