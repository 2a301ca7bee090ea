-- ===== src/Agents/Unchanged.antt =====
-- What leaves the archive and the documents alone: the actors other than the auditor.
use safe_context.Base.{
  ℕ, ◌≡◌, refl, ap, ◌∙◌, inl, inr, Bool, true, false, List, [], ◌∷◌, Option, none, some, any, first,
  map, ◌==◌, if◌then◌else◌, Bool-cases, Option-cases,
}
use safe_context.Detect.{merge_findings}
use safe_context.Store.{
  Text, Operation, Db, Outbox, Detection, Task, process_audit as audit_message,
  rescan_operation as rescan_message, process_review,
}
use safe_context.Agents.{
  Policy, Services, World, find_operation, find_outbox, document_of, insert_findings, same_span,
  is_pending, send, send_each,
}
use safe_context.Agents.Database.{first-update_where}
use safe_context.Agents.Detector.{
  needs_review, next_stage, process_scan, scan_document, conclude_scan,
}
use safe_context.Agents.Sanitizer.{process_sanitize, sanitize_operation}
use safe_context.Agents.Rescan.{
  rescan_operation, rescan_loaded, rescan_text, act_on_findings, escalate_residual,
  residual_findings, is_residual, mark_residual, may_escalate,
}

-- Every operation has the document that it had.
abbrev pub SameDocuments : Db → Db → Type 0
SameDocuments db db' = (id : ℕ) → document_of (find_outbox id db') ≡ document_of (find_outbox id db)

-- The archive is as it was, and so are the documents.
abbrev pub SameArchive : World → World → Type 0
SameArchive w w' =
    (w'.db.artifacts ≡ w.db.artifacts) × (w'.objects ≡ w.objects) × SameDocuments w.db w'.db

abbrev SameRows : Db → Db → Type 0
SameRows db db' = (db'.artifacts ≡ db.artifacts) × SameDocuments db db'

pub same_outbox : (db db' : Db) → db'.outbox ≡ db.outbox → SameDocuments db db'
unfolding find_outbox
same_outbox db db' e id = ap (λ o. document_of (first (λ r. r.operation_id == id) o)) e

insert_findings-rows :
    (id : ℕ) (ds : List Detection) (db : Db) {db' : Db}
    → insert_findings id ds db ≡ some db'
    → (db'.artifacts ≡ db.artifacts) × (db'.outbox ≡ db.outbox)
unfolding insert_findings
insert_findings-rows id [] db h = (cc, cc)
insert_findings-rows id (d ∷ ds) db {db'} h = elim (Bool-cases (any (same_span id d) db.findings)) [
  | inl e ↦ absurd (cc (rw e at h))
  | inr e ↦ insert_findings-rows id ds _ (rw e at h)
]

insert_findings-SameRows :
    (id : ℕ) (ds : List Detection) (db : Db) {db' : Db}
    → insert_findings id ds db ≡ some db'
    → SameRows db db'
insert_findings-SameRows id ds db {db'} h =
    let (a, o) = insert_findings-rows id ds db h in (a, same_outbox db db' o)

-- Messages change neither.
send_each-archive :
    (sends : Task → Bool) (ts : List Task) (w v : World)
    → SameArchive v w
    → SameArchive v (send_each sends ts w).0
unfolding send_each
send_each-archive sends [] w v h = h
send_each-archive sends (t ∷ ts) w v h = elim (Bool-cases (sends t)) [
  | inl y ↦ rw (y) (send_each-archive sends ts (send t w) v h)
  | inr n ↦ rw (n) h
]

-- Marking a row as processed changes no document.
conclude_scan-archive :
    (id : ℕ) (entry : Outbox) (review : Bool) (db : Db) (w : World)
    → SameRows w.db db
    → SameArchive w (conclude_scan id entry review db w)
unfolding conclude_scan find_outbox
conclude_scan-archive id entry review db w (a, docs) = (
  a,
  refl,
  λ k.
      ap document_of (
        first-update_where (λ (e : Outbox). e.operation_id == k) (λ e. e.id == entry.id)
          (λ e. record e { processed = true }) db.outbox (λ e. refl))
      ∙ same_document k (first (λ e. e.operation_id == k) db.outbox)
      ∙ docs k,
)
  where
    marked :
        (b : Bool) (e : Outbox)
        → (if b then record e { processed = true } else e).document_text ≡ e.document_text
    marked true e = refl
    marked false e = refl

    same_document :
        (k : ℕ) (o : Option Outbox)
        → document_of (elim o [
          | none ↦ none
          | some e ↦ some (if e.id == entry.id then record e { processed = true } else e)
        ])
          ≡ document_of o
    same_document k none = refl
    same_document k (some e) = marked (e.id == entry.id) e

scan_document-archive :
    (s : Services) (p : Policy) (id : ℕ) (entry : Outbox) (w : World)
    → SameArchive w (scan_document s p id entry w).0
unfolding scan_document
scan_document-archive s p id entry w =
    let findings =
      merge_findings (s.regex entry.document_text) (s.presidio p entry.document_text) in
    elim (Option-cases (insert_findings id findings w.db)) [
      | inl e ↦ rw (e, scan_document) (refl, refl, λ k. refl)
      | inr (db, e) ↦
          let review = needs_review s findings in
          rw (e, scan_document)
            (send_each-archive s.sends (next_stage id review ∷ [])
              (conclude_scan id entry review db w) w
              (conclude_scan-archive id entry review db w
                (insert_findings-SameRows id findings w.db e)))
    ]

pub process_scan-archive :
    (s : Services) (p : Policy) (id : ℕ) (w : World) → SameArchive w (process_scan s p id w).0
unfolding process_scan
process_scan-archive s p id w = elim (Option-cases (find_operation id w.db)) [
  | inl e ↦ rw (e, process_scan) (refl, refl, λ k. refl)
  | inr (op, e) ↦ elim (Bool-cases (is_pending op.status)) [
    | inr n ↦ rw (e, process_scan) (rw n (refl, refl, λ k. refl))
    | inl y ↦ elim (Option-cases (find_outbox id w.db)) [
      | inl o ↦ rw (e, process_scan) (rw (y, o) (refl, refl, λ k. refl))
      | inr (entry, o) ↦ rw (e, process_scan) (rw (y, o) (scan_document-archive s p id entry w))
    ]
  ]
]

pub process_sanitize-archive :
    (sends : Task → Bool) (id : ℕ) (w : World) → SameArchive w (process_sanitize sends id w).0
unfolding process_sanitize sanitize_operation find_outbox
process_sanitize-archive sends id w =
    elim (Bool-cases (any (λ r. r.operation_id == id) w.db.redactions)) [
      | inl e ↦ rw (e, process_sanitize) (refl, refl, λ k. refl)
      | inr e ↦ elim (Option-cases (find_operation id w.db)) [
        | inl n ↦ rw (e, process_sanitize) (rw n (refl, refl, λ k. refl))
        | inr (op, n) ↦
            rw (e, process_sanitize)
              (rw n (
                send_each-archive sends (audit_message id ∷ rescan_message id ∷ [])
                  (sanitize_operation id op w) w (refl, refl, λ k. refl)))
      ]
    ]

either :
    (w : World) (b : Bool) (x y : Db)
    → SameRows w.db x
    → SameRows w.db y
    → SameRows w.db (if b then x else y)
either w true x y h k = h
either w false x y h k = k

act_on_findings-archive :
    (sends : Task → Bool) (id : ℕ) (op : Operation) (ds : List Detection) (w : World)
    → SameArchive w (act_on_findings sends id op ds w).0
unfolding act_on_findings find_outbox
act_on_findings-archive sends id op [] w =
    let r = either w (is_pending op.status) _ w.db (refl, λ k. refl) (refl, λ k. refl) in
    (r.0, refl, r.1)
act_on_findings-archive sends id op (d ∷ ds) w =
    elim (Option-cases (insert_findings id (map mark_residual (d ∷ ds)) w.db)) [
      | inl e ↦ rw (e, escalate_residual) (refl, refl, λ k. refl)
      | inr (db, e) ↦
          let same = insert_findings-SameRows id (map mark_residual (d ∷ ds)) w.db e in
          let r = either w (may_escalate op.status) _ db same same in
          elim (Bool-cases (sends (process_review id))) [
            | inl y ↦ rw (e, y, escalate_residual) (r.0, refl, r.1)
            | inr n ↦ rw (e, n, escalate_residual) (refl, refl, λ k. refl)
          ]
    ]

rescan_text-archive :
    (s : Services) (id : ℕ) (op : Operation) (text : Option Text) (w : World)
    → SameArchive w (rescan_text s id op text w).0
unfolding rescan_text
rescan_text-archive s id op none w = (refl, refl, λ k. refl)
rescan_text-archive s id op (some []) w = (refl, refl, λ k. refl)
rescan_text-archive s id op (some (c ∷ text)) w =
    elim (Bool-cases (any (is_residual id) w.db.findings)) [
      | inl e ↦ rw (e, rescan_text) (refl, refl, λ k. refl)
      | inr e ↦
          rw (e, rescan_text)
            (act_on_findings-archive s.sends id op (residual_findings s (c ∷ text)) w)
    ]

pub rescan_operation-archive :
    (s : Services) (id : ℕ) (w : World) → SameArchive w (rescan_operation s id w).0
unfolding rescan_operation rescan_loaded
rescan_operation-archive s id w = elim (Option-cases (find_operation id w.db)) [
  | inl e ↦ rw (e, rescan_operation) (refl, refl, λ k. refl)
  | inr (op, e) ↦ rw (e, rescan_operation) (rescan_text-archive s id op op.sanitized_text w)
]
