-- ===== src/Agents/Escalation.antt =====
-- When an operation goes to a person, and what an automatic stage may do to a status.
use safe_context.Base.{
  ℕ, ◌≡◌, refl, sym, ap, ◌∙◌, inl, inr, Bool, true, false, List, [], ◌∷◌, ◌++◌, Option, none, some,
  arith, any, map, ◌==◌, ==_iff, if◌then◌else◌, Bool-cases, Option-cases, ◌≢◌, ◌⊎◌, not, ◌||◌,
  filter, leb, All, any-append, any-none, any-sorted_with, All-mono, All-append, All-filter,
}
use safe_context.Store.{
  Text, Operation, OperationStatus, pending, completed, escalated, approved, rejected, Severity,
  low, medium, high, critical, Detection, Outbox, Db, process_review, process_sanitize,
}
use safe_context.Agents.{
  Policy, Services, World, success, is_pending, find_operation, find_outbox, update_operation,
  insert_findings, send, send_each,
}
use safe_context.Agents.Detector.{
  is_critical, summary, needs_review, conclude_scan, next_stage, scan_document, process_scan,
}
use safe_context.Agents.Rescan.{
  may_escalate, mark_residual, is_residual, residual_findings, escalate_residual, confirm_clean,
  act_on_findings, rescan_text, rescan_loaded, rescan_operation,
}
use safe_context.Agents.Database.{find-update, find-update_ne, insert_findings-operations}
use safe_context.Detect.{overlaps, merge_findings}

-- The lookup of an operation sees the operations only.
pub find-operations :
    (id : ℕ) (a b : Db) → a.operations ≡ b.operations → find_operation id a ≡ find_operation id b
unfolding find_operation
find-operations id a b e = ap (λ ops. find_operation id (record a { operations = ops })) e

conclude_scan-status :
    (id : ℕ) (entry : Outbox) (review : Bool) (db : Db) (w : World) {op : Operation}
    → find_operation id db ≡ some op
    → find_operation id (send (next_stage id review) (conclude_scan id entry review db w)).db
      ≡ some (record op { status = if review then escalated else pending })
unfolding conclude_scan
conclude_scan-status id entry review db w e =
    find-operations id _
      (update_operation id (λ o. record o { status = if review then escalated else pending }) db)
      refl
    ∙ find-update id (λ o. record o { status = if review then escalated else pending }) db
        (λ o. refl) e

abbrev pub scan_findings : Services → Policy → Outbox → List Detection
scan_findings services policy entry =
    merge_findings (services.regex entry.document_text)
      (services.presidio policy entry.document_text)

-- How a scan goes on that found its rows: what it inserted, and its conclusion.
scan_document-success :
    (services : Services) (policy : Policy) (id : ℕ) (entry : Outbox) (w : World)
    → (scan_document services policy id entry w).1 ≡ success
    → (db : Db) × (insert_findings id (scan_findings services policy entry) w.db ≡ some db)
      × (scan_document services policy id entry w ≡ (
          let review = needs_review services (scan_findings services policy entry) in
          (send (next_stage id review) (conclude_scan id entry review db w), success)))
unfolding scan_document send_each
scan_document-success services policy id entry w h =
    elim (Option-cases (insert_findings id (scan_findings services policy entry) w.db)) [
      | inl e ↦ absurd (cc (rw (e, scan_document) at h))
      | inr (db, e) ↦
          let next = next_stage id (needs_review services (scan_findings services policy entry)) in
          elim (Bool-cases (services.sends next)) [
            | inl y ↦ (db, e, rw (e, scan_document) (rw (y) refl))
            | inr n ↦ absurd (cc (rw (n) at (rw (e, scan_document) at h)))
          ]
    ]

conclude_scan-queue :
    (id : ℕ) (entry : Outbox) (review : Bool) (db : Db) (w : World)
    → (send (next_stage id review) (conclude_scan id entry review db w)).queue
      ≡ w.queue ++ ((if review then process_review id else process_sanitize id) ∷ [])
unfolding conclude_scan
conclude_scan-queue id entry review db w = refl

-- A scan that went through, of a pending operation with its document, either escalates the operation
-- and adds one message to the reviewer, where the findings need review, or leaves it pending and
-- adds one message to the sanitizer. It changes no other field of the operation and adds no other
-- message.
pub process_scan-routes :
    (services : Services) (policy : Policy) (id : ℕ) (w : World) {op : Operation} {entry : Outbox}
    → find_operation id w.db ≡ some op
    → is_pending op.status ≡ true
    → find_outbox id w.db ≡ some entry
    → (process_scan services policy id w).1 ≡ success
    → let w' = (process_scan services policy id w).0 in
      let review = needs_review services (scan_findings services policy entry) in
      (find_operation id w'.db
        ≡ some (record op { status = if review then escalated else pending }))
      × (w'.queue ≡ w.queue ++ ((if review then process_review id else process_sanitize id) ∷ []))
unfolding process_scan
process_scan-routes services policy id w {op} {entry} found waits document h =
    let run : process_scan services policy id w ≡ scan_document services policy id entry w =
      rw (found, process_scan) (rw (waits, document) refl) in
    let (db, inserted, result) =
      scan_document-success services policy id entry w (ap (λ r. r.1) (sym run) ∙ h) in
    let review = needs_review services (scan_findings services policy entry) in
    let there : find_operation id db ≡ some op =
      find-operations id db w.db (insert_findings-operations id _ w.db inserted) ∙ found in
    rw (run ∙ result)
      (conclude_scan-status id entry review db w there, conclude_scan-queue id entry review db w)

-- A split of a list at an entry that passes the test.
any-at :
    (p : Detection → Bool) (before after : List Detection) (d : Detection)
    → p d ≡ true
    → any p (before ++ (d ∷ after)) ≡ true
any-at p before after d h = any-append p before (d ∷ after) ∙ ground (arith, h)

-- A critical finding of the regex detector is in the merge.
critical_in_merge :
    (regex presidio before after : List Detection) (d : Detection)
    → regex ≡ before ++ (d ∷ after)
    → d.severity ≡ critical
    → any (λ f. is_critical f.severity) (merge_findings regex presidio) ≡ true
unfolding merge_findings
critical_in_merge regex presidio before after d e h =
    let serious : Detection → Bool = λ f. is_critical f.severity in
    let rest = filter (λ pf. not (any (λ rf. overlaps rf pf) regex)) presidio in
    any-sorted_with (λ (x y : Detection). leb x.span_start y.span_start) serious (regex ++ rest)
    ∙ any-append serious regex rest
    ∙ ap (λ b. b || any serious rest)
        (ap (any serious) e ∙ any-at serious before after d (ap is_critical h))

not_critical : (s : Severity) → s ≢ critical → is_critical s ≡ false
not_critical low h = refl
not_critical medium h = refl
not_critical high h = refl
not_critical critical h = absurd (h refl)

-- No finding of the merge is critical where no detector reported one.
uncritical_merge :
    (regex presidio : List Detection)
    → All (λ d. d.severity ≢ critical) regex
    → All (λ d. d.severity ≢ critical) presidio
    → any (λ f. is_critical f.severity) (merge_findings regex presidio) ≡ false
unfolding merge_findings
uncritical_merge regex presidio h k =
    let serious : Detection → Bool = λ f. is_critical f.severity in
    let test : Detection → Bool = λ pf. not (any (λ rf. overlaps rf pf) regex) in
    let mild : Detection → Type 0 = λ d. d.severity ≢ critical in
    any-sorted_with (λ (x y : Detection). leb x.span_start y.span_start) serious
      (regex ++ filter test presidio)
    ∙ any-none serious (regex ++ filter test presidio) (
        All-mono mild (λ d. serious d ≡ false) (λ d q. not_critical d.severity q)
          (regex ++ filter test presidio)
          (All-append mild regex (filter test presidio) h (All-filter mild test presidio k)))

needs_review-any :
    (services : Services) (ds : List Detection)
    → ((summaries : List _) → services.requires_review summaries ≡ none)
    → needs_review services ds ≡ any (λ d. is_critical d.severity) ds
unfolding needs_review
needs_review-any services [] down = refl
needs_review-any services (d ∷ ds) down = rw (down (map summary (d ∷ ds)), needs_review) refl

-- Take a scan of a pending operation that went through with OPA unreachable. Where the regex detector
-- reported a finding of the severity `critical` in its document, the operation is escalated and one
-- message goes to the reviewer, none to the sanitizer. Where neither detector reported one, whatever else
-- they reported, the operation stays pending and one message goes to the sanitizer.
pub process_scan-critical :
    (services : Services) (policy : Policy) (id : ℕ) (w : World) {op : Operation} {entry : Outbox}
    → find_operation id w.db ≡ some op
    → is_pending op.status ≡ true
    → find_outbox id w.db ≡ some entry
    → (process_scan services policy id w).1 ≡ success
    → ((summaries : List _) → services.requires_review summaries ≡ none)
    → let w' = (process_scan services policy id w).0 in
      let regex = services.regex entry.document_text in
      ((before after : List Detection) (d : Detection)
        → regex ≡ before ++ (d ∷ after)
        → d.severity ≡ critical
        → (find_operation id w'.db ≡ some (record op { status = escalated }))
          × (w'.queue ≡ w.queue ++ (process_review id ∷ [])))
      × (All (λ d. d.severity ≢ critical) regex
          → All (λ d. d.severity ≢ critical) (services.presidio policy entry.document_text)
          → (find_operation id w'.db ≡ some (record op { status = pending }))
            × (w'.queue ≡ w.queue ++ (process_sanitize id ∷ [])))
process_scan-critical services policy id w {op} {entry} found waits document h down = (
  (λ before after d e c. routed true (critical_in_merge _ _ before after d e c)),
  (λ a b. routed false (uncritical_merge _ _ a b)),
)
  where
    routed :
        (b : Bool)
        → any (λ d. is_critical d.severity) (scan_findings services policy entry) ≡ b
        → (find_operation id (process_scan services policy id w).0.db
            ≡ some (record op { status = if b then escalated else pending }))
          × ((process_scan services policy id w).0.queue
              ≡ w.queue ++ ((if b then process_review id else process_sanitize id) ∷ []))
    routed b e =
        let review = needs_review-any services (scan_findings services policy entry) down ∙ e in
        let routes = process_scan-routes services policy id w found waits document h in
        (
          routes.0
              ∙ ap (λ b. some (record op { status = if b then escalated else pending })) review,
          routes.1
              ∙ ap (λ b. w.queue ++ ((if b then process_review id else process_sanitize id) ∷ []))
                  review,
        )

-- The rescan and an operation on which it may not decide.
module _ (services : Services) (id j : ℕ) (w : World) {kept : Operation}
    (found : find_operation j w.db ≡ some kept) (decided : may_escalate kept.status ≡ false) where
  update-keeps :
      (db : Db) (op : Operation) (f : Operation → Operation) (c : Bool)
      → ((o : Operation) → (f o).id ≡ o.id)
      → (c ≡ true → may_escalate op.status ≡ true)
      → find_operation id db ≡ some op
      → find_operation j db ≡ some kept
      → find_operation j (if c then update_operation id f db else db) ≡ some kept
  update-keeps db op f false keeps h e k = k
  update-keeps db op f true keeps h e k = elim (Bool-cases (j == id)) [
    | inl same ↦
        let one : j ≡ id = (==_iff j id).0 same in
        let both : some op ≡ some kept = sym e ∙ ap (λ n. find_operation n db) (sym one) ∙ k in
        let q : op ≡ kept = cc in absurd (cc (h refl, ap (λ o. may_escalate o.status) q))
    | inr other ↦ find-update_ne id j f db keeps (ground arith) k
  ]

  escalate_residual-keeps :
      (op : Operation) (ds : List Detection)
      → find_operation id w.db ≡ some op
      → find_operation j (escalate_residual services.sends id op ds w).0.db ≡ some kept
  unfolding escalate_residual
  escalate_residual-keeps op ds e =
      elim (Option-cases (insert_findings id (map mark_residual ds) w.db)) [
        | inl n ↦ rw (n, escalate_residual) found
        | inr (db, n) ↦
            let same = insert_findings-operations id (map mark_residual ds) w.db n in
            elim (Bool-cases (services.sends (process_review id))) [
              | inr m ↦ rw (n, m, escalate_residual) found
              | inl y ↦
                  rw (n, y, escalate_residual)
                    (update-keeps db op (λ o. record o { status = escalated })
                      (may_escalate op.status) (λ o. refl) (λ c. c)
                      (find-operations id db w.db same ∙ e)
                      (find-operations j db w.db same ∙ found))
            ]
      ]

  pending-may_escalate : (s : OperationStatus) → is_pending s ≡ true → may_escalate s ≡ true
  pending-may_escalate pending h = refl
  pending-may_escalate completed h = cc
  pending-may_escalate _ h = cc

  confirm_clean-keeps :
      (op : Operation)
      → find_operation id w.db ≡ some op
      → find_operation j (confirm_clean id op w).0.db ≡ some kept
  unfolding confirm_clean
  confirm_clean-keeps op e =
      update-keeps w.db op (λ o. record o { status = completed }) (is_pending op.status) (λ o. refl)
        (pending-may_escalate op.status) e found

  act_on_findings-keeps :
      (op : Operation) (ds : List Detection)
      → find_operation id w.db ≡ some op
      → find_operation j (act_on_findings services.sends id op ds w).0.db ≡ some kept
  unfolding act_on_findings
  act_on_findings-keeps op [] e = confirm_clean-keeps op e
  act_on_findings-keeps op (d ∷ ds) e = escalate_residual-keeps op (d ∷ ds) e

  rescan_text-keeps :
      (op : Operation) (text : Option Text)
      → find_operation id w.db ≡ some op
      → find_operation j (rescan_text services id op text w).0.db ≡ some kept
  unfolding rescan_text
  rescan_text-keeps op none e = found
  rescan_text-keeps op (some []) e = found
  rescan_text-keeps op (some (c ∷ text)) e =
      elim (Bool-cases (any (is_residual id) w.db.findings)) [
        | inl n ↦ rw (n, rescan_text) found
        | inr n ↦
            rw (n, rescan_text) (act_on_findings-keeps op (residual_findings services (c ∷ text)) e)
      ]

  rescan_operation-keeps : find_operation j (rescan_operation services id w).0.db ≡ some kept
  unfolding rescan_operation rescan_loaded
  rescan_operation-keeps = elim (Option-cases (find_operation id w.db)) [
    | inl n ↦ rw (n, rescan_operation) found
    | inr (op, n) ↦ rw (n, rescan_operation) (rescan_text-keeps op op.sanitized_text n)
  ]

-- What a person has decided, or has to decide.
abbrev pub IsDecision : OperationStatus → Type 0
IsDecision s = (s ≡ escalated) ⊎ ((s ≡ approved) ⊎ (s ≡ rejected))

IsDecision-may_escalate : (s : OperationStatus) → IsDecision s → may_escalate s ≡ false
IsDecision-may_escalate s (inl e) = ap may_escalate e
IsDecision-may_escalate s (inr (inl e)) = ap may_escalate e
IsDecision-may_escalate s (inr (inr e)) = ap may_escalate e

-- The rescan leaves an operation whose status is `escalated`, `approved` or `rejected` as it is,
-- whichever operation it was called for and however it ends.
pub rescan_operation-keeps_decisions :
    (services : Services) (id j : ℕ) (w : World) {kept : Operation}
    → find_operation j w.db ≡ some kept
    → IsDecision kept.status
    → find_operation j (rescan_operation services id w).0.db ≡ some kept
rescan_operation-keeps_decisions services id j w {kept} found decision =
    rescan_operation-keeps services id j w found (IsDecision-may_escalate kept.status decision)
