-- ===== src/Scan/Detected.antt =====
-- From an accepted request to the detector's decision: the endpoint and the detector actor together.
use safe_context.Base.{
  ℕ, ◌+◌, ◌≡◌, refl, ap, ◌∙◌, inl, inr, Bool, true, false, List, [], ◌∷◌, ◌++◌, some, any, ==_refl,
  first, ◌==◌, if◌then◌else◌, Bool-cases,
}
use mathlib.Core.Path.{subst}
use safe_context.Store.{Text, pending, escalated, process_review, process_sanitize}
use safe_context.Evidence.{Host}
use safe_context.Agents.{World, Services, Policy, success, find_operation, find_outbox}
use safe_context.Agents.Detector.{needs_review, process_scan}
use safe_context.Agents.Escalation.{process_scan-routes}
use safe_context.Detect.{merge_findings}
use safe_context.Scan.{
  Tokens, Actor, ScanRequest, ScanReply, scan_error, scan_result, Api, Situation,
  resolve_scan_actor, resolved_version, reuses, new_operation, scan_event, persist, scan,
}
use safe_context.Scan.Stored.{StoredEnds, is_answered_by, scan-StoredEnds}
use safe_context.Scan.Relayed.{any-and_false}

first-append {ℓ} :
    {A : Type ℓ} (p : A → Bool) (xs : List A) (x : A)
    → any p xs ≡ false
    → p x ≡ true
    → first p (xs ++ (x ∷ [])) ≡ some x
first-append p [] x h k = rw k refl
first-append p (y ∷ xs) x h k = elim (Bool-cases (p y)) [
  | inl e ↦ absurd (cc (rw e at h))
  | inr e ↦ rw e (first-append p xs x (rw e at h) k)
]

-- The findings of the detectors on a document.
abbrev pub detected : Services → Policy → Text → Bool
detected services policy document =
    needs_review services
      (merge_findings (services.regex document) (services.presidio policy document))

-- Take a request of a known actor for a text that no processed operation has under the resolved policy
-- version, with a commit that goes through and ids that no row has. Where the detector actor then succeeds on
-- the new operation, it has decided on the document of the request: the operation, of the actor's tenant, is
-- escalated and one message goes to the reviewer where the merged findings on that document need review, or
-- else it is pending and one message goes to the sanitizer.
pub scan-process_scan :
    (host : Host) (tokens : Tokens) (s : Situation) (header : Text) (body : ScanRequest) (api : Api)
    (actor : Actor) (services : Services) (policy : Policy) (w : World)
    → resolve_scan_actor tokens header ≡ some actor
    → any
        (reuses (host.sha256 body.document) (resolved_version body.policy_version s.opa))
        api.db.operations
      ≡ false
    → s.commits ≡ true
    → any (λ o. o.id == api.db.next_id) api.db.operations ≡ false
    → any (λ e. e.operation_id == api.db.next_id) api.db.outbox ≡ false
    → let id = api.db.next_id in
      let before = record w { db = (scan host tokens s header body api).0.db } in
      let review = detected services policy body.document in
      (process_scan services policy id before).1 ≡ success
      → (trace_id : ℕ) × (find_operation id (process_scan services policy id before).0.db
          ≡ some
              (record (new_operation id trace_id actor
                (host.sha256 body.document)
                (resolved_version body.policy_version s.opa)
                s.now) { status = if review then escalated else pending }))
        × ((process_scan services policy id before).0.queue
            ≡ w.queue ++ ((if review then process_review id else process_sanitize id) ∷ []))
unfolding persist scan_event new_operation find_operation find_outbox
scan-process_scan host tokens s header body api actor services policy w known fresh commits new_id
      new_event =
    by_end (scan host tokens s header body api) (
      subst (λ a. StoredEnds host s body a api (scan host tokens s header body api)) known
        (scan-StoredEnds host tokens s header body api))
  where
    by_end :
        (r : Api × ScanReply)
        → StoredEnds host s body (some actor) api r
        → (process_scan services policy api.db.next_id (record w { db = r.0.db })).1 ≡ success
        → (trace_id : ℕ) × (find_operation api.db.next_id
              (process_scan services policy api.db.next_id (record w { db = r.0.db })).0.db
            ≡ some
                (record (new_operation api.db.next_id trace_id actor
                  (host.sha256 body.document)
                  (resolved_version body.policy_version s.opa)
                  s.now) {
                    status = if detected services policy body.document then escalated else pending;
                  }))
          × ((process_scan services policy api.db.next_id (record w { db = r.0.db })).0.queue
              ≡ w.queue
                ++ ((if detected services policy body.document
                      then process_review api.db.next_id
                      else process_sanitize api.db.next_id)
                    ∷ []))
    by_end (api', scan_error code) e h = absurd (cc (e.2, commits))
    by_end (api', scan_result r) (d, inl (same, reused)) h = absurd (
        cc (
          reused,
          any-and_false
              (reuses (host.sha256 body.document) (resolved_version body.policy_version s.opa))
              (is_answered_by (host.sha256 body.document)
                (resolved_version body.policy_version s.opa) api.db.operations r)
              api.db.operations fresh,
        ))
    by_end (api', scan_result r) (d, inr (f, c, q, stored)) h =
        let id = api.db.next_id in
        let op =
          new_operation id r.trace_id actor (host.sha256 body.document)
            (resolved_version body.policy_version s.opa) s.now in
        let event = scan_event (id + 3) id body.document s.now in
        let there : find_operation id api'.db ≡ some op =
          ap (find_operation id) stored
          ∙ first-append (λ o. o.id == id) api.db.operations op new_id (==_refl id) in
        let document : find_outbox id api'.db ≡ some event =
          ap (find_outbox id) stored
          ∙ first-append (λ e. e.operation_id == id) api.db.outbox event new_event (==_refl id) in
        let routes =
          process_scan-routes services policy id (record w { db = api'.db }) there refl document
            h in
        (r.trace_id, routes.0, routes.1)
