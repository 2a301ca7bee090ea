-- ===== src/Scan/Accepted.antt =====
-- How a request for a scan ends, in terms of the columns that the answer depends on.
use text.Mathlib.Text.{◌==◌ as str_eq}
use mathlib.Core.Path.{fun_ext}
use safe_context.Base.{
  ℕ, ◌++◌, ◌+◌, ◌≡◌, refl, sym, ap, ◌∙◌, ◌⊎◌, inl, inr, String, Bool, true, false, not, ◌&&◌, List,
  [], ◌∷◌, Option, none, some, any, ltb, ◌==◌,
}
use safe_context.Store.{Text, OperationStatus, pending, completed, escalated, Operation, Outbox}
use safe_context.Evidence.{Host, text_eq}
use safe_context.Scan.{
  Tokens, Actor, ScanRequest, ScanResponse, ScanReply, scan_error, scan_result, Api, Situation,
  resolve_scan_actor, resolved_version, reuses, new_operation, scan_event, persist, scan,
}
use safe_context.Scan.Stored.{same_bool, is_escalated_status, StoredEnds, scan-StoredEnds}

-- A row that a detector or a person is done with: `completed` or `escalated`.
abbrev pub is_done : OperationStatus → Bool
is_done pending = false
is_done completed = true
is_done escalated = true
is_done OperationStatus.approved = false
is_done OperationStatus.rejected = false

-- The row is of an operation that is done, with the digest and the policy version.
abbrev pub serves : Text → String → Operation → Bool
serves digest version o =
    text_eq o.artifact_digest digest && (str_eq o.policy_version version && is_done o.status)

-- The operation that a request adds.
pub record IsAdded (s : Situation) (actor : Actor) (digest : Text) (version : String) (trace_id : ℕ)
    (op : Operation) : Type 0 where
  pub is_pending : op.status ≡ pending
  pub of_actor : (op.actor_id ≡ actor.actor_id) × (op.actor_type ≡ actor.actor_type)
  pub of_tenant : op.tenant_id ≡ actor.tenant_id
  pub of_document : op.artifact_digest ≡ digest
  pub under_version : op.policy_version ≡ version
  pub traced : op.trace_id ≡ trace_id
  pub made_now : op.created_at ≡ s.now
  pub is_unsealed : (op.chain_hash ≡ none) × (op.event_signature ≡ none)
  pub is_unfinished : (op.sanitized_text ≡ none) × (op.completed_at ≡ none)

-- The event that a request adds for the operation.
pub record IsAnnounced (s : Situation) (document : Text) (op : Operation) (e : Outbox)
    : Type 0 where
  pub names : e.operation_id ≡ op.id
  pub carries : e.document_text ≡ document
  pub is_waiting : e.processed ≡ false
  pub asks_scan : e.event_type ≡ "scan_requested"
  pub made_now : e.created_at ≡ s.now

-- The row serves, none that serves is newer, and the response tells of it.
abbrev pub is_newest_for : Text → String → List Operation → ScanResponse → Operation → Bool
is_newest_for digest version operations r o =
    (o.trace_id == r.trace_id && same_bool r.requires_human_review (is_escalated_status o.status))
    && not (any (λ p. serves digest version p && ltb o.created_at p.created_at) operations)

-- What a request that resolves to `actor` comes to.
abbrev pub ScanEnds : Host → Situation → ScanRequest → Option Actor → Api → Api × ScanReply → Type 0
ScanEnds host s body none api (api', reply) = (api' ≡ api) × (reply ≡ scan_error 401)
ScanEnds host s body (some actor) api (api', scan_error code) =
    (api' ≡ api) × (code ≡ 500) × (s.commits ≡ false)
ScanEnds host s body (some actor) api (api', scan_result r) =
    let digest = host.sha256 body.document in
    let version = resolved_version body.policy_version s.opa in
    (r.artifact_digest ≡ digest)
    × (((api' ≡ api)
          × (any
                (λ o. serves digest version o && is_newest_for digest version api.db.operations r o)
                api.db.operations
              ≡ true))
        ⊎ ((any (serves digest version) api.db.operations ≡ false)
            × (s.commits ≡ true)
            × (r.requires_human_review ≡ false)
            × ((op : Operation) × (e : Outbox) × IsAdded s actor digest version r.trace_id op
                × IsAnnounced s body.document op e
                × (api'.db ≡ record api.db {
                  operations = api.db.operations ++ (op ∷ []);
                  outbox = api.db.outbox ++ (e ∷ []);
                  next_id = api'.db.next_id;
                }))))

serves-eq : (digest : Text) (version : String) → reuses digest version ≡ serves digest version
serves-eq digest version = fun_ext (λ (o : Operation). by_status o o.status)
  where
    by_status :
        (o : Operation) (t : OperationStatus)
        → reuses digest version (record o { status = t })
          ≡ serves digest version (record o { status = t })
    by_status o pending = refl
    by_status o completed = refl
    by_status o escalated = refl
    by_status o OperationStatus.approved = refl
    by_status o OperationStatus.rejected = refl

-- A request whose token resolves to no actor gets the status 401. Any other is answered from the rows
-- where some completed or escalated operation has the document's digest and the resolved policy version: the response
-- has the trace id of such an operation than which none is newer, it asks for review exactly where that
-- one is escalated, and nothing changes. Where there is none and the commit goes through, one pending,
-- unsealed operation of the actor and its tenant, on the digest and the version and with the trace id of the
-- response, and one unprocessed event `scan_requested` that names it and carries the document are added,
-- and nothing else in the tables changes. Where the commit fails the status is 500. After an error nothing is changed.
pub scan-ScanEnds :
    (host : Host) (tokens : Tokens) (s : Situation) (header : Text) (body : ScanRequest) (api : Api)
    → ScanEnds host s body
        (resolve_scan_actor tokens header)
        api
        (scan host tokens s header body api)
unfolding persist new_operation scan_event
scan-ScanEnds host tokens s header body api =
    by_actor (resolve_scan_actor tokens header) (scan host tokens s header body api)
      (scan-StoredEnds host tokens s header body api)
  where
    by_result :
        (actor : Actor) (api' : Api) (r : ScanResponse)
        → StoredEnds host s body (some actor) api (api', scan_result r)
        → ScanEnds host s body (some actor) api (api', scan_result r)
    by_result actor api' r (digest, inl (same, there)) =
        let e =
          serves-eq (host.sha256 body.document) (resolved_version body.policy_version s.opa) in
        (
          digest,
          inl (
            same,
            ap
                  (λ t.
                    any
                      (λ o.
                        t o
                        && ((o.trace_id == r.trace_id
                              && same_bool r.requires_human_review (is_escalated_status o.status))
                            && not (
                                any (λ p. t p && ltb o.created_at p.created_at) api.db.operations)))
                      api.db.operations)
                  (sym e)
                ∙ there,
          ),
        )
    by_result actor api' r (digest, inr (fresh, commits, review, stored)) =
        let sha = host.sha256 body.document in
        let version = resolved_version body.policy_version s.opa in
        (
          digest,
          inr (
            ap (λ t. any t api.db.operations) (sym (serves-eq sha version)) ∙ fresh,
            commits,
            review,
            (
              new_operation api.db.next_id r.trace_id actor sha version s.now,
              scan_event (api.db.next_id + 3) api.db.next_id body.document s.now,
              record {
                is_pending = refl;
                of_actor = (refl, refl);
                of_tenant = refl;
                of_document = refl;
                under_version = refl;
                traced = refl;
                made_now = refl;
                is_unsealed = (refl, refl);
                is_unfinished = (refl, refl);
              },
              record {
                names = refl;
                carries = refl;
                is_waiting = refl;
                asks_scan = refl;
                made_now = refl;
              },
              rw stored refl,
            ),
          ),
        )

    by_actor :
        (a : Option Actor) (r : Api × ScanReply)
        → StoredEnds host s body a api r
        → ScanEnds host s body a api r
    by_actor none (api', reply) h = h
    by_actor (some actor) (api', scan_error code) h = h
    by_actor (some actor) (api', scan_result r) h = by_result actor api' r h
