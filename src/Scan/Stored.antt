-- ===== src/Scan/Stored.antt =====
-- How a request for a scan ends, in terms of the rows that the endpoint builds.

use safe_context.Base.{
  ◌+◌, ◌≡◌, refl, sym, ap, ◌∙◌, ◌⊎◌, inl, inr, String, Bool, true, false, not, ◌&&◌, ◌||◌, List, [],
  ◌∷◌, Option, none, some, arith, All, AllPairs, any, ==_refl, any-filter, any-none,
  any-sorted_with, filter, ltb, leb, ◌==◌, sorted_with, sorted_with-IsSorted,
}
use mathlib.Core.Path.{subst}
use safe_context.Store.{Text, OperationStatus, pending, completed, escalated, Operation}
use safe_context.Evidence.{Host}
use safe_context.Scan.{
  Tokens, Actor, ScanRequest, ScanResponse, ScanReply, scan_error, scan_result, Api, Situation,
  resolve_scan_actor, resolved_version, reuses, existing_op, deduplicated, newest, answer, accept,
  commit_scan, new_operation, scan_event, persist, scan_as, scan,
}

abbrev pub same_bool : Bool → Bool → Bool
same_bool true b = b
same_bool false b = not b

abbrev pub is_escalated_status : OperationStatus → Bool
is_escalated_status escalated = true
is_escalated_status _ = false

-- The row is a processed operation on the text under the version, none is newer, and the response tells
-- of it.
abbrev pub is_answered_by : Text → String → List Operation → ScanResponse → Operation → Bool
is_answered_by digest version operations r o =
    (o.trace_id == r.trace_id && same_bool r.requires_human_review (is_escalated_status o.status))
    && not (any (λ p. reuses digest version p && ltb o.created_at p.created_at) operations)

-- What a request that resolves to `actor` comes to.
abbrev pub StoredEnds :
    Host → Situation → ScanRequest → Option Actor → Api → Api × ScanReply → Type 0
StoredEnds host s body none api (api', reply) = (api' ≡ api) × (reply ≡ scan_error 401)
StoredEnds host s body (some actor) api (api', scan_error code) =
    (api' ≡ api) × (code ≡ 500) × (s.commits ≡ false)
StoredEnds host s body (some actor) api (api', scan_result r) =
    let digest = host.sha256 body.document in
    let version = resolved_version body.policy_version s.opa in
    (r.artifact_digest ≡ digest)
    × (((api' ≡ api)
          × (any
                (λ o.
                  reuses digest version o && is_answered_by digest version api.db.operations r o)
                api.db.operations
              ≡ true))
        ⊎ ((any (reuses digest version) api.db.operations ≡ false)
            × (s.commits ≡ true)
            × (r.requires_human_review ≡ false)
            × (api'.db
                ≡ persist (new_operation api.db.next_id r.trace_id actor digest version s.now)
                    (scan_event (api.db.next_id + 3) api.db.next_id body.document s.now) api.db)))

abbrev newer : Operation → Operation → Bool
newer a b = leb b.created_at a.created_at

module _ (digest : Text) (version : String) (operations : List Operation) where
  none_newer :
      (o : Operation) (os : List Operation)
      → sorted_with newer (filter (reuses digest version) operations) ≡ o ∷ os
      → any (λ p. reuses digest version p && ltb o.created_at p.created_at) operations ≡ false
  none_newer o os e =
      let order : AllPairs (λ a b. leb b.created_at a.created_at ≡ true) (o ∷ os) =
        subst (AllPairs (λ a b. leb b.created_at a.created_at ≡ true)) e (
          sorted_with-IsSorted newer (λ a b. leb b.created_at a.created_at ≡ true) (λ a b h. h)
            (λ a b h. ground arith) (λ a b c h k. ground arith)
            (filter (reuses digest version) operations)) in
      sym (any-filter (reuses digest version) (λ p. ltb o.created_at p.created_at) operations)
      ∙ sym (
          any-sorted_with newer (λ p. ltb o.created_at p.created_at)
            (filter (reuses digest version) operations))
      ∙ ap (any (λ p. ltb o.created_at p.created_at)) e
      ∙ any-none (λ p. ltb o.created_at p.created_at) (o ∷ os) (ground arith, older os order.0)
    where
      older :
          (ps : List Operation)
          → All (λ b. leb b.created_at o.created_at ≡ true) ps
          → All (λ p. ltb o.created_at p.created_at ≡ false) ps
      older [] h = tt
      older (p ∷ ps) h = (ground arith, older ps h.1)

  -- Whether a row has a property is told from the sorted list of the rows that may be reused.
  any-reused :
      (q : Operation → Bool) (l : List Operation)
      → sorted_with newer (filter (reuses digest version) operations) ≡ l
      → any (λ o. reuses digest version o && q o) operations ≡ any q l
  any-reused q l e =
      sym (any-filter (reuses digest version) q operations)
      ∙ sym (any-sorted_with newer q (filter (reuses digest version) operations))
      ∙ ap (any q) e

same_answer :
    (o : Operation)
    → same_bool (elim o.status [ escalated ↦ true | _ ↦ false ]) (is_escalated_status o.status)
      ≡ true
same_answer o = same o.status
  where
    same :
        (s : OperationStatus)
        → same_bool (elim s [ escalated ↦ true | _ ↦ false ]) (is_escalated_status s) ≡ true
    same pending = refl
    same completed = refl
    same escalated = refl
    same OperationStatus.approved = refl
    same OperationStatus.rejected = refl

refused :
    (host : Host) (s : Situation) (body : ScanRequest) (api : Api)
    → StoredEnds host s body none api (scan_as host s body none api)
unfolding scan_as
refused host s body api = (refl, refl)

any-true : {A : Type 0} (p : A → Bool) (xs : List A) → any p xs ≡ any (λ x. p x && true) xs
any-true p [] = refl
any-true p (x ∷ xs) = ground (arith, any-true p xs)

module _ (host : Host) (s : Situation) (body : ScanRequest) (actor : Actor) (api : Api) where
  abbrev digest : Text
  digest = host.sha256 body.document

  abbrev version : String
  version = resolved_version body.policy_version s.opa

  accept-StoredEnds :
      any (reuses digest version) api.db.operations ≡ false
      → StoredEnds host s body (some actor) api (accept s body actor digest version api)
  unfolding accept commit_scan
  accept-StoredEnds fresh = by_commit s.commits refl
    where
      by_commit :
          (c : Bool)
          → s.commits ≡ c
          → StoredEnds host s body (some actor) api (
              commit_scan c api
                (accept (record s { commits = true }) body actor digest version api))
      by_commit true c = (refl, inr (fresh, c, refl, refl))
      by_commit false c = (refl, refl, c)

  deduplicated-StoredEnds :
      (o : Operation) (os : List Operation)
      → sorted_with newer (filter (reuses digest version) api.db.operations) ≡ o ∷ os
      → StoredEnds host s body (some actor) api (api, deduplicated digest o)
  unfolding deduplicated
  deduplicated-StoredEnds o os e =
      let r : ScanResponse = record {
        trace_id = o.trace_id;
        artifact_digest = digest;
        policy_version = o.policy_version;
        requires_human_review = elim o.status [ escalated ↦ true | _ ↦ false ];
      } in
      let q : Operation → Bool = is_answered_by digest version api.db.operations r in
      let here : q o ≡ true =
        rw (==_refl o.trace_id, same_answer o, none_newer digest version api.db.operations o os e)
          refl in
      (
        refl,
        inl (
          refl,
          any-reused digest version api.db.operations q (o ∷ os) e ∙ ap (λ b. b || any q os) here,
        ),
      )

  by_rows :
      (l : List Operation)
      → sorted_with newer (filter (reuses digest version) api.db.operations) ≡ l
      → StoredEnds host s body (some actor) api (answer s body actor digest version (newest l) api)
  unfolding newest answer
  by_rows [] e = accept-StoredEnds (
      any-true (reuses digest version) api.db.operations
      ∙ any-reused digest version api.db.operations (λ o. true) [] e)
  by_rows (o ∷ os) e = deduplicated-StoredEnds o os e

  scan_as-StoredEnds :
      StoredEnds host s body (some actor) api (scan_as host s body (some actor) api)
  unfolding scan_as existing_op
  scan_as-StoredEnds =
      by_rows (sorted_with newer (filter (reuses digest version) api.db.operations)) refl

pub scan-StoredEnds :
    (host : Host) (tokens : Tokens) (s : Situation) (header : Text) (body : ScanRequest) (api : Api)
    → StoredEnds host s body
        (resolve_scan_actor tokens header)
        api
        (scan host tokens s header body api)
unfolding scan
scan-StoredEnds host tokens s header body api = by_actor (resolve_scan_actor tokens header)
  where
    by_actor : (a : Option Actor) → StoredEnds host s body a api (scan_as host s body a api)
    by_actor none = refused host s body api
    by_actor (some actor) = scan_as-StoredEnds host s body actor api
