-- ===== src/Retention/Purged.antt =====
-- What a purge leaves in the database.
use safe_context.Base.{
  ℕ, ◌≡◌, ◌≢◌, ◌≤◌, refl, ap, inl, inr, Bool, true, false, not, ◌&&◌, ◌||◌, List, [], ◌∷◌, arith,
  All, All-mono, any, map, filter, ◌==◌, if◌then◌else◌, Bool-cases, any-sorted_with, sorted_with,
}
use safe_context.Store.{Operation, Finding, Redaction, Artifact, Db}
use safe_context.Retention.{
  cutoff_at, is_expired, is_in, expired_op_ids, finding_goes, cascade, delete_operations,
  find_expired_operations, PurgeHost, purge_found, run_gdpr_purge,
}

-- The foreign keys: the operation of every child row is there, and the finding of every redaction.
pub record IsReferential (db : Db) : Type 0 where
  pub findings_belong :
      All (λ f. any (λ o. o.id == f.operation_id) db.operations ≡ true) db.findings
  pub redactions_belong :
      All (λ r. any (λ o. o.id == r.operation_id) db.operations ≡ true) db.redactions
  pub redactions_of_findings :
      All (λ r. any (λ f. f.id == r.finding_id) db.findings ≡ true) db.redactions
  pub artifacts_belong :
      All (λ a. any (λ o. o.id == a.operation_id) db.operations ≡ true) db.artifacts

module _ {ℓ κ} {A : Type ℓ} (q : A → Bool) (P : A → Type κ) where
  pub All-filter_test : (xs : List A) → All P xs → All (λ x. P x × (q x ≡ true)) (filter q xs)
  All-filter_test [] h = tt
  All-filter_test (x ∷ xs) h = elim (Bool-cases (q x)) [
    | inl e ↦ rw (e) ((h.0, e), All-filter_test xs h.1)
    | inr e ↦ rw (e) (All-filter_test xs h.1)
  ]

-- An operation that is there and is not among those that go stays.
stays :
    (e : Operation → Bool) (id : ℕ) (ops : List Operation)
    → any (λ o. o.id == id) ops ≡ true
    → is_in (map (λ o. o.id) (filter e ops)) id ≡ false
    → any (λ o. o.id == id) (filter (λ o. not (e o)) ops) ≡ true
stays e id [] h k = h
stays e id (o ∷ ops) h k = elim (Bool-cases (e o)) [
  | inl y ↦ rw (y) (stays e id ops (ground (arith, h, rw (y) at k)) (ground (arith, rw (y) at k)))
  | inr n ↦ rw (n) (by_head (o.id == id) h (λ t. stays e id ops t (rw (n) at k)))
]
  where
    by_head :
        (b : Bool)
        → (b || any (λ o. o.id == id) ops) ≡ true
        → (any (λ o. o.id == id) ops ≡ true
            → any (λ o. o.id == id) (filter (λ o. not (e o)) ops) ≡ true)
        → (b || any (λ o. o.id == id) (filter (λ o. not (e o)) ops)) ≡ true
    by_head true h rest = refl
    by_head false h rest = rest h

negated : (b : Bool) → not b ≡ true → b ≡ false
negated true h = cc
negated false h = refl

and_left : (a b : Bool) → (a && b) ≡ true → a ≡ true
and_left true b h = refl
and_left false b h = h

and_right : (a b : Bool) → (a && b) ≡ true → b ≡ true
and_right true b h = h
and_right false b h = cc

-- A finding that is there and does not go with its operation stays.
finding_stays :
    (e : Finding → Bool) (id : ℕ) (fs : List Finding)
    → any (λ f. f.id == id) fs ≡ true
    → any (λ f. f.id == id && e f) fs ≡ false
    → any (λ f. f.id == id) (filter (λ f. not (e f)) fs) ≡ true
finding_stays e id [] h k = h
finding_stays e id (f ∷ fs) h k =
    by_cases (f.id == id) (e f) (filter (λ g. not (e g)) fs) refl h k (finding_stays e id fs)
  where
    by_cases :
        (a b : Bool) (rest : List Finding)
        → (f.id == id) ≡ a
        → (a || any (λ g. g.id == id) fs) ≡ true
        → ((a && b) || any (λ g. g.id == id && e g) fs) ≡ false
        → (any (λ g. g.id == id) fs ≡ true
            → any (λ g. g.id == id && e g) fs ≡ false
            → any (λ g. g.id == id) rest ≡ true)
        → any (λ g. g.id == id) (if not b then f ∷ rest else rest) ≡ true
    by_cases true true rest q h k l = cc
    by_cases true false rest q h k l = rw q refl
    by_cases false true rest q h k l = l h k
    by_cases false false rest q h k l = rw q (l h k)

module _ (tenant_id cutoff : ℕ) (db : Db) where
  kept :
      (id : ℕ)
      → any (λ o. o.id == id) db.operations ≡ true
      → not (is_in (expired_op_ids tenant_id cutoff db) id) ≡ true
      → any (λ o. o.id == id) (filter (λ o. not (is_expired tenant_id cutoff o)) db.operations)
        ≡ true
  unfolding expired_op_ids
  kept id h k =
      stays (is_expired tenant_id cutoff) id db.operations h
        (negated (is_in (expired_op_ids tenant_id cutoff db) id) k)

  delete_operations-IsReferential :
      IsReferential db → IsReferential (delete_operations tenant_id cutoff db).0
  unfolding delete_operations cascade finding_goes
  delete_operations-IsReferential h =
      let ids = expired_op_ids tenant_id cutoff db in
      record {
        findings_belong =
            All-mono _ _ (λ (f : Finding) k. kept f.operation_id k.0 k.1) _
              (All-filter_test (λ (f : Finding). not (is_in ids f.operation_id))
                (λ f. any (λ o. o.id == f.operation_id) db.operations ≡ true) db.findings
                h.findings_belong);
        redactions_belong =
            All-mono _ _ (λ (r : Redaction) k. kept r.operation_id k.0 (and_left _ _ k.1)) _
              (All-filter_test
                (λ (r : Redaction).
                  not (is_in ids r.operation_id) && not (finding_goes ids db r.finding_id))
                (λ r. any (λ o. o.id == r.operation_id) db.operations ≡ true) db.redactions
                h.redactions_belong);
        redactions_of_findings =
            All-mono _ _
              (λ (r : Redaction) k.
                finding_stays (λ f. is_in ids f.operation_id) r.finding_id db.findings k.0
                  (negated _ (and_right _ _ k.1)))
              _
              (All-filter_test
                (λ (r : Redaction).
                  not (is_in ids r.operation_id) && not (finding_goes ids db r.finding_id))
                (λ r. any (λ f. f.id == r.finding_id) db.findings ≡ true) db.redactions
                h.redactions_of_findings);
        artifacts_belong =
            All-mono _ _ (λ (a : Artifact) k. kept a.operation_id k.0 k.1) _
              (All-filter_test (λ (a : Artifact). not (is_in ids a.operation_id))
                (λ a. any (λ o. o.id == a.operation_id) db.operations ≡ true) db.artifacts
                h.artifacts_belong);
      }

filter-filter :
    (p q : Operation → Bool) (ops : List Operation)
    → ((o : Operation) → p o ≡ true → q o ≡ true)
    → filter p (filter q ops) ≡ filter p ops
filter-filter p q [] h = refl
filter-filter p q (o ∷ ops) h = elim (Bool-cases (q o)) [
  | inl y ↦ rw (y) (ap (λ r. if p o then o ∷ r else r) (filter-filter p q ops h))
  | inr n ↦ elim (Bool-cases (p o)) [
    | inl t ↦ cc (h o t)
    | inr f ↦ rw (n, f) (filter-filter p q ops h)
  ]
]

filter-none :
    (q : Operation → Bool) (ops : List Operation) → filter q ops ≡ [] → All (λ o. q o ≡ false) ops
filter-none q [] h = tt
filter-none q (o ∷ ops) h = elim (Bool-cases (q o)) [
  | inl y ↦ absurd (cc (rw (y) at h))
  | inr n ↦ (n, filter-none q ops (rw (n) at h))
]

sorted-none :
    (before : Operation → Operation → Bool) (ops : List Operation)
    → sorted_with before ops ≡ []
    → ops ≡ []
sorted-none before [] h = refl
sorted-none before (o ∷ ops) h =
    let e : any (λ _. true) (sorted_with before (o ∷ ops)) ≡ true =
      any-sorted_with before (λ _. true) (o ∷ ops) in
    absurd (cc (ap (any (λ _. true)) h))

-- What an earlier cutoff expires, a later one expires too.
not_expired_earlier :
    (tenant_id c d : ℕ) (ops : List Operation)
    → c ≤ d
    → All (λ o. is_expired tenant_id d o ≡ false) ops
    → All (λ o. is_expired tenant_id c o ≡ false) ops
not_expired_earlier tenant_id c d ops le h =
    All-mono (λ o. is_expired tenant_id d o ≡ false) (λ o. is_expired tenant_id c o ≡ false)
      (λ o k. ground (arith, k)) ops h

filter_kept :
    (q : Operation → Bool) (ops : List Operation)
    → All (λ o. q o ≡ false) (filter (λ o. not (q o)) ops)
filter_kept q ops =
    All-mono _ (λ o. q o ≡ false) (λ o k. negated (q o) k.1) _
      (All-filter_test (λ o. not (q o)) (λ (o : Operation). Unit {0}) ops (all ops))
  where
    all : (xs : List Operation) → All (λ (o : Operation). Unit {0}) xs
    all [] = tt
    all (x ∷ xs) = (tt, all xs)

-- What the purge of a tenant leaves: no operation of the tenant from before the cutoff, and of the other
-- tenants every operation.
abbrev pub Purges : PurgeHost → ℕ → ℕ → Db → Db → Type 0
Purges host tenant_id retention_days db db' =
    IsReferential db'
    × All (λ o. is_expired tenant_id (cutoff_at host.started_at retention_days) o ≡ false)
        db'.operations
    × ((u : ℕ)
        → u ≢ tenant_id
        → filter (λ o. o.tenant_id == u) db'.operations
          ≡ filter (λ o. o.tenant_id == u) db.operations)

delete_operations-Purges :
    (host : PurgeHost) (tenant_id retention_days : ℕ) (db : Db)
    → IsReferential db
    → Purges host tenant_id retention_days db
        (delete_operations tenant_id (cutoff_at host.started_at retention_days) db).0
unfolding delete_operations cascade
delete_operations-Purges host tenant_id retention_days db h =
    let cutoff = cutoff_at host.started_at retention_days in
    (
      delete_operations-IsReferential tenant_id cutoff db h,
      filter_kept (is_expired tenant_id cutoff) db.operations,
      λ u other.
          filter-filter (λ o. o.tenant_id == u) (λ o. not (is_expired tenant_id cutoff o))
            db.operations (λ o e. ground (arith, other)),
    )

-- A purge whose second reading of the clock is not before its first leaves the foreign keys in order, if they
-- were, no operation of the tenant from before the cutoff, and every operation of every other tenant.
pub run_gdpr_purge-Purges :
    (host : PurgeHost) (tenant_id retention_days : ℕ) (db : Db)
    → IsReferential db
    → host.started_at ≤ host.searched_at
    → Purges host tenant_id retention_days db (run_gdpr_purge host tenant_id retention_days db).0
unfolding run_gdpr_purge purge_found find_expired_operations
run_gdpr_purge-Purges host tenant_id retention_days db h le =
    by_found (find_expired_operations host.searched_at tenant_id retention_days db) refl
  where
    by_found :
        (found : List Operation)
        → find_expired_operations host.searched_at tenant_id retention_days db ≡ found
        → Purges host tenant_id retention_days db
            (purge_found host tenant_id retention_days found db).0
    by_found [] e = (
      h,
      not_expired_earlier tenant_id (cutoff_at host.started_at retention_days)
          (cutoff_at host.searched_at retention_days) db.operations (omega (arith, le))
          (filter-none _ db.operations (sorted-none _ _ e)),
      λ u other. refl,
    )
    by_found (op ∷ ops) e = delete_operations-Purges host tenant_id retention_days db h
