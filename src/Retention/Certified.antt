-- ===== src/Retention/Certified.antt =====
-- What a deletion certificate says of the rows that were deleted.
use safe_context.Base.{
  ℕ, suc, ◌≡◌, ◌≤◌, refl, ap, ◌∙◌, inl, inr, Bool, true, ◌||◌, List, [], ◌∷◌, some, none, arith,
  length, All, All-mono, any, map, filter, leb, ◌==◌, ==_refl, Bool-cases, any-sorted_with,
}
use mathlib.Core.Path.{subst}
use safe_context.Store.{Operation, Db}
use safe_context.Retention.{
  cutoff_at, is_expired, is_in, expired_op_ids, delete_operations, count_children,
  find_expired_operations, Certificate, generate_deletion_certificate, PurgeHost, PurgeResult,
  nothing_to_purge, purged, purge_found, run_gdpr_purge,
}
use safe_context.Retention.Purged.{All-filter_test}

is_in-map :
    (x : ℕ) (ops : List Operation) → is_in (map (λ o. o.id) ops) x ≡ any (λ o. o.id == x) ops
is_in-map x [] = refl
is_in-map x (o ∷ ops) = ap (λ b. (o.id == x) || b) (is_in-map x ops)

any-filter_cons :
    (p e : Operation → Bool) (o : Operation) (ops : List Operation)
    → any p (filter e ops) ≡ true
    → any p (filter e (o ∷ ops)) ≡ true
any-filter_cons p e o ops h = elim (Bool-cases (e o)) [
  | inl y ↦ rw (y) (ground (arith, h))
  | inr n ↦ rw (n) h
]

-- Every row that passes is found by its id among those that pass.
named :
    (e : Operation → Bool) (ops : List Operation)
    → All (λ o. e o ≡ true → any (λ r. r.id == o.id) (filter e ops) ≡ true) ops
named e [] = tt
named e (o ∷ ops) = (
  (λ y. rw (y) (ap (λ b. b || any (λ r. r.id == o.id) (filter e ops)) (==_refl o.id))),
  All-mono _ _ (λ r k y. any-filter_cons (λ q. q.id == r.id) e o ops (k y)) ops (named e ops),
)

-- The certificate of a search at `now` names an operation.
abbrev pub Names : Certificate → Operation → Type 0
Names cert o = is_in cert.operation_ids o.id ≡ true

names_expired :
    (now tenant_id retention_days : ℕ) (db : Db)
    → All
        (λ o.
          is_expired tenant_id (cutoff_at now retention_days) o ≡ true
          → is_in (map (λ r. r.id) (find_expired_operations now tenant_id retention_days db)) o.id
            ≡ true)
        db.operations
unfolding find_expired_operations
names_expired now tenant_id retention_days db =
    let e = is_expired tenant_id (cutoff_at now retention_days) in
    All-mono
      (λ (o : Operation). e o ≡ true → any (λ r. r.id == o.id) (filter e db.operations) ≡ true)
      (λ o.
        e o ≡ true
        → is_in (map (λ r. r.id) (find_expired_operations now tenant_id retention_days db)) o.id
          ≡ true)
      (λ o k y.
        is_in-map o.id (find_expired_operations now tenant_id retention_days db)
        ∙ any-sorted_with (λ (x y : Operation). leb x.created_at y.created_at) (λ r. r.id == o.id)
            (filter e db.operations)
        ∙ k y)
      db.operations (named e db.operations)

-- What a certificate says, and of which rows.
abbrev pub Certifies : PurgeHost → ℕ → ℕ → Db → PurgeResult → Type 0
Certifies host tenant_id retention_days db nothing_to_purge = Unit
Certifies host tenant_id retention_days db (purged cert stored) =
    All (Names cert)
      (filter (is_expired tenant_id (cutoff_at host.started_at retention_days)) db.operations)
    × All (Names cert)
        (filter (is_expired tenant_id (cutoff_at host.searched_at retention_days)) db.operations)
    × (cert.counts.operations
        ≡ length (
            filter (is_expired tenant_id (cutoff_at host.started_at retention_days)) db.operations))
    × (cert.signature ≡ some (host.hmac (record cert { signature = none })))
    × (stored ≡ host.stores cert)

length-map : (ops : List Operation) → length (map (λ (o : Operation). o.id) ops) ≡ length ops
length-map [] = refl
length-map (o ∷ ops) = ap (λ n. suc n) (length-map ops)

expired_named :
    (now c tenant_id retention_days : ℕ) (db : Db)
    → c ≤ cutoff_at now retention_days
    → All
        (λ o.
          is_in (map (λ r. r.id) (find_expired_operations now tenant_id retention_days db)) o.id
          ≡ true)
        (filter (is_expired tenant_id c) db.operations)
expired_named now c tenant_id retention_days db le =
    All-mono _ _ (λ (o : Operation) k. k.0 (ground (arith, k.1, le))) _
      (All-filter_test (is_expired tenant_id c) _ db.operations
        (names_expired now tenant_id retention_days db))

-- Where the clock does not run backwards, the certificate of a purge names every operation that was deleted,
-- and counts them. But it names all that were expired at the second reading of the clock, also those which
-- only the second reading puts before the cutoff and which were not deleted. Its signature is the HMAC of
-- its own fields.
pub run_gdpr_purge-Certifies :
    (host : PurgeHost) (tenant_id retention_days : ℕ) (db : Db)
    → host.started_at ≤ host.searched_at
    → Certifies host tenant_id retention_days db (run_gdpr_purge host tenant_id retention_days db).1
unfolding run_gdpr_purge purge_found delete_operations count_children expired_op_ids
    generate_deletion_certificate
run_gdpr_purge-Certifies host tenant_id retention_days db le =
    by_found (find_expired_operations host.searched_at tenant_id retention_days db) refl
  where
    by_found :
        (found : List Operation)
        → find_expired_operations host.searched_at tenant_id retention_days db ≡ found
        → Certifies host tenant_id retention_days db
            (purge_found host tenant_id retention_days found db).1
    by_found [] e = tt
    by_found (op ∷ ops) e =
        let all = λ (c : ℕ) (k : c ≤ cutoff_at host.searched_at retention_days).
          subst
            (λ (found : List Operation).
              All (λ o. is_in (map (λ r. r.id) found) o.id ≡ true)
                (filter (is_expired tenant_id c) db.operations))
            e (expired_named host.searched_at c tenant_id retention_days db k) in
        (
          all (cutoff_at host.started_at retention_days) (omega (arith, le)),
          all (cutoff_at host.searched_at retention_days) (omega arith),
          length-map _,
          refl,
          refl,
        )
