-- ===== src/Evidence/Chained.antt =====
-- What `verify_chain` decides: that each sealed row's hash is the chain hash of its content behind
-- the last sealed row before it.
use safe_context.Base.{
  ℕ, ◌+◌, ◌≡◌, ◌≢◌, refl, sym, ap, ◌∙◌, ◌↔◌, ◌⊎◌, inl, inr, true, false, List, [], ◌∷◌, ◌++◌, none,
  some, arith, take, Bool-cases, Option-cases,
}
use mathlib.Core.Path.{subst}
use mathlib.Core.List.{append_assoc, append-nil}
use safe_context.Store.{Text, Operation}
use safe_context.Evidence.{
  Host, text_eq, compute_operation_hash, compute_chain_hash, ChainReport, verify_loop, verify_chain,
  genesis_hash, tenant_rows,
}

pub text_eq_sound : (xs ys : Text) → text_eq xs ys ≡ true → xs ≡ ys
unfolding text_eq
text_eq_sound [] [] h = refl
text_eq_sound [] (d ∷ ys) h = cc
text_eq_sound (c ∷ xs) [] h = cc
text_eq_sound (c ∷ xs) (d ∷ ys) h = ground (arith, text_eq_sound xs ys)

pub text_eq_refl : (xs : Text) → text_eq xs xs ≡ true
unfolding text_eq
text_eq_refl [] = refl
text_eq_refl (c ∷ xs) = ground (arith, text_eq_refl xs)

pub text_eq-true : (xs ys : Text) → xs ≡ ys → text_eq xs ys ≡ true
text_eq-true xs ys h = subst (λ z. text_eq xs z ≡ true) h (text_eq_refl xs)

pub text_eq-cases : (xs ys : Text) → (xs ≡ ys) ⊎ (xs ≢ ys)
text_eq-cases xs ys = elim (Bool-cases (text_eq xs ys)) [
  | inl e ↦ inl (text_eq_sound xs ys e)
  | inr e ↦ inr (λ p. not_equal (subst (λ z. text_eq xs z ≡ false) (sym p) e))
]
  where
    not_equal : text_eq xs xs ≡ false → ⊥
    not_equal h = cc (text_eq_refl xs)

module _ (host : Host) where
  -- The hash that a row is to have behind a row with hash `prev`.
  abbrev pub link : Text → Operation → Text
  link prev op = compute_chain_hash host prev (compute_operation_hash host op)

  -- The chain from `prev` on. Rows without a hash are passed over.
  abbrev pub IsChained : Text → List Operation → Type 0
  IsChained prev [] = Unit
  IsChained prev (op ∷ ops) = elim op.chain_hash [
    | none ↦ IsChained prev ops
    | some h ↦ (h ≡ link prev op) × IsChained h ops
  ]

  abbrev pub sealed_count : List Operation → ℕ
  sealed_count [] = 0
  sealed_count (op ∷ ops) = elim op.chain_hash [
    | none ↦ sealed_count ops
    | some _ ↦ sealed_count ops + 1
  ]

  abbrev pub unsealed_ids : List Operation → List ℕ
  unsealed_ids [] = []
  unsealed_ids (op ∷ ops) = elim op.chain_hash [
    | none ↦ op.id ∷ unsealed_ids ops
    | some _ ↦ unsealed_ids ops
  ]

  -- The report on rows that are all in order.
  abbrev intact : List Operation → ℕ → List ℕ → ChainReport
  intact ops checked gaps = record {
    valid = true;
    checked = checked + sealed_count ops;
    first_broken_at = none;
    gaps = gaps ++ unsealed_ids ops;
  }

  verify_loop-intact :
      (ops : List Operation) (prev : Text) (checked : ℕ) (gaps : List ℕ)
      → IsChained prev ops
      → verify_loop host ops prev checked gaps ≡ intact ops checked gaps
  unfolding verify_loop
  verify_loop-intact [] prev checked gaps h = cc (append-nil gaps, zero_add checked)
    where
      zero_add : (n : ℕ) → n + 0 ≡ n
      zero_add n = omega arith
  verify_loop-intact (op ∷ ops) prev checked gaps h = elim (Option-cases op.chain_hash) [
    | inl e ↦ rw e (
        verify_loop-intact ops prev checked (gaps ++ (op.id ∷ [])) (rw e at h)
        ∙ cc (append_assoc gaps (op.id ∷ []) (unsealed_ids ops)))
    | inr (c, e) ↦
        let k : (c ≡ link prev op) × IsChained c ops = rw e at h in
        rw e (
          rw (text_eq-true c (link prev op) k.0)
            (verify_loop-intact ops c (checked + 1) gaps k.1 ∙ ground arith))
  ]

  verify_loop-IsChained :
      (ops : List Operation) (prev : Text) (checked : ℕ) (gaps : List ℕ)
      → (verify_loop host ops prev checked gaps).valid ≡ true
      → IsChained prev ops
  unfolding verify_loop
  verify_loop-IsChained [] prev checked gaps h = tt
  verify_loop-IsChained (op ∷ ops) prev checked gaps h = elim (Option-cases op.chain_hash) [
    | inl e ↦
        rw e
          (verify_loop-IsChained ops prev checked (gaps ++ (op.id ∷ [])) (rw (e, verify_loop) at h))
    | inr (c, e) ↦ elim (Bool-cases (text_eq c (link prev op))) [
      | inl same ↦ rw e (
        text_eq_sound c (link prev op) same,
        verify_loop-IsChained ops c (checked + 1) gaps (rw (e, verify_loop, same) at h),
      )
      | inr differs ↦ absurd (cc (rw (e, verify_loop, differs) at h))
    ]
  ]

-- `verify_chain` reports a valid chain exactly where, among the first `limit` rows of the tenant in
-- order of creation, each sealed row's hash is the chain hash of its content behind the last sealed
-- row before it, the genesis hash at first. It has then counted the sealed rows and listed the rest
-- as gaps, in order.
pub verify_chain-valid :
    (host : Host) (operations : List Operation) (tenant_id limit : ℕ)
    → let rows = take limit (tenant_rows operations tenant_id) in
      ((verify_chain host operations tenant_id limit).valid ≡ true
        ↔ IsChained host genesis_hash rows)
      × (IsChained host genesis_hash rows
          → verify_chain host operations tenant_id limit ≡ record {
            valid = true;
            checked = sealed_count host rows;
            first_broken_at = none;
            gaps = unsealed_ids host rows;
          })
unfolding verify_chain
verify_chain-valid host operations tenant_id limit =
    let rows = take limit (tenant_rows operations tenant_id) in
    (
      (
        verify_loop-IsChained host rows genesis_hash 0 [],
        λ h. ap (λ r. r.valid) (verify_loop-intact host rows genesis_hash 0 [] h),
      ),
      λ h. verify_loop-intact host rows genesis_hash 0 [] h ∙ ground arith,
    )
