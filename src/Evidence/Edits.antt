-- ===== src/Evidence/Edits.antt =====
-- Edits of rows that are already sealed: what the chain shows of them.
use safe_context.Base.{
  ℕ, zero, suc, ◌≡◌, refl, sym, ap, ◌∙◌, ◌⊎◌, inl, inr, true, List, [], ◌∷◌, take, filter, map, All,
  is_some, if◌then◌else◌, Option-cases,
}
use mathlib.Core.Path.{subst}
use safe_context.Store.{Text, Operation}
use safe_context.Evidence.{Host, IsSha256, content_of, genesis_hash, tenant_rows, verify_chain}
use safe_context.Evidence.Canonical.{SameContent}
use safe_context.Evidence.Chained.{link, IsChained, verify_chain-valid}
use safe_context.Evidence.Rows.{Keeps, tenant_rows-map}
use safe_context.Evidence.Tamper.{Collision, same_link}

take-map :
    (n : ℕ) (g : Operation → Operation) (ops : List Operation)
    → take n (map g ops) ≡ map g (take n ops)
take-map zero g ops = refl
take-map (suc n) g [] = refl
take-map (suc n) g (op ∷ ops) = ap (λ r. g op ∷ r) (take-map n g ops)

-- The edit shows in no field that is hashed, or a collision of the hash function is at hand.
abbrev pub Harmless : Host → (Operation → Operation) → Operation → Type 0
Harmless host g op = SameContent (content_of host op) (content_of host (g op)) ⊎ Collision host

module _ (host : Host) (lawful : IsSha256 host) (g : Operation → Operation) where
  by_link :
      (prev : Text) (op : Operation)
      → ((prev ≡ prev) × SameContent (content_of host op) (content_of host (g op))) ⊎ Collision host
      → Harmless host g op
  by_link prev op (inl same) = inl same.1
  by_link prev op (inr found) = inr found

  IsChained-edit :
      (prev : Text) (ops : List Operation)
      → ((op : Operation) → (g op).chain_hash ≡ op.chain_hash)
      → IsChained host prev ops
      → IsChained host prev (map g ops)
      → All (Harmless host g) (filter (λ op. is_some op.chain_hash) ops)
  IsChained-edit prev [] k h h' = tt
  IsChained-edit prev (op ∷ ops) k h h' = elim (Option-cases op.chain_hash) [
    | inl e ↦ rw (e) (IsChained-edit prev ops k (rw e at h) (rw (k op ∙ e) at h'))
    | inr (c, e) ↦
        let a : (c ≡ link host prev op) × IsChained host c ops = rw e at h in
        let b : (c ≡ link host prev (g op)) × IsChained host c (map g ops) = rw (k op ∙ e) at h' in
        let here =
          by_link prev op (same_link host lawful prev prev op (g op) refl (sym a.0 ∙ b.0)) in
        let sealed = filter (λ (o : Operation). is_some o.chain_hash) ops in
        subst (λ b. All (Harmless host g) (if b then op ∷ sealed else sealed)) (sym (ap is_some e))
          (here, IsChained-edit c ops k a.1 b.1)
  ]

  -- Take a table that verifies, and one that still does behind an edit of its rows which leaves every
  -- row's chain hash, tenant and creation time in place. Then the edit changed none of the
  -- other hashed fields of a sealed row looked at (identity, trace, actor, digest, status) either, or a
  -- collision of SHA-256 is at hand.
  pub verify_chain-edits :
      (operations : List Operation) (tenant_id limit : ℕ)
      → ((op : Operation) → (g op).chain_hash ≡ op.chain_hash)
      → All (Keeps g) operations
      → (verify_chain host operations tenant_id limit).valid ≡ true
      → (verify_chain host (map g operations) tenant_id limit).valid ≡ true
      → All
          (Harmless host g)
          (filter (λ op. is_some op.chain_hash) (take limit (tenant_rows operations tenant_id)))
  verify_chain-edits operations tenant_id limit k keeps v w =
      let rows = take limit (tenant_rows operations tenant_id) in
      let moved : take limit (tenant_rows (map g operations) tenant_id) ≡ map g rows =
        ap (take limit) (tenant_rows-map g tenant_id operations keeps)
        ∙ take-map limit g (tenant_rows operations tenant_id) in
      let before = (verify_chain-valid host operations tenant_id limit).0.0 v in
      let after = (verify_chain-valid host (map g operations) tenant_id limit).0.0 w in
      IsChained-edit genesis_hash rows k before (subst (IsChained host genesis_hash) moved after)
