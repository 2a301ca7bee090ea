-- ===== src/Retention/Broken.antt =====
-- What a purge does to the tenant's hash chain.
use safe_context.Base.{
  take_all, length-filter, ℕ, ◌≡◌, ◌≤◌, sym, ap, ◌∙◌, ◌⊎◌, inl, inr, true, false, not, List, [],
  ◌∷◌, ◌++◌, Option, none, some, arith, take, length, filter, Bool-cases, Option-cases,
}
use mathlib.Core.Path.{subst}
use safe_context.Store.{Text, Operation, Db}
use safe_context.Evidence.{
  Host, IsSha256, compute_operation_hash, compute_chain_hash, genesis_hash, last_sealed,
  tenant_rows, verify_chain,
}
use safe_context.Evidence.Chained.{link, IsChained, verify_chain-valid}
use safe_context.Evidence.Tamper.{Collision, same_link, genesis_length}
use safe_context.Evidence.Unsealed.{IsChained-front, head_after, or_last, head_after-last}
use safe_context.Retention.{is_expired, delete_operations}
use safe_context.Retention.Parts.{tenant_rows-two_parts, tenant_rows-kept}

module _ (host : Host) where
  IsChained-back :
      (prev : Text) (front back : List Operation)
      → IsChained host prev (front ++ back)
      → IsChained host (head_after prev front) back
  IsChained-back prev [] back h = h
  IsChained-back prev (r ∷ front) back h = elim (Option-cases r.chain_hash) [
    | inl n ↦ rw n (IsChained-back prev front back (rw n at h))
    | inr (d, s) ↦
        let k : (d ≡ link host prev r) × IsChained host d (front ++ back) = rw s at h in
        rw s (IsChained-back d front back k.1)
  ]

  -- A text with that digest.
  abbrev pub Preimage : Text → Type 0
  Preimage d = (t : Text) × (host.sha256 t ≡ d)

  IsDigest : Option Text → Type 0
  IsDigest none = Unit
  IsDigest (some h) = Preimage h

  IsDigest-last :
      (o c : Option Text)
      → IsDigest o
      → IsDigest c
      → IsDigest (elim o [ some h ↦ some h | none ↦ c ])
  IsDigest-last none c h k = k
  IsDigest-last (some d) c h k = h

  last_sealed-IsDigest :
      (prev : Text) (ops : List Operation) → IsChained host prev ops → IsDigest (last_sealed ops)
  unfolding last_sealed compute_chain_hash IsDigest
  last_sealed-IsDigest prev [] h = tt
  last_sealed-IsDigest prev (r ∷ ops) h = elim (Option-cases r.chain_hash) [
    | inl e ↦
        IsDigest-last (last_sealed ops) r.chain_hash (last_sealed-IsDigest prev ops (rw e at h))
          (rw e tt)
    | inr (d, s) ↦
        let k : (d ≡ link host prev r) × IsChained host d ops = rw s at h in
        let here : Preimage d = (prev ++ compute_operation_hash host r, sym k.0) in
        IsDigest-last (last_sealed ops) r.chain_hash (last_sealed-IsDigest d ops k.1) (rw s here)
  ]

  module _ (lawful : IsSha256 host) where
    -- Sealed rows that are chained from two hashes fix the hash they start from.
    same_start :
        (p q : Text) (ops : List Operation) (h : Text)
        → length p ≡ length q
        → IsChained host p ops
        → IsChained host q ops
        → last_sealed ops ≡ some h
        → (p ≡ q) ⊎ Collision host
    unfolding last_sealed
    same_start p q [] h l a b e = cc
    same_start p q (r ∷ ops) h l a b e = elim (Option-cases r.chain_hash) [
      | inl n ↦
          same_start p q ops h l (rw n at a) (rw n at b)
            (unsealed_last (last_sealed ops) r.chain_hash n e)
      | inr (d, s) ↦
          let x : (d ≡ link host p r) × IsChained host d ops = rw s at a in
          let y : (d ≡ link host q r) × IsChained host d ops = rw s at b in
          elim (same_link host lawful p q r r l (sym x.0 ∙ y.0)) [
            | inl same ↦ inl same.0
            | inr c ↦ inr c
          ]
    ]
      where
        unsealed_last :
            (o c : Option Text)
            → c ≡ none
            → (elim o [ some t ↦ some t | none ↦ c ]) ≡ some h
            → o ≡ some h
        unsealed_last none c n e = cc
        unsealed_last (some t) c n e = e

    -- Two parts of a chain, the second of which is also chained from the genesis hash.
    cut_chain :
        (front back : List Operation) (h k : Text)
        → IsChained host genesis_hash (front ++ back)
        → IsChained host genesis_hash back
        → last_sealed front ≡ some h
        → last_sealed back ≡ some k
        → Preimage genesis_hash ⊎ Collision host
    unfolding IsDigest
    cut_chain front back h k whole alone ef eb =
        let before = IsChained-front host genesis_hash front back whole in
        let digest : Preimage h =
          subst (λ o. IsDigest o) ef (last_sealed-IsDigest genesis_hash front before) in
        let head : head_after genesis_hash front ≡ h =
          sym (head_after-last genesis_hash front) ∙ ap (or_last genesis_hash) ef in
        let from_h : IsChained host h back =
          subst (λ z. IsChained host z back) head (IsChained-back genesis_hash front back whole) in
        let len : length h ≡ length genesis_hash =
          sym (ap length digest.1)
          ∙ lawful.digest_length digest.0
          ∙ sym (genesis_length host lawful) in
        elim (same_start h genesis_hash back k len from_h alone eb) [
          | inl same ↦ inl (digest.0, digest.1 ∙ same)
          | inr c ↦ inr c
        ]

-- Take a tenant whose rows are all looked at by `verify_chain`, and a cutoff that removes a sealed row
-- and keeps one. Where the chain is reported valid before the deletion, it is reported broken after it,
-- or a collision of SHA-256 is at hand, or a text whose digest is the genesis hash.
pub delete_operations-verify_chain :
    (host : Host) (lawful : IsSha256 host) (tenant_id cutoff limit : ℕ) (db : Db)
    (removed kept : Text)
    → let rows = tenant_rows db.operations tenant_id in
      length rows ≤ limit
      → last_sealed (filter (is_expired tenant_id cutoff) rows) ≡ some removed
      → last_sealed (filter (λ o. not (is_expired tenant_id cutoff o)) rows) ≡ some kept
      → (verify_chain host db.operations tenant_id limit).valid ≡ true
      → ((verify_chain host
            (delete_operations tenant_id cutoff db).0.operations
            tenant_id
            limit).valid
          ≡ false)
        ⊎ (Preimage host genesis_hash ⊎ Collision host)
delete_operations-verify_chain host lawful tenant_id cutoff limit db removed kept short er ek
      valid =
    let rows = tenant_rows db.operations tenant_id in
    let left = filter (λ o. not (is_expired tenant_id cutoff o)) rows in
    let after = (delete_operations tenant_id cutoff db).0.operations in
    let whole : IsChained host genesis_hash rows =
      subst (IsChained host genesis_hash) (take_all limit rows short)
        ((verify_chain-valid host db.operations tenant_id limit).0.0 valid) in
    let fits : length left ≤ limit =
      omega (arith, short, length-filter (λ o. not (is_expired tenant_id cutoff o)) rows) in
    elim (Bool-cases (verify_chain host after tenant_id limit).valid) [
      | inr broken ↦ inl broken
      | inl still ↦
          let alone : IsChained host genesis_hash left =
            subst (IsChained host genesis_hash)
              (ap (take limit) (tenant_rows-kept tenant_id cutoff db) ∙ take_all limit left fits)
              ((verify_chain-valid host after tenant_id limit).0.0 still) in
          inr (
            cut_chain host lawful (filter (is_expired tenant_id cutoff) rows) left removed kept
              (subst (IsChained host genesis_hash)
                (sym (tenant_rows-two_parts tenant_id cutoff db.operations)) whole)
              alone er ek)
    ]
