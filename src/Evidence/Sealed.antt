-- ===== src/Evidence/Sealed.antt =====
-- Sealing in the order of creation keeps the chain valid.
use mathlib.Core.Path.{subst, ap₂}
use safe_context.Base.{
  ℕ, ◌≡◌, refl, sym, ap, ◌∙◌, true, List, [], ◌∷◌, ◌++◌, take, length, All, map,
}
use safe_context.Store.{Operation, Db}
use safe_context.Evidence.{
  Host, IsSha256, compute_operation_hash, compute_chain_hash, genesis_hash, last_sealed, or_genesis,
  tenant_rows, get_latest_chain_hash, verify_chain,
}
use safe_context.Evidence.Chained.{IsChained, verify_chain-valid}
use safe_context.Evidence.Rows.{tenant_rows-map}
use safe_context.Evidence.Seal.{
  Vault, VaultConfig, try_sign, sealed_row, put_operation, seal_operation,
}
use safe_context.Evidence.Unsealed.{
  IsUnsealed, head_after, IsChained-insert, IsChained-front, IsChained-take, last_sealed-Is64,
  head_after-last, or_genesis-Is64, last_sealed-append,
}
use safe_context.Evidence.Replaced.{
  IsOther, put_row, put_row-middle, put_rows-Keeps, sealed_row-Replaces, sealed_row-hash,
  sealed_row-chain, seal_rows, flushed_rows,
}

module _ (host : Host) (lawful : IsSha256 host) (vault : Vault) (config : VaultConfig)
    (now : ℕ) where
  -- The row of the tenant's table that is sealed stands behind `front` and before `back`, which
  -- holds no sealed row; no other row has its id.
  abbrev pub IsNext : Operation → Db → List Operation → List Operation → Type 0
  IsNext op db front back =
      (tenant_rows (put_operation op db).operations op.tenant_id ≡ front ++ (op ∷ back))
      × All (IsOther op.id) front
      × All (IsOther op.id) back
      × IsUnsealed op
      × All IsUnsealed back

  seal_operation-IsChained :
      (op : Operation) (db : Db) (front back : List Operation)
      → IsNext op db front back
      → IsChained host genesis_hash (front ++ (op ∷ back))
      → IsChained host genesis_hash
          (tenant_rows (seal_operation host vault config now op db).1.operations op.tenant_id)
  unfolding seal_operation get_latest_chain_hash
  seal_operation-IsChained op db front back (rows, f, b, u, ub) chained =
      let flushed = put_operation op db in
      let oh = compute_operation_hash host op in
      let latest = get_latest_chain_hash flushed.operations op.tenant_id in
      let c = compute_chain_hash host latest oh in
      let sig = try_sign vault config oh in
      let s = sealed_row op c sig now in
      let rep = sealed_row-Replaces op c now sig in
      let chain = IsChained-front host genesis_hash front (op ∷ back) chained in
      let head : latest ≡ head_after genesis_hash front = latest_head in
      let after : tenant_rows (put_operation s flushed).operations op.tenant_id
          ≡ front ++ (s ∷ back) =
        ap (λ o. tenant_rows o op.tenant_id) (seal_rows op db s)
        ∙ tenant_rows-map (put_row s) op.tenant_id (map (put_row op) db.operations)
            (put_rows-Keeps s op db.operations rep)
        ∙ ap (map (put_row s))
            (ap (λ o. tenant_rows o op.tenant_id) (sym (flushed_rows op db)) ∙ rows)
        ∙ put_row-middle s op front back (sym rep.0)
            (subst (λ i. All (IsOther i) front) (sym rep.0) f)
            (subst (λ i. All (IsOther i) back) (sym rep.0) b) in
      rw after (
        IsChained-insert host genesis_hash front back s c (sealed_row-chain op c now sig)
          (ap₂ (λ p o. compute_chain_hash host p o) head (sym (sealed_row-hash op c now host sig)))
          ub chain)
    where
      latest_head :
          get_latest_chain_hash (put_operation op db).operations op.tenant_id
          ≡ head_after genesis_hash front
      latest_head =
          ap (λ r. or_genesis (last_sealed r)) rows
          ∙ ap or_genesis (last_sealed-append front (op ∷ back) (u, ub))
          ∙ or_genesis-Is64 host lawful (last_sealed front) (
              last_sealed-Is64 host lawful genesis_hash front
                (IsChained-front host genesis_hash front (op ∷ back) chained))
          ∙ head_after-last genesis_hash front

  -- Sealing keeps the tenant's chain valid, for every number of rows looked at: if the chain
  -- verified before, the sealed row was not sealed yet, no other row has its id, and no row that was
  -- created after it is sealed.
  pub seal_operation-verifies :
      (op : Operation) (db : Db) (front back : List Operation) (limit : ℕ)
      → IsNext op db front back
      → (verify_chain host
          (put_operation op db).operations
          op.tenant_id
          (length (front ++ (op ∷ back)))).valid
        ≡ true
      → (verify_chain host
          (seal_operation host vault config now op db).1.operations
          op.tenant_id
          limit).valid
        ≡ true
  seal_operation-verifies op db front back limit next valid =
      let whole : take (length (front ++ (op ∷ back)))
            (tenant_rows (put_operation op db).operations op.tenant_id)
          ≡ front ++ (op ∷ back) =
        ap (take (length (front ++ (op ∷ back)))) next.0 ∙ take_all (front ++ (op ∷ back)) in
      let before =
        (verify_chain-valid host (put_operation op db).operations op.tenant_id
            (length (front ++ (op ∷ back)))).0.0
          valid in
      (verify_chain-valid host (seal_operation host vault config now op db).1.operations
          op.tenant_id limit).0.1
        (IsChained-take host limit genesis_hash _ (
          seal_operation-IsChained op db front back next
            (subst (IsChained host genesis_hash) whole before)))
    where
      take_all : (rows : List Operation) → take (length rows) rows ≡ rows
      take_all [] = refl
      take_all (r ∷ rows) = ap (λ z. r ∷ z) (take_all rows)
