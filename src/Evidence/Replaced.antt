-- ===== src/Evidence/Replaced.antt =====
-- The row that sealing puts in the place of another.
use mathlib.Core.Path.{ap₂}
use safe_context.Base.{
  ℕ, ◌≡◌, ◌≢◌, refl, ap, ◌∙◌, inl, inr, Bool, true, false, List, [], ◌∷◌, ◌++◌, Option, none, some,
  arith, All, map, ◌==◌, ==_iff, if◌then◌else◌, Bool-cases, update_where, update_where-map,
}
use safe_context.Store.{Text, Operation, Db}
use safe_context.Evidence.{Host, compute_operation_hash}
use safe_context.Evidence.Rows.{Keeps}
use safe_context.Evidence.Seal.{sealed_row, put_operation}

-- A row by another id.
abbrev pub IsOther : ℕ → Operation → Type 0
IsOther id r = r.id ≢ id

-- The update of the row with an id, as a function on rows.
abbrev pub put_row : Operation → Operation → Operation
put_row s r = if r.id == s.id then s else r

put_row-others :
    (s : Operation) (rows : List Operation) → All (IsOther s.id) rows → map (put_row s) rows ≡ rows
put_row-others s [] h = refl
put_row-others s (r ∷ rows) h = elim (Bool-cases (r.id == s.id)) [
  | inl e ↦ absurd (h.0 ((==_iff r.id s.id).0 e))
  | inr e ↦ ap₂ (λ b z. (if b then s else r) ∷ z) e (put_row-others s rows h.1)
]

pub put_row-middle :
    (s op : Operation) (front back : List Operation)
    → op.id ≡ s.id
    → All (IsOther s.id) front
    → All (IsOther s.id) back
    → map (put_row s) (front ++ (op ∷ back)) ≡ front ++ (s ∷ back)
put_row-middle s op [] back e h k =
    ap₂ (λ b z. (if b then s else op) ∷ z) ((==_iff op.id s.id).1 e) (put_row-others s back k)
put_row-middle s op (r ∷ front) back e h k = elim (Bool-cases (r.id == s.id)) [
  | inl q ↦ absurd (h.0 ((==_iff r.id s.id).0 q))
  | inr q ↦ ap₂ (λ b z. (if b then s else r) ∷ z) q (put_row-middle s op front back e h.1 k)
]

-- A row that is put in the place of another has its tenant and creation time.
abbrev pub Replaces : Operation → Operation → Type 0
Replaces s op = (s.id ≡ op.id) × (s.created_at ≡ op.created_at) × (s.tenant_id ≡ op.tenant_id)

put_row-Keeps : (s op x : Operation) → Replaces s op → Keeps (put_row s) (put_row op x)
put_row-Keeps s op x e = outer (x.id == op.id) refl
  where
    choice :
        (c : Bool) (r : Operation)
        → (c ≡ true → (s.created_at ≡ r.created_at) × (s.tenant_id ≡ r.tenant_id))
        → ((if c then s else r).created_at ≡ r.created_at)
          × ((if c then s else r).tenant_id ≡ r.tenant_id)
    choice true r h = h refl
    choice false r h = (refl, refl)

    outer : (b : Bool) → (x.id == op.id) ≡ b → Keeps (put_row s) (if b then op else x)
    outer true h = choice (op.id == s.id) op (λ _. (e.1, e.2))
    outer false h = choice (x.id == s.id) x (λ k. absurd (ground (arith, e.0)))

pub put_rows-Keeps :
    (s op : Operation) (rows : List Operation)
    → Replaces s op
    → All (Keeps (put_row s)) (map (put_row op) rows)
put_rows-Keeps s op [] e = tt
put_rows-Keeps s op (x ∷ rows) e = (put_row-Keeps s op x e, put_rows-Keeps s op rows e)

module _ (op : Operation) (chain_hash : Text) (now : ℕ) where
  pub sealed_row-Replaces :
      (sig : Option (Text × ℕ)) → Replaces (sealed_row op chain_hash sig now) op
  unfolding sealed_row
  sealed_row-Replaces none = (refl, refl, refl)
  sealed_row-Replaces (some (a, b)) = (refl, refl, refl)

  pub sealed_row-hash :
      (host : Host) (sig : Option (Text × ℕ))
      → compute_operation_hash host (sealed_row op chain_hash sig now)
        ≡ compute_operation_hash host op
  unfolding sealed_row compute_operation_hash
  sealed_row-hash host none = refl
  sealed_row-hash host (some (a, b)) = refl

  pub sealed_row-chain :
      (sig : Option (Text × ℕ)) → (sealed_row op chain_hash sig now).chain_hash ≡ some chain_hash
  unfolding sealed_row
  sealed_row-chain none = refl
  sealed_row-chain (some (a, b)) = refl

pub sealed_row-status :
    (op : Operation) (c : Text) (now : ℕ) (sig : Option (Text × ℕ))
    → (sealed_row op c sig now).status ≡ op.status
unfolding sealed_row
sealed_row-status op c now none = refl
sealed_row-status op c now (some (a, b)) = refl

-- The operations behind the seal, for what the seal was.
pub seal_rows :
    (op : Operation) (db : Db) (s : Operation)
    → (put_operation s (put_operation op db)).operations
      ≡ map (put_row s) (map (put_row op) db.operations)
unfolding put_operation
seal_rows op db s =
    update_where-map (λ r. r.id == s.id) (λ _. s)
      (update_where (λ r. r.id == op.id) (λ _. op) db.operations)
    ∙ ap (map (put_row s)) (update_where-map (λ r. r.id == op.id) (λ _. op) db.operations)

pub flushed_rows :
    (op : Operation) (db : Db) → (put_operation op db).operations ≡ map (put_row op) db.operations
unfolding put_operation
flushed_rows op db = update_where-map (λ r. r.id == op.id) (λ _. op) db.operations
