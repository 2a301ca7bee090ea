-- ===== src/Evidence/Rows.antt =====
-- The rows of a tenant, under the update of one row that keeps its tenant and its creation time.
use safe_context.Base.{
  ℕ, ◌≡◌, ap, ◌∙◌, Bool, List, filter, leb, ◌==◌, All, map, sorted_with, All-filter, All-mono,
  filter-map, sorted_with-map,
}
use safe_context.Store.{Operation}
use safe_context.Evidence.{tenant_rows}

abbrev by_creation : Operation → Operation → Bool
by_creation x y = leb x.created_at y.created_at

-- The function keeps a row's tenant and creation time.
abbrev pub Keeps : (Operation → Operation) → Operation → Type 0
Keeps f r = ((f r).created_at ≡ r.created_at) × ((f r).tenant_id ≡ r.tenant_id)

pub tenant_rows-map :
    (f : Operation → Operation) (t : ℕ) (rows : List Operation)
    → All (Keeps f) rows
    → tenant_rows (map f rows) t ≡ map f (tenant_rows rows t)
unfolding tenant_rows
tenant_rows-map f t rows h =
    ap (sorted_with by_creation) (
      filter-map (λ r. r.tenant_id == t) f rows
        (All-mono (Keeps f) _ (λ r k. ap (λ n. n == t) k.1) rows h))
    ∙ sorted_with-map by_creation f (Keeps f)
        (λ x y k l. ap (λ n. leb n (f y).created_at) k.0 ∙ ap (leb x.created_at) l.0)
        (filter (λ r. r.tenant_id == t) rows) (All-filter (Keeps f) (λ r. r.tenant_id == t) rows h)
