-- ===== src/Retention/Parts.antt =====
-- The rows of a tenant that a purge removes, and those that it keeps.
use safe_context.Base.{
  filter-swap, ℕ, ◌≡◌, refl, ap, ◌∙◌, inl, inr, Bool, true, false, not, List, [], ◌∷◌, ◌++◌, arith,
  filter, All, AllPairs, leb, ◌==◌, Bool-cases, sorted_with, sorted_with-IsSorted, sorted_with-All,
  sorted_with-filter,
}
use safe_context.Store.{Operation, Db}
use safe_context.Evidence.{tenant_rows}
use safe_context.Retention.{is_expired, delete_operations, cascade}

module _ {ℓ κ} {A : Type ℓ} (p : A → Bool) (Q : A → Type κ) where
  -- Where no entry that passes the test stands behind one that does not, the list is in two parts.
  Ordered : A → A → Type κ
  Ordered x y = Q x → Q y → p x ≡ false → p y ≡ false

  none_pass : (xs : List A) → All (λ y. p y ≡ false) xs → filter p xs ≡ []
  none_pass [] h = refl
  none_pass (x ∷ xs) h = rw (h.0) (none_pass xs h.1)

  filter_rest : (xs : List A) → All (λ y. p y ≡ false) xs → filter (λ y. not (p y)) xs ≡ xs
  filter_rest [] h = refl
  filter_rest (x ∷ xs) h = rw (h.0) (ap (λ t. x ∷ t) (filter_rest xs h.1))

  rest_fail :
      (x : A) (xs : List A)
      → Q x
      → All Q xs
      → All (Ordered x) xs
      → p x ≡ false
      → All (λ y. p y ≡ false) xs
  unfolding Ordered
  rest_fail x [] q k o e = tt
  rest_fail x (y ∷ xs) q k o e = (o.0 q k.0 e, rest_fail x xs q k.1 o.1 e)

  two_parts :
      (xs : List A)
      → All Q xs
      → AllPairs Ordered xs
      → filter p xs ++ filter (λ y. not (p y)) xs ≡ xs
  two_parts [] q o = refl
  two_parts (x ∷ xs) q o = elim (Bool-cases (p x)) [
    | inl e ↦ rw (e) (ap (λ t. x ∷ t) (two_parts xs q.1 o.1))
    | inr e ↦
        let fail = rest_fail x xs q.0 q.1 o.0 e in
        rw (e) (rw (none_pass xs fail) (ap (λ t. x ∷ t) (filter_rest xs fail)))
  ]

Follows : ℕ → ℕ → Operation → Operation → Type 0
Follows tenant_id cutoff a b =
    Ordered (is_expired tenant_id cutoff) (λ o. (o.tenant_id == tenant_id) ≡ true) a b

-- The rows of a tenant are those that a purge removes, then those that it keeps.
pub tenant_rows-two_parts :
    (tenant_id cutoff : ℕ) (ops : List Operation)
    → filter (is_expired tenant_id cutoff) (tenant_rows ops tenant_id)
        ++ filter (λ o. not (is_expired tenant_id cutoff o)) (tenant_rows ops tenant_id)
      ≡ tenant_rows ops tenant_id
unfolding tenant_rows Follows Ordered
tenant_rows-two_parts tenant_id cutoff ops =
    let before : Operation → Operation → Bool = λ a b. leb a.created_at b.created_at in
    let own : Operation → Bool = λ o. o.tenant_id == tenant_id in
    two_parts (is_expired tenant_id cutoff) (λ o. own o ≡ true)
      (sorted_with before (filter own ops))
      (sorted_with-All before (λ o. own o ≡ true) (filter own ops) (All-own ops))
      (AllPairs-mono _ ordered (
        sorted_with-IsSorted before (λ a b. before a b ≡ true) (λ a b h. h) (λ a b h. ground arith)
          (λ a b c h k. ground arith) (filter own ops)))
  where
    All-own :
        (xs : List Operation)
        → All (λ o. (o.tenant_id == tenant_id) ≡ true) (filter (λ o. o.tenant_id == tenant_id) xs)
    All-own [] = tt
    All-own (x ∷ xs) = elim (Bool-cases (x.tenant_id == tenant_id)) [
      | inl e ↦ rw e (e, All-own xs)
      | inr e ↦ rw e (All-own xs)
    ]

    ordered :
        (a b : Operation) → leb a.created_at b.created_at ≡ true → Follows tenant_id cutoff a b
    ordered a b h q r e = ground arith

    All-step :
        (a : Operation) (xs : List Operation)
        → All (λ b. leb a.created_at b.created_at ≡ true) xs
        → All (Follows tenant_id cutoff a) xs
    All-step a [] h = tt
    All-step a (x ∷ xs) h = (ordered a x h.0, All-step a xs h.1)

    AllPairs-mono :
        (xs : List Operation)
        → ((a b : Operation) → leb a.created_at b.created_at ≡ true → Follows tenant_id cutoff a b)
        → AllPairs (λ a b. leb a.created_at b.created_at ≡ true) xs
        → AllPairs (Follows tenant_id cutoff) xs
    AllPairs-mono [] f h = tt
    AllPairs-mono (x ∷ xs) f h = (All-step x xs h.0, AllPairs-mono xs f h.1)

-- The rows of the tenant behind a purge are the rows kept, in their order.
pub tenant_rows-kept :
    (tenant_id cutoff : ℕ) (db : Db)
    → tenant_rows (delete_operations tenant_id cutoff db).0.operations tenant_id
      ≡ filter (λ o. not (is_expired tenant_id cutoff o)) (tenant_rows db.operations tenant_id)
unfolding tenant_rows delete_operations cascade
tenant_rows-kept tenant_id cutoff db =
    let before : Operation → Operation → Bool = λ a b. leb a.created_at b.created_at in
    let own : Operation → Bool = λ o. o.tenant_id == tenant_id in
    let kept : Operation → Bool = λ o. not (is_expired tenant_id cutoff o) in
    ap (sorted_with before) (filter-swap kept own db.operations)
    ∙ sorted_with-filter before (λ a b h. ground arith) (λ a b c h k. ground arith) kept
        (filter own db.operations)
