-- ===== src/Agents/Database.antt =====
-- How the queries of the actors answer after their updates.
use safe_context.Base.{
  ℕ, ◌≡◌, ◌≢◌, refl, ap, ◌∙◌, inl, inr, Bool, true, false, ◌||◌, List, [], ◌∷◌, ◌++◌, none, some,
  arith, any, first, update_where, ◌==◌, if◌then◌else◌, Bool-cases,
}
use safe_context.Store.{Operation, Detection, Db}
use safe_context.Agents.{find_operation, update_operation, insert_findings, same_span}

module _ {ℓ} {A : Type ℓ} where
  pub first-update_where :
      (p q : A → Bool) (f : A → A) (xs : List A)
      → ((x : A) → p (f x) ≡ p x)
      → first p (update_where q f xs)
        ≡ elim (first p xs) [ none ↦ none | some x ↦ some (if q x then f x else x) ]
  first-update_where p q f [] h = refl
  first-update_where p q f (x ∷ xs) h = go (p x) (q x) refl refl (first-update_where p q f xs h)
    where
      go :
          (b c : Bool)
          → p x ≡ b
          → q x ≡ c
          → first p (update_where q f xs)
            ≡ elim (first p xs) [ none ↦ none | some y ↦ some (if q y then f y else y) ]
          → first p (update_where q f (x ∷ xs)) ≡ elim (if b then some x else first p xs) [
            | none ↦ none
            | some y ↦ some (if q y then f y else y)
          ]
      go true true eb ec r = rw ec (rw (h x, eb) refl)
      go true false eb ec r = rw ec (rw eb refl)
      go false true eb ec r = rw ec (rw (h x, eb) r)
      go false false eb ec r = rw ec (rw eb r)

  pub any-append : (p : A → Bool) (xs ys : List A) → any p (xs ++ ys) ≡ (any p xs || any p ys)
  any-append p [] ys = refl
  any-append p (x ∷ xs) ys = ground (arith, any-append p xs ys)

  pub first_sat : (p : A → Bool) (xs : List A) (x : A) → first p xs ≡ some x → p x ≡ true
  first_sat p [] x h = cc
  first_sat p (y ∷ ys) x h = elim (Bool-cases (p y)) [
    | inl e ↦ let k : some y ≡ some x = rw e at h in let same : y ≡ x = cc in rw (← same) e
    | inr e ↦ first_sat p ys x (rw e at h)
  ]

-- An update of the row with an id, which keeps ids, as a lookup sees it.
pub find-update :
    (id : ℕ) (f : Operation → Operation) (db : Db) {op : Operation}
    → ((o : Operation) → (f o).id ≡ o.id)
    → find_operation id db ≡ some op
    → find_operation id (update_operation id f db) ≡ some (f op)
unfolding find_operation update_operation
find-update id f db {op} keeps e =
    let hit : (op.id == id) ≡ true = first_sat (λ (o : Operation). o.id == id) db.operations op e in
    first-update_where (λ o. o.id == id) (λ o. o.id == id) f db.operations
      (λ o. ap (λ n. n == id) (keeps o))
    ∙ ap (λ r. elim r [ none ↦ none | some x ↦ some (if x.id == id then f x else x) ]) e
    ∙ ap (λ b. some (if b then f op else op)) hit

-- A lookup of another id sees no change.
pub find-update_ne :
    (id j : ℕ) (f : Operation → Operation) (db : Db) {op : Operation}
    → ((o : Operation) → (f o).id ≡ o.id)
    → j ≢ id
    → find_operation j db ≡ some op
    → find_operation j (update_operation id f db) ≡ some op
unfolding find_operation update_operation
find-update_ne id j f db {op} keeps ne e =
    let hit : (op.id == j) ≡ true = first_sat (λ (o : Operation). o.id == j) db.operations op e in
    let miss : (op.id == id) ≡ false = ground arith in
    first-update_where (λ o. o.id == j) (λ o. o.id == id) f db.operations
      (λ o. ap (λ n. n == j) (keeps o))
    ∙ ap (λ r. elim r [ none ↦ none | some x ↦ some (if x.id == id then f x else x) ]) e
    ∙ ap (λ b. some (if b then f op else op)) miss

-- New findings change no operation, and the rows from before stay in front.
pub insert_findings-operations :
    (id : ℕ) (ds : List Detection) (db : Db) {db' : Db}
    → insert_findings id ds db ≡ some db'
    → db'.operations ≡ db.operations
unfolding insert_findings
insert_findings-operations id [] db h = cc
insert_findings-operations id (d ∷ ds) db {db'} h =
    elim (Bool-cases (any (same_span id d) db.findings)) [
      | inl e ↦ absurd (cc (rw e at h))
      | inr e ↦ insert_findings-operations id ds _ (rw e at h)
    ]
