-- ===== src/Base/Sorting.antt =====
-- Python's `sorted`, as a stable insertion sort: by a test on pairs, and by a number as the key,
-- ascending or with `reverse=True`.
use Prim.Native.Nat.{ℕ, ◌+◌}
use mathlib.Core.Path.{◌≡◌, refl, sym, ap, ◌∙◌}
use mathlib.Core.Logic.{inl, inr}
use mathlib.Core.Bool.{Bool, true, false, ◌||◌}
use mathlib.Core.List.{List, [], ◌∷◌, map, Perm}
use mathlib.Core.List.Perm
use native.Mathlib.Omega.{arith}
use safe_context.Base.Tests.{leb, if◌then◌else◌, Bool-cases}
use safe_context.Base.Lists.{length, All, AllPairs, any, first, filter}

module _ {ℓ} {A : Type ℓ} (before : A → A → Bool) where
  insert_with : A → List A → List A
  insert_with x [] = x ∷ []
  insert_with x (y ∷ ys) =
      let rest = insert_with x ys in if before x y then x ∷ y ∷ ys else y ∷ rest

  -- An entry is put in front of the first one that it may precede.
  unfoldable pub sorted_with : List A → List A
  unfolding insert_with
  sorted_with [] = []
  sorted_with (x ∷ xs) = insert_with x (sorted_with xs)

-- `sorted(xs, key=key)`
abbrev pub sorted_by {ℓ} : {A : Type ℓ} → (A → ℕ) → List A → List A
sorted_by key = sorted_with (λ x y. leb (key x) (key y))

-- `sorted(xs, key=key, reverse=True)`: still stable.
abbrev pub sorted_desc {ℓ} : {A : Type ℓ} → (A → ℕ) → List A → List A
sorted_desc key = sorted_with (λ x y. leb (key y) (key x))

module _ {ℓ κ} {A : Type ℓ} (before : A → A → Bool) (P : A → Type κ) where
  insert_with-All : (x : A) (ys : List A) → P x → All P ys → All P (insert_with before x ys)
  unfolding insert_with
  insert_with-All x [] h k = (h, k)
  insert_with-All x (y ∷ ys) h k = elim (Bool-cases (before x y)) [
    | inl e ↦ rw e (h, k)
    | inr e ↦ rw e (k.0, insert_with-All x ys h k.1)
  ]

  pub sorted_with-All : (xs : List A) → All P xs → All P (sorted_with before xs)
  unfolding sorted_with
  sorted_with-All [] h = h
  sorted_with-All (x ∷ xs) h = insert_with-All x _ h.0 (sorted_with-All xs h.1)

-- A symmetric relation between any two entries survives the sort.
module _ {ℓ κ} {A : Type ℓ} (before : A → A → Bool) (R : A → A → Type κ)
    (swap : (x y : A) → R x y → R y x) where
  insert_with-AllPairs :
      (x : A) (ys : List A) → All (R x) ys → AllPairs R ys → AllPairs R (insert_with before x ys)
  unfolding insert_with
  insert_with-AllPairs x [] h k = (h, k)
  insert_with-AllPairs x (y ∷ ys) h k = elim (Bool-cases (before x y)) [
    | inl e ↦ rw e (h, k)
    | inr e ↦
        rw e
          (insert_with-All before (R y) x ys (swap x y h.0) k.0, insert_with-AllPairs x ys h.1 k.1)
  ]

  pub sorted_with-AllPairs : (xs : List A) → AllPairs R xs → AllPairs R (sorted_with before xs)
  unfolding sorted_with
  sorted_with-AllPairs [] h = h
  sorted_with-AllPairs (x ∷ xs) h =
      insert_with-AllPairs x _ (sorted_with-All before (R x) xs h.0) (sorted_with-AllPairs xs h.1)

-- The result is ordered by any transitive relation that the test decides one way or the other.
module _ {ℓ κ} {A : Type ℓ} (before : A → A → Bool) (R : A → A → Type κ)
    (if_before : (x y : A) → before x y ≡ true → R x y)
    (if_not : (x y : A) → before x y ≡ false → R y x)
    (trans : (x y z : A) → R x y → R y z → R x z) where
  All-trans : (x y : A) (ys : List A) → R x y → All (R y) ys → All (R x) ys
  All-trans x y [] h k = tt
  All-trans x y (z ∷ ys) h k = (trans x y z h k.0, All-trans x y ys h k.1)

  insert_with-IsSorted :
      (x : A) (ys : List A) → AllPairs R ys → AllPairs R (insert_with before x ys)
  unfolding insert_with
  insert_with-IsSorted x [] h = (tt, tt)
  insert_with-IsSorted x (y ∷ ys) h = elim (Bool-cases (before x y)) [
    | inl e ↦ let le : R x y = if_before x y e in rw e ((le, All-trans x y ys le h.0), h)
    | inr e ↦
        rw e (insert_with-All before (R y) x ys (if_not x y e) h.0, insert_with-IsSorted x ys h.1)
  ]

  pub sorted_with-IsSorted : (xs : List A) → AllPairs R (sorted_with before xs)
  unfolding sorted_with
  sorted_with-IsSorted [] = tt
  sorted_with-IsSorted (x ∷ xs) = insert_with-IsSorted x _ (sorted_with-IsSorted xs)

-- At most one of the two passes the test.
abbrev pub NotBoth {ℓ} : {A : Type ℓ} → (A → Bool) → A → A → Type 0
NotBoth p x y = p x ≡ true → p y ≡ false

module _ {ℓ} {A : Type ℓ} (before : A → A → Bool) where
  insert_with-perm : (x : A) (ys : List A) → Perm (insert_with before x ys) (x ∷ ys)
  unfolding insert_with
  insert_with-perm x [] = Perm.refl _
  insert_with-perm x (y ∷ ys) = elim (Bool-cases (before x y)) [
    | inl e ↦ rw e (Perm.refl _)
    | inr e ↦ rw e (Perm.trans (Perm.cons y (insert_with-perm x ys)) (Perm.swap x y ys))
  ]

  pub sorted_with-perm : (xs : List A) → Perm (sorted_with before xs) xs
  unfolding sorted_with
  sorted_with-perm [] = Perm.refl _
  sorted_with-perm (x ∷ xs) =
      Perm.trans (insert_with-perm x (sorted_with before xs)) (Perm.cons x (sorted_with-perm xs))

  any-insert_with :
      (p : A → Bool) (x : A) (ys : List A) → any p (insert_with before x ys) ≡ (p x || any p ys)
  unfolding insert_with
  any-insert_with p x [] = refl
  any-insert_with p x (y ∷ ys) = ground (arith, any-insert_with p x ys)

  pub any-sorted_with : (p : A → Bool) (xs : List A) → any p (sorted_with before xs) ≡ any p xs
  unfolding sorted_with
  any-sorted_with p [] = refl
  any-sorted_with p (x ∷ xs) =
      ground (arith, any-insert_with p x (sorted_with before xs), any-sorted_with p xs)

  first-insert_with :
      (p : A → Bool) (x : A) (ys : List A)
      → All (NotBoth p x) ys
      → first p (insert_with before x ys) ≡ first p (x ∷ ys)
  unfolding insert_with
  first-insert_with p x [] h = refl
  first-insert_with p x (y ∷ ys) h = ground (arith, first-insert_with p x ys h.1, h.0)

  -- A search that has one answer at most finds it in any order.
  pub first-sorted_with :
      (p : A → Bool) (xs : List A)
      → AllPairs (NotBoth p) xs
      → first p (sorted_with before xs) ≡ first p xs
  unfolding sorted_with
  first-sorted_with p [] h = refl
  first-sorted_with p (x ∷ xs) h = ground (
    arith,
    first-insert_with p x (sorted_with before xs) (sorted_with-All before (NotBoth p x) xs h.0),
    first-sorted_with p xs h.1,
  )

-- A function that keeps the order of the entries may be applied before the sort or after it.
module _ {ℓ} {A : Type ℓ} (before : A → A → Bool) (f : A → A) (P : A → Type 0)
    (same : (x y : A) → P x → P y → before (f x) (f y) ≡ before x y) where
  insert_with-map :
      (x : A) (ys : List A)
      → P x
      → All P ys
      → insert_with before (f x) (map f ys) ≡ map f (insert_with before x ys)
  unfolding insert_with
  insert_with-map x [] h k = refl
  insert_with-map x (y ∷ ys) h k = elim (Bool-cases (before x y)) [
    | inl e ↦ rw (same x y h k.0, e) refl
    | inr e ↦ rw (same x y h k.0, e) (ap (λ z. f y ∷ z) (insert_with-map x ys h k.1))
  ]

  pub sorted_with-map :
      (xs : List A) → All P xs → sorted_with before (map f xs) ≡ map f (sorted_with before xs)
  unfolding sorted_with
  sorted_with-map [] h = refl
  sorted_with-map (x ∷ xs) h =
      ap (insert_with before (f x)) (sorted_with-map xs h.1)
      ∙ insert_with-map x (sorted_with before xs) h.0 (sorted_with-All before P xs h.1)

-- The entries that pass a test may be taken before the sort or after it.
module _ {ℓ} {A : Type ℓ} (before : A → A → Bool)
    (total : (x y : A) → before x y ≡ false → before y x ≡ true)
    (trans : (x y z : A) → before x y ≡ true → before y z ≡ true → before x z ≡ true)
    (p : A → Bool) where
  insert_with-front :
      (x : A) (ys : List A) → All (λ y. before x y ≡ true) ys → insert_with before x ys ≡ x ∷ ys
  unfolding insert_with
  insert_with-front x [] h = refl
  insert_with-front x (y ∷ ys) h = rw (h.0) refl

  All-filter_lem :
      (x : A) (ys : List A)
      → All (λ y. before x y ≡ true) ys
      → All (λ y. before x y ≡ true) (filter p ys)
  All-filter_lem x [] h = tt
  All-filter_lem x (y ∷ ys) h = elim (Bool-cases (p y)) [
    | inl e ↦ rw e (h.0, All-filter_lem x ys h.1)
    | inr e ↦ rw e (All-filter_lem x ys h.1)
  ]

  insert_with-filter :
      (x : A) (ys : List A)
      → AllPairs (λ y z. before y z ≡ true) ys
      → filter p (insert_with before x ys)
        ≡ (if p x then insert_with before x (filter p ys) else filter p ys)
  unfolding insert_with
  insert_with-filter x [] h = elim (Bool-cases (p x)) [ inl e ↦ rw e refl | inr e ↦ rw e refl ]
  insert_with-filter x (y ∷ ys) h = elim (Bool-cases (before x y)) [
    | inl e ↦
        let after : All (λ z. before x z ≡ true) (y ∷ ys) =
          (e, All-trans before (λ a b. before a b ≡ true) (λ a b q. q) total trans x y ys e h.0) in
        rw (e) (
          ap (λ r. if p x then r else filter p (y ∷ ys))
            (sym (insert_with-front x (filter p (y ∷ ys)) (All-filter_lem x (y ∷ ys) after))))
    | inr e ↦
        let ih = insert_with-filter x ys h.1 in
        rw (e) (elim (Bool-cases (p y)) [
          | inl q ↦ elim (Bool-cases (p x)) [
            | inl r ↦ rw (q, r) (rw (e) (ap (λ t. y ∷ t) (rw (r) at ih)))
            | inr r ↦ rw (q, r) (ap (λ t. y ∷ t) (rw (r) at ih))
          ]
          | inr q ↦ rw (q) ih
        ])
  ]

  pub sorted_with-filter :
      (xs : List A) → sorted_with before (filter p xs) ≡ filter p (sorted_with before xs)
  unfolding sorted_with
  sorted_with-filter [] = refl
  sorted_with-filter (x ∷ xs) =
      let sorted =
        sorted_with-IsSorted before (λ a b. before a b ≡ true) (λ a b q. q) total trans xs in
      elim (Bool-cases (p x)) [
        | inl e ↦ rw (e) (
            ap (insert_with before x) (sorted_with-filter xs)
            ∙ sym (
                insert_with-filter x (sorted_with before xs) sorted
                ∙ ap
                    (λ b.
                      if b
                      then insert_with before x (filter p (sorted_with before xs))
                      else filter p (sorted_with before xs))
                    e))
        | inr e ↦ rw (e) (
            sorted_with-filter xs
            ∙ sym (
                insert_with-filter x (sorted_with before xs) sorted
                ∙ ap
                    (λ b.
                      if b
                      then insert_with before x (filter p (sorted_with before xs))
                      else filter p (sorted_with before xs))
                    e))
      ]

length-insert_with {ℓ} :
    {A : Type ℓ} (before : A → A → Bool) (x : A) (ys : List A)
    → length (insert_with before x ys) ≡ length ys + 1
unfolding insert_with
length-insert_with before x [] = refl
length-insert_with before x (y ∷ ys) = let ih = length-insert_with before x ys in ground (arith, ih)

pub length-sorted_with {ℓ} :
    {A : Type ℓ} (before : A → A → Bool) (xs : List A) → length (sorted_with before xs) ≡ length xs
unfolding sorted_with
length-sorted_with before [] = refl
length-sorted_with before (x ∷ xs) =
    length-insert_with before x (sorted_with before xs)
    ∙ ap (λ n. n + 1) (length-sorted_with before xs)
    ∙ omega arith
