-- ===== src/Detect/Merged.antt =====
-- What the merge of the two detectors' findings is.
use mathlib.Core.List.{Perm}
use safe_context.Base.{
  ℕ, max, ap, refl, true, ◌≤◌, ◌<◌, ◌≡◌, ◌⊎◌, inl, inr, Bool, false, not, List, [], ◌∷◌, ◌++◌,
  arith, filter, any, All, AllPairs, All-append, All-filter, leb, Bool-cases, sorted_with-AllPairs,
  sorted_with-IsSorted, sorted_with-perm,
}
use safe_context.Store.{Detection}
use safe_context.Detect.{overlaps, merge_findings}

-- One span ends before the other begins.
abbrev pub Clear : Detection → Detection → Type 0
Clear f g = (f.span_end ≤ g.span_start) ⊎ (g.span_end ≤ f.span_start)

-- A span with at least one character.
abbrev pub IsSolid : Detection → Type 0
IsSolid f = f.span_start < f.span_end

-- The findings of the second detector that no finding of the first one overlaps.
abbrev pub kept : List Detection → List Detection → List Detection
kept regex presidio = filter (λ pf. not (any (λ rf. overlaps rf pf) regex)) presidio

overlaps-false : (f g : Detection) → IsSolid f → IsSolid g → overlaps f g ≡ false → Clear f g
overlaps-false f g s t e = ground arith

any-false :
    (g : Detection) (fs : List Detection)
    → All IsSolid fs
    → IsSolid g
    → any (λ f. overlaps f g) fs ≡ false
    → All (λ f. Clear f g) fs
any-false g [] h s e = tt
any-false g (f ∷ fs) h s e =
    (overlaps-false f g h.0 s (ground arith), any-false g fs h.1 s (ground arith))

Clear-sym : (f g : Detection) → Clear f g → Clear g f
Clear-sym f g (inl h) = inr h
Clear-sym f g (inr h) = inl h

-- Every finding that is kept is clear of every finding of the first list.
kept-All :
    (f : Detection) (regex presidio : List Detection)
    → ((g : Detection) → IsSolid g → any (λ r. overlaps r g) regex ≡ false → Clear f g)
    → All IsSolid presidio
    → All (Clear f) (kept regex presidio)
kept-All f regex [] h s = tt
kept-All f regex (g ∷ gs) h s = elim (Bool-cases (any (λ r. overlaps r g) regex)) [
  | inl e ↦ rw e (kept-All f regex gs h s.1)
  | inr e ↦ rw e (h g s.0 e, kept-All f regex gs h s.1)
]

AllPairs-append :
    (R : Detection → Detection → Type 0) (xs ys : List Detection)
    → AllPairs R xs
    → AllPairs R ys
    → All (λ x. All (R x) ys) xs
    → AllPairs R (xs ++ ys)
AllPairs-append R [] ys h k l = k
AllPairs-append R (x ∷ xs) ys h k l =
    (All-append (R x) xs ys h.0 l.0, AllPairs-append R xs ys h.1 k l.1)

AllPairs-filter :
    (R : Detection → Detection → Type 0) (p : Detection → Bool) (xs : List Detection)
    → AllPairs R xs
    → AllPairs R (filter p xs)
AllPairs-filter R p [] h = h
AllPairs-filter R p (x ∷ xs) h = elim (Bool-cases (p x)) [
  | inl e ↦ rw e (All-filter (R x) p xs h.0, AllPairs-filter R p xs h.1)
  | inr e ↦ rw e (AllPairs-filter R p xs h.1)
]

-- `rs` runs along the first list, all of which the test has looked at.
kept-Clear :
    (rs regex presidio : List Detection)
    → ((g : Detection)
        → IsSolid g
        → any (λ r. overlaps r g) regex ≡ false
        → All (λ f. Clear f g) rs)
    → All IsSolid presidio
    → All (λ f. All (Clear f) (kept regex presidio)) rs
kept-Clear [] regex presidio h s = tt
kept-Clear (r ∷ rs) regex presidio h s = (
  kept-All r regex presidio (λ g t e. (h g t e).0) s,
  kept-Clear rs regex presidio (λ g t e. (h g t e).1) s,
)

-- Two findings that have a character of the document in common.
abbrev pub Shares : Detection → Detection → Type 0
Shares f g = (i : ℕ) × (f.span_start ≤ i) × (i < f.span_end) × (g.span_start ≤ i) × (i < g.span_end)

-- `gs` without the findings that share a character with some finding of `regex`, in order.
pub data Rest (regex : List Detection) : List Detection → List Detection → Type 0 where
  none_left : Rest regex [] []
  keeps :
      (g : Detection) {gs ks : List Detection}
      → All (λ f. ¬ (Shares f g)) regex
      → Rest regex gs ks
      → Rest regex (g ∷ gs) (g ∷ ks)
  drops :
      (g f : Detection) (before after : List Detection) {gs ks : List Detection}
      → regex ≡ before ++ (f ∷ after)
      → Shares f g
      → Rest regex gs ks
      → Rest regex (g ∷ gs) ks

overlaps-Shares : (f g : Detection) → overlaps f g ≡ true → Shares f g
overlaps-Shares f g e =
    (max f.span_start g.span_start, ground arith, ground arith, ground arith, ground arith)

Shares-overlaps : (f g : Detection) → Shares f g → overlaps f g ≡ true
Shares-overlaps f g (i, a, b, c, d) = ground arith

unshared :
    (g : Detection) (fs : List Detection)
    → any (λ f. overlaps f g) fs ≡ false
    → All (λ f. ¬ (Shares f g)) fs
unshared g [] e = tt
unshared g (f ∷ fs) e = elim (Bool-cases (overlaps f g)) [
  | inl y ↦ absurd (cc (rw y at e))
  | inr n ↦ ((λ s. absurd (cc (Shares-overlaps f g s, n))), unshared g fs (rw n at e))
]

shared :
    (g : Detection) (fs : List Detection)
    → any (λ f. overlaps f g) fs ≡ true
    → (before after : List Detection) × (f : Detection) × (fs ≡ before ++ (f ∷ after)) × Shares f g
shared g [] e = cc
shared g (f ∷ fs) e = elim (Bool-cases (overlaps f g)) [
  | inl y ↦ ([], fs, f, refl, overlaps-Shares f g y)
  | inr n ↦
      let (before, after, h, split, s) = shared g fs (rw n at e) in
      (f ∷ before, after, h, ap (λ l. f ∷ l) split, s)
]

kept-Rest : (regex presidio : List Detection) → Rest regex presidio (kept regex presidio)
kept-Rest regex [] = none_left
kept-Rest regex (g ∷ gs) = elim (Bool-cases (any (λ rf. overlaps rf g) regex)) [
  | inl y ↦
      let (before, after, f, split, s) = shared g regex y in
      rw y (drops g f before after split s (kept-Rest regex gs))
  | inr n ↦ rw n (keeps g (unshared g regex n) (kept-Rest regex gs))
]

-- The merge is sorted by where the spans begin, and it consists of all regex findings and of those
-- Presidio findings that have no character of the document in common with any regex finding, each as
-- often as it was found.
pub merge_findings_content :
    (regex presidio : List Detection)
    → AllPairs (λ f g. f.span_start ≤ g.span_start) (merge_findings regex presidio)
      × ((ks : List Detection) × Rest regex presidio ks
          × Perm (merge_findings regex presidio) (regex ++ ks))
unfolding merge_findings
merge_findings_content regex presidio = (
  sorted_with-IsSorted (λ (x y : Detection). leb x.span_start y.span_start)
      (λ x y. x.span_start ≤ y.span_start) (λ x y e. ground arith) (λ x y e. ground arith)
      (λ x y z h k. omega arith) (regex ++ kept regex presidio),
  (
    kept regex presidio,
    kept-Rest regex presidio,
    sorted_with-perm (λ (x y : Detection). leb x.span_start y.span_start)
        (regex ++ kept regex presidio),
  ),
)

-- If no detector reports an empty span or two spans of its own that meet, no two spans of the merge
-- meet.
pub merge_findings-separated :
    (regex presidio : List Detection)
    → All IsSolid regex
    → All IsSolid presidio
    → AllPairs Clear regex
    → AllPairs Clear presidio
    → AllPairs Clear (merge_findings regex presidio)
unfolding merge_findings
merge_findings-separated regex presidio s t h k =
    sorted_with-AllPairs (λ (x y : Detection). leb x.span_start y.span_start) Clear Clear-sym
      (regex ++ kept regex presidio)
      (AllPairs-append Clear regex (kept regex presidio) h (AllPairs-filter Clear _ presidio k)
        (kept-Clear regex regex presidio (λ g solid e. any-false g regex s solid e) t))
