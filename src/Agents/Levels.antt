-- ===== src/Agents/Levels.antt =====
-- What level the classifier gives.
use safe_context.Base.{
  ◌≡◌, ◌≤◌, refl, ap, ◌⊎◌, inl, inr, Bool, true, false, List, [], ◌∷◌, arith, any, All, map, ltb,
  ◌==◌, if◌then◌else◌,
}
use safe_context.Store.{Severity, low, Finding}
use safe_context.Agents.Classifier.{
  severity_rank, severity_to_level, highest, highest_severity, classification_level,
}

-- A severity that ranks no lower than `best` and all the findings, and is one of theirs.
abbrev IsMax : Severity → Severity → List Finding → Type 0
IsMax top best fs =
    (severity_rank best ≤ severity_rank top)
    × All (λ f. severity_rank f.severity ≤ severity_rank top) fs
    × ((top ≡ best) ⊎ (any (λ f. severity_rank f.severity == severity_rank top) fs ≡ true))

-- The loop of `max` keeps the best so far or meets a better one.
highest-IsMax :
    (best : Severity) (fs : List Finding) → IsMax (highest best (map (λ g. g.severity) fs)) best fs
unfolding highest
highest-IsMax best [] = (omega arith, tt, inl refl)
highest-IsMax best (f ∷ fs) =
    by_rank (ltb (severity_rank best) (severity_rank f.severity)) refl (highest-IsMax f.severity fs)
      (highest-IsMax best fs)
  where
    own :
        (top : Severity)
        → any (λ g. severity_rank g.severity == severity_rank top) fs ≡ true
        → any (λ g. severity_rank g.severity == severity_rank top) (f ∷ fs) ≡ true
    own top h = ground (arith, h)

    same :
        (top : Severity)
        → top ≡ f.severity
        → any (λ g. severity_rank g.severity == severity_rank top) (f ∷ fs) ≡ true
    same top h =
        let e : severity_rank top ≡ severity_rank f.severity = ap severity_rank h in ground arith

    by_rank :
        (b : Bool)
        → ltb (severity_rank best) (severity_rank f.severity) ≡ b
        → IsMax (highest f.severity (map (λ g. g.severity) fs)) f.severity fs
        → IsMax (highest best (map (λ g. g.severity) fs)) best fs
        → IsMax (highest (if b then f.severity else best) (map (λ g. g.severity) fs)) best (f ∷ fs)
    by_rank true e (a, b, c) h =
        (ground arith, (a, b), elim c [ inl t ↦ inr (same _ t) | inr t ↦ inr (own _ t) ])
    by_rank false e h (a, b, c) =
        (a, (ground arith, b), elim c [ inl t ↦ inl t | inr t ↦ inr (own _ t) ])

-- The level of an operation is that of a severity `top` which no finding's severity exceeds in rank, and
-- which some finding has, or which is `low` where there are no findings.
pub classification_level-IsMax :
    (fs : List Finding)
    → (top : Severity) × (classification_level fs ≡ severity_to_level top)
      × All (λ f. severity_rank f.severity ≤ severity_rank top) fs
      × (((fs ≡ []) × (top ≡ low))
          ⊎ (any (λ f. severity_rank f.severity == severity_rank top) fs ≡ true))
unfolding classification_level highest_severity
classification_level-IsMax [] = (low, refl, tt, inl (refl, refl))
classification_level-IsMax (f ∷ fs) = by_max (highest-IsMax f.severity fs)
  where
    by_max :
        let top = highest f.severity (map (λ g. g.severity) fs) in
        IsMax top f.severity fs
        → (s : Severity) × (classification_level (f ∷ fs) ≡ severity_to_level s)
          × All (λ g. severity_rank g.severity ≤ severity_rank s) (f ∷ fs)
          × ((((f ∷ fs) ≡ []) × (s ≡ low))
              ⊎ (any (λ g. severity_rank g.severity == severity_rank s) (f ∷ fs) ≡ true))
    by_max (a, b, c) = (
      highest f.severity (map (λ g. g.severity) fs),
      refl,
      (a, b),
      inr (elim c [
        | inl t ↦ let e = ap severity_rank t in ground arith
        | inr t ↦ ground (arith, t)
      ]),
    )
