-- ===== src/Sanitize/Redacts.antt =====
-- `_apply_redactions` gives the masked text.
use mathlib.Core.List.{append_assoc, append-nil}
use safe_context.Base.{
  ℕ, zero, suc, ◌+◌, ◌≤◌, ◌<◌, max, ◌≡◌, refl, sym, ap, ◌∙◌, inl, inr, List, [], ◌∷◌, ◌++◌, arith,
  length, take, drop, All, AllPairs, leb, sorted_desc, length-take, take-append_le, sorted_with-All,
  sorted_with-AllPairs, sorted_with-IsSorted, any-sorted_with, first-sorted_with, NotBoth,
}
use safe_context.Store.{Text, Finding}
use safe_context.Sanitize.{
  splice, redact_loop, apply_redactions, RedactionMap, redaction_marker, redaction_for,
}
use safe_context.Sanitize.Masked.{starts_at, covers, masked, IsWithin, Apart, IsSeparated}
use safe_context.Sanitize.Exact.{masked-EndBy, masked-cons, EndBy}

drop-append_le : (n : ℕ) (xs ys : Text) → n ≤ length xs → drop n (xs ++ ys) ≡ drop n xs ++ ys
drop-append_le zero xs ys h = refl
drop-append_le (suc n) [] ys h = absurd (omega arith)
drop-append_le (suc n) (x ∷ xs) ys h = drop-append_le n xs ys (omega arith)

splice-append :
    (a b : ℕ) (m pre done : Text)
    → a ≤ b
    → b ≤ length pre
    → splice a b m (pre ++ done) ≡ take a pre ++ (m ++ (drop b pre ++ done))
unfolding splice
splice-append a b m pre done h k =
    let e : max a b ≡ b = omega arith in
    rw (e, take-append_le a pre done (omega arith), drop-append_le b pre done k) refl

-- Every later span of the list ends where this one begins, or before.
abbrev pub Before : Finding → Finding → Type 0
Before x y = (y.span_start < y.span_end) × (y.span_end ≤ x.span_start)

module _ (marker : Finding → Text) where
  pub redact_loop-masked :
      (fs : List Finding) (pre done : Text)
      → EndBy marker (length pre) fs
      → AllPairs Before fs
      → redact_loop marker fs (pre ++ done) ≡ masked marker fs 0 pre ++ done
  unfolding redact_loop
  redact_loop-masked [] pre done h k = ap (λ r. r ++ done) (sym (masked-EndBy marker [] 0 pre tt))
  redact_loop-masked (f ∷ fs) pre done h k =
      let a = f.span_start in
      let short : length (take a pre) ≡ a = omega (arith, length-take a pre, h.0.0, h.0.1) in
      rw
        (
          splice-append a f.span_end (marker f) pre done (omega (arith, h.0.0)) h.0.1,
          redact_loop-masked fs (take a pre) (marker f ++ (drop f.span_end pre ++ done))
              (rw short k.0) k.1,
          masked-cons marker f fs pre h.0.0 h.0.1 k.0,
        )
        (simp append_assoc)

EndBy-Before :
    (marker : Finding → Text) (f : Finding) (fs : List Finding)
    → All (λ g. g.span_start ≤ f.span_start) fs
    → All (Apart f) fs
    → All (λ g. g.span_start < g.span_end) fs
    → f.span_start < f.span_end
    → EndBy marker f.span_start fs
EndBy-Before marker f [] h k l lt = tt
EndBy-Before marker f (g ∷ fs) h k l lt =
    ((l.0, ground (arith, k.0)), EndBy-Before marker f fs h.1 k.1 l.1 lt)

Apart-sym : (f g : Finding) → Apart f g → Apart g f
Apart-sym f g (inl h) = inr h
Apart-sym f g (inr h) = inl h

-- Sorted by falling start, separated spans stand each before the other.
AllPairs-Before :
    (fs : List Finding)
    → AllPairs (λ f g. g.span_start ≤ f.span_start) fs
    → AllPairs Apart fs
    → All (λ f. f.span_start < f.span_end) fs
    → AllPairs Before fs
AllPairs-Before [] h k l = tt
AllPairs-Before (f ∷ fs) h k l =
    (EndBy-Before (λ _. []) f fs h.0 k.0 l.1 l.0, AllPairs-Before fs h.1 k.1 l.1)

-- Two separated spans do not begin at one place.
starts-NotBoth :
    (i : ℕ) (fs : List Finding)
    → AllPairs Apart fs
    → All (λ f. f.span_start < f.span_end) fs
    → AllPairs (NotBoth (starts_at i)) fs
starts-NotBoth i [] h l = tt
starts-NotBoth i (f ∷ fs) h l = (go fs h.0 l.1, starts-NotBoth i fs h.1 l.1)
  where
    go :
        (gs : List Finding)
        → All (Apart f) gs
        → All (λ g. g.span_start < g.span_end) gs
        → All (NotBoth (starts_at i) f) gs
    go [] k m = tt
    go (g ∷ gs) k m = (λ e. ground (arith, k.0, m.0, l.0), go gs k.1 m.1)

masked-sorted :
    (marker : Finding → Text) (fs : List Finding) (i : ℕ) (text : Text)
    → AllPairs Apart fs
    → All (λ f. f.span_start < f.span_end) fs
    → masked marker (sorted_desc (λ f. f.span_start) fs) i text ≡ masked marker fs i text
unfolding masked
masked-sorted marker fs i [] h l = refl
masked-sorted marker fs i (c ∷ text) h l =
    rw
      (
        first-sorted_with _ (starts_at i) fs (starts-NotBoth i fs h l),
        any-sorted_with _ (covers i) fs,
        masked-sorted marker fs (i + 1) text h l,
      )
      refl

All-map :
    (P Q : Finding → Type 0)
    → ((f : Finding) → P f → Q f)
    → (fs : List Finding) → All P fs
    → All Q fs
All-map P Q h [] k = tt
All-map P Q h (f ∷ fs) k = (h f k.0, All-map P Q h fs k.1)

-- Where every span lies within the document and no two spans meet, the redacted text is the
-- document with each covered character dropped and each span's marker at the span's beginning, for
-- findings in any order and any redaction map.
pub apply_redactions-eq-masked :
    (text : Text) (fs : List Finding) (redactions : RedactionMap)
    → All (IsWithin (length text)) fs
    → IsSeparated fs
    → apply_redactions text fs redactions
      ≡ masked (λ f. redaction_marker (redaction_for redactions f.id)) fs 0 text
unfolding apply_redactions
apply_redactions-eq-masked text fs redactions within apart =
    let marker = λ (f : Finding). redaction_marker (redaction_for redactions f.id) in
    let sorted = sorted_desc (λ (f : Finding). f.span_start) fs in
    let full =
      All-map (IsWithin (length text)) (λ f. f.span_start < f.span_end) (λ f h. h.0) fs within in
    let apart' =
      sorted_with-AllPairs (λ (x y : Finding). leb y.span_start x.span_start) Apart Apart-sym fs
        apart in
    let down =
      sorted_with-IsSorted (λ (x y : Finding). leb y.span_start x.span_start)
        (λ x y. y.span_start ≤ x.span_start) (λ x y e. ground arith) (λ x y e. ground arith)
        (λ x y z h k. omega arith) fs in
    let full' =
      sorted_with-All (λ (x y : Finding). leb y.span_start x.span_start)
        (λ f. f.span_start < f.span_end) fs full in
    let within' =
      sorted_with-All (λ (x y : Finding). leb y.span_start x.span_start) (IsWithin (length text)) fs
        within in
    let run =
      redact_loop-masked marker sorted text [] within' (AllPairs-Before sorted down apart' full') in
    ap (redact_loop marker sorted) (sym (append-nil text))
    ∙ run
    ∙ append-nil _
    ∙ masked-sorted marker fs 0 text apart full
