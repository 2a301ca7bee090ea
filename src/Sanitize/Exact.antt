-- ===== src/Sanitize/Exact.antt =====
-- The loop of `_apply_redactions`, from the last span to the first, gives the masked text.
use mathlib.Core.List.{append_assoc, append-nil}
use safe_context.Base.{
  ℕ, suc, ◌+◌, ◌-◌, ◌≤◌, ◌<◌, ◌≡◌, refl, sym, ap, ◌∙◌, true, false, List, [], ◌∷◌, ◌++◌, none,
  arith, length, take, drop, first, any, All, ◌==◌, take-append-drop, length-take, length-drop,
  drop-drop,
}
use safe_context.Store.{Text, Finding}
use safe_context.Sanitize.Masked.{starts_at, covers, masked}

module _ (marker : Finding → Text) where
  pub masked-append :
      (fs : List Finding) (i : ℕ) (xs ys : Text)
      → masked marker fs i (xs ++ ys) ≡ masked marker fs i xs ++ masked marker fs (i + length xs) ys
  unfolding masked
  masked-append fs i [] ys = ap (λ k. masked marker fs k ys) (omega arith)
  masked-append fs i (c ∷ xs) ys =
      let e : i + suc (length xs) ≡ i + 1 + length xs = omega arith in
      rw (e, masked-append fs (i + 1) xs ys) (simp append_assoc)

  -- All spans end at `i` or before.
  abbrev pub EndBy : ℕ → List Finding → Type 0
  EndBy i = All (λ f. (f.span_start < f.span_end) × (f.span_end ≤ i))

  first-EndBy : (i : ℕ) (fs : List Finding) → EndBy i fs → first (starts_at i) fs ≡ none
  first-EndBy i [] h = refl
  first-EndBy i (f ∷ fs) h = ground (arith, first-EndBy i fs h.1)

  any-EndBy : (i : ℕ) (fs : List Finding) → EndBy i fs → any (covers i) fs ≡ false
  any-EndBy i [] h = refl
  any-EndBy i (f ∷ fs) h = ground (arith, any-EndBy i fs h.1)

  EndBy-mono : (i j : ℕ) (fs : List Finding) → i ≤ j → EndBy i fs → EndBy j fs
  EndBy-mono i j [] le h = tt
  EndBy-mono i j (f ∷ fs) le h = ((h.0.0, omega arith), EndBy-mono i j fs le h.1)

  -- Behind the last span a text stays as it is.
  pub masked-EndBy :
      (fs : List Finding) (i : ℕ) (xs : Text) → EndBy i fs → masked marker fs i xs ≡ xs
  unfolding masked
  masked-EndBy fs i [] h = refl
  masked-EndBy fs i (c ∷ xs) h =
      rw (first-EndBy i fs h, any-EndBy i fs h)
        (ap (λ r. c ∷ r) (masked-EndBy fs (i + 1) xs (EndBy-mono i (i + 1) fs (omega arith) h)))

  -- Before a span begins it does not show.
  masked-before :
      (f : Finding) (fs : List Finding) (i : ℕ) (xs : Text)
      → i + length xs ≤ f.span_start
      → masked marker (f ∷ fs) i xs ≡ masked marker fs i xs
  unfolding masked
  masked-before f fs i [] h = refl
  masked-before f fs i (c ∷ xs) h =
      let start : (f.span_start == i) ≡ false = ground arith in
      let cover : covers i f ≡ false = ground arith in
      rw (start, cover, masked-before f fs (i + 1) xs (omega arith))

  -- Past its first character a span gives nothing.
  masked-inside :
      (f : Finding) (fs : List Finding) (i : ℕ) (xs : Text)
      → f.span_start < i
      → i + length xs ≤ f.span_end
      → EndBy f.span_start fs
      → masked marker (f ∷ fs) i xs ≡ []
  unfolding masked
  masked-inside f fs i [] h k e = refl
  masked-inside f fs i (c ∷ xs) h k e =
      let start : (f.span_start == i) ≡ false = ground arith in
      let cover : covers i f ≡ true = ground arith in
      rw (start, cover, first-EndBy i fs (EndBy-mono f.span_start i fs (omega arith) e))
        (masked-inside f fs (i + 1) xs (omega arith) (omega arith) e)

  -- A whole span gives its marker.
  masked-span :
      (f : Finding) (fs : List Finding) (xs : Text)
      → f.span_start < f.span_end
      → f.span_start + length xs ≡ f.span_end
      → EndBy f.span_start fs
      → masked marker (f ∷ fs) f.span_start xs ≡ marker f
  unfolding masked
  masked-span f fs [] lt h e = absurd (omega arith)
  masked-span f fs (c ∷ xs) lt h e =
      let start : (f.span_start == f.span_start) ≡ true = ground arith in
      let cover : covers f.span_start f ≡ true = ground arith in
      rw (start, cover, masked-inside f fs (f.span_start + 1) xs (omega arith) (omega arith) e)
        (simp append-nil)

  -- A text in three pieces: what lies before the last span, the span, and what follows it.
  masked-pieces :
      (f : Finding) (fs : List Finding) (pre mid rest : Text)
      → f.span_start < f.span_end
      → length pre ≡ f.span_start
      → f.span_start + length mid ≡ f.span_end
      → EndBy f.span_start fs
      → masked marker (f ∷ fs) 0 (pre ++ (mid ++ rest))
        ≡ masked marker fs 0 pre ++ (marker f ++ rest)
  masked-pieces f fs pre mid rest lt lp lm e =
      let after : EndBy f.span_end (f ∷ fs) =
        ((lt, omega arith), EndBy-mono f.span_start f.span_end fs (omega arith) e) in
      let here : 0 + length pre ≡ f.span_start = omega arith in
      rw
        (
          masked-append (f ∷ fs) 0 pre (mid ++ rest),
          masked-before f fs 0 pre (omega arith),
          here,
          masked-append (f ∷ fs) f.span_start mid rest,
          masked-span f fs mid lt lm e,
          lm,
          masked-EndBy (f ∷ fs) f.span_end rest after,
        )
        refl

  pub masked-cons :
      (f : Finding) (fs : List Finding) (text : Text)
      → f.span_start < f.span_end
      → f.span_end ≤ length text
      → EndBy f.span_start fs
      → masked marker (f ∷ fs) 0 text
        ≡ masked marker fs 0 (take f.span_start text) ++ (marker f ++ drop f.span_end text)
  masked-cons f fs text lt le e =
      let a = f.span_start in
      let b = f.span_end in
      let mid : Text = take (b - a) (drop a text) in
      let back : a + (b - a) ≡ b = omega arith in
      let tail : drop (b - a) (drop a text) ≡ drop b text =
        drop-drop (b - a) a text ∙ ap (λ k. drop k text) back in
      let cut : text ≡ take a text ++ (mid ++ drop b text) = sym (
        ap (λ r. take a text ++ (mid ++ r)) (sym tail)
        ∙ ap (λ r. take a text ++ r) (take-append-drop (b - a) (drop a text))
        ∙ take-append-drop a text) in
      ap (masked marker (f ∷ fs) 0) cut
      ∙ masked-pieces f fs (take a text) mid (drop b text) lt (omega (arith, length-take a text))
          (omega (arith, length-take (b - a) (drop a text), length-drop a text)) e
