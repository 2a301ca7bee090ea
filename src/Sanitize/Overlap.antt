-- ===== src/Sanitize/Overlap.antt =====
-- `_apply_redactions` where one span lies inside another, which separated findings exclude.
use safe_context.Base.{
  ℕ, zero, suc, ◌+◌, ◌-◌, ◌≤◌, ◌<◌, max, ◌≡◌, refl, ap, ◌∙◌, false, [], ◌∷◌, ◌++◌, arith, length,
  take, drop, leb, take-append_le, length-take, drop-drop,
}
use safe_context.Store.{Text, Finding}
use safe_context.Sanitize.{apply_redactions, redacted_marker}

drop-append_ge :
    (n : ℕ) (xs ys : Text) → length xs ≤ n → drop n (xs ++ ys) ≡ drop (n - length xs) ys
drop-append_ge n [] ys h = ap (λ k. drop k ys) (omega arith)
drop-append_ge zero (x ∷ xs) ys h = absurd (omega arith)
drop-append_ge (suc n) (x ∷ xs) ys h =
    drop-append_ge n xs ys (omega arith) ∙ ap (λ k. drop k ys) (omega arith)

take-take : (m n : ℕ) (xs : Text) → m ≤ n → take m (take n xs) ≡ take m xs
take-take zero n xs h = refl
take-take (suc m) zero xs h = absurd (omega arith)
take-take (suc m) (suc n) [] h = refl
take-take (suc m) (suc n) (x ∷ xs) h = ap (λ r. x ∷ r) (take-take m n xs (omega arith))

-- Where a span `g` of fewer than ten characters lies inside a span `f`, begins after it, and ends
-- early enough, the marker of `g` pushes the end of `f` out of reach of the later replacement: the
-- last `10 - (g.span_end - g.span_start)` characters of `f` stay in the text.
pub apply_redactions-nested :
    (text : Text) (f g : Finding)
    → f.span_start < g.span_start
    → g.span_start ≤ g.span_end
    → g.span_end ≤ length text
    → g.span_end - g.span_start < 10
    → g.span_end + 10 ≤ f.span_end + (g.span_end - g.span_start)
    → apply_redactions text (f ∷ g ∷ []) []
      ≡ take f.span_start text
        ++ (redacted_marker ++ drop (f.span_end - (10 - (g.span_end - g.span_start))) text)
unfolding apply_redactions
apply_redactions-nested text f g after order within small room =
    let later : leb g.span_start f.span_start ≡ false = ground arith in
    let p = g.span_start in
    let q = g.span_end in
    let hole : max p q ≡ q = omega arith in
    let whole : max f.span_start f.span_end ≡ f.span_end = omega arith in
    let lp : length (take p text) ≡ p = omega (arith, length-take p text) in
    rw later (
      rw (hole, whole)
        (rw
          (
            take-append_le f.span_start (take p text) (redacted_marker ++ drop q text)
                (omega arith),
            take-take f.span_start p text (omega arith),
            drop-append_ge f.span_end (take p text) (redacted_marker ++ drop q text) (omega arith),
            lp,
            drop-append_ge (f.span_end - p) redacted_marker (drop q text) (omega arith),
            drop-drop (f.span_end - p - 10) q text,
          )
          (ap (λ k. take f.span_start text ++ (redacted_marker ++ drop k text)) (omega arith))))
