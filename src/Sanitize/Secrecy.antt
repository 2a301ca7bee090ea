-- ===== src/Sanitize/Secrecy.antt =====
-- The masked text, and so the redacted one, says nothing of what the spans cover.
use safe_context.Base.{ℕ, suc, ◌+◌, ◌≡◌, refl, sym, ap, ◌∙◌, inl, inr, List, [], ◌∷◌, length, All}
use safe_context.Store.{Text, Finding}
use safe_context.Sanitize.{apply_redactions, RedactionMap}
use safe_context.Sanitize.Masked.{masked, IsWithin, IsSeparated, AgreeOutside}
use safe_context.Sanitize.Redacts.{apply_redactions-eq-masked}

pub masked-AgreeOutside :
    (marker : Finding → Text) (fs : List Finding) (i : ℕ) (xs ys : Text)
    → AgreeOutside fs i xs ys
    → masked marker fs i xs ≡ masked marker fs i ys
unfolding masked
masked-AgreeOutside marker fs i [] [] h = refl
masked-AgreeOutside marker fs i [] (d ∷ ys) h = absurd h
masked-AgreeOutside marker fs i (c ∷ xs) [] h = absurd h
masked-AgreeOutside marker fs i (c ∷ xs) (d ∷ ys) (here, later) = elim here [
  | inl covered ↦ rw (covered, masked-AgreeOutside marker fs (i + 1) xs ys later) refl
  | inr same ↦ rw (same, masked-AgreeOutside marker fs (i + 1) xs ys later) refl
]

pub AgreeOutside-length :
    (fs : List Finding) (i : ℕ) (xs ys : Text) → AgreeOutside fs i xs ys → length xs ≡ length ys
AgreeOutside-length fs i [] [] h = refl
AgreeOutside-length fs i [] (d ∷ ys) h = absurd h
AgreeOutside-length fs i (c ∷ xs) [] h = absurd h
AgreeOutside-length fs i (c ∷ xs) (d ∷ ys) h = ap suc (AgreeOutside-length fs (i + 1) xs ys h.1)

-- Two documents that differ only in characters which the spans cover are redacted to one text,
-- where the spans lie within the document and no two of them meet.
pub apply_redactions_secrecy :
    (xs ys : Text) (fs : List Finding) (redactions : RedactionMap)
    → All (IsWithin (length xs)) fs
    → IsSeparated fs
    → AgreeOutside fs 0 xs ys
    → apply_redactions xs fs redactions ≡ apply_redactions ys fs redactions
apply_redactions_secrecy xs ys fs redactions within apart agree =
    let e = AgreeOutside-length fs 0 xs ys agree in
    apply_redactions-eq-masked xs fs redactions within apart
    ∙ masked-AgreeOutside _ fs 0 xs ys agree
    ∙ sym (apply_redactions-eq-masked ys fs redactions (rw e at within) apart)
