-- ===== src/Examples/Redaction.antt =====
-- The theorems on redaction and on the merge of findings, at small documents.
use safe_context.Base.{List, ◌≡◌, refl, ◌++◌, ◌≤◌, inl, inr, [], ◌∷◌, take, drop, AllPairs, arith}
use mathlib.Core.List.{Perm}
use safe_context.Store.{Text, low, critical, remove}
use safe_context.Sanitize.{redacted_marker, redaction_marker, redaction_for, apply_redactions}
use safe_context.Sanitize.Masked.{masked}
use safe_context.Sanitize.Redacts.{apply_redactions-eq-masked}
use safe_context.Sanitize.Secrecy.{apply_redactions_secrecy}
use safe_context.Sanitize.Overlap.{apply_redactions-nested}
use safe_context.Detect.{merge_findings}
use safe_context.Detect.Merged.{Clear, Rest, merge_findings_content, merge_findings-separated}
use safe_context.Store.{Detection}
use safe_context.Examples.{test_detection, test_finding, test_document, test_findings}

-- "key=wxyz, pin=9876."
abbrev other_document : Text
other_document =
    b'k' ∷ b'e' ∷ b'y' ∷ b'=' ∷ b'w' ∷ b'x' ∷ b'y' ∷ b'z' ∷ b',' ∷ b' ' ∷ b'p' ∷ b'i' ∷ b'n' ∷ b'='
    ∷ b'9' ∷ b'8' ∷ b'7' ∷ b'6' ∷ b'.' ∷ []

apply_redactions-eq-masked_example :
    apply_redactions test_document test_findings ((2, remove) ∷ [])
    ≡ masked
        (λ f. redaction_marker (redaction_for ((2, remove) ∷ []) f.id))
        test_findings
        0
        test_document
apply_redactions-eq-masked_example =
    apply_redactions-eq-masked test_document test_findings ((2, remove) ∷ [])
      ((omega arith, omega arith), ((omega arith, omega arith), tt))
      ((inr (omega arith), tt), (tt, tt))

apply_redactions_secrecy_example :
    apply_redactions test_document test_findings []
    ≡ apply_redactions other_document test_findings []
apply_redactions_secrecy_example =
    apply_redactions_secrecy test_document other_document test_findings []
      ((omega arith, omega arith), ((omega arith, omega arith), tt))
      ((inr (omega arith), tt), (tt, tt))
      (
        inr refl,
        (
          inr refl,
          (
            inr refl,
            (
              inr refl,
              (
                inl refl,
                (
                  inl refl,
                  (
                    inl refl,
                    (
                      inl refl,
                      (
                        inr refl,
                        (
                          inr refl,
                          (
                            inr refl,
                            (
                              inr refl,
                              (
                                inr refl,
                                (
                                  inr refl,
                                  (inl refl, (inl refl, (inl refl, (inl refl, (inr refl, tt))))),
                                ),
                              ),
                            ),
                          ),
                        ),
                      ),
                    ),
                  ),
                ),
              ),
            ),
          ),
        ),
      )

apply_redactions-nested_example :
    apply_redactions test_document
      (test_finding 1 5 critical 0 18 ∷ test_finding 2 5 low 4 8 ∷ [])
      []
    ≡ take 0 test_document ++ (redacted_marker ++ drop 12 test_document)
apply_redactions-nested_example =
    apply_redactions-nested test_document (test_finding 1 5 critical 0 18)
      (test_finding 2 5 low 4 8) (omega arith) (omega arith) (omega arith) (omega arith)
      (omega arith)

merge_findings_content_example :
    let regex = test_detection "secret" critical 4 8 ∷ [] in
    let presidio = test_detection "name" low 6 9 ∷ test_detection "pin" low 0 2 ∷ [] in
    AllPairs (λ f g. f.span_start ≤ g.span_start) (merge_findings regex presidio)
    × ((ks : List Detection) × Rest regex presidio ks
        × Perm (merge_findings regex presidio) (regex ++ ks))
merge_findings_content_example =
    merge_findings_content (test_detection "secret" critical 4 8 ∷ [])
      (test_detection "name" low 6 9 ∷ test_detection "pin" low 0 2 ∷ [])

merge_findings-separated_example : AllPairs Clear (
    merge_findings
      (test_detection "secret" critical 4 8 ∷ [])
      (test_detection "name" low 6 9 ∷ test_detection "pin" low 0 2 ∷ []))
merge_findings-separated_example =
    merge_findings-separated (test_detection "secret" critical 4 8 ∷ [])
      (test_detection "name" low 6 9 ∷ test_detection "pin" low 0 2 ∷ []) (omega arith, tt)
      (omega arith, (omega arith, tt)) (tt, tt) ((inr (omega arith), tt), (tt, tt))
