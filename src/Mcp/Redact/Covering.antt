-- ===== src/Mcp/Redact/Covering.antt =====
-- What the merged spans cover, and what is left of the document.
use mathlib.Core.List.{append-nil}
use safe_context.Base.{
  ℕ, ◌+◌, ◌≤◌, ◌<◌, max, ◌≡◌, refl, sym, ap, ◌∙◌, inl, inr, Bool, false, ◌&&◌, ◌||◌, List, [], ◌∷◌,
  ◌++◌, none, arith, length, map, any, All, AllPairs, All-mono, take, drop, ltb, leb, ◌==◌,
  Bool-cases, sorted_with-All, sorted_with-IsSorted, any-sorted_with,
}
use safe_context.Store.{Text, Finding, low}
use safe_context.Sanitize.{redact_loop, splice}
use safe_context.Sanitize.Masked.{covers, masked, IsWithin, AgreeOutside}
use safe_context.Sanitize.Redacts.{Before, redact_loop-masked}
use safe_context.Sanitize.Secrecy.{masked-AgreeOutside, AgreeOutside-length}
use safe_context.Mcp.Redact.{
  Span, sorted_findings, extend, merge_loop, merged_spans, replace_spans, sanitized_text,
}

-- A span as a finding, for the position-by-position specification of redaction.
abbrev pub as_finding : Span → Finding
as_finding s = record {
  id = 0;
  operation_id = 0;
  detected = record {
    detector = "";
    rule_id = "";
    span_start = s.start;
    span_end = s.end;
    confidence = 0;
    severity = low;
    explanation = record {
      entity_type = none;
      pattern = none;
      matched_preview = none;
      is_post_sanitization = false;
    };
  };
}

abbrev covers_span : ℕ → Span → Bool
covers_span i s = leb s.start i && ltb i s.end

-- Spans from the last to the first, apart from each other.
abbrev IsChain : ℕ → List Span → Type 0
IsChain n merged =
    All (λ s. (s.start < s.end) × (s.end ≤ n)) merged
    × AllPairs (λ x y. (y.start < y.end) × (y.end ≤ x.start)) merged

-- The last span begins at `k` or before.
abbrev Begins : List Span → ℕ → Type 0
Begins [] k = Unit
Begins (s ∷ merged) k = s.start ≤ k

module _ (n : ℕ) (f : Finding) (within : IsWithin n f) where
  extend-IsChain :
      (merged : List Span)
      → IsChain n merged
      → Begins merged f.span_start
      → IsChain n (extend f merged)
  unfolding extend
  extend-IsChain [] h b = ((within, tt), (tt, tt))
  extend-IsChain (s ∷ merged) (h, k) b = elim (Bool-cases (ltb f.span_start s.end)) [
    | inl e ↦ rw (e) (((ground arith, ground arith), h.1), (k.0, k.1))
    | inr e ↦ rw (e) (
      (within, h),
      (
        (
          (h.0.0, ground arith),
          All-mono (λ y. (y.start < y.end) × (y.end ≤ s.start))
              (λ y. (y.start < y.end) × (y.end ≤ f.span_start))
              (λ y l. (l.0, omega (arith, l.1, b))) merged k.0,
        ),
        k,
      ),
    )
  ]

  extend-covers :
      (i : ℕ) (merged : List Span)
      → Begins merged f.span_start
      → any (covers_span i) (extend f merged) ≡ (covers i f || any (covers_span i) merged)
  unfolding extend
  extend-covers i [] b = refl
  extend-covers i (s ∷ merged) b = elim (Bool-cases (ltb f.span_start s.end)) [
    | inl e ↦ rw (e) (ground arith)
    | inr e ↦ rw (e) refl
  ]

  extend-Begins :
      (merged : List Span) → Begins merged f.span_start → Begins (extend f merged) f.span_start
  unfolding extend
  extend-Begins [] b = omega arith
  extend-Begins (s ∷ merged) b = elim (Bool-cases (ltb f.span_start s.end)) [
    | inl e ↦ rw (e) b
    | inr e ↦ rw (e) (omega arith)
  ]

-- Findings in the order of their beginnings
abbrev Rising : Finding → Finding → Type 0
Rising f g = f.span_start ≤ g.span_start

Begins-mono : (merged : List Span) (j k : ℕ) → Begins merged j → j ≤ k → Begins merged k
Begins-mono [] j k b h = tt
Begins-mono (s ∷ merged) j k b h = omega (arith, b, h)

head-Begins :
    (fs : List Finding) (f : Finding) (merged : List Span)
    → All (Rising f) fs
    → Begins merged f.span_start
    → All (λ g. Begins merged g.span_start) fs
head-Begins [] f merged r b = tt
head-Begins (g ∷ fs) f merged r b =
    (Begins-mono merged f.span_start g.span_start b r.0, head-Begins fs f merged r.1 b)

module _ (n : ℕ) where
  merge_loop-IsChain :
      (fs : List Finding) (merged : List Span)
      → All (IsWithin n) fs
      → AllPairs Rising fs
      → All (λ g. Begins merged g.span_start) fs
      → IsChain n merged
      → IsChain n (merge_loop fs merged)
  unfolding merge_loop
  merge_loop-IsChain [] merged w r b h = h
  merge_loop-IsChain (f ∷ fs) merged w r b h =
      merge_loop-IsChain fs (extend f merged) w.1 r.1
        (head-Begins fs f (extend f merged) r.0 (extend-Begins n f w.0 merged b.0))
        (extend-IsChain n f w.0 merged h b.0)

  merge_loop-covers :
      (i : ℕ) (fs : List Finding) (merged : List Span)
      → All (IsWithin n) fs
      → AllPairs Rising fs
      → All (λ g. Begins merged g.span_start) fs
      → any (covers_span i) (merge_loop fs merged)
        ≡ (any (covers i) fs || any (covers_span i) merged)
  unfolding merge_loop
  merge_loop-covers i [] merged w r b = refl
  merge_loop-covers i (f ∷ fs) merged w r b =
      merge_loop-covers i fs (extend f merged) w.1 r.1
        (head-Begins fs f (extend f merged) r.0 (extend-Begins n f w.0 merged b.0))
      ∙ ap (λ c. any (covers i) fs || c) (extend-covers n f w.0 i merged b.0)
      ∙ ground arith

sorted_findings-Rising : (fs : List Finding) → AllPairs Rising (sorted_findings fs)
unfolding sorted_findings
sorted_findings-Rising =
    sorted_with-IsSorted _ Rising (λ x y e. ground arith) (λ x y e. ground arith)
      (λ x y z h k. omega (arith, h, k))

no_Begins : (fs : List Finding) → All (λ g. Begins [] g.span_start) fs
no_Begins [] = tt
no_Begins (f ∷ fs) = (tt, no_Begins fs)

any-map :
    (i : ℕ) (spans : List Span) → any (covers i) (map as_finding spans) ≡ any (covers_span i) spans
any-map i [] = refl
any-map i (s ∷ spans) = ap (λ b. covers_span i s || b) (any-map i spans)

module _ (n : ℕ) (fs : List Finding) (within : All (IsWithin n) fs) where
  merged_spans-IsChain : IsChain n (merged_spans fs)
  unfolding merged_spans sorted_findings
  merged_spans-IsChain =
      merge_loop-IsChain n (sorted_findings fs) [] (sorted_with-All _ (IsWithin n) fs within)
        (sorted_findings-Rising fs) (no_Begins (sorted_findings fs)) (tt, tt)

  -- Merging changes nothing of what is covered.
  merged_spans-covers :
      (i : ℕ) → any (covers i) (map as_finding (merged_spans fs)) ≡ any (covers i) fs
  unfolding merged_spans sorted_findings
  merged_spans-covers i =
      any-map i (merged_spans fs)
      ∙ merge_loop-covers n i (sorted_findings fs) [] (sorted_with-All _ (IsWithin n) fs within)
          (sorted_findings-Rising fs) (no_Begins (sorted_findings fs))
      ∙ ground (
        arith,
        any-sorted_with
            (λ (x y : Finding).
              ltb x.span_start y.span_start
              || (x.span_start == y.span_start && leb x.span_end y.span_end))
            (covers i) fs,
      )

replace_spans-redact_loop :
    (r : Text) (n : ℕ) (spans : List Span) (text : Text)
    → All (λ s. (s.start < s.end) × (s.end ≤ n)) spans
    → replace_spans r spans text ≡ redact_loop (λ _. r) (map as_finding spans) text
unfolding replace_spans redact_loop splice
replace_spans-redact_loop r n [] text h = refl
replace_spans-redact_loop r n (s ∷ spans) text h =
    let e : max s.start s.end ≡ s.end = omega (arith, h.0.0) in
    replace_spans-redact_loop r n spans (take s.start text ++ (r ++ drop s.end text)) h.1
    ∙ ap
        (λ k. redact_loop (λ _. r) (map as_finding spans) (take s.start text ++ (r ++ drop k text)))
        (sym e)

All-as_finding :
    (P : Finding → Type 0) (spans : List Span)
    → All (λ s. P (as_finding s)) spans
    → All P (map as_finding spans)
All-as_finding P [] h = tt
All-as_finding P (s ∷ spans) h = (h.0, All-as_finding P spans h.1)

AllPairs-as_finding :
    (spans : List Span)
    → AllPairs (λ x y. (y.start < y.end) × (y.end ≤ x.start)) spans
    → AllPairs Before (map as_finding spans)
AllPairs-as_finding [] h = tt
AllPairs-as_finding (s ∷ spans) h =
    (All-as_finding (Before (as_finding s)) spans h.0, AllPairs-as_finding spans h.1)

AgreeOutside-covers :
    (fs gs : List Finding)
    → ((i : ℕ) → any (covers i) gs ≡ any (covers i) fs)
    → (i : ℕ) (xs ys : Text) → AgreeOutside fs i xs ys
    → AgreeOutside gs i xs ys
AgreeOutside-covers fs gs same i [] [] h = tt
AgreeOutside-covers fs gs same i [] (d ∷ ys) h = h
AgreeOutside-covers fs gs same i (c ∷ xs) [] h = h
AgreeOutside-covers fs gs same i (c ∷ xs) (d ∷ ys) (here, later) = (
  elim here [ inl covered ↦ inl (same i ∙ covered) | inr equal ↦ inr equal ],
  AgreeOutside-covers fs gs same (i + 1) xs ys later,
)

-- The tool's replacement from the last merged span to the first gives the document masked position by
-- position, with the replacement where a merged span begins: for all findings with non-empty spans inside
-- the document, also spans that overlap or contain each other.
pub sanitized_text-eq-masked :
    (replacement : Text) (fs : List Finding) (document : Text)
    → All (IsWithin (length document)) fs
    → sanitized_text replacement fs document
      ≡ masked (λ _. replacement) (map as_finding (merged_spans fs)) 0 document
unfolding sanitized_text
sanitized_text-eq-masked replacement fs document within =
    let spans = merged_spans fs in
    let chain = merged_spans-IsChain (length document) fs within in
    let marker = λ (f : Finding). replacement in
    replace_spans-redact_loop replacement (length document) spans document chain.0
    ∙ ap (redact_loop marker (map as_finding spans)) (sym (append-nil document))
    ∙ redact_loop-masked marker (map as_finding spans) document []
        (All-as_finding (λ f. (f.span_start < f.span_end) × (f.span_end ≤ length document)) spans
          chain.0)
        (AllPairs-as_finding spans chain.1)
    ∙ append-nil _

-- Two documents that differ only in characters which some finding covers get one sanitized text, for all
-- findings with non-empty spans inside the document, also spans that overlap or contain each other.
pub sanitized_text_secrecy :
    (replacement : Text) (fs : List Finding) (xs ys : Text)
    → All (IsWithin (length xs)) fs
    → AgreeOutside fs 0 xs ys
    → sanitized_text replacement fs xs ≡ sanitized_text replacement fs ys
sanitized_text_secrecy replacement fs xs ys within agree =
    let e = AgreeOutside-length fs 0 xs ys agree in
    let gs = map as_finding (merged_spans fs) in
    sanitized_text-eq-masked replacement fs xs within
    ∙ masked-AgreeOutside (λ _. replacement) gs 0 xs ys
        (AgreeOutside-covers fs gs (merged_spans-covers (length xs) fs within) 0 xs ys agree)
    ∙ sym (sanitized_text-eq-masked replacement fs ys (rw e at within))
