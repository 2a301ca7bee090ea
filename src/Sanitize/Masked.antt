-- ===== src/Sanitize/Masked.antt =====
-- What redaction ought to give, said position by position and with no order of processing: a
-- character that no span covers stays, a covered one is dropped, and the marker of a span stands
-- where the span begins.
use safe_context.Base.{
  ℕ, ◌+◌, ◌≤◌, ◌<◌, ◌≡◌, ◌⊎◌, Bool, true, false, ◌&&◌, List, [], ◌∷◌, ◌++◌, Option, none, some,
  first, any, AllPairs, ltb, leb, ◌==◌,
}
use safe_context.Store.{Text, Finding}

abbrev pub starts_at : ℕ → Finding → Bool
starts_at i f = f.span_start == i

abbrev pub covers : ℕ → Finding → Bool
covers i f = leb f.span_start i && ltb i f.span_end

-- The marker of the span that begins at `i`, if one does.
abbrev pub marker_of : (Finding → Text) → Option Finding → Text
marker_of marker none = []
marker_of marker (some f) = marker f

abbrev pub unless : Bool → ℕ → Text
unless true c = []
unless false c = c ∷ []

-- The masked form of `text`, whose first character stands at position `i` of the document.
unfoldable pub masked : (Finding → Text) → List Finding → ℕ → Text → Text
masked marker fs i [] = []
masked marker fs i (c ∷ text) =
    (marker_of marker (first (starts_at i) fs) ++ unless (any (covers i) fs) c)
    ++ masked marker fs (i + 1) text

-- A span with at least one character, inside a text of that length.
abbrev pub IsWithin : ℕ → Finding → Type 0
IsWithin n f = (f.span_start < f.span_end) × (f.span_end ≤ n)

-- One span ends before the other begins.
abbrev pub Apart : Finding → Finding → Type 0
Apart f g = (f.span_end ≤ g.span_start) ⊎ (g.span_end ≤ f.span_start)

abbrev pub IsSeparated : List Finding → Type 0
IsSeparated = AllPairs Apart

-- Two texts of one length that differ only in covered characters.
abbrev pub AgreeOutside : List Finding → ℕ → Text → Text → Type 0
AgreeOutside fs i [] [] = Unit
AgreeOutside fs i [] (d ∷ ys) = ⊥
AgreeOutside fs i (c ∷ xs) [] = ⊥
AgreeOutside fs i (c ∷ xs) (d ∷ ys) =
    ((any (covers i) fs ≡ true) ⊎ (c ≡ d)) × AgreeOutside fs (i + 1) xs ys
