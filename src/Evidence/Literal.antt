-- ===== src/Evidence/Literal.antt =====
-- A string literal can be read back from any text that begins with it.
use safe_context.Base.{
  ℕ, ◌+◌, ◌-◌, ◌/◌, ◌%◌, ◌<◌, ◌≡◌, ◌≢◌, refl, sym, ap, ◌∙◌, Bool, true, false, [], ◌∷◌, ◌++◌, arith,
  ltb, ◌==◌, if◌then◌else◌, All,
}
use mathlib.Core.List.{append_assoc}
use safe_context.Store.{Text}
use safe_context.Evidence.Json.{hex_digit, unicode_escape, is_plain, escape_char, escape}

-- Put a piece in front of what was read.
abbrev push : Text → Text × Text → Text × Text
push piece (body, rest) = (piece ++ body, rest)

-- The characters of a literal up to its closing quote, and what follows the quote. A backslash
-- takes the next character with it.
scan : Text → Text × Text
scan [] = ([], [])
scan (c ∷ []) = if c == 34 then ([], []) else (c ∷ [], [])
scan (c ∷ d ∷ t) =
    let plain = push (c ∷ []) (scan (d ∷ t)) in
    let pair = push (c ∷ d ∷ []) (scan t) in
    if c == 34 then ([], d ∷ t) else if c == 92 then pair else plain

scan-plain : (c : ℕ) (t : Text) → c ≢ 34 → c ≢ 92 → scan (c ∷ t) ≡ push (c ∷ []) (scan t)
unfolding scan
scan-plain c [] h k = ground arith
scan-plain c (d ∷ t) h k = ground arith

scan-pair : (d : ℕ) (t : Text) → scan (92 ∷ d ∷ t) ≡ push (92 ∷ d ∷ []) (scan t)
unfolding scan
scan-pair d t = refl

scan-quote : (t : Text) → scan (34 ∷ t) ≡ ([], t)
unfolding scan
scan-quote [] = refl
scan-quote (d ∷ t) = refl

hex_digit-ne : (d : ℕ) → d < 16 → (hex_digit d ≢ 34) × (hex_digit d ≢ 92)
unfolding hex_digit
hex_digit-ne d h = (ground arith, ground arith)

scan-hex : (d : ℕ) (t : Text) → d < 16 → scan (hex_digit d ∷ t) ≡ push (hex_digit d ∷ []) (scan t)
scan-hex d t h = scan-plain (hex_digit d) t (hex_digit-ne d h).0 (hex_digit-ne d h).1

scan-unicode_escape :
    (n : ℕ) (t : Text) → scan (unicode_escape n ++ t) ≡ push (unicode_escape n) (scan t)
unfolding unicode_escape
scan-unicode_escape n t =
    let a = hex_digit (n / 4096 % 16) in
    let b = hex_digit (n / 256 % 16) in
    let c = hex_digit (n / 16 % 16) in
    let d = hex_digit (n % 16) in
    scan-pair 117 (a ∷ b ∷ c ∷ d ∷ t)
    ∙ ap (push (92 ∷ 117 ∷ [])) (
        scan-hex (n / 4096 % 16) (b ∷ c ∷ d ∷ t) (omega arith)
        ∙ ap (push (a ∷ [])) (
            scan-hex (n / 256 % 16) (c ∷ d ∷ t) (omega arith)
            ∙ ap (push (b ∷ [])) (
                scan-hex (n / 16 % 16) (d ∷ t) (omega arith)
                ∙ ap (push (c ∷ [])) (scan-hex (n % 16) t (omega arith)))))

-- Two escapes in a row, as a code point above the basic plane has.
scan-surrogates :
    (m n : ℕ) (t : Text)
    → scan ((unicode_escape m ++ unicode_escape n) ++ t)
      ≡ push (unicode_escape m ++ unicode_escape n) (scan t)
scan-surrogates m n t =
    ap scan (append_assoc (unicode_escape m) (unicode_escape n) t)
    ∙ scan-unicode_escape m (unicode_escape n ++ t)
    ∙ ap (push (unicode_escape m)) (scan-unicode_escape n t)
    ∙ ap (λ r. (r, (scan t).1))
        (sym (append_assoc (unicode_escape m) (unicode_escape n) (scan t).0))

-- What an escape has to satisfy, to be shown of each branch.
abbrev IsScanned : Text → Text → Type 0
IsScanned t piece = scan (piece ++ t) ≡ push piece (scan t)

if-IsScanned :
    (t : Text) (b : Bool) (x y : Text)
    → (b ≡ true → IsScanned t x)
    → IsScanned t y
    → IsScanned t (if b then x else y)
if-IsScanned t true x y h k = h refl
if-IsScanned t false x y h k = k

scan-escape_char : (c : ℕ) (t : Text) → scan (escape_char c ++ t) ≡ push (escape_char c) (scan t)
unfolding escape_char
scan-escape_char c t =
    if-IsScanned t (is_plain c) _ _
      (λ e. scan-plain c t (λ q. absurd (ground arith)) (λ q. absurd (ground arith)))
      (if-IsScanned t (c == 34) _ _ (λ _. scan-pair 34 t)
        (if-IsScanned t (c == 92) _ _ (λ _. scan-pair 92 t)
          (if-IsScanned t (c == 10) _ _ (λ _. scan-pair b'n' t)
            (if-IsScanned t (c == 13) _ _ (λ _. scan-pair b'r' t)
              (if-IsScanned t (c == 9) _ _ (λ _. scan-pair b't' t)
                (if-IsScanned t (c == 12) _ _ (λ _. scan-pair b'f' t)
                  (if-IsScanned t (c == 8) _ _ (λ _. scan-pair b'b' t)
                    (if-IsScanned t (ltb c 65536) _ _ (λ _. scan-unicode_escape c t)
                      (scan-surrogates (55296 + (c - 65536) / 1024) (56320 + (c - 65536) % 1024)
                        t)))))))))

scan-escape : (s t : Text) → scan (escape s ++ (34 ∷ t)) ≡ (escape s, t)
unfolding escape
scan-escape [] t = scan-quote t
scan-escape (c ∷ s) t =
    ap scan (append_assoc (escape_char c) (escape s) (34 ∷ t))
    ∙ scan-escape_char c (escape s ++ (34 ∷ t))
    ∙ ap (push (escape_char c)) (scan-escape s t)

-- Where two literals begin equal texts, the literals are equal and so is what follows them.
pub escape-injective :
    (s t x y : Text) → escape s ++ (34 ∷ x) ≡ escape t ++ (34 ∷ y) → (escape s ≡ escape t) × (x ≡ y)
escape-injective s t x y h =
    let e : (escape s, x) ≡ (escape t, y) = sym (scan-escape s x) ∙ ap scan h ∙ scan-escape t y in
    (ap (λ p. p.0) e, ap (λ p. p.1) e)

-- A text of plain characters is its own literal.
pub escape-plain : (s : Text) → All (λ c. is_plain c ≡ true) s → escape s ≡ s
unfolding escape
escape-plain [] h = refl
escape-plain (c ∷ s) h = rw (h.0, escape-plain s h.1) refl
