-- ===== src/Siem/Escaping.antt =====
-- What a SIEM reads back of the values in a CEF message.
use safe_context.Base.{
  ℕ, suc, ◌+◌, ◌≡◌, refl, sym, ap, ◌∙◌, inl, inr, Bool, true, false, not, ◌&&◌, List, [], ◌∷◌, ◌++◌,
  arith, length, ◌==◌, ==_iff, if◌then◌else◌, Bool-cases,
}
use mathlib.Core.Path.{subst}
use mathlib.Core.List.{append_assoc, append-nil}
use safe_context.Store.{Text}
use safe_context.Siem.{Detail, SiemEvent, replace_char, esc, extension, join, str_of}
use safe_context.Siem.Formats.{
  extensions, detail_extensions, cef_trace_id, cef_actor_id, cef_tenant_id, cef_rt, cs_prefix,
}

-- The reading of an escaped value: behind a backslash, `n` is a newline and any other character itself.
unesc_from : Bool → Text → Text
unesc_from b [] = []
unesc_from true (c ∷ s) = (if c == b'n' then 10 else c) ∷ unesc_from false s
unesc_from false (c ∷ s) =
    let behind = unesc_from true s in
    let rest = unesc_from false s in if c == 92 then behind else c ∷ rest

-- The equals signs of a text that no backslash stands before, which part keys from values.
pub open_equals_from : Bool → Text → ℕ
open_equals_from b [] = 0
open_equals_from true (c ∷ s) = open_equals_from false s
open_equals_from false (c ∷ s) =
    let behind = open_equals_from true s in
    let rest = open_equals_from false s in
    if c == 92 then behind else if c == b'=' then rest + 1 else rest

-- A character as `esc` writes it.
abbrev escaped : ℕ → Text
escaped c =
    if c == 92
    then 92 ∷ 92 ∷ []
    else if c == b'='
    then 92 ∷ b'=' ∷ []
    else if c == 10
    then 92 ∷ b'n' ∷ []
    else c ∷ []

-- A character is a backslash, an equals sign, a newline, or none of these.
by_char :
    (P : ℕ → Type 0) (c : ℕ)
    → P 92
    → P b'='
    → P 10
    → ((c == 92) ≡ false → (c == b'=') ≡ false → (c == 10) ≡ false → P c)
    → P c
by_char P c a b d h = elim (Bool-cases (c == 92)) [
  | inl e ↦ subst P (sym ((==_iff c 92).0 e)) a
  | inr e ↦ elim (Bool-cases (c == b'=')) [
    | inl g ↦ subst P (sym ((==_iff c b'=').0 g)) b
    | inr g ↦ elim (Bool-cases (c == 10)) [
      | inl k ↦ subst P (sym ((==_iff c 10).0 k)) d
      | inr k ↦ h e g k
    ]
  ]
]

esc-cons : (c : ℕ) (s : Text) → esc (c ∷ s) ≡ escaped c ++ esc s
unfolding esc replace_char
esc-cons c s =
    by_char (λ d. esc (d ∷ s) ≡ escaped d ++ esc s) c refl refl refl
      (λ e g k. rw (e) (rw (g) (rw (k) refl)))

unesc_from-escaped : (c : ℕ) (s : Text) → unesc_from false (escaped c ++ s) ≡ c ∷ unesc_from false s
unfolding unesc_from
unesc_from-escaped c s =
    by_char (λ d. unesc_from false (escaped d ++ s) ≡ d ∷ unesc_from false s) c refl refl refl
      (λ e g k. rw (e) (rw (g) (rw (k) (rw (e, unesc_from) refl))))

open_equals_from-escaped :
    (c : ℕ) (s : Text) → open_equals_from false (escaped c ++ s) ≡ open_equals_from false s
unfolding open_equals_from
open_equals_from-escaped c s =
    by_char (λ d. open_equals_from false (escaped d ++ s) ≡ open_equals_from false s) c refl refl
      refl (λ e g k. rw (e) (rw (g) (rw (k) (rw (e, open_equals_from) (rw (g) refl)))))

-- The value that a reader takes from the text of `esc`.
pub unesc : Text → Text
unesc s = unesc_from false s

-- A SIEM that reads `n` behind a backslash as a newline, and any other character behind one as itself, reads
-- every escaped value back as it was.
pub unesc-esc : (val : Text) → unesc (esc val) ≡ val
unfolding unesc unesc_from esc replace_char
unesc-esc [] = refl
unesc-esc (c ∷ val) =
    ap (unesc_from false) (esc-cons c val)
    ∙ unesc_from-escaped c (esc val)
    ∙ ap (λ t. c ∷ t) (unesc-esc val)

open_equals_from-esc :
    (val rest : Text) → open_equals_from false (esc val ++ rest) ≡ open_equals_from false rest
unfolding esc replace_char
open_equals_from-esc [] rest = refl
open_equals_from-esc (c ∷ val) rest =
    ap (λ t. open_equals_from false (t ++ rest)) (esc-cons c val)
    ∙ ap (open_equals_from false) (append_assoc (escaped c) (esc val) rest)
    ∙ open_equals_from-escaped c (esc val ++ rest)
    ∙ open_equals_from-esc val rest

-- A key with neither a backslash nor an equals sign.
abbrev pub is_name : Text → Bool
is_name [] = true
is_name (c ∷ s) = not (c == 92) && (not (c == b'=') && is_name s)

open_equals_from-name :
    (key rest : Text)
    → is_name key ≡ true
    → open_equals_from false (key ++ rest) ≡ open_equals_from false rest
unfolding open_equals_from
open_equals_from-name [] rest h = refl
open_equals_from-name (c ∷ key) rest h = elim (Bool-cases (c == 92)) [
  | inl e ↦ absurd (cc (rw (e) at h))
  | inr e ↦
      let rest_named : (not (c == b'=') && is_name key) ≡ true = rw (e) at h in
      elim (Bool-cases (c == b'=')) [
        | inl g ↦ absurd (cc (rw (g) at rest_named))
        | inr g ↦
            rw (e, open_equals_from)
              (rw (g) (open_equals_from-name key rest (rw (g) at rest_named)))
      ]
]

open_equals_from-extension :
    (key val rest : Text)
    → is_name key ≡ true
    → open_equals_from false (extension key val ++ rest) ≡ open_equals_from false rest + 1
unfolding extension open_equals_from
open_equals_from-extension key val rest h =
    ap (open_equals_from false) (append_assoc key (b'=' ∷ esc val) rest)
    ∙ open_equals_from-name key (b'=' ∷ (esc val ++ rest)) h
    ∙ ap (λ n. n + 1) (open_equals_from-esc val rest)

abbrev pub names : List (Text × Detail) → Bool
names [] = true
names ((key, val) ∷ details) = is_name key && names details

-- One more extension, whose key has no special character, is one more open equals sign.
counted-cons :
    (key val : Text) (xs : List Text)
    → is_name key ≡ true
    → ((rest : Text)
        → open_equals_from false (join b' ' xs ++ rest) ≡ open_equals_from false rest + length xs)
    → (rest : Text)
    → open_equals_from false (join b' ' (extension key val ∷ xs) ++ rest)
      ≡ open_equals_from false rest + length (extension key val ∷ xs)
unfolding join open_equals_from
counted-cons key val [] h k rest = open_equals_from-extension key val rest h ∙ omega arith
counted-cons key val (x ∷ xs) h k rest =
    ap (open_equals_from false) (append_assoc (extension key val) (b' ' ∷ join b' ' (x ∷ xs)) rest)
    ∙ open_equals_from-extension key val (b' ' ∷ (join b' ' (x ∷ xs) ++ rest)) h
    ∙ ap (λ n. n + 1) (k rest)
    ∙ omega arith

is_name-append : (xs ys : Text) → is_name xs ≡ true → is_name ys ≡ true → is_name (xs ++ ys) ≡ true
is_name-append [] ys h k = k
is_name-append (c ∷ xs) ys h k = ground (arith, is_name-append xs ys, h, k)

detail_extensions-counted :
    (details : List (Text × Detail))
    → names details ≡ true
    → (rest : Text)
    → open_equals_from false (join b' ' (detail_extensions details) ++ rest)
      ≡ open_equals_from false rest + length (detail_extensions details)
unfolding detail_extensions join
detail_extensions-counted [] h rest = omega arith
detail_extensions-counted ((key, val) ∷ details) h rest =
    let key_named : is_name key ≡ true = ground (arith, h) in
    let rest_named : names details ≡ true = ground (arith, h) in
    counted-cons (cs_prefix ++ key) (str_of val) (detail_extensions details)
      (is_name-append cs_prefix key refl key_named) (detail_extensions-counted details rest_named)
      rest

detail_extensions-length :
    (details : List (Text × Detail)) → length (detail_extensions details) ≡ length details
unfolding detail_extensions
detail_extensions-length [] = refl
detail_extensions-length ((key, val) ∷ details) = ap suc (detail_extensions-length details)

-- Where no key of the details has a backslash or an equals sign, the extension part of a CEF message has as
-- many equals signs that no backslash stands before as it has extensions, the four fixed ones and one for
-- each detail: no value, whatever it holds, adds a key of its own for a reader that splits there.
pub extensions-open_equals_from :
    (event : SiemEvent)
    → names event.details ≡ true
    → open_equals_from false (join b' ' (extensions event)) ≡ 4 + length event.details
unfolding extensions open_equals_from
extensions-open_equals_from event h =
    let tail = detail_extensions-counted event.details h in
    let four = counted-cons cef_trace_id event.trace_id _ refl (
      counted-cons cef_actor_id event.actor_id _ refl (
        counted-cons cef_tenant_id event.tenant_id _ refl
          (counted-cons cef_rt event.timestamp _ refl tail))) in
    ap (open_equals_from false) (sym (append-nil (join b' ' (extensions event))))
    ∙ four []
    ∙ omega (arith, detail_extensions-length event.details)
