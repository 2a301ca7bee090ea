-- ===== src/Evidence/Json.antt =====
-- `json.dumps` for texts, with its default `ensure_ascii=True`.
use safe_context.Base.{
  ℕ, ◌+◌, ◌-◌, ◌/◌, ◌%◌, Bool, ◌&&◌, ◌||◌, [], ◌∷◌, ◌++◌, ltb, leb, ◌==◌, if◌then◌else◌,
}
use safe_context.Store.{Text}

-- A lower-case hexadecimal digit.
unfoldable pub hex_digit : ℕ → ℕ
hex_digit d = if ltb d 10 then b'0' + d else b'a' + (d - 10)

-- `\uXXXX`
unfoldable pub unicode_escape : ℕ → Text
unfolding hex_digit
unicode_escape n =
    b'\\'
    ∷ b'u'
    ∷ hex_digit (n / 4096 % 16)
    ∷ hex_digit (n / 256 % 16)
    ∷ hex_digit (n / 16 % 16)
    ∷ hex_digit (n % 16)
    ∷ []

-- A character that stands for itself: printable ASCII, but no quote and no backslash.
abbrev pub is_plain : ℕ → Bool
is_plain c = (leb 32 c && ltb c 127) && (ltb c 34 || (ltb 34 c && (ltb c 92 || ltb 92 c)))

unfoldable pub escape_char : ℕ → Text
unfolding unicode_escape
escape_char c =
    if is_plain c
    then c ∷ []
    else if c == 34
    then b'\\' ∷ 34 ∷ []
    else if c == 92
    then b'\\' ∷ 92 ∷ []
    else if c == 10
    then b'\\' ∷ b'n' ∷ []
    else if c == 13
    then b'\\' ∷ b'r' ∷ []
    else if c == 9
    then b'\\' ∷ b't' ∷ []
    else if c == 12
    then b'\\' ∷ b'f' ∷ []
    else if c == 8
    then b'\\' ∷ b'b' ∷ []
    else if ltb c 65536
    then unicode_escape c
    else unicode_escape (55296 + (c - 65536) / 1024) ++ unicode_escape (56320 + (c - 65536) % 1024)

unfoldable pub escape : Text → Text
unfolding escape_char
escape [] = []
escape (c ∷ s) = escape_char c ++ escape s

-- A string literal, and what follows it.
unfoldable pub json_string : Text → Text → Text
unfolding escape
json_string s rest = 34 ∷ escape s ++ (34 ∷ rest)

-- `"key": "value"`, and what follows it.
unfoldable pub member : Text → Text → Text → Text
unfolding json_string
member key value rest = json_string key (b':' ∷ b' ' ∷ json_string value rest)
