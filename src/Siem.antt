-- ===== src/Siem.antt =====
-- The export to a SIEM: apps/api/core/siem.py. The value of a detail that is not a text is the text that
-- `str` and `json.dumps` both give of it.
pub mod Formats
pub mod Sent
pub mod Events
pub mod Escaping
pub mod Emitted
use safe_context.Base.{
  ℕ, zero, suc, ◌+◌, ◌/◌, ◌%◌, String, Bool, true, false, List, [], ◌∷◌, ◌++◌, Option, none, some,
  ltb, ◌==◌, if◌then◌else◌,
}
use text.Mathlib.Text.{◌==◌ as str_eq}
use safe_context.Store.{Text}
use safe_context.Evidence.Seal.{truthy}

-- The severities of events and findings
abbrev pub cef_severity_map : String → Option ℕ
cef_severity_map s =
    if str_eq s "low"
    then some 2
    else if str_eq s "medium"
    then some 5
    else if str_eq s "high"
    then some 7
    else if str_eq s "critical"
    then some 10
    else if str_eq s "info"
    then some 1
    else if str_eq s "warning"
    then some 4
    else none

-- `CEF_SEVERITY_MAP.get(severity, default)`
unfoldable pub severity_or : ℕ → String → ℕ
severity_or default s = elim (cef_severity_map s) [ none ↦ default | some n ↦ n ]

-- `SIEMConfig`; `http_client` is always passed, and the port is the network's.
pub record SiemConfig : Type 0 where
  pub enabled : Bool
  pub format : String
  pub webhook_url : Option Text
  pub webhook_token : Option Text
  pub syslog_host : Option Text
  pub syslog_protocol : String

-- The value of a detail
pub data Detail : Type 0 where
  text_value other_value : Text → Detail

-- `SIEMEvent`
pub record SiemEvent : Type 0 where
  pub event_type : Text
  pub severity : ℕ
  pub trace_id : Text
  pub actor_id : Text
  pub tenant_id : Text
  pub details : List (Text × Detail)
  pub timestamp : Text

-- `str.replace` of one character by two
unfoldable pub replace_char : ℕ → ℕ → ℕ → Text → Text
replace_char c d e [] = []
replace_char c d e (x ∷ s) =
    let rest = replace_char c d e s in if x == c then d ∷ e ∷ rest else x ∷ rest

-- `esc`
unfoldable pub esc : Text → Text
unfolding replace_char
esc val = replace_char 10 92 b'n' (replace_char b'=' 92 b'=' (replace_char 92 92 92 val))

-- The decimal digits of a number that has at most `k` of them.
unfoldable pub digits_of : ℕ → ℕ → Text
digits_of zero n = []
digits_of (suc k) n =
    if ltb n 10 then (b'0' + n) ∷ [] else digits_of k (n / 10) ++ ((b'0' + n % 10) ∷ [])

-- `str` of a number
unfoldable pub decimal : ℕ → Text
unfolding digits_of
decimal n = digits_of (n + 1) n

abbrev pub str_of : Detail → Text
str_of (text_value s) = s
str_of (other_value s) = s

-- `f"{key}={esc(value)}"`
unfoldable pub extension : Text → Text → Text
unfolding esc
extension key val = key ++ (b'=' ∷ esc val)

-- `separator.join`
unfoldable pub join : ℕ → List Text → Text
join separator [] = []
join separator (x ∷ []) = x
join separator (x ∷ y ∷ xs) = x ++ (separator ∷ join separator (y ∷ xs))
