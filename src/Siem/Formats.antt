-- ===== src/Siem/Formats.antt =====
-- The formats of an event: `format_cef`, `format_leef` and `format_event` of apps/api/core/siem.py.
use safe_context.Base.{String, List, [], ◌∷◌, ◌++◌, if◌then◌else◌}
use text.Mathlib.Text.{◌==◌ as str_eq}
use safe_context.Store.{Text}
use safe_context.Siem.{Detail, SiemEvent, decimal, str_of, extension, join}

-- "trace_id"
abbrev pub cef_trace_id : Text
cef_trace_id = b't' ∷ b'r' ∷ b'a' ∷ b'c' ∷ b'e' ∷ b'_' ∷ b'i' ∷ b'd' ∷ []

-- "actor_id"
abbrev pub cef_actor_id : Text
cef_actor_id = b'a' ∷ b'c' ∷ b't' ∷ b'o' ∷ b'r' ∷ b'_' ∷ b'i' ∷ b'd' ∷ []

-- "tenant_id"
abbrev pub cef_tenant_id : Text
cef_tenant_id = b't' ∷ b'e' ∷ b'n' ∷ b'a' ∷ b'n' ∷ b't' ∷ b'_' ∷ b'i' ∷ b'd' ∷ []

-- "rt"
abbrev pub cef_rt : Text
cef_rt = b'r' ∷ b't' ∷ []

-- "cs_"
abbrev pub cs_prefix : Text
cs_prefix = b'c' ∷ b's' ∷ b'_' ∷ []

-- "CEF:0|SafeContext|SafeContext|1.1.0|"
abbrev pub cef_header : Text
cef_header =
    b'C' ∷ b'E' ∷ b'F' ∷ b':' ∷ b'0' ∷ b'|' ∷ b'S' ∷ b'a' ∷ b'f' ∷ b'e' ∷ b'C' ∷ b'o' ∷ b'n' ∷ b't'
    ∷ b'e' ∷ b'x' ∷ b't' ∷ b'|' ∷ b'S' ∷ b'a' ∷ b'f' ∷ b'e' ∷ b'C' ∷ b'o' ∷ b'n' ∷ b't' ∷ b'e'
    ∷ b'x' ∷ b't' ∷ b'|' ∷ b'1' ∷ b'.' ∷ b'1' ∷ b'.' ∷ b'0' ∷ b'|' ∷ []

-- "LEEF:2.0|SafeContext|SafeContext|1.1.0|"
abbrev pub leef_header : Text
leef_header =
    b'L' ∷ b'E' ∷ b'E' ∷ b'F' ∷ b':' ∷ b'2' ∷ b'.' ∷ b'0' ∷ b'|' ∷ b'S' ∷ b'a' ∷ b'f' ∷ b'e' ∷ b'C'
    ∷ b'o' ∷ b'n' ∷ b't' ∷ b'e' ∷ b'x' ∷ b't' ∷ b'|' ∷ b'S' ∷ b'a' ∷ b'f' ∷ b'e' ∷ b'C' ∷ b'o'
    ∷ b'n' ∷ b't' ∷ b'e' ∷ b'x' ∷ b't' ∷ b'|' ∷ b'1' ∷ b'.' ∷ b'1' ∷ b'.' ∷ b'0' ∷ b'|' ∷ []

-- "devTime="
abbrev pub leef_dev_time : Text
leef_dev_time = b'd' ∷ b'e' ∷ b'v' ∷ b'T' ∷ b'i' ∷ b'm' ∷ b'e' ∷ b'=' ∷ []

-- "cat="
abbrev pub leef_cat : Text
leef_cat = b'c' ∷ b'a' ∷ b't' ∷ b'=' ∷ []

-- "sev="
abbrev pub leef_sev : Text
leef_sev = b's' ∷ b'e' ∷ b'v' ∷ b'=' ∷ []

-- "usrName="
abbrev pub leef_usr_name : Text
leef_usr_name = b'u' ∷ b's' ∷ b'r' ∷ b'N' ∷ b'a' ∷ b'm' ∷ b'e' ∷ b'=' ∷ []

-- "src="
abbrev pub leef_src : Text
leef_src = b's' ∷ b'r' ∷ b'c' ∷ b'=' ∷ []

-- "reason="
abbrev pub leef_reason : Text
leef_reason = b'r' ∷ b'e' ∷ b'a' ∷ b's' ∷ b'o' ∷ b'n' ∷ b'=' ∷ []

unfoldable pub detail_extensions : List (Text × Detail) → List Text
unfolding extension
detail_extensions [] = []
detail_extensions ((key, val) ∷ details) =
    extension (cs_prefix ++ key) (str_of val) ∷ detail_extensions details

-- The list `extensions` of `format_cef`
unfoldable pub extensions : SiemEvent → List Text
unfolding extension detail_extensions
extensions event =
    extension cef_trace_id event.trace_id
    ∷ extension cef_actor_id event.actor_id
    ∷ extension cef_tenant_id event.tenant_id
    ∷ extension cef_rt event.timestamp
    ∷ detail_extensions event.details

-- `format_cef`
unfoldable pub format_cef : SiemEvent → Text
unfolding extensions join decimal
format_cef event =
    cef_header
    ++ (event.event_type
        ++ (b'|' ∷ event.event_type
            ++ (b'|' ∷ decimal event.severity ++ (b'|' ∷ join b' ' (extensions event)))))

unfoldable pub detail_pairs : List (Text × Detail) → List Text
detail_pairs [] = []
detail_pairs ((key, val) ∷ details) = (key ++ (b'=' ∷ str_of val)) ∷ detail_pairs details

-- `format_leef`
unfoldable pub format_leef : SiemEvent → Text
unfolding detail_pairs join decimal
format_leef event =
    let pairs =
      (leef_dev_time ++ event.timestamp)
      ∷ (leef_cat ++ event.event_type)
      ∷ (leef_sev ++ decimal event.severity)
      ∷ (leef_usr_name ++ event.actor_id)
      ∷ (leef_src ++ event.tenant_id)
      ∷ (leef_reason ++ event.trace_id)
      ∷ detail_pairs event.details in
    leef_header ++ (event.event_type ++ (b'|' ∷ join 9 pairs))

-- `format_event`; the JSON form comes from `json.dumps`.
unfoldable pub format_event : (SiemEvent → Text) → SiemEvent → String → Text
unfolding format_cef format_leef
format_event format_json event fmt =
    if str_eq fmt "leef"
    then format_leef event
    else if str_eq fmt "json"
    then format_json event
    else format_cef event
