-- ===== src/Siem/Sent.antt =====
-- Delivery: `send_webhook`, `send_syslog` and `emit_siem_event` of apps/api/core/siem.py.
use safe_context.Base.{
  ℕ, String, Bool, true, false, List, [], ◌∷◌, ◌++◌, Option, none, some, ltb, if◌then◌else◌,
}
use text.Mathlib.Text.{◌==◌ as str_eq}
use safe_context.Store.{Text}
use safe_context.Evidence.Seal.{truthy}
use safe_context.Siem.{SiemConfig, SiemEvent}
use safe_context.Siem.Formats.{format_event}

-- What a destination does with a message: it raises, or answers a status.
pub data Delivery : Type 0 where
  failed : Delivery
  delivered : (status : ℕ) → Delivery

-- A message that was sent: to the webhook, with the token of its header, or over a socket.
pub data Message : Type 0 where
  posted : (url : Text) (token : Option Text) (formatted : Text) (format : String) → Message
  streamed datagram : (host : Text) (message : Text) → Message

-- The network, and `format_json_event`.
pub record Network : Type 0 where
  pub answers : Message → Delivery
  pub format_json : SiemEvent → Text

-- `send_webhook`: the request, if one is made, and the result.
unfoldable pub send_webhook : Network → Text → SiemConfig → List Message × Bool
send_webhook net formatted config = elim config.webhook_url [
  | none ↦ ([], false)
  | some url ↦
      let m =
        posted url (if truthy config.webhook_token then config.webhook_token else none) formatted
          config.format in
      if truthy (some url)
      then (m ∷ [], elim (net.answers m) [ failed ↦ false | delivered status ↦ ltb status 400 ])
      else ([], false)
]

-- `f"<{pri}>"`
abbrev pub syslog_priority : Text
syslog_priority = b'<' ∷ b'1' ∷ b'3' ∷ b'4' ∷ b'>' ∷ []

-- `send_syslog`: a message over TCP ends in a newline.
unfoldable pub send_syslog : Network → Text → SiemConfig → List Message × Bool
send_syslog net formatted config = elim config.syslog_host [
  | none ↦ ([], false)
  | some host ↦
      let m =
        if str_eq config.syslog_protocol "tcp"
        then streamed host (syslog_priority ++ (formatted ++ (10 ∷ [])))
        else datagram host (syslog_priority ++ formatted) in
      if truthy (some host)
      then (m ∷ [], elim (net.answers m) [ failed ↦ false | delivered status ↦ true ])
      else ([], false)
]

-- `emit_siem_event`: the messages, and the dict with the keys `webhook` and `syslog`.
unfoldable pub emit_siem_event : Network → SiemEvent → SiemConfig → List Message × (Bool × Bool)
unfolding format_event send_webhook send_syslog
emit_siem_event net event config =
    let formatted = format_event net.format_json event config.format in
    let webhook = send_webhook net formatted config in
    let syslog = send_syslog net formatted config in
    if config.enabled then (webhook.0 ++ syslog.0, (webhook.1, syslog.1)) else ([], (false, false))
