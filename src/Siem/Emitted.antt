-- ===== src/Siem/Emitted.antt =====
-- Delivery to the two destinations.
use text.Mathlib.Text.{◌==◌ as str_eq}
use safe_context.Base.{
  ◌≡◌, ◌⊎◌, refl, sym, ap, ◌∙◌, inl, inr, Bool, true, false, not, ◌&&◌, ◌||◌, any, any-append, List,
  [], ◌∷◌, ◌++◌, Option, none, some, ltb, Bool-cases,
}
use safe_context.Store.{Text}
use safe_context.Siem.{SiemConfig, SiemEvent}
use safe_context.Siem.Formats.{format_event}
use safe_context.Siem.Sent.{
  Delivery, failed, delivered, Message, posted, Network, send_webhook, send_syslog, emit_siem_event,
}

-- The answers of the destinations of a list of messages, each counted as a success or not.
abbrev pub succeeds : Network → Message → Bool
succeeds net (posted url token formatted format) =
    elim (net.answers (posted url token formatted format)) [
      | failed ↦ false
      | delivered status ↦ ltb status 400
    ]
succeeds net m = elim (net.answers m) [ failed ↦ false | delivered status ↦ true ]

abbrev pub to_webhook : Message → Bool
to_webhook (posted url token formatted format) = true
to_webhook m = false

abbrev same_side : Bool → Bool → Bool
same_side true b = b
same_side false true = false
same_side false false = true

-- Whether some message for the destination, the webhook or the other one, is sent and taken.
abbrev pub taken_by : Network → Bool → List Message → Bool
taken_by net webhook ms = any (λ m. same_side webhook (to_webhook m) && succeeds net m) ms

-- What the functions that send tell of the messages that they send.
abbrev Tells : Network → Bool → List Message × Bool → Type 0
Tells net webhook r = (taken_by net webhook r.0 ≡ r.1) × (taken_by net (not webhook) r.0 ≡ false)

or_false : (b : Bool) → (b || false) ≡ b
or_false true = refl
or_false false = refl

send_webhook-Tells :
    (net : Network) (formatted : Text) (config : SiemConfig)
    → Tells net true (send_webhook net formatted config)
unfolding send_webhook
send_webhook-Tells net formatted config = by_url config.webhook_url
  where
    by_url :
        (u : Option Text)
        → Tells net true (send_webhook net formatted (record config { webhook_url = u }))
    by_url none = (refl, refl)
    by_url (some []) = (refl, refl)
    by_url (some (c ∷ url)) = (or_false _, refl)

send_syslog-Tells :
    (net : Network) (formatted : Text) (config : SiemConfig)
    → Tells net false (send_syslog net formatted config)
unfolding send_syslog
send_syslog-Tells net formatted config =
    by_host config.syslog_host (str_eq config.syslog_protocol "tcp") refl
  where
    by_host :
        (u : Option Text) (tcp : Bool)
        → str_eq config.syslog_protocol "tcp" ≡ tcp
        → Tells net false (send_syslog net formatted (record config { syslog_host = u }))
    by_host none tcp e = (refl, refl)
    by_host (some []) tcp e = (refl, refl)
    by_host (some (c ∷ host)) true e = rw (e) (or_false _, refl)
    by_host (some (c ∷ host)) false e = rw (e) (or_false _, refl)

send_webhook-sent :
    (net : Network) (answers : Message → Delivery) (formatted : Text) (config : SiemConfig)
    → (send_webhook (record net { answers = answers }) formatted config).0
      ≡ (send_webhook net formatted config).0
unfolding send_webhook
send_webhook-sent net answers formatted config = by_url config.webhook_url
  where
    by_url :
        (u : Option Text)
        → (send_webhook
            (record net { answers = answers })
            formatted
            (record config { webhook_url = u })).0
          ≡ (send_webhook net formatted (record config { webhook_url = u })).0
    by_url none = refl
    by_url (some []) = refl
    by_url (some (c ∷ url)) = refl

send_syslog-sent :
    (net : Network) (answers : Message → Delivery) (formatted : Text) (config : SiemConfig)
    → (send_syslog (record net { answers = answers }) formatted config).0
      ≡ (send_syslog net formatted config).0
unfolding send_syslog
send_syslog-sent net answers formatted config = by_host config.syslog_host
  where
    by_host :
        (u : Option Text)
        → (send_syslog
            (record net { answers = answers })
            formatted
            (record config { syslog_host = u })).0
          ≡ (send_syslog net formatted (record config { syslog_host = u })).0
    by_host none = refl
    by_host (some []) = refl
    by_host (some (c ∷ host)) = refl

taken_by-append :
    (net : Network) (webhook : Bool) (ms ns : List Message)
    → taken_by net webhook (ms ++ ns) ≡ (taken_by net webhook ms || taken_by net webhook ns)
taken_by-append net webhook ms ns =
    any-append (λ m. same_side webhook (to_webhook m) && succeeds net m) ms ns

-- For a configuration that is not enabled nothing is sent and both entries of the result are false. Each
-- entry of the result tells whether a message to that destination was sent and taken, a webhook's below
-- the status 400. What is sent is the same whatever the destinations answer: a webhook that fails does not keep the
-- message from the syslog.
pub emit_siem_event-taken_by :
    (net : Network) (event : SiemEvent) (config : SiemConfig)
    → let r = emit_siem_event net event config in
      ((config.enabled ≡ true) ⊎ (r ≡ ([], (false, false))))
      × (r.1.0 ≡ taken_by net true r.0)
      × (r.1.1 ≡ taken_by net false r.0)
      × ((answers : Message → Delivery)
          → (emit_siem_event (record net { answers = answers }) event config).0 ≡ r.0)
unfolding emit_siem_event
emit_siem_event-taken_by net event config = elim (Bool-cases config.enabled) [
  | inr off ↦ rw (off) (inr refl, refl, refl, λ answers. refl)
  | inl on ↦
      let c = record config { enabled = true } in
      let formatted = format_event net.format_json event c.format in
      let webhook = send_webhook-Tells net formatted c in
      let syslog = send_syslog-Tells net formatted c in
      let ms = (send_webhook net formatted c).0 in
      let ns = (send_syslog net formatted c).0 in
      rw (on) (
        inl refl,
        sym (
            taken_by-append net true ms ns
            ∙ ap (λ b. b || taken_by net true ns) webhook.0
            ∙ ap (λ b. (send_webhook net formatted c).1 || b) syslog.1
            ∙ or_false _),
        sym (
            taken_by-append net false ms ns
            ∙ ap (λ b. b || taken_by net false ns) webhook.1
            ∙ syslog.0),
        λ answers.
            ap (λ l. l ++ (send_syslog (record net { answers = answers }) formatted c).0)
              (send_webhook-sent net answers formatted c)
            ∙ ap (λ l. ms ++ l) (send_syslog-sent net answers formatted c),
      )
]
