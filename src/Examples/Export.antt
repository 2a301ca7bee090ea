-- ===== src/Examples/Export.antt =====
-- The theorems on exports, anchors and events, at a table with a sealed row.
use safe_context.Base.{
  ℕ, ◌≡◌, refl, ◌⊎◌, true, false, [], ◌∷◌, none, some, arith, is_some, inl, inr, Bool-cases, ◌==◌,
}
use mathlib.Core.Path.{subst}
use safe_context.Store.{Text, pending}
use safe_context.Evidence.{
  genesis_hash, get_latest_chain_hash, tenant_rows, verify_chain, canonical_json, uuid_text,
  status_text, ChainReport,
}
use safe_context.Evidence.Tamper.{Collision, SameRows}
use safe_context.Evidence.Seal.{
  sign_replied, truthy, after_vault, seal_operation, get_transit_public_key,
}
use safe_context.Audit.{AuditHost, get_audit_export}
use safe_context.Audit.Offline.{Ecdsa}
use safe_context.Audit.Keys.{IsSigner, IsArchive}
use safe_context.Audit.Verifies.{Verifies, seal_operation-Verifies}
use safe_context.Audit.Anchors.{
  AnchorHost, AnchorDb, Caller, latest_anchor, verify_replied, verify_chain_endpoint,
  create_chain_anchor,
}
use safe_context.Audit.Anchors.Signed.{IsTransit, Anchors, create_chain_anchor-Anchors}
use safe_context.Audit.Anchors.Live.{verify_chain_endpoint-SameRows}
use safe_context.Siem.{SiemEvent, text_value, esc, join, SiemConfig}
use safe_context.Siem.Formats.{extensions}
use safe_context.Siem.Sent.{Network, Message, Delivery, failed, emit_siem_event}
use safe_context.Siem.Escaping.{open_equals_from, extensions-open_equals_from, unesc, unesc-esc}
use safe_context.Siem.Emitted.{taken_by, emit_siem_event-taken_by}
use safe_context.Examples.{
  test_host, test_host-IsSha256, test_vault, test_config, test_operation, test_db,
}
use safe_context.Examples.Chain.{test_full}

abbrev test_audit : AuditHost
test_audit = record {
  host = test_host;
  compute_hmac = λ s. b'm' ∷ [];
  tsa = λ s. none;
  transit_sign = λ s. test_vault.sign [];
  vault = test_vault;
  require_digital_signature = true;
  now = 90;
}

abbrev test_ecdsa : Ecdsa
test_ecdsa = record { verify = λ pem hex sig. some true }

-- The public key of every version
abbrev test_public : ℕ → Text
test_public v = b'p' ∷ b'e' ∷ b'm' ∷ []

-- The signature that the test's Vault gives
abbrev token : Text
token = b'v' ∷ b'a' ∷ b'u' ∷ b'l' ∷ b't' ∷ b':' ∷ b'v' ∷ b'2' ∷ b':' ∷ b'x' ∷ []

test_sign-token : (h sig : Text) → test_vault.sign h ≡ sign_replied 200 sig → token ≡ sig
test_sign-token h sig e = cc e

test_listed :
    (v : ℕ) (pem : Text) → get_transit_public_key test_vault v ≡ some pem → pem ≡ test_public v
unfolding get_transit_public_key
test_listed v pem e = elim (Bool-cases (2 == v)) [
  | inl there ↦ pem_of_key (rw (there, get_transit_public_key) at e)
  | inr missing ↦ absurd (cc (rw (missing, get_transit_public_key) at e))
]
  where
    pem_of_key : some (test_public 2) ≡ some pem → pem ≡ test_public v
    pem_of_key k = cc k

test_signer : IsSigner test_vault test_ecdsa test_public
test_signer = record {
  signed = λ h sig e. (subst (λ s. truthy (some s) ≡ true) (test_sign-token h sig e) refl, refl);
  listed = test_listed;
  not_empty = λ v. refl;
}

seal_operation-Verifies_example :
    let done =
      seal_operation test_host test_vault test_config 50
        (test_operation 6 pending 30)
        (test_db (test_operation 6 pending 30 ∷ []) []) in
    IsArchive test_public done.1.signing_keys
    × Verifies test_audit test_ecdsa test_public test_signer
        (get_audit_export test_audit 900 done.1)
unfolding seal_operation test_host
seal_operation-Verifies_example =
    seal_operation-Verifies test_audit test_ecdsa test_public test_signer test_config 50
      (test_operation 6 pending 30) (test_operation 6 pending 30)
      (test_db (test_operation 6 pending 30 ∷ []) []) 2 tt refl refl refl refl

abbrev test_anchoring : AnchorHost
test_anchoring = record {
  host = test_host;
  vault = test_vault;
  transit_verify = λ d s. verify_replied 200 true;
  digits = λ n. b'1' ∷ [];
  tsa = λ t. none;
  now = 60;
}

abbrev test_admin : Caller
test_admin = record { is_reviewer = false; is_admin = true; tenant_id = 3; sub = none }

test_transit : IsTransit test_anchoring
unfolding after_vault
test_transit = record {
  verifies =
      λ d s e. (subst (λ t. is_some (after_vault t) ≡ true) (test_sign-token d s e) refl, refl);
}

unfoldable test_tables : AnchorDb
unfolding test_full
test_tables = record { db = test_db test_full []; anchors = [] }

create_chain_anchor-Anchors_example :
    Anchors test_anchoring test_transit test_admin test_tables
      (create_chain_anchor test_anchoring test_admin test_tables)
unfolding test_tables
create_chain_anchor-Anchors_example =
    create_chain_anchor-Anchors test_anchoring test_transit test_admin test_tables tt

-- The report on the row, with the anchor of its hash.
unfoldable anchored_tables : AnchorDb
unfolding test_tables create_chain_anchor
anchored_tables = (create_chain_anchor test_anchoring test_admin test_tables).0

abbrev test_report : ChainReport
test_report = record { valid = true; checked = 1; first_broken_at = none; gaps = [] }

verify_chain_endpoint-SameRows_example :
    SameRows test_host
      (tenant_rows anchored_tables.db.operations 3)
      (tenant_rows anchored_tables.db.operations 3)
    ⊎ Collision test_host
unfolding anchored_tables verify_chain_endpoint verify_chain test_host genesis_hash canonical_json
    uuid_text status_text latest_anchor get_latest_chain_hash
verify_chain_endpoint-SameRows_example =
    verify_chain_endpoint-SameRows test_anchoring test_host-IsSha256 test_admin anchored_tables
      anchored_tables test_report test_report true true refl refl refl refl refl refl refl refl
      (omega arith)

abbrev test_event : SiemEvent
test_event = record {
  event_type = b'e' ∷ [];
  severity = 5;
  trace_id = b'a' ∷ b'=' ∷ b'b' ∷ [];
  actor_id = 92 ∷ b'=' ∷ [];
  tenant_id = 10 ∷ [];
  details = (b'k' ∷ [], text_value (b'x' ∷ b'=' ∷ [])) ∷ [];
  timestamp = b't' ∷ [];
}

extensions-open_equals_from_example : open_equals_from false (join b' ' (extensions test_event)) ≡ 5
extensions-open_equals_from_example = extensions-open_equals_from test_event refl

unesc-esc_example : unesc (esc (92 ∷ b'=' ∷ 10 ∷ [])) ≡ 92 ∷ b'=' ∷ 10 ∷ []
unesc-esc_example = unesc-esc (92 ∷ b'=' ∷ 10 ∷ [])

abbrev test_siem : SiemConfig
test_siem = record {
  enabled = true;
  format = "cef";
  webhook_url = some (b'u' ∷ []);
  webhook_token = none;
  syslog_host = some (b'h' ∷ []);
  syslog_protocol = "tcp";
}

-- A network that is down.
abbrev test_network : Network
test_network = record { answers = λ m. failed; format_json = λ e. [] }

emit_siem_event-taken_by_example :
    let r = emit_siem_event test_network test_event test_siem in
    ((test_siem.enabled ≡ true) ⊎ (r ≡ ([], (false, false))))
    × (r.1.0 ≡ taken_by test_network true r.0)
    × (r.1.1 ≡ taken_by test_network false r.0)
    × ((answers : Message → Delivery)
        → (emit_siem_event (record test_network { answers = answers }) test_event test_siem).0
          ≡ r.0)
emit_siem_event-taken_by_example = emit_siem_event-taken_by test_network test_event test_siem
