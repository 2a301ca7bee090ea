-- ===== src/Audit.antt =====
-- The audit export: apps/api/api/v1/audit.py, with `sign_data`, `get_public_key` and `verify_signature` of
-- apps/api/core/vault_transit.py. The name of a key's algorithm is left out. Where several operations have
-- one trace id, the one stored first is exported.
pub mod Anchors
pub mod Offline
pub mod Keys
pub mod Verifies
use safe_context.Base.{
  ℕ, String, Bool, true, false, not, ◌&&◌, ◌||◌, List, [], ◌∷◌, ◌++◌, Option, none, some, is_some,
  first, filter, max, ◌==◌, if◌then◌else◌,
}
use safe_context.Store.{Text, ActorType, Operation, Finding, Redaction, Artifact, SigningKey, Db}
use safe_context.Evidence.{Host, uuid_text, status_text, text_eq}
use safe_context.Evidence.Seal.{
  SignReply, sign_raised, sign_replied, KeysReply, keys_raised, keys_replied, Vault, after_vault,
  vault_parts, truthy,
}

-- `operation_dict`: the values that the export has of the operation.
pub record ExportedOperation : Type 0 where
  pub id : Text
  pub trace_id : Text
  pub actor_id : Text
  pub actor_type : ActorType
  pub document_id : Text
  pub artifact_digest : Text
  pub policy_version : String
  pub status : Text
  pub created_at : Option Text
  pub completed_at : Option Text

-- `signable`
pub record Signable : Type 0 where
  pub trace_id : Text
  pub exported_at : Text
  pub operation : ExportedOperation
  pub findings : List Finding
  pub redactions : List Redaction
  pub artifacts : List Artifact

-- What stands behind the export: the hash and the clock's texts, the HMAC of the JSON text of a payload,
-- the time stamp of that text (`none` where there is none or it is not enabled), Vault's answers for
-- any bytes and for the keys, and the setting `audit_require_digital_signature`.
pub record AuditHost : Type 0 where
  pub host : Host
  pub compute_hmac : Signable → Text
  pub tsa : Signable → Option Text
  pub transit_sign : Signable → SignReply
  pub vault : Vault
  pub require_digital_signature : Bool
  pub now : ℕ

-- The base64 part of a signature that names a key version, or all of it.
unfoldable pub base64_part : Text → Text
unfolding vault_parts
base64_part sig = elim (vault_parts sig) [ none ↦ sig | some (version, payload) ↦ payload ]

-- `sign_data`
unfoldable pub sign_data : SignReply → Option Text
unfolding base64_part
sign_data sign_raised = none
sign_data (sign_replied status sig) = if status == 200 then some (base64_part sig) else none

-- The greatest of the versions
latest_version : List (ℕ × Option Text) → ℕ
latest_version [] = 0
latest_version ((v, pem) ∷ keys) = max v (latest_version keys)

pem_of : ℕ → List (ℕ × Option Text) → Text
pem_of version [] = []
pem_of version ((v, none) ∷ keys) = if v == version then [] else pem_of version keys
pem_of version ((v, some pem) ∷ keys) = if v == version then pem else pem_of version keys

-- `get_public_key`: the PEM of the latest version, empty where Vault has none.
unfoldable pub get_public_key : KeysReply → Option Text
unfolding latest_version pem_of
get_public_key keys_raised = none
get_public_key (keys_replied status keys) =
    if status == 200 then some (pem_of (latest_version keys) keys) else none

-- The archived PEM of a version, where it is not empty.
unfoldable pub archived_pem : Option ℕ → List SigningKey → Option Text
archived_pem none rows = none
archived_pem (some version) rows = elim (first (λ r. r.key_version == version) rows) [
  | none ↦ none
  | some r ↦ (if truthy (some r.public_key_pem) then some r.public_key_pem else none)
]

-- `_resolve_public_key`
unfoldable pub resolve_public_key : Vault → Option ℕ → List SigningKey → Option Text
unfolding archived_pem get_public_key
resolve_public_key vault key_version rows = elim (archived_pem key_version rows) [
  | some pem ↦ some pem
  | none ↦ get_public_key vault.keys
]

unfoldable pub operation_dict : Host → Operation → ExportedOperation
operation_dict host op = record {
  id = uuid_text op.id;
  trace_id = uuid_text op.trace_id;
  actor_id = uuid_text op.actor_id;
  actor_type = op.actor_type;
  document_id = uuid_text op.document_id;
  artifact_digest = op.artifact_digest;
  policy_version = op.policy_version;
  status = status_text op.status;
  created_at = some (host.isoformat op.created_at);
  completed_at = elim op.completed_at [ none ↦ none | some t ↦ some (host.isoformat t) ];
}

unfoldable pub signable_of : AuditHost → Operation → Db → Signable
unfolding operation_dict
signable_of h op db = record {
  trace_id = uuid_text op.trace_id;
  exported_at = h.host.isoformat h.now;
  operation = operation_dict h.host op;
  findings = filter (λ f. f.operation_id == op.id) db.findings;
  redactions = filter (λ r. r.operation_id == op.id) db.redactions;
  artifacts = filter (λ a. a.operation_id == op.id) db.artifacts;
}

-- `AuditExportResponse`, but for the lists, which are those of `signed`.
pub record Export : Type 0 where
  pub signed : Signable
  pub hmac_signature : Text
  pub sanitized_document : Option Text
  pub tsa_token : Option Text
  pub chain_hash : Option Text
  pub digital_signature : Option Text
  pub signature_at_write_time : Bool
  pub event_signed_at : Option ℕ
  pub signing_key_version : Option ℕ
  pub verification_public_key_pem : Option Text

pub data ExportResult : Type 0 where
  not_found withheld : ExportResult
  exported : Export → ExportResult

-- The signature made when the operation was sealed, or else one of the exported view.
unfoldable pub digital_signature_of : AuditHost → Operation → Signable → Option Text
unfolding sign_data
digital_signature_of h op signable = elim op.event_signature [
  | some s ↦ some s
  | none ↦ sign_data (h.transit_sign signable)
]

-- The public key that is embedded: none without a signature.
unfoldable pub embedded_key : AuditHost → Option Text → Operation → Db → Option Text
unfolding resolve_public_key
embedded_key h none op db = none
embedded_key h (some s) op db = resolve_public_key h.vault op.signing_key_version db.signing_keys

unfoldable pub export_of : AuditHost → Operation → Db → ExportResult
unfolding signable_of digital_signature_of embedded_key
export_of h op db =
    let signable = signable_of h op db in
    let digital_sig = digital_signature_of h op signable in
    if h.require_digital_signature && not (is_some digital_sig)
    then withheld
    else exported (record {
      signed = signable;
      hmac_signature = h.compute_hmac signable;
      sanitized_document = op.sanitized_text;
      tsa_token = h.tsa signable;
      chain_hash = op.chain_hash;
      digital_signature = digital_sig;
      signature_at_write_time = is_some op.event_signature;
      event_signed_at = op.event_signed_at;
      signing_key_version = op.signing_key_version;
      verification_public_key_pem = embedded_key h digital_sig op db;
    })

-- `get_audit_export`
unfoldable pub get_audit_export : AuditHost → ℕ → Db → ExportResult
unfolding export_of
get_audit_export h trace_id db = elim (first (λ o. o.trace_id == trace_id) db.operations) [
  | none ↦ not_found
  | some op ↦ export_of h op db
]

-- The claims that the endpoint reads: `sub` as a text, and the roles.
pub record Caller : Type 0 where
  pub sub : Text
  pub is_reviewer : Bool
  pub is_admin : Bool

-- The export, in one of the two formats, or the status of the `HTTPException`.
pub data AuditReply : Type 0 where
  audit_error : ℕ → AuditReply
  audit_json audit_sarif : Export → AuditReply

allowed : Caller → Bool → Export → AuditReply
allowed actor sarif e =
    if text_eq e.signed.operation.actor_id actor.sub || (actor.is_reviewer || actor.is_admin)
    then (if sarif then audit_sarif e else audit_json e)
    else audit_error 403

-- `audit_export_endpoint`
unfoldable pub audit_export_endpoint : AuditHost → Caller → Bool → ℕ → Db → AuditReply
unfolding get_audit_export allowed text_eq
audit_export_endpoint h actor sarif trace_id db = elim (get_audit_export h trace_id db) [
  | not_found ↦ audit_error 404
  | withheld ↦ audit_error 503
  | exported e ↦ allowed actor sarif e
]
