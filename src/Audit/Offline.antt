-- ===== src/Audit/Offline.antt =====
-- The verifier for use without the system: apps/tools/verify_offline.py. A document is what `json.loads`
-- gives of a file; the operation in it has the keys that the hash needs.
use safe_context.Base.{ℕ, Bool, [], ◌∷◌, Option, none, some, if◌then◌else◌}
use safe_context.Store.{Text}
use safe_context.Evidence.{Host, canonical_json}
use safe_context.Audit.{ExportedOperation, Export, base64_part}

-- `operation["created_at"] or ""`
unfoldable pub or_empty : Option Text → Text
or_empty none = []
or_empty (some t) = t

-- `compute_operation_hash` of the verifier
unfoldable pub offline_operation_hash : Host → ExportedOperation → Text
unfolding or_empty
offline_operation_hash host operation = host.sha256 (
    canonical_json (record {
      actor_id = operation.actor_id;
      artifact_digest = operation.artifact_digest;
      created_at = or_empty operation.created_at;
      id = operation.id;
      status = operation.status;
      trace_id = operation.trace_id;
    }))

-- The package `cryptography`: whether a base64 signature of the bytes that a hexadecimal text writes
-- verifies under a PEM key; `none` where the key, the text or the signature cannot be read.
pub record Ecdsa : Type 0 where
  pub verify : (pem message_hex signature : Text) → Option Bool

-- `verify_ecdsa`, with `_strip_vault_prefix`
unfoldable pub verify_ecdsa : Ecdsa → Text → Text → Text → Option Bool
unfolding base64_part
verify_ecdsa ecdsa pem message_hex signature = ecdsa.verify pem message_hex (base64_part signature)

-- The keys of a document that the verifier reads. For the two keys whose presence it tests, a key that is
-- there may still be null.
pub record Document : Type 0 where
  pub operation : Option ExportedOperation
  pub digital_signature : Option Text
  pub verification_public_key_pem : Option Text
  pub chain_head_hash : Option (Option Text)
  pub signature : Option (Option Text)
  pub signing_public_key_pem : Option Text

-- What is reported: what is missing, or the check's answer, or an exception.
pub data Verdict : Type 0 where
  no_operation no_signature no_key incomplete_anchor raised : Verdict
  checked : Bool → Verdict

abbrev pub verdict_of : Option Bool → Verdict
verdict_of none = raised
verdict_of (some ok) = checked ok

unfoldable pub verify_operation :
    Host → Ecdsa → ExportedOperation → Option Text → Option Text → Verdict
unfolding verify_ecdsa offline_operation_hash
verify_operation host ecdsa op none pem = no_signature
verify_operation host ecdsa op (some []) pem = no_signature
verify_operation host ecdsa op (some (c ∷ sig)) none = no_key
verify_operation host ecdsa op (some (c ∷ sig)) (some []) = no_key
verify_operation host ecdsa op (some (c ∷ sig)) (some (d ∷ pem)) =
    verdict_of (verify_ecdsa ecdsa (d ∷ pem) (offline_operation_hash host op) (c ∷ sig))

-- `verify_export`
unfoldable pub verify_export : Host → Ecdsa → Document → Verdict
unfolding verify_operation verify_ecdsa offline_operation_hash
verify_export host ecdsa doc = elim doc.operation [
  | none ↦ no_operation
  | some op ↦ verify_operation host ecdsa op doc.digital_signature doc.verification_public_key_pem
]

abbrev null_or : Option (Option Text) → Option Text
null_or none = none
null_or (some v) = v

unfoldable pub verify_head : Ecdsa → Option Text → Option Text → Option Text → Verdict
unfolding verify_ecdsa
verify_head ecdsa (some (c ∷ head)) (some (d ∷ sig)) (some (e ∷ pem)) =
    verdict_of (verify_ecdsa ecdsa (e ∷ pem) (c ∷ head) (d ∷ sig))
verify_head ecdsa (some (c ∷ head)) (some (d ∷ sig)) (some []) = no_key
verify_head ecdsa (some (c ∷ head)) (some (d ∷ sig)) none = no_key
verify_head ecdsa (some (c ∷ head)) (some []) pem = incomplete_anchor
verify_head ecdsa (some (c ∷ head)) none pem = incomplete_anchor
verify_head ecdsa (some []) sig pem = incomplete_anchor
verify_head ecdsa none sig pem = incomplete_anchor

-- `verify_anchor`
unfoldable pub verify_anchor : Ecdsa → Document → Verdict
unfolding verify_head verify_ecdsa
verify_anchor ecdsa doc =
    verify_head ecdsa (null_or doc.chain_head_hash) (null_or doc.signature)
      doc.signing_public_key_pem

-- `verify_document`
unfoldable pub verify_document : Host → Ecdsa → Document → Verdict
unfolding verify_export verify_anchor
verify_document host ecdsa doc = by_keys doc.chain_head_hash doc.signature
  where
    by_keys : Option (Option Text) → Option (Option Text) → Verdict
    by_keys (some head) (some sig) = verify_anchor ecdsa doc
    by_keys (some head) none = verify_export host ecdsa doc
    by_keys none sig = verify_export host ecdsa doc

-- The exit status of `main` on one argument, for the outcome of `json.loads`.
unfoldable pub exit_status : Host → Ecdsa → Option Document → ℕ
unfolding verify_document
exit_status host ecdsa none = 2
exit_status host ecdsa (some doc) = elim (verify_document host ecdsa doc) [
  | checked ok ↦ (if ok then 0 else 1)
  | _ ↦ 1
]

-- An export, written to a file as JSON and read back.
unfoldable pub export_document : Export → Document
export_document e = record {
  operation = some e.signed.operation;
  digital_signature = e.digital_signature;
  verification_public_key_pem = e.verification_public_key_pem;
  chain_head_hash = none;
  signature = none;
  signing_public_key_pem = none;
}
