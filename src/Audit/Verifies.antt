-- ===== src/Audit/Verifies.antt =====
-- The export of a sealed operation verifies without the system.
use safe_context.Base.{
  ℕ, ◌≡◌, refl, sym, ap, ◌∙◌, Bool, true, false, not, ◌&&◌, [], ◌∷◌, Option, none, some, any, first,
  update_where, is_some, ◌==◌, ==_refl, ==_iff, if◌then◌else◌,
}
use mathlib.Core.Path.{subst}
use safe_context.Store.{Text, Operation, Db}
use safe_context.Evidence.{compute_operation_hash, compute_chain_hash, get_latest_chain_hash}
use safe_context.Evidence.Seal.{
  sign_replied, VaultConfig, truthy, signature_version, try_sign, archived, sealed_row,
  put_operation, seal_operation, signed_version,
}
use safe_context.Audit.{
  AuditHost, Export, ExportResult, withheld, exported, base64_part, resolve_public_key,
  operation_dict, signable_of, digital_signature_of, embedded_key, export_of, get_audit_export,
}
use safe_context.Audit.Offline.{
  Ecdsa, checked, verdict_of, verify_ecdsa, verify_operation, verify_export, verify_document,
  export_document, offline_operation_hash,
}
use safe_context.Audit.Keys.{
  IsSigner, IsArchive, try_sign-signed, archive_public_key_if_needed-IsArchive, archived_pem-public,
  first-update_where,
}

module _ (h : AuditHost) (ecdsa : Ecdsa) (public : ℕ → Text)
    (signer : IsSigner h.vault ecdsa public) where
  -- The export of a row that carries a signature on the hash of its content, by an archived key.
  abbrev pub Verifies : ExportResult → Type 0
  Verifies r =
      (e : Export) × (r ≡ exported e)
      × (e.signature_at_write_time ≡ true)
      × (verify_document h.host ecdsa (export_document e) ≡ checked true)

  verify_operation-checked :
      (op : Operation) (sig pem : Text)
      → truthy (some sig) ≡ true
      → truthy (some pem) ≡ true
      → ecdsa.verify pem (compute_operation_hash h.host op) (base64_part sig) ≡ some true
      → verify_operation h.host ecdsa (operation_dict h.host op) (some sig) (some pem)
        ≡ checked true
  unfolding verify_operation verify_ecdsa offline_operation_hash operation_dict
      compute_operation_hash
  verify_operation-checked op [] pem a b v = cc
  verify_operation-checked op (c ∷ sig) [] a b v = cc
  verify_operation-checked op (c ∷ sig) (d ∷ pem) a b v = ap verdict_of v

  export_of-Verifies :
      (op : Operation) (db : Db) (sig : Text) (v : ℕ)
      → h.vault.sign (compute_operation_hash h.host op) ≡ sign_replied 200 sig
      → signature_version h.vault sig ≡ v
      → op.event_signature ≡ some sig
      → op.signing_key_version ≡ some v
      → IsArchive public db.signing_keys
      → any (λ r. r.key_version == v) db.signing_keys ≡ true
      → Verifies (export_of h op db)
  unfolding export_of embedded_key resolve_public_key digital_signature_of signable_of
      verify_document verify_export export_document
  export_of-Verifies op db sig v replied version signature key archive there =
      let pem = archived_pem-public public v db.signing_keys signer.not_empty archive there in
      let law = signer.signed (compute_operation_hash h.host op) sig replied in
      let ok = verify_operation-checked op sig (public v) law.0 (signer.not_empty v) (
        subst
          (λ n.
            ecdsa.verify (public n) (compute_operation_hash h.host op) (base64_part sig)
            ≡ some true)
          version law.1) in
      let signable = signable_of h op db in
      let d = digital_signature_of h op signable in
      let digital : d ≡ some sig = rw (signature, digital_signature_of) refl in
      let known : embedded_key h (some sig) op db ≡ some (public v) =
        ap (λ k. resolve_public_key h.vault k db.signing_keys) key
        ∙ rw (pem, resolve_public_key) refl in
      let e : Export = record {
        signed = signable;
        hmac_signature = h.compute_hmac signable;
        sanitized_document = op.sanitized_text;
        tsa_token = h.tsa signable;
        chain_hash = op.chain_hash;
        digital_signature = d;
        signature_at_write_time = is_some op.event_signature;
        event_signed_at = op.event_signed_at;
        signing_key_version = op.signing_key_version;
        verification_public_key_pem = embedded_key h d op db;
      } in
      (
        e,
        ap (λ k. if h.require_digital_signature && not (is_some k) then withheld else exported e)
              digital
            ∙ ap (λ b. if b then withheld else exported e) (and_false h.require_digital_signature),
        ap is_some signature,
        ap
              (λ k.
                verify_operation h.host ecdsa (operation_dict h.host op) k (embedded_key h k op db))
              digital
            ∙ ap (verify_operation h.host ecdsa (operation_dict h.host op) (some sig)) known
            ∙ ok,
      )
    where
      and_false : (b : Bool) → (b && false) ≡ false
      and_false true = refl
      and_false false = refl

  get_audit_export-first :
      (trace_id : ℕ) (db : Db) (op : Operation)
      → first (λ o. o.trace_id == trace_id) db.operations ≡ some op
      → get_audit_export h trace_id db ≡ export_of h op db
  unfolding get_audit_export
  get_audit_export-first trace_id db op e = rw (e, get_audit_export) refl

  -- The database behind sealing with that signature.
  abbrev sealed_db : Operation → Text → Option (Text × ℕ) → ℕ → Db → Db
  sealed_db op chain o now db =
      let stored = put_operation (sealed_row op chain o now) (put_operation op db) in
      record stored { signing_keys = archived h.vault o stored.signing_keys }

  sealed-Verifies :
      (op r : Operation) (db : Db) (v now : ℕ) (chain : Text) (config : VaultConfig)
      (o : Option (Text × ℕ))
      → try_sign h.vault config (compute_operation_hash h.host op) ≡ o
      → IsArchive public db.signing_keys
      → first (λ a. a.trace_id == op.trace_id) db.operations ≡ some r
      → r.id ≡ op.id
      → signed_version o ≡ some v
      → any (λ k. k.key_version == v) (sealed_db op chain o now db).signing_keys ≡ true
      → IsArchive public (sealed_db op chain o now db).signing_keys
        × Verifies (get_audit_export h op.trace_id (sealed_db op chain o now db))
  unfolding put_operation sealed_row archived compute_operation_hash
  sealed-Verifies op r db v now chain config none e archive found same version there = cc
  sealed-Verifies op r db v now chain config (some (sig, n)) e archive found same version there =
      let number : n ≡ v = cc version in
      let reply = try_sign-signed h.vault config (compute_operation_hash h.host op) sig n e in
      let row = sealed_row op chain (some (sig, n)) now in
      let own =
        archive_public_key_if_needed-IsArchive public h.vault ecdsa signer n db.signing_keys
          archive in
      let once =
        first-update_where (λ a. a.trace_id == op.trace_id) (λ a. a.id == op.id) op r db.operations
          found ((==_iff r.id op.id).1 same) (==_refl op.trace_id) in
      let twice =
        first-update_where (λ a. a.trace_id == op.trace_id) (λ a. a.id == op.id) row op
          (update_where (λ a. a.id == op.id) (λ _. op) db.operations) once (==_refl op.id)
          (==_refl op.trace_id) in
      (
        own,
        subst Verifies
            (sym (
              get_audit_export-first op.trace_id (sealed_db op chain (some (sig, n)) now db) row
                twice))
            (export_of-Verifies row (sealed_db op chain (some (sig, n)) now db) sig v reply.0
              (reply.1 ∙ number) refl (ap some number) own there),
      )

  -- Take an operation whose trace id is in the table first on a row with its id, and an archive whose keys
  -- are Vault's. Where sealing it got a signature and the archive then has the key of its version, the export
  -- under that trace id is given out at once, with the signature that sealing made, and the verifier, which
  -- sees the export alone, reports that signature valid on the hash that it computes itself. The archive's
  -- keys are Vault's behind the sealing too.
  pub seal_operation-Verifies :
      (config : VaultConfig) (now : ℕ) (op r : Operation) (db : Db) (v : ℕ)
      → IsArchive public db.signing_keys
      → first (λ o. o.trace_id == op.trace_id) db.operations ≡ some r
      → r.id ≡ op.id
      → let done = seal_operation h.host h.vault config now op db in
        done.0.key_version ≡ some v
        → any (λ k. k.key_version == v) done.1.signing_keys ≡ true
        → IsArchive public done.1.signing_keys × Verifies (get_audit_export h op.trace_id done.1)
  unfolding seal_operation
  seal_operation-Verifies config now op r db v archive found same =
      sealed-Verifies op r db v now
        (compute_chain_hash h.host
          (get_latest_chain_hash (put_operation op db).operations op.tenant_id)
          (compute_operation_hash h.host op))
        config (try_sign h.vault config (compute_operation_hash h.host op)) refl archive found same
