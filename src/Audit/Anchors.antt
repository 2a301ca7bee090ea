-- ===== src/Audit/Anchors.antt =====
-- Signed anchors of the chain: `create_chain_anchor`, `_verify_latest_anchor` and `verify_chain_endpoint`
-- of apps/api/api/v1/audit.py, with `verify_signature` of apps/api/core/vault_transit.py. A moment at
-- which two anchors were made counts for the one stored last. The commit of an anchor goes through.
pub mod Signed
pub mod Live
use safe_context.Base.{
  ℕ, ◌+◌, Bool, true, false, not, ◌&&◌, ◌||◌, List, [], ◌∷◌, ◌++◌, Option, none, some, is_some,
  filter, leb, length, ◌==◌, if◌then◌else◌, sorted_with,
}
use safe_context.Store.{Text, Operation, Db, SigningKey}
use safe_context.Evidence.{
  Host, text_eq, genesis_hash, get_latest_chain_hash, ChainReport, verify_chain,
}
use safe_context.Evidence.Seal.{
  Vault, after_vault, sign_operation_hash, get_transit_public_key, archive_public_key_if_needed,
}

-- `db.models.chain_anchor.ChainAnchor`
pub record ChainAnchor : Type 0 where
  pub id : ℕ
  pub tenant_id : ℕ
  pub chain_head_hash : Text
  pub operations_count : ℕ
  pub signature : Text
  pub signing_key_version : Option ℕ
  pub signing_public_key_pem : Option Text
  pub tsa_token : Option Text
  pub created_by : Option ℕ
  pub created_at : ℕ

-- The tables
pub record AnchorDb : Type 0 where
  pub db : Db
  pub anchors : List ChainAnchor

-- What a POST to transit/verify gives for the bytes that a hexadecimal text writes and a signature: an
-- exception, which a text that writes none counts as, or a status and the field `valid`.
pub data VerifyReply : Type 0 where
  verify_raised : VerifyReply
  verify_replied : (status : ℕ) (valid : Bool) → VerifyReply

-- What stands behind the endpoints: hash and texts, Vault, the decimal digits of a number, the time stamp
-- of a hash (`none` where it is not enabled or fails), and the clock.
pub record AnchorHost : Type 0 where
  pub host : Host
  pub vault : Vault
  pub transit_verify : Text → Text → VerifyReply
  pub digits : ℕ → Text
  pub tsa : Text → Option Text
  pub now : ℕ

-- `f"vault:v{key_version}:{signature}"`, but for a signature with a prefix of its own.
unfoldable pub with_version : (ℕ → Text) → ℕ → Text → Text
with_version digits key_version signature =
    if is_some (after_vault signature)
    then signature
    else b'v' ∷ b'a' ∷ b'u' ∷ b'l' ∷ b't' ∷ b':' ∷ b'v' ∷ (digits key_version ++ (b':' ∷ signature))

abbrev pub is_valid : VerifyReply → Bool
is_valid verify_raised = false
is_valid (verify_replied status valid) = if status == 200 then valid else false

-- `verify_signature`
unfoldable pub verify_signature : AnchorHost → Text → Text → ℕ → Bool
unfolding with_version
verify_signature h data_hex signature key_version =
    is_valid (h.transit_verify data_hex (with_version h.digits key_version signature))

-- The dict that `_verify_latest_anchor` returns
pub data AnchorStatus : Type 0 where
  unanchored : AnchorStatus
  anchored : (anchor_valid anchor_head_matches : Bool) → AnchorStatus

-- The newest anchor of the tenant
unfoldable pub latest_anchor : ℕ → List ChainAnchor → Option ChainAnchor
latest_anchor tenant_id [] = none
latest_anchor tenant_id (a ∷ anchors) = elim (latest_anchor tenant_id anchors) [
  | none ↦ (if a.tenant_id == tenant_id then some a else none)
  | some b ↦
      (if a.tenant_id == tenant_id && not (leb a.created_at b.created_at) then some a else some b)
]

-- `anchor.signing_key_version or 1`
abbrev pub version_or_1 : Option ℕ → ℕ
version_or_1 none = 1
version_or_1 (some v) = if v == 0 then 1 else v

unfoldable pub anchor_status : AnchorHost → ℕ → List Operation → Option ChainAnchor → AnchorStatus
unfolding verify_signature text_eq get_latest_chain_hash
anchor_status h tenant_id operations none = unanchored
anchor_status h tenant_id operations (some a) =
    anchored (verify_signature h a.chain_head_hash a.signature (version_or_1 a.signing_key_version))
      (text_eq (get_latest_chain_hash operations tenant_id) a.chain_head_hash)

-- `_verify_latest_anchor`
unfoldable pub verify_latest_anchor : AnchorHost → ℕ → AnchorDb → AnchorStatus
unfolding latest_anchor anchor_status
verify_latest_anchor h tenant_id t =
    anchor_status h tenant_id t.db.operations (latest_anchor tenant_id t.anchors)

-- The claims that the endpoints read: roles, the tenant, and `sub` as a UUID, if it is one.
pub record Caller : Type 0 where
  pub is_reviewer : Bool
  pub is_admin : Bool
  pub tenant_id : ℕ
  pub sub : Option ℕ

-- `verify_chain_endpoint`: the report on the first 1,000 rows with the status of the anchor, or 403.
unfoldable pub verify_chain_endpoint :
    AnchorHost → Caller → AnchorDb → Option (ChainReport × AnchorStatus)
unfolding verify_latest_anchor verify_chain
verify_chain_endpoint h actor t =
    if actor.is_admin || actor.is_reviewer
    then some (
      verify_chain h.host t.db.operations actor.tenant_id 1000,
      verify_latest_anchor h actor.tenant_id t,
    )
    else none

-- `ops_count`
unfoldable pub sealed_rows : ℕ → List Operation → ℕ
sealed_rows tenant_id operations =
    length (filter (λ o. o.tenant_id == tenant_id && is_some o.chain_hash) operations)

-- The anchor, or the status of the `HTTPException`
pub data AnchorReply : Type 0 where
  anchor_error : ℕ → AnchorReply
  anchor_created : ChainAnchor → AnchorReply

unfoldable pub new_anchor : AnchorHost → Caller → Text → Text → ℕ → AnchorDb → ChainAnchor
unfolding sealed_rows get_transit_public_key
new_anchor h actor head signature key_version t = record {
  id = t.db.next_id;
  tenant_id = actor.tenant_id;
  chain_head_hash = head;
  operations_count = sealed_rows actor.tenant_id t.db.operations;
  signature = signature;
  signing_key_version = some key_version;
  signing_public_key_pem = get_transit_public_key h.vault key_version;
  tsa_token = h.tsa head;
  created_by = actor.sub;
  created_at = h.now;
}

-- The anchor of a head that was signed, with the key archived.
unfoldable pub store_anchor :
    AnchorHost → Caller → Text → Text → ℕ → AnchorDb → AnchorDb × AnchorReply
unfolding new_anchor archive_public_key_if_needed
store_anchor h actor head signature key_version t =
    let anchor = new_anchor h actor head signature key_version t in
    (
      record {
        db = record t.db {
          signing_keys = archive_public_key_if_needed h.vault key_version t.db.signing_keys;
          next_id = t.db.next_id + 1;
        };
        anchors = t.anchors ++ (anchor ∷ []);
      },
      anchor_created anchor,
    )

unfoldable pub sign_head :
    AnchorHost → Caller → Text → Option (Text × ℕ) → AnchorDb → AnchorDb × AnchorReply
sign_head h actor head none t = (t, anchor_error 503)
sign_head h actor head (some (signature, version)) t = store_anchor h actor head signature version t

-- `create_chain_anchor`
unfoldable pub create_chain_anchor : AnchorHost → Caller → AnchorDb → AnchorDb × AnchorReply
unfolding sign_head store_anchor sign_operation_hash get_latest_chain_hash text_eq
create_chain_anchor h actor t =
    let head = get_latest_chain_hash t.db.operations actor.tenant_id in
    if actor.is_admin
    then (if text_eq head genesis_hash
        then (t, anchor_error 409)
        else sign_head h actor head (sign_operation_hash h.vault head) t)
    else (t, anchor_error 403)
