-- ===== src/Evidence/Seal.antt =====
-- Sealing: `sign_operation_hash`, `get_transit_public_key`, `archive_public_key_if_needed` and
-- `seal_operation` of apps/api/db/evidence.py. Vault answers as the record `Vault` says.

use safe_context.Base.{
  ℕ, Bool, true, false, ◌&&◌, List, [], ◌∷◌, ◌++◌, Option, none, some, is_some, any, update_where,
  ◌==◌, if◌then◌else◌,
}
use safe_context.Store.{Text, Operation, SigningKey, Db}
use safe_context.Evidence.{Host, compute_operation_hash, compute_chain_hash, get_latest_chain_hash}

-- What a POST to transit/sign gives: an exception, or a status and the field `signature`, which is
-- empty where the reply has none.
pub data SignReply : Type 0 where
  sign_raised : SignReply
  sign_replied : ℕ → Text → SignReply

-- What a GET of transit/keys gives: an exception, or a status and, for each version, the public
-- key, where it has one.
pub data KeysReply : Type 0 where
  keys_raised : KeysReply
  keys_replied : ℕ → List (ℕ × Option Text) → KeysReply

-- Vault, and Python's `int` of a text (`none` where it raises `ValueError`).
pub record Vault : Type 0 where
  pub sign : Text → SignReply
  pub keys : KeysReply
  pub int : Text → Option ℕ

-- The arguments `vault_addr`, `vault_token` and `vault_key`.
pub record VaultConfig : Type 0 where
  pub vault_addr : Option Text
  pub vault_token : Option Text
  pub vault_key : Option Text

-- Whether an optional text counts as true: it is there and is not empty.
abbrev pub truthy : Option Text → Bool
truthy none = false
truthy (some []) = false
truthy (some (c ∷ s)) = true

-- The part of a text behind its first colon, and the part before it, if it has a colon.
unfoldable pub split_colon : Text → Option (Text × Text)
split_colon [] = none
split_colon (c ∷ s) =
    let rest : Option (Text × Text) = elim (split_colon s) [
      | none ↦ none
      | some (a, b) ↦ some (c ∷ a, b)
    ] in
    if c == b':' then some ([], s) else rest

-- `lstrip("v")`
unfoldable pub lstrip_v : Text → Text
lstrip_v [] = []
lstrip_v (c ∷ s) = let rest = lstrip_v s in if c == b'v' then rest else c ∷ s

-- `sig.startswith("vault:")`, and then what follows that prefix.
unfoldable pub after_vault : Text → Option Text
after_vault (v ∷ a ∷ u ∷ l ∷ t ∷ c ∷ s) =
    if v == b'v' && (a == b'a' && (u == b'u' && (l == b'l' && (t == b't' && c == b':'))))
    then some s
    else none
after_vault _ = none

-- The second and third parts of `sig.split(":", 2)`, where `sig` starts with "vault:" and has three.
unfoldable pub vault_parts : Text → Option (Text × Text)
unfolding after_vault split_colon
vault_parts sig = elim (after_vault sig) [ none ↦ none | some s ↦ split_colon s ]

-- The key version that the signature names; 1 where it names none.
unfoldable pub signature_version : Vault → Text → ℕ
unfolding vault_parts lstrip_v
signature_version vault sig = elim (vault_parts sig) [
  | none ↦ 1
  | some (version, payload) ↦ elim (vault.int (lstrip_v version)) [ none ↦ 1 | some n ↦ n ]
]

-- `sign_operation_hash`
unfoldable pub sign_operation_hash : Vault → Text → Option (Text × ℕ)
unfolding signature_version
sign_operation_hash vault operation_hash = elim (vault.sign operation_hash) [
  | sign_raised ↦ none
  | sign_replied status sig ↦
      if status == 200 then some (sig, signature_version vault sig) else none
]

key_entry : ℕ → List (ℕ × Option Text) → Option Text
key_entry version [] = none
key_entry version ((v, pem) ∷ keys) = if v == version then pem else key_entry version keys

-- The PEM that `get_transit_public_key` returns for a version; an empty one counts as none.
unfoldable pub get_transit_public_key : Vault → ℕ → Option Text
unfolding key_entry
get_transit_public_key vault key_version = elim vault.keys [
  | keys_raised ↦ none
  | keys_replied status keys ↦
      let pem = key_entry key_version keys in
      if status == 200 then (if truthy pem then pem else none) else none
]

-- `archive_public_key_if_needed`
unfoldable pub archive_public_key_if_needed : Vault → ℕ → List SigningKey → List SigningKey
unfolding get_transit_public_key
archive_public_key_if_needed vault key_version rows =
    if any (λ r. r.key_version == key_version) rows
    then rows
    else elim (get_transit_public_key vault key_version) [
      | none ↦ rows
      | some pem ↦ rows ++ (record { key_version = key_version; public_key_pem = pem } ∷ [])
    ]

-- The dict that `seal_operation` returns.
pub record Sealed : Type 0 where
  pub operation_hash : Text
  pub chain_hash : Text
  pub signed : Bool
  pub key_version : Option ℕ

-- Vault is asked only where all three arguments are there.
unfoldable pub try_sign : Vault → VaultConfig → Text → Option (Text × ℕ)
unfolding sign_operation_hash
try_sign vault config operation_hash =
    if truthy config.vault_addr && (truthy config.vault_token && truthy config.vault_key)
    then sign_operation_hash vault operation_hash
    else none

-- The row behind the seal.
unfoldable pub sealed_row : Operation → Text → Option (Text × ℕ) → ℕ → Operation
sealed_row op chain_hash none now = record op { chain_hash = some chain_hash }
sealed_row op chain_hash (some (signature, version)) now = record op {
  chain_hash = some chain_hash;
  event_signature = some signature;
  event_signed_at = some now;
  signing_key_version = some version;
}

-- The ORM writes a changed row back: the row with its id is replaced.
unfoldable pub put_operation : Operation → Db → Db
put_operation op db = record db {
  operations = update_where (λ r. r.id == op.id) (λ _. op) db.operations;
}

unfoldable pub archived : Vault → Option (Text × ℕ) → List SigningKey → List SigningKey
archived vault none keys = keys
archived vault (some (signature, version)) keys = archive_public_key_if_needed vault version keys

abbrev pub signed_version : Option (Text × ℕ) → Option ℕ
signed_version none = none
signed_version (some (signature, version)) = some version

-- `seal_operation` of a loaded row, at the time `now`. Pending changes of the row are flushed before
-- the latest hash is read.
unfoldable pub seal_operation : Host → Vault → VaultConfig → ℕ → Operation → Db → Sealed × Db
unfolding try_sign sealed_row put_operation archived archive_public_key_if_needed
seal_operation host vault config now op db =
    let flushed = put_operation op db in
    let op_hash = compute_operation_hash host op in
    let chain_hash =
      compute_chain_hash host (get_latest_chain_hash flushed.operations op.tenant_id) op_hash in
    let signature = try_sign vault config op_hash in
    let stored = put_operation (sealed_row op chain_hash signature now) flushed in
    (
      record {
        operation_hash = op_hash;
        chain_hash = chain_hash;
        signed = is_some signature;
        key_version = signed_version signature;
      },
      record stored { signing_keys = archived vault signature stored.signing_keys },
    )
