-- ===== src/Evidence.antt =====
-- The evidence of the audit trail: apps/api/db/evidence.py, which the workers and the API share,
-- and `verify_chain` of apps/api/core/chain.py.
pub mod Json
pub mod Literal
pub mod Canonical
pub mod Chained
pub mod Tamper
pub mod Edits
pub mod Seal
mod Rows
pub mod Unsealed
pub mod Replaced
pub mod Sealed
use safe_context.Base.{
  ℕ, zero, suc, ◌+◌, ◌/◌, ◌%◌, ◌-◌, Bool, true, false, ◌&&◌, List, [], ◌∷◌, ◌++◌, Option, none,
  some, is_some, filter, take, drop, ltb, ◌==◌, if◌then◌else◌, sorted_by, sorted_with, length, ◌≡◌,
  update_where,
}
use safe_context.Store.{Text, Operation, OperationStatus}
use safe_context.Evidence.Json.{json_string, member, hex_digit}

-- What the host gives: SHA-256 of the UTF-8 form of a text as lower-case hexadecimal digits, and
-- `datetime.isoformat`.
pub record Host : Type 0 where
  pub sha256 : Text → Text
  pub isoformat : ℕ → Text

-- A SHA-256 digest has 64 hexadecimal digits.
pub record IsSha256 (host : Host) : Type 0 where
  pub digest_length : (t : Text) → length (host.sha256 t) ≡ 64

-- `n` in `k` hexadecimal digits.
unfoldable pub hex_digits : ℕ → ℕ → Text
unfolding hex_digit
hex_digits zero n = []
hex_digits (suc k) n = hex_digits k (n / 16) ++ (hex_digit (n % 16) ∷ [])

-- `str` of a UUID
unfoldable pub uuid_text : ℕ → Text
unfolding hex_digits
uuid_text n =
    let h = hex_digits 32 n in
    take 8 h
    ++ (b'-' ∷ take 4 (drop 8 h)
        ++ (b'-' ∷ take 4 (drop 12 h) ++ (b'-' ∷ take 4 (drop 16 h) ++ (b'-' ∷ drop 20 h))))

-- The value of an `OperationStatus`
unfoldable pub status_text : OperationStatus → Text
status_text OperationStatus.pending = b'p' ∷ b'e' ∷ b'n' ∷ b'd' ∷ b'i' ∷ b'n' ∷ b'g' ∷ []
status_text OperationStatus.completed =
    b'c' ∷ b'o' ∷ b'm' ∷ b'p' ∷ b'l' ∷ b'e' ∷ b't' ∷ b'e' ∷ b'd' ∷ []
status_text OperationStatus.escalated =
    b'e' ∷ b's' ∷ b'c' ∷ b'a' ∷ b'l' ∷ b'a' ∷ b't' ∷ b'e' ∷ b'd' ∷ []
status_text OperationStatus.approved = b'a' ∷ b'p' ∷ b'p' ∷ b'r' ∷ b'o' ∷ b'v' ∷ b'e' ∷ b'd' ∷ []
status_text OperationStatus.rejected = b'r' ∷ b'e' ∷ b'j' ∷ b'e' ∷ b'c' ∷ b't' ∷ b'e' ∷ b'd' ∷ []

-- The keys of the signed object, as `sort_keys=True` orders them.
abbrev pub key_actor_id : Text
key_actor_id = b'a' ∷ b'c' ∷ b't' ∷ b'o' ∷ b'r' ∷ b'_' ∷ b'i' ∷ b'd' ∷ []

abbrev pub key_artifact_digest : Text
key_artifact_digest =
    b'a' ∷ b'r' ∷ b't' ∷ b'i' ∷ b'f' ∷ b'a' ∷ b'c' ∷ b't' ∷ b'_' ∷ b'd' ∷ b'i' ∷ b'g' ∷ b'e' ∷ b's'
    ∷ b't' ∷ []

abbrev pub key_created_at : Text
key_created_at = b'c' ∷ b'r' ∷ b'e' ∷ b'a' ∷ b't' ∷ b'e' ∷ b'd' ∷ b'_' ∷ b'a' ∷ b't' ∷ []

abbrev pub key_id : Text
key_id = b'i' ∷ b'd' ∷ []

abbrev pub key_status : Text
key_status = b's' ∷ b't' ∷ b'a' ∷ b't' ∷ b'u' ∷ b's' ∷ []

abbrev pub key_trace_id : Text
key_trace_id = b't' ∷ b'r' ∷ b'a' ∷ b'c' ∷ b'e' ∷ b'_' ∷ b'i' ∷ b'd' ∷ []

-- The six values that are hashed, as texts.
pub record Content : Type 0 where
  pub actor_id : Text
  pub artifact_digest : Text
  pub created_at : Text
  pub id : Text
  pub status : Text
  pub trace_id : Text

-- `json.dumps({...}, sort_keys=True)` at those values.
unfoldable pub canonical_json : Content → Text
unfolding member
canonical_json c =
    b'{'
    ∷ member key_actor_id c.actor_id (
        b','
        ∷ b' '
        ∷ member key_artifact_digest c.artifact_digest (
            b','
            ∷ b' '
            ∷ member key_created_at c.created_at (
                b','
                ∷ b' '
                ∷ member key_id c.id (
                    b','
                    ∷ b' '
                    ∷ member key_status c.status
                        (b',' ∷ b' ' ∷ member key_trace_id c.trace_id (b'}' ∷ []))))))

abbrev pub content_of : Host → Operation → Content
content_of host op = record {
  actor_id = uuid_text op.actor_id;
  artifact_digest = op.artifact_digest;
  created_at = host.isoformat op.created_at;
  id = uuid_text op.id;
  status = status_text op.status;
  trace_id = uuid_text op.trace_id;
}

-- `compute_operation_hash`
unfoldable pub compute_operation_hash : Host → Operation → Text
compute_operation_hash host op = host.sha256 (canonical_json (content_of host op))

-- `compute_chain_hash`
unfoldable pub compute_chain_hash : Host → Text → Text → Text
compute_chain_hash host prev_chain_hash operation_hash =
    host.sha256 (prev_chain_hash ++ operation_hash)

zeros : ℕ → Text
zeros zero = []
zeros (suc n) = b'0' ∷ zeros n

-- `GENESIS_HASH`
unfoldable pub genesis_hash : Text
unfolding zeros
genesis_hash = zeros 64

-- The rows of a tenant in the order in which they were created.
unfoldable pub tenant_rows : List Operation → ℕ → List Operation
unfolding sorted_with
tenant_rows operations tenant_id =
    sorted_by (λ op. op.created_at) (filter (λ op. op.tenant_id == tenant_id) operations)

-- The chain hash of the last sealed row, if one is sealed.
unfoldable pub last_sealed : List Operation → Option Text
last_sealed [] = none
last_sealed (op ∷ ops) = elim (last_sealed ops) [ some h ↦ some h | none ↦ op.chain_hash ]

-- `latest or GENESIS_HASH`: an empty hash counts as none.
unfoldable pub or_genesis : Option Text → Text
or_genesis none = genesis_hash
or_genesis (some []) = genesis_hash
or_genesis (some (c ∷ h)) = c ∷ h

-- `get_latest_chain_hash`
unfoldable pub get_latest_chain_hash : List Operation → ℕ → Text
unfolding last_sealed or_genesis tenant_rows
get_latest_chain_hash operations tenant_id =
    or_genesis (last_sealed (tenant_rows operations tenant_id))

-- The test `==` on texts
unfoldable pub text_eq : Text → Text → Bool
text_eq [] [] = true
text_eq [] (d ∷ ys) = false
text_eq (c ∷ xs) [] = false
text_eq (c ∷ xs) (d ∷ ys) = c == d && text_eq xs ys

-- The dict that `verify_chain` returns.
pub record ChainReport : Type 0 where
  pub valid : Bool
  pub checked : ℕ
  pub first_broken_at : Option ℕ
  pub gaps : List ℕ

-- The loop of `verify_chain`, from the previous hash, the count and the gaps so far.
unfoldable pub verify_loop : Host → List Operation → Text → ℕ → List ℕ → ChainReport
unfolding text_eq
verify_loop host [] prev_hash checked gaps = record {
  valid = true;
  checked = checked;
  first_broken_at = none;
  gaps = gaps;
}
verify_loop host (op ∷ ops) prev_hash checked gaps = elim op.chain_hash [
  | none ↦ verify_loop host ops prev_hash checked (gaps ++ (op.id ∷ []))
  | some h ↦ elim (text_eq h (compute_chain_hash host prev_hash (compute_operation_hash host op))) [
    | true ↦ verify_loop host ops h (checked + 1) gaps
    | false ↦ record {
      valid = false;
      checked = checked + 1;
      first_broken_at = some op.id;
      gaps = gaps;
    }
  ]
]

-- `verify_chain`; a tenant without rows gets the same report as the loop gives for none.
unfoldable pub verify_chain : Host → List Operation → ℕ → ℕ → ChainReport
unfolding verify_loop tenant_rows
verify_chain host operations tenant_id limit =
    verify_loop host (take limit (tenant_rows operations tenant_id)) genesis_hash 0 []
