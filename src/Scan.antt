-- ===== src/Scan.antt =====
-- The scan endpoint: apps/api/api/v1/scan.py. A UUID that `uuid4` draws is the next id. Of two operations
-- that were created at one moment, the one stored first stands for the newest.
mod Stored
pub mod Accepted
pub mod Relayed
pub mod Detected
use text.Mathlib.Text.{◌==◌ as str_eq}
use safe_context.Base.{
  ℕ, ◌+◌, String, Bool, true, false, ◌&&◌, ◌||◌, List, [], ◌∷◌, ◌++◌, Option, none, some, filter,
  drop, take, ◌==◌, if◌then◌else◌, sorted_desc, sorted_with,
}
use safe_context.Store.{
  Text, OperationStatus, pending, completed, escalated, ActorType, Operation, Outbox, Db,
}
use safe_context.Evidence.{Host, text_eq}
use safe_context.Review.{sentinel_actor_id}

-- `DEFAULT_TENANT_ID`
abbrev pub default_tenant_id : ℕ
default_tenant_id = 0

-- `FALLBACK_POLICY_VERSION`
abbrev pub fallback_policy_version : String
fallback_policy_version = "1.0.0"

-- What the request to OPA comes to: an HTTP status with the text of the `result` of its body, if the body
-- has one, or an exception.
pub data OpaVersion : Type 0 where
  answered : (status_code : ℕ) (result : Option String) → OpaVersion
  timed_out unreachable unexpected : OpaVersion

-- `_get_policy_version`
unfoldable pub get_policy_version : OpaVersion → String
get_policy_version (answered status_code none) = fallback_policy_version
get_policy_version (answered status_code (some version)) =
    if status_code == 200 then version else fallback_policy_version
get_policy_version timed_out = fallback_policy_version
get_policy_version unreachable = fallback_policy_version
get_policy_version unexpected = fallback_policy_version

-- The claims of a decoded token that the endpoint reads; a missing one is empty.
pub record Claims : Type 0 where
  pub sub : Text
  pub tenant_id : Text

-- Authentication: the agents' secret, `_decode_token` (`none` where it raises) and `uuid.UUID` (`none`
-- for `ValueError`).
pub record Tokens : Type 0 where
  pub mcp_auth_token : Text
  pub decode : Text → Option Claims
  pub uuid : Text → Option ℕ

-- The answer of `_resolve_scan_actor`
pub record Actor : Type 0 where
  pub actor_id : ℕ
  pub actor_type : ActorType
  pub tenant_id : ℕ

-- "Bearer "
abbrev pub bearer : Text
bearer = b'B' ∷ b'e' ∷ b'a' ∷ b'r' ∷ b'e' ∷ b'r' ∷ b' ' ∷ []

-- `tenant_id` of a token's claims
unfoldable pub claimed_tenant : Tokens → Text → Option ℕ
claimed_tenant tokens [] = some default_tenant_id
claimed_tenant tokens (c ∷ cs) = tokens.uuid (c ∷ cs)

-- The actor of a token that was decoded: the tenant is read first.
human_actor : Option ℕ → Option ℕ → Option Actor
human_actor (some tenant) (some sub) =
    some (record { actor_id = sub; actor_type = ActorType.human; tenant_id = tenant })
human_actor (some tenant) none = none
human_actor none sub = none

claimed_actor : Tokens → Option Claims → Option Actor
claimed_actor tokens none = none
claimed_actor tokens (some claims) = elim claims.sub [
  | [] ↦ none
  | c ∷ cs ↦ human_actor (claimed_tenant tokens claims.tenant_id) (tokens.uuid (c ∷ cs))
]

-- `_resolve_scan_actor` on the header, which is empty where it is missing; `none` is the status 401.
unfoldable pub resolve_scan_actor : Tokens → Text → Option Actor
unfolding text_eq claimed_actor human_actor claimed_tenant
resolve_scan_actor tokens header =
    if text_eq (take 7 header) bearer
    then if text_eq (drop 7 header) tokens.mcp_auth_token
      then some (record {
        actor_id = sentinel_actor_id;
        actor_type = ActorType.mcp_agent;
        tenant_id = default_tenant_id;
      })
      else claimed_actor tokens (tokens.decode (drop 7 header))
    else none

-- `ScanRequest`; the encoding is passed on unread.
pub record ScanRequest : Type 0 where
  pub document : Text
  pub policy_name : String
  pub policy_version : Option String

-- `body.policy_version or await _get_policy_version(...)`
unfoldable pub resolved_version : Option String → OpaVersion → String
unfolding get_policy_version
resolved_version none opa = get_policy_version opa
resolved_version (some version) opa = if str_eq version "" then get_policy_version opa else version

abbrev pub is_processed : OperationStatus → Bool
is_processed completed = true
is_processed escalated = true
is_processed _ = false

abbrev pub reuses : Text → String → Operation → Bool
reuses digest version op =
    text_eq op.artifact_digest digest
    && (str_eq op.policy_version version && is_processed op.status)

-- `.limit(1)`
unfoldable pub newest {ℓ} : {A : Type ℓ} → List A → Option A
newest [] = none
newest (x ∷ xs) = some x

-- `existing_op`: the newest processed operation on the same text under the same version.
unfoldable pub existing_op : Text → String → List Operation → Option Operation
unfolding sorted_with text_eq newest
existing_op digest version operations =
    newest (sorted_desc (λ o. o.created_at) (filter (reuses digest version) operations))

-- `ScanResponse`, whose findings are always empty
pub record ScanResponse : Type 0 where
  pub trace_id : ℕ
  pub artifact_digest : Text
  pub policy_version : String
  pub requires_human_review : Bool

-- The response, or the status of the `HTTPException`
pub data ScanReply : Type 0 where
  scan_error : ℕ → ScanReply
  scan_result : ScanResponse → ScanReply

-- A message on the queue `scan_requests`
pub record ScanMessage : Type 0 where
  pub operation_id : ℕ
  pub document_hash : Text
  pub policy_name : String
  pub policy_version : String

-- The process: the database, and what has been put on `scan_requests`.
pub record Api : Type 0 where
  pub db : Db
  pub scan_requests : List ScanMessage

-- What one request meets: the trace id, if the tracer has one in the form of a UUID, the server's clock,
-- OPA, and whether the commit and the message go through.
pub record Situation : Type 0 where
  pub trace : Option ℕ
  pub now : ℕ
  pub opa : OpaVersion
  pub commits : Bool
  pub enqueues : Bool

-- `trace_uuid`, behind the two ids that are drawn for the operation and the document.
unfoldable pub trace_uuid : Option ℕ → ℕ → ℕ
trace_uuid (some t) id = t
trace_uuid none id = id

unfoldable pub new_operation : ℕ → ℕ → Actor → Text → String → ℕ → Operation
new_operation id trace_id actor digest version now = record {
  id = id;
  tenant_id = actor.tenant_id;
  trace_id = trace_id;
  actor_id = actor.actor_id;
  actor_type = actor.actor_type;
  document_id = id + 1;
  artifact_digest = digest;
  policy_version = version;
  status = pending;
  sanitized_text = none;
  created_at = now;
  completed_at = none;
  chain_hash = none;
  event_signature = none;
  event_signed_at = none;
  signing_key_version = none;
}

unfoldable pub scan_event : ℕ → ℕ → Text → ℕ → Outbox
scan_event id operation_id document now = record {
  id = id;
  event_type = "scan_requested";
  operation_id = operation_id;
  document_text = document;
  processed = false;
  created_at = now;
}

-- The transaction: both rows, or none.
unfoldable pub persist : Operation → Outbox → Db → Db
persist op event db = record db {
  operations = db.operations ++ (op ∷ []);
  outbox = db.outbox ++ (event ∷ []);
  next_id = db.next_id + 4;
}

-- The commit, with what it comes to where it goes through; a failed one is rolled back.
unfoldable pub commit_scan : (commits : Bool) → Api → Api × ScanReply → Api × ScanReply
commit_scan true api done = done
commit_scan false api done = (api, scan_error 500)

-- The message behind the commit, which may fail.
unfoldable pub enqueue : (enqueues : Bool) → ScanMessage → List ScanMessage → List ScanMessage
enqueue true message queue = queue ++ (message ∷ [])
enqueue false message queue = queue

-- A document that no processed operation has the text of.
unfoldable pub accept : Situation → ScanRequest → Actor → Text → String → Api → Api × ScanReply
unfolding trace_uuid new_operation scan_event persist commit_scan enqueue
accept s body actor digest version api =
    let id = api.db.next_id in
    let trace_id = trace_uuid s.trace (id + 2) in
    let op = new_operation id trace_id actor digest version s.now in
    let event = scan_event (id + 3) id body.document s.now in
    let message : ScanMessage = record {
      operation_id = id;
      document_hash = digest;
      policy_name = body.policy_name;
      policy_version = version;
    } in
    commit_scan s.commits api (
      record {
        db = persist op event api.db;
        scan_requests = enqueue s.enqueues message api.scan_requests;
      },
      scan_result (record {
        trace_id = trace_id;
        artifact_digest = digest;
        policy_version = version;
        requires_human_review = false;
      }),
    )

-- The answer that an earlier operation gives.
unfoldable pub deduplicated : Text → Operation → ScanReply
deduplicated digest op = scan_result (record {
  trace_id = op.trace_id;
  artifact_digest = digest;
  policy_version = op.policy_version;
  requires_human_review = elim op.status [ escalated ↦ true | _ ↦ false ];
})

-- What follows the search for an earlier operation.
unfoldable pub answer :
    Situation → ScanRequest → Actor → Text → String → Option Operation → Api → Api × ScanReply
unfolding deduplicated accept
answer s body actor digest version (some op) api = (api, deduplicated digest op)
answer s body actor digest version none api = accept s body actor digest version api

unfoldable pub scan_as : Host → Situation → ScanRequest → Option Actor → Api → Api × ScanReply
unfolding existing_op answer resolved_version
scan_as host s body none api = (api, scan_error 401)
scan_as host s body (some actor) api =
    let digest = host.sha256 body.document in
    let version = resolved_version body.policy_version s.opa in
    answer s body actor digest version (existing_op digest version api.db.operations) api

-- `scan`
unfoldable pub scan : Host → Tokens → Situation → Text → ScanRequest → Api → Api × ScanReply
unfolding scan_as resolve_scan_actor
scan host tokens s header body api = scan_as host s body (resolve_scan_actor tokens header) api
