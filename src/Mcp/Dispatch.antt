-- ===== src/Mcp/Dispatch.antt =====
-- The dispatch of the MCP tools: apps/api/mcp/router.py, with `require_tool_scope` of apps/api/mcp/scopes.py,
-- `check_rate_limit_redis` of apps/api/core/auth_oidc.py and `require_mcp_oauth` of apps/api/mcp/auth.py.
use text.Mathlib.Text.{◌==◌ as str_eq}
use safe_context.Base.{
  ℕ, String, Bool, true, false, not, ◌&&◌, ◌||◌, List, [], ◌∷◌, Option, none, some, any, leb,
  if◌then◌else◌,
}
use safe_context.Store.{Text}
use safe_context.Evidence.{text_eq}
use safe_context.RateLimit.{Limiter, check_rate_limit}

-- `TOOL_SCOPES.get(tool_name)`
unfoldable pub tool_scope : String → Option String
tool_scope tool =
    if str_eq tool "safecontext.scan"
    then some "mcp:scan"
    else if str_eq tool "safecontext.sanitize"
    then some "mcp:sanitize"
    else if str_eq tool "safecontext.classify"
    then some "mcp:classify"
    else if str_eq tool "safecontext.audit"
    then some "mcp:audit"
    else if str_eq tool "safecontext.policy.get"
    then some "mcp:policy"
    else if str_eq tool "safecontext.approve"
    then some "mcp:approve"
    else none

-- `require_tool_scope`: whether it lets the call through. The scopes are those that `split` gives.
unfoldable pub require_tool_scope : String → List String → Bool
unfolding tool_scope
require_tool_scope tool granted = elim (tool_scope tool) [
  | none ↦ true
  | some required ↦ any (λ s. str_eq s required) granted
]

-- `SUPPORTED_VERSIONS`
abbrev pub is_supported : String → Bool
is_supported version = str_eq version "1.0.0" || str_eq version "1.1.0"

abbrev is_versioned : String → Bool
is_versioned tool =
    str_eq tool "safecontext.scan"
    || (str_eq tool "safecontext.sanitize"
        || (str_eq tool "safecontext.classify"
            || (str_eq tool "safecontext.audit" || str_eq tool "safecontext.policy.get")))

-- `key in VERSION_COMPAT`
unfoldable pub is_compatible : String → String → Bool
is_compatible tool version =
    (is_versioned tool && is_supported version)
    || (str_eq tool "safecontext.approve" && str_eq version "1.1.0")

-- The handler that the call is passed to, or the status of the `HTTPException`.
pub data Dispatched : Type 0 where
  to_scan to_sanitize to_classify to_audit to_policy_get to_approve : Dispatched
  dispatch_error : ℕ → Dispatched

unfoldable pub handler_of : String → String → Dispatched
handler_of tool version =
    if str_eq tool "safecontext.scan"
    then to_scan
    else if str_eq tool "safecontext.sanitize"
    then to_sanitize
    else if str_eq tool "safecontext.classify"
    then to_classify
    else if str_eq tool "safecontext.approve"
    then (if str_eq version "1.0.0" then dispatch_error 400 else to_approve)
    else dispatch_error 404

unfoldable pub versioned_dispatch : String → String → List String → Dispatched
unfolding is_compatible require_tool_scope handler_of
versioned_dispatch tool version granted =
    if is_supported version
    then if is_compatible tool version || is_compatible tool "1.1.0"
      then if require_tool_scope tool granted then handler_of tool version else dispatch_error 403
      else dispatch_error 404
    else dispatch_error 400

-- A window of Redis: `none` where the pipeline raises, or the number of requests before this one.
unfoldable pub check_rate_limit_redis : ℕ → Option ℕ → Bool
check_rate_limit_redis limit none = false
check_rate_limit_redis limit (some count_before) = not (leb limit count_before)

-- The `try` around the limit in Redis: any exception, the refusal too, leads to the limit in memory.
unfoldable pub limited : ℕ → ℕ → ℕ → Option ℕ → Limiter → Limiter × Bool
unfolding check_rate_limit_redis check_rate_limit
limited limit now client window l =
    if check_rate_limit_redis limit window then (l, true) else check_rate_limit limit now client l

-- `dispatch_tool` up to the handler
unfoldable pub dispatch_tool :
    ℕ → ℕ → ℕ → Option ℕ → String → String → List String → Limiter → Limiter × Dispatched
unfolding limited versioned_dispatch
dispatch_tool limit now client window tool version granted l =
    let r = limited limit now client window l in
    (r.0, if r.1 then versioned_dispatch tool version granted else dispatch_error 429)

-- The claims of a token that the tools read.
pub record Payload : Type 0 where
  pub sub : Text
  pub scope : List String
  pub audience : List String
  pub tenant_id : Option ℕ

-- The environment: whether it is "dev", and the static token (empty where there is none).
pub record McpSettings : Type 0 where
  pub is_dev : Bool
  pub mcp_auth_token : Text
  pub decode : Text → Option Payload

-- The payload that the static token gets
abbrev pub dev_payload : Text → Payload
dev_payload token = record {
  sub = token;
  scope =
      "mcp:scan" ∷ "mcp:sanitize" ∷ "mcp:classify" ∷ "mcp:audit" ∷ "mcp:policy" ∷ "mcp:approve"
      ∷ [];
  audience = [];
  tenant_id = none;
}

is_static : Text → Text → Bool
is_static [] token = false
is_static (c ∷ static) token = text_eq token (c ∷ static)

jwt_payload : Option Payload → Option Payload
jwt_payload none = none
jwt_payload (some payload) =
    if any (λ a. str_eq a "safecontext-api") payload.audience then some payload else none

-- `require_mcp_oauth`: the payload, whose `sub` stands for `_raw_token or sub`, or 401.
unfoldable pub require_mcp_oauth : McpSettings → Option Text → Option Payload
unfolding is_static jwt_payload text_eq
require_mcp_oauth settings none = none
require_mcp_oauth settings (some token) =
    if settings.is_dev && is_static settings.mcp_auth_token token
    then some (dev_payload token)
    else jwt_payload (settings.decode token)

-- The routes of the router under which a handler runs: `/call`, or the handler's own route
-- `/tools/{tool}`, which names the tool in its path.
pub data Endpoint : Type 0 where
  call : (tool version : String) → Endpoint
  tool_route : (tool : String) → Endpoint

-- The `@router.post("/tools/...")` of the handlers
unfoldable pub route_handler : String → Dispatched
route_handler tool =
    if str_eq tool "safecontext.scan"
    then to_scan
    else if str_eq tool "safecontext.sanitize"
    then to_sanitize
    else if str_eq tool "safecontext.classify"
    then to_classify
    else if str_eq tool "safecontext.audit"
    then to_audit
    else if str_eq tool "safecontext.policy.get"
    then to_policy_get
    else if str_eq tool "safecontext.approve"
    then to_approve
    else dispatch_error 404

-- What a route does with the payload that its dependency gave.
unfoldable pub endpoint_dispatch :
    ℕ → ℕ → ℕ → Option ℕ → List String → Endpoint → Limiter → Limiter × Dispatched
unfolding dispatch_tool route_handler
endpoint_dispatch limit now client window granted (call tool version) l =
    dispatch_tool limit now client window tool version granted l
endpoint_dispatch limit now client window granted (tool_route tool) l = (l, route_handler tool)

-- A request to the router, up to the handler: each of these routes depends on `require_mcp_oauth`.
unfoldable pub mcp_request :
    McpSettings → Option Text → ℕ → ℕ → ℕ → Option ℕ → Endpoint → Limiter → Limiter × Dispatched
unfolding require_mcp_oauth endpoint_dispatch
mcp_request settings token limit now client window endpoint l =
    elim (require_mcp_oauth settings token) [
      | none ↦ (l, dispatch_error 401)
      | some payload ↦ endpoint_dispatch limit now client window payload.scope endpoint l
    ]
