-- ===== src/Mcp/Dispatched.antt =====
-- Which calls of the tools reach a handler.
use text.Mathlib.Text.{◌==◌ as str_eq}
use safe_context.Base.{
  ℕ, ◌≡◌, ◌⊎◌, String, Bool, true, false, List, Option, some, any, if◌then◌else◌,
}
use safe_context.RateLimit.{Limiter, check_rate_limit}
use safe_context.Mcp.Dispatch.{
  tool_scope, is_supported, Dispatched, to_scan, to_sanitize, to_classify, to_approve,
  dispatch_error, handler_of, check_rate_limit_redis, to_audit, to_policy_get, Endpoint, call,
  tool_route,
}
use safe_context.Store.{Text}

abbrev pub is_handler : Dispatched → Bool
is_handler (dispatch_error status) = false
is_handler to_scan = true
is_handler to_sanitize = true
is_handler to_classify = true
is_handler to_audit = true
is_handler to_policy_get = true
is_handler to_approve = true

-- What holds of a call with a handler: the version, the scope among those of the token, and that the tool
-- that approves is not called under the old version.
abbrev pub Allowed : String → String → List String → Dispatched → Type 0
Allowed tool version granted d =
    (is_supported version ≡ true)
    × ((required : String) × (tool_scope tool ≡ some required)
        × (any (λ s. str_eq s required) granted ≡ true))
    × (d ≡ handler_of tool version)

-- The three guards in front of a handler.
abbrev guarded : Bool → Bool → Bool → Dispatched → Dispatched
guarded a b c d =
    if a
    then if b then if c then d else dispatch_error 403 else dispatch_error 404
    else dispatch_error 400

-- The path of a route names the handler's tool.
abbrev pub IsOwn : String → Dispatched → Type 0
IsOwn tool to_scan = str_eq tool "safecontext.scan" ≡ true
IsOwn tool to_sanitize = str_eq tool "safecontext.sanitize" ≡ true
IsOwn tool to_classify = str_eq tool "safecontext.classify" ≡ true
IsOwn tool to_audit = str_eq tool "safecontext.audit" ≡ true
IsOwn tool to_policy_get = str_eq tool "safecontext.policy.get" ≡ true
IsOwn tool to_approve = str_eq tool "safecontext.approve" ≡ true
IsOwn tool (dispatch_error status) = status ≡ 404

-- What holds of a request whose payload was accepted and that reached a handler, by its route.
abbrev pub Reached :
    ℕ → ℕ → ℕ → Option ℕ → List String → Endpoint → Limiter → Limiter × Dispatched → Type 0
Reached limit now client window granted (call tool version) l (l', d) =
    ((check_rate_limit_redis limit window ≡ true)
      ⊎ ((check_rate_limit limit now client l).1 ≡ true))
    × Allowed tool version granted d
Reached limit now client window granted (tool_route tool) l (l', d) = (l' ≡ l) × IsOwn tool d
