-- ===== src/Mcp.antt =====
-- The MCP server: apps/api/mcp/router.py and apps/api/mcp/scopes.py. Here is what its tools share.
pub mod Redact
pub mod Dispatch
pub mod Tools
pub mod Dispatched
use safe_context.Base.{ℕ, String, List, [], ◌∷◌, Option, none, some, filter, ◌==◌}
use safe_context.Store.{Operation, Outbox, Db}

-- What a SELECT of at most one row finds: none, one, or several, where `scalar_one_or_none` raises.
pub data Found {ℓ} (A : Type ℓ) : Type ℓ where
  absent : Found A
  found : A → Found A
  several : Found A

-- `scalar_one_or_none`
unfoldable pub one_or_none {ℓ} : {A : Type ℓ} → List A → Found A
one_or_none [] = absent
one_or_none (x ∷ []) = found x
one_or_none (x ∷ y ∷ xs) = several

-- `select(Operation).where(Operation.trace_id == trace_id)`
unfoldable pub operation_of_trace : ℕ → Db → Found Operation
unfolding one_or_none
operation_of_trace trace_id db = one_or_none (filter (λ o. o.trace_id == trace_id) db.operations)

-- `select(Outbox).where(Outbox.payload["operation_id"] == id)`
unfoldable pub outbox_of_operation : ℕ → Db → Found Outbox
unfolding one_or_none
outbox_of_operation id db = one_or_none (filter (λ e. e.operation_id == id) db.outbox)
