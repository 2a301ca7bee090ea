-- ===== src/Mcp/Tools.antt =====
-- The MCP tools that classify and approve: apps/api/mcp/router.py. The commit of a transaction goes through.

use safe_context.Base.{
  ℕ, ◌+◌, Bool, true, false, ◌&&◌, List, [], ◌∷◌, ◌++◌, none, some, any, filter, take, ltb, ◌==◌,
  if◌then◌else◌,
}
use safe_context.Strings.{contains}
use safe_context.Store.{
  Text, Operation, completed, rejected, ActorType, Finding, Redaction, mask, Db,
}
use safe_context.Agents.{is_escalated}
use safe_context.Agents.Classifier.{Level, restricted, confidential, internal}
use safe_context.Review.{Backend, seal_with_settings}
use safe_context.Scan.{default_tenant_id}
use safe_context.Mcp.{Found, absent, found, several, one_or_none}
use safe_context.Mcp.Dispatch.{Payload}

-- What `tool_classify` and `tool_approve` need: `str.strip`, `str.lower`, `uuid.UUID` of 32 hexadecimal
-- digits, and what sealing needs.
pub record ToolHost : Type 0 where
  pub strip : Text → Text
  pub lower : Text → Text
  pub uuid_of_hex : Text → ℕ
  pub backend : Backend
  pub now : ℕ

-- `text.split("\n\n")`
unfoldable pub split_blank : Text → List Text
split_blank [] = [] ∷ []
split_blank (c ∷ []) = (c ∷ []) ∷ []
split_blank (c ∷ d ∷ s) =
    let skipped = split_blank s in
    let rest = split_blank (d ∷ s) in if c == 10 && d == 10 then [] ∷ skipped else push c rest
  where
    push : ℕ → List Text → List Text
    push c [] = (c ∷ []) ∷ []
    push c (x ∷ xs) = (c ∷ x) ∷ xs

abbrev pub credential_keys : List Text
credential_keys =
    (b'p' ∷ b'a' ∷ b's' ∷ b's' ∷ b'w' ∷ b'o' ∷ b'r' ∷ b'd' ∷ [])
    ∷ (b's' ∷ b'e' ∷ b'c' ∷ b'r' ∷ b'e' ∷ b't' ∷ [])
    ∷ (b'a' ∷ b'p' ∷ b'i' ∷ b'_' ∷ b'k' ∷ b'e' ∷ b'y' ∷ [])
    ∷ (b't' ∷ b'o' ∷ b'k' ∷ b'e' ∷ b'n' ∷ [])
    ∷ (b's' ∷ b's' ∷ b'n' ∷ [])
    ∷ (b'c' ∷ b'r' ∷ b'e' ∷ b'd' ∷ b'i' ∷ b't' ∷ b' ' ∷ b'c' ∷ b'a' ∷ b'r' ∷ b'd' ∷ [])
    ∷ []

abbrev pub confidential_keys : List Text
confidential_keys =
    (b'c' ∷ b'o' ∷ b'n' ∷ b'f' ∷ b'i' ∷ b'd' ∷ b'e' ∷ b'n' ∷ b't' ∷ b'i' ∷ b'a' ∷ b'l' ∷ [])
    ∷ (b'i' ∷ b'n' ∷ b't' ∷ b'e' ∷ b'r' ∷ b'n' ∷ b'a' ∷ b'l' ∷ b' ' ∷ b'o' ∷ b'n' ∷ b'l' ∷ b'y'
        ∷ [])
    ∷ (b'd' ∷ b'o' ∷ b' ' ∷ b'n' ∷ b'o' ∷ b't' ∷ b' ' ∷ b's' ∷ b'h' ∷ b'a' ∷ b'r' ∷ b'e' ∷ [])
    ∷ (b'p' ∷ b'i' ∷ b'i' ∷ [])
    ∷ (b'p' ∷ b'e' ∷ b'r' ∷ b's' ∷ b'o' ∷ b'n' ∷ b'a' ∷ b'l' ∷ [])
    ∷ []

abbrev pub internal_keys : List Text
internal_keys =
    (b'i' ∷ b'n' ∷ b't' ∷ b'e' ∷ b'r' ∷ b'n' ∷ b'a' ∷ b'l' ∷ [])
    ∷ (b'd' ∷ b'r' ∷ b'a' ∷ b'f' ∷ b't' ∷ [])
    ∷ (b'n' ∷ b'o' ∷ b't' ∷ b' ' ∷ b'f' ∷ b'o' ∷ b'r' ∷ b' ' ∷ b'd' ∷ b'i' ∷ b's' ∷ b't' ∷ b'r'
        ∷ b'i' ∷ b'b' ∷ b'u' ∷ b't' ∷ b'i' ∷ b'o' ∷ b'n' ∷ [])
    ∷ []

-- `_LEVEL_ORDER`
unfoldable pub level_order : Level → ℕ
level_order restricted = 3
level_order confidential = 2
level_order internal = 1
level_order Level.public = 0

-- The level of one section, in lower case.
unfoldable pub section_level : Text → Level
unfolding contains
section_level lower =
    if any (λ k. contains k lower) credential_keys
    then restricted
    else if any (λ k. contains k lower) confidential_keys
    then confidential
    else if any (λ k. contains k lower) internal_keys
    then internal
    else Level.public

-- The sections of a document: its paragraphs that are not blank, or all of it.
unfoldable pub paragraphs_of : (Text → Text) → Text → List Text
unfolding split_blank
paragraphs_of strip document = or_all (stripped (split_blank document))
  where
    stripped : List Text → List Text
    stripped [] = []
    stripped (p ∷ ps) = elim (strip p) [ [] ↦ stripped ps | c ∷ cs ↦ (c ∷ cs) ∷ stripped ps ]

    or_all : List Text → List Text
    or_all [] = document ∷ []
    or_all (p ∷ ps) = p ∷ ps

-- The loop over the sections: their levels, and the highest one so far.
unfoldable pub classify_loop : (Text → Text) → Level → List Text → Level × List Level
unfolding section_level level_order
classify_loop lower max_level [] = (max_level, [])
classify_loop lower max_level (p ∷ ps) =
    let level = section_level (lower p) in
    let r =
      classify_loop lower
        (if ltb (level_order max_level) (level_order level) then level else max_level) ps in
    (r.0, level ∷ r.1)

-- `uuid.UUID(sha256(...)[:32])`
abbrev pub agent_id : ToolHost → Text → ℕ
agent_id h token = h.uuid_of_hex (take 32 (h.backend.host.sha256 token))

-- The row that `tool_classify` records.
unfoldable pub classified_operation : ToolHost → Payload → ℕ → Text → Operation
classified_operation h payload id document = record {
  id = id;
  tenant_id = elim payload.tenant_id [ none ↦ default_tenant_id | some t ↦ t ];
  trace_id = id + 1;
  actor_id = agent_id h payload.sub;
  actor_type = ActorType.mcp_agent;
  document_id = id + 2;
  artifact_digest = h.backend.host.sha256 document;
  policy_version = "1.0.0";
  status = completed;
  sanitized_text = none;
  created_at = h.now;
  completed_at = none;
  chain_hash = none;
  event_signature = none;
  event_signed_at = none;
  signing_key_version = none;
}

-- `tool_classify`: the document's level, and the level of each section.
unfoldable pub tool_classify : ToolHost → Payload → Text → Db → Db × (Level × List Level)
unfolding classify_loop paragraphs_of classified_operation seal_with_settings
tool_classify h payload document db =
    let op = classified_operation h payload db.next_id document in
    let added = record db { operations = db.operations ++ (op ∷ []); next_id = db.next_id + 3 } in
    (
      seal_with_settings h.backend h.now op added,
      classify_loop h.lower Level.public (paragraphs_of h.strip document),
    )

-- The tool's output, or the status of the `HTTPException`.
pub data ApproveReply : Type 0 where
  recorded : (trace_id : ℕ) → ApproveReply
  approve_error : ℕ → ApproveReply

-- The two transactions, on the row that was read; its columns are changed, then it is sealed.
unfoldable pub decide : ToolHost → ℕ → Bool → Finding → Operation → Db → Db
unfolding seal_with_settings
decide h agent true f op db =
    let redaction : Redaction = record {
      finding_id = f.id;
      operation_id = op.id;
      redaction_type = mask;
      policy_version = op.policy_version;
      approved_by = none;
      approval_trace_id = none;
      approved_by_agent_id = some agent;
    } in
    seal_with_settings h.backend h.now (record op { status = completed; completed_at = some h.now })
      (record db { redactions = db.redactions ++ (redaction ∷ []) })
decide h agent false f op db =
    seal_with_settings h.backend h.now (record op { status = rejected; completed_at = some h.now })
      db

approve_operation : ToolHost → ℕ → Bool → Finding → Found Operation → Db → Db × ApproveReply
approve_operation h agent approve f absent db = (db, approve_error 409)
approve_operation h agent approve f several db = (db, approve_error 500)
approve_operation h agent approve f (found op) db =
    if is_escalated op.status
    then if h.backend.begins true
      then (decide h agent approve f op db, recorded op.trace_id)
      else (db, approve_error 500)
    else (db, approve_error 409)

approve_found : ToolHost → ℕ → Bool → Found Finding → Db → Db × ApproveReply
approve_found h agent approve absent db = (db, approve_error 404)
approve_found h agent approve several db = (db, approve_error 500)
approve_found h agent approve (found f) db =
    approve_operation h agent approve f
      (one_or_none (filter (λ o. o.id == f.operation_id) db.operations)) db

-- `tool_approve`; `agent` is `uuid5` of the client id in the request.
unfoldable pub tool_approve : ToolHost → ℕ → Bool → ℕ → Db → Db × ApproveReply
unfolding approve_found approve_operation decide one_or_none
tool_approve h agent approve finding_id db =
    approve_found h agent approve (one_or_none (filter (λ f. f.id == finding_id) db.findings)) db
