-- ===== src/Lib.antt =====
-- SafeContext finds secrets and personal data in documents, redacts them, has people review what
-- is critical, and keeps signed, chained evidence of each operation.
--
-- The parts and how they interact. The API stores an operation, its document and an outbox row.
-- The relay (Relay) polls the outbox and sends a message to an actor's queue. The detector actor
-- (Agents/Detector) runs two detectors, merges their findings (Detect), stores them, and sends the
-- operation to the reviewer actor (Agents/Reviewer) or to the sanitizer actor (Agents/Sanitizer),
-- which redacts the document (Sanitize) and sends the operation to the auditor actor
-- (Agents/Auditor) and to the rescan (Agents/Rescan). The auditor archives the document and seals
-- the operation into the tenant's chain (Evidence). The classifier actor (Agents/Classifier) logs
-- a level. A reviewer approves or rejects over HTTP (Review), which seals too. The scan endpoint
-- (Scan) and the tools for agents (Mcp) are where operations come in; the audit export (Audit) and
-- its verifier for use without the system (Audit/Offline) are where evidence goes out, the events
-- for a SIEM (Siem) too. A purge (Retention) deletes what is old.
--
-- Files and code:
-- - Base: tests, lists and stable sorting, as the code uses Python's.
-- - Store: the tables of apps/api/db/models and apps/api/db/enums.py; Finding of
-- apps/workers/core/detector.py.
-- - Sanitize: _apply_redactions of apps/workers/agents/sanitizer_agent.py. Masked is the
-- specification, position by position.
-- - Detect: _merge_findings of apps/workers/agents/detector_agent.py, RegexDetector.detect of
-- apps/workers/ml/regex_detector.py.
-- - Evidence, with Json and Seal: apps/api/db/evidence.py, and verify_chain and
-- seal_operation_with_settings of apps/api/core/chain.py. Chained, Tamper, Edits, Unsealed,
-- Replaced and Sealed reason about the chain, Literal and Canonical about the text that is hashed.
-- - Agents: the actors of apps/workers/agents with get_session of apps/workers/core/db.py and put
-- of apps/workers/adapters/s3_storage.py. Escalation, Completion, Redelivery, Sanitized, Levels,
-- Unchanged and Archive reason about them.
-- - Relay: relay_once and _get_actor of apps/workers/core/outbox_relay.py; Delivery reasons about
-- the loop, Oldest about a poll as seen from outside.
-- - Review: approve_finding and reject_finding of apps/api/api/v1/review.py with require_reviewer
-- and check_self_approval of apps/api/core/auth_oidc.py.
-- - RateLimit: check_rate_limit of apps/api/core/auth_oidc.py; Sliding reasons about it.
-- - Quotas: apps/api/core/quotas.py.
-- - Scan: apps/api/api/v1/scan.py; Stored and Accepted reason about how a request ends, Relayed
-- about the way of an accepted one through the outbox, Detected about what the detector then
-- decides.
-- - Mcp: apps/api/mcp/router.py, scopes.py and auth.py. Redact is tool_sanitize, Dispatch the
-- authentication, the routes and the dispatch, Tools the tools that classify and approve;
-- Redact/Covering and Dispatched reason about them.
-- - Retention: apps/api/core/retention_gdpr.py and trigger_purge of
-- apps/api/api/v1/admin_retention.py; Purged, Certified, Parts and Broken reason about the rows,
-- the certificate and the chain.
-- - Audit: apps/api/api/v1/audit.py and apps/api/core/vault_transit.py; Anchors has the anchors,
-- Offline is apps/tools/verify_offline.py; Keys, Verifies, Anchors/Signed and Anchors/Live reason
-- about them.
-- - Siem, with Formats, Sent and Events: apps/api/core/siem.py; Escaping and Emitted reason about
-- it.
-- - Waivers: apps/api/api/v1/waivers.py as steps; Revoked reasons about sequences of them.
-- - Policies: apps/workers/core/opa_client.py; Polled reasons about sequences of polls.
-- - Presidio: the filter of apps/workers/ml/presidio_detector.py. Strings has the methods of str
-- that it and the tools use.
-- - Examples: the theorems at concrete documents, rows and services.
--
-- How state is modelled. The tables are lists of rows in one record Db; a World adds the messages
-- that wait and the objects that were written. An actor is a function from a world to a world and
-- an outcome. A session is one transaction: where an actor raises before its commit, the database
-- is as before, but what it wrote to the object store stays; where a message is refused behind the
-- commit, the rows stay. An audit that overlaps with others is two steps, its upload and its
-- commit (Agents/Archive). Handlers of the API get the database as of their first read and as of
-- their transaction. Texts are lists of code points, UUIDs and moments are numbers, a confidence
-- is counted in ten-thousandths. All loops are recursion on lists; only the digits of a number run
-- on fuel, one more than the number, which is enough as each step divides by ten.
--
-- Parameters, for what is not in the repository: SHA-256 (of which only the length of a digest is
-- assumed) and isoformat (Host), Vault, the pattern engine, Presidio, OPA, the object store, the
-- broker, the replies of Redis, the HMAC of a certificate or an export, time stamps, the
-- verification of a signature by Vault or by the package cryptography, the decoding of a token,
-- the network of a SIEM, the readings of the clock, whether a commit goes through where that is
-- told apart, and whether db.begin() opens a transaction on a session in use.
--
-- Not modelled: a commit that fails, but for the auditor's and the scan endpoint's, two relay
-- processes at a time, logging and metrics, the texts of errors, the ten patterns of the regex
-- detector, the JSON form of a response, tool_scan of the MCP server (it writes into its event the
-- id of a row that has none yet), and the parts of the program that only list or administer:
-- compliance reports, tenants, the retention of stored objects, the pages.
pub mod Base
pub mod Store
pub mod Sanitize
pub mod Detect
pub mod Evidence
pub mod Agents
pub mod Relay
pub mod Review
pub mod RateLimit
pub mod Quotas
pub mod Mcp
pub mod Retention
pub mod Scan
pub mod Audit
pub mod Siem
pub mod Strings
pub mod Presidio
pub mod Waivers
pub mod Policies
pub mod Examples
