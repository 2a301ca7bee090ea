-- ===== src/Relay.antt =====
-- The outbox relay: `relay_once` and `_get_actor` of apps/workers/core/outbox_relay.py. One process
-- runs it, so no row is locked by another.
pub mod Delivery
pub mod Oldest
use text.Mathlib.Text.{◌==◌ as str_eq}
use safe_context.Base.{
  ℕ, suc, ◌+◌, String, Bool, true, false, not, ◌||◌, List, [], ◌∷◌, ◌++◌, Option, none, some,
  filter, take, update_where, ◌==◌, if◌then◌else◌, sorted_by, sorted_with,
}
use safe_context.Store.{
  Outbox, Db, Task, process_scan, process_sanitize, process_classify, process_audit, process_review,
}
use safe_context.Agents.{World}

-- The Dramatiq queues
pub data Queue : Type 0 where
  safecontext_scan safecontext_sanitize safecontext_classify safecontext_audit safecontext_review :
      Queue

-- `_EVENT_TO_QUEUE.get(event_type)`
unfoldable pub event_to_queue : String → Option Queue
event_to_queue t =
    if str_eq t "scan_requested" || str_eq t "document.scan_requested"
    then some safecontext_scan
    else if str_eq t "sanitize_requested" || str_eq t "document.sanitize_requested"
    then some safecontext_sanitize
    else if str_eq t "classify_requested" || str_eq t "document.classify_requested"
    then some safecontext_classify
    else if str_eq t "audit_requested"
    then some safecontext_audit
    else if str_eq t "review_requested"
    then some safecontext_review
    else none

-- `_get_actor`: every queue of the table has an actor.
unfoldable pub get_actor : Queue → ℕ → Task
get_actor safecontext_scan = process_scan
get_actor safecontext_sanitize = process_sanitize
get_actor safecontext_classify = process_classify
get_actor safecontext_audit = process_audit
get_actor safecontext_review = process_review

-- What the loop has done so far: the rows, the messages, and the two counters.
pub record Progress : Type 0 where
  pub outbox : List Outbox
  pub queue : List Task
  pub relayed : ℕ
  pub errors : ℕ

pub data Batch : Type 0 where
  finished aborted : Progress → Batch

abbrev pub mark_processed : Outbox → List Outbox → List Outbox
mark_processed e = update_where (λ r. r.id == e.id) (λ r. record r { processed = true })

abbrev pub count_error : Progress → Progress
count_error p = record p { errors = p.errors + 1 }

-- One event whose queue is known: enqueue, then mark.
abbrev pub relayed_event : Outbox → Task → Progress → Progress
relayed_event e t p = record p {
  outbox = mark_processed e p.outbox;
  queue = p.queue ++ (t ∷ []);
  relayed = p.relayed + 1;
}

-- The message of one event: a refused one is counted and stops the loop.
unfoldable pub relay_message : (Task → Bool) → Outbox → Task → (Progress → Batch) → Progress → Batch
relay_message sends e t rest p =
    if sends t then rest (relayed_event e t p) else aborted (count_error p)

-- One round of the loop; `rest` is what follows it.
unfoldable pub relay_event :
    (Task → Bool) → Outbox → Option Queue → (Progress → Batch) → Progress → Batch
unfolding relay_message get_actor
relay_event sends e none rest p = rest (count_error p)
relay_event sends e (some q) rest p = relay_message sends e (get_actor q e.operation_id) rest p

-- The loop over the events of a batch; `sends` says whether the broker takes a message.
unfoldable pub relay_events : (Task → Bool) → List Outbox → Progress → Batch
unfolding event_to_queue relay_event
relay_events sends [] p = finished p
relay_events sends (e ∷ es) p =
    relay_event sends e (event_to_queue e.event_type) (relay_events sends es) p

-- The batch: the oldest rows that are not processed.
unfoldable pub next_batch : ℕ → List Outbox → List Outbox
unfolding sorted_with
next_batch batch_size rows =
    take batch_size (sorted_by (λ e. e.created_at) (filter (λ e. not e.processed) rows))

-- The commit, or the rollback of the rows where the loop raised: what was sent stays sent.
unfoldable pub close_batch : Batch → World → World × Option ℕ
close_batch (finished p) w =
    let db = w.db in
    (record w { db = record db { outbox = p.outbox }; queue = p.queue }, some p.relayed)
close_batch (aborted p) w = (record w { queue = p.queue }, none)

-- `relay_once`: the number of events relayed, or `none` where it raised.
unfoldable pub relay_once : (Task → Bool) → ℕ → World → World × Option ℕ
unfolding relay_events next_batch close_batch
relay_once sends batch_size w =
    let start : Progress = record {
      outbox = w.db.outbox;
      queue = w.queue;
      relayed = 0;
      errors = 0;
    } in
    close_batch (relay_events sends (next_batch batch_size w.db.outbox) start) w
