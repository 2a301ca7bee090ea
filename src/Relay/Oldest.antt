-- ===== src/Relay/Oldest.antt =====
-- What a poll of the relay comes to, told without the relay's own queries and tables.
use text.Mathlib.Text.{◌==◌ as str_eq}
use mathlib.Core.List.{Perm}
use safe_context.Base.{
  ℕ, ◌≡◌, ◌≤◌, refl, sym, ap, ◌∙◌, inl, inr, String, Bool, true, false, not, ◌&&◌, ◌||◌, List, [],
  ◌∷◌, ◌++◌, Option, none, some, arith, any, map, length, min, filter, take, drop, leb, ◌==◌, All,
  AllPairs, is_some, if◌then◌else◌, Bool-cases, sorted_with, sorted_with-perm, sorted_with-IsSorted,
  length-take, length-sorted_with, take-append-drop,
}
use mathlib.Core.Path.{subst}
use safe_context.Store.{
  Outbox, Task, process_scan, process_sanitize, process_classify, process_audit, process_review,
}
use safe_context.Agents.{World}
use safe_context.Relay.{Queue, event_to_queue, get_actor, mark_processed, next_batch, relay_once}
use safe_context.Relay.Delivery.{
  message_for, messages, mark_known, marked, taken, takes_all, Polled, relay_once-Polled,
}

-- The message that the type of an event stands for, with the id of its operation.
abbrev pub task_of : String → ℕ → Option Task
task_of t id =
    if str_eq t "scan_requested" || str_eq t "document.scan_requested"
    then some (process_scan id)
    else if str_eq t "sanitize_requested" || str_eq t "document.sanitize_requested"
    then some (process_sanitize id)
    else if str_eq t "classify_requested" || str_eq t "document.classify_requested"
    then some (process_classify id)
    else if str_eq t "audit_requested"
    then some (process_audit id)
    else if str_eq t "review_requested"
    then some (process_review id)
    else none

-- The messages of the events, in order; an event of unknown type has none.
abbrev pub tasks_of : List Outbox → List Task
tasks_of [] = []
tasks_of (e ∷ es) = elim (task_of e.event_type e.operation_id) [
  | none ↦ tasks_of es
  | some t ↦ t ∷ tasks_of es
]

-- Whether the batch has an event of a known type with the id.
abbrev pub is_sent : List Outbox → ℕ → Bool
is_sent batch id = any (λ e. id == e.id && is_some (task_of e.event_type e.operation_id)) batch

-- The rows, with those processed that the batch sends.
abbrev pub processed_by : List Outbox → List Outbox → List Outbox
processed_by batch = map (λ r. if is_sent batch r.id then record r { processed = true } else r)

-- `batch` and `later` are the unprocessed rows: the batch is in order of creation and as long as the
-- limit allows, and none of its rows is younger than one that has to wait.
pub record IsOldest (batch_size : ℕ) (rows batch later : List Outbox) : Type 0 where
  pub is_all : Perm (batch ++ later) (filter (λ e. not e.processed) rows)
  pub in_order : AllPairs (λ e f. e.created_at ≤ f.created_at) batch
  pub is_older : All (λ e. All (λ f. e.created_at ≤ f.created_at) later) batch
  pub is_full : length batch ≡ min batch_size (length (filter (λ e. not e.processed) rows))

AllPairs-split :
    (R : Outbox → Outbox → Type 0) (xs ys : List Outbox)
    → AllPairs R (xs ++ ys)
    → AllPairs R xs × All (λ x. All (R x) ys) xs
AllPairs-split R [] ys h = (tt, tt)
AllPairs-split R (x ∷ xs) ys h =
    let (here, there) = All-split xs h.0 in
    let (a, b) = AllPairs-split R xs ys h.1 in ((here, a), (there, b))
  where
    All-split : (zs : List Outbox) → All (R x) (zs ++ ys) → All (R x) zs × All (R x) ys
    All-split [] k = (tt, k)
    All-split (z ∷ zs) k = let (a, b) = All-split zs k.1 in ((k.0, a), b)

abbrev before : Outbox → Outbox → Bool
before e f = leb e.created_at f.created_at

next_batch-IsOldest :
    (batch_size : ℕ) (rows : List Outbox)
    → (later : List Outbox) × IsOldest batch_size rows (next_batch batch_size rows) later
unfolding next_batch
next_batch-IsOldest batch_size rows =
    let waiting = filter (λ (e : Outbox). not e.processed) rows in
    let ordered = sorted_with before waiting in
    let whole : take batch_size ordered ++ drop batch_size ordered ≡ ordered =
      take-append-drop batch_size ordered in
    let sorted : AllPairs (λ (e f : Outbox). e.created_at ≤ f.created_at) ordered =
      sorted_with-IsSorted before (λ e f. e.created_at ≤ f.created_at) (λ e f h. ground arith)
        (λ e f h. ground arith) (λ e f g h k. omega arith) waiting in
    let (in_order, is_older) =
      AllPairs-split (λ e f. e.created_at ≤ f.created_at) (take batch_size ordered)
        (drop batch_size ordered)
        (subst (AllPairs (λ (e f : Outbox). e.created_at ≤ f.created_at)) (sym whole) sorted) in
    (
      drop batch_size ordered,
      record {
        is_all = subst (λ l. Perm l waiting) (sym whole) (sorted_with-perm before waiting);
        in_order = in_order;
        is_older = is_older;
        is_full =
            length-take batch_size ordered
            ∙ ap (min batch_size) (length-sorted_with before waiting);
      },
    )

-- The task of an event by way of its queue.
abbrev by_queue : Option Queue → ℕ → Option Task
by_queue none id = none
by_queue (some q) id = some (get_actor q id)

event_to_queue-task_of : (t : String) (id : ℕ) → by_queue (event_to_queue t) id ≡ task_of t id
unfolding event_to_queue get_actor
event_to_queue-task_of t id = elim (Bool-cases scan) [
  | inl a ↦ rw (a) refl
  | inr a ↦ elim (Bool-cases sanitize) [
    | inl b ↦ rw (a, b) refl
    | inr b ↦ elim (Bool-cases classify) [
      | inl c ↦ rw (a, b, c) refl
      | inr c ↦ elim (Bool-cases (str_eq t "audit_requested")) [
        | inl d ↦ rw (a, b, c, d) refl
        | inr d ↦ elim (Bool-cases (str_eq t "review_requested")) [
          | inl e ↦ rw (a, b, c, d, e) refl
          | inr e ↦ rw (a, b, c, d, e) refl
        ]
      ]
    ]
  ]
]
  where
    scan : Bool
    scan = str_eq t "scan_requested" || str_eq t "document.scan_requested"

    sanitize : Bool
    sanitize = str_eq t "sanitize_requested" || str_eq t "document.sanitize_requested"

    classify : Bool
    classify = str_eq t "classify_requested" || str_eq t "document.classify_requested"

messages-tasks_of : (es : List Outbox) → messages es ≡ tasks_of es
messages-tasks_of [] = refl
messages-tasks_of (e ∷ es) =
    by_type (event_to_queue e.event_type) (task_of e.event_type e.operation_id)
      (event_to_queue-task_of e.event_type e.operation_id) (messages-tasks_of es)
  where
    by_type :
        (q : Option Queue) (t : Option Task)
        → by_queue q e.operation_id ≡ t
        → messages es ≡ tasks_of es
        → message_for e q ++ messages es ≡ elim t [ none ↦ tasks_of es | some m ↦ m ∷ tasks_of es ]
    by_type none none h k = k
    by_type none (some m) h k = absurd (cc h)
    by_type (some q) none h k = absurd (cc h)
    by_type (some q) (some m) h k = cc

abbrev flag : Bool → Outbox → Outbox
flag b r = if b then record r { processed = true } else r

marked-processed_by : (es rows : List Outbox) → marked es rows ≡ processed_by es rows
marked-processed_by [] [] = refl
marked-processed_by [] (r ∷ rows) = ap (λ l. r ∷ l) (marked-processed_by [] rows)
marked-processed_by (e ∷ es) rows =
    marked-processed_by es (mark_known e (event_to_queue e.event_type) rows)
    ∙ by_type (event_to_queue e.event_type) (task_of e.event_type e.operation_id)
        (event_to_queue-task_of e.event_type e.operation_id) rows
  where
    unknown : (hit sent : Bool) → sent ≡ ((hit && false) || sent)
    unknown true sent = refl
    unknown false sent = refl

    twice : (sent : Bool) (r : Outbox) → flag sent (flag true r) ≡ flag true r
    twice true r = refl
    twice false r = refl

    by_row :
        (hit : Bool) (r : Outbox)
        → flag (is_sent es (flag hit r).id) (flag hit r) ≡ flag ((hit && true) || is_sent es r.id) r
    by_row true r = twice (is_sent es r.id) r
    by_row false r = refl

    by_type :
        (q : Option Queue) (t : Option Task)
        → by_queue q e.operation_id ≡ t
        → (rs : List Outbox)
        → processed_by es (mark_known e q rs)
          ≡ map (λ r. flag ((r.id == e.id && is_some t) || is_sent es r.id) r) rs
    by_type none none h [] = refl
    by_type (some q) (some m) h [] = refl
    by_type none (some m) h rs = absurd (cc h)
    by_type (some q) none h rs = absurd (cc h)
    by_type none none h (r ∷ rs) =
        ap (λ b. flag b r ∷ processed_by es rs) (unknown (r.id == e.id) (is_sent es r.id))
        ∙ ap (λ l. flag ((r.id == e.id && false) || is_sent es r.id) r ∷ l) (by_type none none h rs)
    by_type (some q) (some m) h (r ∷ rs) =
        ap (λ f. f ∷ processed_by es (mark_processed e rs)) (by_row (r.id == e.id) r)
        ∙ ap (λ l. flag ((r.id == e.id && true) || is_sent es r.id) r ∷ l)
            (by_type (some q) (some m) h rs)

-- What a poll of the relay comes to: the batch that it takes, and then whether the broker takes all of it.
abbrev pub Relayed : (Task → Bool) → ℕ → World → World × Option ℕ → Type 0
Relayed sends batch_size w (w', none) =
    (batch later : List Outbox) × IsOldest batch_size w.db.outbox batch later
    × (takes_all sends (tasks_of batch) ≡ false)
    × (w'.db ≡ w.db)
    × (w'.queue ≡ w.queue ++ taken sends (tasks_of batch))
Relayed sends batch_size w (w', some n) =
    (batch later : List Outbox) × IsOldest batch_size w.db.outbox batch later
    × (takes_all sends (tasks_of batch) ≡ true)
    × (w'.queue ≡ w.queue ++ tasks_of batch)
    × (w'.db ≡ record w.db { outbox = processed_by batch w.db.outbox })
    × (n ≡ length (tasks_of batch))

-- A poll takes the oldest unprocessed rows, `batch_size` of them or all if they are fewer. Where the
-- broker takes every message for a known type, the queue gets exactly these in the rows' order, exactly the
-- rows with their ids are marked processed, a row of an unknown type is left as it was, and the result is
-- the number of messages. Where the broker refuses one, the poll raises: the database is as before, though
-- the messages up to the refused one have been sent.
pub relay_once-Relayed :
    (sends : Task → Bool) (batch_size : ℕ) (w : World)
    → Relayed sends batch_size w (relay_once sends batch_size w)
relay_once-Relayed sends batch_size w =
    by_result (relay_once sends batch_size w) (relay_once-Polled sends batch_size w)
  where
    by_result : (r : World × Option ℕ) → Polled sends batch_size w r → Relayed sends batch_size w r
    by_result (w', none) (a, d, q) =
        let batch = next_batch batch_size w.db.outbox in
        let (later, oldest) = next_batch-IsOldest batch_size w.db.outbox in
        let same = messages-tasks_of batch in
        (
          batch,
          later,
          oldest,
          ap (takes_all sends) (sym same) ∙ a,
          d,
          q ∙ ap (λ l. w.queue ++ taken sends l) same,
        )
    by_result (w', some n) (a, q, d, c) =
        let batch = next_batch batch_size w.db.outbox in
        let (later, oldest) = next_batch-IsOldest batch_size w.db.outbox in
        let same = messages-tasks_of batch in
        (
          batch,
          later,
          oldest,
          ap (takes_all sends) (sym same) ∙ a,
          q ∙ ap (λ l. w.queue ++ l) same,
          d ∙ ap (λ l. record w.db { outbox = l }) (marked-processed_by batch w.db.outbox),
          c ∙ ap length same,
        )
