-- ===== src/Relay/Delivery.antt =====
-- Which messages the relay sends, and which rows it marks.
use safe_context.Base.{
  ℕ, ◌+◌, ◌≡◌, refl, sym, ap, ◌∙◌, inl, inr, Bool, true, false, ◌&&◌, List, [], ◌∷◌, ◌++◌, Option,
  none, some, arith, length, if◌then◌else◌, Bool-cases,
}
use mathlib.Core.List.{append_assoc, append-nil}
use safe_context.Store.{Outbox, Task}
use safe_context.Agents.{World}
use safe_context.Relay.{
  Queue, event_to_queue, get_actor, Progress, Batch, finished, aborted, mark_processed, count_error,
  relayed_event, relay_message, relay_event, relay_events, next_batch, close_batch, relay_once,
}

-- The message for an event whose type is known.
abbrev pub message_for : Outbox → Option Queue → List Task
message_for e none = []
message_for e (some q) = get_actor q e.operation_id ∷ []

-- The messages for the events, those of unknown type left out.
abbrev pub messages : List Outbox → List Task
messages [] = []
messages (e ∷ es) = message_for e (event_to_queue e.event_type) ++ messages es

abbrev pub mark_known : Outbox → Option Queue → List Outbox → List Outbox
mark_known e none rows = rows
mark_known e (some q) rows = mark_processed e rows

-- The rows with every event of a known type marked, in turn.
abbrev pub marked : List Outbox → List Outbox → List Outbox
marked [] rows = rows
marked (e ∷ es) rows = marked es (mark_known e (event_to_queue e.event_type) rows)

-- The first messages that the broker takes, up to one that it refuses.
abbrev pub taken : (Task → Bool) → List Task → List Task
taken sends [] = []
taken sends (t ∷ ts) = if sends t then t ∷ taken sends ts else []

abbrev pub takes_all : (Task → Bool) → List Task → Bool
takes_all sends [] = true
takes_all sends (t ∷ ts) = sends t && takes_all sends ts

-- What the loop comes to from `p`, for the messages it is to send and the rows it is to leave.
Delivers : (Task → Bool) → List Task → List Outbox → Progress → Batch → Type 0
Delivers sends ms rows p (finished p') =
    (takes_all sends ms ≡ true)
    × (p'.queue ≡ p.queue ++ ms)
    × (p'.outbox ≡ rows)
    × (p'.relayed ≡ p.relayed + length ms)
Delivers sends ms rows p (aborted p') =
    (takes_all sends ms ≡ false) × (p'.queue ≡ p.queue ++ taken sends ms)

more :
    (sends : Task → Bool) (e : Outbox) (t : Task) (ms : List Task) (rows : List Outbox)
    (p : Progress) (b : Batch)
    → sends t ≡ true
    → Delivers sends ms rows (relayed_event e t p) b
    → Delivers sends (t ∷ ms) rows p b
unfolding Delivers
more sends e t ms rows p (finished p') s (a, q, o, n) =
    rw (s) (a, q ∙ append_assoc p.queue (t ∷ []) ms, o, omega arith)
more sends e t ms rows p (aborted p') s (a, q) =
    rw (s) (a, q ∙ append_assoc p.queue (t ∷ []) (taken sends ms))

relay_message-Delivers :
    (sends : Task → Bool) (e : Outbox) (t : Task) (ms : List Task) (rows : List Outbox)
    (rest : Progress → Batch) (p : Progress)
    → Delivers sends ms rows (relayed_event e t p) (rest (relayed_event e t p))
    → Delivers sends (t ∷ ms) rows p (relay_message sends e t rest p)
unfolding relay_message Delivers
relay_message-Delivers sends e t ms rows rest p h = elim (Bool-cases (sends t)) [
  | inl s ↦ rw (s, relay_message) (more sends e t ms rows p (rest (relayed_event e t p)) s h)
  | inr s ↦ rw (s, relay_message) (rw (s) (refl, sym (append-nil p.queue)))
]

unknown :
    (sends : Task → Bool) (ms : List Task) (rows : List Outbox) (p : Progress) (b : Batch)
    → Delivers sends ms rows (count_error p) b
    → Delivers sends ms rows p b
unfolding Delivers
unknown sends ms rows p (finished p') h = h
unknown sends ms rows p (aborted p') h = h

relay_event-Delivers :
    (sends : Task → Bool) (e : Outbox) (o : Option Queue) (es : List Outbox)
    (rest : Progress → Batch) (p : Progress)
    → ((p' : Progress) → Delivers sends (messages es) (marked es p'.outbox) p' (rest p'))
    → Delivers sends
        (message_for e o ++ messages es)
        (marked es (mark_known e o p.outbox))
        p
        (relay_event sends e o rest p)
unfolding relay_event
relay_event-Delivers sends e none es rest p h =
    unknown sends (messages es) (marked es p.outbox) p (rest (count_error p)) (h (count_error p))
relay_event-Delivers sends e (some q) es rest p h =
    let t = get_actor q e.operation_id in
    let rows = marked es (mark_processed e p.outbox) in
    relay_message-Delivers sends e t (messages es) rows rest p (h (relayed_event e t p))

relay_events-Delivers :
    (sends : Task → Bool) (es : List Outbox) (p : Progress)
    → Delivers sends (messages es) (marked es p.outbox) p (relay_events sends es p)
unfolding relay_events Delivers
relay_events-Delivers sends [] p = (refl, sym (append-nil p.queue), refl, omega arith)
relay_events-Delivers sends (e ∷ es) p =
    relay_event-Delivers sends e (event_to_queue e.event_type) es (relay_events sends es) p
      (relay_events-Delivers sends es)

-- What a poll comes to, in terms of the batch and the updates of the loop.
abbrev pub Polled : (Task → Bool) → ℕ → World → World × Option ℕ → Type 0
Polled sends batch_size w (w', none) =
    let sent = messages (next_batch batch_size w.db.outbox) in
    (takes_all sends sent ≡ false) × (w'.db ≡ w.db) × (w'.queue ≡ w.queue ++ taken sends sent)
Polled sends batch_size w (w', some n) =
    let batch = next_batch batch_size w.db.outbox in
    (takes_all sends (messages batch) ≡ true)
    × (w'.queue ≡ w.queue ++ messages batch)
    × (w'.db ≡ record w.db { outbox = marked batch w.db.outbox })
    × (n ≡ length (messages batch))

pub relay_once-Polled :
    (sends : Task → Bool) (batch_size : ℕ) (w : World)
    → Polled sends batch_size w (relay_once sends batch_size w)
unfolding relay_once close_batch Delivers
relay_once-Polled sends batch_size w =
    let batch = next_batch batch_size w.db.outbox in
    let start : Progress = record {
      outbox = w.db.outbox;
      queue = w.queue;
      relayed = 0;
      errors = 0;
    } in
    closes (relay_events sends batch start) (relay_events-Delivers sends batch start)
  where
    closes :
        (b : Batch)
        → Delivers sends
            (messages (next_batch batch_size w.db.outbox))
            (marked (next_batch batch_size w.db.outbox) w.db.outbox)
            (record { outbox = w.db.outbox; queue = w.queue; relayed = 0; errors = 0 })
            b
        → Polled sends batch_size w (close_batch b w)
    closes (finished p') (a, q, o, n) =
        (a, q, ap (λ rows. record w.db { outbox = rows }) o, n ∙ omega arith)
    closes (aborted p') (a, q) = (a, refl, q)
