-- ===== src/Scan/Relayed.antt =====
-- An accepted scan reaches the detector: the endpoint, the outbox and the relay together.
use text.Mathlib.Text.{◌==◌ as str_eq}
use safe_context.Base.{
  ℕ, ◌+◌, ◌≡◌, ◌≤◌, refl, ap, ◌∙◌, inl, inr, Bool, true, false, not, ◌&&◌, ◌||◌, List, [], ◌∷◌,
  ◌++◌, Option, none, some, arith, any, ==_refl, any-append, any-filter, any-sorted_with,
  length-sorted_with, filter, take_all, length, leb, ◌==◌, Bool-cases, sorted_with,
}
use mathlib.Core.Path.{subst}
use safe_context.Store.{Text, Outbox, Task, process_scan}
use safe_context.Evidence.{Host}
use safe_context.Agents.{World}
use safe_context.Relay.{event_to_queue, get_actor, next_batch, relay_once}
use safe_context.Relay.Delivery.{messages, message_for, Polled, takes_all, relay_once-Polled}
use safe_context.Scan.{
  Tokens, Actor, ScanRequest, ScanReply, scan_error, scan_result, Api, Situation,
  resolve_scan_actor, resolved_version, reuses, scan_event, persist, scan,
}
use safe_context.Scan.Stored.{StoredEnds, is_answered_by, scan-StoredEnds}

-- Whether the message is the scan of that operation.
abbrev pub is_scan_of : ℕ → Task → Bool
is_scan_of id (process_scan k) = k == id
is_scan_of id _ = false

-- Whether the event asks for that scan.
abbrev asks_scan : ℕ → Outbox → Bool
asks_scan id e = e.operation_id == id && str_eq e.event_type "scan_requested"

or_true : (b : Bool) → (b || true) ≡ true
or_true true = refl
or_true false = refl

pub any-and_false {ℓ} :
    {A : Type ℓ} (p q : A → Bool) (xs : List A)
    → any p xs ≡ false
    → any (λ x. p x && q x) xs ≡ false
any-and_false p q [] h = refl
any-and_false p q (x ∷ xs) h = let ih = any-and_false p q xs in ground (arith, h)

asks_scan-message :
    (id : ℕ) (e : Outbox)
    → asks_scan id e ≡ true
    → any (is_scan_of id) (message_for e (event_to_queue e.event_type)) ≡ true
unfolding event_to_queue get_actor
asks_scan-message id e h = elim (Bool-cases (str_eq e.event_type "scan_requested")) [
  | inl t ↦ rw (t, event_to_queue) (ground (arith, h))
  | inr f ↦ absurd (ground (arith, h, f))
]

messages-asks_scan :
    (id : ℕ) (es : List Outbox)
    → any (asks_scan id) es ≡ true
    → any (is_scan_of id) (messages es) ≡ true
messages-asks_scan id [] h = h
messages-asks_scan id (e ∷ es) h =
    any-append (is_scan_of id) (message_for e (event_to_queue e.event_type)) (messages es)
    ∙ elim (Bool-cases (asks_scan id e)) [
      | inl a ↦ rw (asks_scan-message id e a) refl
      | inr a ↦
          rw (messages-asks_scan id es (rw (a) at h))
            (or_true (any (is_scan_of id) (message_for e (event_to_queue e.event_type))))
    ]

takes_all-true :
    (sends : Task → Bool) (ts : List Task)
    → ((t : Task) → sends t ≡ true)
    → takes_all sends ts ≡ true
takes_all-true sends [] h = refl
takes_all-true sends (t ∷ ts) h = rw (h t) (takes_all-true sends ts h)

filter-persisted :
    (e : Outbox) (rows : List Outbox)
    → e.processed ≡ false
    → length (filter (λ r. not r.processed) (rows ++ (e ∷ [])))
      ≡ length (filter (λ r. not r.processed) rows) + 1
filter-persisted e [] h = rw h refl
filter-persisted e (r ∷ rows) h = let ih = filter-persisted e rows h in ground (arith, ih)

-- A batch that is large enough has every row that is not processed.
next_batch-any :
    (n : ℕ) (p : Outbox → Bool) (rows : List Outbox)
    → length (filter (λ r. not r.processed) rows) ≤ n
    → any p (next_batch n rows) ≡ any (λ r. not r.processed && p r) rows
unfolding next_batch
next_batch-any n p rows h =
    let before : Outbox → Outbox → Bool = λ a b. leb a.created_at b.created_at in
    let waiting = filter (λ r. not r.processed) rows in
    ap (any p) (
      take_all n (sorted_with before waiting) (omega (arith, h, length-sorted_with before waiting)))
    ∙ any-sorted_with before p waiting
    ∙ any-filter (λ r. not r.processed) p rows

relay_once-sends :
    (sends : Task → Bool) (n : ℕ) (w : World) (id : ℕ)
    → ((t : Task) → sends t ≡ true)
    → any (asks_scan id) (next_batch n w.db.outbox) ≡ true
    → any (is_scan_of id) (relay_once sends n w).0.queue ≡ true
relay_once-sends sends n w id all asked =
    by_result (relay_once sends n w) (relay_once-Polled sends n w)
  where
    by_result : (r : World × Option ℕ) → Polled sends n w r → any (is_scan_of id) r.0.queue ≡ true
    by_result (w', none) r =
        absurd (cc (r.0, takes_all-true sends (messages (next_batch n w.db.outbox)) all))
    by_result (w', some k) r =
        let ms = messages (next_batch n w.db.outbox) in
        ap (any (is_scan_of id)) r.1
        ∙ any-append (is_scan_of id) w.queue ms
        ∙ ap (λ b. any (is_scan_of id) w.queue || b)
            (messages-asks_scan id (next_batch n w.db.outbox) asked)
        ∙ or_true (any (is_scan_of id) w.queue)

-- Take a request of a known actor for a text that no processed operation has under the resolved policy
-- version, with a commit that goes through; the message to `scan_requests` may be lost. A later poll of the
-- relay, whose batch has room for all that waits, over a broker that takes every message, puts the new
-- operation's scan on the detector's queue.
pub scan-relay_once :
    (host : Host) (tokens : Tokens) (s : Situation) (header : Text) (body : ScanRequest) (api : Api)
    (actor : Actor) (w : World) (sends : Task → Bool) (batch_size : ℕ)
    → resolve_scan_actor tokens header ≡ some actor
    → any
        (reuses (host.sha256 body.document) (resolved_version body.policy_version s.opa))
        api.db.operations
      ≡ false
    → s.commits ≡ true
    → ((t : Task) → sends t ≡ true)
    → length (filter (λ r. not r.processed) api.db.outbox) + 1 ≤ batch_size
    → any
        (is_scan_of api.db.next_id)
        (relay_once sends batch_size
          (record w { db = (scan host tokens s header body api).0.db })).0.queue
      ≡ true
unfolding persist scan_event
scan-relay_once host tokens s header body api actor w sends batch_size known fresh commits all
      room =
    by_end (scan host tokens s header body api) (
      subst (λ a. StoredEnds host s body a api (scan host tokens s header body api)) known
        (scan-StoredEnds host tokens s header body api))
  where
    by_end :
        (r : Api × ScanReply)
        → StoredEnds host s body (some actor) api r
        → any
            (is_scan_of api.db.next_id)
            (relay_once sends batch_size (record w { db = r.0.db })).0.queue
          ≡ true
    by_end (api', scan_error code) e = absurd (cc (e.2, commits))
    by_end (api', scan_result r) (d, inl (same, reused)) = absurd (
        cc (
          reused,
          any-and_false
              (reuses (host.sha256 body.document) (resolved_version body.policy_version s.opa))
              (is_answered_by (host.sha256 body.document)
                (resolved_version body.policy_version s.opa) api.db.operations r)
              api.db.operations fresh,
        ))
    by_end (api', scan_result r) (d, inr (f, c, q, stored)) =
        let event = scan_event (api.db.next_id + 3) api.db.next_id body.document s.now in
        let rows : api'.db.outbox ≡ api.db.outbox ++ (event ∷ []) = ap (λ b. b.outbox) stored in
        let fits =
          ap (λ b. length (filter (λ r. not r.processed) b)) rows
          ∙ filter-persisted event api.db.outbox refl in
        relay_once-sends sends batch_size (record w { db = api'.db }) api.db.next_id all
          (next_batch-any batch_size (asks_scan api.db.next_id) api'.db.outbox
              (omega (arith, fits, room))
            ∙ ap (any (λ r. not r.processed && asks_scan api.db.next_id r)) rows
            ∙ any-append (λ r. not r.processed && asks_scan api.db.next_id r) api.db.outbox
                (event ∷ [])
            ∙ rw (==_refl api.db.next_id)
                (or_true (any (λ r. not r.processed && asks_scan api.db.next_id r) api.db.outbox)))
