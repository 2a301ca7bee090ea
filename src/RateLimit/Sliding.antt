-- ===== src/RateLimit/Sliding.antt =====
-- The limit holds for the requests of the last 60 seconds.
use safe_context.Base.{
  ℕ, ◌+◌, ◌≡◌, ◌≤◌, ◌<◌, refl, sym, ap, ◌∙◌, inl, inr, Bool, true, false, not, ◌&&◌, List, [], ◌∷◌,
  ◌++◌, arith, length, filter, All, AllPairs, ltb, leb, ◌==◌, ==_refl, if◌then◌else◌, Bool-cases,
}
use mathlib.Core.Path.{subst}
use safe_context.RateLimit.{
  Limiter, window, eviction_interval, requests_of, put_requests, drop_expired, last_before,
  evict_idle, check_rate_limit,
}

-- The request lies in the window that ends now.
abbrev pub is_recent : ℕ → ℕ → Bool
is_recent now t = ltb now (t + window)

filter-recent :
    (now : ℕ) (ts : List ℕ) → All (λ t. now < t + window) ts → filter (is_recent now) ts ≡ ts
filter-recent now [] h = refl
filter-recent now (t ∷ ts) h =
    let e : is_recent now t ≡ true = ground (arith, h.0) in
    rw (e) (ap (λ r. t ∷ r) (filter-recent now ts h.1))

All-recent :
    (now t : ℕ) (ts : List ℕ)
    → now < t + window
    → All (λ u. t ≤ u) ts
    → All (λ u. now < u + window) ts
All-recent now t [] r h = tt
All-recent now t (u ∷ ts) r h = (omega (arith, h.0), All-recent now t ts r h.1)

drop_expired-eq-filter :
    (now : ℕ) (ts : List ℕ)
    → AllPairs (λ t u. t ≤ u) ts
    → drop_expired now ts ≡ filter (is_recent now) ts
unfolding drop_expired
drop_expired-eq-filter now [] h = refl
drop_expired-eq-filter now (t ∷ ts) h = elim (Bool-cases (leb (t + window) now)) [
  | inl e ↦
      let f : is_recent now t ≡ false = ground arith in
      rw (e, f) (drop_expired-eq-filter now ts h.1)
  | inr e ↦
      let r : now < t + window = ground arith in
      rw (e) (sym (filter-recent now (t ∷ ts) (r, All-recent now t ts r h.0)))
]

requests_of-put_requests :
    (client : ℕ) (ts : List ℕ) (store : List (ℕ × List ℕ))
    → requests_of client (put_requests client ts store) ≡ ts
unfolding requests_of put_requests
requests_of-put_requests client ts [] = ap (λ b. if b then ts else []) (==_refl client)
requests_of-put_requests client ts ((k, v) ∷ store) = elim (Bool-cases (k == client)) [
  | inl e ↦
      rw (e, put_requests) (ap (λ b. if b then ts else requests_of client store) (==_refl client))
  | inr e ↦ rw (e, put_requests) (rw (e) (requests_of-put_requests client ts store))
]

last_before-append : (now : ℕ) (ts : List ℕ) → last_before now (ts ++ (now ∷ [])) ≡ false
last_before-append now [] = ground arith
last_before-append now (t ∷ []) = ground arith
last_before-append now (t ∷ u ∷ ts) = last_before-append now (u ∷ ts)

requests_of-filter :
    (now client : ℕ) (ts : List ℕ) (store : List (ℕ × List ℕ))
    → requests_of client store ≡ ts
    → last_before now ts ≡ false
    → requests_of client (filter (λ e. not (last_before now e.1)) store) ≡ ts
unfolding requests_of
requests_of-filter now client ts [] h l = h
requests_of-filter now client ts ((k, v) ∷ store) h l = elim (Bool-cases (k == client)) [
  | inl e ↦
      let same : v ≡ ts = rw (e) at h in
      let live : last_before now v ≡ false = ap (last_before now) same ∙ l in
      rw (live) (rw (e) same)
  | inr e ↦
      let rest = requests_of-filter now client ts store (rw (e) at h) l in
      elim (Bool-cases (last_before now v)) [ inl d ↦ rw (d) rest | inr d ↦ rw (d) (rw (e) rest) ]
]

evict_idle-keeps :
    (now client : ℕ) (ts : List ℕ) (l : Limiter)
    → requests_of client l.store ≡ ts
    → last_before now ts ≡ false
    → requests_of client (evict_idle now l).store ≡ ts
unfolding evict_idle
evict_idle-keeps now client ts l h d =
    elim (Bool-cases
      (ltb 10000 (length l.store) && ltb (l.last_eviction + eviction_interval) now)) [
        | inl e ↦ rw (e, evict_idle) (requests_of-filter now client ts l.store h d)
        | inr e ↦ rw (e, evict_idle) h
      ]

-- Where the client's recorded requests are in order of time, a request is refused if `limit` or more of
-- them lie in the last 60 seconds, and is let through and recorded otherwise. Either way just the
-- requests of the last 60 seconds stay recorded for the client, also behind an eviction of idle clients.
pub check_rate_limit-slides :
    (limit now client : ℕ) (l : Limiter)
    → AllPairs (λ t u. t ≤ u) (requests_of client l.store)
    → let recent = filter (is_recent now) (requests_of client l.store) in
      let r = check_rate_limit limit now client l in
      (r.1 ≡ ltb (length recent) limit)
      × (requests_of client r.0.store
          ≡ (if ltb (length recent) limit then recent ++ (now ∷ []) else recent))
unfolding check_rate_limit
check_rate_limit-slides limit now client l ordered =
    let kept = drop_expired now (requests_of client l.store) in
    subst
      (λ (recent : List ℕ).
        ((check_rate_limit limit now client l).1 ≡ ltb (length recent) limit)
        × (requests_of client (check_rate_limit limit now client l).0.store
            ≡ (if ltb (length recent) limit then recent ++ (now ∷ []) else recent)))
      (drop_expired-eq-filter now (requests_of client l.store) ordered) (by_room kept refl)
  where
    by_room :
        (kept : List ℕ)
        → drop_expired now (requests_of client l.store) ≡ kept
        → ((check_rate_limit limit now client l).1 ≡ ltb (length kept) limit)
          × (requests_of client (check_rate_limit limit now client l).0.store
              ≡ (if ltb (length kept) limit then kept ++ (now ∷ []) else kept))
    by_room kept e = elim (Bool-cases (leb limit (length kept))) [
      | inl full ↦
          let f : ltb (length kept) limit ≡ false = ground arith in
          rw (e, check_rate_limit)
            (rw (full, f) (refl, requests_of-put_requests client kept l.store))
      | inr room ↦
          let f : ltb (length kept) limit ≡ true = ground arith in
          rw (e, check_rate_limit)
            (rw (room, f)
              (
                refl,
                evict_idle-keeps now client (kept ++ (now ∷ []))
                    (record l { store = put_requests client (kept ++ (now ∷ [])) l.store })
                    (requests_of-put_requests client (kept ++ (now ∷ [])) l.store)
                    (last_before-append now kept),
              ))
    ]
