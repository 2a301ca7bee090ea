-- ===== src/RateLimit.antt =====
-- `check_rate_limit` of apps/api/core/auth_oidc.py: the sliding window kept in memory. A moment is a
-- number of microseconds. A deque never overflows its `maxlen`, since only one that is shorter grows.
pub mod Sliding
use safe_context.Base.{
  ℕ, ◌+◌, Bool, true, false, not, ◌&&◌, List, [], ◌∷◌, ◌++◌, Option, none, some, length, filter,
  ltb, leb, ◌==◌, if◌then◌else◌,
}

-- The 60 seconds of the window
abbrev pub window : ℕ
window = 60000000

-- `_RATE_LIMIT_EVICTION_INTERVAL`
abbrev pub eviction_interval : ℕ
eviction_interval = 30000000

-- `_rate_limit_store` and `_rate_limit_last_eviction`
pub record Limiter : Type 0 where
  pub store : List (ℕ × List ℕ)
  pub last_eviction : ℕ

-- `_rate_limit_store[client_id]`: a client without an entry gets an empty one.
unfoldable pub requests_of : ℕ → List (ℕ × List ℕ) → List ℕ
requests_of client [] = []
requests_of client ((k, v) ∷ store) = if k == client then v else requests_of client store

unfoldable pub put_requests : ℕ → List ℕ → List (ℕ × List ℕ) → List (ℕ × List ℕ)
put_requests client ts [] = (client, ts) ∷ []
put_requests client ts ((k, v) ∷ store) =
    let rest = put_requests client ts store in
    if k == client then (client, ts) ∷ store else (k, v) ∷ rest

-- The loop over the front of the deque.
unfoldable pub drop_expired : ℕ → List ℕ → List ℕ
drop_expired now [] = []
drop_expired now (t ∷ ts) =
    let rest = drop_expired now ts in if leb (t + window) now then rest else t ∷ ts

abbrev pub last_before : ℕ → List ℕ → Bool
last_before now [] = true
last_before now (t ∷ []) = ltb (t + window) now
last_before now (t ∷ u ∷ ts) = last_before now (u ∷ ts)

-- The eviction of clients that were idle for a window.
unfoldable pub evict_idle : ℕ → Limiter → Limiter
evict_idle now l =
    if ltb 10000 (length l.store) && ltb (l.last_eviction + eviction_interval) now
    then record { store = filter (λ e. not (last_before now e.1)) l.store; last_eviction = now }
    else l

-- `check_rate_limit`: whether the request is let through.
unfoldable pub check_rate_limit : ℕ → ℕ → ℕ → Limiter → Limiter × Bool
unfolding drop_expired evict_idle put_requests requests_of
check_rate_limit limit now client l =
    let recent = drop_expired now (requests_of client l.store) in
    if leb limit (length recent)
    then (record l { store = put_requests client recent l.store }, false)
    else (
      evict_idle now (record l { store = put_requests client (recent ++ (now ∷ [])) l.store }),
      true,
    )
