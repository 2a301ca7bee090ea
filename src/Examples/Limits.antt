-- ===== src/Examples/Limits.antt =====
-- The theorem on the limit: a client with two requests, one of them expired.
use safe_context.Base.{◌≡◌, [], ◌∷◌, ◌++◌, filter, length, ltb, if◌then◌else◌, arith}
use safe_context.RateLimit.{Limiter, requests_of, check_rate_limit}
use safe_context.RateLimit.Sliding.{is_recent, check_rate_limit-slides}

abbrev test_limiter : Limiter
test_limiter = record { store = (4, 1000000 ∷ 50000000 ∷ []) ∷ []; last_eviction = 0 }

check_rate_limit-slides_example :
    let recent = filter (is_recent 70000000) (1000000 ∷ 50000000 ∷ []) in
    let r = check_rate_limit 2 70000000 4 test_limiter in
    (r.1 ≡ ltb (length recent) 2)
    × (requests_of 4 r.0.store
        ≡ (if ltb (length recent) 2 then recent ++ (70000000 ∷ []) else recent))
unfolding requests_of
check_rate_limit-slides_example =
    check_rate_limit-slides 2 70000000 4 test_limiter ((omega arith, tt), (tt, tt))
