-- ===== src/Quotas.antt =====
-- The quotas of a tenant: apps/api/core/quotas.py. What Redis answers is a parameter, `none` where it is
-- away or raises; the fallback counters in memory are the state. A day is a number, a moment is a number
-- of microseconds.
use safe_context.Base.{
  ℕ, ◌+◌, Bool, true, false, not, List, [], ◌∷◌, ◌++◌, Option, none, some, length, filter, ltb, leb,
  ◌==◌, if◌then◌else◌,
}
use safe_context.Store.{Text}

-- `_daily_scan_counts` and `_daily_scan_day`
pub record Counters : Type 0 where
  pub counts : List (ℕ × ℕ)
  pub day : ℕ

-- `_daily_scan_counts[key]`, 0 for a tenant that has no entry
unfoldable pub count_of : ℕ → List (ℕ × ℕ) → ℕ
count_of tenant [] = 0
count_of tenant ((k, n) ∷ counts) = if k == tenant then n else count_of tenant counts

unfoldable pub add_one : ℕ → List (ℕ × ℕ) → List (ℕ × ℕ)
add_one tenant [] = (tenant, 1) ∷ []
add_one tenant ((k, n) ∷ counts) =
    let rest = add_one tenant counts in if k == tenant then (k, n + 1) ∷ counts else (k, n) ∷ rest

-- The counters are cleared when the day changes.
unfoldable pub roll_over : ℕ → Counters → Counters
roll_over today c = if c.day == today then c else record { counts = []; day = today }

-- `_get_daily_scan_count_memory`
unfoldable pub get_daily_scan_count_memory : ℕ → ℕ → Counters → Counters × ℕ
unfolding roll_over count_of
get_daily_scan_count_memory today tenant c =
    let c' = roll_over today c in (c', count_of tenant c'.counts)

-- `_increment_daily_scan_count_memory`
unfoldable pub increment_daily_scan_count_memory : ℕ → ℕ → Counters → Counters
unfolding roll_over add_one
increment_daily_scan_count_memory today tenant c =
    let c' = roll_over today c in record c' { counts = add_one tenant c'.counts }

-- `check_daily_scan_quota`: whether the request goes on.
unfoldable pub check_daily_scan_quota : Option ℕ → Option ℕ → ℕ → ℕ → Counters → Counters × Bool
unfolding get_daily_scan_count_memory
check_daily_scan_quota none redis today tenant c = (c, true)
check_daily_scan_quota (some max) (some count) today tenant c = (c, not (leb max count))
check_daily_scan_quota (some max) none today tenant c =
    let r = get_daily_scan_count_memory today tenant c in (r.0, not (leb max r.1))

-- `increment_scan_count`
unfoldable pub increment_scan_count : Option ℕ → ℕ → ℕ → Counters → Counters
unfolding increment_daily_scan_count_memory
increment_scan_count (some count) today tenant c = c
increment_scan_count none today tenant c = increment_daily_scan_count_memory today tenant c

-- The number of bytes of a code point in UTF-8
unfoldable pub utf8_size : ℕ → ℕ
utf8_size c = if ltb c 128 then 1 else if ltb c 2048 then 2 else if ltb c 65536 then 3 else 4

unfoldable pub utf8_length : Text → ℕ
unfolding utf8_size
utf8_length [] = 0
utf8_length (c ∷ t) = utf8_size c + utf8_length t

-- `check_document_size`: whether the document is let through.
unfoldable pub check_document_size : Text → Option ℕ → Bool
unfolding utf8_length
check_document_size document none = true
check_document_size document (some max) = not (ltb max (utf8_length document))

-- `check_tenant_rate_limit`, on the moments recorded for the tenant.
unfoldable pub check_tenant_rate_limit : Option ℕ → ℕ → List ℕ → List ℕ × Bool
check_tenant_rate_limit none now moments = (moments, true)
check_tenant_rate_limit (some limit) now moments =
    let kept = filter (λ t. ltb now (t + 60000000)) moments in
    if leb limit (length kept) then (kept, false) else (kept ++ (now ∷ []), true)
