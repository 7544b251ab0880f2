-- ===== src/FreeProxies/Health.antt =====
-- internal/freproxies/health.go: the summary of the validated pool. The store's answers (ListValidated
-- and Queues) are arguments, none for an error. A verdict stands for its texts.
use unified_proxy_pool.Base.{
  ℕ, ◌+◌, ◌-◌, ◌*◌, ◌/◌, ◌%◌, Bool, true, false, not, ◌&&◌, ◌||◌, List, [], ◌∷◌, arith, ltb, leb,
  ◌==◌, if◌then◌else◌, Option, none, some, Time, second, is_zero, sort_by, length, get_or, ℤ,
  is_le_zero, to_nat,
}
use unified_proxy_pool.FreeProxies.{Proxy}
pub mod Bands

-- The words of `Status`.
pub data Status : Type 0 where
  healthy : Status
  degraded : Status
  slow_pool : Status
  critical : Status
  empty_pool : Status
  unknown : Status

-- The texts of `Verdict` and `Advice`, by the branch that sets them.
pub data Verdict : Type 0 where
  unreadable : Verdict
  no_sources : Verdict
  none_passed : Verdict
  few_left : Verdict
  unmeasured : Verdict
  high_latency : Verdict
  few_fast : Verdict
  some_slow : Verdict
  good : Verdict

pub record PoolHealth : Type 0 where
  pub available : ℕ
  pub status : Status
  pub verdict : Verdict
  pub fast : ℕ
  pub usable : ℕ
  pub slow : ℕ
  pub unknown_latency : ℕ
  pub median_latency : ℕ
  pub fastest_latency : ℕ
  pub raw_pending : ℕ

abbrev pub band_fast : ℕ
band_fast = 500

abbrev pub band_slow : ℕ
band_slow = 1500

abbrev pub healthy_min_usable : ℕ
healthy_min_usable = 5

abbrev pub health_ttl : ℕ
health_ttl = 3 * second

abbrev pub no_health : PoolHealth
no_health = record {
  available = 0;
  status = unknown;
  verdict = unreadable;
  fast = 0;
  usable = 0;
  slow = 0;
  unknown_latency = 0;
  median_latency = 0;
  fastest_latency = 0;
  raw_pending = 0;
}

unfoldable pub unavailable_health : PoolHealth
unavailable_health = no_health

-- One turn of the loop on the validated proxies.
unfoldable pub count_band : ℤ → PoolHealth → PoolHealth
count_band latency h =
    if is_le_zero latency
    then record h { available = h.available + 1; unknown_latency = h.unknown_latency + 1 }
    else if ltb (to_nat latency) band_fast
    then record h { available = h.available + 1; fast = h.fast + 1 }
    else if leb (to_nat latency) band_slow
    then record h { available = h.available + 1; usable = h.usable + 1 }
    else record h { available = h.available + 1; slow = h.slow + 1 }

unfoldable pub count_all : List Proxy → PoolHealth → PoolHealth
unfolding count_band
count_all [] h = h
count_all (p ∷ ps) h = count_all ps (if p.validated then count_band p.latency_ms h else h)

unfoldable pub latencies : List Proxy → List ℕ
latencies [] = []
latencies (p ∷ ps) =
    let rest = latencies ps in
    if not p.validated || is_le_zero p.latency_ms then rest else to_nat p.latency_ms ∷ rest

-- The median of latencies in ascending order.
unfoldable pub median : List ℕ → ℕ
median xs =
    let mid = length xs / 2 in
    if length xs % 2 == 0
    then get_or xs (mid - 1) 0 + (get_or xs mid 0 - get_or xs (mid - 1) 0) / 2
    else get_or xs mid 0

unfoldable pub measure : List ℕ → PoolHealth → PoolHealth
unfolding median
measure [] h = h
measure (x ∷ xs) h =
    let sorted = sort_by ltb (x ∷ xs) in
    record h { fastest_latency = get_or sorted 0 0; median_latency = median sorted }

unfoldable pub evaluate_health : PoolHealth → Status × Verdict
evaluate_health h =
    if h.available == 0
    then (empty_pool, if ltb 0 h.raw_pending then none_passed else no_sources)
    else if ltb h.available 3
    then (critical, few_left)
    else if h.unknown_latency == h.available
    then (unknown, unmeasured)
    else if ltb band_slow h.median_latency || (h.fast == 0 && leb h.available (h.slow * 2))
    then (slow_pool, high_latency)
    else if ltb (h.usable + h.fast) healthy_min_usable
    then (degraded, few_fast)
    else if ltb (h.fast + h.usable) h.slow || ltb 0 h.unknown_latency
    then (degraded, some_slow)
    else (healthy, good)

unfoldable pub summary : List Proxy → ℕ → PoolHealth
unfolding count_all latencies measure evaluate_health
summary ps pending =
    let h = measure (latencies ps) (count_all ps (record no_health { raw_pending = pending })) in
    let (status, verdict) = evaluate_health h in record h { status = status; verdict = verdict }

unfoldable pub health_uncached : Option (List Proxy) → Option ℕ → PoolHealth
unfolding summary unavailable_health
health_uncached none queues = unavailable_health
health_uncached (some ps) none = unavailable_health
health_uncached (some ps) (some pending) = summary ps pending

-- The cache of the last summary, with its time, zero at first.
pub record HealthCache : Type 0 where
  pub cached : PoolHealth
  pub cached_at : Time

-- `now` is read for the test and `later` for the store; `cancelled` is ctx.Err() != nil.
unfoldable pub health :
    HealthCache → Option (List Proxy) → Option ℕ → Bool → Time → Time → HealthCache × PoolHealth
unfolding health_uncached
health c listed queues cancelled now later =
    let h = health_uncached listed queues in
    if not (is_zero c.cached_at) && ltb (now - c.cached_at) health_ttl
    then (c, c.cached)
    else if cancelled
    then (c, h)
    else (record { cached = h; cached_at = later }, h)
