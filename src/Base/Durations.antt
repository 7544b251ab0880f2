-- ===== src/Base/Durations.antt =====
-- time.Duration where a product may overflow: an int64 of nanoseconds as its 64 bits, a number below
-- 2 ^ 64 of which the upper half stands for the negative values.
use Prim.Native.Nat.{ℕ, ◌+◌, ◌-◌, ◌*◌, ◌/◌, ◌%◌, ◌^◌, ◌≤◌, ◌<◌}
use mathlib.Core.Path.{◌≡◌}
use mathlib.Core.Bool.{Bool}
use native.Mathlib.Nat.{mod-eq_of_lt}
use native.Mathlib.Omega.{arith}
use unified_proxy_pool.Base.Tests.{ltb, leb, if◌then◌else◌}
use unified_proxy_pool.Base.Int.{ℤ, pos, neg}
use unified_proxy_pool.Base.Clock.{Time, second}

abbrev pub Duration : Type 0
Duration = ℕ

-- time.Duration(n) * time.Second
unfoldable pub of_seconds : ℕ → Duration
of_seconds n = n * second % 2 ^ 64

-- `d *= 2`
unfoldable pub doubled : Duration → Duration
doubled d = d * 2 % 2 ^ 64

-- `c < d`, of the values with their signs.
unfoldable pub is_shorter : Duration → Duration → Bool
is_shorter c d = ltb ((c + 2 ^ 63) % 2 ^ 64) ((d + 2 ^ 63) % 2 ^ 64)

-- now.Add(d), which a negative d takes back before now, here no further than to Go's zero time.
unfoldable pub time_after : Time → Duration → Time
time_after now d = if leb (2 ^ 63) d then now - (2 ^ 64 - d) else now + d

-- int(t.Sub(s) / time.Second)
unfoldable pub seconds_between : Time → Time → ℤ
seconds_between t s = if leb s t then pos ((t - s) / second) else neg ((s - t) / second)

-- int(d / time.Second), which drops the fraction of either sign.
unfoldable pub seconds_of : Duration → ℤ
seconds_of d = if leb (2 ^ 63) d then neg ((2 ^ 64 - d) / second) else pos (d / second)

pub of_seconds-small : (n : ℕ) → n ≤ 4_611_686_018 → of_seconds n ≡ n * second
unfolding of_seconds
of_seconds-small n h = mod-eq_of_lt (omega (arith, h))

pub doubled-small : (d : Duration) → d < 2 ^ 63 → doubled d ≡ d * 2
unfolding doubled
doubled-small d h = mod-eq_of_lt (omega (arith, h))

pub is_shorter-small : (c d : Duration) → c < 2 ^ 63 → d < 2 ^ 63 → is_shorter c d ≡ ltb c d
unfolding is_shorter
is_shorter-small c d h k =
    rw (mod-eq_of_lt {n = c + 2 ^ 63} {m = 2 ^ 64} (omega (arith, h)))
      (rw (mod-eq_of_lt {n = d + 2 ^ 63} {m = 2 ^ 64} (omega (arith, k))) (ground arith))
