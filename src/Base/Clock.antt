-- ===== src/Base/Clock.antt =====
-- time.Time as the nanoseconds since Go's zero time (January 1 of year 1), so that IsZero is a test
-- for 0, and time.Duration as a number of nanoseconds. A difference that would be negative is 0: the
-- program compares differences with positive spans only, where the two give the same answer.
use Prim.Native.Nat.{ℕ, ◌-◌, ◌/◌}
use mathlib.Core.Bool.{Bool}
use unified_proxy_pool.Base.Tests.{◌==◌}

abbrev pub Time : Type 0
Time = ℕ

-- time.Second
abbrev pub second : ℕ
second = 1_000_000_000

abbrev pub is_zero : Time → Bool
is_zero t = t == 0

-- The seconds from year 1 to 1970.
abbrev pub unix_epoch : ℕ
unix_epoch = 62_135_596_800

-- Time.Unix, for a clock that stands after 1970.
abbrev pub unix : Time → ℕ
unix t = t / second - unix_epoch
