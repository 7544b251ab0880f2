-- ===== src/DirectProxy/Throttle.antt =====
-- internal/directproxy/throttle.go: the token bucket of a relayed connection. Bytes are counted in
-- billionths, so that a rate in bytes per second times a time in nanoseconds is exact. The tokens never
-- exceed the burst, and the record holds what is missing: tokens = burst - missing.
use unified_proxy_pool.Base.{
  ℕ, zero, suc, ◌+◌, ◌-◌, ◌*◌, ◌/◌, Bool, true, false, ◌||◌, List, [], ◌∷◌, ltb, leb, if◌then◌else◌,
  ◌>>=◌, Option, none, some, Time, second, ℤ, is_le_zero, to_nat,
}
pub mod Rate
pub mod Progress
mod Tests

-- A billion.
abbrev pub giga : ℕ
giga = 1_000_000_000

-- time.Millisecond
abbrev pub millisecond : ℕ
millisecond = 1_000_000

pub record Throttle : Type 0 where
  pub bps : ℕ
  pub burst : ℕ
  pub missing : ℕ
  pub last : Time

-- No throttle is nil.
unfoldable pub new_throttle : ℤ → Time → Option Throttle
new_throttle bps now =
    if is_le_zero bps
    then none
    else some (record { bps = to_nat bps; burst = to_nat bps; missing = 0; last = now })

-- The tokens for the time since `last`, up to the burst.
unfoldable pub refill : Time → Throttle → Throttle
refill now t = record t { missing = t.missing - (now - t.last) * t.bps; last = now }

-- Whether bytes may pass, and the throttle when they have.
unfoldable pub may_pass : ℕ → Throttle → Bool
may_pass n t = leb (t.missing + n * giga) (t.burst * giga) || ltb t.burst n

unfoldable pub spent : ℕ → Throttle → Throttle
spent n t = record t { missing = t.missing + n * giga }

-- The sleep, from a millisecond to a second.
unfoldable pub wait : ℕ → Throttle → ℕ
wait n t =
    let exact = (t.missing + n * giga - t.burst * giga) / t.bps in
    let least = if ltb exact millisecond then millisecond else exact in
    if ltb second least then second else least

-- A turn of the loop of take, from Lock to Unlock: none when the bytes pass, else how long to sleep.
unfoldable pub turn : ℕ → Time → Throttle → Option ℕ × Throttle
unfolding refill may_pass spent wait
turn n now t =
    let t1 = refill now t in if may_pass n t1 then (none, spent n t1) else (some (wait n t1), t1)

-- The bytes that passed in a turn.
abbrev pub let_through : ℕ → Option ℕ → ℕ
let_through n none = n
let_through n (some slept) = 0

-- Turns of the takes that share the throttle, of both directions, in the order in which they get the
-- lock: each with the time since the turn before it and its bytes. What passed in each, the time of the
-- last, and the throttle.
unfoldable pub turns : List (ℕ × ℕ) → Time → Throttle → List ℕ × Time × Throttle
unfolding turn
turns [] now t = ([], now, t)
turns ((idle, n) ∷ qs) now t =
    let (slept, t1) = turn n (now + idle) t in
    let (passed, end, last) = turns qs (now + idle) t1 in (let_through n slept ∷ passed, end, last)

-- The loop of take. In the sleep after a turn the lock is free, and `others` has the turns of other
-- takes until this one has the lock again, `lag` after the end of its sleep and of those turns.
unfoldable pub take_loop :
    (ℕ → List (ℕ × ℕ)) → (ℕ → ℕ) → ℕ → ℕ → Time → Throttle → Option (Time × Throttle)
unfolding turn turns
take_loop others lag zero n now t = none
take_loop others lag (suc fuel) n now t =
    let (slept, t1) = turn n now t in
    elim slept [
      | none ↦ some (now, t1)
      | some w ↦
          let (passed, end, t2) = turns (others fuel) now t1 in
          let woken = if ltb end (now + w) then now + w else end in
          take_loop others lag fuel n (woken + lag fuel) t2
    ]

-- take: a missing throttle and an empty write pass at once.
unfoldable pub take_bytes :
    (ℕ → List (ℕ × ℕ)) → (ℕ → ℕ) → ℕ → ℤ → Time → Option Throttle → Option (Time × Option Throttle)
unfolding take_loop
take_bytes others lag fuel n now none = some (now, none)
take_bytes others lag fuel n now (some t) =
    if is_le_zero n
    then some (now, some t)
    else do (later, t1) ← take_loop others lag fuel (to_nat n) now t; some (later, some t1)
