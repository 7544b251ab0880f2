-- ===== src/ChanPolicy/Registry/Evaluate.antt =====
-- Whether an outcome leads to a ban, why and for how long: evaluateLocked and banTTL. Reasons are
-- data; itoa, which the source calls for the string of a status, panics from nine digits on.
pub mod Laws
pub mod Ttl
use unified_proxy_pool.Base.{
  ℕ, zero, suc, ◌+◌, ◌-◌, ◌*◌, ◌/◌, ◌≡◌, Bool, true, false, ◌&&◌, ◌||◌, not, List, [], ◌∷◌, arith,
  ltb, leb, ◌==◌, if◌then◌else◌, Text, codes, to_lower, contains, Option, none, some, Time, is_zero,
  Duration, of_seconds, doubled, is_shorter, time_after, seconds_of, Dict, lookup,
}
use unified_proxy_pool.ChanPolicy.Policy.{Policy, bans_status, window, idle_reset_after, rate_one}
use unified_proxy_pool.ChanPolicy.Window.{consecutive, sum}
use unified_proxy_pool.ChanPolicy.Log.{
  Reason, no_reason, status_code, consecutive_fails, timeouts, fail_rate, reported,
}
use unified_proxy_pool.ChanPolicy.Rule.{Rule, Outcome, applies_to, matches}
use unified_proxy_pool.ChanPolicy.Rule
use unified_proxy_pool.ChanPolicy.Registry.State.{Entry, Ban, Allow, banned, bucket_sec}

unfoldable pub is_timeout : Outcome → Bool
is_timeout o =
    if o.ok
    then false
    else let e = to_lower o.err in
      contains e (codes "timeout")
      || contains e (codes "deadline")
      || o.status == 408
      || o.status == 504

-- The rules of the policy, the surest first.
unfoldable pub policy_reason : Policy → Entry → Outcome → Time → Option Reason
policy_reason p e o now =
    if bans_status p o.status
    then some (status_code o.status)
    else if ltb 0 p.consecutive_fails
        && leb p.consecutive_fails (consecutive e.counters now (window p))
    then some consecutive_fails
    else let s = sum e.counters now (bucket_sec p) in
      if ltb 0 p.timeout_fails && leb p.timeout_fails s.timeout
      then some timeouts
      else if ltb 0 p.fail_rate
          && leb p.min_samples (s.ok + s.fail)
          && leb (p.fail_rate * (s.ok + s.fail)) (s.fail * rate_one)
      then some fail_rate
      else none

-- The first custom rule that applies and matches.
unfoldable pub fired_rule :
    Policy → List Rule → Text → Entry → Outcome → Time → Option (Reason × Rule)
fired_rule p [] channel e o now = none
fired_rule p (rule ∷ rules) channel e o now =
    let rest = fired_rule p rules channel e o now in
    if not (applies_to rule channel)
    then rest
    else elim (matches rule o e.counters now (window p) (bucket_sec p)) [
      | none ↦ rest
      | some why ↦ some (why, rule)
    ]

-- The loop of banTTL.
unfoldable pub double_ttl : ℕ → Duration → Duration → Duration
unfolding doubled is_shorter
double_ttl zero ttl max = ttl
double_ttl (suc n) ttl max =
    let rest = double_ttl n (doubled ttl) max in if is_shorter ttl max then rest else ttl

unfoldable pub ban_ttl : Policy → ℕ → Duration
unfolding double_ttl of_seconds is_shorter
ban_ttl p strikes =
    let max = of_seconds p.ban_ttl_max_sec in
    let ttl = double_ttl strikes (of_seconds p.ban_ttl_sec) max in
    if is_shorter max ttl then max else ttl

unfoldable pub is_member {ℓ} : {V : Type ℓ} → Text → Option (Dict V) → Bool
is_member addr none = false
is_member addr (some m) = elim (lookup addr m) [ none ↦ false | some v ↦ true ]

-- allowedLocked
unfoldable pub allowed : Dict (Dict Allow) → Text → Text → Bool
unfolding is_member
allowed allows channel addr =
    is_member addr (lookup [] allows) || is_member addr (lookup channel allows)

-- The escalation ladder starts anew when the last ban is long ago.
unfoldable pub strikes_now : Policy → Entry → Time → ℕ
strikes_now p e now =
    if not (is_zero e.last_ban_at) && ltb (idle_reset_after p) (now - e.last_ban_at)
    then 0
    else e.strikes

-- The reason, and how long to ban.
unfoldable pub verdict :
    Policy → List Rule → Text → Entry → Outcome → Time → Option (Reason × Duration)
unfolding policy_reason fired_rule strikes_now ban_ttl
verdict p rules channel e o now = elim (policy_reason p e o now) [
  | some why ↦ some (why, ban_ttl p (strikes_now p e now))
  | none ↦ elim (fired_rule p rules channel e o now) [
    | some (why, rule) ↦ some (why, Rule.ttl rule p)
    | none ↦ none
  ]
]

-- The entry that is banned, and the ban.
unfoldable pub impose :
    Policy → Text → Text → Entry → Outcome → Time → Reason → Duration → Entry × Ban
unfolding strikes_now time_after seconds_of
impose p channel addr e o now why ttl =
    let reason = if o.reported then reported why else why in
    (
      record e {
        strikes = strikes_now p e now + 1;
        banned_until = time_after now ttl;
        ban_reason = reason;
        last_ban_at = now;
        pending_reprobe = p.reprobe_on_expiry;
      },
      record {
        channel = channel;
        addr = addr;
        reason = reason;
        banned_at = now;
        until = time_after now ttl;
        strikes = strikes_now p e now + 1;
        ttl_sec = seconds_of ttl;
        pending = false;
      },
    )

-- evaluateLocked
unfoldable pub evaluate :
    Policy
    → List Rule
    → Dict (Dict Allow)
    → Text
    → Text
    → Entry
    → Outcome
    → Time
    → Option (Entry × Ban)
unfolding allowed verdict impose
evaluate p rules allows channel addr e o now =
    if allowed allows channel addr
    then none
    else if banned e now
    then none
    else elim (verdict p rules channel e o now) [
      | none ↦ none
      | some (why, ttl) ↦ some (impose p channel addr e o now why ttl)
    ]
