-- ===== src/ChanPolicy/Rule.antt =====
-- internal/chanpolicy/rule.go: conditions for a ban that an operator adds. A rate is held in
-- millionths. The pair that a rule tests is given by its counters.
use unified_proxy_pool.Base.{
  ℕ, ◌+◌, ◌*◌, Bool, true, false, ◌&&◌, ◌||◌, not, List, [], ◌∷◌, ltb, leb, if◌then◌else◌, Text,
  codes, text_eq, is_empty, to_lower, trim_space, contains, equal_fold, Option, none, some, ℤ, pos,
  is_le_zero, is_neg, to_nat, Time, Duration, of_seconds,
}
use unified_proxy_pool.ChanPolicy.Policy.{Policy, positive_or, rate_one, member}
use unified_proxy_pool.ChanPolicy.Window.{Counters, consecutive, sum}
use unified_proxy_pool.ChanPolicy.Name.{normalize_channel_name}
use unified_proxy_pool.ChanPolicy.Log.{
  Reason, rule_status, rule_consecutive, rule_fail_rate, rule_timeouts, rule_error,
}

-- One observed result of a request. A status that is negative acts as 0.
pub record Outcome : Type 0 where
  pub channel : Text
  pub addr : Text
  pub ok : Bool
  pub status : ℕ
  pub err : Text
  pub latency_ms : ℕ
  pub reported : Bool

pub data RuleKind : Type 0 where
  status consecutive_run fail_rate timeouts error unknown : RuleKind

pub record Rule : Type 0 where
  pub id : Text
  pub name : Text
  pub channel : Text
  pub kind : Text
  pub statuses : List ℕ
  pub threshold : ℤ
  pub rate : ℤ
  pub min_samples : ℤ
  pub match : Text
  pub ttl_sec : ℤ
  pub enabled : Bool
  pub created_at : Time

unfoldable pub applies_to : Rule → Text → Bool
applies_to r channel =
    if not r.enabled
    then false
    else if is_empty r.channel
    then true
    else equal_fold r.channel channel

unfoldable pub one_of : Text → Text → Text → Text → Bool
one_of k a b c = text_eq k a || text_eq k b || text_eq k c

-- Rule.kind
unfoldable pub kind_of : Text → RuleKind
unfolding one_of
kind_of text =
    let k = to_lower (trim_space text) in
    if one_of k (codes "status") (codes "status_code") (codes "http")
    then RuleKind.status
    else if one_of k (codes "consecutive") (codes "consec") (codes "streak")
    then RuleKind.consecutive_run
    else if one_of k (codes "fail_rate") (codes "rate") (codes "rate")
    then RuleKind.fail_rate
    else if one_of k (codes "timeouts") (codes "timeout") (codes "timeout")
    then RuleKind.timeouts
    else if one_of k (codes "error") (codes "err") (codes "tag")
    then RuleKind.error
    else RuleKind.unknown

-- The constant of each kind; the empty text for an unknown one.
unfoldable pub kind_text : RuleKind → Text
kind_text RuleKind.status = codes "status"
kind_text RuleKind.consecutive_run = codes "consecutive"
kind_text RuleKind.fail_rate = codes "fail_rate"
kind_text RuleKind.timeouts = codes "timeouts"
kind_text RuleKind.error = codes "error"
kind_text RuleKind.unknown = []

-- `if rate <= 0 || rate > 1 { rate = 0.6 }`
unfoldable pub rule_rate : ℤ → ℕ
rule_rate x = if is_le_zero x || ltb rate_one (to_nat x) then 600_000 else to_nat x

-- The switch of Rule.matches.
unfoldable pub matches_kind : RuleKind → Rule → Outcome → Counters → Time → ℕ → ℕ → Option Reason
unfolding rule_rate
matches_kind RuleKind.status r o c now window bucket_sec =
    if leb o.status 0
    then none
    else if member o.status r.statuses
    then some (rule_status o.status)
    else none
matches_kind RuleKind.consecutive_run r o c now window bucket_sec =
    if leb (positive_or 3 r.threshold) (consecutive c now window)
    then some rule_consecutive
    else none
matches_kind RuleKind.fail_rate r o c now window bucket_sec =
    let s = sum c now bucket_sec in
    if leb (positive_or 5 r.min_samples) (s.ok + s.fail)
      && leb (rule_rate r.rate * (s.ok + s.fail)) (s.fail * rate_one)
    then some rule_fail_rate
    else none
matches_kind RuleKind.timeouts r o c now window bucket_sec =
    if leb (positive_or 5 r.threshold) ((sum c now bucket_sec).timeout)
    then some rule_timeouts
    else none
matches_kind RuleKind.error r o c now window bucket_sec =
    let needle = to_lower (trim_space r.match) in
    if is_empty needle || o.ok
    then none
    else if contains (to_lower o.err) needle
    then some rule_error
    else none
matches_kind RuleKind.unknown r o c now window bucket_sec = none

-- Rule.matches
unfoldable pub matches : Rule → Outcome → Counters → Time → ℕ → ℕ → Option Reason
unfolding matches_kind
matches r o c now window bucket_sec = matches_kind (kind_of r.kind) r o c now window bucket_sec

-- Rule.ttl
unfoldable pub ttl : Rule → Policy → Duration
unfolding of_seconds
ttl r fallback =
    of_seconds (if is_le_zero r.ttl_sec then fallback.ban_ttl_sec else to_nat r.ttl_sec)

pub data RuleError : Type 0 where
  unknown_kind no_status no_match : RuleError

pub data RuleResult : Type 0 where
  ok : Rule → RuleResult
  err : RuleError → RuleResult

unfoldable pub is_kind : RuleKind → RuleKind → Bool
is_kind RuleKind.status RuleKind.status = true
is_kind RuleKind.error RuleKind.error = true
is_kind RuleKind.unknown RuleKind.unknown = true
is_kind _ _ = false

unfoldable pub no_elements : List ℕ → Bool
no_elements [] = true
no_elements (x ∷ xs) = false

-- The repaired fields of normalizeRule.
unfoldable pub repaired : Rule → Rule
unfolding kind_text
repaired r =
    let kind = kind_text (kind_of r.kind) in
    let name = trim_space r.name in
    record r {
      name = if is_empty name then kind else name;
      channel = normalize_channel_name r.channel;
      kind = kind;
      match = trim_space r.match;
      rate = if is_neg r.rate || ltb rate_one (to_nat r.rate) then pos 0 else r.rate;
      ttl_sec = if is_neg r.ttl_sec then pos 0 else r.ttl_sec;
    }

unfoldable pub normalize_rule : Rule → RuleResult
unfolding repaired is_kind no_elements
normalize_rule r =
    let kind = kind_of r.kind in
    if is_kind kind RuleKind.unknown
    then err unknown_kind
    else if is_kind kind RuleKind.status && no_elements r.statuses
    then err no_status
    else if is_kind kind RuleKind.error && is_empty (trim_space r.match)
    then err no_match
    else ok (repaired r)
