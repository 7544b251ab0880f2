-- ===== src/ChanPolicy/Policy.antt =====
-- internal/chanpolicy/policy.go: the tunables and their repair. A rate is held in millionths: the
-- comparison of two floats in the source agrees with that of the integers for rates of up to six
-- decimals and counts below 10 ^ 9.
use unified_proxy_pool.Base.{
  ℕ, ◌+◌, ◌*◌, ◌≤◌, ◌<◌, ◌≡◌, refl, Bool, true, false, ◌&&◌, ◌||◌, not, List, [], ◌∷◌, arith, ltb,
  leb, ◌==◌, if◌then◌else◌, Text, codes, text_eq, text_eq_refl, ℤ, pos, is_le_zero, is_neg, to_nat,
  second, Bool-cases, inl, inr,
}
pub mod Laws

-- A rate of 1.
abbrev pub rate_one : ℕ
rate_one = 1_000_000

abbrev pub key_etld1 : Text
key_etld1 = codes "etld1"

abbrev pub key_host : Text
key_host = codes "host"

abbrev pub key_off : Text
key_off = codes "off"

abbrev pub strategy_weighted : Text
strategy_weighted = codes "weighted"

abbrev pub strategy_random : Text
strategy_random = codes "random"

abbrev pub strategy_rr : Text
strategy_rr = codes "rr"

abbrev pub strategy_p2c : Text
strategy_p2c = codes "p2c"

-- The struct as it comes from a configuration: any int.
pub record RawPolicy : Type 0 where
  pub enabled : Bool
  pub key_mode : Text
  pub window_sec : ℤ
  pub consecutive_fails : ℤ
  pub fail_rate : ℤ
  pub min_samples : ℤ
  pub timeout_fails : ℤ
  pub ban_statuses : List ℕ
  pub ban_ttl_sec : ℤ
  pub ban_ttl_max_sec : ℤ
  pub max_channels : ℤ
  pub max_entries_per_chan : ℤ
  pub pick_strategy : Text
  pub cooldown_sec : ℤ
  pub log_retain_hours : ℤ
  pub reprobe_on_expiry : Bool

-- The struct after Normalize, which leaves no field negative.
pub record Policy : Type 0 where
  pub enabled : Bool
  pub key_mode : Text
  pub window_sec : ℕ
  pub consecutive_fails : ℕ
  pub fail_rate : ℕ
  pub min_samples : ℕ
  pub timeout_fails : ℕ
  pub ban_statuses : List ℕ
  pub ban_ttl_sec : ℕ
  pub ban_ttl_max_sec : ℕ
  pub max_channels : ℕ
  pub max_entries_per_chan : ℕ
  pub pick_strategy : Text
  pub cooldown_sec : ℕ
  pub log_retain_hours : ℕ
  pub reprobe_on_expiry : Bool

unfoldable pub defaults : Policy
defaults = record {
  enabled = true;
  key_mode = key_etld1;
  window_sec = 300;
  consecutive_fails = 3;
  fail_rate = 600_000;
  min_samples = 5;
  timeout_fails = 5;
  ban_statuses = 403 ∷ 429 ∷ [];
  ban_ttl_sec = 60;
  ban_ttl_max_sec = 1800;
  max_channels = 500;
  max_entries_per_chan = 2000;
  pick_strategy = strategy_weighted;
  cooldown_sec = 30;
  log_retain_hours = 0;
  reprobe_on_expiry = false;
}

unfoldable pub is_key_mode : Text → Bool
is_key_mode m = text_eq m key_etld1 || text_eq m key_host || text_eq m key_off

unfoldable pub is_strategy : Text → Bool
is_strategy s =
    text_eq s strategy_weighted
    || text_eq s strategy_random
    || text_eq s strategy_rr
    || text_eq s strategy_p2c

-- `if x <= 0 { x = d }`
unfoldable pub positive_or : ℕ → ℤ → ℕ
positive_or d x = if is_le_zero x then d else to_nat x

-- `if x < 0 { x = 0 }`
abbrev pub floor_zero : ℤ → ℕ
floor_zero = to_nat

unfoldable pub clamp_window : ℤ → ℕ
unfolding defaults positive_or
clamp_window x = let w = positive_or defaults.window_sec x in if ltb 3600 w then 3600 else w

unfoldable pub clamp_rate : ℤ → ℕ
unfolding defaults
clamp_rate x = if is_neg x || ltb rate_one (to_nat x) then defaults.fail_rate else to_nat x

-- `if p.BanTTLMaxSec < p.BanTTLSec { p.BanTTLMaxSec = p.BanTTLSec }`
unfoldable pub clamp_max_ttl : ℕ → ℤ → ℕ
clamp_max_ttl ttl x = if is_neg x || ltb (to_nat x) ttl then ttl else to_nat x

unfoldable pub normalize : RawPolicy → Policy
unfolding defaults is_key_mode is_strategy positive_or clamp_window clamp_rate clamp_max_ttl
normalize p = record {
  enabled = p.enabled;
  key_mode = if is_key_mode p.key_mode then p.key_mode else defaults.key_mode;
  window_sec = clamp_window p.window_sec;
  consecutive_fails = floor_zero p.consecutive_fails;
  fail_rate = clamp_rate p.fail_rate;
  min_samples = positive_or defaults.min_samples p.min_samples;
  timeout_fails = floor_zero p.timeout_fails;
  ban_statuses = p.ban_statuses;
  ban_ttl_sec = positive_or defaults.ban_ttl_sec p.ban_ttl_sec;
  ban_ttl_max_sec =
      clamp_max_ttl (positive_or defaults.ban_ttl_sec p.ban_ttl_sec) p.ban_ttl_max_sec;
  max_channels = positive_or defaults.max_channels p.max_channels;
  max_entries_per_chan = positive_or defaults.max_entries_per_chan p.max_entries_per_chan;
  pick_strategy = if is_strategy p.pick_strategy then p.pick_strategy else defaults.pick_strategy;
  cooldown_sec = floor_zero p.cooldown_sec;
  log_retain_hours = positive_or defaults.log_retain_hours p.log_retain_hours;
  reprobe_on_expiry = p.reprobe_on_expiry;
}

-- A repaired policy is again a configuration.
unfoldable pub embed : Policy → RawPolicy
embed p = record {
  enabled = p.enabled;
  key_mode = p.key_mode;
  window_sec = pos p.window_sec;
  consecutive_fails = pos p.consecutive_fails;
  fail_rate = pos p.fail_rate;
  min_samples = pos p.min_samples;
  timeout_fails = pos p.timeout_fails;
  ban_statuses = p.ban_statuses;
  ban_ttl_sec = pos p.ban_ttl_sec;
  ban_ttl_max_sec = pos p.ban_ttl_max_sec;
  max_channels = pos p.max_channels;
  max_entries_per_chan = pos p.max_entries_per_chan;
  pick_strategy = p.pick_strategy;
  cooldown_sec = pos p.cooldown_sec;
  log_retain_hours = pos p.log_retain_hours;
  reprobe_on_expiry = p.reprobe_on_expiry;
}

-- Policy.window, in nanoseconds.
unfoldable pub window : Policy → ℕ
window p = p.window_sec * second

unfoldable pub member : ℕ → List ℕ → Bool
member a [] = false
member a (b ∷ l) = b == a || member a l

-- Policy.bansStatus
unfoldable pub bans_status : Policy → ℕ → Bool
unfolding member
bans_status p status = if leb status 0 then false else member status p.ban_statuses

-- Policy.idleResetAfter
unfoldable pub idle_reset_after : Policy → ℕ
unfolding window
idle_reset_after p =
    let d : ℕ = 600 * second in let w : ℕ = 2 * window p in if ltb d w then w else d
