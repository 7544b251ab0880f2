-- ===== src/ChanPolicy/Policy/Laws.antt =====
-- Policy.Normalize (internal/chanpolicy/policy.go): the ranges that the registry relies on.
use unified_proxy_pool.Base.{
  ℕ, ◌≤◌, ◌≡◌, refl, Bool, true, arith, if◌then◌else◌, Text, text_eq, ℤ, pos, negsuc,
}
use unified_proxy_pool.ChanPolicy.Policy.{
  Policy, RawPolicy, normalize, embed, rate_one, positive_or, clamp_window, clamp_rate,
  clamp_max_ttl, is_key_mode, is_strategy, defaults,
}

-- What the registry relies on.
pub record IsUsable (p : Policy) : Type 0 where
  pub window_low : 1 ≤ p.window_sec
  pub window_high : p.window_sec ≤ 3600
  pub rate_high : p.fail_rate ≤ rate_one
  pub samples : 1 ≤ p.min_samples
  pub ttl : 1 ≤ p.ban_ttl_sec
  pub ttl_max : p.ban_ttl_sec ≤ p.ban_ttl_max_sec
  pub channels : 1 ≤ p.max_channels
  pub entries : 1 ≤ p.max_entries_per_chan
  pub mode : is_key_mode p.key_mode ≡ true
  pub strategy : is_strategy p.pick_strategy ≡ true

positive_or-pos : (d : ℕ) (x : ℤ) → 1 ≤ d → 1 ≤ positive_or d x
unfolding positive_or
positive_or-pos d (pos n) h = ground arith
positive_or-pos d (negsuc n) h = h

clamp_window_bounds : (x : ℤ) → (1 ≤ clamp_window x) × (clamp_window x ≤ 3600)
unfolding clamp_window
clamp_window_bounds (pos n) = ground arith
clamp_window_bounds (negsuc n) = omega arith

clamp_rate_bound : (x : ℤ) → clamp_rate x ≤ rate_one
unfolding clamp_rate
clamp_rate_bound (pos n) = ground arith
clamp_rate_bound (negsuc n) = omega arith

clamp_max_ttl_bound : (ttl : ℕ) (x : ℤ) → ttl ≤ clamp_max_ttl ttl x
unfolding clamp_max_ttl
clamp_max_ttl_bound ttl (pos n) = ground arith
clamp_max_ttl_bound ttl (negsuc n) = omega arith

if_keeps : (f : Text → Bool) (d x : Text) → f d ≡ true → f (if f x then x else d) ≡ true
if_keeps f d x h = ground arith

default_mode : is_key_mode defaults.key_mode ≡ true
unfolding is_key_mode defaults text_eq
default_mode = refl

default_strategy : is_strategy defaults.pick_strategy ≡ true
unfolding is_strategy defaults text_eq
default_strategy = refl

-- Normalize repairs every configuration into the ranges of `IsUsable`: a window of 1 to 3600
-- seconds, a rate of at most 1, at least one sample, channel and entry, a base TTL of at least a
-- second that does not exceed the maximum, and a key mode and a strategy that the program knows.
pub normalize-IsUsable : (p : RawPolicy) → IsUsable (normalize p)
unfolding normalize
normalize-IsUsable p = record {
  window_low = (clamp_window_bounds p.window_sec).0;
  window_high = (clamp_window_bounds p.window_sec).1;
  rate_high = clamp_rate_bound p.fail_rate;
  samples = positive_or-pos 5 p.min_samples (omega arith);
  ttl = positive_or-pos 60 p.ban_ttl_sec (omega arith);
  ttl_max = clamp_max_ttl_bound _ p.ban_ttl_max_sec;
  channels = positive_or-pos 500 p.max_channels (omega arith);
  entries = positive_or-pos 2000 p.max_entries_per_chan (omega arith);
  mode = if_keeps is_key_mode defaults.key_mode p.key_mode default_mode;
  strategy = if_keeps is_strategy defaults.pick_strategy p.pick_strategy default_strategy;
}

clamp_window_idem : (x : ℤ) → clamp_window (pos (clamp_window x)) ≡ clamp_window x
unfolding clamp_window
clamp_window_idem (pos n) = ground arith
clamp_window_idem (negsuc n) = refl

positive_or_idem : (d : ℕ) (x : ℤ) → positive_or d (pos (positive_or d x)) ≡ positive_or d x
unfolding positive_or
positive_or_idem d (pos n) = ground arith
positive_or_idem d (negsuc n) = ground arith

clamp_rate_idem : (x : ℤ) → clamp_rate (pos (clamp_rate x)) ≡ clamp_rate x
unfolding clamp_rate
clamp_rate_idem (pos n) = ground arith
clamp_rate_idem (negsuc n) = refl

clamp_max_ttl_idem :
    (ttl : ℕ) (x : ℤ) → clamp_max_ttl ttl (pos (clamp_max_ttl ttl x)) ≡ clamp_max_ttl ttl x
unfolding clamp_max_ttl
clamp_max_ttl_idem ttl (pos n) = ground arith
clamp_max_ttl_idem ttl (negsuc n) = ground arith

if_idem :
    (f : Text → Bool) (d x : Text)
    → f d ≡ true
    → (if f (if f x then x else d) then (if f x then x else d) else d) ≡ (if f x then x else d)
if_idem f d x h = ground arith

-- Repairing a repaired policy changes nothing.
pub normalize_idem : (p : RawPolicy) → normalize (embed (normalize p)) ≡ normalize p
unfolding normalize embed
normalize_idem p = λ i. record {
  enabled = p.enabled;
  key_mode = if_idem is_key_mode defaults.key_mode p.key_mode default_mode i;
  window_sec = clamp_window_idem p.window_sec i;
  consecutive_fails = (normalize p).consecutive_fails;
  fail_rate = clamp_rate_idem p.fail_rate i;
  min_samples = positive_or_idem 5 p.min_samples i;
  timeout_fails = (normalize p).timeout_fails;
  ban_statuses = p.ban_statuses;
  ban_ttl_sec = positive_or_idem 60 p.ban_ttl_sec i;
  ban_ttl_max_sec = max_ttl_idem i;
  max_channels = positive_or_idem 500 p.max_channels i;
  max_entries_per_chan = positive_or_idem 2000 p.max_entries_per_chan i;
  pick_strategy = if_idem is_strategy defaults.pick_strategy p.pick_strategy default_strategy i;
  cooldown_sec = (normalize p).cooldown_sec;
  log_retain_hours = positive_or_idem 0 p.log_retain_hours i;
  reprobe_on_expiry = p.reprobe_on_expiry;
}
  where
    max_ttl_idem :
        clamp_max_ttl
          (positive_or 60 (pos (positive_or 60 p.ban_ttl_sec)))
          (pos (clamp_max_ttl (positive_or 60 p.ban_ttl_sec) p.ban_ttl_max_sec))
        ≡ clamp_max_ttl (positive_or 60 p.ban_ttl_sec) p.ban_ttl_max_sec
    max_ttl_idem = rw (positive_or_idem 60 p.ban_ttl_sec) (clamp_max_ttl_idem _ p.ban_ttl_max_sec)
