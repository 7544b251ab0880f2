-- ===== src/ChanPolicy/Tests.antt =====
-- Runs of the channel policy, and the theorems about it at concrete inputs.
use Prim.Native.Nat.{min}
use unified_proxy_pool.Base.{
  ℕ, ◌+◌, ◌*◌, ◌^◌, ◌-◌, ◌≤◌, ◌≡◌, ◌≢◌, refl, Bool, true, false, ◌||◌, ◌⊎◌, inl, inr, List, [], ◌∷◌,
  arith, ltb, Text, codes, text_eq, ne_of_text_eq, is_empty, to_lower, trim_space, trim_left,
  contains, Option, none, some, Time, Dict, lookup, insert, erase, length, drop, ℤ, pos, negsuc,
  second, is_zero,
}
use unified_proxy_pool.ChanPolicy.Policy.{
  Policy, RawPolicy, normalize, embed, defaults, key_etld1, strategy_rr, is_key_mode, is_strategy,
  positive_or, clamp_window, clamp_rate, clamp_max_ttl, bans_status, window, idle_reset_after,
}
use unified_proxy_pool.ChanPolicy.Policy.Laws.{IsUsable, normalize-IsUsable, normalize_idem}
use unified_proxy_pool.ChanPolicy.Window.{
  sum, bucket_index, no_counters, record_outcome, slot, bump, streak, consecutive, in_window,
  sum_buckets,
}
use unified_proxy_pool.ChanPolicy.Window.History.{Seen, replay, window_sums, tally}
use unified_proxy_pool.ChanPolicy.Window.Refinement.{sum-replay}
use unified_proxy_pool.ChanPolicy.Log.{LogEntry, new_log_ring, add, no_reason, status_code}
use unified_proxy_pool.ChanPolicy.Log.Laws.{add_all, add_all-new_log_ring}
use unified_proxy_pool.ChanPolicy.Rule.{Outcome}
use unified_proxy_pool.ChanPolicy.Registry.State.{
  Registry, Entry, Ban, Allow, new, pair, banned, emit, bucket_sec,
}
use unified_proxy_pool.ChanPolicy.Registry.Evict.{
  victim_of, new_entry, evict_entry, entry_locked, channel_locked, evict_channel, has_bans,
}
use unified_proxy_pool.ChanPolicy.Registry.Evict.Victim.{IsVictim, victim_of-IsVictim}
use unified_proxy_pool.ChanPolicy.Registry.Evaluate.{ban_ttl, evaluate, is_timeout, allowed}
use unified_proxy_pool.ChanPolicy.Registry.Evaluate.Ttl.{ban_ttl-eq-min}
use unified_proxy_pool.ChanPolicy.Registry.Invariant.{Inv, new-Inv}
use unified_proxy_pool.ChanPolicy.Registry.Outcomes.{
  record_outcome_of, clean_addr, clean_channel, observe, count_outcome, update_pair, announce,
}
use unified_proxy_pool.ChanPolicy.Name.{normalize_channel_name, canonical_host, has_target_byte}
use unified_proxy_pool.ChanPolicy.Registry.Outcomes.Laws.{record-Inv}
use unified_proxy_pool.ChanPolicy.Registry.Outcomes.Bans.{NoRoom, record_bans, record_others}
use unified_proxy_pool.ChanPolicy.Registry.Outcomes.Protected.{
  record_all, record_all-allowed, record-fail_waiting, record-ok_waiting,
}
use unified_proxy_pool.ChanPolicy.Registry.Views.{is_banned}
mod Releases
mod Rulings

unfoldable pub program : Unit {0}
unfolding normalize embed defaults text_eq bucket_index record_outcome sum consecutive new emit
    bucket_sec evict_entry entry_locked channel_locked evict_channel evaluate is_timeout
    record_outcome_of observe count_outcome update_pair announce lookup insert erase to_lower
    trim_space is_banned banned pair bans_status window idle_reset_after normalize_channel_name
    no_counters clean_addr clean_channel contains
program = tt

abbrev pub raw : RawPolicy
raw = record {
  enabled = true;
  key_mode = codes "etld1";
  window_sec = negsuc 4;
  consecutive_fails = pos 3;
  fail_rate = negsuc 0;
  min_samples = pos 5;
  timeout_fails = pos 5;
  ban_statuses = 403 ∷ 429 ∷ [];
  ban_ttl_sec = pos 60;
  ban_ttl_max_sec = pos 1800;
  max_channels = pos 2;
  max_entries_per_chan = pos 2;
  pick_strategy = codes "best";
  cooldown_sec = pos 30;
  log_retain_hours = pos 0;
  reprobe_on_expiry = true;
}

normalize-IsUsable_example : IsUsable (normalize raw)
normalize-IsUsable_example = normalize-IsUsable raw

normalize_idem_example : normalize (embed (normalize raw)) ≡ normalize raw
normalize_idem_example = normalize_idem raw

-- Midnight of January 1, 2026.
abbrev pub day : Time
day = 63_902_822_400 * second

abbrev seen_history : List Seen
seen_history =
    record { at = day + 400 * second; ok = false; timed_out = true }
    ∷ record { at = day + 120 * second; ok = true; timed_out = false }
    ∷ record { at = day; ok = false; timed_out = false }
    ∷ []

sum-replay_example :
    sum (replay 50 (300 * second) seen_history) (day + 401 * second) 50
    ≡ window_sums 50 (bucket_index (day + 401 * second) 50) seen_history
unfolding bucket_index
sum-replay_example = sum-replay 50 (300 * second) (day + 401 * second) seen_history (omega arith)

window_example :
    sum (replay 50 (300 * second) seen_history) (day + 401 * second) 50
    ≡ record { ok = 0; fail = 1; timeout = 1 }
unfolding replay program
window_example = refl

abbrev line : LogEntry
line = record {
  at = day;
  channel = codes "a.com";
  addr = codes "10.0.0.1:80";
  ok = true;
  status = 200;
  err = [];
  latency_ms = 10;
  reported = false;
  banned = false;
  reason = no_reason;
}

add_all-new_log_ring_example :
    (add_all (new_log_ring 2) (line ∷ line ∷ line ∷ [])).items ≡ line ∷ line ∷ []
add_all-new_log_ring_example = add_all-new_log_ring 2 (line ∷ line ∷ line ∷ []) (omega arith)

abbrev two_entries : Dict Entry
two_entries = (codes "b", new_entry 9) ∷ (codes "a", new_entry 4) ∷ []

victim_of-IsVictim_example :
    IsVictim
      (λ e. e.last_seen_at)
      (λ e. banned e day)
      (victim_of (λ e. banned e day) (λ e. e.last_seen_at) two_entries)
      two_entries
unfolding lookup text_eq
victim_of-IsVictim_example =
    victim_of-IsVictim (λ e. e.last_seen_at) (λ e. banned e day) two_entries (λ e. cc)
      (refl, (refl, tt)) (refl, (refl, tt))

ban_ttl-eq-min_example :
    ban_ttl defaults 3
    ≡ min (defaults.ban_ttl_sec * second * 2 ^ 3) (defaults.ban_ttl_max_sec * second)
unfolding defaults
ban_ttl-eq-min_example = ban_ttl-eq-min defaults 3 (omega arith) (omega arith)

abbrev pub forbidden : Outcome
forbidden = record {
  channel = codes "A.com";
  addr = codes " 10.0.0.1:80";
  ok = false;
  status = 403;
  err = codes "forbidden";
  latency_ms = 12;
  reported = false;
}

abbrev start : Registry
start = new raw

record-Inv_example : Inv (record_outcome_of forbidden day start).0
record-Inv_example = record-Inv forbidden day start (new-Inv raw)

abbrev first_ban : Ban
first_ban = record {
  channel = codes "a.com";
  addr = codes "10.0.0.1:80";
  reason = status_code 403;
  banned_at = day;
  until = day + 60 * second;
  strikes = 1;
  ttl_sec = pos 60;
  pending = false;
}

first_ban_test : (record_outcome_of forbidden day start).1 ≡ some first_ban
unfolding program
first_ban_test = refl

record_bans_example :
    is_banned
      (record_outcome_of forbidden day start).0
      (codes "a.com")
      (codes "10.0.0.1:80")
      (day + 61 * second)
    ≡ true
unfolding program
record_bans_example =
    (record_bans forbidden day start first_ban (new-Inv raw) first_ban_test).4 (day + 61 * second)

record_others_example :
    (pair (record_outcome_of forbidden day start).0 (codes "b.com") (codes "10.0.0.1:80")
      ≡ pair start (codes "b.com") (codes "10.0.0.1:80"))
    ⊎ ((pair (record_outcome_of forbidden day start).0 (codes "b.com") (codes "10.0.0.1:80") ≡ none)
        × NoRoom forbidden start)
unfolding program
record_others_example =
    record_others forbidden day start (codes "b.com") (codes "10.0.0.1:80") (new-Inv raw)
      (inl (ne_of_text_eq (codes "a.com") (codes "b.com") refl))

abbrev guarded : Registry
guarded = record start {
  allows =
      (
        codes "a.com",
        (
          codes "10.0.0.1:80",
          record {
            channel = codes "a.com";
            addr = codes "10.0.0.1:80";
            reason = [];
            created_at = day;
          },
        )
            ∷ [],
      )
      ∷ [];
}

guarded-Inv : Inv guarded
guarded-Inv = record {
  usable = start-Inv.usable;
  chans = start-Inv.chans;
  entries = start-Inv.entries;
}
  where
    start-Inv : Inv start
    start-Inv = new-Inv raw

record_all-allowed_example :
    is_banned
      (record_all ((day, forbidden) ∷ (day + second, forbidden) ∷ []) guarded)
      (codes "a.com")
      (codes "10.0.0.1:80")
      (day + second)
    ≡ false
unfolding program allowed
record_all-allowed_example =
    record_all-allowed ((day, forbidden) ∷ (day + second, forbidden) ∷ []) guarded (codes "a.com")
      (codes "10.0.0.1:80") (day + second) guarded-Inv refl (inl refl)

-- After the ban of `forbidden` the pair waits for a success.
abbrev pub waiting : Registry
waiting = (record_outcome_of forbidden day start).0

pub waiting-Inv : Inv waiting
waiting-Inv = record-Inv forbidden day start (new-Inv raw)

abbrev waiting_entry : Entry
waiting_entry = record (new_entry day) {
  counters =
      record_outcome no_counters day (bucket_sec (normalize raw)) false false
        (window (normalize raw));
  banned_until = day + 60 * second;
  ban_reason = status_code 403;
  strikes = 1;
  last_ban_at = day;
  pending_reprobe = true;
}

record-fail_waiting_example :
    ((record_outcome_of forbidden (day + 90 * second) waiting).1 ≡ none)
    × (is_banned
          (record_outcome_of forbidden (day + 90 * second) waiting).0
          (clean_channel (codes "A.com"))
          (clean_addr (codes " 10.0.0.1:80"))
          (day + 95 * second)
        ≡ true)
unfolding program
record-fail_waiting_example =
    record-fail_waiting forbidden (day + 90 * second) (day + 95 * second) waiting waiting_entry
      waiting-Inv refl refl refl refl refl

record-ok_waiting_example :
    is_banned
      (record_outcome_of
        (record forbidden { ok = true; status = 200 })
        (day + 90 * second)
        waiting).0
      (clean_channel (codes "A.com"))
      (clean_addr (codes " 10.0.0.1:80"))
      (day + 90 * second)
    ≡ false
unfolding program
record-ok_waiting_example =
    record-ok_waiting (record forbidden { ok = true; status = 200 }) (day + 90 * second)
      (day + 90 * second) waiting waiting_entry waiting-Inv refl refl refl refl refl refl
