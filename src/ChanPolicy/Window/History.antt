-- ===== src/ChanPolicy/Window/History.antt =====
-- The abstract view of a ring: the outcomes themselves, newest first. A tally weighs those that pass
-- a test.
use unified_proxy_pool.Base.{ℕ, ◌+◌, ◌≤◌, Bool, List, [], ◌∷◌, if◌then◌else◌, Time}
use unified_proxy_pool.ChanPolicy.Window.{
  Counters, Sums, no_counters, record_outcome, bucket_index, in_window,
}

pub record Seen : Type 0 where
  pub at : Time
  pub ok : Bool
  pub timed_out : Bool

-- The counters after a history.
unfoldable pub replay : ℕ → ℕ → List Seen → Counters
replay bucket_sec stale_after [] = no_counters
replay bucket_sec stale_after (e ∷ h) =
    record_outcome (replay bucket_sec stale_after h) e.at bucket_sec e.ok e.timed_out stale_after

-- The clock did not step back, and stands at `now` at the end.
abbrev pub InOrder : ℕ → ℕ → List Seen → Type 0
InOrder bucket_sec top [] = Unit {0}
InOrder bucket_sec top (e ∷ h) =
    (bucket_index e.at bucket_sec ≤ top) × InOrder bucket_sec (bucket_index e.at bucket_sec) h

abbrev pub ok_weight : Seen → ℕ
ok_weight e = if e.ok then 1 else 0

abbrev pub fail_weight : Seen → ℕ
fail_weight e = if e.ok then 0 else 1

abbrev pub timeout_weight : Seen → ℕ
timeout_weight e = if e.ok then 0 else if e.timed_out then 1 else 0

unfoldable pub tally : (Seen → ℕ) → (Seen → Bool) → List Seen → ℕ
tally w f [] = 0
tally w f (e ∷ h) = if f e then w e + tally w f h else tally w f h

-- The outcomes of the last six slices, counted one by one.
unfoldable pub window_sums : ℕ → ℕ → List Seen → Sums
window_sums bucket_sec cur h = record {
  ok = tally ok_weight (λ e. in_window cur (bucket_index e.at bucket_sec)) h;
  fail = tally fail_weight (λ e. in_window cur (bucket_index e.at bucket_sec)) h;
  timeout = tally timeout_weight (λ e. in_window cur (bucket_index e.at bucket_sec)) h;
}
