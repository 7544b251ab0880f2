-- ===== src/ChanPolicy/Window.antt =====
-- internal/chanpolicy/window.go: a ring of six buckets of outcomes for each channel and proxy.
pub mod History
pub mod Slots
pub mod Refinement
use unified_proxy_pool.Base.{
  ℕ, ◌+◌, ◌-◌, ◌/◌, ◌%◌, ◌≡◌, Bool, true, false, ◌&&◌, ◌||◌, not, List, [], ◌∷◌, arith, ltb, leb,
  ◌==◌, if◌then◌else◌, get_or, set, replicate, Time, is_zero, unix,
}

abbrev pub num_buckets : ℕ
num_buckets = 6

pub record Bucket : Type 0 where
  pub idx : ℕ
  pub ok : ℕ
  pub fail : ℕ
  pub timeout : ℕ

pub record Counters : Type 0 where
  pub buckets : List Bucket
  pub consec_fails : ℕ
  pub last_outcome_at : Time

abbrev pub fresh : ℕ → Bucket
fresh i = record { idx = i; ok = 0; fail = 0; timeout = 0 }

-- counters{}
unfoldable pub no_counters : Counters
no_counters = record {
  buckets = replicate num_buckets (fresh 0);
  consec_fails = 0;
  last_outcome_at = 0;
}

unfoldable pub bucket_index : Time → ℕ → ℕ
bucket_index now bucket_sec = if leb bucket_sec 0 then unix now / 1 else unix now / bucket_sec

-- counters.slot: the bucket at the ring position of idx, reset if it holds an older slice.
unfoldable pub slot : List Bucket → ℕ → Bucket
slot bs idx =
    let b = get_or bs (idx % num_buckets) (fresh 0) in if b.idx == idx then b else fresh idx

-- The counts of one outcome.
unfoldable pub bump : Bucket → Bool → Bool → Bucket
bump b ok timed_out =
    if ok
    then record b { ok = b.ok + 1 }
    else record b { fail = b.fail + 1; timeout = if timed_out then b.timeout + 1 else b.timeout }

-- The streak after one outcome.
unfoldable pub streak : Counters → Time → Bool → ℕ → ℕ
streak c now ok stale_after =
    if ok
    then 0
    else if not (is_zero c.last_outcome_at) && ltb stale_after (now - c.last_outcome_at)
    then 1
    else c.consec_fails + 1

unfoldable pub record_outcome : Counters → Time → ℕ → Bool → Bool → ℕ → Counters
unfolding bucket_index slot bump streak
record_outcome c now bucket_sec ok timed_out stale_after =
    let idx = bucket_index now bucket_sec in
    record {
      buckets = set c.buckets (idx % num_buckets) (bump (slot c.buckets idx) ok timed_out);
      consec_fails = streak c now ok stale_after;
      last_outcome_at = now;
    }

-- The bucket lies in the six slices that end with cur: `oldest = cur - numBuckets + 1`.
unfoldable pub in_window : ℕ → ℕ → Bool
in_window cur i = ltb cur (i + num_buckets) && leb i cur

pub record Sums : Type 0 where
  pub ok : ℕ
  pub fail : ℕ
  pub timeout : ℕ

unfoldable pub sum_buckets : ℕ → List Bucket → Sums
unfolding in_window
sum_buckets cur [] = record { ok = 0; fail = 0; timeout = 0 }
sum_buckets cur (b ∷ bs) =
    let rest = sum_buckets cur bs in
    if in_window cur b.idx
    then record {
      ok = b.ok + rest.ok;
      fail = b.fail + rest.fail;
      timeout = b.timeout + rest.timeout;
    }
    else rest

unfoldable pub sum : Counters → Time → ℕ → Sums
unfolding bucket_index sum_buckets
sum c now bucket_sec = sum_buckets (bucket_index now bucket_sec) c.buckets

unfoldable pub consecutive : Counters → Time → ℕ → ℕ
consecutive c now stale_after =
    if c.consec_fails == 0
    then 0
    else if not (is_zero c.last_outcome_at) && ltb stale_after (now - c.last_outcome_at)
    then 0
    else c.consec_fails

-- counters.empty
unfoldable pub no_data : Counters → Time → ℕ → Bool
unfolding sum
no_data c now bucket_sec =
    let s = sum c now bucket_sec in s.ok == 0 && s.fail == 0 && s.timeout == 0
