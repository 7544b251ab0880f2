-- ===== src/SourceStats.antt =====
-- internal/sourcestats: how the sources of proxies have done, and which of them are switched off for a
-- while. A rate is compared as the fraction that it is, against a limit in millionths.
use unified_proxy_pool.Base.{
  ℕ, zero, suc, ◌+◌, ◌-◌, ◌*◌, ◌^◌, Bool, true, false, not, ◌&&◌, ◌||◌, List, [], ◌∷◌, ◌++◌, ltb,
  leb, ◌==◌, if◌then◌else◌, Text, codes, is_empty, Option, none, some, Time, second, is_zero, Dict,
  lookup, insert, map_values, length, drop, ℤ, is_le_zero, to_nat,
}
pub mod Calls
pub mod Penalty
pub mod Recent
pub mod Saved
mod Tests

abbrev pub window_cap : ℕ
window_cap = 50

-- The averages and rates that follow from the counters are left out. The window has the newest
-- outcome last.
pub record Stat : Type 0 where
  pub name : Text
  pub ok : ℕ
  pub fail : ℕ
  pub latency_sum_ms : ℕ
  pub recent_ok : ℕ
  pub recent_fail : ℕ
  pub disabled_until : Time
  pub auto_disabled : Bool
  pub strikes : ℕ
  pub window : List Bool

pub record Registry : Type 0 where
  pub m : Dict Stat
  pub dirty : Bool

unfoldable pub new_registry : Registry
new_registry = record { m = []; dirty = false }

abbrev pub new_stat : Text → Stat
new_stat name = record {
  name = name;
  ok = 0;
  fail = 0;
  latency_sum_ms = 0;
  recent_ok = 0;
  recent_fail = 0;
  disabled_until = 0;
  auto_disabled = false;
  strikes = 0;
  window = [];
}

unfoldable pub count_of : Bool → List Bool → ℕ
count_of b [] = 0
count_of true (true ∷ bs) = count_of true bs + 1
count_of true (false ∷ bs) = count_of true bs
count_of false (true ∷ bs) = count_of false bs
count_of false (false ∷ bs) = count_of false bs + 1

unfoldable pub recount_recent : Stat → Stat
unfolding count_of
recount_recent st = record st {
  recent_ok = count_of true st.window;
  recent_fail = count_of false st.window;
}

unfoldable pub push_window : Bool → Stat → Stat
unfolding recount_recent
push_window ok st =
    let w = st.window ++ ok ∷ [] in
    let kept = if ltb window_cap (length w) then drop (length w - window_cap) w else w in
    recount_recent (record st { window = kept })

-- The counters of Record.
unfoldable pub counted : Bool → ℤ → Stat → Stat
counted true latency_ms st = record st {
  ok = st.ok + 1;
  latency_sum_ms =
      if is_le_zero latency_ms then st.latency_sum_ms else st.latency_sum_ms + to_nat latency_ms;
}
counted false latency_ms st = record st { fail = st.fail + 1 }

abbrev pub stat_or_new : Text → Option Stat → Stat
stat_or_new name none = new_stat name
stat_or_new name (some st) = st

unfoldable pub record_result : Text → Bool → ℤ → Registry → Registry
unfolding counted push_window
record_result source ok latency_ms r =
    let name : Text = if is_empty source then codes "unknown" else source in
    let st = stat_or_new name (lookup name r.m) in
    record r { m = insert name (push_window ok (counted ok latency_ms st)) r.m; dirty = true }

abbrev pub hour : ℕ
hour = 3600 * second

-- The penalty after a number of strikes: 1, 2, 4, 8, and then 16 hours.
unfoldable pub penalty : ℕ → ℕ
penalty strikes =
    let shift = if ltb 4 (strikes - 1) then 4 else strikes - 1 in
    let ttl = 2 ^ shift * hour in if ltb (24 * hour) ttl then 24 * hour else ttl

-- Whether a rate of the recent outcomes is below a limit in millionths.
unfoldable pub is_low : ℕ → Stat → Bool
is_low min_rate st = ltb (st.recent_ok * 1000000) (min_rate * (st.recent_ok + st.recent_fail))

-- A turn of Evaluate's loop.
unfoldable pub evaluate_stat : ℕ → ℕ → Time → Stat → Stat
unfolding is_low penalty
evaluate_stat min_samples min_rate now st =
    let expired =
      st.auto_disabled && not (is_zero st.disabled_until) && leb st.disabled_until now in
    let enabled : Stat = record st { auto_disabled = false; disabled_until = 0 } in
    let strikes = st.strikes + 1 in
    if ltb (st.recent_ok + st.recent_fail) min_samples
    then (if expired then enabled else st)
    else if is_low min_rate st
    then (if st.auto_disabled && ltb now st.disabled_until then st else record st {
      auto_disabled = true;
      strikes = strikes;
      disabled_until = now + penalty strikes;
    })
    else if st.auto_disabled && (expired || is_zero st.disabled_until)
    then record enabled { strikes = 0 }
    else st

unfoldable pub evaluate : ℤ → ℕ → Time → Registry → Registry
unfolding evaluate_stat
evaluate min_samples min_rate now r =
    let samples = if ltb (to_nat min_samples) 5 then 5 else to_nat min_samples in
    if min_rate == 0
    then r
    else record r { m = map_values (evaluate_stat samples min_rate now) r.m; dirty = true }

unfoldable pub effectively_disabled : Time → Stat → Bool
effectively_disabled now st =
    if not st.auto_disabled
    then false
    else if is_zero st.disabled_until
    then true
    else ltb now st.disabled_until

unfoldable pub is_disabled : Text → Time → Registry → Bool
unfolding effectively_disabled
is_disabled source now r = elim (lookup source r.m) [
  | none ↦ false
  | some st ↦ effectively_disabled now st
]

unfoldable pub reenable : Text → Registry → Registry
reenable name r = elim (lookup name r.m) [
  | none ↦ r
  | some st ↦
      let enabled : Stat = record st { auto_disabled = false; disabled_until = 0; strikes = 0 } in
      record r { m = insert name enabled r.m; dirty = true }
]

-- A row of the table; `disabled_until` is none where the column is null.
pub record SourceStatRow : Type 0 where
  pub name : Text
  pub ok : ℕ
  pub fail : ℕ
  pub latency_sum_ms : ℕ
  pub auto_disabled : Bool
  pub disabled_until : Option Time

-- A turn of flush's loop, on the copy that List makes.
unfoldable pub row_of : Time → Stat → SourceStatRow
unfolding effectively_disabled
row_of now st = record {
  name = st.name;
  ok = st.ok;
  fail = st.fail;
  latency_sum_ms = st.latency_sum_ms;
  auto_disabled = effectively_disabled now st;
  disabled_until = if is_zero st.disabled_until then none else some st.disabled_until;
}

unfoldable pub rows_of : Time → Dict Stat → List SourceStatRow
unfolding row_of
rows_of now [] = []
rows_of now ((name, st) ∷ m) = row_of now st ∷ rows_of now m

-- flush, with a database attached, which `wrote` the rows or failed to.
unfoldable pub flush : Bool → Time → Registry → Option (List SourceStatRow) × Registry
unfolding rows_of
flush wrote now r =
    if not r.dirty then (none, r) else (some (rows_of now r.m), record r { dirty = not wrote })

abbrev pub until_of : Option Time → Time
until_of none = 0
until_of (some t) = t

unfoldable pub stat_of : SourceStatRow → Stat
stat_of row = record (new_stat row.name) {
  ok = row.ok;
  fail = row.fail;
  latency_sum_ms = row.latency_sum_ms;
  auto_disabled = row.auto_disabled;
  disabled_until = until_of row.disabled_until;
}

unfoldable pub load : List SourceStatRow → Registry → Registry
unfolding stat_of
load [] r = r
load (row ∷ rows) r = load rows (record r { m = insert row.name (stat_of row) r.m })
