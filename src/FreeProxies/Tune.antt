-- ===== src/FreeProxies/Tune.antt =====
-- internal/freproxies/sourcetune.go: which sources the history of their yields speaks against. The texts
-- of the reasons are left out. A ratio is in millionths; a limit that is not positive is 0.
use unified_proxy_pool.Base.{
  ℕ, zero, suc, ◌+◌, ◌-◌, ◌*◌, ◌≤◌, ◌≡◌, refl, Bool, true, false, not, ◌&&◌, ◌||◌, List, [], ◌∷◌,
  map, ltb, leb, ◌==◌, if◌then◌else◌, Text, codes, text_eq, text_lt, Option, none, some, Time,
  length, sort_by,
}
pub mod Floor
pub mod Yields
mod Tests

pub record TuneConfig : Type 0 where
  pub min_runs : ℕ
  pub consecutive_dead : ℕ
  pub global_failure : ℕ
  pub min_enabled : ℕ
  pub min_estimate : ℕ

abbrev pub default_tune_config : TuneConfig
default_tune_config = record {
  min_runs = 3;
  consecutive_dead = 3;
  global_failure = 500000;
  min_enabled = 3;
  min_estimate = 1;
}

pub record SourceYieldRecord : Type 0 where
  pub source : Text
  pub measure_at : Time
  pub fetched : ℕ
  pub sampled : ℕ
  pub alive : ℕ
  pub estimate : ℕ
  pub action : Text

pub record TuneInput : Type 0 where
  pub source : Text
  pub enabled : Bool
  pub records : List SourceYieldRecord

pub data Action : Type 0 where
  disable : Action
  enable : Action
  keep : Action
  skip : Action

pub record TuneDecision : Type 0 where
  pub source : Text
  pub action : Action

unfoldable pub looks_dead : SourceYieldRecord → Bool
unfolding text_eq
looks_dead rec =
    if ltb rec.sampled 20 then false else text_eq rec.action (codes "DISABLE") || rec.alive == 0

unfoldable pub leading_dead : List SourceYieldRecord → ℕ
unfolding looks_dead
leading_dead [] = 0
leading_dead (r ∷ rs) = let rest = leading_dead rs in if looks_dead r then rest + 1 else 0

abbrev pub newest_dead : List SourceYieldRecord → Bool
newest_dead [] = false
newest_dead (r ∷ rs) = looks_dead r

-- The sources with enough history, and those of them whose newest measurement is dead.
unfoldable pub evaluable : ℕ → List TuneInput → ℕ × ℕ
unfolding looks_dead
evaluable min_runs [] = (0, 0)
evaluable min_runs (i ∷ is) =
    let (n, dead) = evaluable min_runs is in
    if ltb (length i.records) min_runs
    then (n, dead)
    else (n + 1, if newest_dead i.records then dead + 1 else dead)

-- What speaks for a source that is off, by its newest measurement.
unfoldable pub decide_off : TuneConfig → SourceYieldRecord → Action
unfolding looks_dead text_eq
decide_off cfg newest =
    if text_eq newest.action (codes "OVERSIZED")
    then keep
    else if looks_dead newest
    then keep
    else if ltb newest.estimate cfg.min_estimate
    then keep
    else enable

-- No history and no need of one: the source would panic on the newest of no measurements; a limit of at
-- least one run excludes it.
abbrev pub decide_with : TuneConfig → Bool → List SourceYieldRecord → Action
decide_with cfg enabled [] = skip
decide_with cfg true (r ∷ rs) =
    if leb cfg.consecutive_dead (leading_dead (r ∷ rs)) then disable else keep
decide_with cfg false (r ∷ rs) = decide_off cfg r

unfoldable pub decide_one : TuneConfig → TuneInput → TuneDecision
unfolding leading_dead decide_off
decide_one cfg i = record {
  source = i.source;
  action =
      if ltb (length i.records) cfg.min_runs then skip else decide_with cfg i.enabled i.records;
}

abbrev pub rank : Action → ℕ
rank disable = 0
rank enable = 1
rank keep = 2
rank skip = 3

unfoldable pub acted_first : TuneDecision → TuneDecision → Bool
unfolding text_lt
acted_first a b =
    if not (rank a.action == rank b.action)
    then ltb (rank a.action) (rank b.action)
    else text_lt a.source b.source

unfoldable pub count_enabled : List TuneInput → ℕ
count_enabled [] = 0
count_enabled (i ∷ is) = let n = count_enabled is in if i.enabled then n + 1 else n

abbrev pub is_disable : Action → Bool
is_disable disable = true
is_disable enable = false
is_disable keep = false
is_disable skip = false

-- The loop of applyEnabledFloor, from a number of sources that would stay enabled.
unfoldable pub floor_from : ℕ → ℕ → List TuneDecision → List TuneDecision
floor_from least projected [] = []
floor_from least projected (d ∷ ds) =
    let untouched = d ∷ floor_from least projected ds in
    let done = d ∷ floor_from least (projected - 1) ds in
    let kept = record d { action = keep } ∷ floor_from least projected ds in
    if not (is_disable d.action) then untouched else if ltb least projected then done else kept

unfoldable pub apply_enabled_floor :
    TuneConfig → List TuneInput → List TuneDecision → List TuneDecision
unfolding floor_from count_enabled
apply_enabled_floor cfg inputs ds =
    if cfg.min_enabled == 0 then ds else floor_from cfg.min_enabled (count_enabled inputs) ds

abbrev pub config_or_default : TuneConfig → TuneConfig
config_or_default cfg = if cfg.min_runs == 0 then default_tune_config else cfg

-- PlanSourceTuning; none is the abort.
unfoldable pub plan_source_tuning : List TuneInput → TuneConfig → Option (List TuneDecision)
unfolding evaluable decide_one acted_first apply_enabled_floor
plan_source_tuning inputs given =
    let cfg = config_or_default given in
    let (n, dead) = evaluable cfg.min_runs inputs in
    if ltb 0 n && ltb 0 cfg.global_failure && leb (cfg.global_failure * n) (dead * 1000000)
    then none
    else some (apply_enabled_floor cfg inputs (sort_by acted_first (map (decide_one cfg) inputs)))
