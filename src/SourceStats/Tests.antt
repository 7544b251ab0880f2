-- ===== src/SourceStats/Tests.antt =====
-- A source that fails five times.
use unified_proxy_pool.Base.{
  ◌+◌, ◌*◌, ◌||◌, ◌≡◌, refl, true, false, List, [], ◌∷◌, ◌++◌, replicate, Text, codes, lookup,
  insert, map_values, text_eq, pos, arith,
}
use unified_proxy_pool.SourceStats.{
  Registry, new_registry, evaluate, is_disabled, reenable, rows_of, load, hour, penalty,
}
use unified_proxy_pool.SourceStats.Calls.{Call, record_of, evaluate_of, run}
use unified_proxy_pool.SourceStats.Penalty.{source_fails, evaluate_lem}
use unified_proxy_pool.SourceStats.Recent.{outcomes_of, falls_short, is_disabled-evaluate_recent}
use unified_proxy_pool.SourceStats.Saved.{load-rows_of}

abbrev bad : Text
bad = codes "bad"

abbrev failures : List Call
failures = replicate 5 (record_of bad false (pos 0))

abbrev failed : Registry
failed = run failures new_registry

penalty_test : penalty 9 ≡ 16 * hour
unfolding penalty
penalty_test = refl

source_fails_test : source_fails (pos 0) 100000 bad failed ≡ true
unfolding source_fails run lookup new_registry insert text_eq
source_fails_test = refl

off_test : is_disabled bad 7 (evaluate (pos 0) 100000 7 failed) ≡ true
unfolding is_disabled run new_registry evaluate lookup map_values insert text_eq
off_test = refl

on_test : is_disabled bad 7 (reenable bad (evaluate (pos 0) 100000 7 failed)) ≡ false
unfolding is_disabled run new_registry evaluate lookup reenable insert map_values text_eq
on_test = refl

is_disabled-evaluate_recent_example :
    is_disabled bad 7 (evaluate (pos 0) 100000 7 failed)
    ≡ (is_disabled bad 7 failed || falls_short (pos 0) 100000 (outcomes_of bad failures))
is_disabled-evaluate_recent_example = is_disabled-evaluate_recent failures (pos 0) 100000 7 bad

falls_short_test : falls_short (pos 0) 100000 (outcomes_of bad failures) ≡ true
unfolding outcomes_of falls_short text_eq
falls_short_test = refl

evaluate_lem_example :
    (is_disabled bad 8 (evaluate (pos 0) 100000 7 failed) ≡ true)
    × (is_disabled bad (7 + 16 * hour) (evaluate (pos 0) 100000 7 failed) ≡ false)
unfolding is_disabled source_fails run new_registry lookup insert text_eq
evaluate_lem_example =
    evaluate_lem (pos 0) 100000 7 8 (7 + 16 * hour) bad failed refl refl (omega arith) (omega arith)

abbrev history : List Call
history = failures ++ evaluate_of (pos 0) 100000 7 ∷ []

load-rows_of_example :
    is_disabled bad 9 (load (rows_of 8 (run history new_registry).m) new_registry)
    ≡ is_disabled bad 9 (run history new_registry)
load-rows_of_example = load-rows_of history bad 8 9 (omega arith)
