-- ===== src/SourceStats/Calls.antt =====
-- internal/sourcestats/stats.go: sequences of calls on a registry that starts empty.
use unified_proxy_pool.Base.{
  ℕ, zero, suc, ◌+◌, ◌-◌, ◌*◌, ◌^◌, ◌≤◌, ◌≡◌, refl, Bool, true, false, ◌&&◌, inl, inr, List, [],
  ◌∷◌, ltb, ◌==◌, if◌then◌else◌, Text, codes, is_empty, none, some, Time, is_zero, Dict, lookup,
  Each, Each-insert, Each-lookup, Each-map_values, Distinct, Distinct-insert, Distinct-map_values,
  ℤ, to_nat, arith, Option-cases, Bool-cases,
}
use unified_proxy_pool.SourceStats.{
  Stat, Registry, new_registry, stat_or_new, push_window, recount_recent, counted, record_result,
  hour, penalty, evaluate_stat, evaluate, reenable, effectively_disabled, is_disabled,
}

pub data Call : Type 0 where
  record_of : Text → Bool → ℤ → Call
  evaluate_of : ℤ → ℕ → Time → Call
  reenable_of : Text → Call

unfoldable pub call : Call → Registry → Registry
unfolding record_result evaluate reenable
call (record_of source ok latency_ms) r = record_result source ok latency_ms r
call (evaluate_of min_samples min_rate now) r = evaluate min_samples min_rate now r
call (reenable_of name) r = reenable name r

unfoldable pub run : List Call → Registry → Registry
unfolding call
run [] r = r
run (c ∷ cs) r = run cs (call c r)

-- The name is the key, and a source that is switched off has a time until when.
abbrev pub Sound : Text → Stat → Type 0
Sound k st = (st.name ≡ k) × ((st.auto_disabled && is_zero st.disabled_until) ≡ false)

abbrev pub WellFormed : Registry → Type 0
WellFormed r = Each Sound r.m × Distinct r.m

power_bounds : (n : ℕ) → n ≤ 4 → (1 ≤ 2 ^ n) × (2 ^ n ≤ 16)
power_bounds zero h = (omega arith, omega arith)
power_bounds (suc zero) h = (omega arith, omega arith)
power_bounds (suc (suc zero)) h = (omega arith, omega arith)
power_bounds (suc (suc (suc zero))) h = (omega arith, omega arith)
power_bounds (suc (suc (suc (suc zero)))) h = (omega arith, omega arith)
power_bounds (suc (suc (suc (suc (suc n))))) h = absurd (omega arith)

pub penalty_bounds : (n : ℕ) → (hour ≤ penalty n) × (penalty n ≤ 16 * hour)
unfolding penalty
penalty_bounds n = by_shift (if ltb 4 (n - 1) then 4 else n - 1) (ground arith)
  where
    by_shift :
        (k : ℕ)
        → k ≤ 4
        → (hour ≤ (if ltb (24 * hour) (2 ^ k * hour) then 24 * hour else 2 ^ k * hour))
          × ((if ltb (24 * hour) (2 ^ k * hour) then 24 * hour else 2 ^ k * hour) ≤ 16 * hour)
    by_shift k h = ground (arith, power_bounds k h)

evaluate_stat-Sound :
    (samples rate : ℕ) (now : Time) (k : Text) (st : Stat)
    → Sound k st
    → Sound k (evaluate_stat samples rate now st)
unfolding evaluate_stat
evaluate_stat-Sound samples rate now k st h = ground (arith, h, penalty_bounds (st.strikes + 1))

evaluate-WellFormed :
    (min_samples : ℤ) (rate : ℕ) (now : Time) (r : Registry)
    → WellFormed r
    → WellFormed (evaluate min_samples rate now r)
unfolding evaluate
evaluate-WellFormed min_samples rate now r h = elim (Bool-cases (rate == 0)) [
  | inl off ↦ rw off h
  | inr on ↦
      let samples = if ltb (to_nat min_samples) 5 then 5 else to_nat min_samples in
      rw on (
        Each-map_values Sound (evaluate_stat samples rate now) r.m
            (λ k st s. evaluate_stat-Sound samples rate now k st s) h.0,
        Distinct-map_values (evaluate_stat samples rate now) r.m h.1,
      )
]

counted-Sound :
    (ok : Bool) (latency_ms : ℤ) (k : Text) (st : Stat)
    → Sound k st
    → Sound k (counted ok latency_ms st)
unfolding counted
counted-Sound true latency_ms k st h = h
counted-Sound false latency_ms k st h = h

push_window-Sound : (ok : Bool) (k : Text) (st : Stat) → Sound k st → Sound k (push_window ok st)
unfolding push_window recount_recent
push_window-Sound ok k st h = h

stat_or_new-Sound : (k : Text) (m : Dict Stat) → Each Sound m → Sound k (stat_or_new k (lookup k m))
stat_or_new-Sound k m h = elim (Option-cases (lookup k m)) [
  | inl missing ↦ rw missing (refl, refl)
  | inr (st, is) ↦ rw is (Each-lookup Sound k st m h is)
]

record_result-WellFormed :
    (source : Text) (ok : Bool) (latency_ms : ℤ) (r : Registry)
    → WellFormed r
    → WellFormed (record_result source ok latency_ms r)
unfolding record_result
record_result-WellFormed source ok latency_ms r h =
    let name : Text = if is_empty source then codes "unknown" else source in
    let st = stat_or_new name (lookup name r.m) in
    let now_st = push_window ok (counted ok latency_ms st) in
    (
      Each-insert Sound name now_st r.m
          (push_window-Sound ok name (counted ok latency_ms st)
            (counted-Sound ok latency_ms name st (stat_or_new-Sound name r.m h.0)))
          h.0,
      Distinct-insert name now_st r.m h.1,
    )

reenable-WellFormed : (name : Text) (r : Registry) → WellFormed r → WellFormed (reenable name r)
unfolding reenable
reenable-WellFormed name r h = elim (Option-cases (lookup name r.m)) [
  | inl missing ↦ rw (missing, reenable) h
  | inr (st, is) ↦
      let enabled : Stat = record st { auto_disabled = false; disabled_until = 0; strikes = 0 } in
      rw (is, reenable)
        (
          Each-insert Sound name enabled r.m ((Each-lookup Sound name st r.m h.0 is).0, refl) h.0,
          Distinct-insert name enabled r.m h.1,
        )
]

pub run-WellFormed : (cs : List Call) (r : Registry) → WellFormed r → WellFormed (run cs r)
unfolding run call
run-WellFormed [] r h = h
run-WellFormed (record_of source ok latency_ms ∷ cs) r h =
    run-WellFormed cs (record_result source ok latency_ms r)
      (record_result-WellFormed source ok latency_ms r h)
run-WellFormed (evaluate_of min_samples rate now ∷ cs) r h =
    run-WellFormed cs (evaluate min_samples rate now r)
      (evaluate-WellFormed min_samples rate now r h)
run-WellFormed (reenable_of name ∷ cs) r h =
    run-WellFormed cs (reenable name r) (reenable-WellFormed name r h)

pub reached-WellFormed : (cs : List Call) → WellFormed (run cs new_registry)
unfolding new_registry
reached-WellFormed cs = run-WellFormed cs new_registry (tt, tt)

pub is_disabled-none :
    (source : Text) (now : Time) (r : Registry)
    → lookup source r.m ≡ none
    → is_disabled source now r ≡ false
unfolding is_disabled
is_disabled-none source now r missing = rw (missing, is_disabled) refl

pub is_disabled-some :
    (source : Text) (now : Time) (r : Registry) (st : Stat)
    → lookup source r.m ≡ some st
    → is_disabled source now r ≡ effectively_disabled now st
unfolding is_disabled
is_disabled-some source now r st is = rw (is, is_disabled) refl
