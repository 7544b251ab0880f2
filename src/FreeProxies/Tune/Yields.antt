-- ===== src/FreeProxies/Tune/Yields.antt =====
-- internal/freproxies/sourceyield.go: the history of the yields of each source in memory, and its trend.
-- The rates are exact fractions.
use unified_proxy_pool.Base.{
  ℕ, ◌+◌, ◌*◌, ◌/◌, ◌≤◌, ◌≡◌, Bool, List, [], ◌∷◌, ◌++◌, ltb, ◌==◌, if◌then◌else◌, Text, is_empty,
  Option, none, some, Time, second, is_zero, Dict, lookup, insert, lookup-insert_self, length,
  length-take, take, drop, sort_by, ℤ, pos, is_le_zero, to_nat, arith, ap, subst, inl, inr,
  Bool-cases,
}
use unified_proxy_pool.FreeProxies.Tune.{SourceYieldRecord}

abbrev pub yield_retention : ℕ
yield_retention = 90 * 24 * 3600 * second

abbrev pub yield_max_per_source : ℕ
yield_max_per_source = 500

abbrev pub yield_trend_window : ℕ
yield_trend_window = 5

pub data Trend : Type 0 where
  insufficient : Trend
  improving : Trend
  degrading : Trend
  stable : Trend

-- Rate, as a numerator and a denominator.
abbrev pub rate : SourceYieldRecord → ℕ × ℕ
rate r = if r.sampled == 0 then (0, 1) else (r.alive, r.sampled)

unfoldable pub sum_of_rates : List SourceYieldRecord → ℕ × ℕ
sum_of_rates [] = (0, 1)
sum_of_rates (r ∷ rs) =
    let (n, d) = rate r in let (m, e) = sum_of_rates rs in (n * e + m * d, d * e)

unfoldable pub mean : List SourceYieldRecord → ℕ × ℕ
unfolding sum_of_rates
mean rs = let (n, d) = sum_of_rates rs in if length rs == 0 then (0, 1) else (n, d * length rs)

-- ClassifyTrend: a difference of the means above 0.05 is a direction.
unfoldable pub classify_trend : List SourceYieldRecord → Trend
unfolding mean
classify_trend records =
    let mid = length records / 2 in
    let (n, d) = mean (take mid records) in
    let (m, e) = mean (drop mid records) in
    if ltb (length records) 2
    then insufficient
    else if ltb (20 * (m * d) + d * e) (20 * (n * e))
    then improving
    else if ltb (20 * (n * e) + d * e) (20 * (m * d))
    then degrading
    else stable

abbrev pub newer : SourceYieldRecord → SourceYieldRecord → Bool
newer a b = ltb b.measure_at a.measure_at

unfoldable pub within_retention : Time → List SourceYieldRecord → List SourceYieldRecord
within_retention at [] = []
within_retention at (r ∷ rs) =
    let rest = within_retention at rs in
    if ltb (r.measure_at + yield_retention) at then rest else r ∷ rest

unfoldable pub history_of : Text → Dict (List SourceYieldRecord) → List SourceYieldRecord
history_of source yields = elim (lookup source yields) [ none ↦ [] | some rs ↦ rs ]

-- SaveSourceYield; none is an error.
unfoldable pub save_source_yield :
    SourceYieldRecord
    → Time
    → Dict (List SourceYieldRecord)
    → Option (Dict (List SourceYieldRecord))
unfolding within_retention history_of
save_source_yield given now yields =
    let at = if is_zero given.measure_at then now else given.measure_at in
    let all =
      sort_by newer (history_of given.source yields ++ record given { measure_at = at } ∷ []) in
    if is_empty given.source
    then none
    else some (insert given.source (take yield_max_per_source (within_retention at all)) yields)

unfoldable pub list_source_yield : Text → ℤ → Dict (List SourceYieldRecord) → List SourceYieldRecord
unfolding history_of
list_source_yield source limit yields =
    take (if is_le_zero limit then 100 else to_nat limit) (sort_by newer (history_of source yields))

unfoldable pub newest_of : SourceYieldRecord → List SourceYieldRecord → SourceYieldRecord
newest_of best [] = best
newest_of best (r ∷ rs) = if newer r best then newest_of r rs else newest_of best rs

unfoldable pub all_source_yield_summary : Dict (List SourceYieldRecord) → Dict SourceYieldRecord
unfolding newest_of
all_source_yield_summary [] = []
all_source_yield_summary ((source, []) ∷ yields) = all_source_yield_summary yields
all_source_yield_summary ((source, r ∷ rs) ∷ yields) =
    (source, newest_of r rs) ∷ all_source_yield_summary yields

unfoldable pub source_yield_trend :
    Text → ℤ → Dict (List SourceYieldRecord) → Trend × List SourceYieldRecord
unfolding list_source_yield classify_trend
source_yield_trend source window yields =
    let records =
      list_source_yield source (if is_le_zero window then pos yield_trend_window else window)
        yields in
    (classify_trend records, records)

some_inj {ℓ} : {A : Type ℓ} (a b : A) → some a ≡ some b → a ≡ b
some_inj {A = A} a b h = ap (λ (o : Option A). elim o [ none ↦ a | some x ↦ x ]) h

kept :
    (source : Text) (rs : List SourceYieldRecord) (yields : Dict (List SourceYieldRecord))
    → length (history_of source (insert source (take yield_max_per_source rs) yields)) ≤ 500
unfolding history_of
kept source rs yields =
    rw (lookup-insert_self source (take yield_max_per_source rs) yields, history_of)
      (omega (arith, length-take yield_max_per_source rs))

-- The history that a measurement is added to keeps at most 500 of them.
save_source_yield_lem :
    (given : SourceYieldRecord) (now : Time) (yields after : Dict (List SourceYieldRecord))
    → save_source_yield given now yields ≡ some after
    → length (history_of given.source after) ≤ 500
unfolding save_source_yield
save_source_yield_lem given now yields after h = elim (Bool-cases (is_empty given.source)) [
  | inl unnamed ↦ absurd (ground (arith, rw unnamed at h))
  | inr named ↦
      subst (λ (m : Dict (List SourceYieldRecord)). length (history_of given.source m) ≤ 500)
        (some_inj _ after (rw named at h)) (kept given.source _ yields)
]
