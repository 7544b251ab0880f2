-- ===== src/FreeProxies/Tune/Floor.antt =====
-- internal/freproxies/sourcetune.go: how many sources a plan may switch off.
use unified_proxy_pool.Base.{
  ℕ, ◌+◌, ◌-◌, ◌*◌, ◌≤◌, ◌≡◌, refl, ap, subst, Bool, true, false, ◌&&◌, inl, inr, List, [], ◌∷◌,
  map, ltb, leb, ◌==◌, if◌then◌else◌, Option, none, some, length, insert_sorted, sort_by, arith,
  Bool-cases,
}
use unified_proxy_pool.FreeProxies.Tune.{
  TuneConfig, TuneInput, TuneDecision, SourceYieldRecord, is_disable, config_or_default, decide_off,
  decide_with, decide_one, acted_first, count_enabled, floor_from, apply_enabled_floor, evaluable,
  plan_source_tuning,
}

unfoldable pub count_disable : List TuneDecision → ℕ
count_disable [] = 0
count_disable (d ∷ ds) = let n = count_disable ds in if is_disable d.action then n + 1 else n

floor_from-le :
    (least projected : ℕ) (ds : List TuneDecision)
    → count_disable (floor_from least projected ds) ≤ projected - least
unfolding floor_from count_disable
floor_from-le least projected [] = omega arith
floor_from-le least projected (d ∷ ds) =
    ground (arith, floor_from-le least projected ds, floor_from-le least (projected - 1) ds)

module _ (less : TuneDecision → TuneDecision → Bool) where
  count_disable-insert_sorted :
      (d : TuneDecision) (ds : List TuneDecision)
      → count_disable (insert_sorted less d ds) ≡ count_disable (d ∷ ds)
  unfolding count_disable insert_sorted
  count_disable-insert_sorted d [] = refl
  count_disable-insert_sorted d (e ∷ ds) = ground (arith, count_disable-insert_sorted d ds)

  count_disable-sort_by :
      (ds : List TuneDecision) → count_disable (sort_by less ds) ≡ count_disable ds
  unfolding count_disable sort_by
  count_disable-sort_by [] = refl
  count_disable-sort_by (d ∷ ds) =
      ground (arith, count_disable-insert_sorted d (sort_by less ds), count_disable-sort_by ds)

decide_off-keeps : (cfg : TuneConfig) (r : _) → is_disable (decide_off cfg r) ≡ false
unfolding decide_off
decide_off-keeps cfg r = ground arith

decide_with-off :
    (cfg : TuneConfig) (rs : List SourceYieldRecord) → is_disable (decide_with cfg false rs) ≡ false
decide_with-off cfg [] = refl
decide_with-off cfg (r ∷ rs) = decide_off-keeps cfg r

decide_one-disable :
    (cfg : TuneConfig) (i : TuneInput)
    → i.enabled ≡ false
    → is_disable (decide_one cfg i).action ≡ false
unfolding decide_one
decide_one-disable cfg i off = elim (Bool-cases (ltb (length i.records) cfg.min_runs)) [
  | inl short ↦ rw short refl
  | inr enough ↦ rw (enough, off) (decide_with-off cfg i.records)
]

count_disable-decide_one :
    (cfg : TuneConfig) (is : List TuneInput)
    → count_disable (map (decide_one cfg) is) ≤ count_enabled is
unfolding count_disable count_enabled
count_disable-decide_one cfg [] = omega arith
count_disable-decide_one cfg (i ∷ is) =
    ground (arith, count_disable-decide_one cfg is, decide_one-disable cfg i)

apply_enabled_floor-le :
    (cfg : TuneConfig) (is : List TuneInput) (ds : List TuneDecision)
    → count_disable ds ≤ count_enabled is
    → count_disable (apply_enabled_floor cfg is ds) ≤ count_enabled is - cfg.min_enabled
unfolding apply_enabled_floor
apply_enabled_floor-le cfg is ds h = elim (Bool-cases (cfg.min_enabled == 0)) [
  | inl no_floor ↦ rw no_floor (omega (arith, h, is_zero_eq cfg.min_enabled no_floor))
  | inr floor ↦ rw floor (floor_from-le cfg.min_enabled (count_enabled is) ds)
]
  where
    is_zero_eq : (n : ℕ) → (n == 0) ≡ true → n ≡ 0
    is_zero_eq n e = ground (arith, e)

-- A plan that is not aborted switches off so few sources that the floor of enabled ones stays, or none
-- where fewer are enabled from the start.
pub plan_source_tuning_lem :
    (inputs : List TuneInput) (given : TuneConfig) (ds : List TuneDecision)
    → plan_source_tuning inputs given ≡ some ds
    → count_disable ds ≤ count_enabled inputs - (config_or_default given).min_enabled
unfolding plan_source_tuning
plan_source_tuning_lem inputs given ds h =
    let cfg = config_or_default given in
    let n = evaluable cfg.min_runs inputs in
    let planned = sort_by acted_first (map (decide_one cfg) inputs) in
    let few : count_disable planned ≤ count_enabled inputs = omega (
      arith,
      count_disable-sort_by acted_first (map (decide_one cfg) inputs),
      count_disable-decide_one cfg inputs,
    ) in
    subst (λ (o : List TuneDecision). count_disable o ≤ count_enabled inputs - cfg.min_enabled)
      (not_aborted
        (ltb 0 n.0 && ltb 0 cfg.global_failure && leb (cfg.global_failure * n.0) (n.1 * 1000000))
        (apply_enabled_floor cfg inputs planned) ds h)
      (apply_enabled_floor-le cfg inputs planned few)
  where
    not_aborted :
        (b : Bool) (o ds : List TuneDecision) → (if b then none else some o) ≡ some ds → o ≡ ds
    not_aborted true o ds e = absurd (ground (arith, e))
    not_aborted false o ds e =
        ap (λ (x : Option (List TuneDecision)). elim x [ none ↦ o | some y ↦ y ]) e
