-- ===== src/SourceStats/Penalty.antt =====
-- internal/sourcestats/stats.go: which sources Evaluate switches off, and for how long.
use unified_proxy_pool.Base.{
  ℕ, ◌+◌, ◌*◌, ◌≤◌, ◌<◌, ◌≡◌, refl, sym, ◌∙◌, Bool, true, false, not, ◌&&◌, ◌||◌, inl, inr, List,
  ltb, leb, ◌==◌, if◌then◌else◌, Text, none, some, Time, lookup, Each-lookup, map_some,
  lookup-map_values, ℤ, to_nat, arith, Option-cases, Bool-cases,
}
use unified_proxy_pool.SourceStats.{
  Stat, Registry, new_registry, is_low, evaluate_stat, evaluate, effectively_disabled, is_disabled,
  hour, penalty,
}
use unified_proxy_pool.SourceStats.Calls.{
  Call, run, Sound, is_disabled-none, is_disabled-some, reached-WellFormed, penalty_bounds,
}

-- Whether a source has enough recent outcomes, and a recent rate below the limit.
unfoldable pub fails : ℤ → ℕ → Stat → Bool
unfolding is_low
fails min_samples rate st =
    let samples = if ltb (to_nat min_samples) 5 then 5 else to_nat min_samples in
    not (rate == 0) && leb samples (st.recent_ok + st.recent_fail) && is_low rate st

unfoldable pub source_fails : ℤ → ℕ → Text → Registry → Bool
unfolding fails
source_fails min_samples rate source r = elim (lookup source r.m) [
  | none ↦ false
  | some st ↦ fails min_samples rate st
]

evaluate_stat_lem :
    (samples rate : ℕ) (now : Time) (k : Text) (st : Stat)
    → Sound k st
    → effectively_disabled now (evaluate_stat samples rate now st) ≡ (
        effectively_disabled now st
        || (leb samples (st.recent_ok + st.recent_fail) && is_low rate st))
unfolding evaluate_stat effectively_disabled
evaluate_stat_lem samples rate now k st h = ground (arith, h, penalty_bounds (st.strikes + 1))

evaluate_off :
    (min_samples : ℤ) (rate : ℕ) (now : Time) (r : Registry)
    → (rate == 0) ≡ true
    → evaluate min_samples rate now r ≡ r
unfolding evaluate
evaluate_off min_samples rate now r off = rw off refl

lookup-evaluate :
    (min_samples : ℤ) (rate : ℕ) (now : Time) (source : Text) (r : Registry)
    → (rate == 0) ≡ false
    → lookup source (evaluate min_samples rate now r).m
      ≡ map_some
          (evaluate_stat (if ltb (to_nat min_samples) 5 then 5 else to_nat min_samples) rate now)
          (lookup source r.m)
unfolding evaluate
lookup-evaluate min_samples rate now source r on =
    let samples = if ltb (to_nat min_samples) 5 then 5 else to_nat min_samples in
    rw on (lookup-map_values (evaluate_stat samples rate now) source r.m)

or_false : (b c : Bool) → c ≡ false → b ≡ (b || c)
or_false true c h = refl
or_false false c h = sym h

off_fails :
    (min_samples : ℤ) (rate : ℕ) (st : Stat)
    → (rate == 0) ≡ true
    → fails min_samples rate st ≡ false
unfolding fails
off_fails min_samples rate st off = rw off refl

off_source_fails :
    (min_samples : ℤ) (rate : ℕ) (source : Text) (r : Registry)
    → (rate == 0) ≡ true
    → source_fails min_samples rate source r ≡ false
unfolding source_fails
off_source_fails min_samples rate source r off = elim (Option-cases (lookup source r.m)) [
  | inl missing ↦ rw (missing, source_fails) refl
  | inr (st, is) ↦ rw (is, source_fails) (off_fails min_samples rate st off)
]

on_fails :
    (min_samples : ℤ) (rate : ℕ) (st : Stat)
    → (rate == 0) ≡ false
    → fails min_samples rate st ≡ (
        leb
          (if ltb (to_nat min_samples) 5 then 5 else to_nat min_samples)
          (st.recent_ok + st.recent_fail)
        && is_low rate st)
unfolding fails
on_fails min_samples rate st on = rw on refl

source_fails-some :
    (min_samples : ℤ) (rate : ℕ) (source : Text) (r : Registry) (st : Stat)
    → lookup source r.m ≡ some st
    → source_fails min_samples rate source r ≡ fails min_samples rate st
unfolding source_fails
source_fails-some min_samples rate source r st is = rw (is, source_fails) refl

-- Whatever happened before: after Evaluate, a source is switched off exactly if it was, or if it has
-- enough recent outcomes and a recent rate below the limit.
pub is_disabled-evaluate :
    (cs : List Call) (min_samples : ℤ) (rate : ℕ) (now : Time) (source : Text)
    → is_disabled source now (evaluate min_samples rate now (run cs new_registry)) ≡ (
        is_disabled source now (run cs new_registry)
        || source_fails min_samples rate source (run cs new_registry))
unfolding map_some source_fails
is_disabled-evaluate cs min_samples rate now source =
    let r = run cs new_registry in
    let samples = if ltb (to_nat min_samples) 5 then 5 else to_nat min_samples in
    elim (Bool-cases (rate == 0)) [
      | inl off ↦ rw (evaluate_off min_samples rate now r off) (
          or_false (is_disabled source now r) (source_fails min_samples rate source r)
            (off_source_fails min_samples rate source r off))
      | inr on ↦
          let after = lookup-evaluate min_samples rate now source r on in
          elim (Option-cases (lookup source r.m)) [
            | inl missing ↦
                rw
                  (
                    is_disabled-none source now r missing,
                    is_disabled-none source now (evaluate min_samples rate now r)
                        (after ∙ rw (missing, map_some) refl),
                  )
                  (rw (missing, source_fails) refl)
            | inr (st, is) ↦
                let next = evaluate_stat samples rate now st in
                rw
                  (
                    is_disabled-some source now r st is,
                    is_disabled-some source now (evaluate min_samples rate now r) next
                        (after ∙ rw (is, map_some) refl),
                    source_fails-some min_samples rate source r st is,
                    on_fails min_samples rate st on,
                  )
                  (evaluate_stat_lem samples rate now source st
                    (Each-lookup Sound source st r.m (reached-WellFormed cs).0 is))
          ]
    ]

judged :
    (samples rate : ℕ) (now t : Time) (st : Stat)
    → effectively_disabled now st ≡ false
    → (leb samples (st.recent_ok + st.recent_fail) && is_low rate st) ≡ true
    → effectively_disabled t (evaluate_stat samples rate now st)
      ≡ ltb t (now + penalty (st.strikes + 1))
unfolding evaluate_stat effectively_disabled
judged samples rate now t st h low = ground (arith, h, low, penalty_bounds (st.strikes + 1))

-- A source that Evaluate switches off stays off for an hour at least and 16 hours at most.
pub evaluate_lem :
    (min_samples : ℤ) (rate : ℕ) (now soon late : Time) (source : Text) (r : Registry)
    → is_disabled source now r ≡ false
    → source_fails min_samples rate source r ≡ true
    → soon < now + 1 * hour
    → now + 16 * hour ≤ late
    → (is_disabled source soon (evaluate min_samples rate now r) ≡ true)
      × (is_disabled source late (evaluate min_samples rate now r) ≡ false)
unfolding map_some source_fails
evaluate_lem min_samples rate now soon late source r off failing early ended =
    let samples = if ltb (to_nat min_samples) 5 then 5 else to_nat min_samples in
    elim (Option-cases (lookup source r.m)) [
      | inl missing ↦ absurd (ground (arith, rw (missing, source_fails) at failing))
      | inr (st, is) ↦
          let st_fails = sym (source_fails-some min_samples rate source r st is) ∙ failing in
          elim (Bool-cases (rate == 0)) [
            | inl unlimited ↦
                absurd (ground (arith, off_fails min_samples rate st unlimited, st_fails))
            | inr on ↦
                let next = evaluate_stat samples rate now st in
                let found : lookup source (evaluate min_samples rate now r).m ≡ some next =
                  lookup-evaluate min_samples rate now source r on ∙ rw (is, map_some) refl in
                let was = sym (is_disabled-some source now r st is) ∙ off in
                let low = sym (on_fails min_samples rate st on) ∙ st_fails in
                (
                  is_disabled-some source soon (evaluate min_samples rate now r) next found
                      ∙ judged samples rate now soon st was low
                      ∙ ground (arith, penalty_bounds (st.strikes + 1), early),
                  is_disabled-some source late (evaluate min_samples rate now r) next found
                      ∙ judged samples rate now late st was low
                      ∙ ground (arith, penalty_bounds (st.strikes + 1), ended),
                )
          ]
    ]
