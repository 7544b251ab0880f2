-- ===== src/SourceStats/Saved.antt =====
-- internal/sourcestats/persist.go: the rows that are written, and the registry that a restart reads.
use unified_proxy_pool.Base.{
  ◌≤◌, ◌≡◌, refl, sym, ap, ◌∙◌, Bool, true, false, inl, inr, List, [], ◌∷◌, if◌then◌else◌, Text,
  text_eq, text_eq_iff, Option, none, some, Time, Dict, lookup, insert, lookup-insert, Each,
  Distinct, arith, Option-cases,
}
use unified_proxy_pool.SourceStats.{
  Stat, Registry, new_registry, effectively_disabled, is_disabled, row_of, rows_of, stat_of, load,
}
use unified_proxy_pool.SourceStats.Calls.{
  Call, run, Sound, is_disabled-none, is_disabled-some, reached-WellFormed,
}

abbrev restored : Time → Option Stat → Option Stat → Option Stat
restored now none other = other
restored now (some st) other = some (stat_of (row_of now st))

restored_head :
    (now : Time) (b c : Bool) (st : Stat) (rest other : Option Stat)
    → b ≡ c
    → ((c ≡ true) → rest ≡ none)
    → restored now rest (if b then some (stat_of (row_of now st)) else other)
      ≡ restored now (if c then some st else rest) other
restored_head now b true st rest other same gone = rw (same, gone refl) refl
restored_head now b false st rest other same gone = rw same refl

row_name : (now : Time) (st : Stat) → (row_of now st).name ≡ st.name
unfolding row_of
row_name now st = refl

lookup-load :
    (now : Time) (source : Text) (m : Dict Stat) (q : Registry)
    → Each Sound m
    → Distinct m
    → lookup source (load (rows_of now m) q).m ≡ restored now (lookup source m) (lookup source q.m)
unfolding load rows_of lookup
lookup-load now source [] q h d = refl
lookup-load now source ((k, st) ∷ m) q h d =
    let row = row_of now st in
    lookup-load now source m (record q { m = insert row.name (stat_of row) q.m }) h.1 d.1
    ∙ rw (lookup-insert row.name source (stat_of row) q.m) (
        restored_head now (text_eq row.name source) (text_eq k source) st (lookup source m)
          (lookup source q.m) (ap (λ n. text_eq n source) (row_name now st ∙ h.0.0))
          (λ e. rw (← (text_eq_iff k source).0 e) d.0))

restored_disabled :
    (now t : Time) (st : Stat)
    → now ≤ t
    → effectively_disabled t (stat_of (row_of now st)) ≡ effectively_disabled t st
unfolding effectively_disabled stat_of row_of
restored_disabled now t st h = ground (arith, h)

-- A restart forgets no penalty: the rows that are written at some time, read into an empty registry,
-- switch off at every later time the same sources as the registry that they were made of, whatever
-- calls that one has seen.
pub load-rows_of :
    (cs : List Call) (source : Text) (now t : Time)
    → now ≤ t
    → is_disabled source t (load (rows_of now (run cs new_registry).m) new_registry)
      ≡ is_disabled source t (run cs new_registry)
unfolding new_registry lookup
load-rows_of cs source now t h =
    let r = run cs new_registry in
    let sound = reached-WellFormed cs in
    let found = lookup-load now source r.m new_registry sound.0 sound.1 in
    elim (Option-cases (lookup source r.m)) [
      | inl missing ↦
          is_disabled-none source t (load (rows_of now r.m) new_registry) (found ∙ rw missing refl)
          ∙ sym (is_disabled-none source t r missing)
      | inr (st, is) ↦
          is_disabled-some source t (load (rows_of now r.m) new_registry) (stat_of (row_of now st))
            (found ∙ rw is refl)
          ∙ restored_disabled now t st h
          ∙ sym (is_disabled-some source t r st is)
    ]
