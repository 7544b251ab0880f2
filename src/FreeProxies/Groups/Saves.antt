-- ===== src/FreeProxies/Groups/Saves.antt =====
-- internal/freproxies/groups.go: a group that is saved, and the filter that names it.
use unified_proxy_pool.Base.{
  ◌≡◌, refl, sym, ap, ◌∙◌, Bool, true, false, inl, inr, List, [], ◌∷◌, arith, if◌then◌else◌, Text,
  is_empty, to_lower, to_lower_idem, trim_space, equal_fold, Option, none, some, Time, Dict, insert,
  lookup-insert_self, Bool-cases, Option-cases,
}
use unified_proxy_pool.FreeProxies.Groups.{
  GroupRule, ProxyGroup, builtin_groups, is_group_name, normalize_group_name, normalize_group_rule,
  is_empty_rule, find_fold, get_group, has_name, save_group, resolve_group,
}
use unified_proxy_pool.FreeProxies.Groups.Words.{is_empty-to_lower}

abbrev Lowered : List ProxyGroup → Type 0
Lowered [] = Unit
Lowered (g ∷ gs) = (to_lower g.name ≡ g.name) × Lowered gs

-- Among groups whose names are in lower case, no name is equal up to case to a name in lower case that
-- is not there.
find_fold-none :
    (n : Text) (gs : List ProxyGroup)
    → to_lower n ≡ n
    → Lowered gs
    → has_name n gs ≡ false
    → find_fold n gs ≡ none
unfolding find_fold has_name equal_fold
find_fold-none n [] low l h = refl
find_fold-none n (g ∷ gs) low l h = rw (low, l.0) (ground (arith, h, find_fold-none n gs low l.1))

builtin_groups-Lowered : Lowered builtin_groups
unfolding to_lower
builtin_groups-Lowered = (refl, (refl, (refl, (refl, (refl, tt)))))

normalize_group_name_lem :
    (name n : Text)
    → normalize_group_name name ≡ some n
    → (n ≡ to_lower (trim_space name)) × (is_empty (trim_space name) ≡ false)
unfolding normalize_group_name is_group_name to_lower
normalize_group_name_lem name n h = by_bytes (trim_space name) h
  where
    by_bytes :
        (t : Text)
        → (if is_group_name (to_lower t) then some (to_lower t) else none) ≡ some n
        → (n ≡ to_lower t) × (is_empty t ≡ false)
    by_bytes [] e = absurd (ground (arith, e))
    by_bytes (c ∷ t) e = (ground (arith, e), refl)

get_group-insert :
    (n : Text) (g : ProxyGroup) (groups : Dict ProxyGroup)
    → to_lower n ≡ n
    → has_name n builtin_groups ≡ false
    → get_group n (insert n g groups) ≡ some (record g { builtin = false })
unfolding get_group
get_group-insert n g groups low h =
    rw (find_fold-none n builtin_groups low builtin_groups-Lowered h, get_group)
      (rw (lookup-insert_self n g groups, get_group) refl)

kept :
    (b : Bool) (m g : ProxyGroup) (groups after : Dict ProxyGroup)
    → if◌then◌else◌ {A = Option (ProxyGroup × Dict ProxyGroup)} b none
        (some (m, insert m.name m groups))
      ≡ some (g, after)
    → (m ≡ g) × (after ≡ insert g.name g groups)
kept true m g groups after h = absurd (ground (arith, h))
kept false m g groups after h =
    let same : m ≡ g = ground (arith, h) in
    let then_map : insert m.name m groups ≡ after = ground (arith, h) in
    (same, rw (← same) (sym then_map))

saved_lem :
    (name label : Text) (rule : GroupRule) (now : Time) (groups after : Dict ProxyGroup)
    (g : ProxyGroup)
    → save_group name label rule now groups ≡ some (g, after)
    → (normalize_group_name name ≡ some g.name)
      × (has_name g.name builtin_groups ≡ false)
      × (after ≡ insert g.name g groups)
      × (normalize_group_rule rule ≡ some g.rule)
unfolding save_group
saved_lem name label rule now groups after g h = elim (Option-cases (normalize_group_name name)) [
  | inl bad ↦ absurd (ground (arith, rw bad at h))
  | inr (n, named) ↦ elim (Bool-cases (has_name n builtin_groups)) [
    | inl taken ↦ absurd (ground (arith, rw (named, taken) at h))
    | inr free ↦ elim (Option-cases (normalize_group_rule rule)) [
      | inl bad ↦ absurd (ground (arith, rw (named, free, bad) at h))
      | inr (nr, ruled) ↦
          let made = kept (is_empty_rule nr) _ g groups after (rw (named, free, ruled) at h) in
          (
            named ∙ ap (λ (m : ProxyGroup). some m.name) made.0,
            rw (← made.0) free,
            made.1,
            ruled ∙ ap (λ (m : ProxyGroup). some m.rule) made.0,
          )
    ]
  ]
]

-- A group that is saved is found again by its name, in any case and with white space around it: a
-- filter that names it gets the normal form of the rule that was saved.
pub save_group-resolve_group :
    (name label : Text) (rule : GroupRule) (now : Time) (groups after : Dict ProxyGroup)
    (g : ProxyGroup) (wanted : Text)
    → save_group name label rule now groups ≡ some (g, after)
    → to_lower (trim_space wanted) ≡ to_lower (trim_space name)
    → (resolve_group wanted after ≡ some (some g.rule)) × (normalize_group_rule rule ≡ some g.rule)
unfolding resolve_group
save_group-resolve_group name label rule now groups after g wanted h same =
    let saved = saved_lem name label rule now groups after g h in
    let named = normalize_group_name_lem name g.name saved.0 in
    let low : to_lower g.name ≡ g.name = rw named.0 (to_lower_idem (trim_space name)) in
    let filled : is_empty (trim_space wanted) ≡ false =
      sym (is_empty-to_lower (trim_space wanted))
      ∙ ap is_empty same
      ∙ is_empty-to_lower (trim_space name)
      ∙ named.1 in
    let found : get_group (to_lower (trim_space wanted)) after
        ≡ some (record g { builtin = false }) =
      rw (same, ← named.0, saved.2) (get_group-insert g.name g groups low saved.1) in
    (rw (filled, found, resolve_group) refl, saved.3)
