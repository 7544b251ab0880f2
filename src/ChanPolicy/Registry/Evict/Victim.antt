-- ===== src/ChanPolicy/Registry/Evict/Victim.antt =====
-- The loop of the two evictions (internal/chanpolicy/registry.go) and the entry that it names.
use unified_proxy_pool.Base.{
  ◌||◌, ◌≤◌, ◌≡◌, ◌≢◌, refl, sym, ◌∙◌, ap, Bool, true, false, not, ◌⊎◌, inl, inr, [], ◌∷◌, arith,
  ltb, if◌then◌else◌, Text, is_empty, some, Time, Dict, lookup, Each, Distinct, lookup-cons,
  lookup_head, Bool-cases,
}
use unified_proxy_pool.ChanPolicy.Registry.Evict.{Choice, consider, scan, victim_of}

apart_or : (a b : Bool) {Q : Type 0} → (a ≡ b → Q) → (a ≢ b) ⊎ Q
apart_or true true f = inr (f refl)
apart_or false false f = inr (f refl)
apart_or true false f = inl (λ e. absurd (ground arith))
apart_or false true f = inl (λ e. absurd (ground arith))

abbrev pub no_choice : Choice
no_choice = record { name = []; at = 0 }

abbrev pub NamedKeys {ℓ} : {V : Type ℓ} → Dict V → Type 0
NamedKeys = Each (λ k v. is_empty k ≡ false)

consider_cases :
    (c : Choice) (name : Text) (at : Time)
    → (consider c name at ≡ c) ⊎ (consider c name at ≡ record { name = name; at = at })
unfolding consider
consider_cases c name at = elim (Bool-cases (is_empty c.name)) [
  | inl e ↦ inr (rw e)
  | inr e ↦ elim (Bool-cases (ltb at c.at)) [
    | inl older ↦ inr (rw (e, older))
    | inr newer ↦ inl (rw (e, newer))
  ]
]

module _ {V : Type 0} (seen : V → Time) where
  -- One of the two choices of the loop, by itself.
  pick : (V → Bool) → Choice → Dict V → Choice
  pick in_play c [] = c
  pick in_play c ((name, v) ∷ m) =
      pick in_play (if in_play v then consider c name (seen v) else c) m

  scan-pick :
      (busy : V → Bool) (v f : Choice) (m : Dict V)
      → scan busy seen v f m ≡ (pick (λ u. not (busy u)) v m, pick busy f m)
  unfolding scan pick
  scan-pick busy v f [] = refl
  scan-pick busy v f ((name, u) ∷ m) = elim (Bool-cases (busy u)) [
    | inl e ↦ rw e (scan-pick busy v (consider f name (seen u)) m)
    | inr e ↦ rw e (scan-pick busy (consider v name (seen u)) f m)
  ]

  module _ (in_play : V → Bool) where
    pick_named :
        (c : Choice) (m : Dict V)
        → NamedKeys m
        → is_empty c.name ≡ false
        → (is_empty (pick in_play c m).name ≡ false) × ((pick in_play c m).at ≤ c.at)
    unfolding pick consider
    pick_named c [] n h = (h, omega arith)
    pick_named c ((name, v) ∷ m) n h =
        let c' = if in_play v then consider c name (seen v) else c in
        let step : (is_empty c'.name ≡ false) × (c'.at ≤ c.at) = ground arith in
        let ih = pick_named c' m n.1 step.0 in (ih.0, omega (arith, ih.1, step.1))

    -- The choice is as old as every entry in play.
    pick_oldest :
        (c : Choice) (m : Dict V)
        → NamedKeys m
        → Each
            (λ k v.
              in_play v ≡ true
              → (is_empty (pick in_play c m).name ≡ false) × ((pick in_play c m).at ≤ seen v))
            m
    unfolding pick consider
    pick_oldest c [] n = tt
    pick_oldest c ((name, v) ∷ m) n =
        let c' = if in_play v then consider c name (seen v) else c in
        (
          (λ p.
              let named : (is_empty c'.name ≡ false) × (c'.at ≤ seen v) = ground arith in
              let q = pick_named c' m n.1 named.0 in (q.0, omega (arith, q.1, named.1))),
          pick_oldest c' m n.1,
        )

    -- The choice is an entry in play, or the one that the loop began with.
    pick_source :
        (c : Choice) (m : Dict V)
        → Distinct m
        → (pick in_play c m ≡ c)
          ⊎ ((v : V) × (lookup (pick in_play c m).name m ≡ some v)
              × (in_play v ≡ true)
              × (seen v ≡ (pick in_play c m).at))
    unfolding pick consider
    pick_source c [] d = inl refl
    pick_source c ((name, v) ∷ m) d =
        let c' = if in_play v then consider c name (seen v) else c in
        elim (pick_source c' m d.1) [
          | inr (u, found, p, s) ↦ inr (u, lookup-cons name _ v u m d found, p, s)
          | inl same ↦ elim (Bool-cases (in_play v)) [
            | inr idle ↦ inl (rw idle (rw idle at same))
            | inl p ↦ elim (consider_cases c name (seen v)) [
              | inl kept ↦ inl (rw p (rw p at same ∙ kept))
              | inr new ↦
                  let q : pick in_play c ((name, v) ∷ m) ≡ record { name = name; at = seen v } =
                    rw p (rw p at same ∙ new) in
                  inr (
                    v,
                    ap (λ (r : Choice). lookup r.name ((name, v) ∷ m)) q ∙ lookup_head name v m,
                    p,
                    sym (ap (λ (r : Choice). r.at) q),
                  )
            ]
          ]
        ]

  -- The entry that an eviction deletes: an idle one, as old as every idle one; or, if none is idle,
  -- a busy one, as old as every other.
  pub record IsVictim (busy : V → Bool) (name : Text) (m : Dict V) : Type 0 where
    pub entry : V
    pub found : lookup name m ≡ some entry
    pub idle_first : Each (λ k u. (busy u || not (busy entry)) ≡ true) m
    pub oldest : Each (λ k u. (busy u ≢ busy entry) ⊎ (seen entry ≤ seen u)) m

  module _ (busy : V → Bool) where
    idle : V → Bool
    idle u = not (busy u)

    Each-weaken :
        {P Q : Text → V → Type 0} (m : Dict V)
        → ((k : Text) (v : V) → P k v → Q k v)
        → Each P m
        → Each Q m
    Each-weaken [] f h = tt
    Each-weaken ((k, v) ∷ m) f h = (f k v h.0, Each-weaken m f h.1)

    -- If no choice among the idle entries was made, every entry is busy.
    abbrev AllBusy : Dict V → Type 0
    AllBusy = Each (λ k u. busy u ≡ false → ⊥)

    some_busy :
        (m : Dict V)
        → m ≢ []
        → NamedKeys m
        → AllBusy m
        → is_empty (pick busy no_choice m).name ≡ false
    some_busy [] ne n a = absurd (ne refl)
    some_busy ((k, v) ∷ m) ne n a = elim (Bool-cases (busy v)) [
      | inl p ↦ ((pick_oldest busy no_choice ((k, v) ∷ m) n).0 p).0
      | inr p ↦ absurd (a.0 p)
    ]

    picked_name :
        (m : Dict V)
        → victim_of busy seen m ≡ (
            if is_empty (pick idle no_choice m).name
            then (pick busy no_choice m).name
            else (pick idle no_choice m).name)
    unfolding victim_of idle
    picked_name m = rw (scan-pick busy no_choice no_choice m)

    idle-IsVictim :
        (m : Dict V)
        → Distinct m
        → NamedKeys m
        → is_empty (pick idle no_choice m).name ≡ false
        → IsVictim busy (pick idle no_choice m).name m
    unfolding idle
    idle-IsVictim m d n h = elim (pick_source idle no_choice m d) [
      | inl same ↦ absurd (ground (arith, ap (λ (r : Choice). is_empty r.name) same))
      | inr (v, found, p, s) ↦ record {
        entry = v;
        found = found;
        idle_first = Each-weaken m (λ k u h. ground arith) (pick_oldest idle no_choice m n);
        oldest =
            Each-weaken m
              (λ k u old.
                apart_or (busy u) (busy v) (λ e. omega (arith, s, (old (ground arith)).1)))
              (pick_oldest idle no_choice m n);
      }
    ]

    busy-IsVictim :
        (m : Dict V)
        → m ≢ []
        → Distinct m
        → NamedKeys m
        → AllBusy m
        → IsVictim busy (pick busy no_choice m).name m
    busy-IsVictim m ne d n a = elim (pick_source busy no_choice m d) [
      | inl same ↦
          absurd (ground (arith, some_busy m ne n a, ap (λ (r : Choice). is_empty r.name) same))
      | inr (v, found, p, s) ↦ record {
        entry = v;
        found = found;
        idle_first = Each-weaken m (λ k u no_idle. ground (arith, no_idle)) a;
        oldest =
            Each-weaken m
              (λ k u old. apart_or (busy u) (busy v) (λ e. omega (arith, s, (old (e ∙ p)).1)))
              (pick_oldest busy no_choice m n);
      }
    ]

    -- In a map that is not empty, with keys that are distinct and not empty, the eviction picks an
    -- entry of the map: an idle one if there is one, and among those the one seen least recently;
    -- else the busy one seen least recently.
    pub victim_of-IsVictim :
        (m : Dict V) → m ≢ [] → Distinct m → NamedKeys m → IsVictim busy (victim_of busy seen m) m
    unfolding idle
    victim_of-IsVictim m ne d n = elim (Bool-cases (is_empty (pick idle no_choice m).name)) [
      | inr chosen ↦ rw (picked_name m, chosen) (idle-IsVictim m d n chosen)
      | inl none_idle ↦
          rw (picked_name m, none_idle)
            (busy-IsVictim m ne d n (
              Each-weaken m (λ k u old. λ e. absurd (ground (arith, (old (ground arith)).0)))
                (pick_oldest idle no_choice m n)))
    ]
