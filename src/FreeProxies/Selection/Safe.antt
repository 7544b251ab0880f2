-- ===== src/FreeProxies/Selection/Safe.antt =====
-- internal/freproxies/candidates.go: the exclusions of Pick, on every path.
use unified_proxy_pool.Base.{
  ℕ, ◌*◌, ◌≡◌, refl, subst, Bool, true, false, not, ◌&&◌, ◌||◌, inl, inr, List, [], ◌∷◌, ltb, ◌==◌,
  if◌then◌else◌, Text, is_empty, equal_fold, Option, none, some, Time, Dict, has, length, to_nat,
  arith, Bool-cases, Option-cases,
}
use unified_proxy_pool.FreeProxies.{Proxy}
use unified_proxy_pool.FreeProxies.Score.{Ip, family}
use unified_proxy_pool.FreeProxies.Selection.{Strategy, PickOptions, PickState, Draws}
use unified_proxy_pool.FreeProxies.Selection.Candidates.{
  Guards, Query, Backend, served, usable, filter_candidates, or_else, from_store, rung, ladder,
  gather_candidates, pick_options, bans_of, pick,
}
use unified_proxy_pool.FreeProxies.Selection.Kept.{some_inj, All, All-apply_strategy}

module _ (parse_ip : Text → Option Ip) (guards : Guards) where
  -- Nothing stands against the proxy: not the blacklist, not the country filter, not its source, not a
  -- ban, and it has the family that is asked for.
  abbrev pub Allowed : Text → Dict Time → Proxy → Type 0
  Allowed asked banned p =
      (guards.blocked p.addr ≡ false)
      × (guards.country p.region p.host ≡ false)
      × (guards.source_disabled p.source ≡ false)
      × (has p.addr banned ≡ false)
      × ((is_empty asked || equal_fold (family parse_ip p) asked) ≡ true)

  usable-Allowed :
      (opt : PickOptions) (banned : Dict Time) (p : Proxy)
      → usable parse_ip guards opt banned p ≡ true
      → Allowed opt.family banned p
  unfolding usable
  usable-Allowed opt banned p h = ground (arith, h)

  filter_candidates-Allowed :
      (ps : List Proxy) (opt : PickOptions) (banned : Dict Time)
      → All (Allowed opt.family banned) (filter_candidates parse_ip guards ps opt banned)
  unfolding filter_candidates
  filter_candidates-Allowed [] opt banned = tt
  filter_candidates-Allowed (p ∷ ps) opt banned =
      elim (Bool-cases (usable parse_ip guards opt banned p)) [
        | inl e ↦ rw e (usable-Allowed opt banned p e, filter_candidates-Allowed ps opt banned)
        | inr e ↦ rw e (filter_candidates-Allowed ps opt banned)
      ]

  module _ (backend : Backend) where
    or_else-All {ℓ} :
        (P : Proxy → Type ℓ) (ps : List Proxy) (next : List Proxy × Bool)
        → All P ps
        → All P next.0
        → All P (or_else parse_ip guards backend ps next).0
    or_else-All P [] next h k = k
    or_else-All P (p ∷ ps) next h k = h

    from_store-Allowed :
        (protocol : Text) (window : ℕ) (opt : PickOptions) (banned : Dict Time)
        → All
            (Allowed opt.family banned)
            (from_store parse_ip guards backend protocol window opt banned)
    unfolding from_store
    from_store-Allowed protocol window opt banned =
        elim (Option-cases (backend.random_n protocol window)) [
          | inl missing ↦ rw (missing, from_store) tt
          | inr (ps, is) ↦ rw (is, from_store) (filter_candidates-Allowed ps opt banned)
        ]

    rung-Allowed :
        (q : Query) (opt : PickOptions) (banned : Dict Time) (ps : List Proxy)
        → rung parse_ip guards backend q opt banned ≡ some ps
        → All (Allowed opt.family banned) ps
    unfolding rung
    rung-Allowed q opt banned ps h = elim (Option-cases (backend.list q)) [
      | inl missing ↦ absurd (ground (arith, rw (missing, rung) at h))
      | inr (items, is) ↦
          let rung_opt : PickOptions = record opt { protocol = q.protocol; region = q.region } in
          subst (All (Allowed opt.family banned)) (some_inj _ ps (rw (is, rung) at h))
            (filter_candidates-Allowed items rung_opt banned)
    ]

    All-if :
        (P : Proxy → Type 0) (b : Bool) (x y : List Proxy × Bool)
        → All P x.0
        → All P y.0
        → All P (if b then x else y).0
    All-if P true x y h k = h
    All-if P false x y h k = k

    second_Allowed :
        (q : Query) (opt : PickOptions) (banned : Dict Time) (failed : Bool)
        → All
            (Allowed opt.family banned)
            (elim (rung parse_ip guards backend q opt banned) as (λ o. List Proxy × Bool) [
              | none ↦ ([], failed)
              | some out ↦ (out, false)
            ]).0
    second_Allowed q opt banned failed =
        elim (Option-cases (rung parse_ip guards backend q opt banned)) [
          | inl missing ↦ rw missing tt
          | inr (out, is) ↦ rw is (rung-Allowed q opt banned out is)
        ]

    ladder-Allowed :
        (size : ℕ) (opt : PickOptions) (banned : Dict Time)
        → All (Allowed opt.family banned) (ladder parse_ip guards backend size opt banned).0
    unfolding ladder
    ladder-Allowed size opt banned =
        let first : Query = record {
          size = size;
          protocol = opt.protocol;
          region = opt.region;
          family = opt.family;
        } in
        let second : Query = record {
          size = size;
          protocol = [];
          region = [];
          family = opt.family;
        } in
        let same = is_empty opt.protocol && is_empty opt.region in
        elim (Option-cases (rung parse_ip guards backend first opt banned)) [
          | inl missing ↦
              rw (missing, ladder)
                (All-if (Allowed opt.family banned) same ([], true) _ tt
                  (second_Allowed second opt banned true))
          | inr (out, is) ↦
              rw (is, ladder)
                (or_else-All (Allowed opt.family banned) out _
                  (rung-Allowed first opt banned out is)
                  (All-if (Allowed opt.family banned) same ([], false) _ tt
                    (second_Allowed second opt banned false)))
        ]

    gather_candidates-Allowed :
        (opt : PickOptions) (banned : Dict Time)
        → All (Allowed opt.family banned) (gather_candidates parse_ip guards backend opt banned).0
    unfolding gather_candidates
    gather_candidates-Allowed opt banned =
        let n = to_nat opt.n in
        let window = if ltb 64 (n * 8) then n * 8 else 64 in
        let size = if ltb 40 (n * 10) then n * 10 else 40 in
        let Fine = Allowed opt.family banned in
        or_else-All Fine _ _ (hot_Allowed window opt banned) (
          or_else-All Fine _ _ (from_store-Allowed opt.protocol window opt banned) (
            or_else-All Fine _ _ (any_protocol_Allowed window opt banned)
              (ladder-Allowed size opt banned)))
      where
        hot_Allowed :
            (window : ℕ) (opt : PickOptions) (banned : Dict Time)
            → All (Allowed opt.family banned) (elim backend.hot as (λ o. List Proxy) [
              | none ↦ []
              | some ask ↦
                  filter_candidates parse_ip guards (ask window opt.protocol opt.region) opt banned
            ])
        hot_Allowed window opt banned = elim (Option-cases backend.hot) [
          | inl missing ↦ rw missing tt
          | inr (ask, is) ↦
              rw is (filter_candidates-Allowed (ask window opt.protocol opt.region) opt banned)
        ]

        any_protocol_Allowed :
            (window : ℕ) (opt : PickOptions) (banned : Dict Time)
            → All (Allowed opt.family banned) (
                if is_empty opt.protocol
                then []
                else from_store parse_ip guards backend [] window
                    (record opt { protocol = [] })
                    banned)
        any_protocol_Allowed window opt banned = elim (Bool-cases (is_empty opt.protocol)) [
          | inl e ↦ rw e tt
          | inr e ↦ rw e (from_store-Allowed [] window (record opt { protocol = [] }) banned)
        ]

    served-All :
        (P : Proxy → Type 0) (relaxed : Bool) (ps : List Proxy) (draws : Draws) (opt : PickOptions)
        (now : Time) (s : PickState)
        → All P ps
        → All P (served relaxed ps draws opt now s).0.items
    unfolding served
    served-All P relaxed ps draws opt now s h = All-apply_strategy P draws ps opt now s h

    served-relaxed :
        (relaxed : Bool) (ps : List Proxy) (draws : Draws) (opt : PickOptions) (now : Time)
        (s : PickState)
        → (served relaxed ps draws opt now s).0.relaxed ≡ relaxed
    unfolding served
    served-relaxed relaxed ps draws opt now s = refl

    -- Whatever the strategy and the random draws, and wherever the candidates come from: no proxy that
    -- Pick hands out is on the blacklist, blocked by its country or from a source that is switched off,
    -- and each has the family that is asked for. None is banned for the channel, unless the result says
    -- that it is relaxed, and it is relaxed only where no candidate is free of bans.
    pub pick_lem :
        (default : Strategy) (draws : Draws) (given : PickOptions) (now : Time) (s : PickState)
        → All
            (Allowed given.family (
              if (pick parse_ip guards backend default draws given now s).0.relaxed
              then []
              else bans_of parse_ip guards given.channel))
            (pick parse_ip guards backend default draws given now s).0.items
          × (((pick parse_ip guards backend default draws given now s).0.relaxed
                && not (
                    length
                      (gather_candidates parse_ip guards backend
                        (pick_options default given)
                        (bans_of parse_ip guards given.channel)).0
                    == 0))
              ≡ false)
    unfolding pick
    pick_lem default draws given now s =
        let opt = pick_options default given in
        let banned = bans_of parse_ip guards given.channel in
        let items = (gather_candidates parse_ip guards backend opt banned).0 in
        let relaxed = (gather_candidates parse_ip guards backend opt []).0 in
        elim (Bool-cases (length items == 0)) [
          | inr some_free ↦
              rw (some_free, served-relaxed false items draws opt now s)
                (
                  served-All (Allowed given.family banned) false items draws opt now s
                      (gather_candidates-Allowed opt banned),
                  refl,
                )
          | inl none_free ↦
              elim (Bool-cases (not (length banned == 0) && not (length relaxed == 0))) [
                | inl all_banned ↦
                    rw (none_free, all_banned, served-relaxed true relaxed draws opt now s)
                      (
                        served-All (Allowed given.family []) true relaxed draws opt now s
                            (gather_candidates-Allowed opt []),
                        refl,
                      )
                | inr nothing ↦ rw (none_free, nothing) (tt, refl)
              ]
        ]
