-- ===== src/FreeProxies/Selection/Kept.antt =====
-- internal/freproxies/pick.go and candidates.go: what a pick hands out.
use unified_proxy_pool.Base.{
  ℕ, zero, suc, ◌+◌, ◌-◌, ◌*◌, ◌%◌, ◌^◌, ◌≡◌, ap, subst, Bool, true, false, ◌&&◌, inl, inr, List,
  [], ◌∷◌, ltb, leb, ◌==◌, if◌then◌else◌, Text, member_text, Option, none, some, Time, length, take,
  set, get_elem?, insert_sorted, sort_by, is_le_zero, to_nat, arith, Bool-cases, Option-cases,
}
use unified_proxy_pool.FreeProxies.{Proxy}
use unified_proxy_pool.FreeProxies.Selection.{
  Strategy, random, rr, p2c, weighted, PickOptions, PickState, Draws, strategy_of, swap_delete,
  heavier, draw_some, weighted_sample, walk, rr_select, addr_before, next_cursor, draw_pairs,
  p2c_sample, shuffle, chosen, recently_served, mark_served, apply_strategy,
}

pub some_inj {ℓ} : {A : Type ℓ} (a b : A) → some a ≡ some b → a ≡ b
some_inj {A = A} a b h = ap (λ (o : Option A). elim o [ none ↦ a | some x ↦ x ]) h

module _ {ℓ} (P : Proxy → Type ℓ) where
  abbrev pub All : List Proxy → Type ℓ
  All [] = Unit
  All (p ∷ ps) = P p × All ps

  All-get : (ps : List Proxy) (i : ℕ) (p : Proxy) → All ps → get_elem? ps i ≡ some p → P p
  All-get [] i p h e = absurd (ground arith)
  All-get (q ∷ ps) zero p h e = subst P (some_inj q p e) h.0
  All-get (q ∷ ps) (suc i) p h e = All-get ps i p h.1 e

  All-set : (ps : List Proxy) (i : ℕ) (p : Proxy) → All ps → P p → All (set ps i p)
  All-set [] i p h k = h
  All-set (q ∷ ps) zero p h k = (k, h.1)
  All-set (q ∷ ps) (suc i) p h k = (h.0, All-set ps i p h.1 k)

  All-take : (n : ℕ) (ps : List Proxy) → All ps → All (take n ps)
  All-take zero ps h = tt
  All-take (suc n) [] h = tt
  All-take (suc n) (p ∷ ps) h = (h.0, All-take n ps h.1)

  All-insert_sorted :
      (less : Proxy → Proxy → Bool) (p : Proxy) (ps : List Proxy)
      → P p
      → All ps
      → All (insert_sorted less p ps)
  unfolding insert_sorted
  All-insert_sorted less p [] k h = (k, tt)
  All-insert_sorted less p (q ∷ qs) k h = elim (Bool-cases (less q p)) [
    | inl e ↦ rw e (h.0, All-insert_sorted less p qs k h.1)
    | inr e ↦ rw e (k, h)
  ]

  All-sort_by : (less : Proxy → Proxy → Bool) (ps : List Proxy) → All ps → All (sort_by less ps)
  unfolding sort_by
  All-sort_by less [] h = tt
  All-sort_by less (p ∷ ps) h =
      All-insert_sorted less p (sort_by less ps) h.0 (All-sort_by less ps h.1)

  All-swap_delete : (i : ℕ) (ps : List Proxy) → All ps → All (swap_delete i ps)
  unfolding swap_delete
  All-swap_delete i ps h = elim (Option-cases (get_elem? ps (length ps - 1))) [
    | inl missing ↦ rw (missing, swap_delete) h
    | inr (p, is) ↦
        rw (is, swap_delete)
          (All-take (length ps - 1) (set ps i p)
            (All-set ps i p h (All-get ps (length ps - 1) p h is)))
  ]

  All-draw_some : (draw : ℕ → ℕ) (k : ℕ) (ps : List Proxy) → All ps → All (draw_some draw k ps)
  unfolding draw_some
  All-draw_some draw zero ps h = tt
  All-draw_some draw (suc k) ps h = elim (Option-cases (get_elem? ps (draw k % length ps))) [
    | inl missing ↦ rw (missing, draw_some) tt
    | inr (p, is) ↦
        rw (is, draw_some)
          (
            All-get ps (draw k % length ps) p h is,
            All-draw_some draw k (swap_delete (draw k % length ps) ps)
                (All-swap_delete (draw k % length ps) ps h),
          )
  ]

  All-walk : (ps : List Proxy) (start i k : ℕ) → All ps → All (walk ps start i k)
  unfolding walk
  All-walk ps start i zero h = tt
  All-walk ps start i (suc k) h =
      elim (Option-cases (get_elem? ps ((start + i) % 2 ^ 64 % length ps))) [
        | inl missing ↦ rw (missing, walk) (All-walk ps start (i + 1) k h)
        | inr (p, is) ↦
            rw (is, walk)
              (All-get ps ((start + i) % 2 ^ 64 % length ps) p h is, All-walk ps start (i + 1) k h)
      ]

  All-if : (b : Bool) (ps qs : List Proxy) → All ps → All qs → All (if b then ps else qs)
  All-if true ps qs h k = h
  All-if false ps qs h k = k

  better_of : (b : Bool) (p q : Proxy) → P p → P q → P (if b then p else q)
  better_of true p q h k = h
  better_of false p q h k = k

  All-draw_pairs :
      (draw : ℕ → ℕ × ℕ) (recent : List Text) (ps : List Proxy) (turns wanted : ℕ)
      (taken : List Text)
      → All ps
      → All (draw_pairs draw recent ps turns wanted taken)
  unfolding draw_pairs
  All-draw_pairs draw recent ps zero wanted taken h = tt
  All-draw_pairs draw recent ps (suc turns) zero taken h = tt
  All-draw_pairs draw recent ps (suc turns) (suc wanted) taken h =
      let d = draw turns in
      let i = d.0 % length ps in
      let j =
        if d.1 % length ps == i && ltb 1 (length ps)
        then (i + 1) % length ps
        else d.1 % length ps in
      elim (Option-cases (get_elem? ps i)) [
        | inl missing ↦ rw (missing, draw_pairs) tt
        | inr (a, is) ↦ elim (Option-cases (get_elem? ps j)) [
          | inl missing ↦ rw (is, draw_pairs) (rw (missing, draw_pairs) tt)
          | inr (b, is2) ↦
              let best : Proxy = if heavier recent b a then b else a in
              rw (is, draw_pairs)
                (rw (is2, draw_pairs)
                  (All-if (member_text best.addr taken) _ _
                    (All-draw_pairs draw recent ps turns (suc wanted) taken h)
                    (
                      better_of (heavier recent b a) b a (All-get ps j b h is2)
                          (All-get ps i a h is),
                      All-draw_pairs draw recent ps turns wanted (best.addr ∷ taken) h,
                    )))
        ]
      ]

  All-shuffle : (swaps : List (ℕ × ℕ)) (ps : List Proxy) → All ps → All (shuffle swaps ps)
  unfolding shuffle
  All-shuffle [] ps h = h
  All-shuffle ((i, j) ∷ swaps) ps h = elim (Option-cases (get_elem? ps i)) [
    | inl missing ↦ rw (missing, shuffle) (All-shuffle swaps ps h)
    | inr (p, is) ↦ elim (Option-cases (get_elem? ps j)) [
      | inl missing ↦ rw (is, shuffle) (rw (missing, shuffle) (All-shuffle swaps ps h))
      | inr (q, is2) ↦
          rw (is, shuffle)
            (rw (is2, shuffle)
              (All-shuffle swaps (set (set ps i q) j p) (
                All-set (set ps i q) j p (All-set ps i q h (All-get ps j q h is2))
                  (All-get ps i p h is))))
    ]
  ]

  All-weighted_sample :
      (draw : ℕ → ℕ) (ps : List Proxy) (n : ℕ) (recent : List Text)
      → All ps
      → All (weighted_sample draw ps n recent)
  unfolding weighted_sample
  All-weighted_sample draw ps n recent h =
      All-if (leb (length ps) n) (sort_by (heavier recent) ps) (draw_some draw n ps)
        (All-sort_by (heavier recent) ps h) (All-draw_some draw n ps h)

  All-first :
      (b : Bool) (x y : List Proxy × PickState) → All x.0 → All y.0 → All (if b then x else y).0
  All-first true x y h k = h
  All-first false x y h k = k

  All-rr_select :
      (ps : List Proxy) (n : ℕ) (channel : Text) (s : PickState)
      → All ps
      → All (rr_select ps n channel s).0
  unfolding rr_select
  All-rr_select ps n channel s h =
      let ordered = sort_by addr_before ps in
      let k = if ltb (length ordered) n then length ordered else n in
      let c = next_cursor channel k s in
      All-first (length ps == 0) ([], s) (walk ordered c.0 0 k, c.1) tt
        (All-walk ordered c.0 0 k (All-sort_by addr_before ps h))

  All-chosen :
      (d : Draws) (k : Strategy) (ps : List Proxy) (n : ℕ) (channel : Text) (recent : List Text)
      (s : PickState)
      → All ps
      → All (chosen d k ps n channel recent s).0
  unfolding chosen p2c_sample
  All-chosen d random ps n channel recent s h =
      All-take n (shuffle d.swaps ps) (All-shuffle d.swaps ps h)
  All-chosen d rr ps n channel recent s h = All-rr_select ps n _ s h
  All-chosen d p2c ps n channel recent s h =
      All-if (leb (length ps) n) (weighted_sample d.one ps n recent)
        (draw_pairs d.two recent ps (n * 16) n []) (All-weighted_sample d.one ps n recent h)
        (All-draw_pairs d.two recent ps (n * 16) n [] h)
  All-chosen d weighted ps n channel recent s h = All-weighted_sample d.one ps n recent h

  pub All-apply_strategy :
      (d : Draws) (ps : List Proxy) (opt : PickOptions) (now : Time) (s : PickState)
      → All ps
      → All (apply_strategy d ps opt now s).0
  unfolding apply_strategy
  All-apply_strategy d ps opt now s h =
      let n = if is_le_zero opt.n then 1 else to_nat opt.n in
      let recent = if opt.no_cooldown then [] else recently_served ps now s in
      let c = chosen d (strategy_of opt.strategy) ps n opt.channel recent s in
      All-first (length ps == 0) ([], s) (c.0, mark_served c.0 now c.1) tt
        (All-chosen d (strategy_of opt.strategy) ps n opt.channel recent s h)
