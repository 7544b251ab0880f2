-- ===== src/FreeProxies/HotCache/Picks.antt =====
-- PickDistinct (internal/freproxies/hotcache.go): the proxies it chooses.
use mathlib.Core.List.{Perm, Mem, Mem-prop, mem-cons, mem-cons_of_mem, not-mem-nil}
use mathlib.Core.List.Perm
use mathlib.Core.Logic.Or
use unified_proxy_pool.Base.{
  ℕ, ◌+◌, ◌≤◌, ◌<◌, ◌≡◌, true, false, List, [], ◌∷◌, arith, leb, if◌then◌else◌, inl, inr, Text,
  is_empty, to_lower, length, Bool-cases,
}
use unified_proxy_pool.FreeProxies.{Proxy}
use unified_proxy_pool.FreeProxies.HotCache.{
  HotCache, Ends, takes, choose, pick_distinct, host_of_proxy, is_seen, protocol_fits, region_fits,
}

-- No proxy of the list has one of the hosts.
abbrev pub NewHosts : List Text → List Proxy → Type 0
NewHosts hosts [] = Unit
NewHosts hosts (p ∷ ps) = (is_seen (host_of_proxy p) hosts ≡ false) × NewHosts hosts ps

-- The hosts of the list are distinct.
abbrev pub DistinctHosts : List Proxy → Type 0
DistinctHosts [] = Unit
DistinctHosts (p ∷ ps) = NewHosts (host_of_proxy p ∷ []) ps × DistinctHosts ps

NewHosts-split :
    (h : Text) (hosts : List Text) (ps : List Proxy)
    → NewHosts (h ∷ hosts) ps
    → NewHosts (h ∷ []) ps × NewHosts hosts ps
unfolding is_seen
NewHosts-split h hosts [] n = (tt, tt)
NewHosts-split h hosts (p ∷ ps) n =
    let rest = NewHosts-split h hosts ps n.1 in
    ((ground (arith, n.0), rest.0), (ground (arith, n.0), rest.1))

mem-cons_mono :
    (p q : Proxy) (xs ys : List Proxy) → (Mem q xs → Mem q ys) → Mem q (p ∷ xs) → Mem q (p ∷ ys)
mem-cons_mono p q xs ys f m =
    Or.elim (Mem-prop {a = q} {l = p ∷ ys}) (mem-cons.0 m) (λ e. mem-cons.1 ∣ inl e ∣₁)
      (λ k. mem-cons_of_mem p (f k))

module _ (w : Ends) (n : ℕ) where
  takes-new :
      (idx : ℕ) (hosts regions : List Text) (p : Proxy)
      → takes w n idx hosts regions p ≡ true
      → is_seen (host_of_proxy p) hosts ≡ false
  unfolding takes
  takes-new idx hosts regions p h = ground arith

  choose-new :
      (idx : ℕ) (hosts regions : List Text) (ps : List Proxy)
      → NewHosts hosts (choose w n idx hosts regions ps)
        × DistinctHosts (choose w n idx hosts regions ps)
  unfolding choose
  choose-new idx hosts regions [] = (tt, tt)
  choose-new idx hosts regions (p ∷ ps) = elim (Bool-cases (takes w n idx hosts regions p)) [
    | inr skipped ↦ rw skipped (choose-new idx hosts regions ps)
    | inl taken ↦ rw taken (elim (Bool-cases (leb n (idx + 1))) [
      | inl full ↦ rw full ((takes-new idx hosts regions p taken, tt), (tt, tt))
      | inr more ↦
          let after =
            choose-new (idx + 1) (host_of_proxy p ∷ hosts)
              (if is_empty p.region then regions else to_lower p.region ∷ regions) ps in
          let parts = NewHosts-split (host_of_proxy p) hosts _ after.0 in
          rw more ((takes-new idx hosts regions p taken, parts.1), (parts.0, after.1))
    ])
  ]

  length-choose :
      (idx : ℕ) (hosts regions : List Text) (ps : List Proxy)
      → idx < n
      → idx + length (choose w n idx hosts regions ps) ≤ n
  unfolding choose
  length-choose idx hosts regions [] h = omega arith
  length-choose idx hosts regions (p ∷ ps) h = elim (Bool-cases (takes w n idx hosts regions p)) [
    | inr skipped ↦ rw skipped (length-choose idx hosts regions ps h)
    | inl taken ↦ rw taken (elim (Bool-cases (leb n (idx + 1))) [
      | inl full ↦ rw full (omega arith)
      | inr more ↦
          let after : idx + 1 < n = ground arith in
          rw more (
            omega (
              arith,
              length-choose (idx + 1) (host_of_proxy p ∷ hosts)
                  (if is_empty p.region then regions else to_lower p.region ∷ regions) ps after,
            ))
    ])
  ]

  choose-Mem :
      (idx : ℕ) (hosts regions : List Text) (ps : List Proxy) (q : Proxy)
      → Mem q (choose w n idx hosts regions ps)
      → Mem q ps
  unfolding choose
  choose-Mem idx hosts regions [] q m = m
  choose-Mem idx hosts regions (p ∷ ps) q m = elim (Bool-cases (takes w n idx hosts regions p)) [
    | inr skipped ↦ mem-cons_of_mem p (choose-Mem idx hosts regions ps q (rw skipped at m))
    | inl taken ↦ elim (Bool-cases (leb n (idx + 1))) [
      | inl full ↦ mem-cons_mono p q [] ps (λ k. absurd (not-mem-nil k)) (rw (taken, full) at m)
      | inr more ↦
          mem-cons_mono p q _ ps
            (choose-Mem (idx + 1) (host_of_proxy p ∷ hosts)
              (if is_empty p.region then regions else to_lower p.region ∷ regions) ps q)
            (rw (taken, more) at m)
    ]
  ]

-- The entry and the exit of a chain are what the caller wants, where the first proxy of the list is
-- the one after `idx` others.
abbrev pub Placed : Ends → ℕ → ℕ → List Proxy → Type 0
Placed w n idx [] = Unit
Placed w n idx (p ∷ ps) =
    (idx ≡ 0
      → (protocol_fits w.entry_protocol p.protocol ≡ true)
        × (region_fits w.entry_region p.region ≡ true))
    × (idx + 1 ≡ n
        → 1 < n
        → (protocol_fits w.exit_protocol p.protocol ≡ true)
          × (region_fits w.exit_region p.region ≡ true))
    × Placed w n (idx + 1) ps

module _ (w : Ends) (n : ℕ) where
  takes-entry :
      (idx : ℕ) (hosts regions : List Text) (p : Proxy)
      → takes w n idx hosts regions p ≡ true
      → idx ≡ 0
      → (protocol_fits w.entry_protocol p.protocol ≡ true)
        × (region_fits w.entry_region p.region ≡ true)
  unfolding takes
  takes-entry idx hosts regions p h first = ground (arith, h, first)

  takes-exit :
      (idx : ℕ) (hosts regions : List Text) (p : Proxy)
      → takes w n idx hosts regions p ≡ true
      → idx + 1 ≡ n
      → 1 < n
      → (protocol_fits w.exit_protocol p.protocol ≡ true)
        × (region_fits w.exit_region p.region ≡ true)
  unfolding takes
  takes-exit idx hosts regions p h last several = ground (arith, h, last, several)

  choose-Placed :
      (idx : ℕ) (hosts regions : List Text) (ps : List Proxy)
      → Placed w n idx (choose w n idx hosts regions ps)
  unfolding choose
  choose-Placed idx hosts regions [] = tt
  choose-Placed idx hosts regions (p ∷ ps) = elim (Bool-cases (takes w n idx hosts regions p)) [
    | inr skipped ↦ rw skipped (choose-Placed idx hosts regions ps)
    | inl taken ↦
        let entry = takes-entry idx hosts regions p taken in
        let exit = takes-exit idx hosts regions p taken in
        rw taken (elim (Bool-cases (leb n (idx + 1))) [
          | inl full ↦ rw full (entry, exit, tt)
          | inr more ↦ rw more (
            entry,
            exit,
            choose-Placed (idx + 1) (host_of_proxy p ∷ hosts)
                (if is_empty p.region then regions else to_lower p.region ∷ regions) ps,
          )
        ])
  ]

-- PickDistinct of at least one proxy gives at most as many as asked for, and no two with the same
-- host.
pub pick_distinct_lem :
    (shuffle : List Proxy → List Proxy) (h : HotCache) (n : ℕ) (w : Ends)
    → 0 < n
    → DistinctHosts (pick_distinct shuffle h n w) × (length (pick_distinct shuffle h n w) ≤ n)
unfolding pick_distinct
pick_distinct_lem shuffle h n w some_wanted = (
  (choose-new w n 0 [] [] (shuffle h.items)).1,
  omega (arith, length-choose w n 0 [] [] (shuffle h.items) some_wanted),
)

-- What PickDistinct gives stands in the cache, as long as the random order is a reordering; the
-- first proxy has the protocol and the region that the caller wants of the entry, and where as many
-- are found as asked for, and more than one is, the last has those of the exit. A region that is not
-- known fits.
pub pick_distinct-Placed :
    (shuffle : List Proxy → List Proxy) (h : HotCache) (n : ℕ) (w : Ends)
    → Perm (shuffle h.items) h.items
    → Placed w n 0 (pick_distinct shuffle h n w)
      × ((q : Proxy) → Mem q (pick_distinct shuffle h n w) → Mem q h.items)
unfolding pick_distinct
pick_distinct-Placed shuffle h n w mixes = (
  choose-Placed w n 0 [] [] (shuffle h.items),
  λ q m. (Perm.mem_iff mixes).0 (choose-Mem w n 0 [] [] (shuffle h.items) q m),
)
