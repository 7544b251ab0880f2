-- ===== src/FreeProxies/Health/Bands.antt =====
-- The numbers of a health summary (internal/freproxies/health.go).
use unified_proxy_pool.Base.{
  ℕ, zero, suc, ◌+◌, ◌-◌, ◌/◌, ◌≤◌, ◌<◌, ◌≡◌, refl, sym, ◌∙◌, not, ◌||◌, List, [], ◌∷◌, arith, ltb,
  if◌then◌else◌, inl, inr, sort_by, insert_sorted, length, get_or, ℤ, is_le_zero, to_nat,
  Bool-cases,
}
use unified_proxy_pool.FreeProxies.{Proxy}
use unified_proxy_pool.FreeProxies.Health.{
  PoolHealth, count_band, count_all, latencies, median, measure, summary, no_health,
}

abbrev From : ℕ → List ℕ → Type 0
From x [] = Unit
From x (y ∷ ys) = (x ≤ y) × From x ys

abbrev UpTo : ℕ → List ℕ → Type 0
UpTo x [] = Unit
UpTo x (y ∷ ys) = (y ≤ x) × UpTo x ys

abbrev Sorted : List ℕ → Type 0
Sorted [] = Unit
Sorted (x ∷ xs) = From x xs × Sorted xs

From-trans : (x y : ℕ) (xs : List ℕ) → x ≤ y → From y xs → From x xs
From-trans x y [] h f = tt
From-trans x y (z ∷ zs) h f = (omega (arith, h, f.0), From-trans x y zs h f.1)

From-insert : (x y : ℕ) (xs : List ℕ) → x ≤ y → From x xs → From x (insert_sorted ltb y xs)
unfolding insert_sorted
From-insert x y [] h f = (h, tt)
From-insert x y (z ∷ zs) h f = elim (Bool-cases (ltb z y)) [
  | inl e ↦ rw e (f.0, From-insert x y zs h f.1)
  | inr e ↦ rw e (h, f)
]

Sorted-insert : (x : ℕ) (xs : List ℕ) → Sorted xs → Sorted (insert_sorted ltb x xs)
unfolding insert_sorted
Sorted-insert x [] s = (tt, tt)
Sorted-insert x (y ∷ ys) s = elim (Bool-cases (ltb y x)) [
  | inl e ↦ rw e (From-insert y x ys (ground arith) s.0, Sorted-insert x ys s.1)
  | inr e ↦ let h : x ≤ y = ground arith in rw e ((h, From-trans x y ys h s.0), s)
]

Sorted-sort_by : (xs : List ℕ) → Sorted (sort_by ltb xs)
unfolding sort_by
Sorted-sort_by [] = tt
Sorted-sort_by (x ∷ xs) = Sorted-insert x (sort_by ltb xs) (Sorted-sort_by xs)

UpTo-insert : (m x : ℕ) (xs : List ℕ) → x ≤ m → UpTo m xs → UpTo m (insert_sorted ltb x xs)
unfolding insert_sorted
UpTo-insert m x [] h f = (h, tt)
UpTo-insert m x (y ∷ ys) h f = elim (Bool-cases (ltb y x)) [
  | inl e ↦ rw e (f.0, UpTo-insert m x ys h f.1)
  | inr e ↦ rw e (h, f)
]

UpTo-sort_by : (m : ℕ) (xs : List ℕ) → UpTo m xs → UpTo m (sort_by ltb xs)
unfolding sort_by
UpTo-sort_by m [] f = tt
UpTo-sort_by m (x ∷ xs) f = UpTo-insert m x (sort_by ltb xs) f.0 (UpTo-sort_by m xs f.1)

length-insert_sorted : (x : ℕ) (xs : List ℕ) → length (insert_sorted ltb x xs) ≡ suc (length xs)
unfolding insert_sorted
length-insert_sorted x [] = refl
length-insert_sorted x (y ∷ ys) = ground (arith, length-insert_sorted x ys)

get_or-From : (x i : ℕ) (xs : List ℕ) → From x xs → i < length xs → x ≤ get_or xs i 0
get_or-From x i [] f h = absurd (omega arith)
get_or-From x zero (y ∷ ys) f h = f.0
get_or-From x (suc i) (y ∷ ys) f h = get_or-From x i ys f.1 (omega arith)

get_or-UpTo : (x i : ℕ) (xs : List ℕ) → UpTo x xs → i < length xs → get_or xs i 0 ≤ x
get_or-UpTo x i [] f h = absurd (omega arith)
get_or-UpTo x zero (y ∷ ys) f h = f.0
get_or-UpTo x (suc i) (y ∷ ys) f h = get_or-UpTo x i ys f.1 (omega arith)

get_or-Sorted :
    (i j : ℕ) (xs : List ℕ) → Sorted xs → i ≤ j → j < length xs → get_or xs i 0 ≤ get_or xs j 0
get_or-Sorted i j [] s h l = absurd (omega arith)
get_or-Sorted zero zero (y ∷ ys) s h l = omega arith
get_or-Sorted zero (suc j) (y ∷ ys) s h l = get_or-From y j ys s.0 (omega arith)
get_or-Sorted (suc i) zero (y ∷ ys) s h l = absurd (omega arith)
get_or-Sorted (suc i) (suc j) (y ∷ ys) s h l = get_or-Sorted i j ys s.1 (omega arith) (omega arith)

median-bounds :
    (m : ℕ) (xs : List ℕ)
    → Sorted xs
    → UpTo m xs
    → 0 < length xs
    → (get_or xs 0 0 ≤ median xs) × (median xs ≤ m)
unfolding median
median-bounds m xs s f h =
    let mid = length xs / 2 in
    let inside : mid < length xs = omega arith in
    let first : get_or xs 0 0 ≤ get_or xs (mid - 1) 0 =
      get_or-Sorted 0 (mid - 1) xs s (omega arith) (omega arith) in
    let next : get_or xs (mid - 1) 0 ≤ get_or xs mid 0 =
      get_or-Sorted (mid - 1) mid xs s (omega arith) inside in
    let last : get_or xs mid 0 ≤ m = get_or-UpTo m mid xs f inside in
    (ground (arith, first, next, last), ground (arith, first, next, last))

-- The slowest of the measured proxies bounds every latency.
abbrev pub NoSlower : ℕ → List Proxy → Type 0
NoSlower m [] = Unit
NoSlower m (p ∷ ps) = (to_nat p.latency_ms ≤ m) × NoSlower m ps

latencies-UpTo : (m : ℕ) (ps : List Proxy) → NoSlower m ps → UpTo m (latencies ps)
unfolding latencies
latencies-UpTo m [] h = tt
latencies-UpTo m (p ∷ ps) h = elim (Bool-cases (not p.validated || is_le_zero p.latency_ms)) [
  | inl skipped ↦ rw skipped (latencies-UpTo m ps h.1)
  | inr kept ↦ rw kept (h.0, latencies-UpTo m ps h.1)
]

measure-bounds :
    (m : ℕ) (xs : List ℕ) (h : PoolHealth)
    → UpTo m xs
    → h.fastest_latency ≡ 0
    → h.median_latency ≡ 0
    → ((measure xs h).fastest_latency ≤ (measure xs h).median_latency)
      × ((measure xs h).median_latency ≤ m)
unfolding measure sort_by
measure-bounds m [] h f e1 e2 = (omega arith, omega arith)
measure-bounds m (x ∷ xs) h f e1 e2 =
    median-bounds m (sort_by ltb (x ∷ xs)) (Sorted-sort_by (x ∷ xs)) (UpTo-sort_by m (x ∷ xs) f)
      (omega (arith, length-insert_sorted x (sort_by ltb xs)))

-- The proxies that have passed validation.
unfoldable pub count_validated : List Proxy → ℕ
count_validated [] = 0
count_validated (p ∷ ps) = (if p.validated then 1 else 0) + count_validated ps

-- What the counting keeps.
record Counted (n : ℕ) (h : PoolHealth) : Type 0 where
  total : h.available ≡ n
  bands : h.fast + h.usable + h.slow + h.unknown_latency ≡ n
  no_fastest : h.fastest_latency ≡ 0
  no_median : h.median_latency ≡ 0

count_band-Counted :
    (n : ℕ) (latency : ℤ) (h : PoolHealth) → Counted n h → Counted (suc n) (count_band latency h)
unfolding count_band
count_band-Counted n latency h c = record {
  total = ground (arith, c.total);
  bands = ground (arith, c.bands);
  no_fastest = ground (arith, c.no_fastest);
  no_median = ground (arith, c.no_median);
}

count_all-Counted :
    (n k : ℕ) (ps : List Proxy) (h : PoolHealth)
    → k ≡ n + count_validated ps
    → Counted n h
    → Counted k (count_all ps h)
unfolding count_all count_validated
count_all-Counted n k [] h e c = let same : k ≡ n = omega arith in rw same c
count_all-Counted n k (p ∷ ps) h e c = elim (Bool-cases p.validated) [
  | inl passed ↦ rw passed (
      count_all-Counted (suc n) k ps (count_band p.latency_ms h) (ground arith)
        (count_band-Counted n p.latency_ms h c))
  | inr failed ↦ rw failed (count_all-Counted n k ps h (ground arith) c)
]

no_health-Counted : (pending : ℕ) → Counted 0 (record no_health { raw_pending = pending })
no_health-Counted pending = record {
  total = refl;
  bands = refl;
  no_fastest = refl;
  no_median = refl;
}

module _ (ps : List Proxy) (pending : ℕ) where
  -- The summary before its latencies are measured.
  abbrev counted : PoolHealth
  counted = count_all ps (record no_health { raw_pending = pending })

  counted-Counted : Counted (count_validated ps) counted
  counted-Counted =
      count_all-Counted 0 (count_validated ps) ps (record no_health { raw_pending = pending })
        (omega arith) (no_health-Counted pending)

  -- What stands in the summary and in the numbers that its status is read from.
  record Numbers (m : ℕ) (h : PoolHealth) : Type 0 where
    total : h.available ≡ count_validated ps
    bands : h.fast + h.usable + h.slow + h.unknown_latency ≡ h.available
    low : h.fastest_latency ≤ h.median_latency
    high : h.median_latency ≤ m

  measure-available : (xs : List ℕ) (h : PoolHealth) → (measure xs h).available ≡ h.available
  unfolding measure
  measure-available [] h = refl
  measure-available (x ∷ xs) h = refl

  measure-bands :
      (xs : List ℕ) (h : PoolHealth)
      → (measure xs h).fast
          + (measure xs h).usable
          + (measure xs h).slow
          + (measure xs h).unknown_latency
        ≡ h.fast + h.usable + h.slow + h.unknown_latency
  unfolding measure
  measure-bands [] h = refl
  measure-bands (x ∷ xs) h = refl

  measured-Numbers : (m : ℕ) → NoSlower m ps → Numbers m (measure (latencies ps) counted)
  measured-Numbers m slowest =
      let c = counted-Counted in
      let b =
        measure-bounds m (latencies ps) counted (latencies-UpTo m ps slowest) c.no_fastest
          c.no_median in
      record {
        total = measure-available (latencies ps) counted ∙ c.total;
        bands =
            measure-bands (latencies ps) counted
            ∙ c.bands
            ∙ sym (measure-available (latencies ps) counted ∙ c.total);
        low = b.0;
        high = b.1;
      }

  -- The summary counts exactly the validated proxies; fast, usable, slow and unmeasured ones add up to
  -- that number; and the fastest latency is at most the median, which is at most every bound `m` on
  -- the latencies of the pool.
  pub summary_bands :
      (m : ℕ)
      → NoSlower m ps
      → ((summary ps pending).available ≡ count_validated ps)
        × ((summary ps pending).fast
              + (summary ps pending).usable
              + (summary ps pending).slow
              + (summary ps pending).unknown_latency
            ≡ count_validated ps)
        × ((summary ps pending).fastest_latency ≤ (summary ps pending).median_latency)
        × ((summary ps pending).median_latency ≤ m)
  unfolding summary
  summary_bands m slowest =
      let n = measured-Numbers m slowest in (n.total, n.bands ∙ n.total, n.low, n.high)
