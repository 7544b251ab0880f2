-- ===== src/FreeProxies/Store/Queries/Scan.antt =====
-- internal/freproxies/store_validate.go: the batch of raw proxies that is checked next.
use Prim.Native.Nat.{min}
use unified_proxy_pool.Base.{
  ℕ, zero, suc, ◌+◌, ◌-◌, ◌≤◌, ◌≡◌, refl, ap, ◌∙◌, Bool, true, false, inl, inr, List, [], ◌∷◌, ◌++◌,
  leb, ◌==◌, if◌then◌else◌, length, take, length-take, length-append, insert_sorted, sort_by,
  length-sort_by, Time, is_empty, pos, arith, Bool-cases, tests, leb→le,
}
use unified_proxy_pool.FreeProxies.{Proxy}
use unified_proxy_pool.FreeProxies.Store.Queries.{
  count_unchecked, queues, select_validate_raw, created_before, checked_before,
}

-- The proxies with an address.
unfoldable pub count_addressed : List Proxy → ℕ
count_addressed [] = 0
count_addressed (p ∷ ps) = let n = count_addressed ps in if is_empty p.addr then n else n + 1

count_unchecked-le : (ps : List Proxy) → count_unchecked ps ≤ length ps
unfolding count_unchecked
count_unchecked-le [] = omega arith
count_unchecked-le (p ∷ ps) = ground (arith, count_unchecked-le ps)

count_unchecked-append :
    (ps qs : List Proxy) → count_unchecked (ps ++ qs) ≡ count_unchecked ps + count_unchecked qs
unfolding count_unchecked
count_unchecked-append [] qs = omega arith
count_unchecked-append (p ∷ ps) qs = ground (arith, count_unchecked-append ps qs)

count_unchecked-take-le :
    (n : ℕ) (ps : List Proxy) → count_unchecked (take n ps) ≤ count_unchecked ps
unfolding count_unchecked
count_unchecked-take-le zero ps = omega arith
count_unchecked-take-le (suc n) [] = omega arith
count_unchecked-take-le (suc n) (p ∷ ps) = ground (arith, count_unchecked-take-le n ps)

count_unchecked_all :
    (n : ℕ) (ps : List Proxy)
    → length ps ≤ count_unchecked ps
    → length (take n ps) ≤ count_unchecked (take n ps)
unfolding count_unchecked
count_unchecked_all zero ps h = omega arith
count_unchecked_all (suc n) [] h = omega arith
count_unchecked_all (suc n) (p ∷ ps) h =
    ground (arith, count_unchecked_all n ps, count_unchecked-le ps)

take-append :
    (n : ℕ) (ps qs : List Proxy) → take n (ps ++ qs) ≡ take n ps ++ take (n - length ps) qs
take-append zero ps qs = rw (no_less (length ps)) refl
  where
    no_less : (k : ℕ) → 0 - k ≡ 0
    no_less k = omega arith
take-append (suc n) [] qs = rw (less_none (suc n)) refl
  where
    less_none : (k : ℕ) → k - 0 ≡ k
    less_none k = omega arith
take-append (suc n) (p ∷ ps) qs =
    rw (less_suc n (length ps)) (ap {B = List Proxy} (λ r. p ∷ r) (take-append n ps qs))
  where
    less_suc : (k m : ℕ) → suc k - suc m ≡ k - m
    less_suc k m = omega arith

-- The first n of a list whose head part is unchecked and whose tail is checked.
unchecked_first :
    (n : ℕ) (ps qs : List Proxy)
    → length ps ≤ count_unchecked ps
    → count_unchecked qs ≡ 0
    → count_unchecked (take n (ps ++ qs)) ≡ min n (length ps)
unchecked_first n ps qs all none = omega (
  arith,
  ap count_unchecked (take-append n ps qs),
  count_unchecked-append (take n ps) (take (n - length ps) qs),
  count_unchecked_all n ps all,
  count_unchecked-le (take n ps),
  length-take n ps,
  count_unchecked-take-le (n - length ps) qs,
  none,
)

module _ (less : Proxy → Proxy → Bool) where
  count_unchecked-insert_sorted :
      (p : Proxy) (ps : List Proxy)
      → count_unchecked (insert_sorted less p ps) ≡ count_unchecked (p ∷ ps)
  unfolding count_unchecked insert_sorted
  count_unchecked-insert_sorted p [] = refl
  count_unchecked-insert_sorted p (q ∷ qs) = ground (arith, count_unchecked-insert_sorted p qs)

  count_unchecked-sort_by :
      (ps : List Proxy) → count_unchecked (sort_by less ps) ≡ count_unchecked ps
  unfolding count_unchecked sort_by
  count_unchecked-sort_by [] = refl
  count_unchecked-sort_by (p ∷ ps) =
      ground (arith, count_unchecked-insert_sorted p (sort_by less ps), count_unchecked-sort_by ps)

module _ (now : Time) (cooldown : ℕ) where
  queues_lem :
      (ps : List Proxy)
      → (length (queues now cooldown ps).0 ≡ count_unchecked ps)
        × (length (queues now cooldown ps).0 ≤ count_unchecked (queues now cooldown ps).0)
        × (count_unchecked (queues now cooldown ps).1 ≡ 0)
        × (count_unchecked (queues now cooldown ps).2 ≡ 0)
        × (length (queues now cooldown ps).0
              + length (queues now cooldown ps).1
              + length (queues now cooldown ps).2
            ≡ count_addressed ps)
  unfolding queues count_unchecked count_addressed
  queues_lem [] = (refl, omega arith, refl, refl, refl)
  queues_lem (p ∷ ps) = ground (arith, queues_lem ps)

abbrev batch : ℕ → List Proxy → List Proxy → List Proxy
batch limit out recent =
    if limit == 0
    then []
    else if leb limit (length out)
    then take limit out
    else out ++ take (limit - length out) recent

zero_min : (n m : ℕ) → n ≡ 0 → 0 ≡ min n m
zero_min n m h = omega (arith, h)

is_zero_eq : (n : ℕ) → (n == 0) ≡ true → n ≡ 0
is_zero_eq n h = ground arith

gt_of_leb : (n m : ℕ) → leb n m ≡ false → suc m ≤ n
gt_of_leb n m h = ground arith

batch_lem :
    (limit : ℕ) (never due recent : List Proxy)
    → length never ≤ count_unchecked never
    → count_unchecked due ≡ 0
    → count_unchecked recent ≡ 0
    → (length (batch limit (never ++ due) recent)
        ≡ min limit (length never + length due + length recent))
      × (count_unchecked (batch limit (never ++ due) recent) ≡ min limit (length never))
unfolding count_unchecked
batch_lem limit never due recent all no_due no_recent = elim (Bool-cases (limit == 0)) [
  | inl none ↦
      rw none (zero_min limit _ (is_zero_eq limit none), zero_min limit _ (is_zero_eq limit none))
  | inr some_wanted ↦ elim (Bool-cases (leb limit (length (never ++ due)))) [
    | inl full ↦
        rw (some_wanted, full)
          (
            omega (
              tests,
              length-take limit (never ++ due),
              length-append never due,
              leb→le limit _ full,
            ),
            unchecked_first limit never due all no_due,
          )
    | inr more ↦
        rw (some_wanted, more)
          (
            omega (
              arith,
              gt_of_leb limit _ more,
              length-append (never ++ due) (take (limit - length (never ++ due)) recent),
              length-take (limit - length (never ++ due)) recent,
              length-append never due,
            ),
            omega (
              arith,
              gt_of_leb limit _ more,
              length-append never due,
              count_unchecked-append (never ++ due) (take (limit - length (never ++ due)) recent),
              count_unchecked-append never due,
              count_unchecked-take-le (limit - length (never ++ due)) recent,
              count_unchecked-le never,
              all,
              no_due,
              no_recent,
            ),
          )
  ]
]

-- A batch for the check holds as many of the proxies with an address as the limit allows, and among
-- them as many as possible of those that were never checked.
select_validate_raw_lem :
    (items : List Proxy) (limit : ℕ) (now : Time) (cooldown : ℕ)
    → (length (select_validate_raw items (pos limit) now cooldown)
        ≡ min limit (count_addressed items))
      × (count_unchecked (select_validate_raw items (pos limit) now cooldown)
          ≡ min limit (count_unchecked items))
unfolding select_validate_raw
select_validate_raw_lem items limit now cooldown =
    let q = queues now cooldown items in
    let counts = queues_lem now cooldown items in
    let ln = length-sort_by created_before q.0 in
    let ld = length-sort_by checked_before q.1 in
    let lr = length-sort_by checked_before q.2 in
    let cn = count_unchecked-sort_by created_before q.0 in
    let both =
      batch_lem limit (sort_by created_before q.0) (sort_by checked_before q.1)
        (sort_by checked_before q.2) (omega (arith, ln, cn, counts.1))
        (count_unchecked-sort_by checked_before q.1 ∙ counts.2)
        (count_unchecked-sort_by checked_before q.2 ∙ counts.3) in
    (
      both.0 ∙ ap (min limit) (omega (arith, ln, ld, lr, counts.4)),
      both.1 ∙ ap (min limit) (ln ∙ counts.0),
    )
