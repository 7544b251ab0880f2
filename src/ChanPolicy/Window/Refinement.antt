-- ===== src/ChanPolicy/Window/Refinement.antt =====
-- The ring of internal/chanpolicy/window.go beside the history it stands for.
use unified_proxy_pool.Base.{
  ℕ, zero, suc, ◌+◌, ◌≤◌, ◌<◌, ◌≡◌, refl, ◌∙◌, Bool, ◌&&◌, List, [], ◌∷◌, arith, ◌==◌, ◌%◌, inl,
  inr, if◌then◌else◌, get_or, length, length-set, Bool-cases, Time, replicate,
}
use unified_proxy_pool.ChanPolicy.Window.{
  Bucket, fresh, slot, bump, in_window, bucket_index, no_counters, record_outcome, sum, sum_buckets,
}
use unified_proxy_pool.ChanPolicy.Window.History.{
  Seen, tally, replay, InOrder, window_sums, ok_weight, fail_weight, timeout_weight,
}
use unified_proxy_pool.ChanPolicy.Window.Slots.{
  SlotInv, SlotInv-own, SlotInv-other, SlotInv-sum, get_or-set_self, get_or-set_ne, in_slot,
  index_of,
}

-- The buckets of the window, added up by one field.
total : (Bucket → ℕ) → ℕ → List Bucket → ℕ
total p cur [] = 0
total p cur (b ∷ bs) = (if in_window cur b.idx then p b else 0) + total p cur bs

sum_buckets-total :
    (cur : ℕ) (bs : List Bucket)
    → ((sum_buckets cur bs).ok ≡ total (λ b. b.ok) cur bs)
      × ((sum_buckets cur bs).fail ≡ total (λ b. b.fail) cur bs)
      × ((sum_buckets cur bs).timeout ≡ total (λ b. b.timeout) cur bs)
unfolding sum_buckets total
sum_buckets-total cur [] = (refl, refl, refl)
sum_buckets-total cur (b ∷ bs) = ground (arith, sum_buckets-total cur bs)

total_six :
    (p : Bucket → ℕ) (cur : ℕ) (bs : List Bucket)
    → length bs ≡ 6
    → total p cur bs
      ≡ (if in_window cur (get_or bs 0 (fresh 0)).idx then p (get_or bs 0 (fresh 0)) else 0)
        + ((if in_window cur (get_or bs 1 (fresh 0)).idx then p (get_or bs 1 (fresh 0)) else 0)
            + ((if in_window cur (get_or bs 2 (fresh 0)).idx then p (get_or bs 2 (fresh 0)) else 0)
                + ((if in_window cur (get_or bs 3 (fresh 0)).idx
                      then p (get_or bs 3 (fresh 0))
                      else 0)
                    + ((if in_window cur (get_or bs 4 (fresh 0)).idx
                          then p (get_or bs 4 (fresh 0))
                          else 0)
                        + (if in_window cur (get_or bs 5 (fresh 0)).idx
                            then p (get_or bs 5 (fresh 0))
                            else 0)))))
unfolding total
total_six p cur (a ∷ b ∷ c ∷ d ∷ e ∷ f ∷ []) h = omega arith
total_six p cur [] h = absurd (omega arith)
total_six p cur (a ∷ []) h = absurd (omega arith)
total_six p cur (a ∷ b ∷ []) h = absurd (omega arith)
total_six p cur (a ∷ b ∷ c ∷ []) h = absurd (omega arith)
total_six p cur (a ∷ b ∷ c ∷ d ∷ []) h = absurd (omega arith)
total_six p cur (a ∷ b ∷ c ∷ d ∷ e ∷ []) h = absurd (omega arith)
total_six p cur (a ∷ b ∷ c ∷ d ∷ e ∷ f ∷ g ∷ r) h = absurd (omega arith)

-- Every outcome lies in one of the six slots.
tally_six :
    (sec : ℕ) (w : Seen → ℕ) (f : Seen → Bool) (h : List Seen)
    → tally w f h
      ≡ tally w (λ e. in_slot sec 0 e && f e) h
        + (tally w (λ e. in_slot sec 1 e && f e) h
            + (tally w (λ e. in_slot sec 2 e && f e) h
                + (tally w (λ e. in_slot sec 3 e && f e) h
                    + (tally w (λ e. in_slot sec 4 e && f e) h
                        + tally w (λ e. in_slot sec 5 e && f e) h))))
unfolding tally
tally_six sec w f [] = refl
tally_six sec w f (e ∷ h) = ground (arith, tally_six sec w f h)

bump-ok : (b : Bucket) (e : Seen) → (bump b e.ok e.timed_out).ok ≡ b.ok + ok_weight e
unfolding bump
bump-ok b e = ground arith

bump-fail : (b : Bucket) (e : Seen) → (bump b e.ok e.timed_out).fail ≡ b.fail + fail_weight e
unfolding bump
bump-fail b e = ground arith

bump-timeout :
    (b : Bucket) (e : Seen) → (bump b e.ok e.timed_out).timeout ≡ b.timeout + timeout_weight e
unfolding bump
bump-timeout b e = ground arith

module _ (sec stale : ℕ) where
  length-replay : (h : List Seen) → length (replay sec stale h).buckets ≡ 6
  unfolding replay no_counters record_outcome
  length-replay [] = refl
  length-replay (e ∷ h) = length-set (replay sec stale h).buckets _ _ ∙ length-replay h

  module _ (p : Bucket → ℕ) (w : Seen → ℕ) (p-fresh : (i : ℕ) → p (fresh i) ≡ 0)
      (p-bump : (b : Bucket) (e : Seen) → p (bump b e.ok e.timed_out) ≡ p b + w e) where
    SlotInv-start : (top j : ℕ) → SlotInv sec p w top j (fresh 0) []
    unfolding tally
    SlotInv-start top j = record {
      bound = omega arith;
      residue = inr refl;
      count = p-fresh 0;
      newest = tt;
    }

    SlotInv-mono :
        (top up j : ℕ) (b : Bucket) (h : List Seen)
        → top ≤ up
        → SlotInv sec p w top j b h
        → SlotInv sec p w up j b h
    SlotInv-mono top up j b h le v = record {
      bound = omega (arith, v.bound);
      residue = v.residue;
      count = v.count;
      newest = v.newest;
    }

    fresh_at : (j : ℕ) → get_or (replicate 6 (fresh 0)) j (fresh 0) ≡ fresh 0
    fresh_at zero = refl
    fresh_at (suc zero) = refl
    fresh_at (suc (suc zero)) = refl
    fresh_at (suc (suc (suc zero))) = refl
    fresh_at (suc (suc (suc (suc zero)))) = refl
    fresh_at (suc (suc (suc (suc (suc zero))))) = refl
    fresh_at (suc (suc (suc (suc (suc (suc j)))))) = refl

    replay-SlotInv :
        (top j : ℕ) (h : List Seen)
        → j < 6
        → InOrder sec top h
        → SlotInv sec p w top j (get_or (replay sec stale h).buckets j (fresh 0)) h
    unfolding replay no_counters record_outcome
    replay-SlotInv top j [] lt o = rw (fresh_at j) (SlotInv-start top j)
    replay-SlotInv top j (e ∷ h) lt o =
        let i = index_of sec e in
        let bs = (replay sec stale h).buckets in
        let b = bump (slot bs i) e.ok e.timed_out in
        let ih = replay-SlotInv i j h lt o.1 in
        SlotInv-mono i top j _ (e ∷ h) o.0 (elim (Bool-cases (i % 6 == j)) [
          | inl own ↦
              let r : i % 6 ≡ j = ground arith in
              rw (← r) (
                rw (get_or-set_self bs (i % 6) b (fresh 0) (omega (arith, length-replay h))) (
                  SlotInv-own sec p w p-fresh p-bump i (i % 6) bs e h (omega arith) refl
                    (rw (← r) at ih)))
          | inr other ↦
              rw (get_or-set_ne bs (i % 6) j b (fresh 0) (ground arith))
                (SlotInv-other sec p w p-fresh p-bump i j _ e h (omega arith) (ground arith) ih)
        ])

    total-replay :
        (cur : ℕ) (h : List Seen)
        → InOrder sec cur h
        → total p cur (replay sec stale h).buckets ≡ tally w (λ e. in_window cur (index_of sec e)) h
    total-replay cur h o = omega (
      arith,
      total_six p cur (replay sec stale h).buckets (length-replay h),
      tally_six sec w (λ e. in_window cur (index_of sec e)) h,
      at_slot 0 (omega arith),
      at_slot 1 (omega arith),
      at_slot 2 (omega arith),
      at_slot 3 (omega arith),
      at_slot 4 (omega arith),
      at_slot 5 (omega arith),
    )
      where
        at_slot :
            (j : ℕ)
            → j < 6
            → (if in_window cur (get_or (replay sec stale h).buckets j (fresh 0)).idx
                then p (get_or (replay sec stale h).buckets j (fresh 0))
                else 0)
              ≡ tally w (λ e. in_slot sec j e && in_window cur (index_of sec e)) h
        at_slot j lt = SlotInv-sum sec p w cur j _ h (replay-SlotInv cur j h lt o)

  -- For outcomes in time order, `sum` at a time that is not before the last of them returns the
  -- numbers of successes, failures and timeouts among the outcomes of the six slices that end at
  -- that time, counted one by one.
  pub sum-replay :
      (now : Time) (h : List Seen)
      → InOrder sec (bucket_index now sec) h
      → sum (replay sec stale h) now sec ≡ window_sums sec (bucket_index now sec) h
  unfolding sum window_sums
  sum-replay now h o =
      let cur = bucket_index now sec in
      let q = sum_buckets-total cur (replay sec stale h).buckets in
      let ok = q.0 ∙ total-replay (λ b. b.ok) ok_weight (λ i. refl) bump-ok cur h o in
      let fail = q.1 ∙ total-replay (λ b. b.fail) fail_weight (λ i. refl) bump-fail cur h o in
      let timeout =
        q.2 ∙ total-replay (λ b. b.timeout) timeout_weight (λ i. refl) bump-timeout cur h o in
      λ i. record { ok = ok i; fail = fail i; timeout = timeout i }
