-- ===== src/ChanPolicy/Window/Slots.antt =====
-- The slots of the ring of internal/chanpolicy/window.go after a history.
use unified_proxy_pool.Base.{
  ℕ, ◌+◌, ◌≤◌, ◌<◌, ◌≡◌, ◌≢◌, refl, sym, ◌∙◌, subst, Bool, true, false, ◌&&◌, List, [], ◌∷◌, arith,
  ◌==◌, ◌%◌, ◌⊎◌, inl, inr, if◌then◌else◌, get_or, set, length, Bool-cases,
}
use unified_proxy_pool.ChanPolicy.Window.{
  Bucket, num_buckets, fresh, slot, bump, in_window, bucket_index,
}
use unified_proxy_pool.ChanPolicy.Window.History.{Seen, tally}

pub get_or-set_self {ℓ} :
    {A : Type ℓ} (xs : List A) (i : ℕ) (v d : A) → i < length xs → get_or (set xs i v) i d ≡ v
get_or-set_self [] i v d h = elim h [ ]
get_or-set_self (x ∷ xs) ℕ.zero v d h = refl
get_or-set_self (x ∷ xs) (ℕ.suc i) v d h = get_or-set_self xs i v d (omega arith)

pub get_or-set_ne {ℓ} :
    {A : Type ℓ} (xs : List A) (i j : ℕ) (v d : A) → i ≢ j → get_or (set xs i v) j d ≡ get_or xs j d
get_or-set_ne [] i j v d h = refl
get_or-set_ne (x ∷ xs) ℕ.zero ℕ.zero v d h = absurd (h refl)
get_or-set_ne (x ∷ xs) ℕ.zero (ℕ.suc j) v d h = refl
get_or-set_ne (x ∷ xs) (ℕ.suc i) ℕ.zero v d h = refl
get_or-set_ne (x ∷ xs) (ℕ.suc i) (ℕ.suc j) v d h = get_or-set_ne xs i j v d (omega arith)

module _ (sec : ℕ) where
  abbrev pub index_of : Seen → ℕ
  index_of e = bucket_index e.at sec

  abbrev pub in_slot : ℕ → Seen → Bool
  in_slot j e = index_of e % num_buckets == j

  -- No outcome of slot j is newer than slice i.
  abbrev pub UpTo : ℕ → ℕ → List Seen → Type 0
  UpTo j i [] = Unit {0}
  UpTo j i (e ∷ h) = (index_of e % 6 ≡ j → index_of e ≤ i) × UpTo j i h

  UpTo-mono : (j : ℕ) {i k : ℕ} (h : List Seen) → i ≤ k → UpTo j i h → UpTo j k h
  UpTo-mono j [] le u = tt
  UpTo-mono j {i} {k} (e ∷ h) le u = ((λ r. let q = u.0 r in omega arith), UpTo-mono j h le u.1)

  module _ (w : Seen → ℕ) where
    -- A slice that is newer than all of the slot holds nothing.
    tally_newer :
        (j i k : ℕ) (h : List Seen)
        → i < k
        → UpTo j i h
        → tally w (λ e. in_slot j e && index_of e == k) h ≡ 0
    unfolding tally
    tally_newer j i k [] lt u = refl
    tally_newer j i k (e ∷ h) lt u = ground (arith, u.0, tally_newer j i k h lt u.1)

    -- If the slot's slice lies in the window, the slot's outcomes of the window are those of the
    -- slice.
    tally_inside :
        (cur j i : ℕ) (h : List Seen)
        → UpTo j i h
        → (i % 6 ≡ j) ⊎ (i ≡ 0)
        → in_window cur i ≡ true
        → tally w (λ e. in_slot j e && in_window cur (index_of e)) h
          ≡ tally w (λ e. in_slot j e && index_of e == i) h
    unfolding tally in_window
    tally_inside cur j i [] u r o = refl
    tally_inside cur j i (e ∷ h) u r o = ground (arith, u.0, tally_inside cur j i h u.1 r o)

    tally_outside :
        (cur j i : ℕ) (h : List Seen)
        → UpTo j i h
        → i ≤ cur
        → in_window cur i ≡ false
        → tally w (λ e. in_slot j e && in_window cur (index_of e)) h ≡ 0
    unfolding tally in_window
    tally_outside cur j i [] u le o = refl
    tally_outside cur j i (e ∷ h) u le o = ground (arith, u.0, tally_outside cur j i h u.1 le o)

    tally_own :
        (j k n : ℕ) (e : Seen) (h : List Seen)
        → k ≡ index_of e
        → index_of e % 6 ≡ j
        → n ≡ tally w (λ a. in_slot j a && index_of a == index_of e) h
        → n + w e ≡ tally w (λ a. in_slot j a && index_of a == k) (e ∷ h)
    unfolding tally
    tally_own j k n e h same r c =
        subst (λ x. n + w e ≡ tally w (λ a. in_slot j a && index_of a == x) (e ∷ h)) (sym same)
          (ground (arith, c))

  -- p is the field of a bucket in which w is counted.
  module _ (p : Bucket → ℕ) (w : Seen → ℕ) where
    pub record SlotInv (top j : ℕ) (b : Bucket) (h : List Seen) : Type 0 where
      pub bound : b.idx ≤ top
      pub residue : (b.idx % 6 ≡ j) ⊎ (b.idx ≡ 0)
      pub count : p b ≡ tally w (λ e. in_slot j e && index_of e == b.idx) h
      pub newest : UpTo j b.idx h

    pub SlotInv-sum :
        (cur j : ℕ) (b : Bucket) (h : List Seen)
        → SlotInv cur j b h
        → (if in_window cur b.idx then p b else 0)
          ≡ tally w (λ e. in_slot j e && in_window cur (index_of e)) h
    SlotInv-sum cur j b h v = elim (Bool-cases (in_window cur b.idx)) [
      | inl inside ↦
          rw inside (v.count ∙ sym (tally_inside w cur j b.idx h v.newest v.residue inside))
      | inr outside ↦ rw outside (sym (tally_outside w cur j b.idx h v.newest v.bound outside))
    ]

    module _ (p-fresh : (i : ℕ) → p (fresh i) ≡ 0)
        (p-bump : (b : Bucket) (e : Seen) → p (bump b e.ok e.timed_out) ≡ p b + w e) where
      -- An outcome in another slot.
      pub SlotInv-other :
          (top j : ℕ) (b : Bucket) (e : Seen) (h : List Seen)
          → top ≤ index_of e
          → index_of e % 6 ≢ j
          → SlotInv top j b h
          → SlotInv (index_of e) j b (e ∷ h)
      unfolding tally
      SlotInv-other top j b e h le ne v = record {
        bound = omega (arith, v.bound);
        residue = v.residue;
        count = ground (arith, v.count);
        newest = (λ r. absurd (ne r), v.newest);
      }

      idx-bump : (b : Bucket) (g t : Bool) → (bump b g t).idx ≡ b.idx
      unfolding bump
      idx-bump b g t = ground arith

      own_bucket :
          (j : ℕ) (b : Bucket) (e : Seen) (h : List Seen)
          → b.idx ≡ index_of e
          → index_of e % 6 ≡ j
          → p b ≡ tally w (λ a. in_slot j a && index_of a == index_of e) h
          → UpTo j (index_of e) h
          → SlotInv (index_of e) j (bump b e.ok e.timed_out) (e ∷ h)
      unfolding tally
      own_bucket j b e h same r c u =
          let i : (bump b e.ok e.timed_out).idx ≡ index_of e = idx-bump b e.ok e.timed_out ∙ same in
          record {
            bound = omega (arith, i);
            residue = inl (omega (arith, i));
            count = p-bump b e ∙ tally_own w j _ (p b) e h i r c;
            newest = ((λ _. omega (arith, i)), UpTo-mono j h (omega (arith, i)) u);
          }

      -- An outcome in the slot, which is reset first if its slice is over.
      pub SlotInv-own :
          (top j : ℕ) (bs : List Bucket) (e : Seen) (h : List Seen)
          → top ≤ index_of e
          → index_of e % 6 ≡ j
          → SlotInv top j (get_or bs j (fresh 0)) h
          → SlotInv (index_of e) j (bump (slot bs (index_of e)) e.ok e.timed_out) (e ∷ h)
      unfolding slot
      SlotInv-own top j bs e h le r v =
          let b = get_or bs j (fresh 0) in
          elim (Bool-cases (b.idx == index_of e)) [
            | inl same ↦
                let q : b.idx ≡ index_of e = ground arith in
                rw (r, same) (own_bucket j b e h q r (rw q at v.count) (rw q at v.newest))
            | inr old ↦
                let lt : b.idx < index_of e = ground (arith, v.bound) in
                rw (r, old)
                  (own_bucket j (fresh (index_of e)) e h refl r
                    (p-fresh (index_of e) ∙ sym (tally_newer w j b.idx (index_of e) h lt v.newest))
                    (UpTo-mono j h (omega (arith, lt)) v.newest))
          ]
