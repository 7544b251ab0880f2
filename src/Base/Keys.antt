-- ===== src/Base/Keys.antt =====
-- The keys of a dictionary as a list: `range` over a map, and deletion of a list of keys.
use Prim.Native.Nat.{ℕ, zero, suc, ◌+◌, ◌-◌, ◌≤◌}
use mathlib.Core.Path.{◌≡◌, refl, ◌∙◌, ap}
use mathlib.Core.Logic.{inl, inr}
use mathlib.Core.Bool.{Bool, true, false, ◌||◌, ◌&&◌, not}
use mathlib.Core.List.{List, [], ◌∷◌}
use mathlib.Core.Option.{none, some}
use native.Mathlib.Omega.{arith}
use unified_proxy_pool.Base.Tests.{if◌then◌else◌, Bool-cases, Option-cases}
use unified_proxy_pool.Base.Lists.{length, take}
use unified_proxy_pool.Base.Bytes.{Text, text_eq, text_eq_iff, text_eq_refl}
use unified_proxy_pool.Base.Maps.{
  Dict, lookup, insert, erase, lookup-insert, lookup-erase, length-erase-lt, length-erase-le,
}
use unified_proxy_pool.Base.Entries.{Distinct, Distinct-erase}
use unified_proxy_pool.Base.Sort.{insert_sorted, sort_by, length-sort_by}

unfoldable pub member_text : Text → List Text → Bool
member_text t [] = false
member_text t (s ∷ ss) = text_eq s t || member_text t ss

module _ {ℓ} {V : Type ℓ} where
  -- `_, ok := m[k]`
  unfoldable pub has : Text → Dict V → Bool
  has k m = elim (lookup k m) [ none ↦ false | some v ↦ true ]

  unfoldable pub keys : Dict V → List Text
  keys [] = []
  keys ((k, v) ∷ m) = k ∷ keys m

  unfoldable pub erase_all : List Text → Dict V → Dict V
  erase_all [] m = m
  erase_all (k ∷ ks) m = erase_all ks (erase k m)

  pub has-lookup : (k : Text) (v : V) (m : Dict V) → lookup k m ≡ some v → has k m ≡ true
  unfolding has
  has-lookup k v m h = ground (arith, h)

  pub has-insert :
      (k j : Text) (v : V) (m : Dict V) → has j (insert k v m) ≡ (text_eq k j || has j m)
  unfolding has
  has-insert k j v m = ground (arith, lookup-insert k j v m)

  pub has-erase : (k j : Text) (m : Dict V) → has j (erase k m) ≡ (not (text_eq k j) && has j m)
  unfolding has
  has-erase k j m = ground (arith, lookup-erase k j m)

  pub lookup-erase_all :
      (ks : List Text) (j : Text) (m : Dict V)
      → lookup j (erase_all ks m) ≡ (if member_text j ks then none else lookup j m)
  unfolding erase_all member_text
  lookup-erase_all [] j m = refl
  lookup-erase_all (k ∷ ks) j m =
      ground (arith, lookup-erase_all ks j (erase k m), lookup-erase k j m)

  pub has-erase_all :
      (ks : List Text) (j : Text) (m : Dict V)
      → has j (erase_all ks m) ≡ (not (member_text j ks) && has j m)
  unfolding has
  has-erase_all ks j m = ground (arith, lookup-erase_all ks j m)

  pub member_text-keys : (k : Text) (m : Dict V) → member_text k (keys m) ≡ has k m
  unfolding member_text keys has lookup
  member_text-keys k [] = refl
  member_text-keys k ((j, v) ∷ m) = ground (arith, member_text-keys k m)

-- No text stands twice.
abbrev pub Unlike : List Text → Type 0
Unlike [] = Unit
Unlike (t ∷ ts) = (member_text t ts ≡ false) × Unlike ts

-- All texts are keys of the map.
abbrev pub Known {ℓ} : {V : Type ℓ} → List Text → Dict V → Type 0
Known [] m = Unit
Known (t ∷ ts) m = (has t m ≡ true) × Known ts m

pub member_text-take :
    (n : ℕ) (t : Text) (ts : List Text) → member_text t (take n ts) ≡ true → member_text t ts ≡ true
unfolding member_text
member_text-take zero t ts h = absurd (ground arith)
member_text-take (suc n) t [] h = absurd (ground arith)
member_text-take (suc n) t (s ∷ ss) h = ground (arith, member_text-take n t ss)

Unlike-take : (n : ℕ) (ts : List Text) → Unlike ts → Unlike (take n ts)
Unlike-take zero ts u = tt
Unlike-take (suc n) [] u = tt
Unlike-take (suc n) (t ∷ ts) u =
    (ground (arith, member_text-take n t ts, u.0), Unlike-take n ts u.1)

module _ (less : Text → Text → Bool) where
  member_text-insert_sorted :
      (t s : Text) (ts : List Text)
      → member_text t (insert_sorted less s ts) ≡ (text_eq s t || member_text t ts)
  unfolding member_text insert_sorted
  member_text-insert_sorted t s [] = refl
  member_text-insert_sorted t s (r ∷ rs) = ground (arith, member_text-insert_sorted t s rs)

  pub member_text-sort_by :
      (t : Text) (ts : List Text) → member_text t (sort_by less ts) ≡ member_text t ts
  unfolding member_text sort_by
  member_text-sort_by t [] = refl
  member_text-sort_by t (s ∷ ss) =
      ground (arith, member_text-insert_sorted t s (sort_by less ss), member_text-sort_by t ss)

  Unlike-insert_sorted :
      (s : Text) (ts : List Text)
      → member_text s ts ≡ false
      → Unlike ts
      → Unlike (insert_sorted less s ts)
  unfolding member_text insert_sorted
  Unlike-insert_sorted s [] h u = (refl, tt)
  Unlike-insert_sorted s (r ∷ rs) h u = elim (Bool-cases (less r s)) [
    | inl e ↦ rw e (
      ground (arith, member_text-insert_sorted r s rs, h, u.0, text_eq_iff r s, text_eq_iff s r),
      Unlike-insert_sorted s rs (ground (arith, h)) u.1,
    )
    | inr e ↦ rw e (h, u)
  ]

  Unlike-sort_by : (ts : List Text) → Unlike ts → Unlike (sort_by less ts)
  unfolding sort_by
  Unlike-sort_by [] u = tt
  Unlike-sort_by (t ∷ ts) u =
      Unlike-insert_sorted t (sort_by less ts) (member_text-sort_by t ts ∙ u.0)
        (Unlike-sort_by ts u.1)

module _ {ℓ} {V : Type ℓ} where
  pub length-keys : (m : Dict V) → length (keys m) ≡ length m
  unfolding keys
  length-keys [] = refl
  length-keys ((k, v) ∷ m) = ap suc (length-keys m)

  pub Unlike-keys : (m : Dict V) → Distinct m → Unlike (keys m)
  unfolding keys has
  Unlike-keys [] d = tt
  Unlike-keys ((k, v) ∷ m) d = (member_text-keys k m ∙ ground (arith, d.0), Unlike-keys m d.1)

  Known-of :
      (ts : List Text) (m : Dict V)
      → ((t : Text) → member_text t ts ≡ true → has t m ≡ true)
      → Known ts m
  unfolding member_text
  Known-of [] m h = tt
  Known-of (t ∷ ts) m h =
      (h t (ground (arith, text_eq_refl t)), Known-of ts m (λ s e. h s (ground (arith, e))))

  Known-erase :
      (k : Text) (ts : List Text) (m : Dict V)
      → member_text k ts ≡ false
      → Known ts m
      → Known ts (erase k m)
  unfolding member_text
  Known-erase k [] m h q = tt
  Known-erase k (t ∷ ts) m h q = (
    ground (arith, has-erase k t m, h, q.0, text_eq_iff k t, text_eq_iff t k),
    Known-erase k ts m (ground (arith, h)) q.1,
  )

  length-erase_all :
      (ts : List Text) (m : Dict V)
      → Unlike ts
      → Known ts m
      → length (erase_all ts m) + length ts ≤ length m
  unfolding erase_all has
  length-erase_all [] m u q = omega arith
  length-erase_all (t ∷ ts) m u q = elim (Option-cases (lookup t m)) [
    | inl missing ↦ absurd (ground (arith, missing, q.0))
    | inr (v, is) ↦ omega (
      arith,
      length-erase_all ts (erase t m) u.1 (Known-erase t ts m u.0 q.1),
      length-erase-lt t v m is,
    )
  ]

  -- What is left of a map with distinct keys when its first keys in some order are deleted.
  pub length-erase_first :
      (less : Text → Text → Bool) (bound : ℕ) (m : Dict V)
      → Distinct m
      → length (erase_all (take (length m - bound) (sort_by less (keys m))) m) ≤ bound
  length-erase_first less bound m d =
      let ks = sort_by less (keys m) in
      let n = length m - bound in
      omega (
        arith,
        length-erase_all (take n ks) m
            (Unlike-take n ks (Unlike-sort_by less (keys m) (Unlike-keys m d)))
            (Known-of (take n ks) m (λ t e. ground (
              arith,
              member_text-take n t ks,
              e,
              member_text-sort_by less t (keys m),
              member_text-keys t m,
            ))),
        length_take n ks,
        length-sort_by less (keys m),
        length-keys m,
      )
    where
      length_take : (n : ℕ) (ts : List Text) → n ≤ length ts → length (take n ts) ≡ n
      length_take zero ts h = refl
      length_take (suc n) [] h = absurd (omega arith)
      length_take (suc n) (t ∷ ts) h = ap suc (length_take n ts (omega arith))

  pub Distinct-erase_all : (ts : List Text) (m : Dict V) → Distinct m → Distinct (erase_all ts m)
  unfolding erase_all
  Distinct-erase_all [] m d = d
  Distinct-erase_all (t ∷ ts) m d = Distinct-erase_all ts (erase t m) (Distinct-erase t m d)

  pub length-erase_all-le : (ts : List Text) (m : Dict V) → length (erase_all ts m) ≤ length m
  unfolding erase_all
  length-erase_all-le [] m = omega arith
  length-erase_all-le (t ∷ ts) m =
      omega (arith, length-erase_all-le ts (erase t m), length-erase-le t m)
