-- ===== src/Base/Entries.antt =====
-- The entries of a dictionary: predicates on all of them, and keys that are distinct.
use mathlib.Core.Path.{◌≡◌, refl, ◌∙◌}
use mathlib.Core.Logic.{inl, inr}
use mathlib.Core.Bool.{false}
use mathlib.Core.List.{[], ◌∷◌}
use mathlib.Core.Option.{none, some}
use native.Mathlib.Omega.{arith}
use unified_proxy_pool.Base.Tests.{Bool-cases}
use unified_proxy_pool.Base.Bytes.{Text, text_eq, text_eq_iff, text_eq_refl}
use unified_proxy_pool.Base.Maps.{
  Dict, lookup, insert, erase, map_values, map_some, lookup-map_values,
}

module _ {ℓ κ} {V : Type ℓ} where
  -- Every entry has the property.
  abbrev pub Each : (Text → V → Type κ) → Dict V → Type κ
  Each P [] = Unit
  Each P ((k, v) ∷ m) = P k v × Each P m

  pub Each-insert :
      (P : Text → V → Type κ) (k : Text) (v : V) (m : Dict V)
      → P k v
      → Each P m
      → Each P (insert k v m)
  unfolding insert
  Each-insert P k v [] p h = (p, h)
  Each-insert P k v ((j, w) ∷ m) p h = elim (Bool-cases (text_eq j k)) [
    | inl e ↦ rw e (p, h.1)
    | inr e ↦ rw e (h.0, Each-insert P k v m p h.1)
  ]

  pub Each-erase : (P : Text → V → Type κ) (k : Text) (m : Dict V) → Each P m → Each P (erase k m)
  unfolding erase
  Each-erase P k [] h = h
  Each-erase P k ((j, w) ∷ m) h = elim (Bool-cases (text_eq j k)) [
    | inl e ↦ rw e (Each-erase P k m h.1)
    | inr e ↦ rw e (h.0, Each-erase P k m h.1)
  ]

  pub Each-lookup :
      (P : Text → V → Type κ) (k : Text) (v : V) (m : Dict V)
      → Each P m
      → lookup k m ≡ some v
      → P k v
  unfolding lookup
  Each-lookup P k v [] h e = absurd (ground arith)
  Each-lookup P k v ((j, w) ∷ m) h e = elim (Bool-cases (text_eq j k)) [
    | inl same ↦
        let q : j ≡ k = (text_eq_iff j k).0 same in
        let r : w ≡ v = ground arith in rw (← q, ← r) h.0
    | inr other ↦ Each-lookup P k v m h.1 (ground arith)
  ]

module _ {ℓ} {V : Type ℓ} where
  -- No key stands twice.
  abbrev pub Distinct : Dict V → Type ℓ
  Distinct [] = Unit
  Distinct ((k, v) ∷ m) = (lookup k m ≡ none) × Distinct m

  lookup-insert_ne :
      (k j : Text) (v : V) (m : Dict V) → text_eq k j ≡ false → lookup j (insert k v m) ≡ lookup j m
  unfolding lookup insert
  lookup-insert_ne k j v [] h = ground arith
  lookup-insert_ne k j v ((i, w) ∷ m) h =
      ground (arith, text_eq_iff k j, text_eq_iff i k, text_eq_iff i j, lookup-insert_ne k j v m)

  lookup-erase-none : (k j : Text) (m : Dict V) → lookup j m ≡ none → lookup j (erase k m) ≡ none
  unfolding lookup erase
  lookup-erase-none k j [] h = refl
  lookup-erase-none k j ((i, w) ∷ m) h = ground (arith, lookup-erase-none k j m)

  pub Distinct-insert : (k : Text) (v : V) (m : Dict V) → Distinct m → Distinct (insert k v m)
  unfolding insert lookup
  Distinct-insert k v [] d = (refl, d)
  Distinct-insert k v ((j, w) ∷ m) d = elim (Bool-cases (text_eq j k)) [
    | inl e ↦ let q : j ≡ k = (text_eq_iff j k).0 e in rw e (rw q at d)
    | inr e ↦ rw e (
      lookup-insert_ne k j v m (ground (arith, text_eq_iff k j, text_eq_refl j)) ∙ d.0,
      Distinct-insert k v m d.1,
    )
  ]

  pub Distinct-erase : (k : Text) (m : Dict V) → Distinct m → Distinct (erase k m)
  unfolding erase
  Distinct-erase k [] d = d
  Distinct-erase k ((j, w) ∷ m) d = elim (Bool-cases (text_eq j k)) [
    | inl e ↦ rw e (Distinct-erase k m d.1)
    | inr e ↦ rw e (lookup-erase-none k j m d.0, Distinct-erase k m d.1)
  ]

  -- An entry of the rest is an entry of the whole.
  pub lookup-cons :
      (k j : Text) (v w : V) (m : Dict V)
      → Distinct ((k, v) ∷ m)
      → lookup j m ≡ some w
      → lookup j ((k, v) ∷ m) ≡ some w
  unfolding lookup
  lookup-cons k j v w m d h = ground (arith, text_eq_iff k j)

  pub lookup_head : (k : Text) (v : V) (m : Dict V) → lookup k ((k, v) ∷ m) ≡ some v
  unfolding lookup
  lookup_head k v m = ground (arith, text_eq_refl k)

module _ {ℓ κ} {V : Type ℓ} (P : Text → V → Type κ) where
  -- With distinct keys, what holds of every entry that is found holds of every entry.
  pub Each-of_lookup :
      (m : Dict V) → Distinct m → ((k : Text) (v : V) → lookup k m ≡ some v → P k v) → Each P m
  Each-of_lookup [] d h = tt
  Each-of_lookup ((k, v) ∷ m) d h =
      (h k v (lookup_head k v m), Each-of_lookup m d.1 (λ j w e. h j w (lookup-cons k j v w m d e)))

module _ {ℓ} {V : Type ℓ} where
  pub Each-map_values {κ} :
      (P : Text → V → Type κ) (f : V → V) (m : Dict V)
      → ((k : Text) (v : V) → P k v → P k (f v))
      → Each P m
      → Each P (map_values f m)
  unfolding map_values
  Each-map_values P f [] keeps h = h
  Each-map_values P f ((k, v) ∷ m) keeps h = (keeps k v h.0, Each-map_values P f m keeps h.1)

  pub Distinct-map_values : (f : V → V) (m : Dict V) → Distinct m → Distinct (map_values f m)
  unfolding map_values map_some
  Distinct-map_values f [] d = d
  Distinct-map_values f ((k, v) ∷ m) d =
      (rw (lookup-map_values f k m, d.0, map_some) refl, Distinct-map_values f m d.1)
