-- ===== src/FreeProxies/Store/Queries/Pages.antt =====
-- internal/freproxies/store.go: what one call of List answers.
use Prim.Native.Nat.{min}
use mathlib.Core.List.{Perm}
use mathlib.Core.List.Perm
use mathlib.Core.List
use mathlib.Core.Nat
use unified_proxy_pool.Base.{ℕ, zero, suc, ◌-◌, ◌≤◌, ◌≡◌, List, [], ◌∷◌, ◌++◌, length}
use unified_proxy_pool.FreeProxies.{Proxy}

-- The library's length of a permutation, as a native number.
native : Nat.ℕ → ℕ
native Nat.ℕ.zero = 0
native (Nat.ℕ.suc n) = suc (native n)

-- No score of the list is above `most`.
abbrev pub AtMost : ℕ → List Proxy → Type 0
AtMost most [] = Unit
AtMost most (p ∷ ps) = (p.score ≤ most) × AtMost most ps

-- The highest score first.
abbrev pub Descending : List Proxy → Type 0
Descending [] = Unit
Descending (p ∷ ps) = AtMost p.score ps × Descending ps

-- A page as a part of a ranking of all matches by score: `skipped` stand before it, and it has as many
-- as fit, at most `size`.
pub record Page (skipped size : ℕ) (all page : List Proxy) : Type 0 where
  pub before : List Proxy
  pub after : List Proxy
  pub is_ranking : Perm (before ++ (page ++ after)) all
  pub is_descending : Descending (before ++ (page ++ after))
  pub length_before : length before ≡ min skipped (length all)
  pub length_page : length page ≡ min size (length all - skipped)
