-- ===== src/ChanPolicy/Registry/Views/BanSet.antt =====
-- BanSet, which selection reads once, beside Banned, which asks for one proxy
-- (internal/chanpolicy/registry.go).
use unified_proxy_pool.Base.{
  ◌≡◌, refl, Bool, true, false, not, inl, inr, [], ◌∷◌, arith, if◌then◌else◌, Text, text_eq_iff,
  is_empty, to_lower, Option, none, some, Time, Dict, lookup, Distinct, Each-lookup, Option-cases,
}
use unified_proxy_pool.ChanPolicy.Registry.State.{Registry, Entry, pair, banned}
use unified_proxy_pool.ChanPolicy.Registry.Views.{is_banned, ban_set, banned_until_of}
use unified_proxy_pool.ChanPolicy.Registry.Invariant.{Inv}

abbrev pub is_some {ℓ} : {A : Type ℓ} → Option A → Bool
is_some none = false
is_some (some a) = true

abbrev until_of : Time → Option Entry → Option Time
until_of t none = none
until_of t (some e) = if banned e t then some e.banned_until else none

lookup-banned_until_of :
    (t : Time) (a : Text) (m : Dict Entry)
    → Distinct m
    → lookup a (banned_until_of t m) ≡ until_of t (lookup a m)
unfolding lookup banned_until_of
lookup-banned_until_of t a [] d = refl
lookup-banned_until_of t a ((j, e) ∷ m) d =
    ground (arith, lookup-banned_until_of t a m d.1, text_eq_iff j a, text_eq_iff a j)

lookup-ban_set :
    (r : Registry) (c a : Text) (t : Time)
    → Inv r
    → lookup a (ban_set r c t) ≡ (
        if is_empty c then none else if not r.policy.enabled then none else until_of t (pair r c a))
unfolding ban_set pair lookup
lookup-ban_set r c a t v = elim (Option-cases (lookup c r.chans)) [
  | inl missing ↦ ground (arith, missing)
  | inr (ch, found) ↦ ground (
    arith,
    found,
    lookup-banned_until_of t a ch.entries (Each-lookup _ c ch r.chans v.entries found).distinct,
  )
]

-- For a proxy in lower case, Banned answers true exactly if BanSet has an expiry for it.
pub is_banned-ban_set :
    (r : Registry) (c a : Text) (t : Time)
    → Inv r
    → to_lower a ≡ a
    → is_empty a ≡ false
    → is_banned r c a t ≡ is_some (lookup a (ban_set r c t))
unfolding is_banned pair
is_banned-ban_set r c a t v low named = ground (arith, lookup-ban_set r c a t v, low, named)
