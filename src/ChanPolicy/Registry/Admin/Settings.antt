-- ===== src/ChanPolicy/Registry/Admin/Settings.antt =====
-- Registry.SetPolicy (internal/chanpolicy/registry.go) and the answers of Banned.
use unified_proxy_pool.Base.{
  ◌≡◌, refl, sym, ap, ◌∙◌, ◌||◌, inl, inr, arith, ◌==◌, Text, Option, none, some, Time, lookup,
  map_values, map_some, lookup-map_values, Option-cases, Bool-cases, to_lower, is_empty,
}
use unified_proxy_pool.ChanPolicy.Policy.{Policy, RawPolicy, normalize}
use unified_proxy_pool.ChanPolicy.Registry.State.{Registry, Entry, pair, banned}
use unified_proxy_pool.ChanPolicy.Registry.Views.{is_banned}
use unified_proxy_pool.ChanPolicy.Registry.Views.Banned.{
  banned_of, is_banned-answer, answer_cong, pair_same_channel,
}
use unified_proxy_pool.ChanPolicy.Registry.Admin.{
  set_policy, reset_counters, reset_channel_counters,
}

reset_counters-banned : (e : Entry) (t : Time) → banned (reset_counters e) t ≡ banned e t
unfolding reset_counters banned
reset_counters-banned e t = refl

pair-reset :
    (r : Registry) (p : Policy) (c a : Text)
    → pair (record r { policy = p; chans = map_values reset_channel_counters r.chans }) c a
      ≡ map_some reset_counters (pair r c a)
unfolding pair reset_channel_counters map_some
pair-reset r p c a = elim (Option-cases (lookup c r.chans)) [
  | inl missing ↦ ground (arith, missing, lookup-map_values reset_channel_counters c r.chans)
  | inr (ch, found) ↦ ground (
    arith,
    found,
    lookup-map_values reset_channel_counters c r.chans,
    lookup-map_values reset_counters a ch.entries,
  )
]

banned_of-reset :
    (x : Option Entry) (t : Time) → banned_of (map_some reset_counters x) t ≡ banned_of x t
unfolding map_some
banned_of-reset none t = refl
banned_of-reset (some e) t = reset_counters-banned e t

normalize-enabled : (raw : RawPolicy) → (normalize raw).enabled ≡ raw.enabled
unfolding normalize
normalize-enabled raw = refl

set_policy-banned_of :
    (raw : RawPolicy) (r : Registry) (c a : Text) (t : Time)
    → banned_of (pair (set_policy raw r) c a) t ≡ banned_of (pair r c a) t
unfolding set_policy
set_policy-banned_of raw r c a t =
    elim (Bool-cases (r.policy.window_sec == (normalize raw).window_sec)) [
      | inl kept ↦ rw kept (
          ap (λ x. banned_of x t)
            (pair_same_channel r (record r { policy = normalize raw }) c a refl))
      | inr dropped ↦ rw dropped (
          ap (λ x. banned_of x t) (pair-reset r (normalize raw) c a)
          ∙ banned_of-reset (pair r c a) t)
    ]

set_policy-enabled :
    (raw : RawPolicy) (r : Registry) → (set_policy raw r).policy.enabled ≡ raw.enabled
unfolding set_policy
set_policy-enabled raw r = ground (arith, normalize-enabled raw)

-- A new policy that leaves Enabled as it is changes no answer of Banned: thresholds, times and the
-- length of the window may change, and every ban stays until its time.
is_banned-set_policy :
    (raw : RawPolicy) (r : Registry) (c a : Text) (t : Time)
    → raw.enabled ≡ r.policy.enabled
    → is_banned (set_policy raw r) c a t ≡ is_banned r c a t
is_banned-set_policy raw r c a t same =
    is_banned-answer (set_policy raw r) c a t
    ∙ answer_cong (is_empty c || is_empty a) (set_policy-enabled raw r ∙ same)
        (set_policy-banned_of raw r c (to_lower a) t)
    ∙ sym (is_banned-answer r c a t)
