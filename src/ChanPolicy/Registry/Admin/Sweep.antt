-- ===== src/ChanPolicy/Registry/Admin/Sweep.antt =====
-- Registry.Sweep (internal/chanpolicy/registry.go) and the answers of Banned.
use unified_proxy_pool.Base.{
  ◌≡◌, refl, sym, ◌∙◌, ap, true, ◌||◌, inl, inr, [], ◌∷◌, arith, if◌then◌else◌, Text, text_eq_iff,
  is_empty, to_lower, Option, none, some, Time, Dict, lookup, length, Distinct, Each-lookup,
  Option-cases, Bool-cases,
}
use unified_proxy_pool.ChanPolicy.Policy.{Policy}
use unified_proxy_pool.ChanPolicy.Registry.State.{Registry, ChannelState, Entry, pair, banned}
use unified_proxy_pool.ChanPolicy.Registry.Views.{is_banned}
use unified_proxy_pool.ChanPolicy.Registry.Views.Banned.{
  banned_of, is_banned-answer, answer_cong, pair_of, pair_no_channel,
}
use unified_proxy_pool.ChanPolicy.Registry.Invariant.{Inv}
use unified_proxy_pool.ChanPolicy.Registry.Admin.{
  is_kept, sweep_entries, sweep_channels, sweep, is_gone,
}

module _ (p : Policy) (now : Time) where
  abbrev kept_of : Option Entry → Option Entry
  kept_of none = none
  kept_of (some e) = if is_kept p now e then some e else none

  lookup-sweep_entries :
      (c a : Text) (m : Dict Entry)
      → Distinct m
      → lookup a (sweep_entries p c now m).0 ≡ kept_of (lookup a m)
  unfolding sweep_entries lookup
  lookup-sweep_entries c a [] d = refl
  lookup-sweep_entries c a ((j, e) ∷ m) d =
      ground (arith, lookup-sweep_entries c a m d.1, text_eq_iff j a)

  banned-is_kept : (e : Entry) → banned e now ≡ true → is_kept p now e ≡ true
  unfolding is_kept
  banned-is_kept e h = rw h refl

  banned_of-kept_of : (x : Option Entry) → banned_of (kept_of x) now ≡ banned_of x now
  banned_of-kept_of none = refl
  banned_of-kept_of (some e) = elim (Bool-cases (banned e now)) [
    | inl out ↦ rw (banned-is_kept e out) refl
    | inr free ↦ ground (arith, free)
  ]

  -- The channel after the sweep.
  abbrev swept : Text → ChannelState → ChannelState
  swept c ch = record ch { entries = (sweep_entries p c now ch.entries).0 }

  abbrev left_of : Text → Option ChannelState → Option ChannelState
  left_of c none = none
  left_of c (some ch) = if is_gone p now (swept c ch) then none else some (swept c ch)

  lookup-sweep_channels :
      (c : Text) (m : Dict ChannelState)
      → Distinct m
      → lookup c (sweep_channels p now m).0 ≡ left_of c (lookup c m)
  unfolding sweep_channels lookup
  lookup-sweep_channels c [] d = refl
  lookup-sweep_channels c ((j, ch) ∷ m) d = elim (Bool-cases (is_gone p now (swept j ch))) [
    | inl gone ↦
        rw gone
          (ground (arith, lookup-sweep_channels c m d.1, d.0, gone, text_eq_iff j c, same_key))
    | inr stays ↦
        rw stays (ground (arith, lookup-sweep_channels c m d.1, stays, text_eq_iff j c, same_key))
  ]
    where
      same_key : j ≡ c → left_of c (some ch) ≡ left_of j (some ch)
      same_key e = rw e refl

  empty_entries : (m : Dict Entry) (a : Text) → length m ≡ 0 → lookup a m ≡ none
  unfolding lookup
  empty_entries [] a h = refl
  empty_entries (x ∷ m) a h = absurd (omega arith)

  gone-empty :
      (c a : Text) (ch : ChannelState)
      → is_gone p now (swept c ch) ≡ true
      → lookup a (sweep_entries p c now ch.entries).0 ≡ none
  unfolding is_gone
  gone-empty c a ch h = empty_entries (sweep_entries p c now ch.entries).0 a (ground arith)

sweep-chans :
    (now : Time) (r : Registry) → (sweep now r).chans ≡ (sweep_channels r.policy now r.chans).0
unfolding sweep
sweep-chans now r = refl

sweep-policy : (now : Time) (r : Registry) → (sweep now r).policy ≡ r.policy
unfolding sweep
sweep-policy now r = refl

module _ (now : Time) (r : Registry) (v : Inv r) (c a : Text) where
  swept_channel : lookup c (sweep now r).chans ≡ left_of r.policy now c (lookup c r.chans)
  swept_channel =
      rw (sweep-chans now r) (lookup-sweep_channels r.policy now c r.chans v.chans.distinct)

  found_banned_of :
      (ch : ChannelState)
      → lookup c r.chans ≡ some ch
      → banned_of (pair (sweep now r) c a) now ≡ banned_of (lookup a ch.entries) now
  found_banned_of ch found =
      let own = (Each-lookup _ c ch r.chans v.entries found).distinct in
      let kept = lookup-sweep_entries r.policy now c a ch.entries own in
      let same = banned_of-kept_of r.policy now (lookup a ch.entries) in
      elim (Bool-cases (is_gone r.policy now (swept r.policy now c ch))) [
        | inl gone ↦
            let no_channel : lookup c (sweep now r).chans ≡ none =
              swept_channel ∙ rw found (rw gone refl) in
            rw (pair_no_channel (sweep now r) c a no_channel) (
              sym (ap (λ x. banned_of x now) (sym kept ∙ gone-empty r.policy now c a ch gone))
              ∙ same)
        | inr stays ↦
            let there : lookup c (sweep now r).chans ≡ some (swept r.policy now c ch) =
              swept_channel ∙ rw found (rw stays refl) in
            rw (pair_of (sweep now r) c a (swept r.policy now c ch) there)
              (ap (λ x. banned_of x now) kept ∙ same)
      ]

  swept_banned_of : banned_of (pair (sweep now r) c a) now ≡ banned_of (pair r c a) now
  swept_banned_of = elim (Option-cases (lookup c r.chans)) [
    | inl missing ↦ rw (
      pair_no_channel (sweep now r) c a (swept_channel ∙ rw missing refl),
      pair_no_channel r c a missing,
    )
    | inr (ch, found) ↦ rw (pair_of r c a ch found) (found_banned_of ch found)
  ]

-- Sweep changes no answer of Banned: it drops only pairs that are not banned at its time.
pub is_banned-sweep :
    (now : Time) (r : Registry) (c a : Text)
    → Inv r
    → is_banned (sweep now r) c a now ≡ is_banned r c a now
is_banned-sweep now r c a v =
    is_banned-answer (sweep now r) c a now
    ∙ answer_cong (is_empty c || is_empty a) (ap (λ (p : Policy). p.enabled) (sweep-policy now r))
        (swept_banned_of now r v c (to_lower a))
    ∙ sym (is_banned-answer r c a now)
