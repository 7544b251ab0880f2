-- ===== src/ChanPolicy/Registry/Admin/Protection.antt =====
-- Registry.Allow (internal/chanpolicy/registry.go) and the outcomes recorded after it.
use unified_proxy_pool.Base.{
  ℕ, ◌≡◌, refl, ◌∙◌, ap, true, false, ◌⊎◌, inl, inr, List, [], arith, Text, text_eq_iff, is_empty,
  Distinct, Each, Each-insert, Each-lookup, length-map_values, ◌∷◌, none, some, Time, Dict, lookup,
  insert, map_values, map_some, lookup-map_values, lookup-insert, lookup-insert_self, Option-cases,
  Bool-cases,
}
use unified_proxy_pool.ChanPolicy.Name.{normalize_channel_name}
use unified_proxy_pool.ChanPolicy.Rule.{Outcome}
use unified_proxy_pool.ChanPolicy.Registry.State.{Registry, ChannelState, Entry, Allow, emit}
use unified_proxy_pool.ChanPolicy.Registry.Evaluate.{allowed, is_member}
use unified_proxy_pool.ChanPolicy.Registry.Evict.Room.{Fits, Fits-insert_old}
use unified_proxy_pool.ChanPolicy.Registry.Views.{is_banned}
use unified_proxy_pool.ChanPolicy.Registry.Views.Banned.{pair_of, pair_no_channel, IsClear}
use unified_proxy_pool.ChanPolicy.Registry.Outcomes.{clean_addr}
use unified_proxy_pool.ChanPolicy.Registry.Outcomes.Bans.{to_lower-clean_addr}
use unified_proxy_pool.ChanPolicy.Registry.Outcomes.Protected.{
  ClearPair, record_all, record_all-allowed,
}
use unified_proxy_pool.ChanPolicy.Registry.Invariant.{Inv}
use unified_proxy_pool.ChanPolicy.Registry.Admin.{
  allow, put_allow, release_pair, release_entry, lifted, or_empty,
}

lifted-IsClear : (e : Entry) → IsClear (lifted e)
unfolding lifted
lifted-IsClear e = record { no_time = refl; no_wait = refl }

-- The entry of a proxy that was released.
release_entry-lookup :
    (a : Text) (ch : ChannelState)
    → (lookup a (release_entry a ch).entries ≡ none)
      ⊎ ((e : Entry) × (lookup a (release_entry a ch).entries ≡ some e) × IsClear e)
unfolding release_entry
release_entry-lookup a ch = elim (Option-cases (lookup a ch.entries)) [
  | inl missing ↦ inl (rw (missing, release_entry) missing)
  | inr (e, is) ↦ inr (
    lifted e,
    rw (is, release_entry) (lookup-insert_self a (lifted e) ch.entries),
    lifted-IsClear e,
  )
]

-- The channels after the release in one channel.
abbrev own_chans : Text → Text → Dict ChannelState → Dict ChannelState
own_chans c a chans = elim (lookup c chans) [
  | none ↦ chans
  | some ch ↦ insert c (release_entry a ch) chans
]

-- The channel of a pair that is released, before Record sees it again.
released_channel :
    (c a k : Text) (chans : Dict ChannelState)
    → (c ≡ k) ⊎ (c ≡ [])
    → (lookup k (release_pair c a chans) ≡ none)
      ⊎ ((ch : ChannelState) × (lookup k (release_pair c a chans) ≡ some (release_entry a ch)))
unfolding release_pair map_some
released_channel c a k chans covers = elim (Bool-cases (is_empty c)) [
  | inl every ↦ rw every (mapped _)
  | inr one ↦ rw one (own covers one)
]
  where
    mapped :
        (m : Dict ChannelState)
        → (lookup k (map_values (release_entry a) m) ≡ none)
          ⊎ ((ch : ChannelState) × (lookup k (map_values (release_entry a) m)
                ≡ some (release_entry a ch)))
    mapped m = elim (Option-cases (lookup k m)) [
      | inl missing ↦ inl (lookup-map_values (release_entry a) k m ∙ rw missing refl)
      | inr (ch, is) ↦ inr (ch, lookup-map_values (release_entry a) k m ∙ rw is refl)
    ]

    own :
        (c ≡ k) ⊎ (c ≡ [])
        → is_empty c ≡ false
        → (lookup k (own_chans c a chans) ≡ none)
          ⊎ ((ch : ChannelState) × (lookup k (own_chans c a chans) ≡ some (release_entry a ch)))
    own (inr all) named = absurd (ground (arith, ap is_empty all))
    own (inl e) named = elim (Option-cases (lookup c chans)) [
      | inl missing ↦ inl (rw (missing, own_chans) (rw (← e) missing))
      | inr (ch, is) ↦
          inr (ch, rw (is, own_chans) (rw (← e) (lookup-insert_self c (release_entry a ch) chans)))
    ]

module _ {V : Type 0} (f : V → V) where
  Distinct-map_values : (m : Dict V) → Distinct m → Distinct (map_values f m)
  unfolding map_values map_some
  Distinct-map_values [] d = tt
  Distinct-map_values ((k, v) ∷ m) d =
      (lookup-map_values f k m ∙ rw d.0 refl, Distinct-map_values m d.1)

  Each-map_values :
      (P Q : Text → V → Type 0) (m : Dict V)
      → ((k : Text) (v : V) → P k v → Q k (f v))
      → Each P m
      → Each Q (map_values f m)
  unfolding map_values
  Each-map_values P Q [] h e = tt
  Each-map_values P Q ((k, v) ∷ m) h e = (h k v e.0, Each-map_values P Q m h e.1)

  Fits-map_values : (n : ℕ) (m : Dict V) → Fits n m → Fits n (map_values f m)
  Fits-map_values n m g = record {
    distinct = Distinct-map_values m g.distinct;
    named = Each-map_values _ _ m (λ k v h. h) g.named;
    bounded = rw (length-map_values f m) g.bounded;
  }

module _ (bound cap : ℕ) (c a : Text) (chans : Dict ChannelState) where
  -- Both maps of the registry are within their caps.
  abbrev Roomy : Dict ChannelState → Type 0
  Roomy m = Fits bound m × Each (λ _ ch. Fits cap ch.entries) m

  release_entry-Fits :
      (ch : ChannelState) → Fits cap ch.entries → Fits cap (release_entry a ch).entries
  unfolding release_entry
  release_entry-Fits ch g = elim (Option-cases (lookup a ch.entries)) [
    | inl missing ↦ rw (missing, release_entry) g
    | inr (e, is) ↦ rw (is, release_entry) (Fits-insert_old cap a (lifted e) e ch.entries is g)
  ]

  release_pair-Roomy : Roomy chans → Roomy (release_pair c a chans)
  unfolding release_pair
  release_pair-Roomy r = elim (Bool-cases (is_empty c)) [
    | inl every ↦ rw every (all _ own)
    | inr one ↦ rw one own
  ]
    where
      all : (m : Dict ChannelState) → Roomy m → Roomy (map_values (release_entry a) m)
      all m q = (
        Fits-map_values (release_entry a) bound m q.0,
        Each-map_values (release_entry a) _ _ m (λ k ch g. release_entry-Fits ch g) q.1,
      )

      own : Roomy (own_chans c a chans)
      own = elim (Option-cases (lookup c chans)) [
        | inl missing ↦ rw (missing, own_chans) r
        | inr (ch, is) ↦
            rw (is, own_chans)
              (
                Fits-insert_old bound c (release_entry a ch) ch chans is r.0,
                Each-insert _ c (release_entry a ch) chans
                    (release_entry-Fits ch (Each-lookup _ c ch chans r.1 is)) r.1,
              )
      ]

allowed-put_allow :
    (e : Allow) (c a k : Text) (allows : Dict (Dict Allow))
    → (c ≡ k) ⊎ (c ≡ [])
    → allowed (put_allow e c a allows) k a ≡ true
unfolding allowed put_allow is_member
allowed-put_allow e c a k allows (inl same) = ground (
  arith,
  lookup-insert c k (insert a e (or_empty (lookup c allows))) allows,
  text_eq_iff c k,
  same,
  lookup-insert_self a e (or_empty (lookup c allows)),
)
allowed-put_allow e c a k allows (inr every) = ground (
  arith,
  lookup-insert c [] (insert a e (or_empty (lookup c allows))) allows,
  text_eq_iff c [],
  every,
  lookup-insert_self a e (or_empty (lookup c allows)),
)

module _ (c' a' reason : Text) (now : Time) (r : Registry)
    (named : is_empty (clean_addr a') ≡ false) where
  abbrev after : Registry
  after = allow c' a' reason now r

  -- What an Allow that is not refused makes of the registry.
  record Allowing : Type 0 where
    entry : Allow
    allows : after.allows ≡ put_allow entry (normalize_channel_name c') (clean_addr a') r.allows
    chans : after.chans ≡ release_pair (normalize_channel_name c') (clean_addr a') r.chans
    policy : after.policy ≡ r.policy

  allow-Allowing : Allowing
  unfolding allow emit
  allow-Allowing = record {
    entry = record {
      channel = normalize_channel_name c';
      addr = clean_addr a';
      reason = reason;
      created_at = now;
    };
    allows = rw (named, allow) refl;
    chans = rw (named, allow) refl;
    policy = rw (named, allow) refl;
  }

  allow-Inv : Inv r → Inv after
  allow-Inv v =
      let q = allow-Allowing in
      let room =
        release_pair-Roomy r.policy.max_channels r.policy.max_entries_per_chan
          (normalize_channel_name c') (clean_addr a') r.chans (v.chans, v.entries) in
      record {
        usable = rw q.policy v.usable;
        chans = rw (q.policy, q.chans) room.0;
        entries = rw (q.policy, q.chans) room.1;
      }

  module _ (k : Text)
      (covers : (normalize_channel_name c' ≡ k) ⊎ (normalize_channel_name c' ≡ [])) where
    allow-allowed : allowed after.allows k (clean_addr a') ≡ true
    allow-allowed = rw (allow-Allowing.allows) (member_of covers)
      where
        member_of :
            (normalize_channel_name c' ≡ k) ⊎ (normalize_channel_name c' ≡ [])
            → allowed
                (put_allow allow-Allowing.entry
                  (normalize_channel_name c')
                  (clean_addr a')
                  r.allows)
                k
                (clean_addr a')
              ≡ true
        member_of q =
            allowed-put_allow allow-Allowing.entry (normalize_channel_name c') (clean_addr a') k
              r.allows q

    allow-ClearPair : ClearPair after k (clean_addr a')
    allow-ClearPair =
        elim (released_channel (normalize_channel_name c') (clean_addr a') k r.chans covers) [
          | inl gone ↦
              inl (
                pair_no_channel after k (clean_addr a') (ap (lookup k) allow-Allowing.chans ∙ gone))
          | inr (ch, is) ↦
              let here =
                pair_of after k (clean_addr a') (release_entry (clean_addr a') ch)
                  (ap (lookup k) allow-Allowing.chans ∙ is) in
              elim (release_entry-lookup (clean_addr a') ch) [
                | inl missing ↦ inl (here ∙ missing)
                | inr (e, found, clear) ↦ inr (e, here ∙ found, clear)
              ]
        ]

-- After Allow of a named address, Banned answers false for it whatever outcomes are recorded later: in
-- the channel that Allow names, or in every channel if it names none.
pub record_all-allow :
    (c' a' reason k : Text) (now t : Time) (os : List (Time × Outcome)) (r : Registry)
    → Inv r
    → is_empty (clean_addr a') ≡ false
    → (normalize_channel_name c' ≡ k) ⊎ (normalize_channel_name c' ≡ [])
    → is_banned (record_all os (allow c' a' reason now r)) k (clean_addr a') t ≡ false
record_all-allow c' a' reason k now t os r v named covers =
    record_all-allowed os (allow c' a' reason now r) k (clean_addr a') t
      (allow-Inv c' a' reason now r named v)
      (rw (to_lower-clean_addr a') (allow-allowed c' a' reason now r named k covers))
      (rw (to_lower-clean_addr a') (allow-ClearPair c' a' reason now r named k covers))
