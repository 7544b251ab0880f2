-- ===== src/ChanPolicy/Registry/Outcomes/Laws.antt =====
-- Registry.Record (internal/chanpolicy/registry.go) as a change of the maps, and the invariant.
use unified_proxy_pool.Base.{
  ◌≡◌, refl, sym, ◌∙◌, Bool, true, false, not, ◌⊎◌, inl, inr, arith, if◌then◌else◌, Text, text_eq,
  text_eq_iff, is_empty, Option, none, some, Time, Each, Each-lookup, Each-of_lookup, Bool-cases,
}
use unified_proxy_pool.ChanPolicy.Name.{normalize_channel_name}
use unified_proxy_pool.ChanPolicy.Rule.{Outcome}
use unified_proxy_pool.ChanPolicy.Registry.State.{Registry, ChannelState, Ban, emit}
use unified_proxy_pool.ChanPolicy.Registry.Evict.Room.{Fits}
use unified_proxy_pool.ChanPolicy.Registry.Outcomes.{
  update_pair, count_outcome, record_outcome_of, announce, clean_addr, clean_channel, emit_ban,
}
use unified_proxy_pool.ChanPolicy.Registry.Outcomes.Updated.{Updated, update_pair-Updated}
use unified_proxy_pool.ChanPolicy.Registry.Invariant.{Inv}

-- The two registries differ in their log and trace only.
pub record SameMaps (r s : Registry) : Type 0 where
  pub chans : s.chans ≡ r.chans
  pub policy : s.policy ≡ r.policy
  pub rules : s.rules ≡ r.rules
  pub allows : s.allows ≡ r.allows

announce-SameMaps :
    (o : Outcome) (channel addr : Text) (now : Time) (ban : Option Ban) (r : Registry)
    → SameMaps r (announce o channel addr now ban r)
unfolding announce emit emit_ban
announce-SameMaps o channel addr now none r = record {
  chans = refl;
  policy = refl;
  rules = refl;
  allows = refl;
}
announce-SameMaps o channel addr now (some b) r = record {
  chans = refl;
  policy = refl;
  rules = refl;
  allows = refl;
}

pub clean_channel-named : (c : Text) → is_empty (clean_channel c) ≡ false
unfolding clean_channel
clean_channel-named c = elim (Bool-cases (is_empty (normalize_channel_name c))) [
  | inl e ↦ rw e refl
  | inr e ↦ rw e e
]

early_return {ℓ} :
    {A : Type ℓ} (a b : Bool) (x y : A)
    → ((if a then x else if not b then x else y) ≡ x)
      ⊎ ((a ≡ false) × (b ≡ true) × ((if a then x else if not b then x else y) ≡ y))
early_return true b x y = inl refl
early_return false false x y = inl refl
early_return false true x y = inr (refl, refl, refl)

-- Record does nothing if the address is empty or the policy is off.
record_cases :
    (o : Outcome) (now : Time) (r : Registry)
    → (record_outcome_of o now r ≡ (r, none))
      ⊎ ((is_empty (clean_addr o.addr) ≡ false)
          × (r.policy.enabled ≡ true)
          × (record_outcome_of o now r
              ≡ count_outcome o (clean_channel o.channel) (clean_addr o.addr) now r))
unfolding record_outcome_of
record_cases o now r =
    early_return (is_empty (clean_addr o.addr)) r.policy.enabled (r, none)
      (count_outcome o (clean_channel o.channel) (clean_addr o.addr) now r)

count_outcome-SameMaps :
    (o : Outcome) (channel addr : Text) (now : Time) (r : Registry)
    → SameMaps (update_pair o channel addr now r).0 (count_outcome o channel addr now r).0
      × ((count_outcome o channel addr now r).1 ≡ (update_pair o channel addr now r).1)
unfolding count_outcome
count_outcome-SameMaps o channel addr now r = (announce-SameMaps o channel addr now _ _, refl)

-- With the invariant, the second case has the whole description of the change.
pub record Recorded (o : Outcome) (now : Time) (r : Registry) : Type 0 where
  pub addr_named : is_empty (clean_addr o.addr) ≡ false
  pub enabled : r.policy.enabled ≡ true
  pub maps :
      SameMaps
        (update_pair o (clean_channel o.channel) (clean_addr o.addr) now r).0
        (record_outcome_of o now r).0
  pub result :
      (record_outcome_of o now r).1
      ≡ (update_pair o (clean_channel o.channel) (clean_addr o.addr) now r).1
  pub change :
      Updated o
        (clean_channel o.channel)
        (clean_addr o.addr)
        now
        r
        (update_pair o (clean_channel o.channel) (clean_addr o.addr) now r)

recorded :
    (o : Outcome) (now : Time) (r : Registry)
    → Inv r
    → is_empty (clean_addr o.addr) ≡ false
    → r.policy.enabled ≡ true
    → record_outcome_of o now r
      ≡ count_outcome o (clean_channel o.channel) (clean_addr o.addr) now r
    → Recorded o now r
recorded o now r v named on e =
    let same = count_outcome-SameMaps o (clean_channel o.channel) (clean_addr o.addr) now r in
    record {
      addr_named = named;
      enabled = on;
      maps = rw e same.0;
      result = rw e same.1;
      change = update_pair-Updated o _ _ now r v (clean_channel-named o.channel) named;
    }

pub record-Recorded :
    (o : Outcome) (now : Time) (r : Registry)
    → Inv r
    → (record_outcome_of o now r ≡ (r, none)) ⊎ Recorded o now r
record-Recorded o now r v = elim (record_cases o now r) [
  | inl same ↦ inl same
  | inr (named, on, e) ↦ inr (recorded o now r v named on e)
]

-- With a policy that is on, and an address, the outcome is counted.
pub record-enabled :
    (o : Outcome) (now : Time) (r : Registry)
    → Inv r
    → r.policy.enabled ≡ true
    → is_empty (clean_addr o.addr) ≡ false
    → Recorded o now r
unfolding record_outcome_of
record-enabled o now r v on named =
    recorded o now r v named on (simp named (not_early r.policy.enabled on (r, none) _))
  where
    not_early : {A : Type 0} (b : Bool) → b ≡ true → (x y : A) → (if not b then x else y) ≡ y
    not_early b h x y = rw h refl

-- The entries of every channel after the change are within the cap.
entries-Fits :
    (o : Outcome) (channel addr : Text) (now : Time) (r : Registry) (res : Registry × Option Ban)
    → Inv r
    → Updated o channel addr now r res
    → Each (λ _ ch. Fits r.policy.max_entries_per_chan ch.entries) res.0.chans
entries-Fits o channel addr now r res v u =
    Each-of_lookup _ res.0.chans u.chans_fit.distinct λ k ch found.
      elim (Bool-cases (text_eq channel k)) [
        | inl same ↦
            let e : channel ≡ k = (text_eq_iff channel k).0 same in
            let s : u.state ≡ ch = some_eq (sym u.channel_found ∙ rw e found) in
            rw (← s) u.state_fits
        | inr other ↦ elim (u.other_channels k other) [
          | inl kept ↦ Each-lookup _ k ch r.chans v.entries (sym kept ∙ found)
          | inr gone ↦ absurd (ground arith)
        ]
      ]
  where
    some_eq : {a b : ChannelState} → some a ≡ some b → a ≡ b
    some_eq e = ground arith

-- Record keeps the invariant: no name is empty or stands twice, and neither the channels nor the
-- entries of a channel exceed their caps.
pub record-Inv :
    (o : Outcome) (now : Time) (r : Registry) → Inv r → Inv (record_outcome_of o now r).0
record-Inv o now r v = elim (record-Recorded o now r v) [
  | inl same ↦ rw same v
  | inr d ↦
      let same = d.maps in
      record {
        usable = rw (same.policy, d.change.policy) v.usable;
        chans = rw (same.policy, d.change.policy, same.chans) d.change.chans_fit;
        entries =
            rw (same.policy, d.change.policy, same.chans) (entries-Fits o _ _ now r _ v d.change);
      }
]
