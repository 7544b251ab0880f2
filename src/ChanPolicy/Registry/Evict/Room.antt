-- ===== src/ChanPolicy/Registry/Evict/Room.antt =====
-- channelLocked and entryLocked (internal/chanpolicy/registry.go): caps, keys, and what is evicted.
use unified_proxy_pool.Base.{
  ℕ, ◌≤◌, ◌<◌, ◌≡◌, refl, ap, Bool, false, ◌⊎◌, inl, inr, List, [], arith, leb, if◌then◌else◌, Text,
  text_eq, is_empty, none, some, Time, Dict, lookup, insert, erase, length, Distinct, Bool-cases,
  Each-lookup, Each-insert, Each-erase, Distinct-insert, Distinct-erase, lookup-insert,
  lookup-insert_self, lookup-erase, length-insert-le, length-erase-lt, length-insert_old,
  Option-cases,
}
use unified_proxy_pool.ChanPolicy.Policy.{Policy}
use unified_proxy_pool.ChanPolicy.Registry.State.{
  Registry, ChannelState, Entry, banned, Effect, emit,
}
use unified_proxy_pool.ChanPolicy.Registry.Evict.{
  victim_of, evict_entry, entry_locked, evict_channel, channel_locked, has_bans, new_entry,
  new_channel,
}
use unified_proxy_pool.ChanPolicy.Registry.Evict.Victim.{NamedKeys, victim_of-IsVictim}

-- A map that is well formed and within its cap.
pub record Fits {V : Type 0} (cap : ℕ) (m : Dict V) : Type 0 where
  pub distinct : Distinct m
  pub named : NamedKeys m
  pub bounded : length m ≤ cap

-- There is no room for a new key.
abbrev pub IsFull : {V : Type 0} → ℕ → Text → Dict V → Type 0
IsFull cap key m = (lookup key m ≡ none) × (cap ≤ length m)

-- An entry of another key is as before, or it is gone for a reason.
abbrev pub KeptOrGone : {V : Type 0} → Type 0 → Dict V → Dict V → Text → Type 0
KeptOrGone Reason m m' k = (lookup k m' ≡ lookup k m) ⊎ ((lookup k m' ≡ none) × Reason)

module _ {V : Type 0} (bound : ℕ) where
  pub Fits-erase :
      (k : Text) (m : Dict V) → Fits bound m → length (erase k m) ≤ bound → Fits bound (erase k m)
  Fits-erase k m f le = record {
    distinct = Distinct-erase k m f.distinct;
    named = Each-erase _ k m f.named;
    bounded = le;
  }

  pub Fits-insert_new :
      (k : Text) (v : V) (m : Dict V)
      → is_empty k ≡ false
      → Fits bound m
      → length m < bound
      → Fits bound (insert k v m)
  Fits-insert_new k v m n f lt = record {
    distinct = Distinct-insert k v m f.distinct;
    named = Each-insert _ k v m n f.named;
    bounded = omega (arith, length-insert-le k v m);
  }

  pub Fits-insert_old :
      (k : Text) (v w : V) (m : Dict V)
      → lookup k m ≡ some w
      → Fits bound m
      → Fits bound (insert k v m)
  Fits-insert_old k v w m old f = record {
    distinct = Distinct-insert k v m f.distinct;
    named = Each-insert _ k v m (Each-lookup _ k w m f.named old) f.named;
    bounded = omega (arith, length-insert_old k v w m old, f.bounded);
  }

  module _ (busy : V → Bool) (seen : V → Time) where
    -- What is left after an eviction from a full map.
    pub record Evicted (m : Dict V) : Type 0 where
      pub name_ok : is_empty (victim_of busy seen m) ≡ false
      pub smaller : length (erase (victim_of busy seen m) m) < length m

    pub evicted : (m : Dict V) → Fits bound m → 1 ≤ length m → Evicted m
    evicted m f full =
        let v =
          victim_of-IsVictim seen busy m (λ e. absurd (omega (arith, ap length e))) f.distinct
            f.named in
        record {
          name_ok = Each-lookup _ _ v.entry m f.named v.found;
          smaller = length-erase-lt _ v.entry m v.found;
        }

erase-KeptOrGone :
    {V : Type 0} {Reason : Type 0} (k j : Text) (m : Dict V)
    → Reason
    → KeptOrGone Reason m (erase k m) j
erase-KeptOrGone k j m why = elim (Bool-cases (text_eq k j)) [
  | inl e ↦ inr (ground (arith, lookup-erase k j m), why)
  | inr e ↦ inl (ground (arith, lookup-erase k j m))
]

pub insert-KeptOrGone :
    {V : Type 0} {Reason : Type 0} (j k : Text) (v : V) (m m' : Dict V)
    → text_eq j k ≡ false
    → KeptOrGone Reason m m' k
    → KeptOrGone Reason m (insert j v m') k
insert-KeptOrGone j k v m m' ne (inl e) = inl (ground (arith, lookup-insert j k v m'))
insert-KeptOrGone j k v m m' ne (inr (e, why)) = inr (ground (arith, lookup-insert j k v m'), why)

-- What entryLocked returns.
pub record Fetched (bound : ℕ) (addr : Text) (now : Time) (m : Dict Entry)
    (r : Entry × Dict Entry × List Effect) : Type 0 where
  pub source : (lookup addr m ≡ some r.0) ⊎ ((lookup addr m ≡ none) × (r.0 ≡ new_entry now))
  pub fits : Fits bound r.1
  pub found : lookup addr r.1 ≡ some r.0
  pub others : (k : Text) → text_eq addr k ≡ false → KeptOrGone (IsFull bound addr m) m r.1 k

module _ (p : Policy) (channel addr : Text) (now : Time) (named : is_empty addr ≡ false) where
  -- The map that a new entry is put into.
  room : Dict Entry → Dict Entry × List Effect
  room m = if leb p.max_entries_per_chan (length m) then evict_entry channel now m else (m, [])

  room-Fits :
      (m : Dict Entry)
      → 1 ≤ p.max_entries_per_chan
      → lookup addr m ≡ none
      → Fits p.max_entries_per_chan m
      → Fits p.max_entries_per_chan (room m).0
        × (length (room m).0 < p.max_entries_per_chan)
        × ((k : Text) → KeptOrGone (IsFull p.max_entries_per_chan addr m) m (room m).0 k)
  unfolding room evict_entry
  room-Fits m pos new f = elim (Bool-cases (leb p.max_entries_per_chan (length m))) [
    | inr free ↦ rw free (f, ground arith, λ k. inl refl)
    | inl full ↦
        let le : p.max_entries_per_chan ≤ length m = ground arith in
        let out =
          evicted p.max_entries_per_chan (λ e. banned e now) (λ e. e.last_seen_at) m f
            (omega (arith, le)) in
        rw (full, out.name_ok)
          (
            Fits-erase p.max_entries_per_chan _ m f (omega (arith, out.smaller, f.bounded)),
            omega (arith, out.smaller, f.bounded),
            λ k. erase-KeptOrGone _ k m (new, le),
          )
  ]

  pub entry_locked-Fetched :
      (m : Dict Entry)
      → 1 ≤ p.max_entries_per_chan
      → Fits p.max_entries_per_chan m
      → Fetched p.max_entries_per_chan addr now m (entry_locked p channel addr now m)
  unfolding entry_locked room
  entry_locked-Fetched m pos f = elim (Option-cases (lookup addr m)) [
    | inr (e, old) ↦
        rw (old, entry_locked)
          (record { source = inl old; fits = f; found = old; others = λ k _. inl refl })
    | inl new ↦
        let q = room-Fits m pos new f in
        rw (new, entry_locked)
          (record {
            source = inr (new, refl);
            fits =
                Fits-insert_new p.max_entries_per_chan addr (new_entry now) (room m).0 named q.0
                  q.1;
            found = lookup-insert_self addr (new_entry now) (room m).0;
            others = λ k ne. insert-KeptOrGone addr k (new_entry now) m (room m).0 ne (q.2 k);
          })
  ]

-- What channelLocked returns: the channel is the one that was there, or a new one, and only the map
-- of channels and the trace change.
pub record Opened (name : Text) (now : Time) (r : Registry) (res : Registry × ChannelState)
    : Type 0 where
  pub fits : Fits r.policy.max_channels res.0.chans
  pub found : lookup name res.0.chans ≡ some res.1
  pub source :
      (lookup name r.chans ≡ some res.1)
      ⊎ ((lookup name r.chans ≡ none) × (res.1 ≡ new_channel now))
  pub others :
      (k : Text)
      → text_eq name k ≡ false
      → KeptOrGone (IsFull r.policy.max_channels name r.chans) r.chans res.0.chans k
  pub policy : res.0.policy ≡ r.policy
  pub rules : res.0.rules ≡ r.rules
  pub allows : res.0.allows ≡ r.allows
  pub log : res.0.log ≡ r.log

module _ (name : Text) (now : Time) (named : is_empty name ≡ false) (r : Registry) where
  open_room : Registry
  open_room = if leb r.policy.max_channels (length r.chans) then evict_channel now r else r

  pub record Roomy (r' : Registry) : Type 0 where
    pub fits : Fits r.policy.max_channels r'.chans
    pub free : length r'.chans < r.policy.max_channels
    pub others :
        (k : Text) → KeptOrGone (IsFull r.policy.max_channels name r.chans) r.chans r'.chans k
    pub policy : r'.policy ≡ r.policy
    pub rules : r'.rules ≡ r.rules
    pub allows : r'.allows ≡ r.allows
    pub log : r'.log ≡ r.log

  open_room-Roomy :
      1 ≤ r.policy.max_channels
      → lookup name r.chans ≡ none
      → Fits r.policy.max_channels r.chans
      → Roomy open_room
  unfolding open_room evict_channel emit
  open_room-Roomy pos new f = elim (Bool-cases (leb r.policy.max_channels (length r.chans))) [
    | inr free ↦ rw free (record {
      fits = f;
      free = ground arith;
      others = λ k. inl refl;
      policy = refl;
      rules = refl;
      allows = refl;
      log = refl;
    })
    | inl full ↦
        let le : r.policy.max_channels ≤ length r.chans = ground arith in
        let out =
          evicted r.policy.max_channels (has_bans now) (λ ch. ch.last_seen_at) r.chans f
            (omega (arith, le)) in
        rw (full, out.name_ok)
          (record {
            fits =
                Fits-erase r.policy.max_channels _ r.chans f
                  (omega (arith, out.smaller, f.bounded));
            free = omega (arith, out.smaller, f.bounded);
            others = λ k. erase-KeptOrGone _ k r.chans (new, le);
            policy = refl;
            rules = refl;
            allows = refl;
            log = refl;
          })
  ]

  pub channel_locked-Opened :
      1 ≤ r.policy.max_channels
      → Fits r.policy.max_channels r.chans
      → Opened name now r (channel_locked name now r)
  unfolding channel_locked open_room
  channel_locked-Opened pos f = elim (Option-cases (lookup name r.chans)) [
    | inr (ch, old) ↦
        rw (old, channel_locked)
          (record {
            fits = f;
            found = old;
            source = inl old;
            others = λ k _. inl refl;
            policy = refl;
            rules = refl;
            allows = refl;
            log = refl;
          })
    | inl new ↦
        let q = open_room-Roomy pos new f in
        rw (new, channel_locked)
          (record {
            fits =
                Fits-insert_new r.policy.max_channels name (new_channel now) open_room.chans named
                  q.fits q.free;
            found = lookup-insert_self name (new_channel now) open_room.chans;
            source = inr (new, refl);
            others = λ k ne.
                insert-KeptOrGone name k (new_channel now) r.chans open_room.chans ne (q.others k);
            policy = q.policy;
            rules = q.rules;
            allows = q.allows;
            log = q.log;
          })
  ]
