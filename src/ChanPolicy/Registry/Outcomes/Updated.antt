-- ===== src/ChanPolicy/Registry/Outcomes/Updated.antt =====
-- What the change of the maps in Record amounts to, for a registry that satisfies the invariant.
use unified_proxy_pool.Base.{
  ◌≡◌, refl, ◌∙◌, ap, false, ◌⊎◌, inl, inr, List, arith, Text, text_eq, is_empty, Option, none,
  some, Time, Dict, lookup, insert, Each-lookup, lookup-insert, lookup-insert_self, Option-cases,
  length,
}
use unified_proxy_pool.ChanPolicy.Rule.{Outcome}
use unified_proxy_pool.ChanPolicy.Registry.State.{Registry, ChannelState, Entry, Ban, Effect, pair}
use unified_proxy_pool.ChanPolicy.Registry.Evict.{channel_locked, entry_locked, new_entry}
use unified_proxy_pool.ChanPolicy.Registry.Evict.Room.{
  Fits, IsFull, KeptOrGone, Opened, channel_locked-Opened, Fetched, entry_locked-Fetched,
  Fits-insert_old, insert-KeptOrGone,
}
use unified_proxy_pool.ChanPolicy.Registry.Evaluate.{evaluate}
use unified_proxy_pool.ChanPolicy.Registry.Outcomes.{observe, update_pair}
use unified_proxy_pool.ChanPolicy.Registry.Invariant.{Inv, no_entries-Fits}

-- A channel that has no room for a new entry.
abbrev pub IsFullChannel : Text → Text → Registry → Type 0
IsFullChannel channel addr r =
    (ch : ChannelState) × (lookup channel r.chans ≡ some ch)
    × IsFull r.policy.max_entries_per_chan addr ch.entries

-- The entry of the pair afterwards, and the ban: the outcome was counted, and if the rules say so
-- the pair was banned.
abbrev pub Decided : Registry → Outcome → Text → Text → Time → Entry → Entry → Option Ban → Type 0
Decided r o channel addr now before after ban =
    ((evaluate r.policy r.rules r.allows channel addr (observe r.policy before o now) o now ≡ none)
      × (after ≡ observe r.policy before o now)
      × (ban ≡ none))
    ⊎ ((b : Ban) × (evaluate r.policy r.rules r.allows channel addr (observe r.policy before o now)
            o now
          ≡ some (after, b))
        × (ban ≡ some b))

pub record Updated (o : Outcome) (channel addr : Text) (now : Time) (r : Registry)
    (res : Registry × Option Ban) : Type 0 where
  pub before : Entry
  pub after : Entry
  pub state : ChannelState
  pub source :
      (pair r channel addr ≡ some before)
      ⊎ ((pair r channel addr ≡ none) × (before ≡ new_entry now))
  pub decided : Decided r o channel addr now before after res.1
  pub channel_found : lookup channel res.0.chans ≡ some state
  pub entry_found : lookup addr state.entries ≡ some after
  pub state_fits : Fits r.policy.max_entries_per_chan state.entries
  pub chans_fit : Fits r.policy.max_channels res.0.chans
  pub other_channels :
      (k : Text)
      → text_eq channel k ≡ false
      → KeptOrGone (IsFull r.policy.max_channels channel r.chans) r.chans res.0.chans k
  pub other_entries :
      (k : Text)
      → text_eq addr k ≡ false
      → ((lookup k state.entries ≡ none)
          × ((pair r channel k ≡ none) ⊎ IsFullChannel channel addr r))
        ⊎ ((e : Entry) × (pair r channel k ≡ some e) × (lookup k state.entries ≡ some e))
  pub policy : res.0.policy ≡ r.policy
  pub rules : res.0.rules ≡ r.rules
  pub allows : res.0.allows ≡ r.allows

module _ (o : Outcome) (channel addr : Text) (now : Time) (r : Registry) (v : Inv r)
    (channel_named : is_empty channel ≡ false) (addr_named : is_empty addr ≡ false) where
  opened : Opened channel now r (channel_locked channel now r)
  opened = channel_locked-Opened channel now channel_named r v.usable.channels v.chans

  ch : ChannelState
  ch = (channel_locked channel now r).1

  ch-Fits : Fits r.policy.max_entries_per_chan ch.entries
  unfolding ch
  ch-Fits = elim opened.source [
    | inl old ↦ Each-lookup _ channel ch r.chans v.entries old
    | inr (_, new) ↦ rw new (no_entries-Fits _)
  ]

  fetched :
      Fetched r.policy.max_entries_per_chan addr now ch.entries
        (entry_locked r.policy channel addr now ch.entries)
  fetched =
      entry_locked-Fetched r.policy channel addr now addr_named ch.entries v.usable.entries ch-Fits

  before_entry : Entry
  before_entry = (entry_locked r.policy channel addr now ch.entries).0

  stored : Dict Entry
  stored = (entry_locked r.policy channel addr now ch.entries).1

  -- The entries of the channel are those of the pairs, if it was there; a new one has none.
  ch-pair : (k : Text) (e : Entry) → lookup k ch.entries ≡ some e → pair r channel k ≡ some e
  unfolding ch pair lookup
  ch-pair k e h = elim opened.source [
    | inl was ↦ rw (was, pair) h
    | inr (_, fresh) ↦
        absurd (ground (arith, h, ap (λ (c : ChannelState). lookup k c.entries) fresh))
  ]

  no_pair : (k : Text) → lookup k ch.entries ≡ none → pair r channel k ≡ none
  unfolding ch pair
  no_pair k h = elim opened.source [
    | inl was ↦ rw (was, pair) h
    | inr (missing, _) ↦ rw (missing, pair) refl
  ]

  before-source :
      (pair r channel addr ≡ some before_entry)
      ⊎ ((pair r channel addr ≡ none) × (before_entry ≡ new_entry now))
  unfolding before_entry
  before-source = elim fetched.source [
    | inl old ↦ inl (ch-pair addr _ old)
    | inr (missing, new) ↦ inr (no_pair addr missing, new)
  ]

  full_channel : IsFull r.policy.max_entries_per_chan addr ch.entries → IsFullChannel channel addr r
  unfolding ch
  full_channel full = elim opened.source [
    | inl was ↦ (ch, was, full)
    | inr (_, new) ↦
        absurd
          (omega (arith, full.1, v.usable.entries, ap (λ (c : ChannelState). length c.entries) new))
  ]

  stored-others :
      (k : Text)
      → text_eq addr k ≡ false
      → ((lookup k stored ≡ none) × ((pair r channel k ≡ none) ⊎ IsFullChannel channel addr r))
        ⊎ ((e : Entry) × (pair r channel k ≡ some e) × (lookup k stored ≡ some e))
  unfolding stored
  stored-others k ne = elim (fetched.others k ne) [
    | inr (gone, full) ↦ inl (gone, inr (full_channel full))
    | inl same ↦ elim (Option-cases (lookup k ch.entries)) [
      | inl no_entry ↦ inl (same ∙ no_entry, inl (no_pair k no_entry))
      | inr (e, old) ↦ inr (e, ch-pair k e old, same ∙ old)
    ]
  ]

  -- The registry with the channel put back after its entry is replaced.
  module _ (after : Entry) (ban_at : Time) where
    state' : ChannelState
    state' = record { entries = insert addr after stored; last_seen_at = now; last_ban_at = ban_at }

    chans' : Dict ChannelState
    chans' = insert channel state' (channel_locked channel now r).0.chans

    entry_found' : lookup addr state'.entries ≡ some after
    unfolding state'
    entry_found' = lookup-insert_self addr after stored

    state-Fits' : Fits r.policy.max_entries_per_chan state'.entries
    unfolding state' stored
    state-Fits' =
        Fits-insert_old r.policy.max_entries_per_chan addr after _ stored fetched.found fetched.fits

    chans_fit' : Fits r.policy.max_channels chans'
    unfolding chans'
    chans_fit' = Fits-insert_old r.policy.max_channels channel state' _ _ opened.found opened.fits

    other_channels' :
        (k : Text)
        → text_eq channel k ≡ false
        → KeptOrGone (IsFull r.policy.max_channels channel r.chans) r.chans chans' k
    unfolding chans'
    other_channels' k ne = insert-KeptOrGone channel k state' r.chans _ ne (opened.others k ne)

    other_entries' :
        (k : Text)
        → text_eq addr k ≡ false
        → ((lookup k state'.entries ≡ none)
            × ((pair r channel k ≡ none) ⊎ IsFullChannel channel addr r))
          ⊎ ((e : Entry) × (pair r channel k ≡ some e) × (lookup k state'.entries ≡ some e))
    unfolding state'
    other_entries' k ne = rw (lookup-insert addr k after stored, ne) (stored-others k ne)

    updated :
        (b : Option Ban) (trace : List Effect)
        → Decided r o channel addr now before_entry after b
        → Updated o channel addr now r
            (record (channel_locked channel now r).0 { chans = chans'; trace = trace }, b)
    unfolding chans'
    updated b trace h = record {
      before = before_entry;
      after = after;
      state = state';
      source = before-source;
      decided = h;
      channel_found = lookup-insert_self channel state' _;
      entry_found = entry_found';
      state_fits = state-Fits';
      chans_fit = chans_fit';
      other_channels = other_channels';
      other_entries = other_entries';
      policy = opened.policy;
      rules = opened.rules;
      allows = opened.allows;
    }

  seen_entry : Entry
  seen_entry = observe r.policy before_entry o now

  pub update_pair-Updated : Updated o channel addr now r (update_pair o channel addr now r)
  unfolding update_pair chans' state' stored before_entry ch
  update_pair-Updated =
      elim (Option-cases (
        evaluate r.policy r.rules r.allows channel addr (observe r.policy before_entry o now) o
          now)) [
            | inl no_ban ↦
                rw (no_ban, update_pair)
                  (updated (observe r.policy before_entry o now) ch.last_ban_at none _
                    (inl (no_ban, refl, refl)))
            | inr ((out, b), ban) ↦
                rw (ban, update_pair) (updated out now (some b) _ (inr (b, ban, refl)))
          ]
