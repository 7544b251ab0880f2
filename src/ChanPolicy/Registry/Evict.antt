-- ===== src/ChanPolicy/Registry/Evict.antt =====
-- channelLocked, entryLocked and their evictions (internal/chanpolicy/registry.go).
pub mod Victim
pub mod Room
use unified_proxy_pool.Base.{
  ℕ, ◌+◌, ◌≡◌, Bool, true, false, List, [], ◌∷◌, arith, ltb, leb, ◌==◌, if◌then◌else◌, Text,
  is_empty, Option, none, some, Time, Dict, lookup, insert, erase, length,
}
use unified_proxy_pool.ChanPolicy.Registry.State.{
  Registry, ChannelState, Entry, banned, emit, Effect, delete_ban, delete_channel,
}
use unified_proxy_pool.ChanPolicy.Policy.{Policy}
use unified_proxy_pool.ChanPolicy.Window.{no_counters}
use unified_proxy_pool.ChanPolicy.Log.{no_reason}

-- A name and a time; the empty name says that none is chosen yet.
pub record Choice : Type 0 where
  pub name : Text
  pub at : Time

-- `if c == "" || seen.Before(at) { c, at = name, seen }`
unfoldable pub consider : Choice → Text → Time → Choice
consider c name seen =
    if is_empty c.name
    then record { name = name; at = seen }
    else if ltb seen c.at
    then record { name = name; at = seen }
    else c

-- The loop of evictChannelLocked and of evictEntryLocked: the choices among the idle and among the
-- busy entries.
module _ {ℓ} {V : Type ℓ} (busy : V → Bool) (seen : V → Time) where
  unfoldable pub scan : Choice → Choice → Dict V → Choice × Choice
  unfolding consider
  scan victim fallback [] = (victim, fallback)
  scan victim fallback ((name, v) ∷ m) =
      if busy v
      then scan victim (consider fallback name (seen v)) m
      else scan (consider victim name (seen v)) fallback m

  -- The name to delete; the empty text if there is none.
  unfoldable pub victim_of : Dict V → Text
  unfolding scan
  victim_of m =
      let none_yet : Choice = record { name = []; at = 0 } in
      let (victim, fallback) = scan none_yet none_yet m in
      if is_empty victim.name then fallback.name else victim.name

-- channelState.activeBans
unfoldable pub active_bans : Dict Entry → Time → ℕ
active_bans [] now = 0
active_bans ((addr, e) ∷ m) now = (if banned e now then 1 else 0) + active_bans m now

unfoldable pub has_bans : Time → ChannelState → Bool
unfolding active_bans
has_bans now ch = ltb 0 (active_bans ch.entries now)

-- evictChannelLocked
unfoldable pub evict_channel : Time → Registry → Registry
unfolding has_bans victim_of emit
evict_channel now r =
    let victim = victim_of (has_bans now) (λ ch. ch.last_seen_at) r.chans in
    if is_empty victim
    then r
    else emit (delete_channel victim) (record r { chans = erase victim r.chans })

abbrev pub new_channel : Time → ChannelState
new_channel now = record { entries = []; last_seen_at = now; last_ban_at = 0 }

-- channelLocked: the channel, and the registry that has it.
unfoldable pub channel_locked : Text → Time → Registry → Registry × ChannelState
unfolding evict_channel
channel_locked name now r = elim (lookup name r.chans) [
  | some ch ↦ (r, ch)
  | none ↦
      let room = if leb r.policy.max_channels (length r.chans) then evict_channel now r else r in
      (record room { chans = insert name (new_channel now) room.chans }, new_channel now)
]

-- evictEntryLocked: the entries that stay, and the effect.
unfoldable pub evict_entry : Text → Time → Dict Entry → Dict Entry × List Effect
unfolding victim_of
evict_entry channel now m =
    let victim = victim_of (λ e. banned e now) (λ e. e.last_seen_at) m in
    if is_empty victim then (m, []) else (erase victim m, delete_ban channel victim ∷ [])

abbrev pub new_entry : Time → Entry
new_entry now = record {
  counters = no_counters;
  banned_until = 0;
  ban_reason = no_reason;
  strikes = 0;
  last_ban_at = 0;
  last_seen_at = now;
  pending_reprobe = false;
}

-- entryLocked: the entry, the entries that have it, and the effects.
unfoldable pub entry_locked :
    Policy → Text → Text → Time → Dict Entry → Entry × Dict Entry × List Effect
unfolding evict_entry
entry_locked p channel addr now m = elim (lookup addr m) [
  | some e ↦ (e, m, [])
  | none ↦
      let (room, effects) =
        if leb p.max_entries_per_chan (length m) then evict_entry channel now m else (m, []) in
      (new_entry now, insert addr (new_entry now) room, effects)
]
