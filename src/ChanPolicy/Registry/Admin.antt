-- ===== src/ChanPolicy/Registry/Admin.antt =====
-- What an operator and the sweeper do to a registry (internal/chanpolicy/registry.go).
pub mod Release
pub mod Protection
pub mod Sweep
pub mod Settings
use unified_proxy_pool.Base.{
  ℕ, ◌+◌, ◌-◌, ◌≡◌, Bool, true, false, ◌&&◌, ◌||◌, not, List, [], ◌∷◌, ◌++◌, arith, ltb, leb, ◌==◌,
  if◌then◌else◌, Text, text_eq, is_empty, trim_space, Option, none, some, Time, is_zero, Dict,
  lookup, insert, erase, map_values, length, pos,
}
use unified_proxy_pool.ChanPolicy.Policy.{Policy, RawPolicy, normalize, idle_reset_after}
use unified_proxy_pool.ChanPolicy.Window.{no_counters, no_data}
use unified_proxy_pool.ChanPolicy.Name.{normalize_channel_name}
use unified_proxy_pool.ChanPolicy.Log.{LogEntry, add, clear, no_reason}
use unified_proxy_pool.ChanPolicy.Rule.{Rule, RuleResult, normalize_rule}
use unified_proxy_pool.ChanPolicy.Registry.State.{
  Registry, ChannelState, Entry, Ban, Allow, Effect, banned, emit, bucket_sec, delete_ban, on_unban,
  save_allow, delete_allow, save_rule, delete_rule,
}
use unified_proxy_pool.ChanPolicy.Registry.State
use unified_proxy_pool.ChanPolicy.Registry.Evict.{channel_locked, entry_locked}
use unified_proxy_pool.ChanPolicy.Registry.Outcomes.{clean_addr}

unfoldable pub reset_counters : Entry → Entry
reset_counters e = record e { counters = no_counters }

unfoldable pub reset_channel_counters : ChannelState → ChannelState
reset_channel_counters ch = record ch { entries = map_values reset_counters ch.entries }

-- SetPolicy
unfoldable pub set_policy : RawPolicy → Registry → Registry
unfolding reset_counters reset_channel_counters
set_policy raw r =
    let p = normalize raw in
    if r.policy.window_sec == p.window_sec
    then record r { policy = p }
    else record r { policy = p; chans = map_values reset_channel_counters r.chans }

-- Puts an entry of a channel back.
unfoldable pub put_entry : Text → ChannelState → Text → Entry → Registry → Registry
put_entry channel ch addr e r = record r {
  chans = insert channel (record ch { entries = insert addr e ch.entries }) r.chans;
}

-- The entry after its ban is lifted.
unfoldable pub lifted : Entry → Entry
lifted e = record e { banned_until = 0; ban_reason = no_reason; pending_reprobe = false }

unfoldable pub unbanned : Entry → Entry
unfolding lifted
unbanned e = record (lifted e) { counters = record e.counters { consec_fails = 0 } }

unfoldable pub released_ban : Text → Text → Entry → Ban
released_ban channel addr e = record {
  channel = channel;
  addr = addr;
  reason = e.ban_reason;
  banned_at = 0;
  until = e.banned_until;
  strikes = e.strikes;
  ttl_sec = pos 0;
  pending = false;
}

-- Unban, once the entry is found.
unfoldable pub unban_entry : Text → Text → ChannelState → Entry → Registry → Registry × Bool
unfolding put_entry unbanned emit released_ban
unban_entry channel addr ch e r =
    if is_zero e.banned_until && not e.pending_reprobe then (r, false) else (
      emit (on_unban (released_ban channel addr e))
          (emit (delete_ban channel addr) (put_entry channel ch addr (unbanned e) r)),
      true,
    )

-- Unban
unfoldable pub unban : Text → Text → Registry → Registry × Bool
unfolding unban_entry
unban channel' addr' r =
    let channel = normalize_channel_name channel' in
    let addr = clean_addr addr' in
    elim (lookup channel r.chans) [
      | none ↦ (r, false)
      | some ch ↦ elim (lookup addr ch.entries) [
        | none ↦ (r, false)
        | some e ↦ unban_entry channel addr ch e r
      ]
    ]

-- ResetChannel
unfoldable pub reset_channel : Text → Registry → Registry × Bool
unfolding emit
reset_channel channel' r =
    let channel = normalize_channel_name channel' in
    elim (lookup channel r.chans) [
      | none ↦ (r, false)
      | some ch ↦ (
        emit (State.delete_channel channel) (record r {
          chans = insert channel (record ch { entries = []; last_ban_at = 0 }) r.chans;
        }),
        true,
      )
    ]

-- DeleteChannel
unfoldable pub delete_channel : Text → Registry → Registry × Bool
unfolding emit
delete_channel channel' r =
    let channel = normalize_channel_name channel' in
    elim (lookup channel r.chans) [
      | none ↦ (r, false)
      | some ch ↦
          (emit (State.delete_channel channel) (record r { chans = erase channel r.chans }), true)
    ]

-- What Sweep keeps: bans, pairs seen lately, and pairs with an outcome in the window.
unfoldable pub is_kept : Policy → Time → Entry → Bool
is_kept p now e =
    if banned e now
    then true
    else if not (is_zero e.last_seen_at) && ltb (now - e.last_seen_at) (idle_reset_after p)
    then true
    else not (no_data e.counters now (bucket_sec p))

-- The inner loop of Sweep.
unfoldable pub sweep_entries : Policy → Text → Time → Dict Entry → Dict Entry × List Effect
unfolding is_kept
sweep_entries p channel now [] = ([], [])
sweep_entries p channel now ((addr, e) ∷ m) =
    let rest = sweep_entries p channel now m in
    if is_kept p now e
    then ((addr, e) ∷ rest.0, rest.1)
    else (rest.0, rest.1 ++ delete_ban channel addr ∷ [])

unfoldable pub is_gone : Policy → Time → ChannelState → Bool
is_gone p now ch = length ch.entries == 0 && ltb (idle_reset_after p) (now - ch.last_seen_at)

-- The outer loop of Sweep.
unfoldable pub sweep_channels : Policy → Time → Dict ChannelState → Dict ChannelState × List Effect
unfolding sweep_entries is_gone
sweep_channels p now [] = ([], [])
sweep_channels p now ((name, ch) ∷ m) =
    let (entries, effects) = sweep_entries p name now ch.entries in
    let ch' = record ch { entries = entries } in
    let rest = sweep_channels p now m in
    if is_gone p now ch'
    then (rest.0, rest.1 ++ effects)
    else ((name, ch') ∷ rest.0, rest.1 ++ effects)

-- Sweep
unfoldable pub sweep : Time → Registry → Registry
unfolding sweep_channels
sweep now r =
    let (chans, effects) = sweep_channels r.policy now r.chans in
    record r { chans = chans; trace = effects ++ r.trace }

-- The release of a pair in one channel, if it is there.
unfoldable pub release_entry : Text → ChannelState → ChannelState
unfolding lifted
release_entry addr ch = elim (lookup addr ch.entries) [
  | none ↦ ch
  | some e ↦ record ch { entries = insert addr (lifted e) ch.entries }
]

unfoldable pub or_empty {ℓ} : {V : Type ℓ} → Option (Dict V) → Dict V
or_empty none = []
or_empty (some m) = m

unfoldable pub put_allow : Allow → Text → Text → Dict (Dict Allow) → Dict (Dict Allow)
unfolding or_empty
put_allow a channel addr allows =
    insert channel (insert addr a (or_empty (lookup channel allows))) allows

-- The release of a pair that is now protected: in its channel, or in all.
unfoldable pub release_pair : Text → Text → Dict ChannelState → Dict ChannelState
unfolding release_entry
release_pair channel addr chans =
    let own : Dict ChannelState = elim (lookup channel chans) [
      | none ↦ chans
      | some ch ↦ insert channel (release_entry addr ch) chans
    ] in
    if is_empty channel then map_values (release_entry addr) own else own

-- Allow
unfoldable pub allow : Text → Text → Text → Time → Registry → Registry
unfolding put_allow release_pair emit
allow channel' addr' reason now r =
    let addr = clean_addr addr' in
    let channel = normalize_channel_name channel' in
    if is_empty addr
    then r
    else let a : Allow = record {
      channel = channel;
      addr = addr;
      reason = reason;
      created_at = now;
    } in
      emit (delete_ban channel addr) (
        emit (save_allow channel addr reason) (record r {
          allows = put_allow a channel addr r.allows;
          chans = release_pair channel addr r.chans;
        }))

-- Deny
unfoldable pub deny : Text → Text → Registry → Registry × Bool
unfolding emit
deny channel' addr' r =
    let addr = clean_addr addr' in
    let channel = normalize_channel_name channel' in
    elim (lookup channel r.allows) [
      | none ↦ (r, false)
      | some m ↦
          let r1 = record r { allows = insert channel (erase addr m) r.allows } in
          elim (lookup addr m) [
            | none ↦ (r1, false)
            | some a ↦ (emit (delete_allow channel addr) r1, true)
          ]
    ]
