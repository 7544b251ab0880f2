-- ===== src/ChanPolicy/Registry/Outcomes.antt =====
-- Record: one outcome is counted, and may lead to a ban.
pub mod Updated
pub mod Laws
pub mod Bans
pub mod Protected
use unified_proxy_pool.Base.{
  ℕ, ◌≡◌, Bool, true, false, ◌&&◌, not, List, [], ◌∷◌, ◌++◌, arith, if◌then◌else◌, Text, is_empty,
  to_lower, trim_space, Option, none, some, Time, Dict, insert,
}
use unified_proxy_pool.ChanPolicy.Policy.{Policy, window}
use unified_proxy_pool.ChanPolicy.Window.{record_outcome}
use unified_proxy_pool.ChanPolicy.Name.{normalize_channel_name, default_channel}
use unified_proxy_pool.ChanPolicy.Log.{LogEntry, add, no_reason}
use unified_proxy_pool.ChanPolicy.Rule.{Outcome}
use unified_proxy_pool.ChanPolicy.Registry.State.{
  Registry, ChannelState, Entry, Ban, Effect, save_outcome, save_ban, on_ban, emit, bucket_sec,
}
use unified_proxy_pool.ChanPolicy.Registry.Evict.{channel_locked, entry_locked}
use unified_proxy_pool.ChanPolicy.Registry.Evaluate.{evaluate, is_timeout}

-- strings.ToLower(strings.TrimSpace(addr))
unfoldable pub clean_addr : Text → Text
clean_addr addr = to_lower (trim_space addr)

unfoldable pub clean_channel : Text → Text
clean_channel channel =
    let c = normalize_channel_name channel in if is_empty c then default_channel else c

-- The entry after the outcome is counted. A success ends the wait of an expired ban.
unfoldable pub observe : Policy → Entry → Outcome → Time → Entry
observe p e o now =
    let counters = record_outcome e.counters now (bucket_sec p) o.ok (is_timeout o) (window p) in
    if o.ok && e.pending_reprobe
    then record e {
      counters = counters;
      last_seen_at = now;
      pending_reprobe = false;
      banned_until = 0;
      ban_reason = no_reason;
    }
    else record e { counters = counters; last_seen_at = now }

unfoldable pub log_entry : Outcome → Text → Text → Time → Option Ban → LogEntry
log_entry o channel addr now ban = record {
  at = now;
  channel = channel;
  addr = addr;
  ok = o.ok;
  status = o.status;
  err = o.err;
  latency_ms = o.latency_ms;
  reported = o.reported;
  banned = elim ban [ none ↦ false | some b ↦ true ];
  reason = elim ban [ none ↦ no_reason | some b ↦ b.reason ];
}

unfoldable pub emit_ban : Option Ban → Registry → Registry
unfolding emit
emit_ban none r = r
emit_ban (some b) r = emit (on_ban b) (emit (save_ban b) r)

-- The log and the calls that follow the change of the maps.
unfoldable pub announce : Outcome → Text → Text → Time → Option Ban → Registry → Registry
unfolding log_entry emit emit_ban
announce o channel addr now ban r =
    let line = log_entry o channel addr now ban in
    emit_ban ban (emit (save_outcome line) (record r { log = add r.log line }))

-- The change of the maps, under the lock, for a clean channel and address.
unfoldable pub update_pair : Outcome → Text → Text → Time → Registry → Registry × Option Ban
unfolding channel_locked entry_locked observe
update_pair o channel addr now r =
    let (r1, ch) = channel_locked channel now r in
    let (e, entries, effects) = entry_locked r.policy channel addr now ch.entries in
    let seen = observe r.policy e o now in
    elim (evaluate r.policy r.rules r.allows channel addr seen o now) [
      | none ↦ (
        record r1 {
          chans =
              insert channel (record ch { entries = insert addr seen entries; last_seen_at = now })
                r1.chans;
          trace = effects ++ r1.trace;
        },
        none,
      )
      | some (out, ban) ↦ (
        record r1 {
          chans =
              insert channel
                (record {
                  entries = insert addr out entries;
                  last_seen_at = now;
                  last_ban_at = now;
                })
                r1.chans;
          trace = effects ++ r1.trace;
        },
        some ban,
      )
    ]

-- The part of Record behind its early returns.
unfoldable pub count_outcome : Outcome → Text → Text → Time → Registry → Registry × Option Ban
unfolding update_pair announce
count_outcome o channel addr now r =
    let (r1, ban) = update_pair o channel addr now r in (announce o channel addr now ban r1, ban)

-- Registry.Record
unfoldable pub record_outcome_of : Outcome → Time → Registry → Registry × Option Ban
unfolding clean_addr clean_channel count_outcome
record_outcome_of o now r =
    let addr = clean_addr o.addr in
    if is_empty addr
    then (r, none)
    else if not r.policy.enabled
    then (r, none)
    else count_outcome o (clean_channel o.channel) addr now r
