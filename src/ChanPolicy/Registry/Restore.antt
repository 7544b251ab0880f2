-- ===== src/ChanPolicy/Registry/Restore.antt =====
-- What the start of the program takes over: Restore (internal/chanpolicy/store.go), RestoreAllows,
-- RestoreLogs, RestoreRules; and ClearLogs.
use unified_proxy_pool.Base.{
  ℕ, ◌+◌, ◌&&◌, ◌||◌, not, List, [], ◌∷◌, ◌++◌, ltb, if◌then◌else◌, Text, is_empty, Time, is_zero,
  insert,
}
use unified_proxy_pool.ChanPolicy.Name.{normalize_channel_name}
use unified_proxy_pool.ChanPolicy.Log.{LogEntry, add, clear}
use unified_proxy_pool.ChanPolicy.Rule.{Rule}
use unified_proxy_pool.ChanPolicy.Registry.State.{Registry, Ban, Allow}
use unified_proxy_pool.ChanPolicy.Registry.Evict.{channel_locked, entry_locked}
use unified_proxy_pool.ChanPolicy.Registry.Outcomes.{clean_addr}
use unified_proxy_pool.ChanPolicy.Registry.Admin.{put_allow}

-- The body of Restore's loop, for a ban that has not run out.
unfoldable pub restore_ban : Ban → Text → Time → Registry → Registry
unfolding channel_locked entry_locked
restore_ban b channel now r =
    let (r1, ch) = channel_locked channel now r in
    let (e, entries, effects) = entry_locked r.policy channel b.addr now ch.entries in
    let e' = record e {
      banned_until = b.until;
      ban_reason = b.reason;
      strikes = b.strikes;
      last_ban_at = b.banned_at;
    } in
    record r1 {
      chans =
          insert channel
            (record ch {
              entries = insert b.addr e' entries;
              last_ban_at = if ltb ch.last_ban_at b.until then b.banned_at else ch.last_ban_at;
            })
            r1.chans;
      trace = effects ++ r1.trace;
    }

-- Restore; the number is that of the bans taken over.
unfoldable pub restore : List Ban → Time → Registry → Registry × ℕ
unfolding restore_ban
restore [] now r = (r, 0)
restore (b ∷ bs) now r =
    let channel = normalize_channel_name b.channel in
    let taken = not (is_zero b.until || not (ltb now b.until)) && not (is_empty channel) in
    let (r', n) = restore bs now (if taken then restore_ban b channel now r else r) in
    (r', if taken then n + 1 else n)

-- RestoreAllows
unfoldable pub restore_allows : List Allow → Registry → Registry
unfolding put_allow
restore_allows [] r = r
restore_allows (a ∷ as') r =
    let addr = clean_addr a.addr in
    restore_allows as' (
      if is_empty addr
      then r
      else record r { allows = put_allow a (normalize_channel_name a.channel) addr r.allows })

-- RestoreLogs
unfoldable pub restore_logs : List LogEntry → Registry → Registry
restore_logs [] r = r
restore_logs (e ∷ es) r = restore_logs es (record r { log = add r.log e })

-- ClearLogs
unfoldable pub clear_logs : Registry → Registry
clear_logs r = record r { log = clear r.log }

-- RestoreRules
unfoldable pub restore_rules : List Rule → Registry → Registry
restore_rules items r = record r { rules = items }
