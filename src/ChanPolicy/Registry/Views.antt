-- ===== src/ChanPolicy/Registry/Views.antt =====
-- What the rest of the program reads of a registry.
pub mod Banned
pub mod BanSet
use unified_proxy_pool.Base.{
  ℕ, ◌+◌, ◌-◌, ◌*◌, ◌/◌, ◌≡◌, Bool, true, false, ◌&&◌, ◌||◌, not, List, [], ◌∷◌, ◌++◌, arith, ltb,
  leb, ◌==◌, if◌then◌else◌, Text, text_eq, is_empty, to_lower, Option, none, some, Time, is_zero,
  Dict, lookup, length, seconds_between, sort_by, text_lt,
}
use unified_proxy_pool.ChanPolicy.Policy.{Policy}
use unified_proxy_pool.ChanPolicy.Window.{sum}
use unified_proxy_pool.ChanPolicy.Name.{normalize_channel_name, normalize_target}
use unified_proxy_pool.ChanPolicy.Log.{LogEntry, list}
use unified_proxy_pool.ChanPolicy.Registry.State.{
  Registry, ChannelState, Entry, Ban, Allow, banned, bucket_sec,
}
use unified_proxy_pool.ChanPolicy.Registry.Evict.{active_bans}

-- Banned
unfoldable pub is_banned : Registry → Text → Text → Time → Bool
is_banned r channel addr now =
    if is_empty channel || is_empty addr
    then false
    else if not r.policy.enabled
    then false
    else elim (lookup channel r.chans) [
      | none ↦ false
      | some ch ↦ elim (lookup (to_lower addr) ch.entries) [ none ↦ false | some e ↦ banned e now ]
    ]

-- The loop of BanSet.
unfoldable pub banned_until_of : Time → Dict Entry → Dict Time
banned_until_of now [] = []
banned_until_of now ((addr, e) ∷ m) =
    if banned e now then (addr, e.banned_until) ∷ banned_until_of now m else banned_until_of now m

-- BanSet; a nil map is an empty one.
unfoldable pub ban_set : Registry → Text → Time → Dict Time
unfolding banned_until_of
ban_set r channel now =
    if is_empty channel
    then []
    else if not r.policy.enabled
    then []
    else elim (lookup channel r.chans) [ none ↦ [] | some ch ↦ banned_until_of now ch.entries ]

unfoldable pub ban_of : Text → Time → Text → Entry → Ban
unfolding seconds_between
ban_of channel now addr e = record {
  channel = channel;
  addr = addr;
  reason = e.ban_reason;
  banned_at = e.last_ban_at;
  until = e.banned_until;
  strikes = e.strikes;
  ttl_sec = seconds_between e.banned_until e.last_ban_at;
  pending = e.pending_reprobe && (is_zero e.banned_until || not (ltb now e.banned_until));
}

unfoldable pub active_list : Text → Time → Dict Entry → List Ban
unfolding ban_of
active_list channel now [] = []
active_list channel now ((addr, e) ∷ m) =
    if banned e now
    then ban_of channel now addr e ∷ active_list channel now m
    else active_list channel now m

-- Bans, soonest expiry first.
unfoldable pub bans : Registry → Text → Time → List Ban
unfolding active_list
bans r channel' now =
    let channel = normalize_channel_name channel' in
    elim (lookup channel r.chans) [
      | none ↦ []
      | some ch ↦ sort_by (λ a b. ltb a.until b.until) (active_list channel now ch.entries)
    ]

pub record ChannelStat : Type 0 where
  pub name : Text
  pub ok : ℕ
  pub fail : ℕ
  pub timeout : ℕ
  pub bans : ℕ
  pub entries : ℕ
  pub last_outcome_at : Time
  pub last_ban_at : Time

-- The inner loop of Channels.
unfoldable pub add_entries : ℕ → Time → Dict Entry → ChannelStat → ChannelStat
add_entries sec now [] st = st
add_entries sec now ((addr, e) ∷ m) st =
    let s = sum e.counters now sec in
    add_entries sec now m (record st {
      ok = st.ok + s.ok;
      fail = st.fail + s.fail;
      timeout = st.timeout + s.timeout;
      bans = if banned e now then st.bans + 1 else st.bans;
    })

unfoldable pub stat_of : ℕ → Time → Text → ChannelState → ChannelStat
unfolding add_entries
stat_of sec now name ch = add_entries sec now ch.entries (record {
  name = name;
  ok = 0;
  fail = 0;
  timeout = 0;
  bans = 0;
  entries = length ch.entries;
  last_outcome_at = ch.last_seen_at;
  last_ban_at = ch.last_ban_at;
})

-- The fail rate of a is above that of b, as an order of fractions; a rate without outcomes is 0.
unfoldable pub rate_above : ChannelStat → ChannelStat → Bool
rate_above a b =
    ltb (b.fail * (a.ok + a.fail)) (a.fail * (b.ok + b.fail)) || (ltb 0 a.fail && b.fail == 0)

-- The order of Channels: most bans, then the worst rate, then the name.
unfoldable pub worse : ChannelStat → ChannelStat → Bool
unfolding rate_above
worse a b =
    if not (a.bans == b.bans)
    then ltb b.bans a.bans
    else if rate_above a b
    then true
    else if rate_above b a
    then false
    else text_lt a.name b.name

unfoldable pub all_stats : ℕ → Time → Dict ChannelState → List ChannelStat
unfolding stat_of
all_stats sec now [] = []
all_stats sec now ((name, ch) ∷ m) = stat_of sec now name ch ∷ all_stats sec now m

-- Channels
unfoldable pub channels : Registry → Time → List ChannelStat
unfolding all_stats worse
channels r now = sort_by worse (all_stats (bucket_sec r.policy) now r.chans)

unfoldable pub all_bans : Time → Dict ChannelState → ℕ
all_bans now [] = 0
all_bans now ((name, ch) ∷ m) = active_bans ch.entries now + all_bans now m

-- Totals
unfoldable pub totals : Registry → Time → ℕ × ℕ
unfolding all_bans
totals r now = (length r.chans, all_bans now r.chans)

-- Logs
unfoldable pub logs : Registry → Text → ℕ → List LogEntry
logs r channel limit =
    list r.log (if is_empty channel then channel else normalize_channel_name channel) limit

unfoldable pub all_values : Dict (Dict Allow) → List Allow
all_values [] = []
all_values ((c, []) ∷ m) = all_values m
all_values ((c, (addr, a) ∷ l) ∷ m) = a ∷ all_values ((c, l) ∷ m)

-- Allows, by channel and address.
unfoldable pub allows_of : Registry → List Allow
unfolding all_values
allows_of r =
    sort_by
      (λ a b.
        if text_eq a.channel b.channel then text_lt a.addr b.addr else text_lt a.channel b.channel)
      (all_values r.allows)

-- ChannelFor
unfoldable pub channel_for : (Text → Option Text) → Registry → Text → Text
channel_for etld1 r target =
    if not r.policy.enabled then [] else normalize_target etld1 target r.policy.key_mode
