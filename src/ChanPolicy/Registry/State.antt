-- ===== src/ChanPolicy/Registry/State.antt =====
-- The state of a registry: an entry for each channel and proxy.
use unified_proxy_pool.Base.{
  ℕ, ◌+◌, ◌/◌, ◌%◌, Bool, true, ◌&&◌, not, List, [], ◌∷◌, ltb, leb, ◌==◌, if◌then◌else◌, Text,
  codes, Option, none, some, Time, is_zero, Dict, lookup, ℤ,
}
use unified_proxy_pool.ChanPolicy.Policy.{Policy, RawPolicy, normalize}
use unified_proxy_pool.ChanPolicy.Window.{Counters, num_buckets}
use unified_proxy_pool.ChanPolicy.Log.{Reason, LogEntry, LogRing, new_log_ring, default_log_cap}
use unified_proxy_pool.ChanPolicy.Rule.{Rule}

pub record Ban : Type 0 where
  pub channel : Text
  pub addr : Text
  pub reason : Reason
  pub banned_at : Time
  pub until : Time
  pub strikes : ℕ
  pub ttl_sec : ℤ
  pub pending : Bool

pub record Entry : Type 0 where
  pub counters : Counters
  pub banned_until : Time
  pub ban_reason : Reason
  pub strikes : ℕ
  pub last_ban_at : Time
  pub last_seen_at : Time
  pub pending_reprobe : Bool

-- entry.banned
unfoldable pub banned : Entry → Time → Bool
banned e now =
    if not (is_zero e.banned_until) && ltb now e.banned_until then true else e.pending_reprobe

pub record ChannelState : Type 0 where
  pub entries : Dict Entry
  pub last_seen_at : Time
  pub last_ban_at : Time

pub record Allow : Type 0 where
  pub channel : Text
  pub addr : Text
  pub reason : Text
  pub created_at : Time

-- A call of the persister or of a hook.
pub data Effect : Type 0 where
  save_outcome : LogEntry → Effect
  save_ban : Ban → Effect
  on_ban : Ban → Effect
  on_unban : Ban → Effect
  delete_ban : Text → Text → Effect
  delete_channel : Text → Effect
  save_allow : Text → Text → Text → Effect
  delete_allow : Text → Text → Effect
  save_rule : Rule → Effect
  delete_rule : Text → Effect

-- The name of a channel is its key. The trace has the newest effect first.
pub record Registry : Type 0 where
  pub chans : Dict ChannelState
  pub policy : Policy
  pub log : LogRing
  pub allows : Dict (Dict Allow)
  pub rules : List Rule
  pub trace : List Effect

-- New
unfoldable pub new : RawPolicy → Registry
new p = record {
  chans = [];
  policy = normalize p;
  log = new_log_ring default_log_cap;
  allows = [];
  rules = [];
  trace = [];
}

unfoldable pub emit : Effect → Registry → Registry
emit x r = record r { trace = x ∷ r.trace }

-- Registry.bucketSec
unfoldable pub bucket_sec : Policy → ℕ
bucket_sec p = let sec : ℕ = p.window_sec / num_buckets in if leb sec 0 then 1 else sec

-- The entry of a pair.
unfoldable pub pair : Registry → Text → Text → Option Entry
pair r channel addr = elim (lookup channel r.chans) [
  | none ↦ none
  | some ch ↦ lookup addr ch.entries
]

-- The loop of itoa, which fills a buffer with `size` bytes left from its end; none where it would
-- write in front of the buffer, which makes the program panic.
unfoldable pub write_digits : ℕ → ℕ → Text → Option Text
write_digits ℕ.zero n out = if n == 0 then some out else none
write_digits (ℕ.suc size) n out =
    let rest = write_digits size (n / 10) ((48 + n % 10) ∷ out) in if n == 0 then some out else rest

-- itoa, of a number that is not negative.
unfoldable pub itoa : ℕ → Option Text
unfolding write_digits
itoa n = if n == 0 then some (codes "0") else write_digits 8 n []
