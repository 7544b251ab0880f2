-- ===== src/FreeProxies/Store.antt =====
-- internal/freproxies/store.go and store_validate.go: the store in memory, which serves where Redis is
-- not there. Every operation holds the store's lock. The groups are a map of their own in Groups, the yields of sources in Tune.Yields; statistics of scrapers
-- are left out; the Redis store only sends commands.
use mathlib.Core.List.{reverse}
use unified_proxy_pool.Base.{
  ℕ, zero, suc, ◌+◌, ◌-◌, ◌*◌, ◌/◌, ◌%◌, ◌≤◌, Bool, true, false, not, ◌&&◌, ◌||◌, List, [], ◌∷◌,
  ◌++◌, map, ltb, leb, ◌==◌, if◌then◌else◌, Text, codes, text_eq, is_empty, trim_space, equal_fold,
  Option, none, some, Time, second, is_zero, unix_epoch, Dict, lookup, insert, erase, keys,
  erase_all, has, length, take, sort_by, ℤ, is_le_zero, to_nat,
}
use unified_proxy_pool.FreeProxies.{Proxy}
use unified_proxy_pool.FreeProxies.Score.{
  Ip, v4, v6, point, score_init, quality_score, smooth_latency, blend_score, detect_family,
}
pub mod Queries
pub mod Stages
pub mod Calls
pub mod Caps
mod Tests

abbrev pub max_raw_proxies : ℕ
max_raw_proxies = 4000

abbrev pub max_validated_proxies : ℕ
max_validated_proxies = 2000

abbrev pub max_retry_proxies : ℕ
max_retry_proxies = 1500

abbrev pub fail_delete_after : ℕ
fail_delete_after = 2

pub record MemoryStore : Type 0 where
  pub proxies : Dict Proxy
  pub raw : Dict (Unit {0})
  pub retry : Dict Time
  pub scored : Dict (Unit {0})
  pub disabled : Dict (Unit {0})
  pub enabled : Dict (Unit {0})
  pub events : List Text
  pub dirty : Bool

unfoldable pub new_memory_store : MemoryStore
new_memory_store = record {
  proxies = [];
  raw = [];
  retry = [];
  scored = [];
  disabled = [];
  enabled = [];
  events = [];
  dirty = false;
}

-- strconv.Itoa of a number below 10 ^ digits, before the text `rest`.
unfoldable pub write_decimal : ℕ → ℕ → Text → Text
write_decimal zero n rest = rest
write_decimal (suc digits) n rest =
    let more = write_decimal digits (n / 10) ((b'0' + n % 10) ∷ rest) in
    if ltb n 10 then (b'0' + n) ∷ rest else more

-- strings.Trim(host, "[]")
unfoldable pub trim_brackets_left : Text → Text
trim_brackets_left [] = []
trim_brackets_left (c ∷ s) =
    let rest = trim_brackets_left s in if c == b'[' || c == b']' then rest else c ∷ s

unfoldable pub trim_brackets : Text → Text
unfolding trim_brackets_left
trim_brackets s = reverse (trim_brackets_left (reverse (trim_brackets_left s)))

-- A host with a colon or a percent sign is put in brackets by net.JoinHostPort.
unfoldable pub needs_brackets : Text → Bool
needs_brackets [] = false
needs_brackets (c ∷ s) = c == b':' || c == b'%' || needs_brackets s

unfoldable pub join_host_port : Text → Text → Text
unfolding needs_brackets
join_host_port host port =
    if needs_brackets host then b'[' ∷ (host ++ b']' ∷ b':' ∷ port) else host ++ b':' ∷ port

abbrev pub text_of : Ip → Text
text_of (v4 t) = t
text_of (v6 t) = t

-- normalizeAddr; a port has five digits at most.
unfoldable pub normalize_addr : (Text → Option Ip) → Text → ℤ → Text
unfolding trim_space trim_brackets join_host_port write_decimal
normalize_addr parse_ip given port =
    let host = trim_space given in
    let canonical : Text = elim (parse_ip (trim_brackets host)) [
      | none ↦ host
      | some ip ↦ text_of ip
    ] in
    if is_empty host || is_le_zero port || ltb 65535 (to_nat port)
    then []
    else join_host_port canonical (write_decimal 5 (to_nat port) [])

-- s.proxies[addr].CreatedAt, for any address.
unfoldable pub created_of : Dict Proxy → Text → Time
created_of m addr = elim (lookup addr m) [ none ↦ 0 | some p ↦ p.created_at ]

unfoldable pub score_of : Dict Proxy → Text → ℕ
score_of m addr = elim (lookup addr m) [ none ↦ 0 | some p ↦ p.score ]

unfoldable pub due_of : Dict Time → Text → Time
due_of m addr = elim (lookup addr m) [ none ↦ 0 | some t ↦ t ]

unfoldable pub oldest_first : Dict Proxy → Text → Text → Bool
oldest_first m a b = ltb (created_of m a) (created_of m b)

unfoldable pub lowest_first : Dict Proxy → Text → Text → Bool
lowest_first m a b = ltb (score_of m a) (score_of m b)

unfoldable pub latest_first : Dict Time → Text → Text → Bool
latest_first m a b = ltb (due_of m b) (due_of m a)

-- Deletion of addresses from all four maps.
unfoldable pub forget : List Text → MemoryStore → MemoryStore
unfolding erase_all
forget addrs s = record s {
  proxies = erase_all addrs s.proxies;
  raw = erase_all addrs s.raw;
  retry = erase_all addrs s.retry;
  scored = erase_all addrs s.scored;
}

-- The trim at the end of AddRaw, from two of the maps.
unfoldable pub cut_raw : MemoryStore → MemoryStore
unfolding erase_all keys
cut_raw s =
    let drops =
      take (length s.raw - max_raw_proxies) (sort_by (oldest_first s.proxies) (keys s.raw)) in
    record s { proxies = erase_all drops s.proxies; raw = erase_all drops s.raw }

module _ (parse_ip : Text → Option Ip) where
  -- The fields that AddRaw fills in.
  unfoldable pub filled : Text → Time → Proxy → Proxy
  unfolding detect_family
  filled addr now p = record p {
    addr = addr;
    protocol = if is_empty p.protocol then codes "http" else p.protocol;
    score = if p.score == 0 then score_init else p.score;
    ip_family = if is_empty p.ip_family then detect_family parse_ip p.host else p.ip_family;
    created_at = now;
    updated_at = now;
  }

  -- A turn of AddRaw's loop: the proxy is refused, or it is added.
  unfoldable pub add_one : Time → Proxy → MemoryStore → MemoryStore × Bool
  unfolding filled normalize_addr
  add_one now p s =
      let addr = normalize_addr parse_ip p.host p.port in
      if is_empty addr
        || has addr s.proxies
        || (leb max_raw_proxies (length s.raw) && ltb 50 (length s.scored))
      then (s, false)
      else (
        record s {
          proxies = insert addr (filled addr now p) s.proxies;
          raw = insert addr tt s.raw;
        },
        true,
      )

  unfoldable pub add_each : Time → List Proxy → MemoryStore → MemoryStore × ℕ
  unfolding add_one
  add_each now [] s = (s, 0)
  add_each now (p ∷ ps) s =
      let (s1, one) = add_one now p s in
      let (s2, more) = add_each now ps s1 in (s2, if one then 1 + more else more)

  unfoldable pub add_raw : List Proxy → Time → MemoryStore → MemoryStore × ℕ
  unfolding add_each cut_raw
  add_raw ps now s =
      let (s1, added) = add_each now ps s in
      let s2 = cut_raw s1 in (if ltb 0 added then record s2 { dirty = true } else s2, added)

unfoldable pub get : Text → MemoryStore → Option Proxy
get addr s = lookup addr s.proxies

unfoldable pub delete : Text → MemoryStore → MemoryStore
delete addr s = record s {
  proxies = erase addr s.proxies;
  raw = erase addr s.raw;
  retry = erase addr s.retry;
  scored = erase addr s.scored;
  dirty = true;
}

-- retryDueUnix, as the time of the whole second.
unfoldable pub retry_due : ℕ → Time → Time
retry_due fail_count now =
    (now + (if leb 2 fail_count then 900 else 300) * second) / second * second

-- The proxy after a check that succeeded.
unfoldable pub passed : ℤ → Time → Proxy → Proxy
unfolding smooth_latency quality_score blend_score
passed latency_ms now p =
    let latency = smooth_latency p.latency_ms latency_ms in
    let quality = quality_score latency in
    record p {
      last_check = now;
      updated_at = now;
      latency_ms = latency;
      validated = true;
      score = if p.validated then blend_score p.score quality else quality;
      fail_count = 0;
    }

-- The proxy after a check that failed; the score stops at 0.
unfoldable pub failed : ℤ → Time → Proxy → Proxy
unfolding smooth_latency
failed latency_ms now p = record p {
  last_check = now;
  updated_at = now;
  latency_ms = smooth_latency p.latency_ms latency_ms;
  validated = false;
  score = p.score - point;
  fail_count = p.fail_count + 1;
}

-- The maps after a check that succeeded, and after one whose address is kept for a retry.
unfoldable pub accept : Text → Proxy → MemoryStore → MemoryStore
accept addr p s = record s {
  proxies = insert addr p s.proxies;
  raw = erase addr s.raw;
  retry = erase addr s.retry;
  scored = insert addr tt s.scored;
  dirty = true;
}

unfoldable pub park : Text → Proxy → Time → MemoryStore → MemoryStore
park addr p due s = record s {
  proxies = insert addr p s.proxies;
  raw = erase addr s.raw;
  scored = erase addr s.scored;
  retry = insert addr due s.retry;
  dirty = true;
}

-- Whether a failed address is deleted.
unfoldable pub gives_up : Bool → Proxy → Bool
gives_up was_live q = not was_live || leb fail_delete_after q.fail_count || q.score == 0

unfoldable pub mark_known : Text → ℤ → Bool → Time → Proxy → MemoryStore → MemoryStore
mark_known addr latency_ms ok now p s =
    let q = failed latency_ms now p in
    if ok
    then accept addr (passed latency_ms now p) s
    else if gives_up p.validated q
    then delete addr s
    else park addr q (retry_due q.fail_count now) s

-- The flag is whether the address was found.
unfoldable pub mark_validated : Text → ℤ → Bool → Time → MemoryStore → MemoryStore × Bool
unfolding mark_known
mark_validated addr latency_ms ok now s = elim (lookup addr s.proxies) [
  | none ↦ (s, false)
  | some p ↦ (mark_known addr latency_ms ok now p s, true)
]

unfoldable pub purge_retry : MemoryStore → MemoryStore × ℕ
unfolding forget keys
purge_retry s =
    let n = length s.retry in
    let s1 = forget (keys s.retry) s in (if ltb 0 n then record s1 { dirty = true } else s1, n)

unfoldable pub trim_raw : MemoryStore → MemoryStore
unfolding forget keys oldest_first
trim_raw s =
    forget (take (length s.raw - max_raw_proxies) (sort_by (oldest_first s.proxies) (keys s.raw))) s

unfoldable pub trim_scored : MemoryStore → MemoryStore
unfolding forget keys lowest_first
trim_scored s =
    forget
      (take (length s.scored - max_validated_proxies)
        (sort_by (lowest_first s.proxies) (keys s.scored)))
      s

unfoldable pub trim_retry : MemoryStore → MemoryStore
unfolding forget keys latest_first
trim_retry s =
    forget
      (take (length s.retry - max_retry_proxies) (sort_by (latest_first s.retry) (keys s.retry))) s

unfoldable pub trim : MemoryStore → MemoryStore
unfolding trim_raw trim_scored trim_retry
trim s = record (trim_retry (trim_scored (trim_raw s))) { dirty = true }

unfoldable pub set_scraper_enabled : Text → Bool → MemoryStore → MemoryStore
set_scraper_enabled name on s =
    if on
    then record s {
      disabled = erase name s.disabled;
      enabled = insert name tt s.enabled;
      dirty = true;
    }
    else record s {
      enabled = erase name s.enabled;
      disabled = insert name tt s.disabled;
      dirty = true;
    }

unfoldable pub is_scraper_enabled : Text → Bool → MemoryStore → Bool
is_scraper_enabled name default_enabled s =
    if has name s.disabled then false else if has name s.enabled then true else default_enabled

-- `line` is the message with its time.
unfoldable pub push_event : Text → MemoryStore → MemoryStore
push_event line s = record s { events = take 50 (line ∷ s.events) }

unfoldable pub update_region : Text → Text → Time → MemoryStore → Option MemoryStore
update_region addr region now s = elim (lookup addr s.proxies) [
  | none ↦ none
  | some p ↦ some (record s {
    proxies = insert addr (record p { region = region; updated_at = now }) s.proxies;
    dirty = true;
  })
]
