-- ===== src/FreeProxies/Store/Queries.antt =====
-- internal/freproxies/store.go and store_validate.go: what the store in memory is asked for.
use unified_proxy_pool.Base.{
  ℕ, ◌+◌, ◌-◌, ◌*◌, ◌^◌, ◌/◌, ◌≡◌, refl, sym, ap, ◌∙◌, Bool, true, false, not, ◌&&◌, ◌||◌, List, [],
  ◌∷◌, ◌++◌, map, ltb, leb, ◌==◌, if◌then◌else◌, Text, codes, is_empty, to_lower, trim_space,
  contains, equal_fold, Option, none, some, Time, second, is_zero, Dict, lookup, keys, length, take,
  drop, sort_by, ℤ, pos, is_le_zero, to_nat, arith,
}
use unified_proxy_pool.FreeProxies.{Proxy}
use unified_proxy_pool.FreeProxies.Score.{Ip, family}
use unified_proxy_pool.FreeProxies.Groups.{GroupRule, matches}
use unified_proxy_pool.FreeProxies.Selection.{shuffle}
use unified_proxy_pool.FreeProxies.Store.{MemoryStore}
pub mod Scan
pub mod Pages
mod Tests

-- The proxy that a missing key gives.
abbrev pub zero_proxy : Proxy
zero_proxy = record {
  addr = [];
  host = [];
  port = pos 0;
  protocol = [];
  source = [];
  ip_family = [];
  score = 0;
  latency_ms = pos 0;
  region = [];
  validated = false;
  last_check = 0;
  fail_count = 0;
  created_at = 0;
  updated_at = 0;
}

unfoldable pub proxy_at : MemoryStore → Text → Proxy
proxy_at s addr = elim (lookup addr s.proxies) [ none ↦ zero_proxy | some p ↦ p ]

abbrev pub checked_before : Proxy → Proxy → Bool
checked_before p q = ltb p.last_check q.last_check

abbrev pub created_before : Proxy → Proxy → Bool
created_before p q = ltb p.created_at q.created_at

unfoldable pub count_unchecked : List Proxy → ℕ
count_unchecked [] = 0
count_unchecked (p ∷ ps) =
    let n = count_unchecked ps in if not (is_empty p.addr) && is_zero p.last_check then n + 1 else n

-- The three queues of selectValidateRaw: never checked, due, and checked too recently.
unfoldable pub queues : Time → ℕ → List Proxy → List Proxy × List Proxy × List Proxy
queues now cooldown [] = ([], [], [])
queues now cooldown (p ∷ ps) =
    let (never, due, recent) = queues now cooldown ps in
    if is_empty p.addr
    then (never, due, recent)
    else if is_zero p.last_check
    then (p ∷ never, due, recent)
    else if cooldown == 0 || leb (p.last_check + cooldown) now
    then (never, p ∷ due, recent)
    else (never, due, p ∷ recent)

unfoldable pub select_validate_raw : List Proxy → ℤ → Time → ℕ → List Proxy
unfolding queues
select_validate_raw items limit now cooldown =
    let (never, due, recent) = queues now cooldown items in
    let out = sort_by created_before never ++ sort_by checked_before due in
    if is_le_zero limit
    then []
    else if leb (to_nat limit) (length out)
    then take (to_nat limit) out
    else out ++ take (to_nat limit - length out) (sort_by checked_before recent)

abbrev pub raw_validate_cooldown : ℕ
raw_validate_cooldown = 90 * second

-- PickRaw: the batch, the number of raw proxies and the number of those never checked.
unfoldable pub pick_raw : ℤ → Time → MemoryStore → List Proxy × ℕ × ℕ
unfolding proxy_at select_validate_raw count_unchecked keys
pick_raw limit now s =
    let all = map (proxy_at s) (keys s.raw) in
    let bound : ℤ = if is_le_zero limit then pos 200 else limit in
    (select_validate_raw all bound now raw_validate_cooldown, length all, count_unchecked all)

unfoldable pub list_validated : ℤ → MemoryStore → List Proxy
unfolding proxy_at keys
list_validated limit s =
    let bound = if is_le_zero limit then 100 else to_nat limit in
    take bound (sort_by checked_before (map (proxy_at s) (keys s.scored)))

unfoldable pub due_keys : Time → Dict Time → List Text
due_keys now [] = []
due_keys now ((addr, due) ∷ m) =
    let rest = due_keys now m in if leb due now then addr ∷ rest else rest

unfoldable pub pick_retry : ℤ → Time → MemoryStore → List Proxy × ℕ
unfolding proxy_at due_keys
pick_retry limit now s =
    let bound = if is_le_zero limit then 80 else to_nat limit in
    (take bound (sort_by checked_before (map (proxy_at s) (due_keys now s.retry))), length s.retry)

-- A latency that is not known comes last.
abbrev pub latency_or_last : Proxy → ℕ
latency_or_last p = if is_le_zero p.latency_ms then 2 ^ 30 else to_nat p.latency_ms

abbrev pub quicker : Proxy → Proxy → Bool
quicker p q =
    if not (latency_or_last p == latency_or_last q)
    then ltb (latency_or_last p) (latency_or_last q)
    else ltb q.score p.score

unfoldable pub speaking : Text → List Proxy → List Proxy
unfolding equal_fold
speaking protocol [] = []
speaking protocol (p ∷ ps) =
    let rest = speaking protocol ps in
    if not (is_empty protocol) && not (equal_fold p.protocol protocol) then rest else p ∷ rest

-- RandomN: the quickest candidates in the order of a shuffle; none is an error.
unfoldable pub random_n : List (ℕ × ℕ) → Text → ℤ → MemoryStore → Option (List Proxy)
unfolding proxy_at keys speaking shuffle
random_n swaps protocol given s =
    let n = if is_le_zero given then 1 else to_nat given in
    let candidates = speaking protocol (map (proxy_at s) (keys s.scored)) in
    let window = if ltb (n * 3) (length candidates) then n * 3 else length candidates in
    if length candidates == 0
    then none
    else some (take n (shuffle swaps (take window (sort_by quicker candidates))))

-- Random
unfoldable pub random_one : List (ℕ × ℕ) → Text → MemoryStore → Option Proxy
unfolding random_n
random_one swaps protocol s = elim (random_n swaps protocol (pos 1) s) [
  | none ↦ none
  | some [] ↦ none
  | some (p ∷ ps) ↦ some p
]

unfoldable pub recent_events : ℤ → MemoryStore → List Text
recent_events limit s =
    if is_le_zero limit || ltb (length s.events) (to_nat limit)
    then s.events
    else take (to_nat limit) s.events

-- The total, the validated and the raw proxies.
unfoldable pub count : MemoryStore → ℕ × ℕ × ℕ
count s = (length s.proxies, length s.scored, length s.raw)

-- A filter after ResolveGroupFilter: `rule` is the rule of its group.
pub record ListFilter : Type 0 where
  pub page : ℤ
  pub size : ℤ
  pub source : Text
  pub protocol : Text
  pub region : Text
  pub family : Text
  pub rule : Option GroupRule
  pub min_score : ℤ
  pub query : Text
  pub only_ok : Bool

abbrev pub max_list_page : ℕ
max_list_page = 100000

abbrev pub max_list_size : ℕ
max_list_size = 5000

-- ListFilter.Normalize: the page and the size.
abbrev pub clamp : ℕ → ℕ → ℤ → ℕ
clamp least most n = if is_le_zero n then least else if ltb most (to_nat n) then most else to_nat n

unfoldable pub normalize : ListFilter → ℕ × ℕ
normalize f = (clamp 1 max_list_page f.page, clamp 20 max_list_size f.size)

module _ (parse_ip : Text → Option Ip) where
  unfoldable pub match_list_filter : Proxy → ListFilter → Bool
  unfolding equal_fold contains to_lower family matches trim_space
  match_list_filter p f =
      let query = trim_space (to_lower f.query) in
      let hay = to_lower (
        p.addr
        ++ b' '
          ∷ (p.source ++ b' ' ∷ (p.protocol ++ b' ' ∷ (p.region ++ b' ' ∷ family parse_ip p)))) in
      let in_rule : Bool = elim f.rule [ none ↦ true | some r ↦ matches parse_ip r p ] in
      if f.only_ok && not p.validated
      then false
      else if not (is_empty f.source) && not (equal_fold p.source f.source)
      then false
      else if not (is_empty f.protocol) && not (equal_fold p.protocol f.protocol)
      then false
      else if not (is_empty f.region) && not (contains (to_lower p.region) (to_lower f.region))
      then false
      else if not (is_empty f.family) && not (equal_fold (family parse_ip p) f.family)
      then false
      else if not in_rule
      then false
      else if not (is_le_zero f.min_score) && ltb p.score (to_nat f.min_score)
      then false
      else if not (is_empty query) && not (contains hay query)
      then false
      else true

  unfoldable pub matching : ListFilter → Dict Proxy → List Proxy
  unfolding match_list_filter
  matching f [] = []
  matching f ((addr, p) ∷ m) =
      let rest = matching f m in if match_list_filter p f then p ∷ rest else rest

  -- List: the items of the page and the number of all that match. `arrange` is what sort.Slice by score
  -- makes of the matches in the order in which this call ranges over the map: another call has
  -- another order, and may leave equal scores in another order.
  unfoldable pub list : (List Proxy → List Proxy) → ListFilter → MemoryStore → List Proxy × ℕ
  unfolding matching normalize
  list arrange f s =
      let items = arrange (matching f s.proxies) in
      let (page, size) = normalize f in
      let start = (page - 1) * size in
      if leb (length items) start
      then ([], length items)
      else (take size (drop start items), length items)
