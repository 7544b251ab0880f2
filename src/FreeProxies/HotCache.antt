-- ===== src/FreeProxies/HotCache.antt =====
-- internal/freproxies/hotcache.go: the snapshot of validated proxies that dialing picks from. The
-- store's answer and the random order (rand.Shuffle) are arguments.
use unified_proxy_pool.Base.{
  ℕ, ◌+◌, ◌-◌, ◌*◌, Bool, true, false, not, ◌&&◌, ◌||◌, List, [], ◌∷◌, arith, ltb, leb, ◌==◌,
  if◌then◌else◌, Text, text_eq, is_empty, to_lower, contains, equal_fold, before_last, Option, none,
  some, Time, second, length, take, ℤ, is_le_zero, to_nat,
}
use unified_proxy_pool.FreeProxies.{Proxy}
pub mod Picks

pub record HotCache : Type 0 where
  pub items : List Proxy
  pub updated : Time
  pub ttl : ℕ
  pub size : ℕ

unfoldable pub new_hot_cache : ℤ → ℤ → HotCache
new_hot_cache size refresh = record {
  items = [];
  updated = 0;
  ttl = if ltb (to_nat refresh) second then 3 * second else to_nat refresh;
  size = if ltb (to_nat size) 32 then 64 else to_nat size;
}

-- `listed` is the answer of the store, none for an error.
unfoldable pub refresh : Option (List Proxy) → Time → HotCache → HotCache
refresh none now h = h
refresh (some items) now h = record h { items = items; updated = now }

unfoldable pub without : Text → List Proxy → List Proxy
without addr [] = []
without addr (p ∷ ps) = let rest = without addr ps in if text_eq p.addr addr then rest else p ∷ rest

unfoldable pub invalidate : Text → HotCache → HotCache
unfolding without
invalidate addr h = if is_empty addr then h else record h { items = without addr h.items }

-- A region that is not known fits every wish.
unfoldable pub region_fits : Text → Text → Bool
unfolding to_lower contains
region_fits wanted region =
    is_empty wanted || is_empty region || contains (to_lower region) (to_lower wanted)

unfoldable pub protocol_fits : Text → Text → Bool
unfolding equal_fold
protocol_fits wanted protocol = is_empty wanted || equal_fold protocol wanted

unfoldable pub filtered : Text → Text → List Proxy → List Proxy
unfolding region_fits protocol_fits
filtered protocol region [] = []
filtered protocol region (p ∷ ps) =
    let rest = filtered protocol region ps in
    if protocol_fits protocol p.protocol && region_fits region p.region then p ∷ rest else rest

unfoldable pub or_all : List Proxy → List Proxy → List Proxy
or_all [] all = all
or_all (p ∷ ps) all = p ∷ ps

unfoldable pub pick : (List Proxy → List Proxy) → HotCache → ℤ → Text → Text → List Proxy
unfolding filtered or_all
pick shuffle h n protocol region =
    take (if is_le_zero n then 1 else to_nat n)
      (shuffle (or_all (filtered protocol region h.items) h.items))

-- `p.Host`, or else the address up to its last colon.
unfoldable pub host_of_proxy : Proxy → Text
unfolding before_last
host_of_proxy p =
    if not (is_empty p.host)
    then p.host
    else elim (before_last b':' p.addr) [ none ↦ p.addr | some [] ↦ p.addr | some (c ∷ s) ↦ c ∷ s ]

unfoldable pub is_seen : Text → List Text → Bool
is_seen t [] = false
is_seen t (s ∷ ss) = text_eq s t || is_seen t ss

-- What the caller wants of the first and of the last proxy.
pub record Ends : Type 0 where
  pub distinct_region : Bool
  pub entry_protocol : Text
  pub exit_protocol : Text
  pub entry_region : Text
  pub exit_region : Text

module _ (w : Ends) (n : ℕ) where
  -- The tests of the loop, for a proxy that would come after `idx` others.
  unfoldable pub takes : ℕ → List Text → List Text → Proxy → Bool
  unfolding is_seen protocol_fits region_fits host_of_proxy to_lower
  takes idx hosts regions p =
      not (is_seen (host_of_proxy p) hosts)
      && not (
          w.distinct_region
          && not (is_empty p.region)
          && is_seen (to_lower p.region) regions
          && ltb 0 idx)
      && not (idx == 0 && not (protocol_fits w.entry_protocol p.protocol))
      && not (idx + 1 == n && ltb 1 n && not (protocol_fits w.exit_protocol p.protocol))
      && not (idx == 0 && not (region_fits w.entry_region p.region))
      && not (idx + 1 == n && ltb 1 n && not (region_fits w.exit_region p.region))

  -- The loop: `idx` proxies are chosen, with these hosts and regions.
  unfoldable pub choose : ℕ → List Text → List Text → List Proxy → List Proxy
  unfolding takes host_of_proxy to_lower
  choose idx hosts regions [] = []
  choose idx hosts regions (p ∷ ps) =
      let skip = choose idx hosts regions ps in
      let next =
        choose (idx + 1) (host_of_proxy p ∷ hosts)
          (if is_empty p.region then regions else to_lower p.region ∷ regions) ps in
      if takes idx hosts regions p then p ∷ (if leb n (idx + 1) then [] else next) else skip

-- `n` is not negative: make refuses a negative capacity.
unfoldable pub pick_distinct : (List Proxy → List Proxy) → HotCache → ℕ → Ends → List Proxy
unfolding choose
pick_distinct shuffle h n w = choose w n 0 [] [] (shuffle h.items)
