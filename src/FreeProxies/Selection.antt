-- ===== src/FreeProxies/Selection.antt =====
-- internal/freproxies/pick.go: the memory of a selection, the weights, and the strategies. What the
-- random source decides is an argument: the swaps of a shuffle and the indexes that are drawn. A weight
-- is a fraction in the unit of `score`.
use unified_proxy_pool.Base.{
  ℕ, zero, suc, ◌+◌, ◌-◌, ◌*◌, ◌%◌, ◌^◌, Bool, true, false, not, ◌&&◌, ◌||◌, List, [], ◌∷◌, ltb,
  leb, ◌==◌, if◌then◌else◌, Text, codes, text_eq, text_lt, is_empty, to_lower, trim_space,
  member_text, Option, none, some, Time, second, Dict, lookup, insert, length, take, set, get_elem?,
  sort_by, ℤ, pos, is_le_zero, to_nat,
}
use unified_proxy_pool.FreeProxies.{Proxy}
use unified_proxy_pool.FreeProxies.Score.{point}
pub mod Candidates
pub mod Kept
pub mod Safe
mod Tests

pub data Strategy : Type 0 where
  weighted : Strategy
  random : Strategy
  rr : Strategy
  p2c : Strategy

-- normalizeStrategy; none is the empty name.
unfoldable pub normalize_strategy : Text → Option Strategy
unfolding to_lower trim_space text_eq
normalize_strategy given =
    let v = to_lower (trim_space given) in
    if member_text v (codes "random" ∷ codes "shuffle" ∷ [])
    then some random
    else if member_text v
        (codes "rr" ∷ codes "roundrobin" ∷ codes "round_robin" ∷ codes "round-robin" ∷ [])
    then some rr
    else if member_text v (codes "weighted" ∷ codes "weight" ∷ codes "score" ∷ [])
    then some weighted
    else if member_text v (codes "p2c" ∷ codes "power-of-two" ∷ codes "power_of_two" ∷ [])
    then some p2c
    else none

-- A strategy that is not known has been read as none.
pub record PickOptions : Type 0 where
  pub protocol : Text
  pub region : Text
  pub family : Text
  pub n : ℤ
  pub channel : Text
  pub strategy : Option Strategy
  pub no_cooldown : Bool

abbrev pub strategy_of : Option Strategy → Strategy
strategy_of none = weighted
strategy_of (some s) = s

pub record PickState : Type 0 where
  pub served : Dict Time
  pub cursor : Dict ℕ
  pub cooldown : ℕ

abbrev pub max_served_tracked : ℕ
max_served_tracked = 8192

abbrev pub max_cursors : ℕ
max_cursors = 1024

unfoldable pub new_pick_state : PickState
new_pick_state = record { served = []; cursor = []; cooldown = 30 * second }

-- The addresses inside the cooldown window.
unfoldable pub recently_served : List Proxy → Time → PickState → List Text
recently_served [] now s = []
recently_served (p ∷ ps) now s =
    let rest = recently_served ps now s in
    let recent : Bool = elim (lookup p.addr s.served) [
      | none ↦ false
      | some at ↦ ltb now (at + s.cooldown)
    ] in
    if s.cooldown == 0 then [] else if recent then p.addr ∷ rest else rest

unfoldable pub serve_all : List Proxy → Time → Dict Time → Dict Time
serve_all [] now m = m
serve_all (p ∷ ps) now m = serve_all ps now (insert p.addr now m)

unfoldable pub drop_cooled : Time → ℕ → Dict Time → Dict Time
drop_cooled now cooldown [] = []
drop_cooled now cooldown ((addr, at) ∷ m) =
    let rest = drop_cooled now cooldown m in
    if leb (at + cooldown) now then rest else (addr, at) ∷ rest

unfoldable pub mark_served : List Proxy → Time → PickState → PickState
unfolding serve_all drop_cooled
mark_served items now s =
    let served = serve_all items now s.served in
    let kept = drop_cooled now s.cooldown served in
    if leb (length served) max_served_tracked
    then record s { served = served }
    else if leb (length kept) max_served_tracked
    then record s { served = kept }
    else record s { served = serve_all items now [] }

-- A cursor is a uint64.
unfoldable pub next_cursor : Text → ℕ → PickState → ℕ × PickState
next_cursor channel step s =
    let cursors = if ltb max_cursors (length s.cursor) then [] else s.cursor in
    let cur : ℕ = elim (lookup channel cursors) [ none ↦ 0 | some c ↦ c ] in
    (cur, record s { cursor = insert channel ((cur + step) % 2 ^ 64) cursors })

-- proxyWeight, as a numerator and a denominator.
unfoldable pub proxy_weight : Proxy → Bool → ℕ × ℕ
proxy_weight p recent =
    let score = if ltb p.score point then point else p.score in
    let slow = if is_le_zero p.latency_ms then 1000 else 1000 + to_nat p.latency_ms in
    let num = score * 1000 in
    let den = slow * (1 + p.fail_count) * (if recent then 8 else 1) in
    if ltb (num * 10000) (den * point) then (point, 10000) else (num, den)

-- proxyWeight(p) > proxyWeight(q)
unfoldable pub heavier : List Text → Proxy → Proxy → Bool
unfolding proxy_weight
heavier recent p q =
    let (pn, pd) = proxy_weight p (member_text p.addr recent) in
    let (qn, qd) = proxy_weight q (member_text q.addr recent) in ltb (qn * pd) (pn * qd)

-- The last element moves to the place that is deleted.
unfoldable pub swap_delete : ℕ → List Proxy → List Proxy
swap_delete i pool = elim (get_elem? pool (length pool - 1)) [
  | none ↦ pool
  | some last ↦ take (length pool - 1) (set pool i last)
]

-- The loop of weightedSample: `draw` gives the index that the random number falls on.
unfoldable pub draw_some : (ℕ → ℕ) → ℕ → List Proxy → List Proxy
unfolding swap_delete
draw_some draw zero pool = []
draw_some draw (suc k) pool = elim (get_elem? pool (draw k % length pool)) [
  | none ↦ []
  | some p ↦ p ∷ draw_some draw k (swap_delete (draw k % length pool) pool)
]

unfoldable pub weighted_sample : (ℕ → ℕ) → List Proxy → ℕ → List Text → List Proxy
unfolding heavier draw_some
weighted_sample draw items n recent =
    if leb (length items) n then sort_by (heavier recent) items else draw_some draw n items

-- The rest of the walk of rrSelect, from its i-th step on.
unfoldable pub walk : List Proxy → ℕ → ℕ → ℕ → List Proxy
walk ordered start i zero = []
walk ordered start i (suc k) =
    let rest = walk ordered start (i + 1) k in
    elim (get_elem? ordered ((start + i) % 2 ^ 64 % length ordered)) [
      | none ↦ rest
      | some p ↦ p ∷ rest
    ]

abbrev pub addr_before : Proxy → Proxy → Bool
addr_before p q = text_lt p.addr q.addr

unfoldable pub rr_select : List Proxy → ℕ → Text → PickState → List Proxy × PickState
unfolding walk next_cursor
rr_select items n channel s =
    let ordered = sort_by addr_before items in
    let k = if ltb (length ordered) n then length ordered else n in
    let (start, after) = next_cursor channel k s in
    if length items == 0 then ([], s) else (walk ordered start 0 k, after)

-- The loop of p2cSample: turns left, proxies wanted, addresses taken.
unfoldable pub draw_pairs : (ℕ → ℕ × ℕ) → List Text → List Proxy → ℕ → ℕ → List Text → List Proxy
unfolding heavier
draw_pairs draw recent items zero wanted taken = []
draw_pairs draw recent items (suc turns) zero taken = []
draw_pairs draw recent items (suc turns) (suc wanted) taken =
    let (d, e) = draw turns in
    let i = d % length items in
    let j =
      if e % length items == i && ltb 1 (length items)
      then (i + 1) % length items
      else e % length items in
    let again = draw_pairs draw recent items turns (suc wanted) taken in
    elim (get_elem? items i) [
      | none ↦ []
      | some a ↦ elim (get_elem? items j) [
        | none ↦ []
        | some b ↦
            let best : Proxy = if heavier recent b a then b else a in
            let more = best ∷ draw_pairs draw recent items turns wanted (best.addr ∷ taken) in
            if member_text best.addr taken then again else more
      ]
    ]

unfoldable pub p2c_sample : (ℕ → ℕ) → (ℕ → ℕ × ℕ) → List Proxy → ℕ → List Text → List Proxy
unfolding weighted_sample draw_pairs
p2c_sample draw draw_two items n recent =
    if leb (length items) n
    then weighted_sample draw items n recent
    else draw_pairs draw_two recent items (n * 16) n []

-- rand.Shuffle, as the swaps it asks for.
unfoldable pub shuffle : List (ℕ × ℕ) → List Proxy → List Proxy
shuffle [] ps = ps
shuffle ((i, j) ∷ swaps) ps = elim (get_elem? ps i) [
  | none ↦ shuffle swaps ps
  | some p ↦ elim (get_elem? ps j) [
    | none ↦ shuffle swaps ps
    | some q ↦ shuffle swaps (set (set ps i q) j p)
  ]
]

-- What the random source decides in one pick.
pub record Draws : Type 0 where
  pub swaps : List (ℕ × ℕ)
  pub one : ℕ → ℕ
  pub two : ℕ → ℕ × ℕ

unfoldable pub chosen :
    Draws → Strategy → List Proxy → ℕ → Text → List Text → PickState → List Proxy × PickState
unfolding shuffle rr_select p2c_sample weighted_sample
chosen d random items n channel recent s = (take n (shuffle d.swaps items), s)
chosen d rr items n channel recent s =
    rr_select items n (if is_empty channel then codes "_global" else channel) s
chosen d p2c items n channel recent s = (p2c_sample d.one d.two items n recent, s)
chosen d weighted items n channel recent s = (weighted_sample d.one items n recent, s)

unfoldable pub apply_strategy :
    Draws → List Proxy → PickOptions → Time → PickState → List Proxy × PickState
unfolding recently_served chosen mark_served
apply_strategy d items opt now s =
    let n = if is_le_zero opt.n then 1 else to_nat opt.n in
    let recent = if opt.no_cooldown then [] else recently_served items now s in
    let (out, after) = chosen d (strategy_of opt.strategy) items n opt.channel recent s in
    if length items == 0 then ([], s) else (out, mark_served out now after)
