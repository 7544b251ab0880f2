-- ===== src/FreeProxies/Store/Caps.antt =====
-- internal/freproxies/store.go: the sizes of the maps of the store in memory, and the trims.
use unified_proxy_pool.Base.{
  ◌≤◌, ◌-◌, Bool, true, false, inl, inr, ltb, List, [], ◌∷◌, arith, if◌then◌else◌, Text, Option,
  Time, lookup, insert, keys, length, take, sort_by, ℤ, length-erase_first, length-erase_all-le,
  Distinct, Distinct-insert, Distinct-erase, Distinct-erase_all, Option-cases,
}
use unified_proxy_pool.FreeProxies.{Proxy}
use unified_proxy_pool.FreeProxies.Score.{Ip}
use unified_proxy_pool.FreeProxies.Store.{
  MemoryStore, new_memory_store, forget, filled, normalize_addr, add_one, add_each, cut_raw,
  add_raw, delete, mark_known, mark_validated, accept, park, gives_up, failed, retry_due,
  purge_retry, trim_raw, trim_scored, trim_retry, trim, set_scraper_enabled, push_event,
  update_region, oldest_first, lowest_first, latest_first, max_raw_proxies, max_validated_proxies,
  max_retry_proxies,
}
use unified_proxy_pool.FreeProxies.Store.Calls.{
  Call, add_raw_of, mark_of, delete_of, purge_of, trim_of, region_of, scraper_of, event_of, call,
  run,
}

-- The keys of raw, retry and scored are distinct.
abbrev Indexed : MemoryStore → Type 0
Indexed s = Distinct s.raw × Distinct s.retry × Distinct s.scored

set_dirty-Indexed :
    (b : Bool) (s : MemoryStore) → Indexed s → Indexed (if b then record s { dirty = true } else s)
set_dirty-Indexed true s d = d
set_dirty-Indexed false s d = d

forget-Indexed : (ks : List Text) (s : MemoryStore) → Indexed s → Indexed (forget ks s)
unfolding forget
forget-Indexed ks s d = (
  Distinct-erase_all ks s.raw d.0,
  Distinct-erase_all ks s.retry d.1,
  Distinct-erase_all ks s.scored d.2,
)

delete-Indexed : (a : Text) (s : MemoryStore) → Indexed s → Indexed (delete a s)
unfolding delete
delete-Indexed a s d =
    (Distinct-erase a s.raw d.0, Distinct-erase a s.retry d.1, Distinct-erase a s.scored d.2)

trim_raw-Indexed : (s : MemoryStore) → Indexed s → Indexed (trim_raw s)
unfolding trim_raw
trim_raw-Indexed s d =
    forget-Indexed
      (take (length s.raw - max_raw_proxies) (sort_by (oldest_first s.proxies) (keys s.raw))) s d

trim_scored-Indexed : (s : MemoryStore) → Indexed s → Indexed (trim_scored s)
unfolding trim_scored
trim_scored-Indexed s d =
    forget-Indexed
      (take (length s.scored - max_validated_proxies)
        (sort_by (lowest_first s.proxies) (keys s.scored)))
      s d

trim_retry-Indexed : (s : MemoryStore) → Indexed s → Indexed (trim_retry s)
unfolding trim_retry
trim_retry-Indexed s d =
    forget-Indexed
      (take (length s.retry - max_retry_proxies) (sort_by (latest_first s.retry) (keys s.retry))) s
      d

trim-Indexed : (s : MemoryStore) → Indexed s → Indexed (trim s)
unfolding trim
trim-Indexed s d =
    trim_retry-Indexed (trim_scored (trim_raw s))
      (trim_scored-Indexed (trim_raw s) (trim_raw-Indexed s d))

purge_retry-Indexed : (s : MemoryStore) → Indexed s → Indexed (purge_retry s).0
unfolding purge_retry
purge_retry-Indexed s d =
    set_dirty-Indexed (ltb 0 (length s.retry)) (forget (keys s.retry) s)
      (forget-Indexed (keys s.retry) s d)

either_Indexed :
    (b : Bool) (x y : MemoryStore) → Indexed x → Indexed y → Indexed (if b then x else y)
either_Indexed true x y d e = d
either_Indexed false x y d e = e

mark_known-Indexed :
    (a : Text) (latency_ms : ℤ) (ok : Bool) (now : Time) (p : Proxy) (s : MemoryStore)
    → Indexed s
    → Indexed (mark_known a latency_ms ok now p s)
unfolding mark_known accept park
mark_known-Indexed a latency_ms true now p s d =
    (Distinct-erase a s.raw d.0, Distinct-erase a s.retry d.1, Distinct-insert a tt s.scored d.2)
mark_known-Indexed a latency_ms false now p s d =
    let q = failed latency_ms now p in
    let due = retry_due q.fail_count now in
    either_Indexed (gives_up p.validated q) (delete a s) (park a q due s) (delete-Indexed a s d)
      (Distinct-erase a s.raw d.0, Distinct-insert a due s.retry d.1, Distinct-erase a s.scored d.2)

mark_validated-Indexed :
    (a : Text) (latency_ms : ℤ) (ok : Bool) (now : Time) (s : MemoryStore)
    → Indexed s
    → Indexed (mark_validated a latency_ms ok now s).0
unfolding mark_validated
mark_validated-Indexed a latency_ms ok now s d = elim (Option-cases (lookup a s.proxies)) [
  | inl missing ↦ rw (missing, mark_validated) d
  | inr (p, is) ↦ rw (is, mark_validated) (mark_known-Indexed a latency_ms ok now p s d)
]

cut_raw-Indexed : (s : MemoryStore) → Indexed s → Indexed (cut_raw s)
unfolding cut_raw
cut_raw-Indexed s d = (
  Distinct-erase_all
      (take (length s.raw - max_raw_proxies) (sort_by (oldest_first s.proxies) (keys s.raw))) s.raw
      d.0,
  d.1,
  d.2,
)

one_Indexed :
    (b : Bool) (x y : MemoryStore)
    → Indexed x
    → Indexed y
    → Indexed (if◌then◌else◌ {A = MemoryStore × Bool} b (x, false) (y, true)).0
one_Indexed true x y d e = d
one_Indexed false x y d e = e

module _ (parse_ip : Text → Option Ip) where
  add_one-Indexed :
      (now : Time) (p : Proxy) (s : MemoryStore) → Indexed s → Indexed (add_one parse_ip now p s).0
  unfolding add_one
  add_one-Indexed now p s d =
      let addr = normalize_addr parse_ip p.host p.port in
      let q = filled parse_ip addr now p in
      one_Indexed _ s (record s { proxies = insert addr q s.proxies; raw = insert addr tt s.raw }) d
        (Distinct-insert addr tt s.raw d.0, d.1, d.2)

  add_each-Indexed :
      (now : Time) (ps : List Proxy) (s : MemoryStore)
      → Indexed s
      → Indexed (add_each parse_ip now ps s).0
  unfolding add_each
  add_each-Indexed now [] s d = d
  add_each-Indexed now (p ∷ ps) s d =
      add_each-Indexed now ps (add_one parse_ip now p s).0 (add_one-Indexed now p s d)

  update_region-Indexed :
      (a region : Text) (now : Time) (s : MemoryStore)
      → Indexed s
      → Indexed (call parse_ip (region_of a region now) s)
  unfolding call update_region
  update_region-Indexed a region now s d = elim (Option-cases (lookup a s.proxies)) [
    | inl missing ↦ rw (missing, call, update_region) d
    | inr (p, is) ↦ rw (is, call, update_region) d
  ]

  call-Indexed : (c : Call) (s : MemoryStore) → Indexed s → Indexed (call parse_ip c s)
  unfolding call add_raw set_scraper_enabled push_event
  call-Indexed (add_raw_of ps now) s d =
      let t = add_each parse_ip now ps s in
      set_dirty-Indexed (ltb 0 t.1) (cut_raw t.0)
        (cut_raw-Indexed t.0 (add_each-Indexed now ps s d))
  call-Indexed (mark_of a latency_ms ok now) s d = mark_validated-Indexed a latency_ms ok now s d
  call-Indexed (delete_of a) s d = delete-Indexed a s d
  call-Indexed purge_of s d = purge_retry-Indexed s d
  call-Indexed trim_of s d = trim-Indexed s d
  call-Indexed (region_of a region now) s d = update_region-Indexed a region now s d
  call-Indexed (scraper_of name true) s d = d
  call-Indexed (scraper_of name false) s d = d
  call-Indexed (event_of line) s d = d

  run-Indexed : (cs : List Call) (s : MemoryStore) → Indexed s → Indexed (run parse_ip cs s)
  unfolding run
  run-Indexed [] s d = d
  run-Indexed (c ∷ cs) s d = run-Indexed cs (call parse_ip c s) (call-Indexed c s d)

forget-le :
    (ks : List Text) (s : MemoryStore)
    → (length (forget ks s).raw ≤ length s.raw) × (length (forget ks s).scored ≤ length s.scored)
unfolding forget
forget-le ks s = (length-erase_all-le ks s.raw, length-erase_all-le ks s.scored)

raw_bound : (s : MemoryStore) → Distinct s.raw → length (trim_raw s).raw ≤ max_raw_proxies
unfolding trim_raw forget
raw_bound s d = length-erase_first (oldest_first s.proxies) max_raw_proxies s.raw d

scored_bound :
    (s : MemoryStore) → Distinct s.scored → length (trim_scored s).scored ≤ max_validated_proxies
unfolding trim_scored forget
scored_bound s d = length-erase_first (lowest_first s.proxies) max_validated_proxies s.scored d

retry_bound : (s : MemoryStore) → Distinct s.retry → length (trim_retry s).retry ≤ max_retry_proxies
unfolding trim_retry forget
retry_bound s d = length-erase_first (latest_first s.retry) max_retry_proxies s.retry d

trim_scored-le : (s : MemoryStore) → length (trim_scored s).raw ≤ length s.raw
unfolding trim_scored
trim_scored-le s =
    (forget-le
      (take (length s.scored - max_validated_proxies)
        (sort_by (lowest_first s.proxies) (keys s.scored)))
      s).0

trim_retry-le :
    (s : MemoryStore)
    → (length (trim_retry s).raw ≤ length s.raw) × (length (trim_retry s).scored ≤ length s.scored)
unfolding trim_retry
trim_retry-le s =
    forget-le
      (take (length s.retry - max_retry_proxies) (sort_by (latest_first s.retry) (keys s.retry))) s

trim_lem :
    (s : MemoryStore)
    → Indexed s
    → (length (trim s).raw ≤ max_raw_proxies)
      × (length (trim s).scored ≤ max_validated_proxies)
      × (length (trim s).retry ≤ max_retry_proxies)
unfolding trim
trim_lem s d =
    let s1 = trim_raw s in
    let s2 = trim_scored s1 in
    let d1 = trim_raw-Indexed s d in
    let d2 = trim_scored-Indexed s1 d1 in
    let l2 = trim_retry-le s2 in
    (
      omega (arith, raw_bound s d.0, trim_scored-le s1, l2.0),
      omega (arith, scored_bound s1 d1.2, l2.1),
      retry_bound s2 d2.1,
    )

-- After any calls on a store that starts empty, a trim leaves at most 4000 raw addresses, 2000 scored
-- ones and 1500 that wait for a retry.
pub trim-run :
    (parse_ip : Text → Option Ip) (cs : List Call)
    → (length (trim (run parse_ip cs new_memory_store)).raw ≤ 4000)
      × (length (trim (run parse_ip cs new_memory_store)).scored ≤ 2000)
      × (length (trim (run parse_ip cs new_memory_store)).retry ≤ 1500)
unfolding new_memory_store
trim-run parse_ip cs =
    trim_lem (run parse_ip cs new_memory_store)
      (run-Indexed parse_ip cs new_memory_store (tt, tt, tt))
