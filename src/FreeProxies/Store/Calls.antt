-- ===== src/FreeProxies/Store/Calls.antt =====
-- internal/freproxies/store.go: sequences of calls of the store in memory, from an empty one.
use unified_proxy_pool.Base.{
  ◌-◌, ◌≡◌, ◌≢◌, refl, sym, ◌∙◌, Bool, true, false, ◌&&◌, ◌||◌, leb, ltb, inl, inr, List, [], ◌∷◌,
  arith, if◌then◌else◌, Text, text_eq, text_eq_iff, text_eq_refl, is_empty, Option, none, some,
  Time, lookup, insert, has, keys, erase_all, member_text, lookup-insert, has-insert,
  lookup-erase_all, has-erase_all, member_text-take, member_text-sort_by, member_text-keys, length,
  take, sort_by, ℤ, Bool-cases, Option-cases,
}
use unified_proxy_pool.FreeProxies.{Proxy}
use unified_proxy_pool.FreeProxies.Score.{Ip}
use unified_proxy_pool.FreeProxies.Store.{
  MemoryStore, new_memory_store, push_event, filled, normalize_addr, add_one, add_each, cut_raw,
  add_raw, delete, mark_validated, purge_retry, trim_raw, trim_scored, trim_retry, trim,
  update_region, oldest_first, lowest_first, latest_first, max_raw_proxies, max_validated_proxies,
  max_retry_proxies, set_scraper_enabled,
}
use unified_proxy_pool.FreeProxies.Store.Stages.{
  Stage, absent, torn, place, stage, absent_ne, only_raw, nowhere, no_lookup, forget-ne, delete_lem,
  if_ne, mark_validated-ne,
}

-- Deletion from `proxies` and `raw` alone keeps every address in one place when the deleted ones
-- stand in `raw`.
cut-ne :
    (ks : List Text) (s : MemoryStore) (j : Text)
    → (member_text j ks ≡ true → has j s.raw ≡ true)
    → stage s j ≢ torn
    → stage (record s { proxies = erase_all ks s.proxies; raw = erase_all ks s.raw }) j ≢ torn
unfolding stage
cut-ne ks s j in_raw h = elim (Bool-cases (member_text j ks)) [
  | inr e ↦ rw (lookup-erase_all ks j s.proxies, has-erase_all ks j s.raw) (rw e h)
  | inl e ↦
      let one =
        only_raw (lookup j s.proxies) (has j s.retry) (has j s.scored) (rw (in_raw e) at h) in
      rw (lookup-erase_all ks j s.proxies, has-erase_all ks j s.raw)
        (rw e (rw (one.0, one.1) absent_ne))
]

cut_raw-ne : (s : MemoryStore) (j : Text) → stage s j ≢ torn → stage (cut_raw s) j ≢ torn
unfolding cut_raw
cut_raw-ne s j h =
    let less = oldest_first s.proxies in
    let n = length s.raw - max_raw_proxies in
    cut-ne (take n (sort_by less (keys s.raw))) s j
      (λ e.
        sym (member_text-keys j s.raw)
        ∙ sym (member_text-sort_by less j (keys s.raw))
        ∙ member_text-take n j (sort_by less (keys s.raw)) e)
      h

abbrev in_raw : Bool → Stage
in_raw v = place v true false false

in_raw_ne : (v : Bool) → in_raw v ≢ torn
in_raw_ne true e = ground arith
in_raw_ne false e = ground arith

added_lem :
    (a : Text) (p : Proxy) (s : MemoryStore) (j : Text)
    → has a s.proxies ≡ false
    → stage s a ≢ torn
    → stage (record s { proxies = insert a p s.proxies; raw = insert a tt s.raw }) j
      ≡ (if text_eq a j then in_raw p.validated else stage s j)
unfolding stage
added_lem a p s j unknown_addr h = elim (Bool-cases (text_eq a j)) [
  | inr e ↦ rw (lookup-insert a j p s.proxies, has-insert a j tt s.raw) (rw e refl)
  | inl e ↦
      let gone =
        nowhere (has a s.raw) (has a s.retry) (has a s.scored)
          (rw (no_lookup a s.proxies unknown_addr) at h) in
      rw (← (text_eq_iff a j).0 e) (
        rw (lookup-insert a a p s.proxies, has-insert a a tt s.raw, text_eq_refl a)
          (rw (gone.1, gone.2) refl))
]

refused_or_added :
    (b : Bool) (x y : MemoryStore) (j : Text)
    → stage x j ≢ torn
    → ((b ≡ false) → stage y j ≢ torn)
    → stage (if◌then◌else◌ {A = MemoryStore × Bool} b (x, false) (y, true)).0 j ≢ torn
refused_or_added true x y j h k = h
refused_or_added false x y j h k = k refl

middle_false : (b c d : Bool) → (b || c || d) ≡ false → c ≡ false
middle_false b c d e = ground (arith, e)

set_dirty-ne :
    (b : Bool) (s : MemoryStore) (j : Text)
    → stage s j ≢ torn
    → stage (if b then record s { dirty = true } else s) j ≢ torn
unfolding stage
set_dirty-ne true s j h = h
set_dirty-ne false s j h = h

module _ (parse_ip : Text → Option Ip) where
  add_one-ne :
      (now : Time) (p : Proxy) (s : MemoryStore)
      → ((j : Text) → stage s j ≢ torn)
      → (j : Text) → stage (add_one parse_ip now p s).0 j ≢ torn
  unfolding add_one
  add_one-ne now p s h j =
      let addr = normalize_addr parse_ip p.host p.port in
      let q = filled parse_ip addr now p in
      refused_or_added _ s
        (record s { proxies = insert addr q s.proxies; raw = insert addr tt s.raw }) j (h j)
        (λ e.
          rw
            (added_lem addr q s j
              (middle_false (is_empty addr) (has addr s.proxies)
                (leb max_raw_proxies (length s.raw) && ltb 50 (length s.scored)) e)
              (h addr))
            (if_ne (text_eq addr j) (in_raw q.validated) _ (in_raw_ne q.validated) (h j)))

  add_each-ne :
      (now : Time) (ps : List Proxy) (s : MemoryStore)
      → ((j : Text) → stage s j ≢ torn)
      → (j : Text) → stage (add_each parse_ip now ps s).0 j ≢ torn
  unfolding add_each
  add_each-ne now [] s h j = h j
  add_each-ne now (p ∷ ps) s h j =
      add_each-ne now ps (add_one parse_ip now p s).0 (add_one-ne now p s h) j

  add_raw-ne :
      (ps : List Proxy) (now : Time) (s : MemoryStore)
      → ((j : Text) → stage s j ≢ torn)
      → (j : Text) → stage (add_raw parse_ip ps now s).0 j ≢ torn
  unfolding add_raw
  add_raw-ne ps now s h j =
      set_dirty-ne _ _ j (cut_raw-ne (add_each parse_ip now ps s).0 j (add_each-ne now ps s h j))

purge_retry-ne : (s : MemoryStore) (j : Text) → stage s j ≢ torn → stage (purge_retry s).0 j ≢ torn
unfolding purge_retry
purge_retry-ne s j h = set_dirty-ne _ _ j (forget-ne (keys s.retry) s j h)

trim_raw-ne : (s : MemoryStore) (j : Text) → stage s j ≢ torn → stage (trim_raw s) j ≢ torn
unfolding trim_raw
trim_raw-ne s j h =
    forget-ne
      (take (length s.raw - max_raw_proxies) (sort_by (oldest_first s.proxies) (keys s.raw))) s j h

trim_scored-ne : (s : MemoryStore) (j : Text) → stage s j ≢ torn → stage (trim_scored s) j ≢ torn
unfolding trim_scored
trim_scored-ne s j h =
    forget-ne
      (take (length s.scored - max_validated_proxies)
        (sort_by (lowest_first s.proxies) (keys s.scored)))
      s j h

trim_retry-ne : (s : MemoryStore) (j : Text) → stage s j ≢ torn → stage (trim_retry s) j ≢ torn
unfolding trim_retry
trim_retry-ne s j h =
    forget-ne
      (take (length s.retry - max_retry_proxies) (sort_by (latest_first s.retry) (keys s.retry))) s
      j h

trim-ne : (s : MemoryStore) (j : Text) → stage s j ≢ torn → stage (trim s) j ≢ torn
unfolding trim
trim-ne s j h =
    set_dirty-ne true (trim_retry (trim_scored (trim_raw s))) j (
      trim_retry-ne (trim_scored (trim_raw s)) j
        (trim_scored-ne (trim_raw s) j (trim_raw-ne s j h)))

delete-ne : (a : Text) (s : MemoryStore) (j : Text) → stage s j ≢ torn → stage (delete a s) j ≢ torn
delete-ne a s j h = rw (delete_lem a s j) (if_ne (text_eq a j) absent _ absent_ne h)

update_region-ne :
    (a region : Text) (now : Time) (p : Proxy) (s : MemoryStore) (j : Text)
    → lookup a s.proxies ≡ some p
    → stage s j ≢ torn
    → stage
        (record s {
          proxies = insert a (record p { region = region; updated_at = now }) s.proxies;
          dirty = true;
        })
        j
      ≢ torn
unfolding stage
update_region-ne a region now p s j is h = elim (Bool-cases (text_eq a j)) [
  | inr e ↦
      rw (lookup-insert a j (record p { region = region; updated_at = now }) s.proxies) (rw e h)
  | inl e ↦
      rw (lookup-insert a j (record p { region = region; updated_at = now }) s.proxies)
        (rw e (rw (← (text_eq_iff a j).0 e) (rw (← (text_eq_iff a j).0 e, is) at h)))
]

-- The calls that change the store.
pub data Call : Type 0 where
  add_raw_of : List Proxy → Time → Call
  mark_of : Text → ℤ → Bool → Time → Call
  delete_of : Text → Call
  purge_of : Call
  trim_of : Call
  region_of : Text → Text → Time → Call
  scraper_of : Text → Bool → Call
  event_of : Text → Call

module _ (parse_ip : Text → Option Ip) where
  unfoldable pub call : Call → MemoryStore → MemoryStore
  unfolding add_raw mark_validated delete purge_retry trim update_region set_scraper_enabled
      push_event
  call (add_raw_of ps now) s = (add_raw parse_ip ps now s).0
  call (mark_of a latency_ms ok now) s = (mark_validated a latency_ms ok now s).0
  call (delete_of a) s = delete a s
  call purge_of s = (purge_retry s).0
  call trim_of s = trim s
  call (region_of a region now) s = elim (update_region a region now s) [ none ↦ s | some t ↦ t ]
  call (scraper_of name on) s = set_scraper_enabled name on s
  call (event_of line) s = push_event line s

  unfoldable pub run : List Call → MemoryStore → MemoryStore
  unfolding call
  run [] s = s
  run (c ∷ cs) s = run cs (call c s)

  region-ne :
      (a region : Text) (now : Time) (s : MemoryStore) (j : Text)
      → stage s j ≢ torn
      → stage (call (region_of a region now) s) j ≢ torn
  unfolding call update_region
  region-ne a region now s j h = elim (Option-cases (lookup a s.proxies)) [
    | inl missing ↦ rw (missing, call, update_region) h
    | inr (p, is) ↦ rw (is, call, update_region) (update_region-ne a region now p s j is h)
  ]

  scraper-ne :
      (name : Text) (on : Bool) (s : MemoryStore) (j : Text)
      → stage s j ≢ torn
      → stage (call (scraper_of name on) s) j ≢ torn
  unfolding call set_scraper_enabled stage
  scraper-ne name true s j h = h
  scraper-ne name false s j h = h

  event-ne :
      (line : Text) (s : MemoryStore) (j : Text)
      → stage s j ≢ torn
      → stage (call (event_of line) s) j ≢ torn
  unfolding call push_event stage
  event-ne line s j h = h

  call-ne :
      (c : Call) (s : MemoryStore)
      → ((j : Text) → stage s j ≢ torn)
      → (j : Text) → stage (call c s) j ≢ torn
  unfolding call
  call-ne (add_raw_of ps now) s h j = add_raw-ne parse_ip ps now s h j
  call-ne (mark_of a latency_ms ok now) s h j = mark_validated-ne a latency_ms ok now s j (h j)
  call-ne (delete_of a) s h j = delete-ne a s j (h j)
  call-ne purge_of s h j = purge_retry-ne s j (h j)
  call-ne trim_of s h j = trim-ne s j (h j)
  call-ne (region_of a region now) s h j = region-ne a region now s j (h j)
  call-ne (scraper_of name on) s h j = scraper-ne name on s j (h j)
  call-ne (event_of line) s h j = event-ne line s j (h j)

  -- Every call keeps each address in one place.
  run_keeps :
      (cs : List Call) (s : MemoryStore)
      → ((j : Text) → stage s j ≢ torn)
      → (j : Text) → stage (run cs s) j ≢ torn
  unfolding run
  run_keeps [] s h j = h j
  run_keeps (c ∷ cs) s h j = run_keeps cs (call c s) (call-ne c s h) j

  -- Whatever the calls, of a store that starts empty no address is torn: it has no record and stands in
  -- no map, or it stands in raw alone, or its record is validated and stands in scored alone, or its
  -- record is not validated and stands in retry alone.
  pub run-new_memory_store : (cs : List Call) (a : Text) → stage (run cs new_memory_store) a ≢ torn
  unfolding stage lookup new_memory_store has
  run-new_memory_store cs a = run_keeps cs new_memory_store empty_ne a
    where
      empty_ne : (j : Text) → stage new_memory_store j ≢ torn
      empty_ne j = absent_ne
