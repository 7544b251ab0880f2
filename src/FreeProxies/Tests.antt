-- ===== src/FreeProxies/Tests.antt =====
-- The health summary and the picks at a small pool.
use mathlib.Core.List.{Mem}
use mathlib.Core.List.Perm
use unified_proxy_pool.Base.{
  ◌+◌, ◌≤◌, ◌≡◌, refl, true, List, [], ◌∷◌, arith, Text, codes, ℤ, pos, length, sort_by,
}
use unified_proxy_pool.FreeProxies.{Proxy}
use unified_proxy_pool.FreeProxies.Health.{summary}
use unified_proxy_pool.FreeProxies.Health.Bands.{count_validated, summary_bands}
use unified_proxy_pool.FreeProxies.HotCache.{HotCache, Ends, pick_distinct}
use unified_proxy_pool.FreeProxies.HotCache.Picks.{
  DistinctHosts, Placed, pick_distinct_lem, pick_distinct-Placed,
}

abbrev proxy : Text → ℤ → Proxy
proxy host latency_ms = record {
  addr = host;
  host = host;
  port = pos 80;
  protocol = codes "http";
  source = codes "list";
  ip_family = codes "ipv4";
  score = 50;
  region = codes "US";
  latency_ms = latency_ms;
  validated = true;
  last_check = 0;
  fail_count = 0;
  created_at = 0;
  updated_at = 0;
}

abbrev pool : List Proxy
pool =
    proxy (codes "a") (pos 100)
    ∷ proxy (codes "b") (pos 200)
    ∷ proxy (codes "c") (pos 700)
    ∷ proxy (codes "d") (pos 300)
    ∷ proxy (codes "e") (pos 400)
    ∷ proxy (codes "f") (pos 2000)
    ∷ []

summary_bands_example :
    ((summary pool 0).available ≡ count_validated pool)
    × ((summary pool 0).fast
          + (summary pool 0).usable
          + (summary pool 0).slow
          + (summary pool 0).unknown_latency
        ≡ count_validated pool)
    × ((summary pool 0).fastest_latency ≤ (summary pool 0).median_latency)
    × ((summary pool 0).median_latency ≤ 2000)
summary_bands_example =
    summary_bands pool 0 2000
      (omega arith, (omega arith, (omega arith, (omega arith, (omega arith, (omega arith, tt))))))

median_test : (summary pool 0).median_latency ≡ 350
unfolding summary sort_by
median_test = refl

abbrev cache : HotCache
cache = record { items = pool; updated = 0; ttl = 3; size = 64 }

abbrev no_wishes : Ends
no_wishes = record {
  distinct_region = true;
  entry_protocol = codes "HTTP";
  exit_protocol = [];
  entry_region = codes "us";
  exit_region = [];
}

abbrev in_order : List Proxy → List Proxy
in_order ps = ps

pick_distinct_lem_example :
    DistinctHosts (pick_distinct in_order cache 2 no_wishes)
    × (length (pick_distinct in_order cache 2 no_wishes) ≤ 2)
pick_distinct_lem_example = pick_distinct_lem in_order cache 2 no_wishes (omega arith)

pick_distinct-Placed_example :
    Placed no_wishes 2 0 (pick_distinct in_order cache 2 no_wishes)
    × ((q : Proxy) → Mem q (pick_distinct in_order cache 2 no_wishes) → Mem q cache.items)
pick_distinct-Placed_example = pick_distinct-Placed in_order cache 2 no_wishes (Perm.refl pool)
