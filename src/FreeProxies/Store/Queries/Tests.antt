-- ===== src/FreeProxies/Store/Queries/Tests.antt =====
-- Batches and pages at a few proxies.
use mathlib.Core.List.Perm
use unified_proxy_pool.Base.{
  ◌≡◌, ◌*◌, refl, true, List, [], ◌∷◌, Text, codes, Option, none, pos, second, sort_by,
}
use unified_proxy_pool.FreeProxies.{Proxy}
use unified_proxy_pool.FreeProxies.Score.{Ip}
use unified_proxy_pool.FreeProxies.Store.{MemoryStore, new_memory_store}
use unified_proxy_pool.FreeProxies.Store.Queries.{ListFilter, zero_proxy, select_validate_raw, list}

abbrev old : Proxy
old = record zero_proxy { addr = codes "a:1"; last_check = second }

abbrev unchecked : Proxy
unchecked = record zero_proxy { addr = codes "b:1"; validated = true }

abbrev items : List Proxy
items = old ∷ zero_proxy ∷ unchecked ∷ []

batch_test : select_validate_raw items (pos 2) (200 * second) (90 * second) ≡ unchecked ∷ old ∷ []
unfolding select_validate_raw sort_by
batch_test = refl

abbrev no_ip : Text → Option Ip
no_ip t = none

abbrev stored : MemoryStore
stored = record new_memory_store { proxies = (codes "a:1", old) ∷ (codes "b:1", unchecked) ∷ [] }

abbrev everything : ListFilter
everything = record {
  page = pos 0;
  size = pos 1;
  source = [];
  protocol = [];
  region = [];
  family = [];
  rule = none;
  min_score = pos 0;
  query = [];
  only_ok = true;
}

abbrev as_found : List Proxy → List Proxy
as_found ps = ps

list_test : list no_ip as_found everything stored ≡ (unchecked ∷ [], 1)
unfolding list new_memory_store sort_by
list_test = refl
