-- ===== src/FreeProxies/Store/Tests.antt =====
-- The store in memory at a few calls.
use unified_proxy_pool.Base.{
  ◌≡◌, ◌≢◌, ◌≤◌, refl, true, false, List, [], ◌∷◌, Text, codes, Option, none, lookup, insert, erase,
  has, text_eq, length, pos, second,
}
use unified_proxy_pool.FreeProxies.{Proxy}
use unified_proxy_pool.FreeProxies.Score.{Ip}
use unified_proxy_pool.FreeProxies.Store.{
  MemoryStore, new_memory_store, normalize_addr, accept, passed, failed, park, gives_up, add_raw,
  mark_validated, retry_due, trim,
}
use unified_proxy_pool.FreeProxies.Store.Stages.{
  fresh, live, waiting, torn, stage, Move, mark_validated-Move,
}
use unified_proxy_pool.FreeProxies.Store.Calls.{
  Call, add_raw_of, mark_of, run, run-new_memory_store,
}
use unified_proxy_pool.FreeProxies.Store.Caps.{trim-run}

-- A parser that reads no address.
abbrev no_ip : Text → Option Ip
no_ip t = none

abbrev found : Proxy
found = record {
  addr = [];
  host = codes "proxy.example";
  port = pos 8080;
  protocol = [];
  source = codes "list";
  ip_family = [];
  score = 0;
  latency_ms = pos 0;
  region = codes "US";
  validated = false;
  last_check = 0;
  fail_count = 0;
  created_at = 0;
  updated_at = 0;
}

abbrev addr : Text
addr = codes "proxy.example:8080"

abbrev calls : List Call
calls = add_raw_of (found ∷ found ∷ []) 0 ∷ mark_of addr (pos 120) true second ∷ []

abbrev checked : MemoryStore
checked = run no_ip calls new_memory_store

normalize_addr_test : normalize_addr no_ip found.host found.port ≡ addr
unfolding normalize_addr
normalize_addr_test = refl

fresh_test : stage (add_raw no_ip (found ∷ found ∷ []) 0 new_memory_store).0 addr ≡ fresh
unfolding stage add_raw new_memory_store lookup has insert text_eq
fresh_test = refl

live_test : stage checked addr ≡ live
unfolding stage run new_memory_store lookup has insert text_eq accept erase passed
live_test = refl

waiting_test : stage (mark_validated addr (pos 0) false second checked).0 addr ≡ waiting
unfolding stage run new_memory_store mark_validated lookup has insert text_eq accept gives_up passed
    failed park erase
waiting_test = refl

retry_due_test : retry_due 2 1 ≡ 900000000000
unfolding retry_due
retry_due_test = refl

run-new_memory_store_example : stage (run no_ip calls new_memory_store) addr ≢ torn
run-new_memory_store_example = run-new_memory_store no_ip calls addr

mark_validated-Move_example :
    Move false
      (stage checked addr)
      (stage (mark_validated addr (pos 0) false second checked).0 addr)
mark_validated-Move_example =
    mark_validated-Move addr (pos 0) false second checked (run-new_memory_store no_ip calls addr)

trim-run_example :
    (length (trim (run no_ip calls new_memory_store)).raw ≤ 4000)
    × (length (trim (run no_ip calls new_memory_store)).scored ≤ 2000)
    × (length (trim (run no_ip calls new_memory_store)).retry ≤ 1500)
trim-run_example = trim-run no_ip calls
