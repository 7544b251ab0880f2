-- ===== src/FreeProxies/Selection/Tests.antt =====
-- Picks from a pool of three, one of them on the blacklist and one banned for the channel.
use unified_proxy_pool.Base.{
  ◌≡◌, ◌==◌, refl, false, not, ◌&&◌, [], ◌∷◌, if◌then◌else◌, Text, codes, text_eq, Option, none,
  some, lookup, member_text, sort_by, length, pos,
}
use unified_proxy_pool.FreeProxies.{Proxy}
use unified_proxy_pool.FreeProxies.Score.{Ip}
use unified_proxy_pool.FreeProxies.Store.Queries.{zero_proxy}
use unified_proxy_pool.FreeProxies.Selection.{
  weighted, rr, normalize_strategy, PickOptions, new_pick_state, Draws, weighted_sample,
}
use unified_proxy_pool.FreeProxies.Selection.Candidates.{
  Guards, Backend, pick_options, bans_of, gather_candidates, served, pick,
}
use unified_proxy_pool.FreeProxies.Selection.Kept.{All}
use unified_proxy_pool.FreeProxies.Selection.Safe.{Allowed, pick_lem}

abbrev no_ip : Text → Option Ip
no_ip t = none

abbrev member : Text → Proxy
member addr = record zero_proxy { addr = addr; score = 50_000_000 }

abbrev a : Proxy
a = member (codes "a:1")

abbrev b : Proxy
b = member (codes "b:1")

abbrev c : Proxy
c = record zero_proxy { addr = codes "c:1"; score = 90_000_000; latency_ms = pos 9000 }

abbrev guards : Guards
guards = record {
  blocked = λ addr. text_eq addr (codes "a:1");
  country = λ region host. false;
  source_disabled = λ source. false;
  ban_set = λ channel. (codes "b:1", 9) ∷ [];
}

abbrev backend : Backend
backend = record { hot = none; random_n = λ protocol n. some (a ∷ b ∷ c ∷ []); list = λ q. none }

abbrev draws : Draws
draws = record { swaps = []; one = λ k. 0; two = λ k. (0, 1) }

abbrev options : PickOptions
options = record {
  protocol = [];
  region = [];
  family = [];
  n = pos 2;
  channel = codes "site";
  strategy = some rr;
  no_cooldown = false;
}

normalize_strategy_test : normalize_strategy (codes " Round-Robin") ≡ some rr
unfolding normalize_strategy member_text
normalize_strategy_test = refl

-- A slow proxy weighs less than its score.
weighted_sample_test : weighted_sample draws.one (c ∷ a ∷ []) 2 [] ≡ a ∷ c ∷ []
unfolding weighted_sample sort_by member_text
weighted_sample_test = refl

pick_test : (pick no_ip guards backend weighted draws options 0 new_pick_state).0.items ≡ c ∷ []
unfolding pick new_pick_state lookup served sort_by
pick_test = refl

pick_lem_example :
    All
      (Allowed no_ip guards [] (
        if (pick no_ip guards backend weighted draws options 0 new_pick_state).0.relaxed
        then []
        else bans_of no_ip guards (codes "site")))
      (pick no_ip guards backend weighted draws options 0 new_pick_state).0.items
    × (((pick no_ip guards backend weighted draws options 0 new_pick_state).0.relaxed
          && not (
              length
                (gather_candidates no_ip guards backend
                  (pick_options weighted options)
                  (bans_of no_ip guards (codes "site"))).0
              == 0))
        ≡ false)
pick_lem_example = pick_lem no_ip guards backend weighted draws options 0 new_pick_state
