-- ===== src/FreeProxies/Groups/Tests.antt =====
-- Rules and groups at a few values.
use unified_proxy_pool.Base.{
  ◌≡◌, refl, true, false, inl, inr, [], ◌∷◌, Text, codes, Option, none, some, lookup, insert,
  to_lower, trim_space, text_eq, pos,
}
use unified_proxy_pool.FreeProxies.{Proxy}
use unified_proxy_pool.FreeProxies.Score.{Ip}
use unified_proxy_pool.FreeProxies.Groups.{
  GroupRule, ProxyGroup, any_rule, matches, normalize_group_rule, normalize_group_name, save_group,
  resolve_group,
}
use unified_proxy_pool.FreeProxies.Groups.Words.{Worded, any_word}
use unified_proxy_pool.FreeProxies.Groups.Rules.{matches-normalize_group_rule}
use unified_proxy_pool.FreeProxies.Groups.Saves.{save_group-resolve_group}

abbrev no_ip : Text → Option Ip
no_ip t = none

abbrev given : GroupRule
given = record any_rule {
  sources = codes " alpha" ∷ codes "ALPHA" ∷ [];
  protocols = codes "SOCKS5 " ∷ codes " " ∷ [];
}

abbrev normal : GroupRule
normal = record any_rule { sources = codes "alpha" ∷ []; protocols = codes "socks5" ∷ [] }

abbrev sample : Proxy
sample = record {
  addr = codes "a:1";
  host = codes "a";
  port = pos 1;
  protocol = codes "socks5";
  source = codes "Alpha";
  ip_family = codes "ipv4";
  score = 0;
  latency_ms = pos 0;
  region = codes "US";
  validated = false;
  last_check = 0;
  fail_count = 0;
  created_at = 0;
  updated_at = 0;
}

normalize_group_rule_test : normalize_group_rule given ≡ some normal
unfolding normalize_group_rule text_eq
normalize_group_rule_test = refl

matches_test : matches no_ip normal sample ≡ true
unfolding matches
matches_test = refl

-- A byte outside the names' range is refused.
normalize_group_name_test : normalize_group_name (codes "a b") ≡ none
unfolding normalize_group_name
normalize_group_name_test = refl

matches-normalize_group_rule_example : matches no_ip normal sample ≡ matches no_ip given sample
unfolding normalize_group_rule text_eq Worded any_word trim_space
matches-normalize_group_rule_example =
    matches-normalize_group_rule no_ip given normal sample refl (inr refl) (inr refl) (inl refl)
      (inl refl)

abbrev saved : ProxyGroup
saved = record {
  name = codes "mine";
  label = codes "mine";
  rule = normal;
  builtin = false;
  created_at = 5;
  updated_at = 5;
}

save_group-resolve_group_example :
    (resolve_group (codes "MINE") ((codes "mine", saved) ∷ []) ≡ some (some normal))
    × (normalize_group_rule given ≡ some normal)
unfolding save_group text_eq to_lower trim_space lookup insert
save_group-resolve_group_example =
    save_group-resolve_group (codes " Mine ") [] given 5 [] ((codes "mine", saved) ∷ []) saved
      (codes "MINE") refl refl
