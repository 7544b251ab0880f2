-- ===== src/ChanPolicy/Tests/Rulings.antt =====
-- AddRule and DeleteRule at a concrete rule.
use unified_proxy_pool.Base.{◌≡◌, refl, true, false, [], codes, pos, negsuc}
use unified_proxy_pool.ChanPolicy.Rule.{Rule, normalize_rule, kind_of, kind_text, repaired}
use unified_proxy_pool.ChanPolicy.Registry.Rules.{add_rule}
use unified_proxy_pool.ChanPolicy.Registry.Rules.Laws.{Filed, add_rule-Filed}
use unified_proxy_pool.ChanPolicy.Tests.{day, waiting, program}

-- A rule as a caller gives it, and as AddRule files it.
abbrev given : Rule
given = record {
  id = [];
  name = [];
  channel = codes "A.com";
  kind = codes " Streak";
  statuses = [];
  threshold = pos 4;
  rate = negsuc 0;
  min_samples = pos 0;
  match = [];
  ttl_sec = pos 90;
  enabled = false;
  created_at = 0;
}

abbrev filed : Rule
filed = record {
  id = codes "r1-1";
  name = codes "consecutive";
  channel = codes "a.com";
  kind = codes "consecutive";
  statuses = [];
  threshold = pos 4;
  rate = pos 0;
  min_samples = pos 0;
  match = [];
  ttl_sec = pos 90;
  enabled = true;
  created_at = day;
}

add_rule-Filed_example :
    (filed.enabled ≡ true)
    × Filed filed waiting.rules (add_rule (codes "r1-1") given day waiting).0.rules
unfolding program add_rule normalize_rule kind_of kind_text repaired
add_rule-Filed_example = add_rule-Filed (codes "r1-1") given filed day waiting refl
