-- ===== src/FreeProxies/Groups/Rules.antt =====
-- internal/freproxies/groups.go: a rule and its normal form.
use unified_proxy_pool.Base.{
  ◌≡◌, refl, Bool, true, false, not, ◌&&◌, ◌||◌, inl, inr, arith, if◌then◌else◌, Text, to_lower,
  Option, none, some, ltb, is_neg, to_nat, Bool-cases,
}
use unified_proxy_pool.FreeProxies.{Proxy}
use unified_proxy_pool.FreeProxies.Score.{Ip, family, score_max}
use unified_proxy_pool.FreeProxies.Groups.{
  GroupRule, is_nil, any_region, matches, dedupe_trim, dedupe_trim_lower, are_families,
  normalize_group_rule,
}
use unified_proxy_pool.FreeProxies.Groups.Words.{
  Worded, match_any_fold-dedupe_trim, match_any_fold-dedupe_trim_lower, any_region-dedupe_trim,
}

abbrev cleaned : GroupRule → GroupRule
cleaned r = record {
  sources = dedupe_trim r.sources;
  protocols = dedupe_trim_lower r.protocols;
  families = dedupe_trim_lower r.families;
  regions = dedupe_trim r.regions;
  min_score = r.min_score;
  only_ok = r.only_ok;
}

normalize_group_rule-cleaned : (r n : GroupRule) → normalize_group_rule r ≡ some n → n ≡ cleaned r
unfolding normalize_group_rule
normalize_group_rule-cleaned r n h =
    elim (Bool-cases (are_families (dedupe_trim_lower r.families))) [
      | inr bad ↦ absurd (ground (arith, rw bad at h))
      | inl good ↦ within (is_neg r.min_score || ltb score_max (to_nat r.min_score)) (rw good at h)
    ]
  where
    within : (b : Bool) → (if b then none else some (cleaned r)) ≡ some n → n ≡ cleaned r
    within true e = absurd (ground (arith, e))
    within false e = ground (arith, e)

region_test : (b c : Bool) → (not b && not c) ≡ not (b || c)
region_test true c = refl
region_test false c = refl

-- A rule that SaveGroup accepts matches the proxies that the rule it was made of matches, where no
-- dimension of that rule holds blank words only: trimming, lower case and the removal of repeated words
-- are not seen.
pub matches-normalize_group_rule :
    (parse_ip : Text → Option Ip) (r n : GroupRule) (p : Proxy)
    → normalize_group_rule r ≡ some n
    → Worded r.sources
    → Worded r.protocols
    → Worded r.families
    → Worded r.regions
    → matches parse_ip n p ≡ matches parse_ip r p
unfolding matches
matches-normalize_group_rule parse_ip r n p h ws wp wf wr =
    rw (normalize_group_rule-cleaned r n h) (
      rw
        (
          match_any_fold-dedupe_trim r.sources p.source ws,
          match_any_fold-dedupe_trim_lower r.protocols p.protocol wp,
          match_any_fold-dedupe_trim_lower r.families (family parse_ip p) wf,
          region_test (is_nil (dedupe_trim r.regions))
              (any_region (dedupe_trim r.regions) (to_lower p.region)),
          any_region-dedupe_trim r.regions (to_lower p.region) wr,
          region_test (is_nil r.regions) (any_region r.regions (to_lower p.region)),
        )
        refl)
