-- ===== src/ChanPolicy/Registry/Rules.antt =====
-- AddRule and DeleteRule of internal/chanpolicy/registry.go.
pub mod Laws
use unified_proxy_pool.Base.{
  ℕ, ◌+◌, ◌-◌, ◌≡◌, Bool, true, false, ◌&&◌, ◌||◌, not, List, [], ◌∷◌, ◌++◌, arith, ltb, leb, ◌==◌,
  if◌then◌else◌, Text, text_eq, is_empty, trim_space, Option, none, some, Time, is_zero, Dict,
  lookup, insert, erase, map_values, length,
}
use unified_proxy_pool.ChanPolicy.Policy.{Policy, RawPolicy, normalize, idle_reset_after}
use unified_proxy_pool.ChanPolicy.Window.{no_counters, no_data}
use unified_proxy_pool.ChanPolicy.Name.{normalize_channel_name}
use unified_proxy_pool.ChanPolicy.Log.{LogEntry, add, clear, no_reason}
use unified_proxy_pool.ChanPolicy.Rule.{Rule, RuleResult, normalize_rule}
use unified_proxy_pool.ChanPolicy.Registry.State.{
  Registry, ChannelState, Entry, Ban, Allow, Effect, banned, emit, bucket_sec, delete_ban, on_unban,
  save_allow, delete_allow, save_rule, delete_rule,
}
use unified_proxy_pool.ChanPolicy.Registry.State
use unified_proxy_pool.ChanPolicy.Registry.Evict.{channel_locked, entry_locked}
use unified_proxy_pool.ChanPolicy.Registry.Outcomes.{clean_addr}

-- The loop of AddRule.
unfoldable pub put_rule : Rule → List Rule → List Rule
put_rule rule [] = rule ∷ []
put_rule rule (x ∷ xs) = if text_eq x.id rule.id then rule ∷ xs else x ∷ put_rule rule xs

-- AddRule. `next_id` is what nextRuleID returns.
unfoldable pub add_rule : Text → Rule → Time → Registry → Registry × RuleResult
unfolding put_rule emit
add_rule next_id given now r = elim (normalize_rule given) [
  | RuleResult.err e ↦ (r, RuleResult.err e)
  | RuleResult.ok rule ↦
      let rule' = record rule {
        enabled = true;
        created_at = if is_zero rule.created_at then now else rule.created_at;
        id = if is_empty rule.id then next_id else rule.id;
      } in
      (emit (save_rule rule') (record r { rules = put_rule rule' r.rules }), RuleResult.ok rule')
]

unfoldable pub has_rule : Text → List Rule → Bool
has_rule id [] = false
has_rule id (x ∷ xs) = text_eq x.id id || has_rule id xs

unfoldable pub drop_rule : Text → List Rule → List Rule
drop_rule id [] = []
drop_rule id (x ∷ xs) = if text_eq x.id id then drop_rule id xs else x ∷ drop_rule id xs

-- DeleteRule
unfoldable pub delete_rule_of : Text → Registry → Registry × Bool
unfolding has_rule drop_rule emit
delete_rule_of id' r =
    let id = trim_space id' in
    let r1 = record r { rules = drop_rule id r.rules } in
    if has_rule id r.rules then (emit (delete_rule id) r1, true) else (r1, false)
