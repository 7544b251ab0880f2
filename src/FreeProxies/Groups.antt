-- ===== src/FreeProxies/Groups.antt =====
-- internal/freproxies/groups.go and types.go: the rules of proxy groups, what they match, how they are
-- normalised, and the named groups of the store in memory.
use unified_proxy_pool.Base.{
  ℕ, ◌+◌, ◌*◌, ◌≡◌, Bool, true, false, not, ◌&&◌, ◌||◌, List, [], ◌∷◌, ◌++◌, map, ltb, leb, ◌==◌,
  if◌then◌else◌, ◌>>=◌, Text, codes, text_eq, is_empty, to_lower, trim_space, contains, equal_fold,
  member_text, length, Option, none, some, Time, is_zero, Dict, lookup, insert, erase, ℤ, pos,
  is_neg, is_le_zero, to_nat,
}
use unified_proxy_pool.FreeProxies.{Proxy}
use unified_proxy_pool.FreeProxies.Score.{
  Ip, family, family_ipv4, family_ipv6, family_unknown, score_max,
}
mod Words
pub mod Rules
pub mod Saves
mod Tests

-- A score limit counts in the unit of `score`.
pub record GroupRule : Type 0 where
  pub sources : List Text
  pub protocols : List Text
  pub families : List Text
  pub regions : List Text
  pub min_score : ℤ
  pub only_ok : Bool

abbrev pub is_nil {ℓ} : {A : Type ℓ} → List A → Bool
is_nil [] = true
is_nil (x ∷ xs) = false

-- The loop of matchAnyFold.
unfoldable pub any_fold : List Text → Text → Bool
unfolding trim_space equal_fold
any_fold [] got = false
any_fold (w ∷ ws) got =
    let rest = any_fold ws got in
    if is_empty (trim_space w) then rest else if equal_fold (trim_space w) got then true else rest

unfoldable pub match_any_fold : List Text → Text → Bool
unfolding any_fold
match_any_fold want got = if is_nil want then true else any_fold want got

-- The loop over the regions.
unfoldable pub any_region : List Text → Text → Bool
unfolding trim_space to_lower contains
any_region [] region = false
any_region (w ∷ ws) region =
    let want = to_lower (trim_space w) in
    let rest = any_region ws region in
    if is_empty want then rest else if contains region want then true else rest

unfoldable pub matches : (Text → Option Ip) → GroupRule → Proxy → Bool
unfolding match_any_fold any_region family to_lower
matches parse_ip r p =
    if r.only_ok && not p.validated
    then false
    else if not (is_le_zero r.min_score) && ltb p.score (to_nat r.min_score)
    then false
    else if not (match_any_fold r.sources p.source)
    then false
    else if not (match_any_fold r.protocols p.protocol)
    then false
    else if not (match_any_fold r.families (family parse_ip p))
    then false
    else if not (is_nil r.regions) && not (any_region r.regions (to_lower p.region))
    then false
    else true

unfoldable pub is_empty_rule : GroupRule → Bool
is_empty_rule r =
    is_nil r.sources
    && is_nil r.protocols
    && is_nil r.families
    && is_nil r.regions
    && is_le_zero r.min_score
    && not r.only_ok

-- dedupeTrim, with the keys seen so far.
unfoldable pub dedupe_from : List Text → List Text → List Text
unfolding trim_space to_lower member_text
dedupe_from seen [] = []
dedupe_from seen (w ∷ ws) =
    let v = trim_space w in
    let skipped = dedupe_from seen ws in
    let added = v ∷ dedupe_from (to_lower v ∷ seen) ws in
    if is_empty v then skipped else if member_text (to_lower v) seen then skipped else added

unfoldable pub dedupe_trim : List Text → List Text
unfolding dedupe_from
dedupe_trim ws = dedupe_from [] ws

unfoldable pub dedupe_trim_lower : List Text → List Text
unfolding dedupe_trim to_lower
dedupe_trim_lower ws = map to_lower (dedupe_trim ws)

unfoldable pub are_families : List Text → Bool
unfolding text_eq
are_families [] = true
are_families (f ∷ fs) =
    (text_eq f family_ipv4 || text_eq f family_ipv6 || text_eq f family_unknown) && are_families fs

unfoldable pub normalize_group_rule : GroupRule → Option GroupRule
unfolding dedupe_trim dedupe_trim_lower are_families
normalize_group_rule r =
    let out : GroupRule = record {
      sources = dedupe_trim r.sources;
      protocols = dedupe_trim_lower r.protocols;
      families = dedupe_trim_lower r.families;
      regions = dedupe_trim r.regions;
      min_score = r.min_score;
      only_ok = r.only_ok;
    } in
    if not (are_families out.families)
    then none
    else if is_neg out.min_score || ltb score_max (to_nat out.min_score)
    then none
    else some out

-- The bytes of a group's name.
abbrev pub is_alnum : ℕ → Bool
is_alnum c = (leb b'a' c && leb c b'z') || (leb b'A' c && leb c b'Z') || (leb b'0' c && leb c b'9')

abbrev pub are_name_bytes : Text → Bool
are_name_bytes [] = true
are_name_bytes (c ∷ s) = (is_alnum c || c == b'_' || c == b'-') && are_name_bytes s

-- groupNameRe
unfoldable pub is_group_name : Text → Bool
is_group_name [] = false
is_group_name (c ∷ s) = is_alnum c && are_name_bytes s && leb (length s) 39

unfoldable pub normalize_group_name : Text → Option Text
unfolding to_lower trim_space is_group_name
normalize_group_name name =
    let n = to_lower (trim_space name) in if is_group_name n then some n else none

pub record ProxyGroup : Type 0 where
  pub name : Text
  pub label : Text
  pub rule : GroupRule
  pub builtin : Bool
  pub created_at : Time
  pub updated_at : Time

abbrev pub any_rule : GroupRule
any_rule = record {
  sources = [];
  protocols = [];
  families = [];
  regions = [];
  min_score = pos 0;
  only_ok = false;
}

abbrev pub builtin_group : Text → Text → GroupRule → ProxyGroup
builtin_group name label rule = record {
  name = name;
  label = label;
  rule = rule;
  builtin = true;
  created_at = 0;
  updated_at = 0;
}

abbrev pub builtin_groups : List ProxyGroup
builtin_groups =
    builtin_group (codes "ipv4") (codes "IPv4") (record any_rule { families = family_ipv4 ∷ [] })
    ∷ builtin_group (codes "ipv6") (codes "IPv6") (record any_rule { families = family_ipv6 ∷ [] })
    ∷ builtin_group (codes "http") (codes "HTTP")
        (record any_rule { protocols = codes "http" ∷ codes "https" ∷ [] })
    ∷ builtin_group (codes "socks5") (codes "SOCKS5")
        (record any_rule { protocols = codes "socks5" ∷ [] })
    ∷ builtin_group (codes "validated") (codes "已验证") (record any_rule { only_ok = true })
    ∷ []

-- The first group that GetGroup's loop finds.
unfoldable pub find_fold : Text → List ProxyGroup → Option ProxyGroup
unfolding equal_fold
find_fold name [] = none
find_fold name (g ∷ gs) = if equal_fold g.name name then some g else find_fold name gs

-- GetGroup of the store in memory, on its map of groups.
unfoldable pub get_group : Text → Dict ProxyGroup → Option ProxyGroup
unfolding find_fold
get_group name groups = elim (find_fold name builtin_groups) [
  | some g ↦ some g
  | none ↦ elim (lookup name groups) [ none ↦ none | some g ↦ some (record g { builtin = false }) ]
]

unfoldable pub has_name : Text → List ProxyGroup → Bool
unfolding text_eq
has_name n [] = false
has_name n (g ∷ gs) = text_eq g.name n || has_name n gs

abbrev pub created_of : Option ProxyGroup → Time → Time
created_of none now = now
created_of (some g) now = if is_zero g.created_at then now else g.created_at

-- Service.SaveGroup: none is an error.
unfoldable pub save_group :
    Text → Text → GroupRule → Time → Dict ProxyGroup → Option (ProxyGroup × Dict ProxyGroup)
unfolding normalize_group_name has_name normalize_group_rule is_empty_rule get_group trim_space
save_group name label rule now groups = do
  n ← normalize_group_name name
  nr ← if has_name n builtin_groups then none else normalize_group_rule rule
  let g : ProxyGroup = record {
    name = n;
    label = if is_empty (trim_space label) then n else trim_space label;
    rule = nr;
    builtin = false;
    created_at = created_of (get_group n groups) now;
    updated_at = now;
  }
  if is_empty_rule nr then none else some (g, insert n g groups)

-- Service.DeleteGroup
unfoldable pub delete_group : Text → Dict ProxyGroup → Option (Dict ProxyGroup)
unfolding normalize_group_name has_name
delete_group name groups = do
  n ← normalize_group_name name
  if has_name n builtin_groups then none else some (erase n groups)

-- Service.ResolveGroupFilter: the rule that a filter with this group gets; `some none` is no group.
unfoldable pub resolve_group : Text → Dict ProxyGroup → Option (Option GroupRule)
unfolding trim_space to_lower get_group
resolve_group group groups =
    let name = trim_space group in
    if is_empty name
    then some none
    else elim (get_group (to_lower name) groups) [ none ↦ none | some g ↦ some (some g.rule) ]
