-- ===== src/ChanPolicy/Registry/Rules/Laws.antt =====
-- The list of rules as a map from identifiers.
use unified_proxy_pool.Base.{
  ◌≡◌, ◌≢◌, refl, sym, ap, ◌⊎◌, inl, inr, is_zero, is_empty, Bool, true, false, List, [], ◌∷◌, ◌++◌,
  subst, Bool-cases, arith, if◌then◌else◌, Text, text_eq, text_eq_iff, trim_space, Option, none,
  some, Time,
}
use unified_proxy_pool.ChanPolicy.Rule.{Rule, RuleError, RuleResult, normalize_rule}
use unified_proxy_pool.ChanPolicy.Registry.State.{Registry, emit}
use unified_proxy_pool.ChanPolicy.Registry.Rules.{
  put_rule, add_rule, has_rule, drop_rule, delete_rule_of,
}

-- The first rule with an identifier.
unfoldable pub find_rule : Text → List Rule → Option Rule
find_rule id [] = none
find_rule id (x ∷ xs) = if text_eq x.id id then some x else find_rule id xs

abbrev pub is_found : Option Rule → Bool
is_found none = false
is_found (some x) = true

find_rule-drop_rule :
    (id j : Text) (xs : List Rule)
    → find_rule j (drop_rule id xs) ≡ (if text_eq id j then none else find_rule j xs)
unfolding find_rule drop_rule
find_rule-drop_rule id j [] = ground arith
find_rule-drop_rule id j (x ∷ xs) =
    ground (
      arith,
      find_rule-drop_rule id j xs,
      text_eq_iff x.id id,
      text_eq_iff x.id j,
      text_eq_iff id j,
    )

has_rule-find_rule : (id : Text) (xs : List Rule) → has_rule id xs ≡ is_found (find_rule id xs)
unfolding has_rule find_rule
has_rule-find_rule id [] = refl
has_rule-find_rule id (x ∷ xs) = ground (arith, has_rule-find_rule id xs)

RuleResult-cases :
    (x : RuleResult)
    → ((e : RuleError) × (x ≡ RuleResult.err e)) ⊎ ((q : Rule) × (x ≡ RuleResult.ok q))
RuleResult-cases (RuleResult.err e) = inl (e, refl)
RuleResult-cases (RuleResult.ok q) = inr (q, refl)

ok_eq : (x y : Rule) → RuleResult.ok x ≡ RuleResult.ok y → x ≡ y
ok_eq x y h = ground arith

err_ne : (e : RuleError) (y : Rule) → RuleResult.err e ≢ RuleResult.ok y
err_ne e y h = ground arith

-- A rule stands in the place of the first one with its identifier, or at the end where there is none;
-- before and after it the list is as it was.
pub data Filed (rule : Rule) (old new : List Rule) : Type 0 where
  appended : has_rule rule.id old ≡ false → new ≡ old ++ rule ∷ [] → Filed rule old new
  replaced :
      (before after : List Rule) (x : Rule)
      → has_rule rule.id before ≡ false
      → x.id ≡ rule.id
      → old ≡ before ++ x ∷ after
      → new ≡ before ++ rule ∷ after
      → Filed rule old new

Filed-cons :
    (rule x : Rule) (old new : List Rule)
    → text_eq x.id rule.id ≡ false
    → Filed rule old new
    → Filed rule (x ∷ old) (x ∷ new)
unfolding has_rule
Filed-cons rule x old new ne (appended missing e) =
    appended (rw ne missing) (ap {B = List Rule} (λ xs. x ∷ xs) e)
Filed-cons rule x old new ne (replaced before after y missing same was is) =
    replaced (x ∷ before) after y (rw ne missing) same (ap {B = List Rule} (λ xs. x ∷ xs) was)
      (ap {B = List Rule} (λ xs. x ∷ xs) is)

put_rule-Filed : (rule : Rule) (xs : List Rule) → Filed rule xs (put_rule rule xs)
unfolding put_rule has_rule
put_rule-Filed rule [] = appended refl refl
put_rule-Filed rule (x ∷ xs) = elim (Bool-cases (text_eq x.id rule.id)) [
  | inl same ↦ rw same (replaced [] xs x refl ((text_eq_iff x.id rule.id).0 same) refl refl)
  | inr other ↦ rw other (Filed-cons rule x xs (put_rule rule xs) other (put_rule-Filed rule xs))
]

-- An AddRule that succeeds enables the rule, and files it in the place of the first rule with the same
-- identifier, or at the end of the list where there is none; the rest of the list is as it was.
pub add_rule-Filed :
    (next_id : Text) (given rule : Rule) (now : Time) (r : Registry)
    → (add_rule next_id given now r).1 ≡ RuleResult.ok rule
    → (rule.enabled ≡ true) × Filed rule r.rules (add_rule next_id given now r).0.rules
unfolding add_rule emit
add_rule-Filed next_id given rule now r h = elim (RuleResult-cases (normalize_rule given)) [
  | inl (e, refused) ↦ absurd (err_ne e rule (rw (refused, add_rule) at h))
  | inr (q, done) ↦
      let filed : Rule = record q {
        enabled = true;
        created_at = if is_zero q.created_at then now else q.created_at;
        id = if is_empty q.id then next_id else q.id;
      } in
      let same : filed ≡ rule = ok_eq filed rule (rw (done, add_rule) at h) in
      (
        sym (ap (λ (x : Rule). x.enabled) same),
        rw (done, add_rule)
            (subst (λ (x : Rule). Filed x r.rules (put_rule filed r.rules)) same
              (put_rule-Filed filed r.rules)),
      )
]

-- DeleteRule reports whether there was a rule with the trimmed identifier; afterwards there is none,
-- and every other rule is as it was.
delete_rule_of-find_rule :
    (id j : Text) (r : Registry)
    → ((delete_rule_of id r).1 ≡ is_found (find_rule (trim_space id) r.rules))
      × (find_rule j (delete_rule_of id r).0.rules
          ≡ (if text_eq (trim_space id) j then none else find_rule j r.rules))
unfolding delete_rule_of emit
delete_rule_of-find_rule id j r = (
  ground (arith, has_rule-find_rule (trim_space id) r.rules),
  ground (arith, find_rule-drop_rule (trim_space id) j r.rules),
)
