-- ===== src/ApiToken/Scopes.antt =====
-- HasScope (internal/apitoken/scopes.go) on joined lists of scopes and on the default.
use unified_proxy_pool.Base.{
  ℕ, ◌≡◌, refl, ◌∙◌, ap, Bool, true, false, not, ◌||◌, List, [], ◌∷◌, ◌++◌, if◌then◌else◌, inl, inr,
  Text, codes, text_eq, is_empty, to_lower, trim_space, before_first, Bool-cases,
}
use unified_proxy_pool.ApiToken.{
  default_scopes, is_separator, begins, glue, fields, cut, grants, clean, any_grants, has_scope,
}

begins-append : (s t : Text) (c : ℕ) → is_separator c ≡ true → begins (s ++ c ∷ t) ≡ begins s
unfolding begins
begins-append [] t c h = rw h refl
begins-append (d ∷ s) t c h = refl

-- Where a field begins, there is one.
glue-append :
    (d : ℕ) (s : Text) (ys : List Text)
    → glue d (begins s) (fields s ++ ys) ≡ glue d (begins s) (fields s) ++ ys
unfolding begins fields glue
glue-append d [] ys = refl
glue-append d (c ∷ s) ys = elim (Bool-cases (is_separator c)) [
  | inl sep ↦ rw sep refl
  | inr other ↦ rw other (glued c (begins s) (fields s))
]
  where
    glued :
        (c : ℕ) (b : Bool) (ws : List Text)
        → glue d true (glue c b ws ++ ys) ≡ glue d true (glue c b ws) ++ ys
    glued c true [] = refl
    glued c true (w ∷ ws) = refl
    glued c false ws = refl

fields-append :
    (s t : Text) (c : ℕ) → is_separator c ≡ true → fields (s ++ c ∷ t) ≡ fields s ++ fields t
unfolding fields
fields-append [] t c h = rw h refl
fields-append (d ∷ s) t c h = elim (Bool-cases (is_separator d)) [
  | inl sep ↦ rw sep (fields-append s t c h)
  | inr other ↦
      rw other (rw (begins-append s t c h, fields-append s t c h) (glue-append d s (fields t)))
]

any_grants-append :
    (want : Text) (xs ys : List Text)
    → any_grants want (xs ++ ys) ≡ (any_grants want xs || any_grants want ys)
unfolding any_grants
any_grants-append want [] ys = refl
any_grants-append want (x ∷ xs) ys = elim (Bool-cases (grants want (clean x))) [
  | inl granted ↦ rw granted refl
  | inr refused ↦ rw refused (any_grants-append want xs ys)
]

-- Two lists of scopes, joined by a comma, a space or a semicolon, grant exactly what one of them
-- grants.
has_scope-append :
    (s t want : Text) (c : ℕ)
    → is_separator c ≡ true
    → has_scope (s ++ c ∷ t) want ≡ (has_scope s want || has_scope t want)
unfolding has_scope
has_scope-append s t want c h = elim (Bool-cases (is_empty (clean want))) [
  | inl free ↦ rw free refl
  | inr needed ↦ rw needed (
      ap (any_grants (clean want)) (fields-append s t c h)
      ∙ any_grants-append (clean want) (fields s) (fields t))
]

or_false : (a : Bool) → (a || false) ≡ a
or_false true = refl
or_false false = refl

either_way : (a b : Bool) → (if a then true else if b then false else false) ≡ a
either_way true b = refl
either_way false true = refl
either_way false false = refl

grants_reading : (want : Text) → grants want default_scopes ≡ text_eq default_scopes want
unfolding grants cut text_eq
grants_reading want =
    either_way (text_eq default_scopes want)
      (not (text_eq (codes "proxies") (before_first b':' want)))

default_fields :
    (want : Text) → any_grants want (fields default_scopes) ≡ (grants want default_scopes || false)
unfolding any_grants fields clean to_lower trim_space
default_fields want = refl

-- The default scopes grant reading the proxies, and else only what needs no scope.
pub has_scope-default :
    (want : Text)
    → has_scope default_scopes want ≡ (is_empty (clean want) || text_eq default_scopes (clean want))
unfolding has_scope
has_scope-default want = elim (Bool-cases (is_empty (clean want))) [
  | inl free ↦ rw free refl
  | inr needed ↦ rw needed (
      default_fields (clean want)
      ∙ rw (grants_reading (clean want)) (or_false (text_eq default_scopes (clean want))))
]
