-- ===== src/ApiToken.antt =====
-- internal/apitoken/scopes.go: whether the scopes of a token grant what a route needs.
use mathlib.Core.List.{reverse}
use unified_proxy_pool.Base.{
  ℕ, Bool, true, false, not, ◌&&◌, ◌||◌, List, [], ◌∷◌, ◌==◌, if◌then◌else◌, Text, codes, text_eq,
  is_empty, to_lower, trim_space, has_prefix, before_first, Option, none, some,
}
pub mod Scopes
mod Tests

abbrev pub scope_admin : Text
scope_admin = codes "admin"

-- DefaultScopes
abbrev pub default_scopes : Text
default_scopes = codes "proxies:read"

abbrev pub is_separator : ℕ → Bool
is_separator c = c == b',' || c == b' ' || c == b';'

-- Whether a field begins at the start of the text.
unfoldable pub begins : Text → Bool
begins [] = false
begins (c ∷ s) = not (is_separator c)

-- A byte before the first field, which it joins or comes before.
unfoldable pub glue : ℕ → Bool → List Text → List Text
glue c true (w ∷ ws) = (c ∷ w) ∷ ws
glue c _ ws = (c ∷ []) ∷ ws

-- strings.FieldsFunc with the separators above
unfoldable pub fields : Text → List Text
unfolding begins glue
fields [] = []
fields (c ∷ s) = let rest = fields s in if is_separator c then rest else glue c (begins s) rest

-- strings.Cut(s, ":")
unfoldable pub cut : Text → Option (Text × Text)
cut [] = none
cut (c ∷ s) =
    if c == b':'
    then some ([], s)
    else elim (cut s) [ none ↦ none | some (group, action) ↦ some (c ∷ group, action) ]

unfoldable pub ends_with_read : Text → Bool
unfolding has_prefix
ends_with_read want = has_prefix (reverse want) (reverse (codes ":read"))

-- The body of HasScope's loop, for a scope `got` in lower case without spaces.
unfoldable pub grants : Text → Text → Bool
unfolding text_eq cut ends_with_read before_first
grants want got =
    if is_empty got
    then false
    else if text_eq got scope_admin || text_eq got (codes "*")
    then true
    else if text_eq got want
    then true
    else elim (cut got) [
      | none ↦ false
      | some (group, action) ↦
          if not (text_eq group (before_first b':' want))
          then false
          else if text_eq action (codes "*")
          then true
          else text_eq action (codes "write") && ends_with_read want
    ]

unfoldable pub clean : Text → Text
unfolding trim_space to_lower
clean s = trim_space (to_lower s)

unfoldable pub any_grants : Text → List Text → Bool
any_grants want [] = false
any_grants want (raw ∷ rest) = grants want (clean raw) || any_grants want rest

unfoldable pub has_scope : Text → Text → Bool
has_scope scopes want =
    if is_empty (clean want) then true else any_grants (clean want) (fields scopes)
