-- ===== src/ChanPolicy/Name.antt =====
-- internal/chanpolicy/normalize.go: the name of a channel from a request's target. The public
-- suffix list (golang.org/x/net/publicsuffix) is the parameter `etld1` of `normalize_target`.
use unified_proxy_pool.Base.{
  ℕ, ◌+◌, Bool, false, ◌&&◌, ◌||◌, [], ◌∷◌, ltb, ◌==◌, if◌then◌else◌, Text, codes, text_eq,
  is_empty, to_lower, trim_space, has_prefix, Option, none, some, length, drop,
}
use unified_proxy_pool.ChanPolicy.Policy.{key_host, key_off}

abbrev pub default_channel : Text
default_channel = codes "default"

-- The rest of the text behind the first occurrence of "://", if there is one.
unfoldable pub after_scheme : Text → Text → Text
after_scheme whole [] = whole
after_scheme whole (c ∷ s) =
    let rest = after_scheme whole s in if has_prefix (c ∷ s) (codes "://") then drop 2 s else rest

unfoldable pub is_path_byte : ℕ → Bool
is_path_byte c = c == b'/' || c == b'?' || c == b'#'

-- The text up to the first byte of "/?#".
unfoldable pub before_path : Text → Text
before_path [] = []
before_path (c ∷ s) = if is_path_byte c then [] else c ∷ before_path s

-- The text behind the last '@'.
unfoldable pub after_userinfo : Text → Text → Text
after_userinfo best [] = best
after_userinfo best (c ∷ s) = after_userinfo (if c == b'@' then s else best) s

-- The text up to the first ']', if there is one.
unfoldable pub before_bracket : Text → Option Text
before_bracket [] = none
before_bracket (c ∷ s) =
    if c == b']' then some [] else elim (before_bracket s) [ none ↦ none | some t ↦ some (c ∷ t) ]

unfoldable pub count_byte : ℕ → Text → ℕ
count_byte b [] = 0
count_byte b (c ∷ s) = (if c == b then 1 else 0) + count_byte b s

unfoldable pub before_colon : Text → Text
before_colon [] = []
before_colon (c ∷ s) = if c == b':' then [] else c ∷ before_colon s

-- strings.TrimSuffix(h, ".")
unfoldable pub trim_dot : Text → Text
trim_dot [] = []
trim_dot (c ∷ []) = if c == b'.' then [] else c ∷ []
trim_dot (c ∷ d ∷ s) = c ∷ trim_dot (d ∷ s)

unfoldable pub canonical_host : Text → Text
unfolding trim_dot
canonical_host h = let l = to_lower (trim_space h) in if ltb 1 (length l) then trim_dot l else l

-- The host part of a text that does not begin with '[': net.SplitHostPort takes a text with one
-- colon and no bracket apart, and refuses every other one that reaches it.
unfoldable pub strip_port : Text → Text
unfolding count_byte before_colon canonical_host
strip_port s =
    if ltb 1 (count_byte b':' s)
    then canonical_host s
    else if count_byte b':' s == 1 && count_byte b'[' s == 0 && count_byte b']' s == 0
    then canonical_host (before_colon s)
    else canonical_host s

-- hostOf, from where the userinfo is dropped.
unfoldable pub host_of_authority : Text → Text
unfolding before_bracket canonical_host strip_port
host_of_authority [] = []
host_of_authority (c ∷ s) =
    if c == b'['
    then elim (before_bracket s) [ none ↦ canonical_host s | some t ↦ canonical_host t ]
    else strip_port (c ∷ s)

unfoldable pub host_of : Text → Text
unfolding after_scheme before_path after_userinfo host_of_authority
host_of target =
    let s = trim_space target in
    let p = before_path (after_scheme s s) in host_of_authority (trim_space (after_userinfo p p))

-- Normalize. `etld1 h` is publicsuffix.EffectiveTLDPlusOne: none where that fails.
unfoldable pub normalize_target : (Text → Option Text) → Text → Text → Text
unfolding host_of
normalize_target etld1 target mode =
    let host = host_of target in
    if is_empty host
    then default_channel
    else if text_eq mode key_off
    then default_channel
    else if text_eq mode key_host
    then host
    else elim (etld1 host) [ none ↦ host | some domain ↦ if is_empty domain then host else domain ]

-- strings.ContainsAny(n, "/:@")
unfoldable pub has_target_byte : Text → Bool
has_target_byte [] = false
has_target_byte (c ∷ s) = c == b'/' || c == b':' || c == b'@' || has_target_byte s

unfoldable pub normalize_channel_name : Text → Text
unfolding canonical_host has_target_byte host_of
normalize_channel_name name =
    let n = canonical_host name in
    if is_empty n then [] else if has_target_byte n then host_of n else n
