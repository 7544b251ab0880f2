-- ===== src/ApiToken/Tests.antt =====
-- Scopes of concrete tokens.
use unified_proxy_pool.Base.{◌≡◌, refl, true, ◌||◌, codes, text_eq, is_empty, to_lower, trim_space}
use unified_proxy_pool.ApiToken.{default_scopes, clean, has_scope, any_grants, fields, grants, cut}
use unified_proxy_pool.ApiToken.Scopes.{has_scope-default}

has_scope-default_example : has_scope default_scopes (codes "proxies:write") ≡ (
    is_empty (clean (codes "proxies:write"))
    || text_eq default_scopes (clean (codes "proxies:write")))
has_scope-default_example = has_scope-default (codes "proxies:write")

write_reads_test : has_scope (codes "Proxies:Write") (codes "proxies:read") ≡ true
unfolding has_scope any_grants fields grants clean cut text_eq to_lower trim_space
write_reads_test = refl
