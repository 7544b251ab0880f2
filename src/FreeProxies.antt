-- ===== src/FreeProxies.antt =====
-- internal/freproxies: the pool of free proxies. A score is held in millionths, so that quality scores
-- are exact. Of a proxy the credentials are left out, which the modelled parts only carry along.
use unified_proxy_pool.Base.{ℕ, Bool, Text, Time, ℤ}
pub mod Groups
pub mod Health
pub mod HotCache
pub mod Score
pub mod Selection
pub mod Store
pub mod Tune
mod Tests

pub record Proxy : Type 0 where
  pub addr : Text
  pub host : Text
  pub port : ℤ
  pub protocol : Text
  pub source : Text
  pub ip_family : Text
  pub score : ℕ
  pub latency_ms : ℤ
  pub region : Text
  pub validated : Bool
  pub last_check : Time
  pub fail_count : ℕ
  pub created_at : Time
  pub updated_at : Time
