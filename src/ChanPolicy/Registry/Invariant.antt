-- ===== src/ChanPolicy/Registry/Invariant.antt =====
-- The invariant of a registry: distinct names that are not empty, and both maps within their caps.
use unified_proxy_pool.Base.{ℕ, [], arith, Each}
use unified_proxy_pool.ChanPolicy.Policy.{RawPolicy}
use unified_proxy_pool.ChanPolicy.Policy.Laws.{IsUsable, normalize-IsUsable}
use unified_proxy_pool.ChanPolicy.Registry.State.{Registry, new}
use unified_proxy_pool.ChanPolicy.Registry.Evict.Room.{Fits}

pub record Inv (r : Registry) : Type 0 where
  pub usable : IsUsable r.policy
  pub chans : Fits r.policy.max_channels r.chans
  pub entries : Each (λ _ ch. Fits r.policy.max_entries_per_chan ch.entries) r.chans

pub no_entries-Fits : {V : Type 0} (n : ℕ) → Fits {V = V} n []
no_entries-Fits n = record { distinct = tt; named = tt; bounded = omega arith }

pub new-Inv : (p : RawPolicy) → Inv (new p)
unfolding new
new-Inv p = record { usable = normalize-IsUsable p; chans = no_entries-Fits _; entries = tt }
