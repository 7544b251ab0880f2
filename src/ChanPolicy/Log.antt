-- ===== src/ChanPolicy/Log.antt =====
-- internal/chanpolicy/log.go: a ring of the latest outcomes. A cap that is not positive is replaced
-- by the default when the ring is made.
use unified_proxy_pool.Base.{
  ℕ, ◌-◌, ◌≡◌, Bool, List, [], ◌∷◌, ◌++◌, arith, ltb, leb, ◌==◌, ◌||◌, if◌then◌else◌, Text, text_eq,
  is_empty, length, drop, Time,
}
pub mod Laws

-- Why a ban fired. `render` of Registry.Reason writes it as the source's string.
pub data Reason : Type 0 where
  no_reason consecutive_fails timeouts fail_rate : Reason
  rule_consecutive rule_fail_rate rule_timeouts rule_error : Reason
  status_code rule_status : ℕ → Reason
  reported : Reason → Reason
  stored : Text → Reason

pub record LogEntry : Type 0 where
  pub at : Time
  pub channel : Text
  pub addr : Text
  pub ok : Bool
  pub status : ℕ
  pub err : Text
  pub latency_ms : ℕ
  pub reported : Bool
  pub banned : Bool
  pub reason : Reason

pub record LogRing : Type 0 where
  pub items : List LogEntry
  pub cap : ℕ

abbrev pub default_log_cap : ℕ
default_log_cap = 500

unfoldable pub new_log_ring : ℕ → LogRing
new_log_ring cap = record { items = []; cap = if leb cap 0 then default_log_cap else cap }

unfoldable pub add : LogRing → LogEntry → LogRing
add r e =
    let items = r.items ++ e ∷ [] in
    if ltb r.cap (length items)
    then record r { items = drop (length items - r.cap) items }
    else record r { items = items }

unfoldable pub of_channel : Text → List LogEntry → List LogEntry
of_channel channel [] = []
of_channel channel (e ∷ es) =
    if text_eq e.channel channel then e ∷ of_channel channel es else of_channel channel es

-- logRing.list; a limit that is not positive means all.
unfoldable pub list : LogRing → Text → ℕ → List LogEntry
unfolding of_channel
list r channel limit =
    let src = if is_empty channel then r.items else of_channel channel r.items in
    let n = if leb limit 0 || ltb (length src) limit then length src else limit in
    drop (length src - n) src

unfoldable pub clear : LogRing → LogRing
clear r = record r { items = [] }
