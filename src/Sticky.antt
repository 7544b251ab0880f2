-- ===== src/Sticky.antt =====
-- internal/sticky/store.go: the last upstream that served each client, kept for a time to live.
use unified_proxy_pool.Base.{
  ℕ, ◌+◌, ◌*◌, Bool, true, false, ◌||◌, not, List, [], ◌∷◌, arith, ltb, if◌then◌else◌, Text,
  is_empty, Option, none, some, Time, second, Dict, lookup, insert, length, ℤ, is_le_zero, to_nat,
}
pub mod History
mod Tests

pub record Entry : Type 0 where
  pub addr : Text
  pub protocol : Text
  pub exp : Time

pub record Store : Type 0 where
  pub ttl : ℕ
  pub m : Dict Entry

abbrev pub default_ttl : ℕ
default_ttl = 600 * second

unfoldable pub new : ℤ → Store
new d = record { ttl = if is_le_zero d then default_ttl else to_nat d; m = [] }

unfoldable pub set_ttl : ℤ → Store → Store
set_ttl d s = if is_le_zero d then s else record s { ttl = to_nat d }

-- The address and the protocol of the answer, if there is one.
unfoldable pub get_proxy : Store → Text → Time → Option (Text × Text)
get_proxy s client_ip now = if is_empty client_ip then none else elim (lookup client_ip s.m) [
  | none ↦ none
  | some e ↦ if ltb e.exp now then none else some (e.addr, e.protocol)
]

unfoldable pub get : Store → Text → Time → Option Text
unfolding get_proxy
get s client_ip now = elim (get_proxy s client_ip now) [
  | none ↦ none
  | some (addr, protocol) ↦ some addr
]

-- The cleanup loop: entries that have expired are dropped.
unfoldable pub drop_expired : Time → Dict Entry → Dict Entry
drop_expired now [] = []
drop_expired now ((k, e) ∷ m) =
    let rest = drop_expired now m in if ltb e.exp now then rest else (k, e) ∷ rest

abbrev pub cleanup_above : ℕ
cleanup_above = 5000

-- `now` is read for the new entry, `later` for the cleanup.
unfoldable pub put_proxy : Text → Text → Text → Time → Time → Store → Store
unfolding drop_expired
put_proxy client_ip addr protocol now later s =
    let m = insert client_ip (record { addr = addr; protocol = protocol; exp = now + s.ttl }) s.m in
    if is_empty client_ip || is_empty addr
    then s
    else record s { m = if ltb cleanup_above (length m) then drop_expired later m else m }

unfoldable pub put : Text → Text → Time → Time → Store → Store
unfolding put_proxy
put client_ip addr now later s = put_proxy client_ip addr [] now later s
