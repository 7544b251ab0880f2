-- ===== src/CfScan.antt =====
-- internal/cfscan/expand.go: the addresses that a scan is given as text. An IPv4 address is a number of
-- 32 bits. The map `seen` of the source holds what stands in `out`, and is not held a second time.
use unified_proxy_pool.Base.{
  ℕ, zero, suc, ◌+◌, ◌-◌, ◌*◌, ◌/◌, ◌%◌, ◌^◌, Bool, true, false, not, ◌&&◌, ◌||◌, List, [], ◌∷◌,
  ◌++◌, ltb, leb, ◌==◌, if◌then◌else◌, ◌>>=◌, Text, codes, is_empty, trim_space, has_prefix,
  contains, member_text, Option, none, some, length,
}
use unified_proxy_pool.FreeProxies.Store.{write_decimal}
pub mod Lines
pub mod Targets
mod Tests

abbrev pub max_targets : ℕ
max_targets = 20000

-- What net.ParseIP finds: an address with a form of four bytes, or another one.
pub data Address : Type 0 where
  ipv4 : ℕ → Address
  ipv6 : Address

-- What net.ParseCIDR finds: the address, and the size of the mask of its network.
pub record Cidr : Type 0 where
  pub address : Address
  pub ones : ℕ
  pub bits : ℕ

-- strings.Split(text, "\n")
unfoldable pub split_lines : Text → List Text
split_lines [] = [] ∷ []
split_lines (c ∷ s) = elim (split_lines s) [
  | [] ↦ (c ∷ []) ∷ []
  | line ∷ lines ↦ if c == 10 then [] ∷ line ∷ lines else (c ∷ line) ∷ lines
]

-- net.IP.String of four bytes.
unfoldable pub dotted : ℕ → Text
unfolding write_decimal
dotted v = write_decimal 3 (v / 2 ^ 24 % 256) (
    b'.'
    ∷ write_decimal 3 (v / 2 ^ 16 % 256)
        (b'.' ∷ write_decimal 3 (v / 2 ^ 8 % 256) (b'.' ∷ write_decimal 3 (v % 256) [])))

unfoldable pub add_ipv4 : ℕ → ℕ → ℕ
add_ipv4 v n = (v + n) % 2 ^ 32

-- The loop of expandCIDR from its i-th turn on, for a network of addresses of `size`.
unfoldable pub expand_from : ℕ → ℕ → ℕ → ℕ → List Text
unfolding add_ipv4 dotted
expand_from size start i zero = []
expand_from size start i (suc k) =
    let rest = expand_from size start (i + 1) k in
    if add_ipv4 start i / size == start / size then dotted (add_ipv4 start i) ∷ rest else rest

-- One target; none is an error.
unfoldable pub add_target : Text → List Text → Option (List Text)
unfolding member_text
add_target ip out =
    if member_text ip out
    then some out
    else if leb max_targets (length out)
    then none
    else some (out ++ ip ∷ [])

unfoldable pub add_targets : List Text → List Text → Option (List Text)
unfolding add_target
add_targets [] out = some out
add_targets (ip ∷ ips) out = do next ← add_target ip out; add_targets ips next

module _ (parse_ip : Text → Option Address) (parse_cidr : Text → Option Cidr) where
  unfoldable pub expand_address : Address → ℕ → ℕ → Option (List Text)
  unfolding expand_from
  expand_address ipv6 ones bits = none
  expand_address (ipv4 v) ones bits =
      let size = 2 ^ (32 - ones) in
      if not (bits == 32)
      then none
      else if ltb max_targets size
      then none
      else some (expand_from size (v / size * size) 0 size)

  unfoldable pub expand_cidr : Text → Option (List Text)
  unfolding expand_address
  expand_cidr cidr = do c ← parse_cidr cidr; expand_address c.address c.ones c.bits

  abbrev pub is_skipped : Text → Bool
  is_skipped line = is_empty line || has_prefix line (codes "#")

  -- What a line stands for; none is an error.
  unfoldable pub targets_of : Text → Option (List Text)
  unfolding expand_cidr contains has_prefix dotted
  targets_of line =
      if is_skipped line
      then some []
      else if contains line (codes ":") && not (contains line (codes "."))
      then none
      else if contains line (codes "/")
      then expand_cidr line
      else elim (parse_ip line) [
        | none ↦ none
        | some ipv6 ↦ none
        | some (ipv4 v) ↦ some (dotted v ∷ [])
      ]

  unfoldable pub read_lines : List Text → List Text → Option (List Text)
  unfolding targets_of add_targets trim_space
  read_lines [] out = some out
  read_lines (line ∷ lines) out = do
    ips ← targets_of (trim_space line)
    next ← add_targets ips out
    read_lines lines next

  unfoldable pub parse_targets : Text → Option (List Text)
  unfolding read_lines split_lines
  parse_targets text = do
    out ← read_lines (split_lines text) []
    if length out == 0 then none else some out
