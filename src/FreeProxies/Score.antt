-- ===== src/FreeProxies/Score.antt =====
-- internal/freproxies/types.go: the quality score of a proxy, and the family of its address. A float
-- product of the source is exact here, and a score is rounded down to a millionth.
use unified_proxy_pool.Base.{
  ℕ, ◌+◌, ◌-◌, ◌*◌, ◌/◌, ◌≤◌, not, List, [], ◌∷◌, arith, ltb, leb, if◌then◌else◌, Text, codes,
  is_empty, trim_space, has_prefix, drop, Option, none, some, ℤ, pos, negsuc, is_le_zero, to_nat,
}
use unified_proxy_pool.FreeProxies.{Proxy}

-- 1.0
abbrev pub point : ℕ
point = 1_000_000

abbrev pub score_init : ℕ
score_init = 10 * point

abbrev pub score_max : ℕ
score_max = 100 * point

abbrev pub quality_score_per_ms : ℕ
quality_score_per_ms = 50

abbrev pub quality_floor : ℕ
quality_floor = 20 * point

-- A difference below 0 is below the floor as well.
unfoldable pub quality_score : ℤ → ℕ
quality_score latency_ms =
    if is_le_zero latency_ms
    then score_max
    else let score = score_max - to_nat latency_ms * point / quality_score_per_ms in
      let floored = if ltb score quality_floor then quality_floor else score in
      if ltb score_max floored then score_max else floored

-- int64(0.7 * prev + 0.3 * next), which truncates towards 0.
unfoldable pub mix : ℕ → ℤ → ℤ
mix prev (pos n) = pos ((7 * prev + 3 * n) / 10)
mix prev (negsuc n) =
    if leb (3 * (n + 1)) (7 * prev)
    then pos ((7 * prev - 3 * (n + 1)) / 10)
    else let back = (3 * (n + 1) - 7 * prev) / 10 in if leb 1 back then negsuc (back - 1) else pos 0

unfoldable pub smooth_latency : ℤ → ℤ → ℤ
unfolding mix
smooth_latency prev next = if is_le_zero prev then next else mix (to_nat prev) next

unfoldable pub blend_score : ℕ → ℕ → ℕ
blend_score prev quality = (7 * prev + 3 * quality) / 10

abbrev pub family_ipv4 : Text
family_ipv4 = codes "ipv4"

abbrev pub family_ipv6 : Text
family_ipv6 = codes "ipv6"

abbrev pub family_unknown : Text
family_unknown = codes "unknown"

-- What net.ParseIP finds in a text: an address of four or of sixteen bytes, with its text in
-- canonical form.
pub data Ip : Type 0 where
  v4 : Text → Ip
  v6 : Text → Ip

unfoldable pub trim_bracket : Text → Text
unfolding has_prefix
trim_bracket h = if has_prefix h (codes "[") then drop 1 h else h

-- strings.TrimSuffix(h, "]")
unfoldable pub trim_close : Text → Text
trim_close [] = []
trim_close (c ∷ []) = if has_prefix (c ∷ []) (codes "]") then [] else c ∷ []
trim_close (c ∷ d ∷ h) = c ∷ trim_close (d ∷ h)

unfoldable pub detect_family : (Text → Option Ip) → Text → Text
unfolding trim_bracket trim_close trim_space
detect_family parse_ip host =
    let h = trim_close (trim_bracket (trim_space host)) in
    if is_empty h then family_unknown else elim (parse_ip h) [
      | none ↦ family_unknown
      | some (v4 t) ↦ family_ipv4
      | some (v6 t) ↦ family_ipv6
    ]

-- Proxy.Family
unfoldable pub family : (Text → Option Ip) → Proxy → Text
unfolding detect_family
family parse_ip p =
    if not (is_empty p.ip_family) then p.ip_family else detect_family parse_ip p.host

-- qualityBucketEdges: the lower edges, in points, of the bands after the first.
abbrev pub band_edges : List ℕ
band_edges = 21 ∷ 41 ∷ 61 ∷ 81 ∷ []

-- bucketForScore, as the index of the band.
unfoldable pub band_of : ℕ → List ℕ → ℕ
band_of score [] = 0
band_of score (e ∷ es) =
    let rest = band_of score es in if ltb score (e * point) then 0 else 1 + rest

pub quality_score-bounds :
    (latency_ms : ℤ)
    → (quality_floor ≤ quality_score latency_ms) × (quality_score latency_ms ≤ score_max)
unfolding quality_score
quality_score-bounds latency_ms = (ground arith, ground arith)

pub blend_score-bound :
    (prev quality : ℕ)
    → prev ≤ score_max
    → quality ≤ score_max
    → blend_score prev quality ≤ score_max
unfolding blend_score
blend_score-bound prev quality h k = omega arith
