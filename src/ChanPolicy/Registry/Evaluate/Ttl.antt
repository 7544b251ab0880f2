-- ===== src/ChanPolicy/Registry/Evaluate/Ttl.antt =====
-- How long a ban lasts: the loop of banTTL against a closed form.
use Prim.Native.Nat.{min}
use native.Mathlib.Nat.{pow-suc}
use unified_proxy_pool.Base.{
  ℕ, zero, suc, ◌*◌, ◌^◌, ◌≤◌, ◌<◌, ◌≡◌, ◌∙◌, ap, arith, ltb, second, if◌then◌else◌, Bool-cases,
  inl, inr, Duration, of_seconds-small, doubled-small, is_shorter-small,
}
use unified_proxy_pool.ChanPolicy.Policy.{Policy}
use unified_proxy_pool.ChanPolicy.Registry.Evaluate.{double_ttl, ban_ttl}

pow_pos : (n : ℕ) → 1 ≤ 2 ^ n
pow_pos zero = omega arith
pow_pos (suc n) = rw pow-suc (omega (arith, pow_pos n))

-- While the TTL is below a maximum within half of the range, nothing wraps around.
capped :
    (n : ℕ) (ttl max : Duration)
    → max ≤ 2 ^ 62
    → ttl < 2 ^ 63
    → (double_ttl n ttl max < 2 ^ 63) × (min (double_ttl n ttl max) max ≡ min (ttl * 2 ^ n) max)
unfolding double_ttl
capped zero ttl max h k = (k, omega arith)
capped (suc n) ttl max h k =
    let tested = is_shorter-small ttl max k (omega (arith, h)) in
    elim (Bool-cases (ltb ttl max)) [
      | inl e ↦
          let small : ttl * 2 < 2 ^ 63 = ground (arith, h, e) in
          let rest = capped n (ttl * 2) max h small in
          rw (tested, e)
            (rw (doubled-small ttl k)
              (rest.0, rest.1 ∙ ap (λ k. min k max) (rw pow-suc (grind arith))))
      | inr e ↦
          let le : max ≤ ttl = ground arith in
          let far : ttl ≤ ttl * 2 ^ suc n = grind (arith, pow_pos (suc n)) in
          rw (tested, e) (k, omega (arith, le, far))
    ]

-- Where the maximum is at least the base TTL, as Normalize makes it, and at most 4611686018 seconds
-- (146 years), no product overflows: a ban lasts for the base TTL doubled once for each earlier
-- strike, but never longer than the maximum.
pub ban_ttl-eq-min :
    (p : Policy) (strikes : ℕ)
    → p.ban_ttl_sec ≤ p.ban_ttl_max_sec
    → p.ban_ttl_max_sec ≤ 4_611_686_018
    → ban_ttl p strikes ≡ min (p.ban_ttl_sec * second * 2 ^ strikes) (p.ban_ttl_max_sec * second)
unfolding ban_ttl
ban_ttl-eq-min p strikes base bound =
    let max = p.ban_ttl_max_sec * second in
    let start = p.ban_ttl_sec * second in
    let fits = capped strikes start max (omega (arith, bound)) (omega (arith, base, bound)) in
    let t = double_ttl strikes start max in
    let tested = is_shorter-small max t (omega (arith, bound)) fits.0 in
    let cut : (if ltb max t then max else t) ≡ min t max = ground arith in
    rw
      (
        of_seconds-small p.ban_ttl_max_sec bound,
        of_seconds-small p.ban_ttl_sec (omega (arith, base, bound)),
        tested,
      )
      (cut ∙ fits.1)
