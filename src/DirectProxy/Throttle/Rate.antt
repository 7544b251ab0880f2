-- ===== src/DirectProxy/Throttle/Rate.antt =====
-- internal/directproxy/throttle.go: the bytes that pass one throttle, in all turns of the takes that share it.
use native.Mathlib.Nat.{mul-le-mul_right}
use unified_proxy_pool.Base.{
  ℕ, ◌+◌, ◌-◌, ◌*◌, ◌≤◌, ◌≡◌, refl, ap, subst, ◌∙◌, true, inl, inr, ◌||◌, ltb, leb, List, [], ◌∷◌,
  Option, none, some, Time, pos, ◌==◌, arith, Bool-cases,
}
use unified_proxy_pool.DirectProxy.Throttle.{
  Throttle, giga, refill, may_pass, spent, let_through, turn, turns, new_throttle,
}

-- A throttle at a time at which no bytes are owed beyond the burst of one second.
abbrev InCredit : ℕ → Time → Throttle → Type 0
InCredit bps now t = (t.bps ≡ bps) × (t.burst ≡ bps) × (t.missing ≤ bps * giga) × (t.last ≤ now)

-- What passed between two states of a throttle is covered by the time between them.
abbrev Covered : ℕ → ℕ → Throttle → Throttle → Type 0
Covered bps n t t1 = t.missing + n * giga ≤ t1.missing + (t1.last - t.last) * bps

pub spans :
    (last now later b : ℕ)
    → last ≤ now
    → now ≤ later
    → (now - last) * b + (later - now) * b ≡ (later - last) * b
spans last now later b h k =
    distrib (now - last) (later - now) b ∙ ap (λ d. d * b) (omega (arith, h, k))
  where
    distrib : (x y z : ℕ) → x * z + y * z ≡ (x + y) * z
    distrib x y z = omega arith

fits :
    (m n b : ℕ)
    → n ≤ b
    → (leb (m + n * giga) (b * giga) || ltb b n) ≡ true
    → m + n * giga ≤ b * giga
fits m n b small h = ground (arith, small, h)

some_inj {ℓ} : {A : Type ℓ} (a b : A) → some a ≡ some b → a ≡ b
some_inj {A = A} a b h = ap (λ (o : Option A). elim o [ none ↦ a | some x ↦ x ]) h

made_lem :
    (bps : ℕ) (now : Time) (t : Throttle)
    → new_throttle (pos bps) now ≡ some t
    → InCredit bps now t × (t.last ≡ now) × (t.missing ≡ 0)
unfolding new_throttle
made_lem bps now t h = elim (Bool-cases (bps == 0)) [
  | inl zero_rate ↦ absurd (ground (arith, rw zero_rate at h))
  | inr rate ↦
      subst (λ (t : Throttle). InCredit bps now t × (t.last ≡ now) × (t.missing ≡ 0))
        (some_inj _ t (rw rate at h)) ((refl, refl, omega arith, omega arith), refl, refl)
]

passed_lem :
    (bps n : ℕ) (now : Time) (t : Throttle)
    → n ≤ bps
    → InCredit bps now t
    → may_pass n (refill now t) ≡ true
    → InCredit bps now (spent n (refill now t)) × Covered bps n t (spent n (refill now t))
unfolding may_pass refill spent
passed_lem bps n now t small c h =
    let e = (now - t.last) * t.bps in
    let fit = fits (t.missing - e) n t.burst (omega (arith, small, c.1)) h in
    let same : e ≡ (now - t.last) * bps = ap (λ b. (now - t.last) * b) c.0 in
    ((c.0, c.1, omega (arith, fit, ap (λ b. b * giga) c.1), omega arith), omega (arith, same))

refused_lem :
    (bps n : ℕ) (now : Time) (t : Throttle)
    → InCredit bps now t
    → InCredit bps now (refill now t) × Covered bps 0 t (refill now t)
unfolding refill
refused_lem bps n now t c =
    let same : (now - t.last) * t.bps ≡ (now - t.last) * bps = ap (λ b. (now - t.last) * b) c.0 in
    ((c.0, c.1, omega (arith, c.2), omega arith), omega (arith, same))

-- What a turn guarantees, of the wait that it asks for and the throttle that it leaves.
abbrev Outcome : ℕ → ℕ → Time → Throttle → Option ℕ × Throttle → Type 0
Outcome bps n now t r =
    InCredit bps now r.1 × (r.1.last ≡ now) × Covered bps (let_through n r.0) t r.1

turn_lem :
    (bps n : ℕ) (now : Time) (t : Throttle)
    → n ≤ bps
    → InCredit bps now t
    → Outcome bps n now t (turn n now t)
unfolding turn refill spent
turn_lem bps n now t small c = elim (Bool-cases (may_pass n (refill now t))) [
  | inl passes ↦
      let fine = passed_lem bps n now t small c passes in rw passes (fine.0, refl, fine.1)
  | inr waits ↦ let fine = refused_lem bps n now t c in rw waits (fine.0, refl, fine.1)
]

-- Every request is within the bytes of a second.
abbrev pub Small : ℕ → List (ℕ × ℕ) → Type 0
Small bps [] = Unit
Small bps ((idle, n) ∷ qs) = (n ≤ bps) × Small bps qs

unfoldable pub total : List ℕ → ℕ
total [] = 0
total (n ∷ ns) = n + total ns

Covered-sum :
    (bps n m : ℕ) (t t1 t2 : Throttle)
    → t.last ≤ t1.last
    → t1.last ≤ t2.last
    → Covered bps n t t1
    → Covered bps m t1 t2
    → Covered bps (n + m) t t2
Covered-sum bps n m t t1 t2 h k first second =
    omega (arith, first, second, spans t.last t1.last t2.last bps h k)

-- What any turns guarantee.
abbrev Covers : ℕ → Time → Throttle → List ℕ × Time × Throttle → Type 0
Covers bps now t r = InCredit bps r.1 r.2 × (t.last ≤ r.2.last) × Covered bps (total r.0) t r.2

turns_lem :
    (bps : ℕ) (qs : List (ℕ × ℕ)) (now : Time) (t : Throttle)
    → Small bps qs
    → InCredit bps now t
    → Covers bps now t (turns qs now t)
unfolding turns total
turns_lem bps [] now t small c = (c, omega arith, omega arith)
turns_lem bps ((idle, n) ∷ qs) now t small c =
    let start : InCredit bps (now + idle) t = (c.0, c.1, c.2, omega (arith, c.3)) in
    let first = turn_lem bps n (now + idle) t small.0 start in
    let t1 = (turn n (now + idle) t).1 in
    let rest = turns_lem bps qs (now + idle) t1 small.1 first.0 in
    let later : t.last ≤ t1.last = omega (arith, start.3, first.1) in
    (
      rest.0,
      omega (arith, later, rest.1),
      Covered-sum bps (let_through n (turn n (now + idle) t).0) (total (turns qs (now + idle) t1).0)
          t t1 (turns qs (now + idle) t1).2 later rest.1 first.2 rest.2,
    )

-- However the turns of the takes of both directions interleave, each of at most bps bytes: what has
-- passed a throttle at a rate of bps bytes per second is at most bps bytes more than the rate times
-- the time since the throttle was made.
pub turns_new :
    (bps : ℕ) (qs : List (ℕ × ℕ)) (now : Time) (t : Throttle)
    → new_throttle (pos bps) now ≡ some t
    → Small bps qs
    → total (turns qs now t).0 * giga ≤ bps * giga + ((turns qs now t).1 - now) * bps
turns_new bps qs now t made small =
    let c = made_lem bps now t made in
    let served = turns_lem bps qs now t small c.0 in
    let r = turns qs now t in
    let span : (r.2.last - t.last) * bps ≤ (r.1 - now) * bps =
      mul-le-mul_right bps (omega (arith, served.0.3, c.1)) in
    omega (arith, served.2, served.0.2, span)
