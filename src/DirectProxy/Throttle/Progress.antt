-- ===== src/DirectProxy/Throttle/Progress.antt =====
-- internal/directproxy/throttle.go: that the takes which share a throttle cannot all wait for ever.
use unified_proxy_pool.Base.{
  ℕ, ◌+◌, ◌-◌, ◌*◌, ◌≤◌, ◌≡◌, refl, ap, true, inl, inr, ◌||◌, ltb, leb, List, [], ◌∷◌, none, Time,
  arith, Bool-cases,
}
use unified_proxy_pool.DirectProxy.Throttle.{Throttle, giga, refill, may_pass, turn, turns}
use unified_proxy_pool.DirectProxy.Throttle.Rate.{total, spans}

-- The time that the turns span.
unfoldable pub span_of : List (ℕ × ℕ) → ℕ
span_of [] = 0
span_of ((idle, n) ∷ qs) = idle + span_of qs

-- Every request has bytes.
abbrev pub Asking : List (ℕ × ℕ) → Type 0
Asking [] = Unit
Asking ((idle, n) ∷ qs) = (1 ≤ n) × Asking qs

full_passes : (m n burst : ℕ) → m ≡ 0 → (leb (m + n * giga) (burst * giga) || ltb burst n) ≡ true
full_passes m n burst h = ground (arith, h)

paid_passes :
    (n : ℕ) (now : Time) (t : Throttle)
    → t.missing ≤ (now - t.last) * t.bps
    → may_pass n (refill now t) ≡ true
unfolding may_pass refill
paid_passes n now t h =
    full_passes (t.missing - (now - t.last) * t.bps) n t.burst (omega (arith, h))

at_once : (m last now idle b : ℕ) → m ≤ (now + 0 + idle - last) * b → m ≤ (now + idle - last) * b
at_once m last now idle b h = omega (arith, h, ap (λ d. d * b) (plus_zero now idle last))
  where
    plus_zero : (x y z : ℕ) → x + 0 + y - z ≡ x + y - z
    plus_zero x y z = omega arith

paid_later :
    (m last now gap rest idle b : ℕ)
    → last ≤ now
    → m ≤ (now + (gap + rest) + idle - last) * b
    → m - (now + gap - last) * b ≤ (now + gap + rest + idle - (now + gap)) * b
paid_later m last now gap rest idle b h paid =
    let end = now + gap + rest + idle in
    let same : (now + (gap + rest) + idle - last) * b ≡ (end - last) * b =
      ap (λ d. (d - last) * b) (omega arith) in
    omega (arith, paid, same, spans last (now + gap) end b (omega (arith, h)) (omega arith))

-- The takes that share a throttle do not all wait for ever: after turns for at least one byte each, of
-- which none let bytes through, at a time that has paid for what was missing before them, the next
-- turn passes, whichever take it is of and however much it asks for.
pub turn_passes :
    (qs : List (ℕ × ℕ)) (n idle : ℕ) (now : Time) (t : Throttle)
    → t.last ≤ now
    → Asking qs
    → total (turns qs now t).0 ≡ 0
    → t.missing ≤ (now + span_of qs + idle - t.last) * t.bps
    → (turn n ((turns qs now t).1 + idle) (turns qs now t).2).0 ≡ none
unfolding turns turn span_of total refill
turn_passes [] n idle now t h ask waited paid =
    rw (paid_passes n (now + idle) t (at_once t.missing t.last now idle t.bps paid)) refl
turn_passes ((gap, m) ∷ qs) n idle now t h ask waited paid =
    elim (Bool-cases (may_pass m (refill (now + gap) t))) [
      | inl passes ↦ absurd (ground (arith, ask.0, rw passes at waited))
      | inr waits ↦ rw waits (
          turn_passes qs n idle (now + gap) (refill (now + gap) t) (omega arith) ask.1
            (omega (arith, rw waits at waited))
            (paid_later t.missing t.last now gap (span_of qs) idle t.bps h paid))
    ]
