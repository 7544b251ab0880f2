-- ===== src/DirectProxy/Throttle/Tests.antt =====
-- A throttle of a hundred bytes per second.
use unified_proxy_pool.Base.{
  ℕ, ◌+◌, ◌-◌, ◌*◌, ◌≤◌, ◌≡◌, refl, List, [], ◌∷◌, none, some, pos, arith,
}
use unified_proxy_pool.DirectProxy.Throttle.{
  Throttle, giga, new_throttle, turn, turns, take_loop, take_bytes,
}
use unified_proxy_pool.DirectProxy.Throttle.Rate.{total, turns_new}
use unified_proxy_pool.DirectProxy.Throttle.Progress.{span_of, turn_passes}

abbrev made : Throttle
made = record { bps = 100; burst = 100; missing = 0; last = 5 }

-- One direction takes a hundred bytes; then both ask, and fifty bytes pass after half a second.
abbrev mixed : List (ℕ × ℕ)
mixed = (0, 100) ∷ (1, 50) ∷ (2, 60) ∷ (500_000_000, 50) ∷ []

turns_test : (turns mixed 5 made).0 ≡ 100 ∷ 0 ∷ 0 ∷ 50 ∷ []
unfolding turns
turns_test = refl

abbrev drained : Throttle
drained = record made { missing = 100 * giga }

abbrev quiet : ℕ → List (ℕ × ℕ)
quiet turn = []

abbrev busy : ℕ → List (ℕ × ℕ)
busy turn = (500_000_000, 50) ∷ []

abbrev punctual : ℕ → ℕ
punctual turn = 0

-- A take of fifty bytes needs half a second, and does not get them where the other direction is first.
take_alone_test :
    take_loop quiet punctual 2 50 5 drained
    ≡ some (500_000_005, record made { missing = 100 * giga; last = 500_000_005 })
unfolding take_loop
take_alone_test = refl

take_late_test : take_loop busy punctual 9 50 5 drained ≡ none
unfolding take_loop
take_late_test = refl

take_bytes_test : take_bytes quiet punctual 3 (pos 500) 5 none ≡ some (5, none)
unfolding take_bytes
take_bytes_test = refl

turns_new_example :
    total (turns mixed 5 made).0 * giga ≤ 100 * giga + ((turns mixed 5 made).1 - 5) * 100
unfolding new_throttle
turns_new_example =
    turns_new 100 mixed 5 made refl (omega arith, (omega arith, (omega arith, (omega arith, tt))))

-- Two takes wait, and a third passes a second after the bucket was drained.
abbrev waiting : List (ℕ × ℕ)
waiting = (1, 50) ∷ (2, 60) ∷ []

turn_passes_example :
    (turn 500 ((turns waiting 5 drained).1 + 1_000_000_000) (turns waiting 5 drained).2).0 ≡ none
unfolding turns total span_of
turn_passes_example =
    turn_passes waiting 500 1_000_000_000 5 drained (omega arith) (omega arith, (omega arith, tt))
      refl (omega arith)
