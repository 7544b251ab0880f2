-- ===== src/Sticky/Tests.antt =====
-- The sticky store at a concrete history.
use unified_proxy_pool.Base.{
  ◌+◌, ◌*◌, ◌≡◌, refl, List, [], ◌∷◌, arith, codes, text_eq, none, some, Time, second, pos,
}
use unified_proxy_pool.Sticky.{get_proxy}
use unified_proxy_pool.Sticky.History.{Call, putting, setting, run, answer_of, get_proxy-run}

abbrev day : Time
day = 63_902_822_400 * second

abbrev calls : List Call
calls =
    putting (codes "203.0.113.9") (codes "10.0.0.2:1080") (codes "socks5") (day + second)
      (day + second)
    ∷ setting (pos 5_000_000_000)
    ∷ putting (codes "203.0.113.9") (codes "10.0.0.1:80") (codes "http") day day
    ∷ []

get_proxy-run_example :
    get_proxy (run (pos 0) calls) (codes "203.0.113.9") (day + 2 * second)
    ≡ answer_of (pos 0) calls (codes "203.0.113.9") (day + 2 * second)
get_proxy-run_example =
    get_proxy-run (pos 0) calls (codes "203.0.113.9") (day + 2 * second)
      (omega arith, (omega arith, tt)) refl

answer_test :
    answer_of (pos 0) calls (codes "203.0.113.9") (day + 2 * second)
    ≡ some (codes "10.0.0.2:1080", codes "socks5")
unfolding answer_of text_eq
answer_test = refl

expired_test : answer_of (pos 0) calls (codes "203.0.113.9") (day + 7 * second) ≡ none
unfolding answer_of text_eq
expired_test = refl
