-- ===== src/ChanPolicy/Tests/Releases.antt =====
-- Unban, Sweep, SetPolicy and BanSet after the ban of the parent's outcome.
use unified_proxy_pool.Base.{
  inl, [], ◌∷◌, ◌+◌, ◌*◌, ◌≡◌, refl, true, false, ◌⊎◌, codes, Time, lookup, second,
}
use unified_proxy_pool.ChanPolicy.Name.{normalize_channel_name}
use unified_proxy_pool.ChanPolicy.Registry.Outcomes.{clean_addr}
use unified_proxy_pool.ChanPolicy.Registry.Views.{is_banned, ban_set}
use unified_proxy_pool.ChanPolicy.Registry.Views.BanSet.{is_some, is_banned-ban_set}
use unified_proxy_pool.ChanPolicy.Registry.Admin.{unban, sweep, allow}
use unified_proxy_pool.ChanPolicy.Registry.Admin.Protection.{record_all-allow}
use unified_proxy_pool.ChanPolicy.Registry.Outcomes.Protected.{record_all}
use unified_proxy_pool.ChanPolicy.Registry.Admin.Release.{Released, unban_lem}
use unified_proxy_pool.ChanPolicy.Registry.Admin.Sweep.{is_banned-sweep}
use unified_proxy_pool.ChanPolicy.Tests.{day, forbidden, waiting, waiting-Inv, program}

unban_lem_example :
    (unban (codes "A.com") (codes "10.0.0.1:80") waiting ≡ (waiting, false))
    ⊎ (((unban (codes "A.com") (codes "10.0.0.1:80") waiting).1 ≡ true)
        × Released
            (normalize_channel_name (codes "A.com"))
            (clean_addr (codes "10.0.0.1:80"))
            waiting
            (unban (codes "A.com") (codes "10.0.0.1:80") waiting).0
        × ((t : Time)
            → is_banned
                (unban (codes "A.com") (codes "10.0.0.1:80") waiting).0
                (normalize_channel_name (codes "A.com"))
                (clean_addr (codes "10.0.0.1:80"))
                t
              ≡ false))
unban_lem_example = unban_lem (codes "A.com") (codes "10.0.0.1:80") waiting

is_banned-sweep_example :
    is_banned
      (sweep (day + 90 * second) waiting)
      (codes "a.com")
      (codes "10.0.0.1:80")
      (day + 90 * second)
    ≡ is_banned waiting (codes "a.com") (codes "10.0.0.1:80") (day + 90 * second)
is_banned-sweep_example =
    is_banned-sweep (day + 90 * second) waiting (codes "a.com") (codes "10.0.0.1:80") waiting-Inv

is_banned-ban_set_example :
    is_banned waiting (codes "a.com") (codes "10.0.0.1:80") day
    ≡ is_some (lookup (codes "10.0.0.1:80") (ban_set waiting (codes "a.com") day))
unfolding program
is_banned-ban_set_example =
    is_banned-ban_set waiting (codes "a.com") (codes "10.0.0.1:80") day waiting-Inv refl refl

record_all-allow_example :
    is_banned
      (record_all
        ((day + second, forbidden) ∷ (day + 2 * second, forbidden) ∷ [])
        (allow (codes "A.com.") (codes "10.0.0.1:80 ") (codes "ours") day waiting))
      (codes "a.com")
      (clean_addr (codes "10.0.0.1:80 "))
      (day + 3 * second)
    ≡ false
unfolding program
record_all-allow_example =
    record_all-allow (codes "A.com.") (codes "10.0.0.1:80 ") (codes "ours") (codes "a.com") day
      (day + 3 * second) ((day + second, forbidden) ∷ (day + 2 * second, forbidden) ∷ []) waiting
      waiting-Inv refl (inl refl)
