-- ===== src/Blacklist/Tests.antt =====
-- The blacklist at concrete hosts.
use unified_proxy_pool.Base.{
  ◌+◌, ◌*◌, ◌≡◌, refl, true, false, [], ◌∷◌, Text, codes, ne_of_text_eq, some, Time, second,
  text_eq, lookup, erase, pos,
}
use unified_proxy_pool.Blacklist.{Store, Entry, host_key, bare_host, blocked, add, remove}
use unified_proxy_pool.Blacklist.Laws.{blocked-add_other, blocked-remove}

abbrev empty_store : Store
empty_store = record { mem = []; has_db = true; statements = [] }

abbrev day : Time
day = 63_902_822_400 * second

abbrev bad_host : Text
bad_host = codes " HTTP://10.0.0.1/x"

abbrev entry : Entry
entry = record {
  host = codes "10.0.0.1";
  reason = codes "spam";
  until = some (day + 60 * second);
  created_at = day;
}

blocked-add_other_example :
    blocked (add bad_host (codes "spam") (pos 60) false day empty_store).0 (codes "10.0.0.2:80") day
    ≡ blocked empty_store (codes "10.0.0.2:80") day
unfolding host_key bare_host text_eq
blocked-add_other_example =
    blocked-add_other bad_host (codes "spam") (pos 60) false day empty_store (codes "10.0.0.2:80")
      day (ne_of_text_eq (host_key bad_host) (host_key (codes "10.0.0.2:80")) refl)
      (ne_of_text_eq (host_key bad_host) (bare_host (codes "10.0.0.2:80")) refl)

-- A host without and with a port, both blocked.
abbrev both : Store
both = record empty_store { mem = (codes "10.0.0.1:80", 0) ∷ (codes "10.0.0.1", 0) ∷ [] }

blocked-remove_example :
    blocked (remove (codes "10.0.0.1:80") both) (codes "10.0.0.1:80") day ≡ false
unfolding host_key
blocked-remove_example = blocked-remove (codes "10.0.0.1:80") both day refl

-- Without a port, Remove leaves an entry with a port in memory.
port_left_test :
    blocked
      (remove (codes "10.0.0.1") (record empty_store { mem = (codes "10.0.0.1:80", 0) ∷ [] }))
      (codes "10.0.0.1:80")
      day
    ≡ true
unfolding remove blocked host_key bare_host lookup erase text_eq
port_left_test = refl
