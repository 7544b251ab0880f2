-- ===== src/Blacklist/Laws.antt =====
-- Add, Remove and Blocked of internal/blacklist/store.go.
use unified_proxy_pool.Base.{
  ◌≡◌, ◌≢◌, Bool, false, arith, Text, text_eq_iff, text_eq_refl, Time, erase, lookup-insert,
  lookup-erase, ℤ,
}
use unified_proxy_pool.Blacklist.{
  Store, host_key, bare_host, blocked, is_live, add, remove, until_of, or_zero,
}

-- Add changes the answer of Blocked for no address whose key and host without its port both differ
-- from the added host.
pub blocked-add_other :
    (v reason : Text) (ttl_sec : ℤ) (fails : Bool) (now : Time) (s : Store) (a : Text) (t : Time)
    → host_key v ≢ host_key a
    → host_key v ≢ bare_host a
    → blocked (add v reason ttl_sec fails now s).0 a t ≡ blocked s a t
unfolding add blocked
blocked-add_other v reason ttl_sec fails now s a t key bare = ground (
  arith,
  text_eq_iff (host_key v) (host_key a),
  text_eq_iff (host_key v) (bare_host a),
  lookup-insert (host_key v) (host_key a) (or_zero (until_of ttl_sec now)) s.mem,
  lookup-insert (host_key v) (bare_host a) (or_zero (until_of ttl_sec now)) s.mem,
)

-- After Remove, Blocked answers false at all times for the removed address, given as a key, whatever
-- the store held.
pub blocked-remove :
    (v : Text) (s : Store) (t : Time) → host_key v ≡ v → blocked (remove v s) v t ≡ false
unfolding remove blocked is_live
blocked-remove v s t clean = rw clean (
    ground (
      arith,
      lookup-erase (bare_host v) v (erase v s.mem),
      lookup-erase v v s.mem,
      lookup-erase (bare_host v) (bare_host v) (erase v s.mem),
      text_eq_refl v,
      text_eq_refl (bare_host v),
    ))

-- Remove changes no answer of Blocked for an address whose key and host without its port both differ
-- from the removed key and from its host without its port.
blocked-remove_other :
    (v a : Text) (s : Store) (t : Time)
    → host_key v ≢ host_key a
    → host_key v ≢ bare_host a
    → bare_host (host_key v) ≢ host_key a
    → bare_host (host_key v) ≢ bare_host a
    → blocked (remove v s) a t ≡ blocked s a t
unfolding remove blocked
blocked-remove_other v a s t n1 n2 n3 n4 =
    let k = host_key v in
    let b = bare_host k in
    ground (
      arith,
      lookup-erase b (host_key a) (erase k s.mem),
      lookup-erase k (host_key a) s.mem,
      lookup-erase b (bare_host a) (erase k s.mem),
      lookup-erase k (bare_host a) s.mem,
      text_eq_iff k (host_key a),
      text_eq_iff k (bare_host a),
      text_eq_iff b (host_key a),
      text_eq_iff b (bare_host a),
    )
