-- ===== src/ChanPolicy/Registry/Views/Banned.antt =====
-- Banned reads the entry of a pair.
use unified_proxy_pool.Base.{
  ◌≡◌, refl, Bool, true, false, not, ◌||◌, arith, ltb, if◌then◌else◌, Text, is_empty, to_lower,
  Option, none, some, Time, lookup,
}
use unified_proxy_pool.ChanPolicy.Registry.State.{Registry, ChannelState, Entry, pair, banned}
use unified_proxy_pool.ChanPolicy.Registry.Views.{is_banned}

-- The entry of a channel that is found is the entry of the pair.
pub pair_of :
    (r : Registry) (c a : Text) (ch : ChannelState)
    → lookup c r.chans ≡ some ch
    → pair r c a ≡ lookup a ch.entries
unfolding pair
pair_of r c a ch h = rw (h, pair) refl

pub pair_no_channel : (r : Registry) (c a : Text) → lookup c r.chans ≡ none → pair r c a ≡ none
unfolding pair
pair_no_channel r c a h = rw (h, pair) refl

pub pair_same_channel :
    (r s : Registry) (c a : Text) → lookup c s.chans ≡ lookup c r.chans → pair s c a ≡ pair r c a
unfolding pair
pair_same_channel r s c a h = rw (h, pair) refl

pub banned_lem : (e : Entry) (t : Time) → banned e t ≡ (ltb t e.banned_until || e.pending_reprobe)
unfolding banned
banned_lem e t = ground arith

-- An unbanned entry is one that has neither a time nor a wait.
pub record IsClear (e : Entry) : Type 0 where
  pub no_time : e.banned_until ≡ 0
  pub no_wait : e.pending_reprobe ≡ false

pub IsClear-banned : (e : Entry) (t : Time) → IsClear e → banned e t ≡ false
unfolding banned
IsClear-banned e t c = ground (arith, c.no_time, c.no_wait)

abbrev pub banned_of : Option Entry → Time → Bool
banned_of none t = false
banned_of (some e) t = banned e t

pub is_banned-pair :
    (r : Registry) (c a : Text) (t : Time)
    → is_empty c ≡ false
    → is_empty a ≡ false
    → r.policy.enabled ≡ true
    → is_banned r c a t ≡ banned_of (pair r c (to_lower a)) t
unfolding is_banned pair
is_banned-pair r c a t hc ha on = ground arith

-- Banned answers false where the entry does.
pub is_banned_unless :
    (r : Registry) (c a : Text) (t : Time)
    → banned_of (pair r c (to_lower a)) t ≡ false
    → is_banned r c a t ≡ false
unfolding is_banned pair
is_banned_unless r c a t h = ground arith

abbrev pub answer : Bool → Bool → Bool → Bool
answer unnamed on out = if unnamed then false else if not on then false else out

pub is_banned-answer :
    (r : Registry) (c a : Text) (t : Time)
    → is_banned r c a t
      ≡ answer (is_empty c || is_empty a) r.policy.enabled (banned_of (pair r c (to_lower a)) t)
unfolding is_banned pair
is_banned-answer r c a t = ground arith

pub answer_cong :
    (unnamed : Bool) {on on' out out' : Bool}
    → on ≡ on'
    → out ≡ out'
    → answer unnamed on out ≡ answer unnamed on' out'
answer_cong unnamed p q = λ i. answer unnamed (p i) (q i)
