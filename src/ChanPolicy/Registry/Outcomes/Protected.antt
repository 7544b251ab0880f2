-- ===== src/ChanPolicy/Registry/Outcomes/Protected.antt =====
-- Registry.Record (internal/chanpolicy/registry.go) for pairs that the allow list protects and for
-- pairs that wait for a success.
use unified_proxy_pool.Base.{
  ◌≡◌, ◌≢◌, refl, sym, ◌∙◌, true, false, ◌⊎◌, inl, inr, List, [], ◌∷◌, arith, Text, text_eq,
  text_eq_iff, ne_of_text_eq, is_empty, to_lower, none, some, Time, Bool-cases,
}
use unified_proxy_pool.ChanPolicy.Policy.{Policy}
use unified_proxy_pool.ChanPolicy.Rule.{Outcome}
use unified_proxy_pool.ChanPolicy.Registry.State.{Registry, Entry, pair, banned}
use unified_proxy_pool.ChanPolicy.Registry.Evict.{new_entry}
use unified_proxy_pool.ChanPolicy.Registry.Evaluate.{allowed}
use unified_proxy_pool.ChanPolicy.Registry.Evaluate.Laws.{evaluate-allowed, evaluate_banned}
use unified_proxy_pool.ChanPolicy.Registry.Views.{is_banned}
use unified_proxy_pool.ChanPolicy.Registry.Views.Banned.{IsClear, IsClear-banned, is_banned_unless}
use unified_proxy_pool.ChanPolicy.Registry.Outcomes.{
  observe, record_outcome_of, clean_addr, clean_channel,
}
use unified_proxy_pool.ChanPolicy.Registry.Outcomes.Laws.{
  Recorded, record-Recorded, record-enabled, record-Inv,
}
use unified_proxy_pool.ChanPolicy.Registry.Outcomes.Bans.{
  pair-Recorded, is_banned-Recorded, record_others,
}
use unified_proxy_pool.ChanPolicy.Registry.Invariant.{Inv}

-- Record, for each outcome of a list.
pub record_all : List (Time × Outcome) → Registry → Registry
record_all [] r = r
record_all ((now, o) ∷ os) r = record_all os (record_outcome_of o now r).0

-- The pair has no entry, or one that is clear.
abbrev pub ClearPair : Registry → Text → Text → Type 0
ClearPair r c a = (pair r c a ≡ none) ⊎ ((e : Entry) × (pair r c a ≡ some e) × IsClear e)

observe-IsClear :
    (p : Policy) (e : Entry) (o : Outcome) (now : Time) → IsClear e → IsClear (observe p e o now)
unfolding observe
observe-IsClear p e o now c = record {
  no_time = ground (arith, c.no_time);
  no_wait = ground (arith, c.no_wait);
}

before-IsClear :
    (r : Registry) (c a : Text) (now : Time) (e : Entry)
    → ClearPair r c a
    → (pair r c a ≡ some e) ⊎ ((pair r c a ≡ none) × (e ≡ new_entry now))
    → IsClear e
before-IsClear r c a now e clear (inr (_, new)) = rw new (record { no_time = refl; no_wait = refl })
before-IsClear r c a now e (inl gone) (inl was) = absurd (ground arith)
before-IsClear r c a now e (inr (x, is, q)) (inl was) = rw (some_eq (sym was ∙ is)) q
  where
    some_eq : {y z : Entry} → some y ≡ some z → y ≡ z
    some_eq h = ground arith

own_ClearPair :
    (o : Outcome) (now : Time) (r : Registry)
    → Recorded o now r
    → allowed r.allows (clean_channel o.channel) (clean_addr o.addr) ≡ true
    → ClearPair r (clean_channel o.channel) (clean_addr o.addr)
    → ClearPair (record_outcome_of o now r).0 (clean_channel o.channel) (clean_addr o.addr)
own_ClearPair o now r d safe clear =
    let before = d.change.before in
    let was =
      before-IsClear r (clean_channel o.channel) (clean_addr o.addr) now before clear
        d.change.source in
    elim d.change.decided [
      | inl (_, after, _) ↦ inr (
        d.change.after,
        pair-Recorded o now r d,
        rw after (observe-IsClear r.policy before o now was),
      )
      | inr (b, ban, _) ↦ absurd (
          ground (
            arith,
            ban,
            evaluate-allowed r.policy r.rules r.allows (clean_channel o.channel) (clean_addr o.addr)
                (observe r.policy before o now) o now safe,
          ))
    ]

-- One outcome keeps a protected pair clear.
record-ClearPair :
    (o : Outcome) (now : Time) (r : Registry) (c a : Text)
    → Inv r
    → allowed r.allows c a ≡ true
    → ClearPair r c a
    → ClearPair (record_outcome_of o now r).0 c a
record-ClearPair o now r c a v safe clear = elim (record-Recorded o now r v) [
  | inl same ↦ rw same clear
  | inr d ↦ elim (Bool-cases (text_eq (clean_channel o.channel) c)) [
    | inr apart ↦ other (inl (ne_of_text_eq (clean_channel o.channel) c apart))
    | inl here ↦ elim (Bool-cases (text_eq (clean_addr o.addr) a)) [
      | inr apart ↦ other (inr (ne_of_text_eq (clean_addr o.addr) a apart))
      | inl same ↦
          let p : clean_channel o.channel ≡ c = (text_eq_iff (clean_channel o.channel) c).0 here in
          let q : clean_addr o.addr ≡ a = (text_eq_iff (clean_addr o.addr) a).0 same in
          rw (← p, ← q) (own_ClearPair o now r d (rw (p, q) safe) (rw (p, q) clear))
    ]
  ]
]
  where
    other :
        (clean_channel o.channel ≢ c) ⊎ (clean_addr o.addr ≢ a)
        → ClearPair (record_outcome_of o now r).0 c a
    other ne = elim (record_others o now r c a v ne) [
      | inr (gone, _) ↦ inl gone
      | inl kept ↦ rw kept clear
    ]

same_settings :
    (o : Outcome) (now : Time) (r : Registry)
    → Inv r
    → ((record_outcome_of o now r).0.allows ≡ r.allows)
      × ((record_outcome_of o now r).0.policy ≡ r.policy)
same_settings o now r v = elim (record-Recorded o now r v) [
  | inl same ↦ (rw same refl, rw same refl)
  | inr d ↦ (d.maps.allows ∙ d.change.allows, d.maps.policy ∙ d.change.policy)
]

all-ClearPair :
    (os : List (Time × Outcome)) (r : Registry) (c a : Text)
    → Inv r
    → allowed r.allows c a ≡ true
    → ClearPair r c a
    → ClearPair (record_all os r) c a
unfolding record_all
all-ClearPair [] r c a v safe clear = clear
all-ClearPair ((now, o) ∷ os) r c a v safe clear =
    all-ClearPair os (record_outcome_of o now r).0 c a (record-Inv o now r v)
      (rw ((same_settings o now r v).0) safe) (record-ClearPair o now r c a v safe clear)

ClearPair-is_banned :
    (r : Registry) (c a : Text) (t : Time) → ClearPair r c (to_lower a) → is_banned r c a t ≡ false
ClearPair-is_banned r c a t (inl gone) = is_banned_unless r c a t (rw gone refl)
ClearPair-is_banned r c a t (inr (e, is, q)) =
    is_banned_unless r c a t (rw is (IsClear-banned e t q))

-- Whatever outcomes are recorded, in whatever order and at whatever times, Banned never answers true
-- for a pair that the allow list protects and that was clear at the start.
pub record_all-allowed :
    (os : List (Time × Outcome)) (r : Registry) (c a : Text) (t : Time)
    → Inv r
    → allowed r.allows c (to_lower a) ≡ true
    → ClearPair r c (to_lower a)
    → is_banned (record_all os r) c a t ≡ false
record_all-allowed os r c a t v safe clear =
    ClearPair-is_banned _ c a t (all-ClearPair os r c (to_lower a) v safe clear)

observe_waits :
    (p : Policy) (e : Entry) (o : Outcome) (now : Time)
    → e.pending_reprobe ≡ true
    → o.ok ≡ false
    → (observe p e o now).pending_reprobe ≡ true
unfolding observe
observe_waits p e o now w f = ground arith

observe_releases :
    (p : Policy) (e : Entry) (o : Outcome) (now : Time)
    → e.pending_reprobe ≡ true
    → o.ok ≡ true
    → IsClear (observe p e o now)
unfolding observe
observe_releases p e o now w f = record { no_time = ground arith; no_wait = ground arith }

waiting_banned : (e : Entry) (t : Time) → e.pending_reprobe ≡ true → banned e t ≡ true
unfolding banned
waiting_banned e t w = ground arith

module _ (o : Outcome) (now : Time) (r : Registry) (e : Entry) (d : Recorded o now r)
    (was : pair r (clean_channel o.channel) (clean_addr o.addr) ≡ some e)
    (waits : e.pending_reprobe ≡ true) where
  before-same : d.change.before ≡ e
  before-same = elim d.change.source [
    | inl is ↦ some_eq (sym is ∙ was)
    | inr (missing, _) ↦ absurd (ground arith)
  ]
    where
      some_eq : {y z : Entry} → some y ≡ some z → y ≡ z
      some_eq h = ground arith

  failure_keeps :
      o.ok ≡ false
      → ((record_outcome_of o now r).1 ≡ none) × (d.change.after.pending_reprobe ≡ true)
  failure_keeps f =
      let still : (observe r.policy d.change.before o now).pending_reprobe ≡ true =
        observe_waits r.policy d.change.before o now (rw before-same waits) f in
      elim d.change.decided [
        | inl (_, after, no_ban) ↦ (d.result ∙ no_ban, rw after still)
        | inr (b, ban, _) ↦ absurd (
            ground (
              arith,
              ban,
              evaluate_banned r.policy r.rules r.allows (clean_channel o.channel)
                  (clean_addr o.addr) (observe r.policy d.change.before o now) o now
                  (waiting_banned _ now still),
            ))
      ]

  success_clears : o.ok ≡ true → (record_outcome_of o now r).1 ≡ none → IsClear d.change.after
  success_clears g quiet = elim d.change.decided [
    | inl (_, after, _) ↦
        rw after (observe_releases r.policy d.change.before o now (rw before-same waits) g)
    | inr (b, _, got) ↦ absurd (ground (arith, d.result, got, quiet))
  ]

module _ (o : Outcome) (now t : Time) (r : Registry) (e : Entry) (v : Inv r)
    (on : r.policy.enabled ≡ true) (named : is_empty (clean_addr o.addr) ≡ false)
    (was : pair r (clean_channel o.channel) (clean_addr o.addr) ≡ some e)
    (waits : e.pending_reprobe ≡ true) where
  -- A failure of a pair that waits for a success after its ban makes no new ban and leaves the pair
  -- banned at all times.
  pub record-fail_waiting :
      o.ok ≡ false
      → ((record_outcome_of o now r).1 ≡ none)
        × (is_banned (record_outcome_of o now r).0 (clean_channel o.channel) (clean_addr o.addr) t
            ≡ true)
  record-fail_waiting f =
      let d = record-enabled o now r v on named in
      let q = failure_keeps o now r e d was waits f in
      (q.0, is_banned-Recorded o now t r d ∙ waiting_banned d.change.after t q.1)

  -- A success of a pair that waits for a success after its ban, at which no rule fires, leaves the
  -- pair unbanned at all times.
  pub record-ok_waiting :
      o.ok ≡ true
      → (record_outcome_of o now r).1 ≡ none
      → is_banned (record_outcome_of o now r).0 (clean_channel o.channel) (clean_addr o.addr) t
        ≡ false
  record-ok_waiting g quiet =
      let d = record-enabled o now r v on named in
      is_banned-Recorded o now t r d
      ∙ IsClear-banned d.change.after t (success_clears o now r e d was waits g quiet)
