-- ===== src/FreeProxies/Store/Stages.antt =====
-- internal/freproxies/store.go: where an address stands in the maps of the store, and how the
-- operations move it.
use unified_proxy_pool.Base.{
  ◌≡◌, ◌≢◌, refl, Bool, true, false, inl, inr, List, arith, if◌then◌else◌, Text, text_eq,
  text_eq_refl, Option, none, some, Time, Dict, lookup, has, member_text, lookup-insert,
  lookup-erase, has-insert, has-erase, lookup-erase_all, has-erase_all, ℤ, Bool-cases, Option-cases,
}
use unified_proxy_pool.FreeProxies.{Proxy}
use unified_proxy_pool.FreeProxies.Store.{
  MemoryStore, forget, delete, mark_known, mark_validated, accept, park, gives_up, passed, failed,
}

pub data Stage : Type 0 where
  absent : Stage
  fresh : Stage
  imported : Stage
  waiting : Stage
  live : Stage
  torn : Stage

-- The place of an address with a record: by whether the record is validated, and by membership in
-- raw, retry and scored. A record in raw that is validated was imported as such.
abbrev pub place : Bool → Bool → Bool → Bool → Stage
place false true false false = fresh
place true true false false = imported
place false false true false = waiting
place true false false true = live
place _ _ _ _ = torn

abbrev pub stage_at : Option Proxy → Bool → Bool → Bool → Stage
stage_at none false false false = absent
stage_at none _ _ _ = torn
stage_at (some p) raw retry scored = place p.validated raw retry scored

unfoldable pub stage : MemoryStore → Text → Stage
stage s a = stage_at (lookup a s.proxies) (has a s.raw) (has a s.retry) (has a s.scored)

pub absent_ne : absent ≢ torn
absent_ne e = ground arith

-- The record of an address that stands in raw, and no place beside it.
pub only_raw :
    (o : Option Proxy) (retry scored : Bool)
    → stage_at o true retry scored ≢ torn
    → (retry ≡ false) × (scored ≡ false)
only_raw none retry scored h = absurd (h refl)
only_raw (some p) retry scored h = only_fresh p.validated retry scored h
  where
    only_fresh :
        (v retry scored : Bool)
        → place v true retry scored ≢ torn
        → (retry ≡ false) × (scored ≡ false)
    only_fresh v false false h = (refl, refl)
    only_fresh true true scored h = absurd (h refl)
    only_fresh false true scored h = absurd (h refl)
    only_fresh true false true h = absurd (h refl)
    only_fresh false false true h = absurd (h refl)

pub nowhere :
    (raw retry scored : Bool)
    → stage_at none raw retry scored ≢ torn
    → (raw ≡ false) × (retry ≡ false) × (scored ≡ false)
nowhere true retry scored h = absurd (h refl)
nowhere false true scored h = absurd (h refl)
nowhere false false true h = absurd (h refl)
nowhere false false false h = (refl, refl, refl)

pub no_lookup {ℓ} : {V : Type ℓ} (a : Text) (m : Dict V) → has a m ≡ false → lookup a m ≡ none
unfolding has
no_lookup a m h = elim (Option-cases (lookup a m)) [
  | inl missing ↦ missing
  | inr (v, is) ↦ absurd (ground (arith, is, h))
]

forget_lem :
    (ks : List Text) (s : MemoryStore) (j : Text)
    → stage (forget ks s) j ≡ (if member_text j ks then absent else stage s j)
unfolding stage forget
forget_lem ks s j = elim (Bool-cases (member_text j ks)) [
  | inl e ↦
      rw
        (
          lookup-erase_all ks j s.proxies,
          has-erase_all ks j s.raw,
          has-erase_all ks j s.retry,
          has-erase_all ks j s.scored,
        )
        (rw e refl)
  | inr e ↦
      rw
        (
          lookup-erase_all ks j s.proxies,
          has-erase_all ks j s.raw,
          has-erase_all ks j s.retry,
          has-erase_all ks j s.scored,
        )
        (rw e refl)
]

pub forget-ne :
    (ks : List Text) (s : MemoryStore) (j : Text) → stage s j ≢ torn → stage (forget ks s) j ≢ torn
forget-ne ks s j h = rw (forget_lem ks s j) (cases (member_text j ks))
  where
    cases : (b : Bool) → (if b then absent else stage s j) ≢ torn
    cases true = absent_ne
    cases false = h

pub delete_lem :
    (a : Text) (s : MemoryStore) (j : Text)
    → stage (delete a s) j ≡ (if text_eq a j then absent else stage s j)
unfolding stage delete
delete_lem a s j = elim (Bool-cases (text_eq a j)) [
  | inl e ↦
      rw
        (
          lookup-erase a j s.proxies,
          has-erase a j s.raw,
          has-erase a j s.retry,
          has-erase a j s.scored,
        )
        (rw e refl)
  | inr e ↦
      rw
        (
          lookup-erase a j s.proxies,
          has-erase a j s.raw,
          has-erase a j s.retry,
          has-erase a j s.scored,
        )
        (rw e refl)
]

accept_lem :
    (a : Text) (p : Proxy) (s : MemoryStore) (j : Text)
    → p.validated ≡ true
    → stage (accept a p s) j ≡ (if text_eq a j then live else stage s j)
unfolding stage accept
accept_lem a p s j h = elim (Bool-cases (text_eq a j)) [
  | inl e ↦
      rw
        (
          lookup-insert a j p s.proxies,
          has-erase a j s.raw,
          has-erase a j s.retry,
          has-insert a j tt s.scored,
        )
        (rw e (rw h refl))
  | inr e ↦
      rw
        (
          lookup-insert a j p s.proxies,
          has-erase a j s.raw,
          has-erase a j s.retry,
          has-insert a j tt s.scored,
        )
        (rw e refl)
]

park_lem :
    (a : Text) (p : Proxy) (due : Time) (s : MemoryStore) (j : Text)
    → p.validated ≡ false
    → stage (park a p due s) j ≡ (if text_eq a j then waiting else stage s j)
unfolding stage park
park_lem a p due s j h = elim (Bool-cases (text_eq a j)) [
  | inl e ↦
      rw
        (
          lookup-insert a j p s.proxies,
          has-erase a j s.raw,
          has-insert a j due s.retry,
          has-erase a j s.scored,
        )
        (rw e (rw h refl))
  | inr e ↦
      rw
        (
          lookup-insert a j p s.proxies,
          has-erase a j s.raw,
          has-insert a j due s.retry,
          has-erase a j s.scored,
        )
        (rw e refl)
]

passed-validated :
    (latency_ms : ℤ) (now : Time) (p : Proxy) → (passed latency_ms now p).validated ≡ true
unfolding passed
passed-validated latency_ms now p = refl

failed-validated :
    (latency_ms : ℤ) (now : Time) (p : Proxy) → (failed latency_ms now p).validated ≡ false
unfolding failed
failed-validated latency_ms now p = refl

-- Where a check takes an address that has a record.
abbrev goes : Bool → Bool → Stage
goes true up = live
goes false true = absent
goes false false = waiting

mark_known_lem :
    (a : Text) (latency_ms : ℤ) (ok : Bool) (now : Time) (p : Proxy) (s : MemoryStore) (j : Text)
    → stage (mark_known a latency_ms ok now p s) j ≡ (
        if text_eq a j then goes ok (gives_up p.validated (failed latency_ms now p)) else stage s j)
unfolding mark_known
mark_known_lem a latency_ms true now p s j =
    accept_lem a (passed latency_ms now p) s j (passed-validated latency_ms now p)
mark_known_lem a latency_ms false now p s j =
    elim (Bool-cases (gives_up p.validated (failed latency_ms now p))) [
      | inl up ↦ rw up (delete_lem a s j)
      | inr kept ↦
          rw kept (park_lem a (failed latency_ms now p) _ s j (failed-validated latency_ms now p))
    ]

goes-ne : (ok up : Bool) → goes ok up ≢ torn
goes-ne true up e = ground arith
goes-ne false true e = ground arith
goes-ne false false e = ground arith

-- The moves of a check: by its result, from one stage to another.
pub data Move : Bool → Stage → Stage → Type 0 where
  unknown_address : (ok : Bool) → Move ok absent absent
  first_success : Move true fresh live
  recovery : Move true waiting live
  still_live : Move true live live
  imported_success : Move true imported live
  fresh_failure : Move false fresh absent
  imported_failure : Move false imported waiting
  imported_exhausted : Move false imported absent
  second_failure : Move false waiting absent
  first_failure : Move false live waiting
  exhausted : Move false live absent

pub if_ne : (b : Bool) (x y : Stage) → x ≢ torn → y ≢ torn → (if b then x else y) ≢ torn
if_ne true x y h k = h
if_ne false x y h k = k

pub mark_validated-ne :
    (a : Text) (latency_ms : ℤ) (ok : Bool) (now : Time) (s : MemoryStore) (j : Text)
    → stage s j ≢ torn
    → stage (mark_validated a latency_ms ok now s).0 j ≢ torn
unfolding mark_validated
mark_validated-ne a latency_ms ok now s j h = elim (Option-cases (lookup a s.proxies)) [
  | inl missing ↦ rw (missing, mark_validated) h
  | inr (p, is) ↦
      rw (is, mark_validated)
        (rw (mark_known_lem a latency_ms ok now p s j) (if_ne (text_eq a j) _ _ (goes-ne ok _) h))
]

Move-from :
    (ok v up raw retry scored : Bool)
    → ((v ≡ false) → up ≡ true)
    → place v raw retry scored ≢ torn
    → Move ok (place v raw retry scored) (goes ok up)
Move-from true false up true false false h n = first_success
Move-from true true up true false false h n = imported_success
Move-from true false up false true false h n = recovery
Move-from true true up false false true h n = still_live
Move-from false false true true false false h n = fresh_failure
Move-from false false false true false false h n = absurd (ground (arith, h refl))
Move-from false true true true false false h n = imported_exhausted
Move-from false true false true false false h n = imported_failure
Move-from false false true false true false h n = second_failure
Move-from false false false false true false h n = absurd (ground (arith, h refl))
Move-from false true true false false true h n = exhausted
Move-from false true false false false true h n = first_failure
Move-from ok true up true true scored h n = absurd (n refl)
Move-from ok false up true true scored h n = absurd (n refl)
Move-from ok true up true false true h n = absurd (n refl)
Move-from ok false up true false true h n = absurd (n refl)
Move-from ok true up false true true h n = absurd (n refl)
Move-from ok false up false true true h n = absurd (n refl)
Move-from ok true up false true false h n = absurd (n refl)
Move-from ok false up false false true h n = absurd (n refl)
Move-from ok true up false false false h n = absurd (n refl)
Move-from ok false up false false false h n = absurd (n refl)

gives_up-new : (v : Bool) (q : Proxy) → v ≡ false → gives_up v q ≡ true
unfolding gives_up
gives_up-new v q e = rw e refl

nowhere_stage :
    (raw retry scored : Bool)
    → stage_at none raw retry scored ≢ torn
    → stage_at none raw retry scored ≡ absent
nowhere_stage true retry scored h = absurd (h refl)
nowhere_stage false true scored h = absurd (h refl)
nowhere_stage false false true h = absurd (h refl)
nowhere_stage false false false h = refl

-- A check moves the address it is about along `Move`: a success makes it live; a failure deletes an
-- address whose record is not validated, and deletes or parks one whose record is, live or imported
-- as raw; an address without a record stays without.
pub mark_validated-Move :
    (a : Text) (latency_ms : ℤ) (ok : Bool) (now : Time) (s : MemoryStore)
    → stage s a ≢ torn
    → Move ok (stage s a) (stage (mark_validated a latency_ms ok now s).0 a)
unfolding mark_validated stage
mark_validated-Move a latency_ms ok now s h = elim (Option-cases (lookup a s.proxies)) [
  | inl missing ↦
      rw (missing, mark_validated)
        (rw missing (
          rw (nowhere_stage (has a s.raw) (has a s.retry) (has a s.scored) (rw missing at h))
            (unknown_address ok)))
  | inr (p, is) ↦
      rw (is, mark_validated)
        (rw (mark_known_lem a latency_ms ok now p s a, text_eq_refl a)
          (Move-from ok p.validated _ (has a s.raw) (has a s.retry) (has a s.scored)
            (gives_up-new p.validated (failed latency_ms now p)) (rw is at h)))
]
