-- ===== src/Sticky/History.antt =====
-- Histories of calls of internal/sticky/store.go, and the answer read off a history.
use unified_proxy_pool.Base.{
  ℕ, ◌+◌, ◌≤◌, ◌≡◌, refl, ◌∙◌, false, ◌||◌, List, [], ◌∷◌, arith, ltb, if◌then◌else◌, inl, inr,
  Text, text_eq, text_eq_iff, is_empty, Option, none, some, Time, Dict, lookup, insert,
  lookup-insert, Distinct, Distinct-insert, length, ℤ, is_le_zero, to_nat, Bool-cases,
}
use unified_proxy_pool.Sticky.{
  Entry, Store, default_ttl, new, set_ttl, get_proxy, put_proxy, drop_expired, cleanup_above,
}

pub data Call : Type 0 where
  putting : Text → Text → Text → Time → Time → Call
  setting : ℤ → Call

-- The calls, the last one first.
unfoldable pub run : ℤ → List Call → Store
unfolding put_proxy set_ttl new
run d [] = new d
run d (putting ip addr protocol now later ∷ h) = put_proxy ip addr protocol now later (run d h)
run d (setting x ∷ h) = set_ttl x (run d h)

-- The time to live that the calls leave.
unfoldable pub ttl_of : ℤ → List Call → ℕ
ttl_of d [] = if is_le_zero d then default_ttl else to_nat d
ttl_of d (putting ip addr protocol now later ∷ h) = ttl_of d h
ttl_of d (setting x ∷ h) = if is_le_zero x then ttl_of d h else to_nat x

-- The answer at time `t`, read off the calls: the last put of a client counts, for its time.
unfoldable pub answer_of : ℤ → List Call → Text → Time → Option (Text × Text)
unfolding ttl_of
answer_of d [] client t = none
answer_of d (setting x ∷ h) client t = answer_of d h client t
answer_of d (putting ip addr protocol now later ∷ h) client t =
    let before = answer_of d h client t in
    if is_empty ip || is_empty addr
    then before
    else if text_eq ip client
    then (if ltb (now + ttl_of d h) t then none else some (addr, protocol))
    else before

-- No cleanup reads a clock later than `t`.
abbrev pub UpTo : Time → List Call → Type 0
UpTo t [] = Unit
UpTo t (setting x ∷ h) = UpTo t h
UpTo t (putting ip addr protocol now later ∷ h) = (later ≤ t) × UpTo t h

abbrev fresh_at : Time → Option Entry → Option (Text × Text)
fresh_at t none = none
fresh_at t (some e) = if ltb e.exp t then none else some (e.addr, e.protocol)

get_proxy-fresh_at :
    (s : Store) (client : Text) (t : Time)
    → get_proxy s client t ≡ (if is_empty client then none else fresh_at t (lookup client s.m))
unfolding get_proxy
get_proxy-fresh_at s client t = ground arith

lookup-drop_expired-none :
    (k : Text) (now : Time) (m : Dict Entry)
    → lookup k m ≡ none
    → lookup k (drop_expired now m) ≡ none
unfolding lookup drop_expired
lookup-drop_expired-none k now [] h = refl
lookup-drop_expired-none k now ((j, e) ∷ m) h = ground (arith, lookup-drop_expired-none k now m)

Distinct-drop_expired : (now : Time) (m : Dict Entry) → Distinct m → Distinct (drop_expired now m)
unfolding drop_expired
Distinct-drop_expired now [] d = d
Distinct-drop_expired now ((k, e) ∷ m) d = elim (Bool-cases (ltb e.exp now)) [
  | inl out ↦ rw out (Distinct-drop_expired now m d.1)
  | inr stays ↦ rw stays (lookup-drop_expired-none k now m d.0, Distinct-drop_expired now m d.1)
]

-- The cleanup drops no entry that is fresh now or later.
fresh_at-drop_expired :
    (k : Text) (now t : Time) (m : Dict Entry)
    → Distinct m
    → now ≤ t
    → fresh_at t (lookup k (drop_expired now m)) ≡ fresh_at t (lookup k m)
unfolding lookup drop_expired
fresh_at-drop_expired k now t [] d h = refl
fresh_at-drop_expired k now t ((j, e) ∷ m) d h = ground (
  arith,
  fresh_at-drop_expired k now t m d.1,
  text_eq_iff j k,
  d.0,
  lookup-drop_expired-none j now m,
)

put_proxy-Distinct :
    (ip addr protocol : Text) (now later : Time) (s : Store)
    → Distinct s.m
    → Distinct (put_proxy ip addr protocol now later s).m
unfolding put_proxy
put_proxy-Distinct ip addr protocol now later s d =
    let e : Entry = record { addr = addr; protocol = protocol; exp = now + s.ttl } in
    let grown = Distinct-insert ip e s.m d in
    elim (Bool-cases (is_empty ip || is_empty addr)) [
      | inl nothing ↦ rw nothing d
      | inr named ↦ rw named (elim (Bool-cases (ltb cleanup_above (length (insert ip e s.m)))) [
        | inl full ↦ rw full (Distinct-drop_expired later (insert ip e s.m) grown)
        | inr room ↦ rw room grown
      ])
    ]

put_proxy-fresh_at :
    (ip addr protocol client : Text) (now later t : Time) (s : Store)
    → Distinct s.m
    → later ≤ t
    → fresh_at t (lookup client (put_proxy ip addr protocol now later s).m) ≡ (
        if is_empty ip || is_empty addr
        then fresh_at t (lookup client s.m)
        else if text_eq ip client
        then (if ltb (now + s.ttl) t then none else some (addr, protocol))
        else fresh_at t (lookup client s.m))
unfolding put_proxy
put_proxy-fresh_at ip addr protocol client now later t s d h =
    let e : Entry = record { addr = addr; protocol = protocol; exp = now + s.ttl } in
    ground (
      arith,
      lookup-insert ip client e s.m,
      fresh_at-drop_expired client later t (insert ip e s.m) (Distinct-insert ip e s.m d) h,
    )

run-Distinct : (d : ℤ) (h : List Call) → Distinct (run d h).m
unfolding run
run-Distinct d [] = tt
run-Distinct d (setting x ∷ h) = elim (Bool-cases (is_le_zero x)) [
  | inl same ↦ rw same (run-Distinct d h)
  | inr new_ttl ↦ rw new_ttl (run-Distinct d h)
]
run-Distinct d (putting ip addr protocol now later ∷ h) =
    put_proxy-Distinct ip addr protocol now later (run d h) (run-Distinct d h)

run-ttl : (d : ℤ) (h : List Call) → (run d h).ttl ≡ ttl_of d h
unfolding run ttl_of put_proxy set_ttl new
run-ttl d [] = refl
run-ttl d (setting x ∷ h) = ground (arith, run-ttl d h)
run-ttl d (putting ip addr protocol now later ∷ h) = ground (arith, run-ttl d h)

run-fresh_at :
    (d : ℤ) (h : List Call) (client : Text) (t : Time)
    → UpTo t h
    → fresh_at t (lookup client (run d h).m) ≡ answer_of d h client t
unfolding run answer_of new set_ttl lookup
run-fresh_at d [] client t u = refl
run-fresh_at d (setting x ∷ h) client t u = elim (Bool-cases (is_le_zero x)) [
  | inl same ↦ rw same (run-fresh_at d h client t u)
  | inr new_ttl ↦ rw new_ttl (run-fresh_at d h client t u)
]
run-fresh_at d (putting ip addr protocol now later ∷ h) client t u =
    put_proxy-fresh_at ip addr protocol client now later t (run d h) (run-Distinct d h) u.0
    ∙ ground (arith, run-ttl d h, run-fresh_at d h client t u.1)

-- After any history of PutProxy and SetTTL calls, GetProxy of a client that is named answers the
-- address and protocol of its last put, until the time to live of that moment has passed; cleanups
-- before `t` make no difference.
pub get_proxy-run :
    (d : ℤ) (h : List Call) (client : Text) (t : Time)
    → UpTo t h
    → is_empty client ≡ false
    → get_proxy (run d h) client t ≡ answer_of d h client t
get_proxy-run d h client t u named =
    get_proxy-fresh_at (run d h) client t ∙ rw named (run-fresh_at d h client t u)
