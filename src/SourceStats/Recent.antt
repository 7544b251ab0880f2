-- ===== src/SourceStats/Recent.antt =====
-- internal/sourcestats/stats.go: the window of a source is the end of the history of its outcomes.
use unified_proxy_pool.Base.{
  ℕ, zero, suc, ◌+◌, ◌-◌, ◌*◌, ◌≤◌, ◌≡◌, refl, sym, ap, subst, ◌∙◌, Bool, true, false, not, ◌&&◌,
  ◌||◌, inl, inr, List, [], ◌∷◌, ◌++◌, ltb, leb, ◌==◌, if◌then◌else◌, Text, text_eq, text_eq_iff,
  codes, is_empty, Option, none, some, Time, lookup, lookup-insert, lookup-map_values, map_some,
  length, length-append, drop, length-drop, ℤ, to_nat, arith, Option-cases, Bool-cases,
}
use unified_proxy_pool.SourceStats.{
  Stat, Registry, new_registry, count_of, window_cap, stat_or_new, push_window, recount_recent,
  counted, record_result, evaluate_stat, evaluate, reenable, is_low, is_disabled,
}
use unified_proxy_pool.SourceStats.Calls.{Call, record_of, evaluate_of, reenable_of, call, run}
use unified_proxy_pool.SourceStats.Penalty.{fails, source_fails, is_disabled-evaluate}

-- The outcomes that a call records for a source; one without a name is the source "unknown".
unfoldable pub outcome_of : Text → Call → List Bool
unfolding text_eq
outcome_of source (record_of given ok latency_ms) =
    let name : Text = if is_empty given then codes "unknown" else given in
    if text_eq name source then ok ∷ [] else []
outcome_of source (evaluate_of min_samples rate now) = []
outcome_of source (reenable_of name) = []

unfoldable pub outcomes_of : Text → List Call → List Bool
unfolding outcome_of
outcomes_of source [] = []
outcomes_of source (c ∷ cs) = outcome_of source c ++ outcomes_of source cs

unfoldable pub successes : List Bool → ℕ
successes [] = 0
successes (true ∷ bs) = suc (successes bs)
successes (false ∷ bs) = successes bs

-- The last 50 outcomes.
unfoldable pub recent : List Bool → List Bool
recent h = drop (length h - 50) h

-- Of the last 50 outcomes there are enough, and fewer successes among them than the limit, in millionths.
unfoldable pub falls_short : ℤ → ℕ → List Bool → Bool
unfolding recent successes
falls_short min_samples rate h =
    let samples = length (recent h) in
    leb 5 samples
    && leb (to_nat min_samples) samples
    && ltb (successes (recent h) * 1000000) (rate * samples)

drop_snoc : (k : ℕ) (xs ys : List Bool) → k ≤ length xs → drop k (xs ++ ys) ≡ drop k xs ++ ys
drop_snoc zero xs ys h = refl
drop_snoc (suc k) [] ys h = absurd (omega arith)
drop_snoc (suc k) (x ∷ xs) ys h = drop_snoc k xs ys (omega arith)

drop_none : (j : ℕ) → drop {A = Bool} j [] ≡ []
drop_none zero = refl
drop_none (suc j) = refl

drop-drop : (j k : ℕ) (xs : List Bool) → drop j (drop k xs) ≡ drop (k + j) xs
drop-drop j zero xs = ap (λ n. drop n xs) (omega arith)
drop-drop j (suc k) [] = drop_none j ∙ sym (drop_none (suc k + j))
drop-drop j (suc k) (x ∷ xs) =
    drop-drop j k xs ∙ ap {B = List Bool} (λ n. drop n (x ∷ xs)) (plus_suc k j)
  where
    plus_suc : (k j : ℕ) → suc (k + j) ≡ suc k + j
    plus_suc k j = omega arith

-- The window that a new outcome leaves.
pushed : List Bool → Bool → List Bool
pushed window ok =
    let w = window ++ ok ∷ [] in
    if ltb window_cap (length w) then drop (length w - window_cap) w else w

no_cut :
    (w : List Bool)
    → (if ltb 50 (length w) then drop (length w - 50) w else w) ≡ drop (length w - 50) w
no_cut w = elim (Bool-cases (ltb 50 (length w))) [
  | inl long ↦ rw long refl
  | inr short ↦
      let none_over : length w - 50 ≡ 0 = ground (arith, short) in rw (short, none_over) refl
]

pushed-recent : (h : List Bool) (ok : Bool) → pushed (recent h) ok ≡ recent (h ++ ok ∷ [])
unfolding pushed recent
pushed-recent h ok =
    let k = length h - 50 in
    let w = drop k h ++ ok ∷ [] in
    let whole : drop k (h ++ ok ∷ []) ≡ w = drop_snoc k h (ok ∷ []) (omega arith) in
    let size : length w ≡ length h - k + 1 =
      length-append (drop k h) (ok ∷ []) ∙ omega (arith, length-drop k h) in
    let far : k + (length w - 50) ≡ length (h ++ ok ∷ []) - 50 =
      omega (arith, size, length-append h (ok ∷ [])) in
    no_cut w
    ∙ ap (λ (v : List Bool). drop (length w - 50) v) (sym whole)
    ∙ drop-drop (length w - 50) k (h ++ ok ∷ [])
    ∙ ap (λ n. drop n (h ++ ok ∷ [])) far

counts_lem :
    (w : List Bool)
    → (count_of true w ≡ successes w) × (count_of true w + count_of false w ≡ length w)
unfolding count_of successes
counts_lem [] = (refl, omega arith)
counts_lem (true ∷ w) = let ih = counts_lem w in (omega (arith, ih.0), omega (arith, ih.1))
counts_lem (false ∷ w) = let ih = counts_lem w in (ih.0, omega (arith, ih.1))

-- A source stands for the history of its outcomes.
abbrev Holds : List Bool → Option Stat → Type 0
Holds h none = h ≡ []
Holds h (some st) =
    (st.window ≡ recent h)
    × (st.recent_ok ≡ successes (recent h))
    × (st.recent_ok + st.recent_fail ≡ length (recent h))

window_of :
    (name : Text) (h : List Bool) (o : Option Stat)
    → Holds h o
    → (stat_or_new name o).window ≡ recent h
unfolding recent
window_of name h none e = rw e refl
window_of name h (some st) e = e.0

push_window-Holds :
    (h : List Bool) (ok : Bool) (latency_ms : ℤ) (st : Stat)
    → st.window ≡ recent h
    → Holds (h ++ ok ∷ []) (some (push_window ok (counted ok latency_ms st)))
unfolding push_window recount_recent counted pushed
push_window-Holds h true latency_ms st e =
    let same = ap (λ w. pushed w true) e ∙ pushed-recent h true in
    let sums = counts_lem (pushed st.window true) in
    (same, sums.0 ∙ ap successes same, sums.1 ∙ ap length same)
push_window-Holds h false latency_ms st e =
    let same = ap (λ w. pushed w false) e ∙ pushed-recent h false in
    let sums = counts_lem (pushed st.window false) in
    (same, sums.0 ∙ ap successes same, sums.1 ∙ ap length same)

-- Evaluate and Reenable leave the window alone.
abbrev SameWindow : Stat → Stat → Type 0
SameWindow st st' =
    (st'.window ≡ st.window) × (st'.recent_ok ≡ st.recent_ok) × (st'.recent_fail ≡ st.recent_fail)

evaluate_stat-SameWindow :
    (samples rate : ℕ) (now : Time) (st : Stat) → SameWindow st (evaluate_stat samples rate now st)
unfolding evaluate_stat
evaluate_stat-SameWindow samples rate now st = ground arith

Holds-SameWindow :
    (h : List Bool) (st st' : Stat) → SameWindow st st' → Holds h (some st) → Holds h (some st')
Holds-SameWindow h st st' same e = (same.0 ∙ e.0, same.1 ∙ e.1, omega (arith, same.1, same.2, e.2))

append_nil : (h : List Bool) → h ++ [] ≡ h
append_nil [] = refl
append_nil (b ∷ h) = ap {B = List Bool} (λ bs. b ∷ bs) (append_nil h)

append_assoc : (xs ys zs : List Bool) → xs ++ ys ++ zs ≡ xs ++ (ys ++ zs)
append_assoc [] ys zs = refl
append_assoc (b ∷ xs) ys zs = ap {B = List Bool} (λ bs. b ∷ bs) (append_assoc xs ys zs)

Holds-map :
    (h : List Bool) (f : Stat → Stat) (o : Option Stat)
    → ((st : Stat) → SameWindow st (f st))
    → Holds h o
    → Holds h (map_some f o)
unfolding map_some
Holds-map h f none same e = e
Holds-map h f (some st) same e = Holds-SameWindow h st (f st) (same st) e

record_result-Holds :
    (source given : Text) (ok : Bool) (latency_ms : ℤ) (h : List Bool) (r : Registry)
    → Holds h (lookup source r.m)
    → Holds
        (h ++ outcome_of source (record_of given ok latency_ms))
        (lookup source (record_result given ok latency_ms r).m)
unfolding record_result outcome_of
record_result-Holds source given ok latency_ms h r e =
    let name : Text = if is_empty given then codes "unknown" else given in
    let st = stat_or_new name (lookup name r.m) in
    rw (lookup-insert name source (push_window ok (counted ok latency_ms st)) r.m)
      (elim (Bool-cases (text_eq name source)) [
        | inr other ↦ rw other (rw (append_nil h) e)
        | inl same ↦
            let is = (text_eq_iff name source).0 same in
            rw same
              (push_window-Holds h ok latency_ms st (window_of name h (lookup name r.m) (rw is e)))
      ])

evaluate-Holds :
    (source : Text) (min_samples : ℤ) (rate : ℕ) (now : Time) (h : List Bool) (r : Registry)
    → Holds h (lookup source r.m)
    → Holds h (lookup source (evaluate min_samples rate now r).m)
unfolding evaluate
evaluate-Holds source min_samples rate now h r e = elim (Bool-cases (rate == 0)) [
  | inl off ↦ rw off e
  | inr on ↦
      let samples = if ltb (to_nat min_samples) 5 then 5 else to_nat min_samples in
      rw on (
        rw (lookup-map_values (evaluate_stat samples rate now) source r.m) (
          Holds-map h (evaluate_stat samples rate now) (lookup source r.m)
            (evaluate_stat-SameWindow samples rate now) e))
]

reenable-Holds :
    (source name : Text) (h : List Bool) (r : Registry)
    → Holds h (lookup source r.m)
    → Holds h (lookup source (reenable name r).m)
unfolding reenable
reenable-Holds source name h r e = elim (Option-cases (lookup name r.m)) [
  | inl missing ↦ rw (missing, reenable) e
  | inr (st, is) ↦
      let enabled : Stat = record st { auto_disabled = false; disabled_until = 0; strikes = 0 } in
      rw (is, reenable)
        (rw (lookup-insert name source enabled r.m) (elim (Bool-cases (text_eq name source)) [
          | inr other ↦ rw other e
          | inl same ↦
              let here = (text_eq_iff name source).0 same in
              rw same
                (subst (λ (o : Option Stat). Holds h o) (sym (ap (λ k. lookup k r.m) here) ∙ is) e)
        ]))
]

outcomes_of_cons :
    (source : Text) (c : Call) (cs : List Call)
    → outcomes_of source (c ∷ cs) ≡ outcome_of source c ++ outcomes_of source cs
unfolding outcomes_of
outcomes_of_cons source c cs = refl

run-Holds :
    (source : Text) (cs : List Call) (h : List Bool) (r : Registry)
    → Holds h (lookup source r.m)
    → Holds (h ++ outcomes_of source cs) (lookup source (run cs r).m)
unfolding run call outcomes_of outcome_of
run-Holds source [] h r e = rw (append_nil h) e
run-Holds source (record_of given ok latency_ms ∷ cs) h r e =
    subst
      (λ (xs : List Bool).
        Holds xs (lookup source (run cs (record_result given ok latency_ms r)).m))
      (append_assoc h (outcome_of source (record_of given ok latency_ms)) (outcomes_of source cs)
        ∙ ap (λ (xs : List Bool). h ++ xs)
            (sym (outcomes_of_cons source (record_of given ok latency_ms) cs)))
      (run-Holds source cs (h ++ outcome_of source (record_of given ok latency_ms))
        (record_result given ok latency_ms r)
        (record_result-Holds source given ok latency_ms h r e))
run-Holds source (evaluate_of min_samples rate now ∷ cs) h r e =
    run-Holds source cs h (evaluate min_samples rate now r)
      (evaluate-Holds source min_samples rate now h r e)
run-Holds source (reenable_of name ∷ cs) h r e =
    run-Holds source cs h (reenable name r) (reenable-Holds source name h r e)

fails_lem :
    (min_samples : ℤ) (rate : ℕ) (h : List Bool) (st : Stat)
    → Holds h (some st)
    → fails min_samples rate st ≡ falls_short min_samples rate h
unfolding fails is_low falls_short
fails_lem min_samples rate h st e =
    rw (e.2, e.1)
      (tests_lem (length (recent h)) (to_nat min_samples) (successes (recent h) * 1000000) rate)
  where
    tests_lem :
        (n least good rate : ℕ)
        → (not (rate == 0) && leb (if ltb least 5 then 5 else least) n && ltb good (rate * n))
          ≡ (leb 5 n && leb least n && ltb good (rate * n))
    tests_lem n least good rate = elim (Bool-cases (rate == 0)) [
      | inl off ↦ let none_left : rate ≡ 0 = ground (arith, off) in rw none_left (ground arith)
      | inr on ↦ rw on (ground arith)
    ]

source_fails_lem :
    (min_samples : ℤ) (rate : ℕ) (source : Text) (cs : List Call)
    → source_fails min_samples rate source (run cs new_registry)
      ≡ falls_short min_samples rate (outcomes_of source cs)
unfolding source_fails new_registry lookup falls_short
source_fails_lem min_samples rate source cs =
    by_lookup (lookup source (run cs new_registry).m) (run-Holds source cs [] new_registry refl)
  where
    by_lookup :
        (o : Option Stat)
        → Holds (outcomes_of source cs) o
        → (elim o [ none ↦ false | some st ↦ fails min_samples rate st ])
          ≡ falls_short min_samples rate (outcomes_of source cs)
    by_lookup none e = rw e refl
    by_lookup (some st) e = fails_lem min_samples rate (outcomes_of source cs) st e

-- Whatever the calls before: after Evaluate, a source is switched off exactly if it was, or if it has
-- enough outcomes among its last 50, at least five, and a rate of successes among them below the limit.
pub is_disabled-evaluate_recent :
    (cs : List Call) (min_samples : ℤ) (rate : ℕ) (now : Time) (source : Text)
    → is_disabled source now (evaluate min_samples rate now (run cs new_registry)) ≡ (
        is_disabled source now (run cs new_registry)
        || falls_short min_samples rate (outcomes_of source cs))
is_disabled-evaluate_recent cs min_samples rate now source =
    is_disabled-evaluate cs min_samples rate now source
    ∙ rw (source_fails_lem min_samples rate source cs) refl
