-- ===== src/ChanPolicy/Log/Laws.antt =====
-- internal/chanpolicy/log.go: the ring after a list of additions.
use unified_proxy_pool.Base.{
  ℕ, zero, suc, ◌+◌, ◌-◌, ◌≤◌, ◌<◌, ◌≡◌, refl, sym, ◌∙◌, ap, List, [], ◌∷◌, ◌++◌, arith, ltb,
  length, length-append, drop, length-drop, Bool-cases, inl, inr,
}
use mathlib.Core.List.{append-nil, append_assoc}
use unified_proxy_pool.ChanPolicy.Log.{LogRing, LogEntry, add, new_log_ring}

drop-append {ℓ} :
    {A : Type ℓ} (n : ℕ) (xs ys : List A) → n ≤ length xs → drop n (xs ++ ys) ≡ drop n xs ++ ys
drop-append zero xs ys h = refl
drop-append (suc n) [] ys h = absurd (omega arith)
drop-append (suc n) (x ∷ xs) ys h = drop-append n xs ys (omega arith)

drop_nil {ℓ} : {A : Type ℓ} (k : ℕ) → drop {A = A} k [] ≡ []
drop_nil zero = refl
drop_nil (suc k) = refl

drop_cong {ℓ} : {A : Type ℓ} (xs : List A) (m n : ℕ) → m ≡ n → drop m xs ≡ drop n xs
drop_cong xs m n e = ap (λ k. drop k xs) e

drop-drop {ℓ} : {A : Type ℓ} (m n : ℕ) (xs : List A) → drop m (drop n xs) ≡ drop (n + m) xs
drop-drop m zero xs = drop_cong xs m (zero + m) (omega arith)
drop-drop m (suc n) [] = drop_nil m ∙ sym (drop_nil (suc n + m))
drop-drop m (suc n) (x ∷ xs) =
    drop-drop m n xs ∙ drop_cong (x ∷ xs) (suc (n + m)) (suc n + m) (omega arith)

unfoldable pub add_all : LogRing → List LogEntry → LogRing
add_all r [] = r
add_all r (e ∷ es) = add_all (add r e) es

-- The ring holds the last `bound` of the entries in `seen`.
pub record Holds (bound : ℕ) (seen : List LogEntry) (r : LogRing) : Type 0 where
  pub cap_same : r.cap ≡ bound
  pub tail : r.items ≡ drop (length seen - bound) seen

add-Holds :
    (bound : ℕ) (seen : List LogEntry) (r : LogRing) (e : LogEntry)
    → Holds bound seen r
    → Holds bound (seen ++ e ∷ []) (add r e)
unfolding add
add-Holds bound seen r e v = record { cap_same = ground (arith, v.cap_same); tail = kept }
  where
    gone : ℕ
    gone = length seen - bound

    shifted : r.items ++ e ∷ [] ≡ drop gone (seen ++ e ∷ [])
    shifted = ap (λ l. l ++ e ∷ []) v.tail ∙ sym (drop-append gone seen (e ∷ []) (omega arith))

    size : length (r.items ++ e ∷ []) ≡ length seen - gone + 1
    size = omega (arith, length-append r.items (e ∷ []), ap length v.tail, length-drop gone seen)

    size_seen : length (seen ++ e ∷ []) ≡ length seen + 1
    size_seen = length-append seen (e ∷ [])

    all : List LogEntry
    all = r.items ++ e ∷ []

    kept : (add r e).items ≡ drop (length (seen ++ e ∷ []) - bound) (seen ++ e ∷ [])
    kept = elim (Bool-cases (ltb r.cap (length all))) [
      | inl full ↦
          let over : bound < length all = ground (arith, v.cap_same) in
          rw (full, v.cap_same)
            (ap (drop (length all - bound)) shifted
              ∙ drop-drop (length all - bound) gone (seen ++ e ∷ [])
              ∙ drop_cong (seen ++ e ∷ []) (gone + (length all - bound))
                  (length (seen ++ e ∷ []) - bound) (omega (arith, size, size_seen, over)))
      | inr room ↦
          let fits : length all ≤ bound = ground (arith, v.cap_same) in
          rw room (
            shifted
            ∙ drop_cong (seen ++ e ∷ []) gone (length (seen ++ e ∷ []) - bound)
                (omega (arith, size, size_seen, fits)))
    ]

add_all-Holds :
    (bound : ℕ) (seen es : List LogEntry) (r : LogRing)
    → Holds bound seen r
    → Holds bound (seen ++ es) (add_all r es)
unfolding add_all
add_all-Holds bound seen [] r v = rw append-nil v
add_all-Holds bound seen (e ∷ es) r v =
    let step = add_all-Holds bound (seen ++ e ∷ []) es (add r e) (add-Holds bound seen r e v) in
    rw append_assoc at step

-- A new ring of a positive bound to which entries are added holds exactly the last `bound` of them, in
-- order: the whole list as long as it fits.
pub add_all-new_log_ring :
    (bound : ℕ) (es : List LogEntry)
    → 1 ≤ bound
    → (add_all (new_log_ring bound) es).items ≡ drop (length es - bound) es
unfolding new_log_ring
add_all-new_log_ring bound es h =
    (add_all-Holds bound [] es (new_log_ring bound)
      (record { cap_same = ground arith; tail = sym (drop_nil (0 - bound)) })).tail
