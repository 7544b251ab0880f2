-- ===== src/CfScan/Lines.antt =====
-- internal/cfscan/expand.go: what a line of the text stands for.
use native.Mathlib.Nat.{
  mod-eq_of_lt, div-eq_of_lt-le, div-lt_iff_lt-mul, mul-div_left, one-le-pow, pow-succ',
  mul-le-mul_right,
}
use unified_proxy_pool.Base.{
  ℕ, zero, suc, ◌+◌, ◌-◌, ◌*◌, ◌/◌, ◌%◌, ◌^◌, ◌≤◌, ◌<◌, ◌≡◌, refl, sym, ap, subst, ◌∙◌, true, false,
  inl, inr, Bool, if◌then◌else◌, List, [], ◌∷◌, ltb, ◌==◌, ◌&&◌, not, Text, text_eq_refl, codes,
  is_empty, has_prefix, contains, member_text, Option, none, some, arith, Bool-cases, Option-cases,
}
use unified_proxy_pool.CfScan.{
  Address, ipv4, ipv6, Cidr, dotted, add_ipv4, expand_from, expand_address, expand_cidr, targets_of,
}

pub some_inj {ℓ} : {A : Type ℓ} (a b : A) → some a ≡ some b → a ≡ b
some_inj {A = A} a b h = ap (λ (o : Option A). elim o [ none ↦ a | some x ↦ x ]) h

same_block : (size v k : ℕ) → k < size → (v / size * size + k) / size ≡ v / size
same_block size v k h = div-eq_of_lt-le size (omega arith) (omega (arith, h))

two_pow_add : (i j : ℕ) → 2 ^ i * 2 ^ j ≡ 2 ^ (i + j)
two_pow_add zero j = plus_zero j
  where
    plus_zero : (j : ℕ) → 1 * 2 ^ j ≡ 2 ^ (0 + j)
    plus_zero j = one_times (2 ^ j) ∙ ap (λ n. 2 ^ n) (omega arith)
      where
        one_times : (n : ℕ) → 1 * n ≡ n
        one_times n = omega arith
two_pow_add (suc i) j = rw (pow-succ' 2 i) (
    assoc (2 ^ i) (2 ^ j)
    ∙ ap (λ n. 2 * n) (two_pow_add i j)
    ∙ sym (pow-succ' 2 (i + j))
    ∙ ap (λ n. 2 ^ n) (omega arith))
  where
    assoc : (x y : ℕ) → 2 * x * y ≡ 2 * (x * y)
    assoc x y = omega arith

-- A block of a power of two does not reach over the end of the addresses.
no_wrap : (i v k : ℕ) → i ≤ 32 → v < 2 ^ 32 → k < 2 ^ i → v / 2 ^ i * 2 ^ i + k < 2 ^ 32
no_wrap i v k le h lt =
    let sum : i + (32 - i) ≡ 32 = omega (arith, le) in
    let whole : 2 ^ i * 2 ^ (32 - i) ≡ 2 ^ 32 = two_pow_add i (32 - i) ∙ ap (λ n. 2 ^ n) sum in
    let block : v / 2 ^ i < 2 ^ (32 - i) =
      (div-lt_iff_lt-mul (one-le-pow i 2 (omega arith))).1 (omega (arith, h, whole)) in
    let above : (v / 2 ^ i + 1) * 2 ^ i ≤ 2 ^ (32 - i) * 2 ^ i =
      mul-le-mul_right (2 ^ i) (omega (arith, block)) in
    omega (arith, lt, above, whole)

expand_from-member :
    (size start i k j : ℕ)
    → j < k
    → (add_ipv4 start (i + j) / size == start / size) ≡ true
    → member_text (dotted (add_ipv4 start (i + j))) (expand_from size start i k) ≡ true
unfolding expand_from member_text
expand_from-member size start i zero j h same = absurd (omega (arith, h))
expand_from-member size start i (suc k) j h same = elim (Bool-cases (j == 0)) [
  | inl first ↦
      let here : i + j ≡ i = ground (arith, first) in
      rw here (rw (rw here at same) (rw (text_eq_refl (dotted (add_ipv4 start i))) refl))
  | inr later ↦
      let there : i + 1 + (j - 1) ≡ i + j = ground (arith, later) in
      let rest =
        expand_from-member size start (i + 1) k (j - 1) (ground (arith, h, later))
          (rw there same) in
      either (add_ipv4 start i / size == start / size) (dotted (add_ipv4 start i))
        (expand_from size start (i + 1) k) (rw there at rest)
]
  where
    either :
        (b : Bool) (x : Text) (xs : List Text)
        → member_text (dotted (add_ipv4 start (i + j))) xs ≡ true
        → member_text (dotted (add_ipv4 start (i + j))) (if b then x ∷ xs else xs) ≡ true
    either true x xs e = ground (arith, e)
    either false x xs e = e

-- The block of a network: each of its addresses stands in the expansion.
expand_block :
    (i v k : ℕ)
    → i ≤ 32
    → v < 2 ^ 32
    → k < 2 ^ i
    → member_text
        (dotted (v / 2 ^ i * 2 ^ i + k))
        (expand_from (2 ^ i) (v / 2 ^ i * 2 ^ i) 0 (2 ^ i))
      ≡ true
unfolding add_ipv4
expand_block i v k le h lt =
    let start = v / 2 ^ i * 2 ^ i in
    let own : start / 2 ^ i ≡ v / 2 ^ i = mul-div_left (v / 2 ^ i) (one-le-pow i 2 (omega arith)) in
    let at : add_ipv4 start (0 + k) ≡ start + k =
      ap (λ n. n % 2 ^ 32) (zero_more start k) ∙ mod-eq_of_lt (no_wrap i v k le h lt) in
    let found =
      expand_from-member (2 ^ i) start 0 (2 ^ i) k lt
        (rw at (rw (same_block (2 ^ i) v k lt, own) (eq_self (v / 2 ^ i)))) in
    rw at at found
  where
    zero_more : (s k : ℕ) → s + (0 + k) ≡ s + k
    zero_more s k = omega arith

    eq_self : (n : ℕ) → (n == n) ≡ true
    eq_self n = ground arith

module _ (parse_ip : Text → Option Address) (parse_cidr : Text → Option Cidr) where
  -- What a line is taken for, and that all of its addresses are there. The block of an address is
  -- the one of its size that it stands in.
  pub data Understood (line : Text) (out : List Text) : Type 0 where
    blank : line ≡ [] → Understood line out
    comment : has_prefix line (codes "#") ≡ true → Understood line out
    address :
        (v : ℕ)
        → parse_ip line ≡ some (ipv4 v)
        → member_text (dotted v) out ≡ true
        → Understood line out
    network :
        (c : Cidr) (v : ℕ)
        → parse_cidr line ≡ some c
        → c.address ≡ ipv4 v
        → 2 ^ (32 - c.ones) ≤ 20000
        → ((k : ℕ)
            → k < 2 ^ (32 - c.ones)
            → member_text (dotted (v / 2 ^ (32 - c.ones) * 2 ^ (32 - c.ones) + k)) out ≡ true)
        → Understood line out

  expand_address-network :
      (line : Text) (c : Cidr) (a : Address) (ips out : List Text)
      → parse_cidr line ≡ some c
      → c.address ≡ a
      → ((v : ℕ) → c.address ≡ ipv4 v → v < 2 ^ 32)
      → expand_address parse_ip parse_cidr a c.ones c.bits ≡ some ips
      → ((t : Text) → member_text t ips ≡ true → member_text t out ≡ true)
      → Understood line out
  unfolding expand_address
  expand_address-network line c ipv6 ips out is e words h within = absurd (ground (arith, h))
  expand_address-network line c (ipv4 v) ips out is e words h within =
      elim (Bool-cases (c.bits == 32)) [
        | inr odd ↦ absurd (ground (arith, rw odd at h))
        | inl four ↦ elim (Bool-cases (ltb 20000 (2 ^ (32 - c.ones)))) [
          | inl large ↦ absurd (ground (arith, rw (four, large) at h))
          | inr small ↦
              let size = 2 ^ (32 - c.ones) in
              let same : expand_from size (v / size * size) 0 size ≡ ips =
                some_inj _ ips (rw (four, small) at h) in
              network c v is e (ground (arith, small)) (λ k lt.
                within _
                  (rw (← same) (expand_block (32 - c.ones) v k (omega arith) (words v e) lt)))
        ]
      ]

  expand_cidr-network :
      (line : Text) (ips out : List Text)
      → ((c : Cidr) (v : ℕ) → parse_cidr line ≡ some c → c.address ≡ ipv4 v → v < 2 ^ 32)
      → expand_cidr parse_ip parse_cidr line ≡ some ips
      → ((t : Text) → member_text t ips ≡ true → member_text t out ≡ true)
      → Understood line out
  unfolding expand_cidr
  expand_cidr-network line ips out words h within = elim (Option-cases (parse_cidr line)) [
    | inl bad ↦ absurd (ground (arith, rw bad at h))
    | inr (c, is) ↦
        expand_address-network line c c.address ips out is refl (λ v e. words c v is e) (rw is at h)
          within
  ]

  single_address :
      (line : Text) (found : Option Address) (ips out : List Text)
      → parse_ip line ≡ found
      → (elim found [ none ↦ none | some ipv6 ↦ none | some (ipv4 v) ↦ some (dotted v ∷ []) ])
        ≡ some ips
      → ((t : Text) → member_text t ips ≡ true → member_text t out ≡ true)
      → Understood line out
  unfolding member_text
  single_address line none ips out is h within = absurd (ground (arith, h))
  single_address line (some ipv6) ips out is h within = absurd (ground (arith, h))
  single_address line (some (ipv4 v)) ips out is h within =
      let same = some_inj (dotted v ∷ []) ips h in
      address v is (
        within (dotted v) (
          subst (λ (ts : List Text). member_text (dotted v) ts ≡ true) same
            (rw (text_eq_refl (dotted v)) refl)))

  empty_text : (line : Text) → is_empty line ≡ true → line ≡ []
  empty_text [] h = refl
  empty_text (c ∷ line) h = absurd (ground (arith, h))

  pub targets_of-Understood :
      (line : Text) (ips out : List Text)
      → ((c : Cidr) (v : ℕ) → parse_cidr line ≡ some c → c.address ≡ ipv4 v → v < 2 ^ 32)
      → targets_of parse_ip parse_cidr line ≡ some ips
      → ((t : Text) → member_text t ips ≡ true → member_text t out ≡ true)
      → Understood line out
  unfolding targets_of
  targets_of-Understood line ips out words h within = elim (Bool-cases (is_empty line)) [
    | inl none_there ↦ blank (empty_text line none_there)
    | inr text ↦ elim (Bool-cases (has_prefix line (codes "#"))) [
      | inl skipped ↦ comment skipped
      | inr read ↦
          elim (Bool-cases (contains line (codes ":") && not (contains line (codes ".")))) [
            | inl refused ↦ absurd (ground (arith, rw (text, read, refused) at h))
            | inr accepted ↦ elim (Bool-cases (contains line (codes "/"))) [
              | inl block ↦
                  expand_cidr-network line ips out words (rw (text, read, accepted, block) at h)
                    within
              | inr one ↦
                  single_address line (parse_ip line) ips out refl
                    (rw (text, read, accepted, one) at h) within
            ]
          ]
    ]
  ]
