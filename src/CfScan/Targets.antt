-- ===== src/CfScan/Targets.antt =====
-- internal/cfscan/expand.go: what a text that is accepted gives.
use unified_proxy_pool.Base.{
  ℕ, suc, ◌^◌, ◌<◌, text_eq, ◌≤◌, ◌≡◌, refl, subst, true, false, ◌||◌, inl, inr, List, [], ◌∷◌,
  ◌++◌, leb, ◌==◌, Text, text_eq_refl, text_eq_iff, trim_space, member_text, Unlike, Option, some,
  length, length-append, arith, Bool-cases, Option-cases,
}
use unified_proxy_pool.CfScan.Lines.{some_inj, Understood, targets_of-Understood}
use unified_proxy_pool.CfScan.{
  Address, ipv4, Cidr, max_targets, split_lines, add_target, add_targets, targets_of, read_lines,
  parse_targets,
}

-- All texts of the first list stand in the second.
abbrev pub Within : List Text → List Text → Type 0
Within [] out = Unit
Within (t ∷ ts) out = (member_text t out ≡ true) × Within ts out

-- What is true of the targets at every time.
abbrev Fine : List Text → Type 0
Fine out = Unlike out × (length out ≤ max_targets)

member_text-append :
    (t : Text) (xs ys : List Text)
    → member_text t (xs ++ ys) ≡ (member_text t xs || member_text t ys)
unfolding member_text
member_text-append t [] ys = refl
member_text-append t (x ∷ xs) ys = ground (arith, member_text-append t xs ys)

Unlike-snoc :
    (t : Text) (xs : List Text) → member_text t xs ≡ false → Unlike xs → Unlike (xs ++ t ∷ [])
unfolding member_text
Unlike-snoc t [] h u = (refl, tt)
Unlike-snoc t (x ∷ xs) h u = (
  ground (arith, member_text-append x xs (t ∷ []), h, u.0, text_eq_iff t x, text_eq_iff x t),
  Unlike-snoc t xs (ground (arith, h)) u.1,
)

-- One list of targets grows into another.
abbrev Grows : List Text → List Text → Type 0
Grows xs ys = (t : Text) → member_text t xs ≡ true → member_text t ys ≡ true

room_lem : (n : ℕ) → leb max_targets n ≡ false → suc n ≤ max_targets
room_lem n h = ground (arith, h)

-- What a step leaves, and that it has taken in what it was given.
abbrev Taken : List Text → List Text → List Text → Type 0
Taken ips out next = Fine next × Grows out next × Within ips next

Grows-Within : (ts xs ys : List Text) → Grows xs ys → Within ts xs → Within ts ys
Grows-Within [] xs ys g w = tt
Grows-Within (t ∷ ts) xs ys g w = (g t w.0, Grows-Within ts xs ys g w.1)

snoc_member : (ip : Text) (out : List Text) → member_text ip (out ++ ip ∷ []) ≡ true
unfolding member_text
snoc_member ip [] = rw (text_eq_refl ip) refl
snoc_member ip (t ∷ out) = ground (arith, snoc_member ip out)

add_target_lem :
    (ip : Text) (out next : List Text)
    → add_target ip out ≡ some next
    → Fine out
    → Taken (ip ∷ []) out next
unfolding add_target
add_target_lem ip out next h f = elim (Bool-cases (member_text ip out)) [
  | inl old ↦
      subst (Taken (ip ∷ []) out) (some_inj out next (rw old at h)) (f, (λ t e. e), (old, tt))
  | inr new ↦ elim (Bool-cases (leb max_targets (length out))) [
    | inl full ↦ absurd (ground (arith, rw (new, full) at h))
    | inr room ↦
        subst (Taken (ip ∷ []) out) (some_inj (out ++ ip ∷ []) next (rw (new, room) at h)) (
          (
            Unlike-snoc ip out new f.0,
            omega (arith, length-append out (ip ∷ []), room_lem (length out) room),
          ),
          (λ t e. rw (member_text-append t out (ip ∷ []), e) refl),
          (snoc_member ip out, tt),
        )
  ]
]

add_targets_lem :
    (ips out next : List Text) → add_targets ips out ≡ some next → Fine out → Taken ips out next
unfolding add_targets
add_targets_lem [] out next h f = subst (Taken [] out) (some_inj out next h) (f, (λ t e. e), tt)
add_targets_lem (ip ∷ ips) out next h f = elim (Option-cases (add_target ip out)) [
  | inl full ↦ absurd (ground (arith, rw full at h))
  | inr (mid, is) ↦
      let one = add_target_lem ip out mid is f in
      let rest = add_targets_lem ips mid next (rw is at h) one.0 in
      (rest.0, (λ t e. rest.1 t (one.1 t e)), (rest.1 ip one.2.0, rest.2))
]

module _ (parse_ip : Text → Option Address) (parse_cidr : Text → Option Cidr) where
  -- Every line is read, and all that it gives is there.
  abbrev Read : List Text → List Text → Type 0
  Read [] out = Unit
  Read (line ∷ lines) out =
      ((ips : List Text) × (targets_of parse_ip parse_cidr (trim_space line) ≡ some ips)
        × Within ips out)
      × Read lines out

  read_lines_lem :
      (lines out last : List Text)
      → read_lines parse_ip parse_cidr lines out ≡ some last
      → Fine out
      → Fine last × Grows out last × Read lines last
  unfolding read_lines
  read_lines_lem [] out last h f =
      subst (λ (l : List Text). Fine l × Grows out l × Read [] l) (some_inj out last h)
        (f, (λ t e. e), tt)
  read_lines_lem (line ∷ lines) out last h f =
      elim (Option-cases (targets_of parse_ip parse_cidr (trim_space line))) [
        | inl bad ↦ absurd (ground (arith, rw bad at h))
        | inr (ips, read) ↦ elim (Option-cases (add_targets ips out)) [
          | inl full ↦ absurd (ground (arith, rw (read, full) at h))
          | inr (next, is) ↦
              let here = add_targets_lem ips out next is f in
              let rest = read_lines_lem lines next last (rw (read, is) at h) here.0 in
              (
                rest.0,
                (λ t e. rest.1 t (here.1 t e)),
                ((ips, read, Grows-Within ips next last rest.1 here.2), rest.2),
              )
        ]
      ]

  Within-member :
      (t : Text) (ips out : List Text)
      → Within ips out
      → member_text t ips ≡ true
      → member_text t out ≡ true
  unfolding member_text
  Within-member t [] out w h = absurd (ground (arith, h))
  Within-member t (ip ∷ ips) out w h = elim (Bool-cases (text_eq ip t)) [
    | inl same ↦ rw (← (text_eq_iff ip t).0 same) w.0
    | inr other ↦ Within-member t ips out w.1 (rw other at h)
  ]

  -- Every line is understood.
  abbrev pub AllUnderstood : List Text → List Text → Type 0
  AllUnderstood [] out = Unit
  AllUnderstood (line ∷ lines) out =
      Understood parse_ip parse_cidr (trim_space line) out × AllUnderstood lines out

  module _
      (words : (t : Text) (c : Cidr) (v : ℕ)
        → parse_cidr t ≡ some c
        → c.address ≡ ipv4 v
        → v < 2 ^ 32) where
    Read-AllUnderstood : (lines out : List Text) → Read lines out → AllUnderstood lines out
    Read-AllUnderstood [] out all = tt
    Read-AllUnderstood (line ∷ lines) out ((ips, read, within), all) = (
      targets_of-Understood parse_ip parse_cidr (trim_space line) ips out (words (trim_space line))
          read (λ t. Within-member t ips out within),
      Read-AllUnderstood lines out all,
    )

    -- If the parser of networks gives IPv4 addresses of 32 bits: a text that is accepted gives at least one
    -- address, no address twice, at most 20000, and every line of it, without white space around it, is
    -- empty, a comment, an address that is there, or a network of at most 20000 addresses, every one
    -- of which is there. So one bad line, or one address too many, is an error for the whole text.
    pub parse_targets_lem :
        (text : Text) (out : List Text)
        → parse_targets parse_ip parse_cidr text ≡ some out
        → (1 ≤ length out)
          × (length out ≤ 20000)
          × Unlike out
          × AllUnderstood (split_lines text) out
    unfolding parse_targets
    parse_targets_lem text out h =
        elim (Option-cases (read_lines parse_ip parse_cidr (split_lines text) [])) [
          | inl bad ↦ absurd (ground (arith, rw bad at h))
          | inr (last, is) ↦ elim (Bool-cases (length last == 0)) [
            | inl nothing ↦ absurd (ground (arith, rw (is, nothing) at h))
            | inr found ↦
                let all = read_lines_lem (split_lines text) [] last is (tt, omega arith) in
                subst
                  (λ (l : List Text).
                    (1 ≤ length l)
                    × (length l ≤ 20000)
                    × Unlike l
                    × AllUnderstood (split_lines text) l)
                  (some_inj last out (rw (is, found) at h))
                  (
                    nonzero (length last) found,
                    all.0.1,
                    all.0.0,
                    Read-AllUnderstood (split_lines text) last all.2,
                  )
          ]
        ]
      where
        nonzero : (n : ℕ) → (n == 0) ≡ false → 1 ≤ n
        nonzero n e = ground (arith, e)
