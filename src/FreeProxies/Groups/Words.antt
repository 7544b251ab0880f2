-- ===== src/FreeProxies/Groups/Words.antt =====
-- internal/freproxies/groups.go: the words of one dimension of a rule, under dedupeTrim.
use mathlib.Core.List.{reverse, reverse-reverse, reverse-append}
use mathlib.Mathlib.Data.List.Basic.{map-reverse_aux}
use unified_proxy_pool.Base.{
  ℕ, ◌⊎◌, ◌≡◌, refl, sym, ap, ◌∙◌, Bool, true, false, not, ◌&&◌, ◌||◌, inl, inr, List, [], ◌∷◌,
  ◌++◌, map, arith, Text, text_eq, text_eq_iff, is_empty, to_lower, to_lower_idem, lower_byte,
  is_space, trim_left, trim_space, contains, equal_fold, member_text, Bool-cases,
}
use unified_proxy_pool.FreeProxies.Groups.{
  is_nil, any_fold, match_any_fold, any_region, dedupe_from, dedupe_trim, dedupe_trim_lower,
}

trim_left_idem : (s : Text) → trim_left (trim_left s) ≡ trim_left s
unfolding trim_left
trim_left_idem [] = refl
trim_left_idem (c ∷ s) = elim (Bool-cases (is_space c)) [
  | inl e ↦ rw e (trim_left_idem s)
  | inr e ↦ rw (e, trim_left) (rw e refl)
]

trim_left-snoc :
    (s : Text) (c : _) → is_space c ≡ false → trim_left (s ++ c ∷ []) ≡ trim_left s ++ c ∷ []
unfolding trim_left
trim_left-snoc [] c e = rw e refl
trim_left-snoc (d ∷ s) c e = elim (Bool-cases (is_space d)) [
  | inl f ↦ rw f (trim_left-snoc s c e)
  | inr f ↦ rw f refl
]

trim_left-cases :
    (s : Text)
    → (trim_left s ≡ []) ⊎ ((c : ℕ) × (u : Text) × (trim_left s ≡ c ∷ u) × (is_space c ≡ false))
unfolding trim_left
trim_left-cases [] = inl refl
trim_left-cases (c ∷ s) = elim (Bool-cases (is_space c)) [
  | inl e ↦ rw e (trim_left-cases s)
  | inr e ↦ rw e (inr (c, s, refl, e))
]

trim_left-trim_space : (s : Text) → trim_left (trim_space s) ≡ trim_space s
unfolding trim_space
trim_left-trim_space s = elim (trim_left-cases s) [
  | inl e ↦ rw (e, trim_left) refl
  | inr (c, u, e, not_space) ↦
      rw
        (
          e,
          reverse-append (c ∷ []) u,
          trim_left-snoc (reverse u) c not_space,
          reverse-append (trim_left (reverse u)) (c ∷ []),
          trim_left,
        )
        (rw not_space refl)
]

trim_space_idem : (s : Text) → trim_space (trim_space s) ≡ trim_space s
unfolding trim_space
trim_space_idem s =
    let v = trim_left (reverse (trim_left s)) in
    rw (trim_left-trim_space s, reverse-reverse v)
      (ap reverse (trim_left_idem (reverse (trim_left s))))

is_space-lower_byte : (c : ℕ) → is_space (lower_byte c) ≡ is_space c
unfolding is_space lower_byte
is_space-lower_byte c = ground arith

trim_left-to_lower : (s : Text) → trim_left (to_lower s) ≡ to_lower (trim_left s)
unfolding trim_left to_lower
trim_left-to_lower [] = refl
trim_left-to_lower (c ∷ s) = elim (Bool-cases (is_space c)) [
  | inl e ↦ rw (is_space-lower_byte c, e) (trim_left-to_lower s)
  | inr e ↦ rw (is_space-lower_byte c, e) refl
]

reverse-to_lower : (s : Text) → reverse (to_lower s) ≡ to_lower (reverse s)
unfolding to_lower
reverse-to_lower s = sym (map-reverse_aux lower_byte s [])

trim_space-to_lower : (s : Text) → trim_space (to_lower s) ≡ to_lower (trim_space s)
unfolding trim_space
trim_space-to_lower s =
    rw
      (
        trim_left-to_lower s,
        reverse-to_lower (trim_left s),
        trim_left-to_lower (reverse (trim_left s)),
      )
      (reverse-to_lower (trim_left (reverse (trim_left s))))

pub is_empty-to_lower : (s : Text) → is_empty (to_lower s) ≡ is_empty s
unfolding to_lower
is_empty-to_lower [] = refl
is_empty-to_lower (c ∷ s) = refl

-- The key of a word: what it is compared by.
abbrev key : Text → Text
key w = to_lower (trim_space w)

-- Some word that is not blank has a key with the property.
unfoldable pub any_word : (Text → Bool) → List Text → Bool
any_word test [] = false
any_word test (w ∷ ws) = (not (is_empty (trim_space w)) && test (key w)) || any_word test ws

abbrev any_seen : (Text → Bool) → List Text → Bool
any_seen test [] = false
any_seen test (k ∷ ks) = test k || any_seen test ks

any_fold-any_word :
    (ws : List Text) (got : Text) → any_fold ws got ≡ any_word (λ k. text_eq k (to_lower got)) ws
unfolding any_fold any_word equal_fold
any_fold-any_word [] got = refl
any_fold-any_word (w ∷ ws) got = ground (arith, any_fold-any_word ws got)

any_region-any_word :
    (ws : List Text) (region : Text) → any_region ws region ≡ any_word (λ k. contains region k) ws
unfolding any_region any_word
any_region-any_word [] region = refl
any_region-any_word (w ∷ ws) region =
    ground (arith, any_region-any_word ws region, is_empty-to_lower (trim_space w))

any_seen-member :
    (test : Text → Bool) (k : Text) (ks : List Text)
    → member_text k ks ≡ true
    → test k ≡ true
    → any_seen test ks ≡ true
unfolding member_text
any_seen-member test k [] m h = absurd (ground arith)
any_seen-member test k (j ∷ ks) m h = elim (Bool-cases (text_eq j k)) [
  | inl e ↦ rw ((text_eq_iff j k).0 e, h) refl
  | inr e ↦ rw (any_seen-member test k ks (ground (arith, m, e)) h) (ground arith)
]

any_word-dedupe_from :
    (test : Text → Bool) (seen ws : List Text)
    → (any_seen test seen || any_word test (dedupe_from seen ws))
      ≡ (any_seen test seen || any_word test ws)
unfolding dedupe_from any_word
any_word-dedupe_from test seen [] = refl
any_word-dedupe_from test seen (w ∷ ws) = elim (Bool-cases (is_empty (trim_space w))) [
  | inl blank ↦ rw (blank, dedupe_from, any_word) (any_word-dedupe_from test seen ws)
  | inr word ↦ elim (Bool-cases (member_text (key w) seen)) [
    | inl old ↦
        rw (word, dedupe_from, any_word)
          (rw old (
            ground
              (arith, any_word-dedupe_from test seen ws, any_seen-member test (key w) seen old)))
    | inr new ↦
        rw (word, dedupe_from, any_word)
          (rw new (
            rw (trim_space_idem w, word)
              (ground (arith, any_word-dedupe_from test (key w ∷ seen) ws))))
  ]
]

pub any_word-dedupe_trim :
    (test : Text → Bool) (ws : List Text) → any_word test (dedupe_trim ws) ≡ any_word test ws
unfolding dedupe_trim
any_word-dedupe_trim test ws = any_word-dedupe_from test [] ws

any_word-to_lower :
    (test : Text → Bool) (ws : List Text) → any_word test (map to_lower ws) ≡ any_word test ws
unfolding any_word
any_word-to_lower test [] = refl
any_word-to_lower test (w ∷ ws) =
    rw
      (
        trim_space-to_lower w,
        is_empty-to_lower (trim_space w),
        to_lower_idem (trim_space w),
        any_word-to_lower test ws,
      )
      refl

pub any_word-dedupe_trim_lower :
    (test : Text → Bool) (ws : List Text) → any_word test (dedupe_trim_lower ws) ≡ any_word test ws
unfolding dedupe_trim_lower
any_word-dedupe_trim_lower test ws =
    any_word-to_lower test (dedupe_trim ws) ∙ any_word-dedupe_trim test ws

any_word_nil : (test : Text → Bool) (ws : List Text) → any_word test ws ≡ true → is_nil ws ≡ false
unfolding any_word
any_word_nil test [] h = absurd (ground arith)
any_word_nil test (w ∷ ws) h = refl

-- The dimension names no word, or some word that is not blank.
unfoldable pub Worded : List Text → Type 0
unfolding any_word
Worded ws = (is_nil ws ≡ true) ⊎ (any_word (λ k. true) ws ≡ true)

-- What a dimension matches, by its words, is left by what leaves its words.
dimension :
    (ws vs : List Text) (test : Text → Bool)
    → ((f : Text → Bool) → any_word f vs ≡ any_word f ws)
    → ((is_nil ws ≡ true) → is_nil vs ≡ true)
    → Worded ws
    → (is_nil vs || any_word test vs) ≡ (is_nil ws || any_word test ws)
unfolding Worded
dimension ws vs test same nil (inl none_given) = rw (nil none_given, none_given) refl
dimension ws vs test same nil (inr given) =
    rw (any_word_nil (λ k. true) vs (same (λ k. true) ∙ given), any_word_nil (λ k. true) ws given)
      (same test)

nil_dedupe_trim : (ws : List Text) → is_nil ws ≡ true → is_nil (dedupe_trim ws) ≡ true
unfolding dedupe_trim dedupe_from
nil_dedupe_trim [] h = refl
nil_dedupe_trim (w ∷ ws) h = absurd (ground arith)

nil_dedupe_trim_lower : (ws : List Text) → is_nil ws ≡ true → is_nil (dedupe_trim_lower ws) ≡ true
unfolding dedupe_trim_lower dedupe_trim dedupe_from
nil_dedupe_trim_lower [] h = refl
nil_dedupe_trim_lower (w ∷ ws) h = absurd (ground arith)

match_any_fold-any_word :
    (ws : List Text) (got : Text)
    → match_any_fold ws got ≡ (is_nil ws || any_word (λ k. text_eq k (to_lower got)) ws)
unfolding match_any_fold
match_any_fold-any_word ws got = ground (arith, any_fold-any_word ws got)

pub match_any_fold-dedupe_trim :
    (ws : List Text) (got : Text)
    → Worded ws
    → match_any_fold (dedupe_trim ws) got ≡ match_any_fold ws got
match_any_fold-dedupe_trim ws got h =
    match_any_fold-any_word (dedupe_trim ws) got
    ∙ dimension ws (dedupe_trim ws) (λ k. text_eq k (to_lower got)) (λ f. any_word-dedupe_trim f ws)
        (nil_dedupe_trim ws) h
    ∙ sym (match_any_fold-any_word ws got)

pub match_any_fold-dedupe_trim_lower :
    (ws : List Text) (got : Text)
    → Worded ws
    → match_any_fold (dedupe_trim_lower ws) got ≡ match_any_fold ws got
match_any_fold-dedupe_trim_lower ws got h =
    match_any_fold-any_word (dedupe_trim_lower ws) got
    ∙ dimension ws (dedupe_trim_lower ws) (λ k. text_eq k (to_lower got))
        (λ f. any_word-dedupe_trim_lower f ws) (nil_dedupe_trim_lower ws) h
    ∙ sym (match_any_fold-any_word ws got)

pub any_region-dedupe_trim :
    (ws : List Text) (region : Text)
    → Worded ws
    → (is_nil (dedupe_trim ws) || any_region (dedupe_trim ws) region)
      ≡ (is_nil ws || any_region ws region)
any_region-dedupe_trim ws region h =
    rw (any_region-any_word (dedupe_trim ws) region, any_region-any_word ws region)
      (dimension ws (dedupe_trim ws) (λ k. contains region k) (λ f. any_word-dedupe_trim f ws)
        (nil_dedupe_trim ws) h)
