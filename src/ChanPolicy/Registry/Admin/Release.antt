-- ===== src/ChanPolicy/Registry/Admin/Release.antt =====
-- Registry.Unban (internal/chanpolicy/registry.go): the release of a pair.
use unified_proxy_pool.Base.{
  ◌≡◌, refl, ◌∙◌, true, false, not, ◌&&◌, ◌⊎◌, inl, inr, arith, if◌then◌else◌, Text, text_eq,
  text_eq_iff, text_eq_refl, some, Time, is_zero, lookup, insert, lookup-insert, Option-cases,
  Bool-cases,
}
use unified_proxy_pool.ChanPolicy.Name.{normalize_channel_name}
use unified_proxy_pool.ChanPolicy.Registry.State.{Registry, ChannelState, Entry, pair}
use unified_proxy_pool.ChanPolicy.Registry.Views.{is_banned}
use unified_proxy_pool.ChanPolicy.Registry.Views.Banned.{
  pair_of, pair_same_channel, IsClear, IsClear-banned, is_banned_unless,
}
use unified_proxy_pool.ChanPolicy.Registry.Outcomes.{clean_addr}
use unified_proxy_pool.ChanPolicy.Registry.Outcomes.Bans.{to_lower-clean_addr}
use unified_proxy_pool.ChanPolicy.Registry.Admin.{put_entry, unban, unban_entry, unbanned}

pub pair-put_entry :
    (r : Registry) (c a k j : Text) (ch : ChannelState) (e : Entry)
    → lookup c r.chans ≡ some ch
    → pair (put_entry c ch a e r) k j ≡ (if text_eq c k && text_eq a j then some e else pair r k j)
unfolding pair put_entry
pair-put_entry r c a k j ch e h = ground (
  arith,
  text_eq_iff c k,
  lookup-insert c k (record ch { entries = insert a e ch.entries }) r.chans,
  lookup-insert a j e ch.entries,
)

unbanned-IsClear : (e : Entry) → IsClear (unbanned e)
unfolding unbanned
unbanned-IsClear e = record { no_time = refl; no_wait = refl }

-- What a release does to a registry.
pub record Released (c a : Text) (r r' : Registry) : Type 0 where
  pub entry : Entry
  pub found : pair r c a ≡ some entry
  pub was_out : is_zero entry.banned_until && not entry.pending_reprobe ≡ false
  pub pairs :
      (k j : Text)
      → pair r' k j ≡ (if text_eq c k && text_eq a j then some (unbanned entry) else pair r k j)
  pub strikes_kept : (unbanned entry).strikes ≡ entry.strikes

unban_entry_lem :
    (c a : Text) (ch : ChannelState) (e : Entry) (r : Registry)
    → lookup c r.chans ≡ some ch
    → lookup a ch.entries ≡ some e
    → (unban_entry c a ch e r ≡ (r, false))
      ⊎ (((unban_entry c a ch e r).1 ≡ true) × Released c a r (unban_entry c a ch e r).0)
unfolding unban_entry unbanned
unban_entry_lem c a ch e r found is =
    elim (Bool-cases (is_zero e.banned_until && not e.pending_reprobe)) [
      | inl clear ↦ inl (rw clear refl)
      | inr out ↦ rw out (
          inr (
            refl,
            record {
              entry = e;
              found = pair_of r c a ch found ∙ is;
              was_out = out;
              pairs = λ k j.
                  pair_same_channel (put_entry c ch a (unbanned e) r) _ k j refl
                  ∙ pair-put_entry r c a k j ch (unbanned e) found;
              strikes_kept = refl;
            },
          ))
    ]

unban_cases :
    (c' a' : Text) (r : Registry)
    → (unban c' a' r ≡ (r, false))
      ⊎ (((unban c' a' r).1 ≡ true)
          × Released (normalize_channel_name c') (clean_addr a') r (unban c' a' r).0)
unfolding unban
unban_cases c' a' r = elim (Option-cases (lookup (normalize_channel_name c') r.chans)) [
  | inl missing ↦ inl (rw (missing, unban) refl)
  | inr (ch, found) ↦ elim (Option-cases (lookup (clean_addr a') ch.entries)) [
    | inl missing ↦ inl (rw (found, unban) (rw (missing, unban) refl))
    | inr (e, is) ↦
        rw (found, unban)
          (rw (is, unban)
            (unban_entry_lem (normalize_channel_name c') (clean_addr a') ch e r found is))
  ]
]

-- Unban either reports false and changes nothing, or it reports true and releases the pair: the pair
-- was known and had a ban or waited for a success; its strikes are kept, every other pair is as
-- before, and Banned answers false for it at all times.
pub unban_lem :
    (c' a' : Text) (r : Registry)
    → (unban c' a' r ≡ (r, false))
      ⊎ (((unban c' a' r).1 ≡ true)
          × Released (normalize_channel_name c') (clean_addr a') r (unban c' a' r).0
          × ((t : Time)
              → is_banned (unban c' a' r).0 (normalize_channel_name c') (clean_addr a') t ≡ false))
unban_lem c' a' r = elim (unban_cases c' a' r) [
  | inl same ↦ inl same
  | inr (done, q) ↦ inr (
    done,
    q,
    λ t. is_banned_unless (unban c' a' r).0 (normalize_channel_name c') (clean_addr a') t (
        rw (to_lower-clean_addr a', q.pairs, text_eq_refl, text_eq_refl)
          (IsClear-banned (unbanned q.entry) t (unbanned-IsClear q.entry))),
  )
]
