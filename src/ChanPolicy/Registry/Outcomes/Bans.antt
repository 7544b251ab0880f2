-- ===== src/ChanPolicy/Registry/Outcomes/Bans.antt =====
-- Registry.Record (internal/chanpolicy/registry.go): the recorded pair and the other pairs.
use unified_proxy_pool.Base.{
  ◌≡◌, ◌≢◌, refl, sym, ◌∙◌, ap, false, ◌||◌, ◌⊎◌, inl, inr, arith, ltb, Text, text_eq, text_eq_iff,
  to_lower, to_lower_idem, Option, none, some, Time, Bool-cases,
}
use unified_proxy_pool.ChanPolicy.Policy.{Policy}
use unified_proxy_pool.ChanPolicy.Rule.{Outcome}
use unified_proxy_pool.ChanPolicy.Registry.State.{Registry, Ban, pair, banned}
use unified_proxy_pool.ChanPolicy.Registry.Evaluate.{allowed}
use unified_proxy_pool.ChanPolicy.Registry.Evaluate.Laws.{evaluate-Imposed, evaluate-some}
use unified_proxy_pool.ChanPolicy.Registry.Views.{is_banned}
use unified_proxy_pool.ChanPolicy.Registry.Views.Banned.{
  pair_of, pair_no_channel, pair_same_channel, banned_lem, is_banned-pair,
}
use unified_proxy_pool.ChanPolicy.Registry.Outcomes.{
  observe, record_outcome_of, clean_addr, clean_channel,
}
use unified_proxy_pool.ChanPolicy.Registry.Outcomes.Laws.{
  Recorded, record-Recorded, clean_channel-named,
}
use unified_proxy_pool.ChanPolicy.Registry.Outcomes.Updated.{IsFullChannel}
use unified_proxy_pool.ChanPolicy.Registry.Evict.Room.{IsFull}
use unified_proxy_pool.ChanPolicy.Registry.Invariant.{Inv}

pub to_lower-clean_addr : (a : Text) → to_lower (clean_addr a) ≡ clean_addr a
unfolding clean_addr
to_lower-clean_addr a = to_lower_idem _

-- The pair that was recorded holds the entry that the change describes.
pub pair-Recorded :
    (o : Outcome) (now : Time) (r : Registry) (d : Recorded o now r)
    → pair (record_outcome_of o now r).0 (clean_channel o.channel) (clean_addr o.addr)
      ≡ some d.change.after
pair-Recorded o now r d =
    pair_of _ (clean_channel o.channel) (clean_addr o.addr) d.change.state
      (rw d.maps.chans d.change.channel_found)
    ∙ d.change.entry_found

enabled-Recorded :
    (o : Outcome) (now : Time) (r : Registry) (d : Recorded o now r)
    → (record_outcome_of o now r).0.policy ≡ r.policy
enabled-Recorded o now r d = d.maps.policy ∙ d.change.policy

-- Banned of the recorded pair reads that entry.
pub is_banned-Recorded :
    (o : Outcome) (now t : Time) (r : Registry) (d : Recorded o now r)
    → is_banned (record_outcome_of o now r).0 (clean_channel o.channel) (clean_addr o.addr) t
      ≡ banned d.change.after t
is_banned-Recorded o now t r d =
    is_banned-pair _ (clean_channel o.channel) (clean_addr o.addr) t (clean_channel-named o.channel)
      d.addr_named (ap (λ (p : Policy). p.enabled) (enabled-Recorded o now r d) ∙ d.enabled)
    ∙ rw (to_lower-clean_addr o.addr, pair-Recorded o now r d) refl

-- Where Record returns a ban, the ban names the recorded pair and the time of the call, the pair was
-- not protected, and Banned answers true for it at exactly the times before the ban's end, or at all
-- times if the policy wants a success first.
pub record_bans :
    (o : Outcome) (now : Time) (r : Registry) (b : Ban)
    → Inv r
    → (record_outcome_of o now r).1 ≡ some b
    → (b.channel ≡ clean_channel o.channel)
      × (b.addr ≡ clean_addr o.addr)
      × (b.banned_at ≡ now)
      × (allowed r.allows b.channel b.addr ≡ false)
      × ((t : Time)
          → is_banned (record_outcome_of o now r).0 b.channel b.addr t
            ≡ (ltb t b.until || r.policy.reprobe_on_expiry))
record_bans o now r b v h = elim (record-Recorded o now r v) [
  | inl same ↦ absurd (ground (arith, ap (λ (q : Registry × Option Ban). q.1) same))
  | inr d ↦ elim d.change.decided [
    | inl (_, _, no_ban) ↦ absurd (ground (arith, d.result, no_ban, h))
    | inr (b', ban, got) ↦
        let e : b' ≡ b = some_eq (sym got ∙ sym d.result ∙ h) in
        let before = observe r.policy d.change.before o now in
        let (x, _, imposed) =
          evaluate-Imposed r.policy r.rules r.allows (clean_channel o.channel) (clean_addr o.addr)
            before o now d.change.after b' ban in
        let free =
          (evaluate-some r.policy r.rules r.allows (clean_channel o.channel) (clean_addr o.addr)
            before o now d.change.after b' ban).0 in
        rw (← e) (
          imposed.channel_same,
          imposed.addr_same,
          imposed.banned_at,
          rw (imposed.channel_same, imposed.addr_same) free,
          λ t.
              rw (imposed.channel_same, imposed.addr_same)
                (is_banned-Recorded o now t r d
                  ∙ banned_lem d.change.after t
                  ∙ rw (imposed.entry_until, imposed.pending) refl),
        )
  ]
]
  where
    some_eq : {a c : Ban} → some a ≡ some c → a ≡ c
    some_eq q = ground arith

-- Texts that differ are told apart.
text_ne : (s t : Text) → s ≢ t → text_eq s t ≡ false
text_ne s t ne = elim (Bool-cases (text_eq s t)) [
  | inl e ↦ absurd (ne ((text_eq_iff s t).0 e))
  | inr e ↦ e
]

-- Record has to make room: for a new channel, or for a new entry of its channel.
abbrev pub NoRoom : Outcome → Registry → Type 0
NoRoom o r =
    IsFull r.policy.max_channels (clean_channel o.channel) r.chans
    ⊎ IsFullChannel (clean_channel o.channel) (clean_addr o.addr) r

module _ (o : Outcome) (now : Time) (r : Registry) (d : Recorded o now r) where
  other_channel :
      (c a : Text)
      → text_eq (clean_channel o.channel) c ≡ false
      → (pair (record_outcome_of o now r).0 c a ≡ pair r c a)
        ⊎ ((pair (record_outcome_of o now r).0 c a ≡ none) × NoRoom o r)
  other_channel c a apart = elim (d.change.other_channels c apart) [
    | inl kept ↦ inl (pair_same_channel r _ c a (rw d.maps.chans kept))
    | inr (gone, full) ↦ inr (pair_no_channel _ c a (rw d.maps.chans gone), inl full)
  ]

  other_addr :
      (a : Text)
      → text_eq (clean_addr o.addr) a ≡ false
      → (pair (record_outcome_of o now r).0 (clean_channel o.channel) a
          ≡ pair r (clean_channel o.channel) a)
        ⊎ ((pair (record_outcome_of o now r).0 (clean_channel o.channel) a ≡ none) × NoRoom o r)
  other_addr a apart =
      let here =
        pair_of (record_outcome_of o now r).0 (clean_channel o.channel) a d.change.state
          (rw d.maps.chans d.change.channel_found) in
      elim (d.change.other_entries a apart) [
        | inl (gone, inl never) ↦ inl (here ∙ gone ∙ sym never)
        | inl (gone, inr full) ↦ inr (here ∙ gone, inr full)
        | inr (e, was, is) ↦ inl (here ∙ is ∙ sym was)
      ]

-- Record on a well-formed registry leaves every pair but the recorded one as it was, or evicts it to make room: it does so only
-- where the recorded channel is new and there are as many channels as the policy allows, or where
-- the recorded address is new to its channel, which has as many entries as the policy allows.
pub record_others :
    (o : Outcome) (now : Time) (r : Registry) (c a : Text)
    → Inv r
    → (clean_channel o.channel ≢ c) ⊎ (clean_addr o.addr ≢ a)
    → (pair (record_outcome_of o now r).0 c a ≡ pair r c a)
      ⊎ ((pair (record_outcome_of o now r).0 c a ≡ none) × NoRoom o r)
record_others o now r c a v other = elim (record-Recorded o now r v) [
  | inl same ↦ inl (rw same refl)
  | inr d ↦ elim (Bool-cases (text_eq (clean_channel o.channel) c)) [
    | inr apart ↦ other_channel o now r d c a apart
    | inl here ↦
        let e : clean_channel o.channel ≡ c = (text_eq_iff (clean_channel o.channel) c).0 here in
        elim other [
          | inl ne ↦ absurd (ne e)
          | inr ne ↦ rw (← e) (other_addr o now r d a (text_ne (clean_addr o.addr) a ne))
        ]
  ]
]
