-- ===== src/ChanPolicy/Registry/Evaluate/Laws.antt =====
-- What a ban by evaluateLocked means for the entry.
use unified_proxy_pool.Base.{
  ◌+◌, ◌≡◌, refl, ap, Bool, true, false, List, arith, if◌then◌else◌, Text, Option, none, some,
  Duration, time_after, Time, Dict, Bool-cases, inl, inr,
}
use unified_proxy_pool.ChanPolicy.Policy.{Policy}
use unified_proxy_pool.ChanPolicy.Log.{Reason, reported}
use unified_proxy_pool.ChanPolicy.Rule.{Rule, Outcome}
use unified_proxy_pool.ChanPolicy.Registry.State.{Entry, Ban, Allow, banned}
use unified_proxy_pool.ChanPolicy.Registry.Evaluate.{
  evaluate, allowed, verdict, impose, strikes_now,
}

gate {ℓ κ} :
    {X : Type ℓ} {Y : Type κ} (a b : Bool) (v : Option X) (f : X → Y) {y : Y}
    → (if a then none else if b then none else elim v [ none ↦ none | some x ↦ some (f x) ])
      ≡ some y
    → (a ≡ false) × (b ≡ false) × ((x : X) × (v ≡ some x) × (f x ≡ y))
gate true b v f e = absurd (ground arith)
gate false true v f e = absurd (ground arith)
gate false false none f e = absurd (ground arith)
gate false false (some x) f e = (refl, refl, (x, refl, ground arith))

module _ (p : Policy) (rules : List Rule) (allows : Dict (Dict Allow)) (channel addr : Text)
    (e : Entry) (o : Outcome) (now : Time) where
  -- A ban has a verdict behind it, and hits a pair that is neither protected nor banned.
  pub evaluate-some :
      (out : Entry) (b : Ban)
      → evaluate p rules allows channel addr e o now ≡ some (out, b)
      → (allowed allows channel addr ≡ false)
        × (banned e now ≡ false)
        × ((x : Reason × Duration) × (verdict p rules channel e o now ≡ some x)
            × (impose p channel addr e o now x.0 x.1 ≡ (out, b)))
  unfolding evaluate
  evaluate-some out b h =
      gate (allowed allows channel addr) (banned e now) (verdict p rules channel e o now)
        (λ x. impose p channel addr e o now x.0 x.1) h

  pub evaluate-allowed :
      allowed allows channel addr ≡ true → evaluate p rules allows channel addr e o now ≡ none
  unfolding evaluate
  evaluate-allowed h = rw h refl

  pub evaluate_banned : banned e now ≡ true → evaluate p rules allows channel addr e o now ≡ none
  unfolding evaluate
  evaluate_banned h = elim (Bool-cases (allowed allows channel addr)) [
    | inl a ↦ rw a refl
    | inr a ↦ rw (a, h) refl
  ]

  -- The ban tells what the entry holds.
  pub record Imposed (out : Entry) (b : Ban) (why : Reason) (ttl : Duration) : Type 0 where
    pub channel_same : b.channel ≡ channel
    pub addr_same : b.addr ≡ addr
    pub reason_same : b.reason ≡ (if o.reported then reported why else why)
    pub banned_at : b.banned_at ≡ now
    pub until : b.until ≡ time_after now ttl
    pub entry_until : out.banned_until ≡ b.until
    pub strikes : b.strikes ≡ strikes_now p e now + 1
    pub entry_strikes : out.strikes ≡ b.strikes
    pub pending : out.pending_reprobe ≡ p.reprobe_on_expiry

  impose-Imposed :
      (why : Reason) (ttl : Duration)
      → Imposed
          (impose p channel addr e o now why ttl).0
          (impose p channel addr e o now why ttl).1
          why
          ttl
  unfolding impose
  impose-Imposed why ttl = record {
    channel_same = refl;
    addr_same = refl;
    reason_same = refl;
    banned_at = refl;
    until = refl;
    entry_until = refl;
    strikes = refl;
    entry_strikes = refl;
    pending = refl;
  }

  pub evaluate-Imposed :
      (out : Entry) (b : Ban)
      → evaluate p rules allows channel addr e o now ≡ some (out, b)
      → (x : Reason × Duration) × (verdict p rules channel e o now ≡ some x) × Imposed out b x.0 x.1
  evaluate-Imposed out b h =
      let (_, _, (x, v, same)) = evaluate-some out b h in
      (
        x,
        v,
        rw (← ap (λ (q : Entry × Ban). q.0) same, ← ap (λ (q : Entry × Ban). q.1) same)
            (impose-Imposed x.0 x.1),
      )
