-- ===== src/FreeProxies/Selection/Candidates.antt =====
-- internal/freproxies/candidates.go: the candidates of a pick, and Pick. What stands beside the service
-- is asked through `Guards` and `Backend`.
use unified_proxy_pool.Base.{
  ℕ, ◌*◌, Bool, true, false, not, ◌&&◌, ◌||◌, List, [], ◌∷◌, ltb, ◌==◌, if◌then◌else◌, Text,
  is_empty, to_lower, contains, equal_fold, Option, none, some, Time, Dict, has, length, pos,
  is_le_zero, to_nat,
}
use unified_proxy_pool.FreeProxies.{Proxy}
use unified_proxy_pool.FreeProxies.Score.{Ip, family}
use unified_proxy_pool.FreeProxies.Selection.{
  Strategy, PickOptions, PickState, Draws, apply_strategy,
}

-- The blacklist by address, the country filter by region and host, the sources that are switched off,
-- and the ban set of a channel.
pub record Guards : Type 0 where
  pub blocked : Text → Bool
  pub country : Text → Text → Bool
  pub source_disabled : Text → Bool
  pub ban_set : Text → Dict Time

-- A query of the ladder: validated proxies by protocol, region and family.
pub record Query : Type 0 where
  pub size : ℕ
  pub protocol : Text
  pub region : Text
  pub family : Text

-- The hot cache, where there is one, and the store; none is an error.
pub record Backend : Type 0 where
  pub hot : Option (ℕ → Text → Text → List Proxy)
  pub random_n : Text → ℕ → Option (List Proxy)
  pub list : Query → Option (List Proxy)

pub record PickResult : Type 0 where
  pub items : List Proxy
  pub relaxed : Bool
  pub failed : Bool

-- The result for candidates that are not empty.
unfoldable pub served :
    Bool → List Proxy → Draws → PickOptions → Time → PickState → PickResult × PickState
unfolding apply_strategy
served relaxed candidates draws opt now s =
    let (out, after) = apply_strategy draws candidates opt now s in
    (record { items = out; relaxed = relaxed; failed = false }, after)

-- The options with their defaults filled in.
abbrev pub pick_options : Strategy → PickOptions → PickOptions
pick_options default given = record given {
  n = if is_le_zero given.n then pos 1 else given.n;
  strategy = some (elim given.strategy [ none ↦ default | some k ↦ k ]);
}

module _ (parse_ip : Text → Option Ip) (guards : Guards) where
  -- No channel has no bans.
  abbrev pub bans_of : Text → Dict Time
  bans_of channel = if is_empty channel then [] else guards.ban_set channel

  -- The body of filterCandidates' loop.
  unfoldable pub usable : PickOptions → Dict Time → Proxy → Bool
  unfolding equal_fold contains to_lower family has
  usable opt banned p =
      not (guards.blocked p.addr)
      && not (guards.country p.region p.host)
      && not (guards.source_disabled p.source)
      && not (has p.addr banned)
      && (is_empty opt.protocol || equal_fold p.protocol opt.protocol)
      && (is_empty opt.region
          || is_empty p.region
          || equal_fold p.region opt.region
          || contains (to_lower p.region) (to_lower opt.region))
      && (is_empty opt.family || equal_fold (family parse_ip p) opt.family)

  unfoldable pub filter_candidates : List Proxy → PickOptions → Dict Time → List Proxy
  unfolding usable
  filter_candidates [] opt banned = []
  filter_candidates (p ∷ ps) opt banned =
      let rest = filter_candidates ps opt banned in if usable opt banned p then p ∷ rest else rest

  module _ (backend : Backend) where
    -- A list of candidates, or an error when no query was answered.
    abbrev pub or_else : List Proxy → List Proxy × Bool → List Proxy × Bool
    or_else [] next = next
    or_else (p ∷ ps) next = (p ∷ ps, false)

    unfoldable pub from_store : Text → ℕ → PickOptions → Dict Time → List Proxy
    unfolding filter_candidates
    from_store protocol window opt banned = elim (backend.random_n protocol window) [
      | none ↦ []
      | some items ↦ filter_candidates items opt banned
    ]

    -- A rung of the ladder; none is an error.
    unfoldable pub rung : Query → PickOptions → Dict Time → Option (List Proxy)
    unfolding filter_candidates
    rung q opt banned = elim (backend.list q) [
      | none ↦ none
      | some items ↦
          some (
            filter_candidates items (record opt { protocol = q.protocol; region = q.region })
              banned)
    ]

    -- The two rungs; the second is left out where it asks the same.
    unfoldable pub ladder : ℕ → PickOptions → Dict Time → List Proxy × Bool
    unfolding rung
    ladder size opt banned =
        let first : Query = record {
          size = size;
          protocol = opt.protocol;
          region = opt.region;
          family = opt.family;
        } in
        let second : Query = record {
          size = size;
          protocol = [];
          region = [];
          family = opt.family;
        } in
        let same = is_empty opt.protocol && is_empty opt.region in
        elim (rung first opt banned) [
          | none ↦
              if same
              then ([], true)
              else elim (rung second opt banned) [ none ↦ ([], true) | some out ↦ (out, false) ]
          | some out ↦ or_else out (
              if same
              then ([], false)
              else elim (rung second opt banned) [ none ↦ ([], false) | some out2 ↦ (out2, false) ])
        ]

    unfoldable pub gather_candidates : PickOptions → Dict Time → List Proxy × Bool
    unfolding from_store ladder filter_candidates
    gather_candidates opt banned =
        let n = to_nat opt.n in
        let window = if ltb 64 (n * 8) then n * 8 else 64 in
        let size = if ltb 40 (n * 10) then n * 10 else 40 in
        let hot : List Proxy = elim backend.hot [
          | none ↦ []
          | some pick ↦ filter_candidates (pick window opt.protocol opt.region) opt banned
        ] in
        let any_protocol : List Proxy =
          if is_empty opt.protocol
          then []
          else from_store [] window (record opt { protocol = [] }) banned in
        or_else hot (
          or_else (from_store opt.protocol window opt banned)
            (or_else any_protocol (ladder size opt banned)))

    -- Pick, with the default strategy of the service.
    unfoldable pub pick : Strategy → Draws → PickOptions → Time → PickState → PickResult × PickState
    unfolding gather_candidates apply_strategy
    pick default draws given now s =
        let opt = pick_options default given in
        let banned = bans_of opt.channel in
        let items = (gather_candidates opt banned).0 in
        let relaxed = (gather_candidates opt []).0 in
        let nothing : PickResult = record { items = []; relaxed = false; failed = true } in
        if not (length items == 0)
        then served false items draws opt now s
        else if not (length banned == 0) && not (length relaxed == 0)
        then served true relaxed draws opt now s
        else (nothing, s)
