-- ===== src/CfScan/Tests.antt =====
-- A text with a comment, an address and a network that holds it.
use unified_proxy_pool.Base.{
  ℕ, ◌<◌, ◌^◌, ap, ◌∙◌, arith, ◌≡◌, ◌≤◌, refl, List, [], ◌∷◌, Text, codes, Option, none, some,
  length, ◌++◌, Unlike, text_eq, member_text,
}
use unified_proxy_pool.CfScan.{Address, ipv4, Cidr, dotted, split_lines, parse_targets, expand_cidr}
use unified_proxy_pool.CfScan.Targets.{AllUnderstood, parse_targets_lem}
use unified_proxy_pool.CfScan.Lines.{some_inj}

-- Parsers that know one address and one network.
abbrev one_ip : Text → Option Address
one_ip t = some (ipv4 16843009)

abbrev one_cidr : Text → Option Cidr
one_cidr t = some (record { address = ipv4 16843009; ones = 30; bits = 32 })

in_words : (t : Text) (c : Cidr) (v : ℕ) → one_cidr t ≡ some c → c.address ≡ ipv4 v → v < 2 ^ 32
in_words t c v is e =
    let known = some_inj _ c is in
    let same : 16843009 ≡ v = ground (arith, ap (λ (d : Cidr). d.address) known ∙ e) in
    omega (arith, same)

abbrev wide_cidr : Text → Option Cidr
wide_cidr t = some (record { address = ipv4 16843009; ones = 17; bits = 32 })

abbrev given : Text
given = codes "# hosts" ++ 10 ∷ (codes " 1.1.1.1" ++ 10 ∷ codes "1.1.1.1/30")

abbrev found : List Text
found = codes "1.1.1.1" ∷ codes "1.1.1.0" ∷ codes "1.1.1.2" ∷ codes "1.1.1.3" ∷ []

dotted_test : dotted 16843009 ≡ codes "1.1.1.1"
unfolding dotted
dotted_test = refl

parse_targets_test : parse_targets one_ip one_cidr given ≡ some found
unfolding parse_targets member_text text_eq
parse_targets_test = refl

-- A network of 32768 addresses is refused.
expand_cidr_test : expand_cidr one_ip wide_cidr (codes "1.1.1.1/17") ≡ none
unfolding expand_cidr
expand_cidr_test = refl

-- So is a line of IPv6.
ipv6_test : parse_targets one_ip one_cidr (codes "::1") ≡ none
unfolding parse_targets
ipv6_test = refl

parse_targets_lem_example :
    (1 ≤ length found)
    × (length found ≤ 20000)
    × Unlike found
    × AllUnderstood one_ip one_cidr (split_lines given) found
parse_targets_lem_example =
    parse_targets_lem one_ip one_cidr in_words given found parse_targets_test
