-- ===== src/Acl/Matchers.antt =====
-- extras/outbounds/acl/matchers.go and the geoipMatcher of matchers_v2geo.go. A net.IP is its bytes,
-- nil the empty list. The conversion idna.ToUnicode of golang.org/x/net is a parameter, `none` where
-- it fails. The loops of net.IP.Equal and net.IPNet.Contains are written out.
pub mod Addresses
mod Search
use libya_link.Common.{
  ℕ, zero, suc, ◌+◌, ◌-◌, ◌/◌, Bool, true, false, not, ◌&&◌, ◌||◌, Option, none, some, List, [],
  ◌∷◌, ltb, ◌==◌, if◌then◌else◌, length, take, drop, get_or,
}
use Prim.Native.Nat.{bit_and}
use libya_link.Common.Strings.{str_eq, has_suffix}

pub record HostInfo : Type 0 where
  pub name : List ℕ
  pub ipv4 : List ℕ
  pub ipv6 : List ℕ

pub data DomainMatchMode : Type 0 where
  exact wildcard suffix : DomainMatchMode

abbrev pub star : ℕ
star = b'*'

-- deepMatchRune: where the pattern begins with a star, the rest of it is tried here first.
unfoldable pub deep_match_rune : List ℕ → List ℕ → Bool
deep_match_rune [] [] = true
deep_match_rune (s ∷ str) [] = false
deep_match_rune [] (c ∷ pattern) =
    let rest = deep_match_rune [] pattern in if c == star then rest else false
deep_match_rune (s ∷ str) (c ∷ pattern) =
    let skip = deep_match_rune (s ∷ str) pattern in
    let stay = deep_match_rune str (c ∷ pattern) in
    let next = deep_match_rune str pattern in
    if c == star then (if skip then true else stay) else if s == c then next else false

-- The first twelve bytes of an IPv4 address in IPv6 form.
abbrev pub v4_in_v6_prefix : List ℕ
v4_in_v6_prefix = 0 ∷ 0 ∷ 0 ∷ 0 ∷ 0 ∷ 0 ∷ 0 ∷ 0 ∷ 0 ∷ 0 ∷ 255 ∷ 255 ∷ []

-- net.IP.Equal
unfoldable pub ip_equal : List ℕ → List ℕ → Bool
ip_equal a b =
    if length a == length b
    then str_eq a b
    else if length a == 4 && length b == 16
    then str_eq (take 12 b) v4_in_v6_prefix && str_eq a (drop 12 b)
    else if length a == 16 && length b == 4
    then str_eq (take 12 a) v4_in_v6_prefix && str_eq (drop 12 a) b
    else false

-- net.IP.To4, the empty list for nil.
unfoldable pub to4 : List ℕ → List ℕ
to4 ip =
    if length ip == 4
    then ip
    else if length ip == 16 && str_eq (take 12 ip) v4_in_v6_prefix
    then drop 12 ip
    else []

-- What net.IPNet.Contains and geoipMatcher.matchIP look up: the four bytes of an IPv4 address.
abbrev pub unmapped : List ℕ → List ℕ
unmapped ip = if length (to4 ip) == 0 then ip else to4 ip

-- The number of the network in net.networkNumberAndMask, before the mask is looked at.
abbrev network_number : List ℕ → List ℕ
network_number net =
    if length (to4 net) == 0 then (if length net == 16 then net else []) else to4 net

-- net.networkNumberAndMask, two empty lists for nil and nil.
unfoldable pub network_number_and_mask : List ℕ → List ℕ → List ℕ × List ℕ
network_number_and_mask net mask =
    let nn = network_number net in
    if length nn == 0
    then ([], [])
    else if length mask == 4
    then (if length nn == 4 then (nn, mask) else ([], []))
    else if length mask == 16
    then (if length nn == 4 then (nn, drop 12 mask) else (nn, mask))
    else ([], [])

abbrev masked_eq : List ℕ → List ℕ → List ℕ → Bool
masked_eq [] mask ip = true
masked_eq (n ∷ net) mask [] = true
masked_eq (n ∷ net) [] (b ∷ ip) = true
masked_eq (n ∷ net) (m ∷ mask) (b ∷ ip) = bit_and n m == bit_and b m && masked_eq net mask ip

-- net.IPNet.Contains
unfoldable pub net_contains : List ℕ → List ℕ → List ℕ → Bool
net_contains net mask ip =
    let (nn, m) = network_number_and_mask net mask in
    let x = unmapped ip in if length x == length nn then masked_eq nn m x else false

-- `bytes.Compare(a, b) < 0`
abbrev bytes_less : List ℕ → List ℕ → Bool
bytes_less a [] = false
bytes_less [] (c ∷ b) = true
bytes_less (d ∷ a) (c ∷ b) = if d == c then bytes_less a b else ltb d c

-- An IPNet: its number and its mask.
abbrev pub IpNet : Type 0
IpNet = List ℕ × List ℕ

-- The binary search of matchIP, by a bound on its rounds. `right` is one more than the source's,
-- which may be -1.
unfoldable pub binary_search : List IpNet → List ℕ → ℕ → ℕ → ℕ → Bool
binary_search n ip zero left right = false
binary_search n ip (suc fuel) left right =
    let mid = (left + right - 1) / 2 in
    let net = get_or n mid ([], []) in
    let above = binary_search n ip fuel (mid + 1) right in
    let below = binary_search n ip fuel left mid in
    if not (ltb left right)
    then false
    else if net_contains net.0 net.1 ip
    then true
    else if bytes_less net.0 ip
    then above
    else below

-- geoipMatcher.matchIP: every round leaves fewer places, so their number bounds the rounds.
unfoldable pub match_ip : List IpNet → List IpNet → List ℕ → Bool
match_ip n4 n6 ip =
    let n = if length (to4 ip) == 0 then n6 else n4 in
    binary_search n (unmapped ip) (length n) 0 (length n)

-- The implementations of hostMatcher; of geositeMatcher it is a test of the name.
pub data HostMatcher : Type 0 where
  ip_matcher : List ℕ → HostMatcher
  cidr_matcher : List ℕ → List ℕ → HostMatcher
  domain_matcher : List ℕ → DomainMatchMode → HostMatcher
  all_matcher : HostMatcher
  geoip_matcher : List IpNet → List IpNet → Bool → HostMatcher
  geosite_matcher : (List ℕ → Bool) → HostMatcher

module _ (to_unicode : List ℕ → Option (List ℕ)) where
  unfoldable pub domain_match : List ℕ → DomainMatchMode → List ℕ → Bool
  domain_match pattern exact name = str_eq name pattern
  domain_match pattern wildcard name = deep_match_rune name pattern
  domain_match pattern suffix name = str_eq name pattern || has_suffix name (b'.' ∷ pattern)

  unfoldable pub host_match : HostMatcher → HostInfo → Bool
  unfolding domain_match
  host_match (ip_matcher ip) host = ip_equal ip host.ipv4 || ip_equal ip host.ipv6
  host_match (cidr_matcher net mask) host =
      net_contains net mask host.ipv4 || net_contains net mask host.ipv6
  host_match (domain_matcher pattern mode) host =
      domain_match pattern mode (elim (to_unicode host.name) [ none ↦ host.name | some n ↦ n ])
  host_match all_matcher host = true
  host_match (geoip_matcher n4 n6 inverse) host =
      if not (length host.ipv4 == 0) && match_ip n4 n6 host.ipv4
      then not inverse
      else if not (length host.ipv6 == 0) && match_ip n4 n6 host.ipv6
      then not inverse
      else inverse
  host_match (geosite_matcher f) host = f host.name
