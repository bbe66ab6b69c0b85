-- ===== src/Acl/Runs.antt =====
-- Runs of the rule engine, and the theorems at concrete inputs.
use libya_link.Common.{
  ℕ, ◌≤◌, ◌≡◌, refl, ap, ◌↔◌, inl, inr, Bool, true, ◌&&◌, Option, none, some, List, [], ◌∷◌, arith,
  ◌==◌, if◌then◌else◌, Bool-cases, codes, ◌+◌, map, get_or, drop, false,
}
use libya_link.Common.Strings.{
  UnicodeTables, contains_byte, parse_uint16, str_eq, str_eq_sound, to_lower, cut, trim_space,
}
use libya_link.Acl.Matchers.{
  HostInfo, exact, domain_matcher, unmapped, to4, network_number_and_mask, net_contains,
  domain_match, host_match, deep_match_rune,
}
use libya_link.Acl.Matchers.Addresses.{unmapped-ip_equal}
use libya_link.Acl.Glob.{Matches, deep_match_rune_iff}
use libya_link.Acl.ProtoPort.{
  Protocol, both, tcp, udp, with_ports, single_or_range, parse_ports, parse_parts, parse_lower,
  parse_proto_port, parse_proto_port_bounds,
}
use libya_link.Acl.RuleSet.{
  Libraries, host_string, CompiledRule, rule_match, protocol_eq, MatchResult, first_match, CacheKey,
  Cache, IsCache, normal_host, rule_set_match,
}
use libya_link.Acl.RuleSet.Hosts.{IsIpString}
use libya_link.Acl.RuleSet.Decision.{Decides, IsSound, rule_set_match-Decides}

-- No table: the code points from 128 on are left as they are.
abbrev ascii : UnicodeTables
ascii = record { lower = λ c. c; space = λ c. false }

match_subdomain : deep_match_rune (codes "www.example.com") (codes "*.example.*") ≡ true
unfolding deep_match_rune
match_subdomain = refl

deep_match_rune_iff_example :
    (deep_match_rune (codes "ab.c") (codes "a*.c") ≡ true) ↔ Matches (codes "a*.c") (codes "ab.c")
deep_match_rune_iff_example = deep_match_rune_iff (codes "ab.c") (codes "a*.c")

parse_range : parse_proto_port ascii (codes "UDP/20000-30000") ≡ some (udp, 20000, 30000)
unfolding parse_proto_port parse_lower parse_parts parse_ports single_or_range with_ports to_lower
    cut trim_space parse_uint16
parse_range = refl

-- A single port with a space before it is refused, a range with one is not.
parse_space :
    (parse_proto_port ascii (codes "tcp/ 443") ≡ none)
    × (parse_proto_port ascii (codes "tcp/ 443-444") ≡ some (tcp, 443, 444))
unfolding parse_proto_port parse_lower parse_parts parse_ports single_or_range with_ports to_lower
    cut trim_space parse_uint16
parse_space = (refl, refl)

parse_proto_port_bounds_example : (20000 ≤ 30000) × (30000 ≤ 65535)
parse_proto_port_bounds_example =
    parse_proto_port_bounds ascii (codes "UDP/20000-30000") (udp, 20000, 30000) parse_range

-- A cache of one entry.
protocol_eq→≡ : (p q : Protocol) → protocol_eq p q ≡ true → p ≡ q
protocol_eq→≡ both both h = refl
protocol_eq→≡ tcp tcp h = refl
protocol_eq→≡ udp udp h = refl
protocol_eq→≡ both tcp h = cc
protocol_eq→≡ both udp h = cc
protocol_eq→≡ tcp both h = cc
protocol_eq→≡ tcp udp h = cc
protocol_eq→≡ udp both h = cc
protocol_eq→≡ udp tcp h = cc

abbrev key_eq : CacheKey → CacheKey → Bool
key_eq k j = str_eq k.host j.host && protocol_eq k.proto j.proto && k.port == j.port

key_eq→≡ : (k j : CacheKey) → key_eq k j ≡ true → k ≡ j
key_eq→≡ k j h =
    let hosts : k.host ≡ j.host = str_eq_sound k.host j.host (ground arith) in
    let protos : k.proto ≡ j.proto = protocol_eq→≡ k.proto j.proto (ground arith) in
    let port_eq : k.port ≡ j.port = ground arith in cc

abbrev Entry : Type 0
Entry = Option (CacheKey × MatchResult ℕ)

abbrev look : CacheKey → Entry → Option (MatchResult ℕ)
look k none = none
look k (some (j, w)) = if key_eq k j then some w else none

abbrev one_entry : Cache (MatchResult ℕ)
one_entry = record { State = Entry; get = λ k s. (look k s, s); add = λ k w s. some (k, w) }

one_entry-IsCache : IsCache one_entry
one_entry-IsCache = record {
  get_keeps = λ k j s v h. h;
  add_keeps = λ k j s v w h. elim (Bool-cases (key_eq k j)) [
    | inl e ↦ inl (key_eq→≡ k j e, cc)
    | inr e ↦ inr cc
  ];
}

-- The bytes of an address as it is compared, each one moved up beyond `|`.
abbrev moved : List ℕ → List ℕ
moved = map (λ b. b + 125)

abbrev moved_string : List ℕ → List ℕ
moved_string ip = moved (unmapped ip)

moved-contains_byte : (a : List ℕ) → contains_byte b'|' (moved a) ≡ false
unfolding contains_byte
moved-contains_byte [] = refl
moved-contains_byte (x ∷ a) = ground (arith, moved-contains_byte a)

moved-str_eq : (a b : List ℕ) → moved a ≡ moved b → str_eq a b ≡ true
moved-str_eq [] [] e = refl
moved-str_eq [] (y ∷ b) e = cc
moved-str_eq (x ∷ a) [] e = cc
moved-str_eq (x ∷ a) (y ∷ b) e =
    let first : x + 125 ≡ y + 125 = ap (λ t. get_or t 0 0) e in
    let rest : str_eq a b ≡ true = moved-str_eq a b (ap (drop 1) e) in ground arith

moved_string-IsIpString : IsIpString moved_string
moved_string-IsIpString = record {
  no_bar = λ a. moved-contains_byte (unmapped a);
  tells_apart = λ a b e.
      unmapped-ip_equal a b
        (str_eq_sound (unmapped a) (unmapped b) (moved-str_eq (unmapped a) (unmapped b) e));
}

abbrev libraries : Libraries
libraries = record { ip_string = moved_string; to_unicode = λ s. some s; unicode = ascii }

abbrev rules : List (CompiledRule ℕ)
rules =
    record {
      outbound = 2;
      host_matcher = domain_matcher (codes "a.example") exact;
      protocol = udp;
      start_port = 80;
      end_port = 90;
      hijack_address = [];
    }
    ∷ []

abbrev host : HostInfo
host = record { name = codes "A.example"; ipv4 = 10 ∷ 0 ∷ 0 ∷ 1 ∷ []; ipv6 = [] }

-- A network in IPv6 form holds an IPv4 address, whose port is in the range or is not.
in_network :
    (net_contains
        (0 ∷ 0 ∷ 0 ∷ 0 ∷ 0 ∷ 0 ∷ 0 ∷ 0 ∷ 0 ∷ 0 ∷ 255 ∷ 255 ∷ 10 ∷ 0 ∷ 0 ∷ 0 ∷ [])
        (255 ∷ 255 ∷ 255 ∷ 255 ∷ 255 ∷ 255 ∷ 255 ∷ 255 ∷ 255 ∷ 255 ∷ 255 ∷ 255 ∷ 255 ∷ 0 ∷ 0 ∷ 0
          ∷ [])
        host.ipv4
      ≡ true)
    × ((rule_set_match libraries 0 one_entry rules host udp 85 none).0 ≡ (2, []))
    × ((rule_set_match libraries 0 one_entry rules host udp 91 none).0 ≡ (0, []))
unfolding net_contains network_number_and_mask to4 rule_set_match first_match rule_match host_match
    domain_match host_string to_lower
in_network = (refl, refl, refl)

rule_set_match-Decides_example :
    Decides libraries 0 rules
      (normal_host libraries host)
      udp
      85
      (rule_set_match libraries 0 one_entry rules host udp 85 none).0
    × IsSound libraries moved_string-IsIpString 0 one_entry one_entry-IsCache rules
        (rule_set_match libraries 0 one_entry rules host udp 85 none).1
rule_set_match-Decides_example =
    rule_set_match-Decides libraries moved_string-IsIpString 0 one_entry one_entry-IsCache rules
      host udp 85 none (λ host' proto' port' v h. cc)
