-- ===== src/Acl/RuleSet.antt =====
-- HostInfo.String, compiledRule and compiledRuleSetImpl of extras/outbounds/acl/compile.go. The LRU
-- cache is a parameter, and so are the functions of other packages that the rules use.
pub mod Hosts
pub mod Decision
use libya_link.Common.{
  ℕ, ◌≡◌, ◌⊎◌, Bool, true, false, not, ◌&&◌, ◌||◌, Option, none, some, List, [], ◌∷◌, ◌++◌, ltb,
  ◌==◌, if◌then◌else◌,
}
use libya_link.Common.Strings.{UnicodeTables, to_lower}
use libya_link.Acl.Matchers.{HostInfo, HostMatcher, host_match}
use libya_link.Acl.ProtoPort.{Protocol, both, tcp, udp}

abbrev pub protocol_eq : Protocol → Protocol → Bool
protocol_eq both both = true
protocol_eq tcp tcp = true
protocol_eq udp udp = true
protocol_eq _ _ = false

-- A hijack address is its bytes, empty for nil.
pub record CompiledRule (O : Type 0) : Type 0 where
  pub outbound : O
  pub host_matcher : HostMatcher
  pub protocol : Protocol
  pub start_port : ℕ
  pub end_port : ℕ
  pub hijack_address : List ℕ

-- What the rules use that is outside the repository: net.IP.String, idna.ToUnicode, and the tables
-- behind strings.ToLower.
pub record Libraries : Type 0 where
  pub ip_string : List ℕ → List ℕ
  pub to_unicode : List ℕ → Option (List ℕ)
  pub unicode : UnicodeTables

-- HostInfo.String
unfoldable pub host_string : Libraries → HostInfo → List ℕ
host_string l h = (h.name ++ (b'|' ∷ l.ip_string h.ipv4)) ++ (b'|' ∷ l.ip_string h.ipv6)

unfoldable pub rule_match :
    {O : Type 0} → Libraries → CompiledRule O → HostInfo → Protocol → ℕ → Bool
rule_match l r host proto port =
    if not (protocol_eq r.protocol both) && not (protocol_eq r.protocol proto)
    then false
    else if not (r.start_port == 0) && (ltb port r.start_port || ltb r.end_port port)
    then false
    else host_match l.to_unicode r.host_matcher host

abbrev pub MatchResult : Type 0 → Type 0
MatchResult O = O × List ℕ

-- The loop over the rules; `nothing` is the zero value of the outbound type.
unfoldable pub first_match :
    {O : Type 0} → Libraries → O → List (CompiledRule O) → HostInfo → Protocol → ℕ → MatchResult O
first_match l nothing [] host proto port = (nothing, [])
first_match l nothing (r ∷ rules) host proto port =
    if rule_match l r host proto port
    then (r.outbound, r.hijack_address)
    else first_match l nothing rules host proto port

pub record CacheKey : Type 0 where
  pub host : List ℕ
  pub proto : Protocol
  pub port : ℕ

-- lru.Cache: a lookup may reorder the entries, and an insertion may evict some.
pub record Cache (V : Type 0) : Type 1 where
  pub State : Type 0
  pub get : CacheKey → State → Option V × State
  pub add : CacheKey → V → State → State

-- What its documentation promises: it answers only with values that were added under the key.
pub record IsCache {V : Type 0} (c : Cache V) : Type 0 where
  pub get_keeps :
      (k j : CacheKey) (s : c.State) (v : V)
      → (c.get k (c.get j s).1).0 ≡ some v
      → (c.get k s).0 ≡ some v
  pub add_keeps :
      (k j : CacheKey) (s : c.State) (v w : V)
      → (c.get k (c.add j w s)).0 ≡ some v
      → ((k ≡ j) × (v ≡ w)) ⊎ ((c.get k s).0 ≡ some v)

-- The host with its name in lower case.
abbrev pub normal_host : Libraries → HostInfo → HostInfo
normal_host l host = record host { name = to_lower l.unicode host.name }

abbrev pub cache_key : Libraries → HostInfo → Protocol → ℕ → CacheKey
cache_key l host proto port = record {
  host = host_string l (normal_host l host);
  proto = proto;
  port = port;
}

module _ {O : Type 0} (l : Libraries) (nothing : O) (c : Cache (MatchResult O)) where
  -- Returns the result and the cache.
  unfoldable pub rule_set_match :
      List (CompiledRule O) → HostInfo → Protocol → ℕ → c.State → MatchResult O × c.State
  rule_set_match rules host proto port s =
      let key = cache_key l host proto port in
      let result = first_match l nothing rules (normal_host l host) proto port in
      let (found, s') = c.get key s in
      elim found [ some r ↦ (r, s') | none ↦ (result, c.add key result s') ]
