-- ===== src/Acl/RuleSet/Decision.antt =====
-- What the rule set of extras/outbounds/acl/compile.go decides, with its cache, against a description
-- of which rule applies.
use libya_link.Common.{
  ℕ, ◌≤◌, ◌≡◌, refl, sym, ap, ◌∙◌, ◌⊎◌, inl, inr, true, false, not, ◌&&◌, ◌||◌, ltb, some, List, [],
  ◌∷◌, arith, ◌==◌, Bool-cases, Option-cases,
}
use libya_link.Acl.Matchers.{HostInfo, host_match}
use libya_link.Acl.ProtoPort.{Protocol, both, tcp, udp}
use libya_link.Acl.RuleSet.{
  Libraries, host_string, CompiledRule, rule_match, protocol_eq, MatchResult, first_match, Cache,
  IsCache, normal_host, cache_key, rule_set_match, CacheKey,
}
use libya_link.Acl.RuleSet.Hosts.{IsIpString, host_match_alike}

-- Which protocols, and which ports, a rule is for.
abbrev pub OfProtocol : Protocol → Protocol → Type 0
OfProtocol own proto = (own ≡ both) ⊎ (own ≡ proto)

abbrev pub OfPort : ℕ → ℕ → ℕ → Type 0
OfPort start end port = (start ≡ 0) ⊎ ((start ≤ port) × (port ≤ end))

protocol_eq-OfProtocol :
    (own proto : Protocol)
    → (((not (protocol_eq own both) && not (protocol_eq own proto)) ≡ false) × OfProtocol own proto)
      ⊎ (((not (protocol_eq own both) && not (protocol_eq own proto)) ≡ true)
          × ¬ OfProtocol own proto)
protocol_eq-OfProtocol both proto = inl (refl, inl refl)
protocol_eq-OfProtocol tcp tcp = inl (refl, inr refl)
protocol_eq-OfProtocol udp udp = inl (refl, inr refl)
protocol_eq-OfProtocol tcp both = inr (refl, λ h. elim h [ inl e ↦ cc | inr e ↦ cc ])
protocol_eq-OfProtocol tcp udp = inr (refl, λ h. elim h [ inl e ↦ cc | inr e ↦ cc ])
protocol_eq-OfProtocol udp both = inr (refl, λ h. elim h [ inl e ↦ cc | inr e ↦ cc ])
protocol_eq-OfProtocol udp tcp = inr (refl, λ h. elim h [ inl e ↦ cc | inr e ↦ cc ])

ltb-OfPort :
    (start end port : ℕ)
    → (((not (start == 0) && (ltb port start || ltb end port)) ≡ false) × OfPort start end port)
      ⊎ (((not (start == 0) && (ltb port start || ltb end port)) ≡ true) × ¬ OfPort start end port)
ltb-OfPort start end port =
    elim (Bool-cases (not (start == 0) && (ltb port start || ltb end port))) [
      | inl t ↦ inr (t, λ h. elim h [ inl e ↦ ground arith | inr e ↦ ground arith ])
      | inr t ↦ elim (Bool-cases (start == 0)) [
        | inl u ↦ inl (t, inl (ground arith))
        | inr u ↦ inl (t, inr (ground arith, ground arith))
      ]
    ]

module _ {O : Type 0} (l : Libraries) where
  -- A rule applies to the hosts that its matcher takes, over its protocol or both, at the ports of
  -- its range or, where that starts at 0, at every port.
  abbrev pub Applies : CompiledRule O → HostInfo → Protocol → ℕ → Type 0
  Applies r h proto port =
      OfProtocol r.protocol proto
      × OfPort r.start_port r.end_port port
      × (host_match l.to_unicode r.host_matcher h ≡ true)

  -- The answer is that of the first rule that applies, and `nothing` without an address if none does.
  abbrev pub Decides : O → List (CompiledRule O) → HostInfo → Protocol → ℕ → MatchResult O → Type 0
  Decides nothing [] h proto port v = v ≡ (nothing, [])
  Decides nothing (r ∷ rs) h proto port v =
      (Applies r h proto port × (v ≡ (r.outbound, r.hijack_address)))
      ⊎ (¬ Applies r h proto port × Decides nothing rs h proto port v)

  rule_match-Applies :
      (r : CompiledRule O) (h : HostInfo) (proto : Protocol) (port : ℕ)
      → ((rule_match l r h proto port ≡ true) × Applies r h proto port)
        ⊎ ((rule_match l r h proto port ≡ false) × ¬ Applies r h proto port)
  unfolding rule_match
  rule_match-Applies r h proto port = elim (protocol_eq-OfProtocol r.protocol proto) [
    | inr (e, other) ↦ inr (rw e refl, λ a. other a.0)
    | inl (e, of_proto) ↦ elim (ltb-OfPort r.start_port r.end_port port) [
      | inr (f, outside) ↦ inr (rw (e, f) refl, λ a. outside a.1)
      | inl (f, of_port) ↦ elim (Bool-cases (host_match l.to_unicode r.host_matcher h)) [
        | inl t ↦ inl (rw (e, f, t) refl, (of_proto, of_port, t))
        | inr t ↦ inr (rw (e, f, t) refl, λ a. let clash : true ≡ false = sym a.2 ∙ t in cc)
      ]
    ]
  ]

  first_match-Decides :
      (nothing : O) (rs : List (CompiledRule O)) (h : HostInfo) (proto : Protocol) (port : ℕ)
      → Decides nothing rs h proto port (first_match l nothing rs h proto port)
  unfolding first_match
  first_match-Decides nothing [] h proto port = refl
  first_match-Decides nothing (r ∷ rs) h proto port = elim (rule_match-Applies r h proto port) [
    | inl (e, applies) ↦ inl (applies, rw e refl)
    | inr (e, skipped) ↦ inr (skipped, rw e (first_match-Decides nothing rs h proto port))
  ]

  module _ (text : IsIpString l.ip_string) where
    Applies-alike :
        (r : CompiledRule O) (h g : HostInfo) (proto : Protocol) (port : ℕ)
        → host_string l h ≡ host_string l g
        → Applies r h proto port
        → Applies r g proto port
    Applies-alike r h g proto port same (a, b, t) =
        (a, b, sym (host_match_alike l text h g same r.host_matcher) ∙ t)

    Decides-alike :
        (nothing : O) (rs : List (CompiledRule O)) (h g : HostInfo) (proto : Protocol) (port : ℕ)
        (v : MatchResult O)
        → host_string l h ≡ host_string l g
        → Decides nothing rs h proto port v
        → Decides nothing rs g proto port v
    Decides-alike nothing [] h g proto port v same e = e
    Decides-alike nothing (r ∷ rs) h g proto port v same (inl (a, e)) =
        inl (Applies-alike r h g proto port same a, e)
    Decides-alike nothing (r ∷ rs) h g proto port v same (inr (skipped, rest)) = inr (
      (λ a. skipped (Applies-alike r g h proto port (sym same) a)),
      Decides-alike nothing rs h g proto port v same rest,
    )

module _ {O : Type 0} (l : Libraries) (text : IsIpString l.ip_string) (nothing : O)
    (c : Cache (MatchResult O)) (law : IsCache c) (rules : List (CompiledRule O)) where
  -- Every cached result is what the rules decide for any host with that key.
  abbrev pub IsSound : c.State → Type 0
  IsSound s =
      (host : HostInfo) (proto : Protocol) (port : ℕ) (v : MatchResult O)
      → (c.get (cache_key l host proto port) s).0 ≡ some v
      → Decides l nothing rules (normal_host l host) proto port v

  fresh :
      (host : HostInfo) (proto : Protocol) (port : ℕ) (host' : HostInfo) (proto' : Protocol)
      (port' : ℕ) (v w : MatchResult O)
      → cache_key l host' proto' port' ≡ cache_key l host proto port
      → v ≡ w
      → Decides l nothing rules (normal_host l host) proto port w
      → Decides l nothing rules (normal_host l host') proto' port' v
  fresh host proto port host' proto' port' v w e same h =
      let protos : proto' ≡ proto = ap (λ (k : CacheKey). k.proto) e in
      let port_eq : port' ≡ port = ap (λ (k : CacheKey). k.port) e in
      rw (protos, port_eq, same)
        (Decides-alike l text nothing rules (normal_host l host) (normal_host l host') proto port w
          (sym (ap (λ (k : CacheKey). k.host) e)) h)

  -- Where the cache holds only what the rules decide, Match answers with the outbound and the address
  -- of the first rule that applies to the host in lower case, to the protocol and to the port, and
  -- with none where no rule does, cached or not, and keeps the cache so. The cache answers only with
  -- what was added under the key, and net.IP.String tells addresses apart.
  pub rule_set_match-Decides :
      (host : HostInfo) (proto : Protocol) (port : ℕ) (s : c.State)
      → IsSound s
      → Decides l nothing rules
          (normal_host l host)
          proto
          port
          (rule_set_match l nothing c rules host proto port s).0
        × IsSound (rule_set_match l nothing c rules host proto port s).1
  unfolding rule_set_match
  rule_set_match-Decides host proto port s sound =
      let key = cache_key l host proto port in
      let looked : c.State = (c.get key s).1 in
      let result : MatchResult O = first_match l nothing rules (normal_host l host) proto port in
      let decided = first_match-Decides l nothing rules (normal_host l host) proto port in
      let kept : IsSound looked = λ host' proto' port' v h.
        sound host' proto' port' v (law.get_keeps (cache_key l host' proto' port') key s v h) in
      elim (Option-cases (c.get key s).0) [
        | inr (r, e) ↦ rw (e, rule_set_match) (sound host proto port r e, kept)
        | inl e ↦
            rw (e, rule_set_match)
              (
                decided,
                λ host' proto' port' v h.
                    elim (law.add_keeps (cache_key l host' proto' port') key looked v result h) [
                      | inl (k, w) ↦ fresh host proto port host' proto' port' v result k w decided
                      | inr old ↦ kept host' proto' port' v old
                    ],
              )
      ]
