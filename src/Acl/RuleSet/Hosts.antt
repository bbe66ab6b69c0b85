-- ===== src/Acl/RuleSet/Hosts.antt =====
-- The text of a host that extras/outbounds/acl/compile.go keeps in its cache's keys: hosts with one
-- text are alike to every matcher.
use libya_link.Common.{
  ℕ, ◌≡◌, refl, sym, ap, ◌∙◌, true, false, none, some, List, [], ◌∷◌, ◌++◌, arith,
}
use libya_link.Common.Strings.{contains_byte}
use libya_link.Acl.Matchers.{
  HostInfo, HostMatcher, ip_equal, host_match, domain_match, ip_matcher, cidr_matcher,
  domain_matcher, all_matcher, geoip_matcher, geosite_matcher,
}
use libya_link.Acl.Matchers.Addresses.{
  AreAlike, ip_equal-AreAlike, ip_equal_alike, net_contains_alike, match_ip_alike, absent_alike,
}
use libya_link.Acl.RuleSet.{Libraries, host_string}

-- net.IP.String writes no `|`, and writes the same only for addresses that net.IP.Equal takes for
-- one.
pub record IsIpString (ip_string : List ℕ → List ℕ) : Type 0 where
  pub no_bar : (a : List ℕ) → contains_byte b'|' (ip_string a) ≡ false
  pub tells_apart : (a b : List ℕ) → ip_string a ≡ ip_string b → ip_equal a b ≡ true

tail_of : List ℕ → List ℕ
tail_of [] = []
tail_of (x ∷ xs) = xs

head_of : List ℕ → ℕ
head_of [] = 0
head_of (x ∷ xs) = x

contains_byte-append : (s : ℕ) (xs ys : List ℕ) → contains_byte s (xs ++ (s ∷ ys)) ≡ true
unfolding contains_byte
contains_byte-append s [] ys = ground arith
contains_byte-append s (x ∷ xs) ys = ground (arith, contains_byte-append s xs ys)

-- A text is cut at its last separator in one way only.
last_separator :
    (s : ℕ) (xs xs' ys ys' : List ℕ)
    → contains_byte s ys ≡ false
    → contains_byte s ys' ≡ false
    → xs ++ (s ∷ ys) ≡ xs' ++ (s ∷ ys')
    → (xs ≡ xs') × (ys ≡ ys')
unfolding tail_of head_of
last_separator s [] [] ys ys' h h' e = (refl, ap tail_of e)
last_separator s [] (x ∷ xs') ys ys' h h' e =
    let same : contains_byte s ys ≡ true =
      ap (λ t. contains_byte s (tail_of t)) e ∙ contains_byte-append s xs' ys' in
    cc
last_separator s (x ∷ xs) [] ys ys' h h' e =
    let same : contains_byte s ys' ≡ true =
      ap (λ t. contains_byte s (tail_of t)) (sym e) ∙ contains_byte-append s xs ys in
    cc
last_separator s (x ∷ xs) (x' ∷ xs') ys ys' h h' e =
    let (front, back) = last_separator s xs xs' ys ys' h h' (ap tail_of e) in
    let first : x ≡ x' = ap head_of e in (cc, back)

module _ (l : Libraries) (text : IsIpString l.ip_string) (h g : HostInfo)
    (same : host_string l h ≡ host_string l g) where
  -- The name and the two addresses can be told from the text.
  host_string-parts : (h.name ≡ g.name) × AreAlike h.ipv4 g.ipv4 × AreAlike h.ipv6 g.ipv6
  unfolding host_string
  host_string-parts =
      let (front, v6) =
        last_separator b'|' (h.name ++ (b'|' ∷ l.ip_string h.ipv4))
          (g.name ++ (b'|' ∷ l.ip_string g.ipv4)) (l.ip_string h.ipv6) (l.ip_string g.ipv6)
          (text.no_bar h.ipv6) (text.no_bar g.ipv6) same in
      let (name, v4) =
        last_separator b'|' h.name g.name (l.ip_string h.ipv4) (l.ip_string g.ipv4)
          (text.no_bar h.ipv4) (text.no_bar g.ipv4) front in
      (
        name,
        ip_equal-AreAlike h.ipv4 g.ipv4 (text.tells_apart h.ipv4 g.ipv4 v4),
        ip_equal-AreAlike h.ipv6 g.ipv6 (text.tells_apart h.ipv6 g.ipv6 v6),
      )

  pub host_match_alike :
      (m : HostMatcher) → host_match l.to_unicode m h ≡ host_match l.to_unicode m g
  unfolding host_match
  host_match_alike (ip_matcher ip) =
      let (name, v4, v6) = host_string-parts in
      rw (ip_equal_alike ip h.ipv4 g.ipv4 v4, ip_equal_alike ip h.ipv6 g.ipv6 v6) refl
  host_match_alike (cidr_matcher net mask) =
      let (name, v4, v6) = host_string-parts in
      rw
        (net_contains_alike net mask h.ipv4 g.ipv4 v4, net_contains_alike net mask h.ipv6 g.ipv6 v6)
        refl
  host_match_alike (domain_matcher pattern mode) =
      ap
        (λ n.
          domain_match l.to_unicode pattern mode (elim (l.to_unicode n) [ none ↦ n | some k ↦ k ]))
        (host_string-parts.0)
  host_match_alike all_matcher = refl
  host_match_alike (geoip_matcher n4 n6 inverse) =
      let (name, v4, v6) = host_string-parts in
      rw
        (
          absent_alike h.ipv4 g.ipv4 v4,
          absent_alike h.ipv6 g.ipv6 v6,
          match_ip_alike n4 n6 h.ipv4 g.ipv4 v4,
          match_ip_alike n4 n6 h.ipv6 g.ipv6 v6,
        )
        refl
  host_match_alike (geosite_matcher f) = ap f (host_string-parts.0)
