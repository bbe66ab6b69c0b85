-- ===== src/Acl/ProtoPort.antt =====
-- parseProtoPort of extras/outbounds/acl/compile.go.
use libya_link.Common.{
  ℕ, ◌≤◌, ◌≡◌, refl, ◌||◌, Option, none, some, List, [], arith, ltb, if◌then◌else◌, codes,
}
use libya_link.Common.Strings.{
  UnicodeTables, str_eq, to_lower, cut, trim_space, parse_uint16, parse_uint16-le,
}

pub data Protocol : Type 0 where
  both tcp udp : Protocol

abbrev pub ProtoPort : Type 0
ProtoPort = Protocol × ℕ × ℕ

-- `none` is the answer whose last component is false.
unfoldable pub with_ports : Protocol → Option ℕ → Option ℕ → Option ProtoPort
with_ports proto (some a) (some b) = if ltb b a then none else some (proto, a, b)
with_ports proto _ _ = none

-- A single port is parsed from the text before TrimSpace, a range from the trimmed text.
unfoldable pub single_or_range : Protocol → List ℕ → Option (List ℕ × List ℕ) → Option ProtoPort
single_or_range proto text none = with_ports proto (parse_uint16 text) (parse_uint16 text)
single_or_range proto text (some (a, b)) = with_ports proto (parse_uint16 a) (parse_uint16 b)

unfoldable pub parse_ports : UnicodeTables → Protocol → List ℕ → Option ProtoPort
parse_ports t proto text =
    if str_eq text (codes "*")
    then some (proto, 0, 0)
    else single_or_range proto text (cut b'-' (trim_space t text))

-- What stands before the slash, and what behind it, if there is one.
unfoldable pub parse_parts : UnicodeTables → List ℕ → Option (List ℕ × List ℕ) → Option ProtoPort
parse_parts t s none =
    if str_eq s (codes "tcp")
    then some (tcp, 0, 0)
    else if str_eq s (codes "udp")
    then some (udp, 0, 0)
    else none
parse_parts t s (some (proto, text)) =
    if str_eq proto (codes "tcp")
    then parse_ports t tcp text
    else if str_eq proto (codes "udp")
    then parse_ports t udp text
    else if str_eq proto (codes "*")
    then parse_ports t both text
    else none

unfoldable pub parse_lower : UnicodeTables → List ℕ → Option ProtoPort
parse_lower t s =
    if str_eq s [] || str_eq s (codes "*") || str_eq s (codes "*/*")
    then some (both, 0, 0)
    else parse_parts t s (cut b'/' s)

unfoldable pub parse_proto_port : UnicodeTables → List ℕ → Option ProtoPort
unfolding parse_lower
parse_proto_port t s = parse_lower t (to_lower t s)

with_ports_bounds :
    (proto : Protocol) (a b : Option ℕ) (r : ProtoPort)
    → ((n : ℕ) → b ≡ some n → n ≤ 65535)
    → with_ports proto a b ≡ some r
    → (r.1 ≤ r.2) × (r.2 ≤ 65535)
unfolding with_ports
with_ports_bounds proto (some a) (some b) r hb h = ground (arith, hb b refl)
with_ports_bounds proto (some a) none r hb h = cc
with_ports_bounds proto none b r hb h = cc

single_or_range_bounds :
    (proto : Protocol) (text : List ℕ) (parts : Option (List ℕ × List ℕ)) (r : ProtoPort)
    → single_or_range proto text parts ≡ some r
    → (r.1 ≤ r.2) × (r.2 ≤ 65535)
unfolding single_or_range
single_or_range_bounds proto text none r h =
    with_ports_bounds proto (parse_uint16 text) (parse_uint16 text) r (parse_uint16-le text) h
single_or_range_bounds proto text (some (a, b)) r h =
    with_ports_bounds proto (parse_uint16 a) (parse_uint16 b) r (parse_uint16-le b) h

parse_ports_bounds :
    (t : UnicodeTables) (proto : Protocol) (text : List ℕ) (r : ProtoPort)
    → parse_ports t proto text ≡ some r
    → (r.1 ≤ r.2) × (r.2 ≤ 65535)
unfolding parse_ports
parse_ports_bounds t proto text r h =
    ground (arith, single_or_range_bounds proto text (cut b'-' (trim_space t text)) r)

parse_parts_bounds :
    (t : UnicodeTables) (s : List ℕ) (parts : Option (List ℕ × List ℕ)) (r : ProtoPort)
    → parse_parts t s parts ≡ some r
    → (r.1 ≤ r.2) × (r.2 ≤ 65535)
unfolding parse_parts
parse_parts_bounds t s none r h = ground arith
parse_parts_bounds t s (some (proto, text)) r h = ground (
  arith,
  parse_ports_bounds t tcp text r,
  parse_ports_bounds t udp text r,
  parse_ports_bounds t both text r,
)

-- A text that parseProtoPort accepts gives two uint16 ports, the first at most the second.
pub parse_proto_port_bounds :
    (t : UnicodeTables) (s : List ℕ) (r : ProtoPort)
    → parse_proto_port t s ≡ some r
    → (r.1 ≤ r.2) × (r.2 ≤ 65535)
unfolding parse_proto_port
parse_proto_port_bounds t s r h =
    ground (arith, parse_parts_bounds t (to_lower t s) (cut b'/' (to_lower t s)) r)
