-- ===== src/Ports/Runs.antt =====
-- Runs of the port sets, and the theorems at concrete inputs.
use libya_link.Common.{◌≡◌, refl, none, some, [], ◌∷◌, arith, codes}
use libya_link.Common.Strings.{contains_byte, split, parse_uint16}
use libya_link.Ports.{PortUnion, contains, ports, normalize, parse_port_union, parse_port_range}
use libya_link.Ports.Union.{IsNormal, contains-normalize, normalize-IsNormal}
use libya_link.Ports.Listing.{listed, listed-ports}

abbrev three : PortUnion
three =
    record { start = 7; end = 9 }
    ∷ record { start = 1; end = 3 }
    ∷ record { start = 4; end = 5 }
    ∷ []

normalize-three :
    normalize three ≡ record { start = 1; end = 5 } ∷ record { start = 7; end = 9 } ∷ []
unfolding normalize
normalize-three = refl

parse_three :
    parse_port_union (codes "9-7,1-3,4,5")
    ≡ some (record { start = 1; end = 5 } ∷ record { start = 7; end = 9 } ∷ [])
unfolding parse_port_union parse_port_range split contains_byte parse_uint16
parse_three = refl

parse_too_large : parse_port_union (codes "1,65536") ≡ none
unfolding parse_port_union parse_port_range split contains_byte parse_uint16
parse_too_large = refl

listed-ports_example : listed 8 (ports three) ≡ contains three 8
listed-ports_example = listed-ports three 8 (omega arith)

contains-normalize_example : contains (normalize three) 8 ≡ contains three 8
contains-normalize_example = contains-normalize three 8

normalize-IsNormal_example : IsNormal (normalize three)
normalize-IsNormal_example = normalize-IsNormal three
