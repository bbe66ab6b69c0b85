-- ===== src/Ports.antt =====
-- extras/utils/portunion.go: sets of ports as lists of ranges.
pub mod Order
pub mod Union
pub mod Listing
pub mod Runs
use libya_link.Common.{
  ℕ, zero, suc, ◌+◌, ◌-◌, ◌*◌, ◌%◌, ◌^◌, Bool, true, false, ◌&&◌, ◌||◌, Option, none, some, List,
  [], ◌∷◌, ◌++◌, ltb, leb, ◌==◌, if◌then◌else◌, codes,
}
use libya_link.Common.Strings.{str_eq, contains_byte, split, parse_uint16}

-- Start and End are uint16, both inclusive.
pub record PortRange : Type 0 where
  pub start : ℕ
  pub end : ℕ

abbrev pub PortUnion : Type 0
PortUnion = List PortRange

abbrev pub covers : PortRange → ℕ → Bool
covers r port = leb r.start port && leb port r.end

unfoldable pub contains : PortUnion → ℕ → Bool
contains [] port = false
contains (r ∷ u) port = if covers r port then true else contains u port

-- The ports of `r` from `i` on; `k` rounds are left. `i` is a uint32, so it passes 65535.
unfoldable pub ports_from : ℕ → ℕ → List ℕ
ports_from i zero = []
ports_from i (suc k) = i % 2 ^ 16 ∷ ports_from (suc i) k

unfoldable pub ports : PortUnion → List ℕ
unfolding ports_from
ports [] = []
ports (r ∷ u) = ports_from r.start (r.end + 1 - r.start) ++ ports u

-- The order that Normalize hands to sort.Slice. Two ranges that it does not tell apart are equal,
-- so the result does not depend on the algorithm, and the model inserts.
abbrev pub less : PortRange → PortRange → Bool
less a b = if a.start == b.start then ltb a.end b.end else ltb a.start b.start

unfoldable pub insert : PortRange → PortUnion → PortUnion
insert r [] = r ∷ []
insert r (s ∷ u) = let rest = insert r u in if less s r then s ∷ rest else r ∷ s ∷ u

unfoldable pub sorted : PortUnion → PortUnion
unfolding insert
sorted [] = []
sorted (r ∷ u) = insert r (sorted u)

-- The loop over the ranges behind the first; `last` is the last range of the result so far. The sum
-- is computed in uint32 and does not wrap.
unfoldable pub merge : PortRange → PortUnion → PortUnion
merge last [] = last ∷ []
merge last (r ∷ u) =
    let longer = record last { end = if ltb last.end r.end then r.end else last.end } in
    let joined = merge longer u in
    let apart = last ∷ merge r u in if leb r.start (last.end + 1) then joined else apart

abbrev pub merge_all : PortUnion → PortUnion
merge_all [] = []
merge_all (r ∷ u) = merge r u

unfoldable pub normalize : PortUnion → PortUnion
unfolding sorted merge
normalize u = merge_all (sorted u)

-- The two ends, exchanged if they are the wrong way round.
unfoldable pub make_range : Option ℕ → Option ℕ → Option PortRange
make_range (some x) (some y) =
    some (if ltb y x then record { start = y; end = x } else record { start = x; end = y })
make_range _ _ = none

-- Exactly two parts are a range.
unfoldable pub parse_ends : List (List ℕ) → Option PortRange
unfolding make_range
parse_ends (a ∷ b ∷ []) = make_range (parse_uint16 a) (parse_uint16 b)
parse_ends _ = none

-- One element between commas.
unfoldable pub parse_port_range : List ℕ → Option PortRange
unfolding parse_ends
parse_port_range s =
    if contains_byte b'-' s
    then parse_ends (split b'-' s)
    else elim (parse_uint16 s) [ none ↦ none | some x ↦ some (record { start = x; end = x }) ]

unfoldable pub parse_ranges : List (List ℕ) → Option PortUnion
unfolding parse_port_range
parse_ranges [] = some []
parse_ranges (s ∷ ss) = elim (parse_port_range s) [
  | none ↦ none
  | some r ↦ elim (parse_ranges ss) [ none ↦ none | some u ↦ some (r ∷ u) ]
]

-- `none` is the nil that stands for invalid input.
unfoldable pub parse_port_union : List ℕ → Option PortUnion
unfolding parse_ranges normalize
parse_port_union s =
    if str_eq s (codes "all") || str_eq s (codes "*")
    then some (record { start = 0; end = 65535 } ∷ [])
    else elim (parse_ranges (split b',' s)) [ none ↦ none | some u ↦ some (normalize u) ]
