-- ===== src/Ports/Union.antt =====
-- Normalize keeps the set of ports and leaves ordered ranges with gaps between them.
use libya_link.Common.{
  ℕ, ◌+◌, ◌<◌, ◌≡◌, refl, ◌∙◌, inl, inr, ◌||◌, [], ◌∷◌, arith, ltb, leb, if◌then◌else◌, Bool-cases,
}
use libya_link.Ports.{PortRange, PortUnion, covers, contains, sorted, merge, merge_all, normalize}
use libya_link.Ports.Order.{StartsFrom, StartsFrom-weaken, contains-sorted, sorted-StartsFrom}

-- At least one port lies between a range and the next, and the ranges go up.
abbrev pub GapsBehind : PortRange → PortUnion → Type 0
GapsBehind last [] = Unit
GapsBehind last (r ∷ u) = (last.end + 1 < r.start) × GapsBehind r u

abbrev pub IsNormal : PortUnion → Type 0
IsNormal [] = Unit
IsNormal (r ∷ u) = GapsBehind r u

contains-merge :
    (last : PortRange) (u : PortUnion) (port : ℕ)
    → StartsFrom last.start u
    → contains (merge last u) port ≡ (covers last port || contains u port)
unfolding contains merge
contains-merge last [] port s = ground arith
contains-merge last (r ∷ u) port s = elim (Bool-cases (leb r.start (last.end + 1))) [
  | inl touches ↦
      let longer : PortRange = record last {
        end = if ltb last.end r.end then r.end else last.end;
      } in
      rw touches (
        contains-merge longer u port (StartsFrom-weaken r.start last.start u s.0 s.1)
        ∙ ground (arith, s.0))
  | inr gap ↦ rw gap (ground (arith, contains-merge r u port s.1))
]

-- The first range of the result starts where `last` starts.
merge-IsNormal :
    (last : PortRange) (u : PortUnion)
    → (first : PortRange) × (rest : PortUnion) × (merge last u ≡ first ∷ rest)
      × (first.start ≡ last.start)
      × GapsBehind first rest
unfolding merge
merge-IsNormal last [] = (last, [], refl, refl, tt)
merge-IsNormal last (r ∷ u) = elim (Bool-cases (leb r.start (last.end + 1))) [
  | inl touches ↦
      rw touches
        (merge-IsNormal (record last { end = if ltb last.end r.end then r.end else last.end }) u)
  | inr gap ↦
      let (first, rest, e, start, gaps) = merge-IsNormal r u in
      rw (gap, e) (last, first ∷ rest, refl, refl, (ground (arith, start), gaps))
]

contains-merge_all :
    (u : PortUnion) (port : ℕ) → StartsFrom 0 u → contains (merge_all u) port ≡ contains u port
contains-merge_all [] port s = refl
contains-merge_all (r ∷ u) port s = contains-merge r u port s.1 ∙ (unfold contains in ground arith)

-- Normalize changes neither the set of ports nor the answer of Contains for any port.
pub contains-normalize : (u : PortUnion) (port : ℕ) → contains (normalize u) port ≡ contains u port
unfolding normalize
contains-normalize u port =
    contains-merge_all (sorted u) port (sorted-StartsFrom u) ∙ contains-sorted u port

merge_all-IsNormal : (u : PortUnion) → IsNormal (merge_all u)
merge_all-IsNormal [] = tt
merge_all-IsNormal (r ∷ u) = let (first, rest, e, start, gaps) = merge-IsNormal r u in rw e gaps

-- In the result of Normalize the ranges go up, and at least one port lies between two neighbours.
pub normalize-IsNormal : (u : PortUnion) → IsNormal (normalize u)
unfolding normalize
normalize-IsNormal u = merge_all-IsNormal (sorted u)
