-- ===== src/Ports/Order.antt =====
-- Sorting the ranges keeps the ports and orders the starts.
use libya_link.Common.{ℕ, ◌≤◌, ◌≡◌, refl, ◌∙◌, inl, inr, ◌||◌, [], ◌∷◌, arith, Bool-cases}
use libya_link.Ports.{PortRange, PortUnion, covers, contains, less, insert, sorted}

-- Each start is at most the next.
abbrev pub StartsFrom : ℕ → PortUnion → Type 0
StartsFrom n [] = Unit
StartsFrom n (r ∷ u) = (n ≤ r.start) × StartsFrom r.start u

pub StartsFrom-weaken : (n k : ℕ) (u : PortUnion) → k ≤ n → StartsFrom n u → StartsFrom k u
StartsFrom-weaken n k [] h s = tt
StartsFrom-weaken n k (r ∷ u) h s = (omega (arith, s.0), s.1)

contains-insert :
    (r : PortRange) (u : PortUnion) (port : ℕ)
    → contains (insert r u) port ≡ (covers r port || contains u port)
unfolding contains insert
contains-insert r [] port = ground arith
contains-insert r (s ∷ u) port = ground (arith, contains-insert r u port)

pub contains-sorted : (u : PortUnion) (port : ℕ) → contains (sorted u) port ≡ contains u port
unfolding contains sorted
contains-sorted [] port = refl
contains-sorted (r ∷ u) port =
    unfold sorted in (contains-insert r (sorted u) port ∙ ground (arith, contains-sorted u port))

insert-StartsFrom :
    (n : ℕ) (r : PortRange) (u : PortUnion)
    → n ≤ r.start
    → StartsFrom n u
    → StartsFrom n (insert r u)
unfolding insert
insert-StartsFrom n r [] h s = (h, tt)
insert-StartsFrom n r (q ∷ u) h s = elim (Bool-cases (less q r)) [
  | inl before ↦ rw before (s.0, insert-StartsFrom q.start r u (ground arith) s.1)
  | inr behind ↦ rw behind (h, (ground arith, s.1))
]

pub sorted-StartsFrom : (u : PortUnion) → StartsFrom 0 (sorted u)
unfolding sorted
sorted-StartsFrom [] = tt
sorted-StartsFrom (r ∷ u) = insert-StartsFrom 0 r (sorted u) (omega arith) (sorted-StartsFrom u)
