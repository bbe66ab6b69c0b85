-- ===== src/Ports/Listing.antt =====
-- Ports lists exactly the ports that Contains accepts.
use libya_link.Common.{
  ℕ, zero, suc, ◌+◌, ◌-◌, ◌≤◌, ◌≡◌, refl, ◌∙◌, Bool, false, ◌&&◌, ◌||◌, List, [], ◌∷◌, ◌++◌, arith,
  ltb, leb, ◌==◌, All,
}
use libya_link.Ports.{PortUnion, contains, ports_from, ports}

abbrev pub listed : ℕ → List ℕ → Bool
listed port [] = false
listed port (p ∷ ps) = p == port || listed port ps

listed-append :
    (port : ℕ) (xs ys : List ℕ) → listed port (xs ++ ys) ≡ (listed port xs || listed port ys)
listed-append port [] ys = refl
listed-append port (x ∷ xs) ys = ground (arith, listed-append port xs ys)

listed-ports_from :
    (port i k : ℕ) → i + k ≤ 65536 → listed port (ports_from i k) ≡ (leb i port && ltb port (i + k))
unfolding ports_from
listed-ports_from port i zero h = ground arith
listed-ports_from port i (suc k) h = ground (arith, listed-ports_from port (suc i) k (omega arith))

-- Start and End are uint16.
abbrev pub IsTyped : PortUnion → Type 0
IsTyped u = All (λ r. (r.start ≤ 65535) × (r.end ≤ 65535)) u

-- For a union of uint16 ranges a port is listed by Ports exactly where Contains answers true.
pub listed-ports : (u : PortUnion) (port : ℕ) → IsTyped u → listed port (ports u) ≡ contains u port
unfolding ports contains
listed-ports [] port h = refl
listed-ports (r ∷ u) port h =
    listed-append port (ports_from r.start (r.end + 1 - r.start)) (ports u)
    ∙ ground (
      arith,
      h.0,
      listed-ports_from port r.start (r.end + 1 - r.start) (omega (arith, h.0)),
      listed-ports u port h.1,
    )
