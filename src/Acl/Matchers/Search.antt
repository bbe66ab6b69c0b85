-- ===== src/Acl/Matchers/Search.antt =====
-- The rounds of geoipMatcher.matchIP in extras/outbounds/acl/matchers_v2geo.go.
use libya_link.Common.{
  ℕ, zero, suc, ◌+◌, ◌-◌, ◌/◌, ◌≤◌, ◌<◌, ◌≡◌, refl, inl, inr, false, List, arith, ltb, Bool-cases,
}
use libya_link.Acl.Matchers.{IpNet, binary_search}

-- More rounds than there are places give the binary search no other answer.
binary_search-enough :
    (n : List IpNet) (ip : List ℕ) (fuel left right : ℕ)
    → right ≤ left + fuel
    → binary_search n ip (suc fuel) left right ≡ binary_search n ip fuel left right
unfolding binary_search
binary_search-enough n ip zero left right h =
    let stop : ltb left right ≡ false = ground arith in rw stop refl
binary_search-enough n ip (suc fuel) left right h = elim (Bool-cases (ltb left right)) [
  | inr stop ↦ rw stop refl
  | inl on ↦
      let mid : ℕ = (left + right - 1) / 2 in
      let inside : left < right = ground arith in
      rw
        (
          binary_search-enough n ip fuel (mid + 1) right (omega arith),
          binary_search-enough n ip fuel left mid (omega arith),
        )
        refl
]
