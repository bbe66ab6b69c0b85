-- ===== src/Bbr/Ring/Items.antt =====
-- What a ring buffer holds, from the front to the back, and when it is well formed.
use libya_link.Common.{
  ℕ, ◌+◌, ◌-◌, ◌≤◌, ◌<◌, ◌≡◌, true, List, arith, ltb, if◌then◌else◌, length, get_or, tabulate,
}
use libya_link.Bbr.Ring.{Ring, len}

-- A position that is at most once around the ring.
abbrev pub wrap : ℕ → ℕ → ℕ
wrap n k = if ltb k n then k else k - n

pub record IsValid {A : Type 0} (r : Ring A) : Type 0 where
  pub head_inside : r.head_pos ≤ length r.ring - 1
  pub tail_inside : r.tail_pos ≤ length r.ring - 1
  pub full_meets : r.full ≡ true → (r.tail_pos ≡ r.head_pos) × (0 < length r.ring)

module _ {A : Type 0} (zero_value : A) where
  abbrev pub cell : Ring A → ℕ → A
  cell r i = get_or r.ring (wrap (length r.ring) (r.head_pos + i)) zero_value

  abbrev pub items : Ring A → List A
  items r = tabulate (cell r) 0 (len r)

pub len-le-capacity : {A : Type 0} (r : Ring A) → IsValid r → len r ≤ length r.ring
unfolding len
len-le-capacity r v = ground arith
