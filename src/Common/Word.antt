-- ===== src/Common/Word.antt =====
-- Go's int64, as the number modulo 2 ^ 64 that its bits are: from 2 ^ 63 on it is negative.
use Prim.Native.Nat.{ℕ, ◌+◌, ◌-◌, ◌/◌, ◌%◌, ◌^◌, ◌≤◌, ◌<◌}
use mathlib.Core.Path.{◌≡◌}
use mathlib.Core.Bool.{Bool, true, false}
use native.Mathlib.Omega.{arith}
use libya_link.Common.Tests.{ltb, leb, if◌then◌else◌}

abbrev pub wrap64 : ℕ → ℕ
wrap64 a = a % 2 ^ 64

abbrev pub is_negative : ℕ → Bool
is_negative a = leb (2 ^ 63) a

unfoldable pub sub64 : ℕ → ℕ → ℕ
sub64 a b = (a + 2 ^ 64 - b) % 2 ^ 64

-- `a < b`
unfoldable pub lt64 : ℕ → ℕ → Bool
lt64 a b =
    if is_negative a
    then (if is_negative b then ltb a b else true)
    else if is_negative b
    then false
    else ltb a b

-- `max(a, b)` and `min(a, b)`
unfoldable pub max64 : ℕ → ℕ → ℕ
unfolding lt64
max64 a b = if lt64 a b then b else a

unfoldable pub min64 : ℕ → ℕ → ℕ
unfolding lt64
min64 a b = if lt64 b a then b else a

-- `a / k` for a positive `k`, towards 0.
unfoldable pub div64 : ℕ → ℕ → ℕ
div64 a k = if is_negative a then wrap64 (2 ^ 64 - (2 ^ 64 - a) / k) else a / k

pub sub64-add : (a b : ℕ) → a + b < 2 ^ 63 → sub64 (a + b) a ≡ b
unfolding sub64
sub64-add a b h = omega arith

-- A bound that the greater of two numbers and a third both reach, whatever the sign of the first.
pub min64-max64 :
    (x y f m : ℕ)
    → y < 2 ^ 63
    → f < 2 ^ 63
    → m ≤ y
    → m ≤ f
    → (m ≤ min64 (max64 x y) f) × (min64 (max64 x y) f < 2 ^ 63)
unfolding max64 min64 lt64
min64-max64 x y f m hy hf h k = ground arith

pub max64-least : (a b : ℕ) → a < 2 ^ 63 → b < 2 ^ 63 → (a ≤ max64 a b) × (b ≤ max64 a b)
unfolding max64 lt64
max64-least a b h k = ground arith
