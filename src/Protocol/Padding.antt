-- ===== src/Protocol/Padding.antt =====
-- core/internal/protocol/padding.go. The draws of math/rand are a parameter: `draw j n` is what
-- the j-th call, rand.Intn(n), returns.
use libya_link.Common.{
  ℕ, zero, suc, ◌+◌, ◌-◌, ◌≤◌, ◌<◌, ◌≡◌, refl, ap, ◌⊎◌, List, [], ◌∷◌, arith, length, get_or, All,
  codes,
}

abbrev pub Draws : Type 0
Draws = ℕ → ℕ → ℕ

-- The half-open range [min, max).
pub record Padding : Type 0 where
  pub min : ℕ
  pub max : ℕ

abbrev pub auth_request_padding : Padding
auth_request_padding = record { min = 256; max = 2048 }

abbrev pub auth_response_padding : Padding
auth_response_padding = record { min = 256; max = 2048 }

abbrev pub tcp_request_padding : Padding
tcp_request_padding = record { min = 64; max = 512 }

abbrev pub tcp_response_padding : Padding
tcp_response_padding = record { min = 128; max = 1024 }

-- `paddingChars`: the lower and upper case letters and the digits.
abbrev pub padding_chars : List ℕ
padding_chars = codes "abcdefghijklmnopqrstuvwxyzABCDEFGHIJKLMNOPQRSTUVWXYZ0123456789"

-- The loop over the bytes: `k` are left, and the next draw is number `j`.
-- rand.Intn(n) is below n, so the index is in range and the default is never read.
fill : Draws → ℕ → ℕ → List ℕ
fill draw j zero = []
fill draw j (suc k) = get_or padding_chars (draw j (length padding_chars)) 0 ∷ fill draw (suc j) k

unfoldable pub padding_string : Draws → Padding → List ℕ
unfolding fill
padding_string draw p = fill draw 1 (p.min + draw 0 (p.max - p.min))

abbrev pub IsAlphanumeric : ℕ → Type 0
IsAlphanumeric c = ((b'a' ≤ c) × (c ≤ b'z')) ⊎ ((b'A' ≤ c) × (c ≤ b'Z')) ⊎ ((b'0' ≤ c) × (c ≤ b'9'))

length-fill : (draw : Draws) (j k : ℕ) → length (fill draw j k) ≡ k
unfolding fill
length-fill draw j zero = refl
length-fill draw j (suc k) = ap suc (length-fill draw (suc j) k)

All-get_or : (P : ℕ → Type 0) (xs : List ℕ) (i : ℕ) → All P xs → i < length xs → P (get_or xs i 0)
All-get_or P [] i h lt = elim lt [ ]
All-get_or P (x ∷ xs) zero h lt = h.0
All-get_or P (x ∷ xs) (suc i) h lt = All-get_or P xs i h.1 (omega arith)

padding_chars-IsAlphanumeric : All IsAlphanumeric padding_chars
padding_chars-IsAlphanumeric = ground arith

All-fill :
    (draw : Draws) (j k : ℕ)
    → ((i n : ℕ) → 0 < n → draw i n < n)
    → All IsAlphanumeric (fill draw j k)
unfolding fill
All-fill draw j zero h = tt
All-fill draw j (suc k) h = (
  All-get_or IsAlphanumeric padding_chars (draw j (length padding_chars))
      padding_chars-IsAlphanumeric (h j (length padding_chars) (omega arith)),
  All-fill draw (suc j) k h,
)

-- Where rand.Intn(n) stays below a positive n, a padding of a non-empty range has at least Min and
-- fewer than Max bytes, and each is a letter or a digit.
pub padding_string_shape :
    (draw : Draws) (p : Padding)
    → ((i n : ℕ) → 0 < n → draw i n < n)
    → p.min < p.max
    → (p.min ≤ length (padding_string draw p))
      × (length (padding_string draw p) < p.max)
      × All IsAlphanumeric (padding_string draw p)
unfolding padding_string
padding_string_shape draw p h lt =
    let n : ℕ = p.min + draw 0 (p.max - p.min) in
    (
      omega (arith, length-fill draw 1 n),
      omega (arith, length-fill draw 1 n, h 0 (p.max - p.min) (omega arith)),
      All-fill draw 1 n h,
    )
