-- ===== src/Protocol/Quic.antt =====
-- The package quicvarint, which is not part of this repository: a parameter of the model, with
-- what its documentation says (RFC 9000, section 16) as laws.
use libya_link.Common.{
  ℕ, suc, ◌+◌, ◌*◌, ◌/◌, ◌%◌, ◌≤◌, ◌<◌, ◌≡◌, List, [], ◌∷◌, ◌++◌, Option, none, some, length, leb,
  if◌then◌else◌,
}

-- The two top bits of the first byte are the base-2 logarithm of the length.
abbrev pub width : ℕ → ℕ
width prefix = if leb prefix 0 then 1 else if leb prefix 1 then 2 else if leb prefix 2 then 4 else 8

-- The remaining bits, in network byte order.
abbrev pub be_value : ℕ → List ℕ → ℕ
be_value acc [] = acc
be_value acc (b ∷ bs) = be_value (acc * 256 + b) bs

-- `read` is quicvarint.Read on the bytes that are left, `len` is quicvarint.Len.
pub record QuicVarint : Type 0 where
  pub read : List ℕ → Option (ℕ × List ℕ)
  pub len : ℕ → ℕ

abbrev pub max_var_int : ℕ
max_var_int = 4611686018427387903

pub record IsRfc9000 (q : QuicVarint) : Type 0 where
  pub read_whole :
      (b : ℕ) (bs rest : List ℕ)
      → b < 256
      → suc (length bs) ≡ width (b / 64)
      → q.read (b ∷ (bs ++ rest)) ≡ some (be_value (b % 64) bs, rest)
  pub read_empty : q.read [] ≡ none
  pub read_short : (b : ℕ) (bs : List ℕ) → suc (length bs) < width (b / 64) → q.read (b ∷ bs) ≡ none
  pub len_one : (i : ℕ) → i ≤ 63 → q.len i ≡ 1
  pub len_two : (i : ℕ) → 63 < i → i ≤ 16383 → q.len i ≡ 2
  pub len_four : (i : ℕ) → 16383 < i → i ≤ 1073741823 → q.len i ≡ 4
  pub len_eight : (i : ℕ) → 1073741823 < i → i ≤ max_var_int → q.len i ≡ 8
