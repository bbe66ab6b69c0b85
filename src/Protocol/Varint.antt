-- ===== src/Protocol/Varint.antt =====
-- varintPut of core/internal/protocol/proxy.go, and what quicvarint.Read makes of its bytes.
use Prim.Native.Nat.{bit_or}
use libya_link.Common.{
  ℕ, zero, suc, ◌+◌, ◌/◌, ◌%◌, ◌^◌, ◌≤◌, ◌<◌, ◌≡◌, refl, sym, List, [], ◌∷◌, ◌++◌, Bool, true, ◌&&◌,
  Option, none, some, length, leb, ◌==◌, if◌then◌else◌, Bool-cases, arith, inl, inr,
}
use libya_link.Common.Result.{Result, ok, panic}
use libya_link.Protocol.Errors.{Error}
use libya_link.Common.Buffer.{overwrite}
use libya_link.Protocol.Quic.{QuicVarint, IsRfc9000, width, be_value, max_var_int}

abbrev pub max_var_int1 : ℕ
max_var_int1 = 63

abbrev pub max_var_int2 : ℕ
max_var_int2 = 16383

abbrev pub max_var_int4 : ℕ
max_var_int4 = 1073741823

abbrev pub max_var_int8 : ℕ
max_var_int8 = 4611686018427387903

-- `uint8(i >> k)`
abbrev byte_at : ℕ → ℕ → ℕ
byte_at i k = i / 2 ^ k % 256

-- The bytes that are stored to `b[0]`, `b[1]`, ...; `none` where the function panics.
unfoldable pub varint_bytes : ℕ → Option (List ℕ)
varint_bytes i =
    if leb i max_var_int1
    then some (byte_at i 0 ∷ [])
    else if leb i max_var_int2
    then some (bit_or (byte_at i 8) 0x40 ∷ byte_at i 0 ∷ [])
    else if leb i max_var_int4
    then some (bit_or (byte_at i 24) 0x80 ∷ byte_at i 16 ∷ byte_at i 8 ∷ byte_at i 0 ∷ [])
    else if leb i max_var_int8
    then some (
        bit_or (byte_at i 56) 0xc0
        ∷ byte_at i 48
        ∷ byte_at i 40
        ∷ byte_at i 32
        ∷ byte_at i 24
        ∷ byte_at i 16
        ∷ byte_at i 8
        ∷ byte_at i 0
        ∷ [])
    else none

-- The writes to `b[0]`, `b[1]`, ... panic where `b` is too short, and so does a number over 62 bits.
unfoldable pub varint_put : List ℕ → ℕ → Result Error (List ℕ × ℕ)
varint_put b i = elim (varint_bytes i) [
  | none ↦ panic
  | some bs ↦ if leb (length bs) (length b) then ok (overwrite b bs, length bs) else panic
]

module _ (f g : ℕ → ℕ) where
  agree_below : ℕ → Bool
  agree_below zero = true
  agree_below (suc n) = f n == g n && agree_below n

  agree_below→eq : (n : ℕ) → agree_below n ≡ true → (i : ℕ) → i < n → f i ≡ g i
  unfolding agree_below
  agree_below→eq zero e i h = absurd (omega arith)
  agree_below→eq (suc n) e i h = ground (arith, agree_below→eq n (ground arith) i)

bit_or_40 : (b : ℕ) → b < 64 → bit_or b 0x40 ≡ b + 64
unfolding agree_below
bit_or_40 = agree_below→eq _ _ 64 refl

bit_or_80 : (b : ℕ) → b < 64 → bit_or b 0x80 ≡ b + 128
unfolding agree_below
bit_or_80 = agree_below→eq _ _ 64 refl

bit_or_c0 : (b : ℕ) → b < 64 → bit_or b 0xc0 ≡ b + 192
unfolding agree_below
bit_or_c0 = agree_below→eq _ _ 64 refl

-- What the bytes of a number are to a reader: as many as `len` says, read back as the number.
abbrev pub ReadsAs : QuicVarint → ℕ → List ℕ → Type 0
ReadsAs q i bs =
    (varint_bytes i ≡ some bs)
    × (length bs ≡ q.len i)
    × ((rest : List ℕ) → q.read (bs ++ rest) ≡ some (i, rest))

eight_tail : ℕ → List ℕ
eight_tail i =
    byte_at i 48
    ∷ byte_at i 40
    ∷ byte_at i 32
    ∷ byte_at i 24
    ∷ byte_at i 16
    ∷ byte_at i 8
    ∷ byte_at i 0
    ∷ []

module _ (q : QuicVarint) (law : IsRfc9000 q) where
  read_as :
      (b : ℕ) (bs : List ℕ) (i : ℕ)
      → b < 256
      → suc (length bs) ≡ width (b / 64)
      → be_value (b % 64) bs ≡ i
      → (rest : List ℕ) → q.read ((b ∷ bs) ++ rest) ≡ some (i, rest)
  read_as b bs i hb hw hv rest = rw (← hv) (law.read_whole b bs rest hb hw)

  one_byte : (i : ℕ) → i ≤ 63 → ReadsAs q i (byte_at i 0 ∷ [])
  unfolding varint_bytes
  one_byte i h = (
    ground arith,
    sym (law.len_one i h),
    read_as _ [] i (omega arith) (ground arith) (omega arith),
  )

  two_bytes : (i : ℕ) → 63 < i → i ≤ 16383 → ReadsAs q i ((byte_at i 8 + 64) ∷ byte_at i 0 ∷ [])
  unfolding varint_bytes
  two_bytes i lo hi = (
    ground (arith, bit_or_40 (byte_at i 8)),
    sym (law.len_two i lo hi),
    read_as _ (byte_at i 0 ∷ []) i (omega arith) (ground arith) (omega arith),
  )

  four_bytes :
      (i : ℕ)
      → 16383 < i
      → i ≤ 1073741823
      → ReadsAs q i ((byte_at i 24 + 128) ∷ byte_at i 16 ∷ byte_at i 8 ∷ byte_at i 0 ∷ [])
  unfolding varint_bytes
  four_bytes i lo hi = (
    ground (arith, bit_or_80 (byte_at i 24)),
    sym (law.len_four i lo hi),
    read_as _ (byte_at i 16 ∷ byte_at i 8 ∷ byte_at i 0 ∷ []) i (omega arith) (ground arith)
        (omega arith),
  )

  eight_bytes :
      (i : ℕ) → 1073741823 < i → i ≤ max_var_int → ReadsAs q i ((byte_at i 56 + 192) ∷ eight_tail i)
  unfolding varint_bytes eight_tail
  eight_bytes i lo hi = (
    ground (arith, bit_or_c0 (byte_at i 56)),
    sym (law.len_eight i lo hi),
    read_as _ (eight_tail i) i (omega arith) (ground arith) (omega arith),
  )

  -- Every number of at most 62 bits is written as `len` bytes, and quicvarint.Read takes exactly
  -- those from the front of the input and returns the number.
  pub varint_bytes-ReadsAs : (i : ℕ) → i ≤ max_var_int → (bs : List ℕ) × ReadsAs q i bs
  varint_bytes-ReadsAs i h = elim (Bool-cases (leb i 63)) [
    | inl one ↦ (_, one_byte i (ground arith))
    | inr more ↦ elim (Bool-cases (leb i 16383)) [
      | inl two ↦ (_, two_bytes i (ground arith) (ground arith))
      | inr more' ↦ elim (Bool-cases (leb i 1073741823)) [
        | inl four ↦ (_, four_bytes i (ground arith) (ground arith))
        | inr eight ↦ (_, eight_bytes i (ground arith) h)
      ]
    ]
  ]

-- More than 62 bits panic.
pub varint_put_panics : (b : List ℕ) (i : ℕ) → max_var_int < i → varint_put b i ≡ panic
unfolding varint_put varint_bytes
varint_put_panics b i h = ground arith
