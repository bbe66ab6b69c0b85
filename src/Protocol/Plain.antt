-- ===== src/Protocol/Plain.antt =====
-- A reader that follows RFC 9000, written out: the laws of the parameter can be met.
use libya_link.Common.{
  ℕ, suc, ◌-◌, ◌/◌, ◌%◌, ◌<◌, ◌≡◌, refl, true, Option, none, some, List, [], ◌∷◌, ◌++◌, arith, leb,
  if◌then◌else◌, length, length-append, take, drop,
}
use libya_link.Common.Buffer.{take-append_eq, drop-append_eq}
use libya_link.Protocol.Quic.{QuicVarint, IsRfc9000, width, be_value}

abbrev pub read_plain : List ℕ → Option (ℕ × List ℕ)
read_plain [] = none
read_plain (b ∷ bs) =
    let n = width (b / 64) - 1 in
    if leb n (length bs) then some (be_value (b % 64) (take n bs), drop n bs) else none

abbrev pub len_plain : ℕ → ℕ
len_plain i = if leb i 63 then 1 else if leb i 16383 then 2 else if leb i 1073741823 then 4 else 8

abbrev pub plain : QuicVarint
plain = record { read = read_plain; len = len_plain }

read_plain_whole :
    (b : ℕ) (bs rest : List ℕ)
    → b < 256
    → suc (length bs) ≡ width (b / 64)
    → read_plain (b ∷ (bs ++ rest)) ≡ some (be_value (b % 64) bs, rest)
read_plain_whole b bs rest hb h =
    let n : width (b / 64) - 1 ≡ length bs = omega arith in
    rw (
      fits,
      take-append_eq (width (b / 64) - 1) bs rest n,
      drop-append_eq (width (b / 64) - 1) bs rest n,
    )
  where
    fits : leb (width (b / 64) - 1) (length (bs ++ rest)) ≡ true
    fits = ground (arith, length-append bs rest)

pub plain-IsRfc9000 : IsRfc9000 plain
plain-IsRfc9000 = record {
  read_whole = read_plain_whole;
  read_empty = refl;
  read_short = λ b bs h. ground arith;
  len_one = λ i h. ground arith;
  len_two = λ i h k. ground arith;
  len_four = λ i h k. ground arith;
  len_eight = λ i h k. ground arith;
}
