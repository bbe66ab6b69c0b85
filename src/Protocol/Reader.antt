-- ===== src/Protocol/Reader.antt =====
-- The reads that the protocol's functions make from a stream: the bytes that are still to come.
use libya_link.Common.{
  ℕ, ◌≡◌, List, ◌++◌, true, none, some, length, length-append, take, drop, leb, if◌then◌else◌,
  arith,
}
use libya_link.Common.Result.{Result, ok, err}
use libya_link.Common.Buffer.{take-append_length, drop-append_length}
use libya_link.Protocol.Errors.{Error, io}
use libya_link.Protocol.Quic.{QuicVarint}

-- quicvarint.Read: a failure is the error of the stream.
unfoldable pub read_varint : QuicVarint → List ℕ → Result Error (ℕ × List ℕ)
read_varint q s = elim (q.read s) [ none ↦ err io | some p ↦ ok p ]

-- io.ReadFull into a fresh buffer of `n` bytes.
unfoldable pub read_full : ℕ → List ℕ → Result Error (List ℕ × List ℕ)
read_full n s = if leb n (length s) then ok (take n s, drop n s) else err io

-- io.CopyN to io.Discard.
unfoldable pub discard : ℕ → List ℕ → Result Error (List ℕ)
discard n s = if leb n (length s) then ok (drop n s) else err io

length-le-append : (xs ys : List ℕ) → leb (length xs) (length (xs ++ ys)) ≡ true
length-le-append xs ys = rw (length-append xs ys) (ground arith)

pub read_varint_lem :
    (q : QuicVarint) (s : List ℕ) {p : ℕ × List ℕ} → q.read s ≡ some p → read_varint q s ≡ ok p
unfolding read_varint
read_varint_lem q s h = rw (h, read_varint)

pub read_full-append : (xs ys : List ℕ) → read_full (length xs) (xs ++ ys) ≡ ok (xs, ys)
unfolding read_full
read_full-append xs ys =
    rw (length-le-append xs ys, take-append_length xs ys, drop-append_length xs ys)

pub discard-append : (xs ys : List ℕ) → discard (length xs) (xs ++ ys) ≡ ok ys
unfolding discard
discard-append xs ys = rw (length-le-append xs ys, drop-append_length xs ys)
