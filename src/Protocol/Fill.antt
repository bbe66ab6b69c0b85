-- ===== src/Protocol/Fill.antt =====
-- The messages are built in a buffer by `i += varintPut(buf[i:], n)` and `i += copy(buf[i:], s)`.
use libya_link.Common.{
  ℕ, ◌+◌, ◌-◌, ◌≤◌, ◌≡◌, refl, ap, ◌∙◌, List, ◌++◌, true, some, length, length-append, length-drop,
  take, drop, min, leb, if◌then◌else◌, arith, append_assoc,
}
use libya_link.Common.Result.{Result, ok, panic, ◌>>=◌}
use libya_link.Common.Buffer.{
  overwrite_at, overwrite_at-append, overwrite-drop, take-append_length, drop-append_length,
}
use libya_link.Protocol.Errors.{Error}
use libya_link.Protocol.Varint.{varint_bytes, varint_put}

-- `buf[i:]` panics beyond the end.
unfoldable pub varint_put_at : List ℕ → ℕ → ℕ → Result Error (List ℕ × ℕ)
varint_put_at buf i v =
    if leb i (length buf)
    then (do (tail, n) ← varint_put (drop i buf) v; ok (take i buf ++ tail, n))
    else panic

unfoldable pub copy_at : List ℕ → ℕ → List ℕ → Result Error (List ℕ × ℕ)
copy_at buf i src =
    if leb i (length buf)
    then ok (overwrite_at i buf src, min (length src) (length buf - i))
    else panic

-- `buf[i] = b`, or binary.BigEndian.PutUint32(buf[i:], v): panics where the buffer is too short.
unfoldable pub store_at : List ℕ → ℕ → List ℕ → Result Error (List ℕ)
store_at buf i bs = if leb (i + length bs) (length buf) then ok (overwrite_at i buf bs) else panic

-- The buffer starts with `done`, and `room` bytes follow.
abbrev pub Holds : List ℕ → ℕ → List ℕ → Type 0
Holds done room buf = (rest : List ℕ) × (buf ≡ done ++ rest) × (length rest ≡ room)

le-append : (done rest : List ℕ) → leb (length done) (length (done ++ rest)) ≡ true
le-append done rest = rw (length-append done rest) (ground arith)

pub copy_at-Holds :
    (done src buf : List ℕ) (room i : ℕ)
    → Holds done room buf
    → i ≡ length done
    → length src ≤ room
    → (buf' : List ℕ) × (copy_at buf i src ≡ ok (buf', length src))
      × Holds (done ++ src) (room - length src) buf'
unfolding copy_at
copy_at-Holds done src buf room i (rest, e, r) hi h = (
  (done ++ src) ++ drop (length src) rest,
  rw (hi, e, le-append done rest) (cc (overwrite_at-append done rest src (omega arith), count)),
  (drop (length src) rest, refl, length-drop (length src) rest ∙ ap (λ k. k - length src) r),
)
  where
    count : min (length src) (length (done ++ rest) - length done) ≡ length src
    count = omega (arith, length-append done rest)

varint_put_lem :
    (b bs : List ℕ) (v : ℕ)
    → varint_bytes v ≡ some bs
    → length bs ≤ length b
    → varint_put b v ≡ ok (bs ++ drop (length bs) b, length bs)
unfolding varint_put
varint_put_lem b bs v e h = ground (arith, overwrite-drop b bs h)

pub varint_put_at-Holds :
    (done bs buf : List ℕ) (room i v : ℕ)
    → Holds done room buf
    → i ≡ length done
    → varint_bytes v ≡ some bs
    → length bs ≤ room
    → (buf' : List ℕ) × (varint_put_at buf i v ≡ ok (buf', length bs))
      × Holds (done ++ bs) (room - length bs) buf'
unfolding varint_put_at
varint_put_at-Holds done bs buf room i v (rest, e, r) hi hv h = (
  (done ++ bs) ++ drop (length bs) rest,
  rw (
    hi,
    e,
    le-append done rest,
    drop-append_length done rest,
    take-append_length done rest,
    varint_put_lem rest bs v hv (omega arith),
    append_assoc,
  ),
  (drop (length bs) rest, refl, length-drop (length bs) rest ∙ ap (λ k. k - length bs) r),
)

pub store_at-Holds :
    (done src buf : List ℕ) (room i : ℕ)
    → Holds done room buf
    → i ≡ length done
    → length src ≤ room
    → (buf' : List ℕ) × (store_at buf i src ≡ ok buf')
      × Holds (done ++ src) (room - length src) buf'
unfolding store_at
store_at-Holds done src buf room i (rest, e, r) hi h = (
  (done ++ src) ++ drop (length src) rest,
  rw (hi, e, fits) (ap ok (overwrite_at-append done rest src (omega arith))),
  (drop (length src) rest, refl, length-drop (length src) rest ∙ ap (λ k. k - length src) r),
)
  where
    fits : leb (length done + length src) (length (done ++ rest)) ≡ true
    fits = rw (length-append done rest) (ground arith)

-- Hands on the buffer that a write leaves, as a variable with its two facts.
pub written :
    {P Q : List ℕ → Type 0} {G : Type 0}
    → (buf' : List ℕ) × P buf' × Q buf'
    → ((buf' : List ℕ) → P buf' → Q buf' → G)
    → G
written (b, p, h) f = f b p h
