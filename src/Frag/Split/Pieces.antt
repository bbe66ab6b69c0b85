-- ===== src/Frag/Split/Pieces.antt =====
-- FragUDPMessage yields the consecutive pieces of the data, and its limits.
use libya_link.Common.{
  ℕ, zero, suc, ◌+◌, ◌-◌, ◌*◌, ◌/◌, ◌%◌, ◌≤◌, ◌<◌, min, ◌≡◌, refl, ap, ◌∙◌, inl, inr, true, false,
  List, [], ◌∷◌, ◌++◌, append-nil, append_assoc, arith, ltb, leb, ◌==◌, Bool-cases, length, set,
  length-append, take, drop, replicate, length-drop, tabulate,
}
use native.Mathlib.Nat.{zero-mul, div-add-mod, mod-lt}
use libya_link.Common.Result.{ok, panic}
use libya_link.Common.Buffer.{take-add, drop-drop}
use libya_link.Protocol.Quic.{QuicVarint}
use libya_link.Protocol.Udp.{UdpMessage, header_size, size}
use libya_link.Frag.Split.{zero_message, payload_size, frag_loop, frag_udp_message}

-- Fragment number `i` of `count`: the i-th run of `room` bytes.
abbrev pub piece : UdpMessage → ℕ → ℕ → ℕ → UdpMessage
piece m room count i = record m {
  frag_id = i;
  frag_count = count;
  body = take room (drop (i * room) m.body);
}

-- How many fragments the data needs.
abbrev pub pieces_needed : UdpMessage → ℕ → ℕ
pieces_needed m room = (length m.body + room - 1) / room

take-over : {A : Type 0} (n m : ℕ) (xs : List A) → length xs ≤ n → n ≤ m → take n xs ≡ take m xs
take-over zero zero xs h k = refl
take-over zero (suc m) [] h k = refl
take-over zero (suc m) (x ∷ xs) h k = absurd (omega arith)
take-over (suc n) zero xs h k = absurd (omega arith)
take-over (suc n) (suc m) [] h k = refl
take-over (suc n) (suc m) (x ∷ xs) h k = ap (◌∷◌ x) (take-over n m xs (omega arith) (omega arith))

take-payload_size :
    (room off : ℕ) (xs : List ℕ)
    → take (payload_size (length xs - off) room) (drop off xs) ≡ take room (drop off xs)
take-payload_size room off xs = elim (Bool-cases (ltb room (length xs - off))) [
  | inl full ↦ rw full
  | inr last ↦ rw last (
      take-over (length xs - off) room (drop off xs) (omega (arith, length-drop off xs))
        (ground arith))
]

set-append :
    {A : Type 0} (done rest : List A) (z v : A) (i : ℕ)
    → i ≡ length done
    → set (done ++ (z ∷ rest)) i v ≡ (done ++ (v ∷ [])) ++ rest
set-append [] rest z v i h = rw h
set-append (d ∷ done) rest z v i h = rw h (ap (◌∷◌ d) (set-append done rest z v (length done) refl))

module _ (m : UdpMessage) (room count : ℕ) (hr : 0 < room) (hc : count < 256) where
  -- One round of the loop that is not the last test.
  frag_loop_step :
      (fuel i k off : ℕ) (done : List UdpMessage)
      → i + suc k ≡ count
      → i ≡ length done
      → i * room < length m.body
      → off ≡ i * room
      → frag_loop (suc fuel) m room count off i (done ++ replicate (suc k) zero_message)
        ≡ frag_loop fuel m room count
            (i * room + payload_size (length m.body - i * room) room)
            (suc i)
            ((done ++ (piece m room count i ∷ [])) ++ replicate k zero_message)
  unfolding frag_loop
  frag_loop_step fuel i k off done hk hd below ho = rw (
    ho,
    more,
    index,
    next,
    take-payload_size room (i * room) m.body,
    set-append done (replicate k zero_message) zero_message (piece m room count i) i hd,
  )
    where
      more : ltb (i * room) (length m.body) ≡ true
      more = ground arith

      index : ltb i (length (done ++ (zero_message ∷ replicate k zero_message))) ≡ true
      index = ground (arith, length-append done (zero_message ∷ replicate k zero_message))

      next : (i + 1) % 256 ≡ suc i
      next = omega arith

  frag_loop-tabulate :
      (fuel i k off : ℕ) (done : List UdpMessage)
      → k < fuel
      → i + k ≡ count
      → i ≡ length done
      → length m.body ≤ count * room
      → count * room < length m.body + room
      → off ≡ min (i * room) (length m.body)
      → frag_loop fuel m room count off i (done ++ replicate k zero_message)
        ≡ ok (done ++ tabulate (piece m room count) i k)
  frag_loop-tabulate zero i k off done hf hk hd hu hl ho = absurd (omega arith)
  frag_loop-tabulate (suc fuel) i zero off done hf hk hd hu hl ho = unfold frag_loop in rw ended
    where
      ended : ltb off (length m.body) ≡ false
      ended = ground (arith, ap (λ t. t * room) hk)
  frag_loop-tabulate (suc fuel) i (suc k) off done hf hk hd hu hl ho =
      let below : i * room < length m.body = omega (arith, ap (λ t. t * room) hk) in
      frag_loop_step fuel i k off done hk hd below (omega arith)
      ∙ frag_loop-tabulate fuel (suc i) k _ (done ++ (piece m room count i ∷ [])) (omega arith)
          (omega arith) (omega (arith, length-append done (piece m room count i ∷ []))) hu hl
          (ground arith)
      ∙ ap ok
          (append_assoc done (piece m room count i ∷ []) (tabulate (piece m room count) (suc i) k))

  -- With room for fewer fragments than the data needs, an index leaves the slice.
  pub frag_loop-panic :
      (fuel i k off : ℕ) (done : List UdpMessage)
      → k < fuel
      → i + k ≡ count
      → i ≡ length done
      → count * room < length m.body
      → off ≡ i * room
      → frag_loop fuel m room count off i (done ++ replicate k zero_message) ≡ panic
  frag_loop-panic zero i k off done hf hk hd hl ho = absurd (omega arith)
  frag_loop-panic (suc fuel) i zero off done hf hk hd hl ho =
      unfold frag_loop in rw (append-nil, more, outside)
    where
      more : ltb off (length m.body) ≡ true
      more = ground (arith, ap (λ t. t * room) hk)

      outside : ltb i (length done) ≡ false
      outside = ground arith
  frag_loop-panic (suc fuel) i (suc k) off done hf hk hd hl ho =
      let below : i * room < length m.body = omega (arith, ap (λ t. t * room) hk) in
      frag_loop_step fuel i k off done hk hd below ho
      ∙ frag_loop-panic fuel (suc i) k _ (done ++ (piece m room count i ∷ [])) (omega arith)
          (omega arith) (omega (arith, length-append done (piece m room count i ∷ []))) hl
          (ground (arith, ap (λ t. t * room) hk))

-- Rounding up: `(n + room - 1) / room` runs of `room` cover `n`, and one fewer does not.
pub round_up :
    (n room : ℕ)
    → 0 < room
    → (n ≤ (n + room - 1) / room * room) × ((n + room - 1) / room * room < n + room)
round_up n room h = (
  omega (arith, div-add-mod (n + room - 1) room, mod-lt (n + room - 1) h),
  omega (arith, div-add-mod (n + room - 1) room),
)

pub short_of : (c d r n : ℕ) → c < d → d * r < n + r → c * r < n
short_of c zero r n h k = absurd (omega arith)
short_of c (suc d) r n h k = grind arith

pub rounds_le : (c r n : ℕ) → 0 < r → c * r < n + r → c ≤ n
rounds_le zero r n hr h = omega arith
rounds_le (suc c) r n hr h = grind arith

-- The data of the fragments, one after the other.
abbrev pub joined : List UdpMessage → List ℕ
joined [] = []
joined (f ∷ fs) = f.body ++ joined fs

pub joined-tabulate :
    (m : UdpMessage) (room count i k : ℕ)
    → joined (tabulate (piece m room count) i k) ≡ take (k * room) (drop (i * room) m.body)
joined-tabulate m room count i zero = rw zero-mul
joined-tabulate m room count i (suc k) =
    rw
      (
        joined-tabulate m room count (suc i) k,
        ← drop_more,
        ← take-add room (k * room) (drop (i * room) m.body),
      )
      (ap (λ n. take n (drop (i * room) m.body)) (omega arith))
  where
    drop_more : drop room (drop (i * room) m.body) ≡ drop (suc i * room) m.body
    drop_more = drop-drop room (i * room) m.body ∙ ap (λ n. drop n m.body) (omega arith)

module _ (q : QuicVarint) (m : UdpMessage) (max_size : ℕ) where
  -- A message over the limit whose header leaves room for data is split into the fewest fragments
  -- that the room allows, if these are fewer than 256.
  pub frag_udp_message-tabulate :
      header_size q m < max_size
      → max_size < size q m
      → pieces_needed m (max_size - header_size q m) < 256
      → frag_udp_message q m max_size
        ≡ ok (
            tabulate
              (piece m (max_size - header_size q m) (pieces_needed m (max_size - header_size q m)))
              0
              (pieces_needed m (max_size - header_size q m)))
  unfolding frag_udp_message
  frag_udp_message-tabulate room_left over few =
      rw (large, no_division_by_zero, room_positive, fits)
        (frag_loop-tabulate m room count (omega arith) few (suc (length m.body)) 0 count 0 []
          (omega (arith, ceil, rounds)) (omega arith) refl (ceil.0) (ceil.1) (omega arith))
    where
      room : ℕ
      room = max_size - header_size q m

      count : ℕ
      count = pieces_needed m room

      ceil : (length m.body ≤ count * room) × (count * room < length m.body + room)
      ceil = round_up (length m.body) room (omega arith)

      rounds : count ≤ length m.body
      rounds = rounds_le count room (length m.body) (omega arith) ceil.1

      large : leb (size q m) max_size ≡ false
      large = ground arith

      no_division_by_zero : (header_size q m == max_size) ≡ false
      no_division_by_zero = ground arith

      room_positive : ltb max_size (header_size q m) ≡ false
      room_positive = ground arith

      fits : (length m.body + room - 1) / room % 256 ≡ count
      fits = omega arith
