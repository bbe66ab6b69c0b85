-- ===== src/Frag/Split/Cover.antt =====
-- What FragUDPMessage promises of its fragments, and where it panics.
use libya_link.Common.{
  ℕ, zero, suc, ◌+◌, ◌-◌, ◌*◌, ◌%◌, ◌≤◌, ◌<◌, min, ◌≡◌, refl, ap, ◌∙◌, ◌⊎◌, inl, inr, false, some,
  List, [], ◌∷◌, arith, ltb, leb, ◌==◌, Bool-cases, length, get_elem?, take, drop, length-take,
  length-drop, All, tabulate, length-tabulate, get_elem?-tabulate,
}
use native.Mathlib.Nat.{zero-add, zero-mul}
use libya_link.Common.Result.{ok, panic}
use libya_link.Protocol.Quic.{QuicVarint}
use libya_link.Protocol.Udp.{UdpMessage, header_size, size}
use libya_link.Frag.Split.{frag_udp_message}
use libya_link.Frag.Split.Pieces.{
  piece, pieces_needed, joined, joined-tabulate, round_up, rounds_le, short_of, frag_loop-panic,
  frag_udp_message-tabulate,
}

pub joined_whole :
    (m : UdpMessage) (room count : ℕ)
    → length m.body ≤ count * room
    → joined (tabulate (piece m room count) 0 count) ≡ m.body
joined_whole m room count h =
    rw (joined-tabulate m room count 0 count, zero-mul) (take_all (count * room) m.body h)
  where
    take_all : (n : ℕ) (xs : List ℕ) → length xs ≤ n → take n xs ≡ xs
    take_all zero [] h = refl
    take_all zero (x ∷ xs) h = absurd (omega arith)
    take_all (suc n) [] h = refl
    take_all (suc n) (x ∷ xs) h = ap (◌∷◌ x) (take_all n xs (omega arith))

All-tabulate :
    (q : QuicVarint) (m : UdpMessage) (max_size room count i k : ℕ)
    → header_size q m + room ≡ max_size
    → 0 < room
    → (i + k) * room < length m.body + room
    → All (λ f. (size q f ≤ max_size) × (0 < length f.body)) (tabulate (piece m room count) i k)
unfolding size header_size
All-tabulate q m max_size room count i zero h hr l = tt
All-tabulate q m max_size room count i (suc k) h hr l = (
  (omega (arith, h, part), omega (arith, part, below)),
  All-tabulate q m max_size room count (suc i) k h hr (rw (← shift) l),
)
  where
    shift : i + suc k ≡ suc i + k
    shift = omega arith

    below : i * room < length m.body
    below = grind arith

    part : length (take room (drop (i * room) m.body)) ≡ min room (length m.body - i * room)
    part = length-take room _ ∙ ap (min room) (length-drop (i * room) m.body)

module _ (q : QuicVarint) (m : UdpMessage) (max_size : ℕ) where
  numbered :
      (room count i : ℕ) (f : UdpMessage)
      → get_elem? (tabulate (piece m room count) 0 count) i ≡ some f
      → f ≡ record m {
        frag_id = i;
        frag_count = length (tabulate (piece m room count) 0 count);
        body = f.body;
      }
  numbered room count i f h =
      let e : f ≡ piece m room count i =
        rw (← zero-add i) (get_elem?-tabulate (piece m room count) 0 count i f h) in
      rw (e, length-tabulate (piece m room count) 0 count)

  -- A message over the limit, whose header leaves room for data and whose data needs fewer than 256
  -- fragments, is split: the data of the fragments, joined in order, is the data of the message,
  -- each fragment has some data and is within the limit, and each carries its number and the
  -- number of fragments beside the fields of the message.
  pub frag_udp_message_covers :
      header_size q m < max_size
      → max_size < size q m
      → pieces_needed m (max_size - header_size q m) < 256
      → (fs : List UdpMessage) × (frag_udp_message q m max_size ≡ ok fs)
        × (joined fs ≡ m.body)
        × All (λ f. (size q f ≤ max_size) × (0 < length f.body)) fs
        × ((i : ℕ) (f : UdpMessage)
            → get_elem? fs i ≡ some f
            → f ≡ record m { frag_id = i; frag_count = length fs; body = f.body })
  frag_udp_message_covers left over few =
      let room : ℕ = max_size - header_size q m in
      let count : ℕ = pieces_needed m room in
      let ceil = round_up (length m.body) room (omega arith) in
      (
        tabulate (piece m room count) 0 count,
        frag_udp_message-tabulate q m max_size left over few,
        joined_whole m room count ceil.0,
        All-tabulate q m max_size room count 0 count (omega arith) (omega arith)
            (rw zero-add ceil.1),
        numbered room count,
      )

  -- FragUDPMessage of a message with data over the limit panics where the header leaves no room for
  -- the data, or where the data needs 256 fragments or more, which the uint8 counter cannot hold.
  pub frag_udp_message_panics :
      max_size < size q m
      → 0 < length m.body
      → (max_size ≤ header_size q m) ⊎ (256 ≤ pieces_needed m (max_size - header_size q m))
      → frag_udp_message q m max_size ≡ panic
  unfolding frag_udp_message
  frag_udp_message_panics over data_left (inl h) = ground arith
  frag_udp_message_panics over data_left (inr h) =
      elim (Bool-cases (leb max_size (header_size q m))) [
        | inl none_left ↦ ground arith
        | inr some_left ↦
            let positive : 0 < room = ground arith in
            rw (large, no_division_by_zero some_left, room_positive some_left)
              (frag_loop-panic m room (pieces_needed m room % 256) positive (omega arith)
                (suc (length m.body)) 0 (pieces_needed m room % 256) 0 []
                (omega (
                  arith,
                  short positive,
                  rounds_le (pieces_needed m room) room (length m.body) positive
                      (round_up (length m.body) room positive).1,
                ))
                (omega arith) refl (short positive) (omega arith))
      ]
    where
      room : ℕ
      room = max_size - header_size q m

      large : leb (size q m) max_size ≡ false
      large = ground arith

      no_division_by_zero :
          leb max_size (header_size q m) ≡ false → (header_size q m == max_size) ≡ false
      no_division_by_zero h = ground arith

      room_positive :
          leb max_size (header_size q m) ≡ false → ltb max_size (header_size q m) ≡ false
      room_positive h = ground arith

      short : 0 < room → pieces_needed m room % 256 * room < length m.body
      short positive =
          short_of (pieces_needed m room % 256) (pieces_needed m room) room (length m.body)
            (omega arith) (round_up (length m.body) room positive).1
