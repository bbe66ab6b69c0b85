-- ===== src/Frag/Split/Ends.antt =====
-- The loop of FragUDPMessage ends: the fuel of the model is enough for every message and limit.
use libya_link.Common.{
  ℕ, zero, suc, ◌+◌, ◌-◌, ◌/◌, ◌%◌, ◌^◌, ◌<◌, ◌≢◌, inl, inr, List, arith, ltb, leb, ◌==◌,
  Bool-cases, length, set, take, drop, replicate,
}
use libya_link.Common.Result.{err}
use libya_link.Protocol.Quic.{QuicVarint}
use libya_link.Protocol.Udp.{UdpMessage, header_size, size}
use libya_link.Frag.Split.{out_of_fuel, payload_size, frag_loop, frag_udp_message, zero_message}

frag_loop-ends :
    (fuel : ℕ) (m : UdpMessage) (room count off id : ℕ) (frags : List UdpMessage)
    → 0 < room
    → length m.body - off < fuel
    → frag_loop fuel m room count off id frags ≢ err out_of_fuel
unfolding frag_loop
frag_loop-ends zero m room count off id frags some_room enough = absurd (omega arith)
frag_loop-ends (suc fuel) m room count off id frags some_room enough =
    let n = payload_size (length m.body - off) room in
    let frag = record m { frag_id = id; frag_count = count; body = take n (drop off m.body) } in
    elim (Bool-cases (ltb off (length m.body))) [
      | inl t ↦ elim (Bool-cases (ltb id (length frags))) [
        | inl u ↦
            rw (t, u)
              (frag_loop-ends fuel m room count (off + n) ((id + 1) % 2 ^ 8) (set frags id frag)
                some_room (ground arith))
        | inr u ↦ rw (t, u) (λ e. cc)
      ]
      | inr t ↦ rw t (λ e. cc)
    ]

-- FragUDPMessage ends for every message and every limit that is not negative, with fragments or with
-- a panic: no loop of it goes on for more rounds than the data has bytes.
pub frag_udp_message-ends :
    (q : QuicVarint) (m : UdpMessage) (max_size : ℕ)
    → frag_udp_message q m max_size ≢ err out_of_fuel
unfolding frag_udp_message
frag_udp_message-ends q m max_size = elim (Bool-cases (leb (size q m) max_size)) [
  | inl t ↦ rw t (λ e. cc)
  | inr t ↦ elim (Bool-cases (header_size q m == max_size)) [
    | inl u ↦ rw (t, u) (λ e. cc)
    | inr u ↦ elim (Bool-cases (ltb max_size (header_size q m))) [
      | inl v ↦ elim (Bool-cases (length m.body == 0)) [
        | inl w ↦ rw (t, u, v, w) (λ e. cc)
        | inr w ↦ rw (t, u, v, w) (λ e. cc)
      ]
      | inr v ↦
          let room = max_size - header_size q m in
          let count = (length m.body + room - 1) / room % 2 ^ 8 in
          rw (t, u, v)
            (frag_loop-ends (suc (length m.body)) m room count 0 0 (replicate count zero_message)
              (ground arith) (omega arith))
    ]
  ]
]
