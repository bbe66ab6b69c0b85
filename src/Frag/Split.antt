-- ===== src/Frag/Split.antt =====
-- FragUDPMessage of core/internal/frag/frag.go. Its limit is an int that callers take from the
-- MaxDatagramPayloadSize of quic-go, so one that is not negative.
pub mod Pieces
pub mod Cover
pub mod Ends
use libya_link.Common.{
  ℕ, zero, suc, ◌+◌, ◌-◌, ◌/◌, ◌%◌, ◌^◌, List, [], ◌∷◌, ltb, leb, ◌==◌, if◌then◌else◌, length, set,
  take, drop, replicate,
}
use libya_link.Common.Result.{Result, ok, err, panic}
use libya_link.Protocol.Quic.{QuicVarint}
use libya_link.Protocol.Udp.{UdpMessage, header_size, size}

-- No Go value: the loop of the model ran out of rounds.
pub data OutOfFuel : Type 0 where
  out_of_fuel : OutOfFuel

-- `make([]protocol.UDPMessage, n)`
abbrev pub zero_message : UdpMessage
zero_message = record {
  session_id = 0;
  packet_id = 0;
  frag_id = 0;
  frag_count = 0;
  addr = [];
  body = [];
}

-- `payloadSize`, at most `maxPayloadSize`
abbrev pub payload_size : ℕ → ℕ → ℕ
payload_size left room = if ltb room left then room else left

-- The loop; `frag_id` is a uint8, and an index beyond the slice panics.
unfoldable pub frag_loop :
    ℕ → UdpMessage → ℕ → ℕ → ℕ → ℕ → List UdpMessage → Result OutOfFuel (List UdpMessage)
frag_loop zero m room count off id frags = err out_of_fuel
frag_loop (suc fuel) m room count off id frags =
    let n = payload_size (length m.body - off) room in
    let frag = record m { frag_id = id; frag_count = count; body = take n (drop off m.body) } in
    let more = frag_loop fuel m room count (off + n) ((id + 1) % 2 ^ 8) (set frags id frag) in
    if ltb off (length m.body) then if ltb id (length frags) then more else panic else ok frags

-- `maxPayloadSize := maxSize - m.HeaderSize()` is an int. At 0 the division panics. Below 0 the
-- first slice expression panics, unless there is no data: then the result is some zero messages,
-- as many as the truncated quotient (0 - k - 1) / -k says, where k is by how much it is below 0.
unfoldable pub frag_udp_message : QuicVarint → UdpMessage → ℕ → Result OutOfFuel (List UdpMessage)
frag_udp_message q m max_size =
    let room = max_size - header_size q m in
    let over = header_size q m - max_size in
    let count = (length m.body + room - 1) / room % 2 ^ 8 in
    if leb (size q m) max_size
    then ok (m ∷ [])
    else if header_size q m == max_size
    then panic
    else if ltb max_size (header_size q m)
    then if length m.body == 0
      then ok (replicate ((over + 1) / over % 2 ^ 8) zero_message)
      else panic
    else frag_loop (suc (length m.body)) m room count 0 0 (replicate count zero_message)
