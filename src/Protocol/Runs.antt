-- ===== src/Protocol/Runs.antt =====
-- Runs of the protocol's functions over a reader that is written out, and the theorems at
-- concrete inputs.
use libya_link.Common.{
  ℕ, ◌≤◌, ◌<◌, ◌≡◌, refl, false, ◌||◌, some, List, [], ◌∷◌, ◌++◌, arith, ltb, ◌==◌, if◌then◌else◌,
  length, take, replicate, All, codes,
}
use libya_link.Common.Result.{ok, err, panic}
use libya_link.Common.Buffer.{overwrite, overwrite_at}
use libya_link.Protocol.Plain.{plain, plain-IsRfc9000}
use libya_link.Protocol.Errors.{invalid_address_length, invalid_message_length}
use libya_link.Protocol.Varint.{varint_bytes, varint_put, varint_put_panics}
use libya_link.Protocol.Reader.{read_full, read_varint}
use libya_link.Protocol.Fill.{store_at, copy_at, varint_put_at}
use libya_link.Protocol.Tcp.{
  frame_type_tcp_request, write_tcp_request, read_tcp_request, write_tcp_response,
  read_tcp_response, max_address_length, max_message_length,
}
use libya_link.Protocol.Tcp.RoundTrip.{read-write_tcp_request, read-write_tcp_response}
use libya_link.Protocol.Udp.{read_be, UdpMessage, size, header_size, serialize, parse_udp_message}
use libya_link.Protocol.Udp.RoundTrip.{parse-serialize, parse_bounds}
use libya_link.Protocol.Padding.{
  padding_string, padding_string_shape, tcp_request_padding, IsAlphanumeric,
}

abbrev host : List ℕ
host = codes "example.com:443"

varint_two_bytes : varint_bytes 15293 ≡ some (0x7b ∷ 0xbd ∷ [])
unfolding varint_bytes
varint_two_bytes = refl

varint_eight_bytes :
    varint_bytes 151288809941952652
    ≡ some (0xc2 ∷ 0x19 ∷ 0x7c ∷ 0x5e ∷ 0xff ∷ 0x14 ∷ 0xe8 ∷ 0x8c ∷ [])
unfolding varint_bytes
varint_eight_bytes = refl

varint_put_too_large : varint_put [] 4611686018427387904 ≡ panic
varint_put_too_large = varint_put_panics [] 4611686018427387904 (omega arith)

read-write_tcp_request_example :
    (buf body : List ℕ) × (write_tcp_request plain (codes "padding") host ≡ ok buf)
    × (plain.read (buf ++ (1 ∷ [])) ≡ some (frame_type_tcp_request, body))
    × (read_tcp_request plain body ≡ (
        if length host == 0 || ltb max_address_length (length host)
        then err invalid_address_length
        else ok (host, 1 ∷ [])))
read-write_tcp_request_example =
    read-write_tcp_request plain plain-IsRfc9000 host (codes "padding") (1 ∷ []) (omega arith)
      (omega arith)

read-write_tcp_response_example :
    (buf : List ℕ) × (write_tcp_response plain (codes "pad") false (codes "refused") ≡ ok buf)
    × (read_tcp_response plain (buf ++ (9 ∷ [])) ≡ ok (false, codes "refused", 9 ∷ []))
read-write_tcp_response_example =
    read-write_tcp_response plain plain-IsRfc9000 false (codes "refused") (codes "pad") (9 ∷ [])
      (omega arith) (omega arith)

abbrev datagram : UdpMessage
datagram = record {
  session_id = 1;
  packet_id = 2;
  frag_id = 0;
  frag_count = 1;
  addr = codes "a:1";
  body = 7 ∷ 8 ∷ [];
}

serialize-datagram :
    serialize plain datagram (replicate 14 0)
    ≡ ok (0 ∷ 0 ∷ 0 ∷ 1 ∷ 0 ∷ 2 ∷ 0 ∷ 1 ∷ 3 ∷ 97 ∷ 58 ∷ 49 ∷ 7 ∷ 8 ∷ [], some 14)
unfolding serialize size header_size store_at copy_at varint_put_at varint_put varint_bytes
    overwrite overwrite_at
serialize-datagram = refl

parse-serialize_example :
    (buf' : List ℕ) × (serialize plain datagram (replicate 20 0)
      ≡ ok (buf', some (size plain datagram)))
    × (length buf' ≡ 20)
    × (parse_udp_message plain (take (size plain datagram) buf') ≡ (
        if length datagram.addr == 0 || ltb max_message_length (length datagram.addr)
        then err invalid_address_length
        else if length datagram.body == 0
        then err invalid_message_length
        else ok datagram))
unfolding size header_size
parse-serialize_example =
    parse-serialize plain plain-IsRfc9000 datagram (replicate 20 0) (omega arith) (omega arith)
      (omega arith)

padding_string_shape_example :
    (64 ≤ length (padding_string (λ j n. 0) tcp_request_padding))
    × (length (padding_string (λ j n. 0) tcp_request_padding) < 512)
    × All IsAlphanumeric (padding_string (λ j n. 0) tcp_request_padding)
padding_string_shape_example =
    padding_string_shape (λ j n. 0) tcp_request_padding (λ i n h. h) (omega arith)

abbrev datagram_bytes : List ℕ
datagram_bytes = 0 ∷ 0 ∷ 0 ∷ 1 ∷ 0 ∷ 2 ∷ 0 ∷ 1 ∷ 3 ∷ 97 ∷ 58 ∷ 49 ∷ 7 ∷ 8 ∷ []

parse_datagram : parse_udp_message plain datagram_bytes ≡ ok datagram
unfolding parse_udp_message read_be read_full read_varint
parse_datagram = refl

parse_bounds_example :
    (0 < length datagram.addr)
    × (length datagram.addr ≤ max_message_length)
    × (0 < length datagram.body)
parse_bounds_example = parse_bounds plain datagram_bytes datagram parse_datagram
