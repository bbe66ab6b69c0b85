-- ===== src/Protocol/Tcp.antt =====
-- ReadTCPRequest, WriteTCPRequest, ReadTCPResponse and WriteTCPResponse of
-- core/internal/protocol/proxy.go. A string is its bytes; the padding is an argument of the writers.
pub mod RoundTrip
use libya_link.Common.{
  ℕ, zero, suc, ◌+◌, ◌≤◌, ◌<◌, ◌≡◌, refl, ap, List, [], ◌∷◌, ◌++◌, Bool, true, false, Option, none,
  some, length, replicate, leb, ltb, ◌==◌, ◌||◌, if◌then◌else◌, arith,
}
use libya_link.Common.Result.{Result, ok, err, panic, ◌>>=◌, ◌>>◌, refuse}
use libya_link.Protocol.Errors.{
  Error, invalid_address_length, invalid_padding_length, invalid_message_length,
}
use libya_link.Protocol.Quic.{QuicVarint}
use libya_link.Protocol.Reader.{read_varint, read_full, discard}
use libya_link.Protocol.Fill.{varint_put_at, copy_at, store_at}

abbrev pub frame_type_tcp_request : ℕ
frame_type_tcp_request = 0x401

abbrev pub max_address_length : ℕ
max_address_length = 2048

abbrev pub max_message_length : ℕ
max_message_length = 2048

abbrev pub max_padding_length : ℕ
max_padding_length = 4096

-- The padding that ends both messages.
unfoldable pub read_padding : QuicVarint → List ℕ → Result Error (List ℕ)
read_padding q s = do
  (padding_len, s) ← read_varint q s
  refuse (ltb max_padding_length padding_len) invalid_padding_length
  if ltb 0 padding_len then discard padding_len s else ok s

-- Returns the address, and what the stream still holds.
unfoldable pub read_tcp_request : QuicVarint → List ℕ → Result Error (List ℕ × List ℕ)
read_tcp_request q s = do
  (addr_len, s) ← read_varint q s
  refuse (addr_len == 0 || ltb max_address_length addr_len) invalid_address_length
  (addr, s) ← read_full addr_len s
  s ← read_padding q s
  ok (addr, s)

-- The bytes that are handed to `w.Write`.
unfoldable pub write_tcp_request : QuicVarint → List ℕ → List ℕ → Result Error (List ℕ)
write_tcp_request q padding addr = do
  let padding_len = length padding
  let addr_len = length addr
  let sz =
      q.len frame_type_tcp_request + q.len addr_len + addr_len + q.len padding_len + padding_len
  (buf, i) ← varint_put_at (replicate sz 0) 0 frame_type_tcp_request
  (buf, n) ← varint_put_at buf i addr_len
  (buf, m) ← copy_at buf (i + n) addr
  (buf, k) ← varint_put_at buf (i + n + m) padding_len
  (buf, _) ← copy_at buf (i + n + m + k) padding
  ok buf

unfoldable pub read_message : ℕ → List ℕ → Result Error (List ℕ × List ℕ)
read_message msg_len s = if ltb 0 msg_len then read_full msg_len s else ok ([], s)

-- `status[0] == 0`, of an array of one byte.
abbrev first_is_zero : List ℕ → Bool
first_is_zero [] = true
first_is_zero (b ∷ bs) = b == 0

-- Returns whether the status is ok, the message, and what the stream still holds.
unfoldable pub read_tcp_response : QuicVarint → List ℕ → Result Error (Bool × List ℕ × List ℕ)
read_tcp_response q s = do
  (status, s) ← read_full 1 s
  (msg_len, s) ← read_varint q s
  refuse (ltb max_message_length msg_len) invalid_message_length
  (msg, s) ← read_message msg_len s
  s ← read_padding q s
  ok (first_is_zero status, msg, s)

-- `buf[0]` is written first, and the rest behind it.
unfoldable pub write_tcp_response : QuicVarint → List ℕ → Bool → List ℕ → Result Error (List ℕ)
write_tcp_response q padding success msg = do
  let padding_len = length padding
  let msg_len = length msg
  let sz = 1 + q.len msg_len + msg_len + q.len padding_len + padding_len
  buf ← store_at (replicate sz 0) 0 ((if success then 0 else 1) ∷ [])
  (buf, i) ← varint_put_at buf 1 msg_len
  (buf, m) ← copy_at buf (1 + i) msg
  (buf, k) ← varint_put_at buf (1 + (i + m)) padding_len
  (buf, _) ← copy_at buf (1 + (i + m + k)) padding
  ok buf
