-- ===== src/Protocol/Udp.antt =====
-- UDPMessage, its Serialize and ParseUDPMessage of core/internal/protocol/proxy.go.
pub mod RoundTrip
use libya_link.Common.{
  ℕ, ◌+◌, ◌*◌, ◌/◌, ◌%◌, ◌^◌, ◌||◌, Option, none, some, List, [], ◌∷◌, ltb, leb, ◌==◌,
  if◌then◌else◌, length, take, drop,
}
use libya_link.Common.Result.{Result, ok, err, panic, ◌>>=◌, ◌>>◌, refuse}
use libya_link.Protocol.Errors.{Error, io, invalid_address_length, invalid_message_length}
use libya_link.Protocol.Quic.{QuicVarint}
use libya_link.Protocol.Reader.{read_varint, read_full}
use libya_link.Protocol.Fill.{varint_put_at, copy_at, store_at}
use libya_link.Protocol.Tcp.{max_message_length}

pub record UdpMessage : Type 0 where
  pub session_id : ℕ
  pub packet_id : ℕ
  pub frag_id : ℕ
  pub frag_count : ℕ
  pub addr : List ℕ
  pub body : List ℕ

module _ (q : QuicVarint) where
  unfoldable pub header_size : UdpMessage → ℕ
  header_size m = 4 + 2 + 1 + 1 + q.len (length m.addr) + length m.addr

  unfoldable pub size : UdpMessage → ℕ
  size m = header_size m + length m.body

-- binary.BigEndian.PutUint32 and PutUint16
abbrev pub be32 : ℕ → List ℕ
be32 v = v / 2 ^ 24 % 256 ∷ v / 2 ^ 16 % 256 ∷ v / 2 ^ 8 % 256 ∷ v % 256 ∷ []

abbrev pub be16 : ℕ → List ℕ
be16 v = v / 2 ^ 8 % 256 ∷ v % 256 ∷ []

-- The new contents of `buf` with the number that is returned, `none` for -1.
unfoldable pub serialize : QuicVarint → UdpMessage → List ℕ → Result Error (List ℕ × Option ℕ)
serialize q m buf = if ltb (length buf) (size q m) then ok (buf, none) else (do
  buf ← store_at buf 0 (be32 m.session_id)
  buf ← store_at buf 4 (be16 m.packet_id)
  buf ← store_at buf 6 (m.frag_id ∷ [])
  buf ← store_at buf 7 (m.frag_count ∷ [])
  (buf, i) ← varint_put_at buf 8 (length m.addr)
  (buf, n) ← copy_at buf (8 + i) m.addr
  (buf, k) ← copy_at buf (8 + (i + n)) m.body
  ok (buf, some (8 + (i + n + k))))

-- binary.Read of a big-endian integer of `n` bytes.
abbrev be_number : ℕ → List ℕ → ℕ
be_number acc [] = acc
be_number acc (b ∷ bs) = be_number (acc * 256 + b) bs

unfoldable pub read_be : ℕ → List ℕ → Result Error (ℕ × List ℕ)
read_be n s = do (bs, s) ← read_full n s; ok (be_number 0 bs, s)

-- The checks behind the fixed fields, on what follows the address length.
unfoldable pub accept : ℕ → ℕ → ℕ → ℕ → ℕ → List ℕ → Result Error UdpMessage
accept session packet frag count addr_len bs = do
  refuse (addr_len == 0 || ltb max_message_length addr_len) invalid_address_length
  refuse (leb (length bs) addr_len) invalid_message_length
  ok (record {
    session_id = session;
    packet_id = packet;
    frag_id = frag;
    frag_count = count;
    addr = take addr_len bs;
    body = drop addr_len bs;
  })

unfoldable pub parse_udp_message : QuicVarint → List ℕ → Result Error UdpMessage
unfolding accept
parse_udp_message q msg = do
  (session, s) ← read_be 4 msg
  (packet, s) ← read_be 2 s
  (frag, s) ← read_be 1 s
  (count, s) ← read_be 1 s
  (addr_len, bs) ← read_varint q s
  accept session packet frag count addr_len bs
