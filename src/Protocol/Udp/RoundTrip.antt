-- ===== src/Protocol/Udp/RoundTrip.antt =====
-- What Serialize writes, ParseUDPMessage reads.
use libya_link.Common.{
  ℕ, ◌+◌, ◌-◌, ◌^◌, ◌≤◌, ◌<◌, ◌≡◌, refl, sym, ap, ◌∙◌, Bool, true, false, ◌||◌, none, some, List,
  [], ◌∷◌, ◌++◌, append_assoc, arith, ltb, leb, ◌==◌, if◌then◌else◌, length, length-append, take,
  length-take, length-drop,
}
use libya_link.Common.Result.{Result, ok, err, panic, ◌>>=◌, ◌>>◌, refuse}
use libya_link.Common.Buffer.{take-append_eq, take-append_length, drop-append_length}
use libya_link.Protocol.Errors.{Error, invalid_address_length, invalid_message_length}
use libya_link.Protocol.Quic.{max_var_int, QuicVarint, IsRfc9000}
use libya_link.Protocol.Varint.{ReadsAs, varint_bytes-ReadsAs}
use libya_link.Protocol.Reader.{read_varint, read_varint_lem, read_full-append}
use libya_link.Protocol.Fill.{
  written, store_at, copy_at, varint_put_at, Holds, store_at-Holds, copy_at-Holds,
  varint_put_at-Holds,
}
use libya_link.Protocol.Tcp.{max_message_length}
use libya_link.Protocol.Udp.{
  accept, UdpMessage, header_size, size, be32, be16, serialize, be_number, read_be,
  parse_udp_message,
}

-- The fields fit their machine types.
pub record IsTyped (m : UdpMessage) : Type 0 where
  pub session_id : m.session_id < 2 ^ 32
  pub packet_id : m.packet_id < 2 ^ 16
  pub frag_id : m.frag_id < 2 ^ 8
  pub frag_count : m.frag_count < 2 ^ 8

-- The eight bytes before the address length, and the whole message.
abbrev fixed : UdpMessage → List ℕ
fixed m = be32 m.session_id ++ be16 m.packet_id ++ (m.frag_id ∷ m.frag_count ∷ [])

abbrev wire : UdpMessage → List ℕ → List ℕ
wire m cs = fixed m ++ cs ++ m.addr ++ m.body

read_be-append : (bs rest : List ℕ) → read_be (length bs) (bs ++ rest) ≡ ok (be_number 0 bs, rest)
unfolding read_be
read_be-append bs rest = rw (read_full-append bs rest)

not_below : (n m : ℕ) → m ≤ n → ltb n m ≡ false
not_below n m h = ground arith

module _ (q : QuicVarint) (law : IsRfc9000 q) where
  serialize_steps :
      (m : UdpMessage) (buf b1 b2 b3 b4 b5 b6 b7 : List ℕ) (i n k : ℕ)
      → size q m ≤ length buf
      → store_at buf 0 (be32 m.session_id) ≡ ok b1
      → store_at b1 4 (be16 m.packet_id) ≡ ok b2
      → store_at b2 6 (m.frag_id ∷ []) ≡ ok b3
      → store_at b3 7 (m.frag_count ∷ []) ≡ ok b4
      → varint_put_at b4 8 (length m.addr) ≡ ok (b5, i)
      → copy_at b5 (8 + i) m.addr ≡ ok (b6, n)
      → copy_at b6 (8 + (i + n)) m.body ≡ ok (b7, k)
      → serialize q m buf ≡ ok (b7, some (8 + (i + n + k)))
  unfolding serialize
  serialize_steps m buf b1 b2 b3 b4 b5 b6 b7 i n k h e1 e2 e3 e4 e5 e6 e7 =
      rw (not_below (length buf) (size q m) h, e1, e2, e3, e4, e5, e6, e7)

  serialize-Holds :
      (m : UdpMessage) (cs buf : List ℕ)
      → ReadsAs q (length m.addr) cs
      → size q m ≤ length buf
      → (buf' : List ℕ) × (serialize q m buf ≡ ok (buf', some (size q m)))
        × Holds (wire m cs) (length buf - size q m) buf'
  unfolding size header_size
  serialize-Holds m cs buf ra h =
      let room : ℕ = length buf in
      written
        (store_at-Holds [] (be32 m.session_id) buf room 0 (buf, refl, refl) refl (omega arith))
        λ b1 e1 h1.
          written
            (store_at-Holds (be32 m.session_id) (be16 m.packet_id) b1 (room - 4) 4 h1 refl
              (omega arith))
            λ b2 e2 h2.
              written
                (store_at-Holds (be32 m.session_id ++ be16 m.packet_id) (m.frag_id ∷ []) b2
                  (room - 4 - 2) 6 h2 refl (omega arith))
                λ b3 e3 h3.
                  written
                    (store_at-Holds (be32 m.session_id ++ be16 m.packet_id ++ (m.frag_id ∷ []))
                      (m.frag_count ∷ []) b3 (room - 4 - 2 - 1) 7 h3 refl (omega arith))
                    λ b4 e4 h4.
                      written
                        (varint_put_at-Holds (fixed m) cs b4 (room - 4 - 2 - 1 - 1) 8
                          (length m.addr) h4 refl ra.0 (omega arith))
                        λ b5 e5 h5.
                          written
                            (copy_at-Holds (fixed m ++ cs) m.addr b5
                              (room - 4 - 2 - 1 - 1 - length cs) (8 + length cs) h5 (omega arith)
                              (omega arith))
                            λ b6 e6 h6.
                              written
                                (copy_at-Holds (fixed m ++ cs ++ m.addr) m.body b6
                                  (room - 4 - 2 - 1 - 1 - length cs - length m.addr)
                                  (8 + (length cs + length m.addr)) h6
                                  (omega (arith, length-append (fixed m ++ cs) m.addr))
                                  (omega arith))
                                λ b7 e7 h7. (
                                  b7,
                                  serialize_steps m buf b1 b2 b3 b4 b5 b6 b7 (length cs)
                                        (length m.addr) (length m.body) h e1 e2 e3 e4 e5 e6 e7
                                      ∙ ap (λ n. ok (b7, some n)) (omega (arith, ra.1)),
                                  (h7.0, h7.1, h7.2 ∙ omega (arith, ra.1)),
                                )

be32_number : (v : ℕ) → v < 2 ^ 32 → be_number 0 (be32 v) ≡ v
be32_number v h = omega arith

be16_number : (v : ℕ) → v < 2 ^ 16 → be_number 0 (be16 v) ≡ v
be16_number v h = omega arith

pub read_be32 : (v : ℕ) (s : List ℕ) → v < 2 ^ 32 → read_be 4 (be32 v ++ s) ≡ ok (v, s)
read_be32 v s h = read_be-append (be32 v) s ∙ ap (λ n. ok (n, s)) (be32_number v h)

pub read_be16 : (v : ℕ) (s : List ℕ) → v < 2 ^ 16 → read_be 2 (be16 v ++ s) ≡ ok (v, s)
read_be16 v s h = read_be-append (be16 v) s ∙ ap (λ n. ok (n, s)) (be16_number v h)

-- The reads of the fixed fields, one after the other.
fixed_reads :
    (m : UdpMessage) (s : List ℕ)
    → IsTyped m
    → (s1 s2 s3 : List ℕ) × (read_be 4
          (be32 m.session_id ++ (be16 m.packet_id ++ ((m.frag_id ∷ m.frag_count ∷ []) ++ s)))
        ≡ ok (m.session_id, s1))
      × (read_be 2 s1 ≡ ok (m.packet_id, s2))
      × (read_be 1 s2 ≡ ok (m.frag_id, s3))
      × (read_be 1 s3 ≡ ok (m.frag_count, s))
fixed_reads m s t =
    let tail : List ℕ = (m.frag_id ∷ m.frag_count ∷ []) ++ s in
    (
      be16 m.packet_id ++ tail,
      tail,
      m.frag_count ∷ s,
      read_be-append (be32 m.session_id) (be16 m.packet_id ++ tail)
          ∙ ap (λ n. ok (n, be16 m.packet_id ++ tail)) (be32_number m.session_id t.session_id),
      read_be-append (be16 m.packet_id) tail
          ∙ ap (λ n. ok (n, tail)) (be16_number m.packet_id t.packet_id),
      read_be-append (m.frag_id ∷ []) (m.frag_count ∷ s)
          ∙ ap (λ n. ok (n, m.frag_count ∷ s)) (omega arith),
      read_be-append (m.frag_count ∷ []) s ∙ ap (λ n. ok (n, s)) (omega arith),
    )

module _ (q : QuicVarint) where
  -- What ParseUDPMessage answers on an address and data behind the fixed fields.
  abbrev verdict : UdpMessage → Result Error UdpMessage
  verdict m =
      if length m.addr == 0 || ltb max_message_length (length m.addr)
      then err invalid_address_length
      else if length m.body == 0
      then err invalid_message_length
      else ok m

  checks :
      (m : UdpMessage) (bad_address no_data : Bool)
      → (refuse bad_address invalid_address_length
          >> (refuse no_data invalid_message_length >> ok m))
        ≡ (if bad_address
            then err invalid_address_length
            else if no_data
            then err invalid_message_length
            else ok m)
  checks m true _ = refl
  checks m false true = refl
  checks m false false = refl

  data_missing :
      (addr body : List ℕ) → leb (length (addr ++ body)) (length addr) ≡ (length body == 0)
  data_missing addr body = rw (length-append addr body) (ground arith)

  parse_tail :
      (m : UdpMessage) (msg s s1 s2 s3 : List ℕ)
      → read_be 4 msg ≡ ok (m.session_id, s1)
      → read_be 2 s1 ≡ ok (m.packet_id, s2)
      → read_be 1 s2 ≡ ok (m.frag_id, s3)
      → read_be 1 s3 ≡ ok (m.frag_count, s)
      → read_varint q s ≡ ok (length m.addr, m.addr ++ m.body)
      → parse_udp_message q msg ≡ verdict m
  unfolding parse_udp_message
  parse_tail m msg s s1 s2 s3 e1 e2 e3 e4 e5 =
      rw
        (
          e1,
          e2,
          e3,
          e4,
          e5,
          take-append_length m.addr m.body,
          drop-append_length m.addr m.body,
          data_missing m.addr m.body,
        )
        (checks m (length m.addr == 0 || ltb max_message_length (length m.addr))
          (length m.body == 0))

module _ (q : QuicVarint) (law : IsRfc9000 q) where
  parse_wire :
      (m : UdpMessage) (cs : List ℕ)
      → IsTyped m
      → ReadsAs q (length m.addr) cs
      → parse_udp_message q (wire m cs) ≡ verdict q m
  parse_wire m cs t ra =
      let s : List ℕ = cs ++ (m.addr ++ m.body) in
      let (s1, s2, s3, e1, e2, e3, e4) = fixed_reads m s t in
      rw (regrouped cs)
        (parse_tail q m _ s s1 s2 s3 e1 e2 e3 e4 (read_varint_lem q s (ra.2 (m.addr ++ m.body))))
    where
      regrouped :
          (cs : List ℕ)
          → wire m cs
            ≡ be32 m.session_id
              ++ (be16 m.packet_id
                  ++ ((m.frag_id ∷ m.frag_count ∷ []) ++ (cs ++ (m.addr ++ m.body))))
      regrouped cs = simp append_assoc

  length-wire :
      (m : UdpMessage) (cs : List ℕ)
      → length cs ≡ q.len (length m.addr)
      → length (wire m cs) ≡ size q m
  unfolding size header_size
  length-wire m cs h = omega (
    arith,
    h,
    length-append cs m.addr,
    length-append (fixed m ++ cs) m.addr,
    length-append (fixed m ++ cs ++ m.addr) m.body,
  )

  -- Serialize writes within the buffer.
  pub serialize-length :
      (m : UdpMessage) (buf : List ℕ)
      → length m.addr ≤ max_var_int
      → size q m ≤ length buf
      → (buf' : List ℕ) × (serialize q m buf ≡ ok (buf', some (size q m)))
        × (length buf' ≡ length buf)
  serialize-length m buf ha h =
      let (cs, ra) = varint_bytes-ReadsAs q law (length m.addr) ha in
      written (serialize-Holds q law m cs buf ra h) λ buf' e held.
        let n : length (wire m cs) ≡ size q m = length-wire m cs ra.1 in
        (buf', e, rw held.1 (length-append (wire m cs) held.0 ∙ omega (arith, held.2)))

  -- Serialize into a buffer that is large enough returns Size. ParseUDPMessage reads the message
  -- back from that many bytes of the buffer, if the address has 1 to MaxMessageLength bytes and
  -- there is data; else it answers an invalid address length, or an invalid message length.
  pub parse-serialize :
      (m : UdpMessage) (buf : List ℕ)
      → IsTyped m
      → length m.addr ≤ max_var_int
      → size q m ≤ length buf
      → (buf' : List ℕ) × (serialize q m buf ≡ ok (buf', some (size q m)))
        × (length buf' ≡ length buf)
        × (parse_udp_message q (take (size q m) buf') ≡ (
            if length m.addr == 0 || ltb max_message_length (length m.addr)
            then err invalid_address_length
            else if length m.body == 0
            then err invalid_message_length
            else ok m))
  parse-serialize m buf t ha h =
      let (cs, ra) = varint_bytes-ReadsAs q law (length m.addr) ha in
      written (serialize-Holds q law m cs buf ra h) λ buf' e held.
        let n : length (wire m cs) ≡ size q m = length-wire m cs ra.1 in
        (
          buf',
          e,
          rw held.1 (length-append (wire m cs) held.0 ∙ omega (arith, held.2)),
          rw (held.1, take-append_eq (size q m) (wire m cs) held.0 (sym n)) (parse_wire m cs t ra),
        )

-- Serialize writes nothing and returns -1 exactly where the buffer is shorter than Size, and it
-- never fails otherwise.
serialize_short :
    (q : QuicVarint) (m : UdpMessage) (buf : List ℕ)
    → length buf < size q m
    → serialize q m buf ≡ ok (buf, none)
unfolding serialize
serialize_short q m buf h = ground arith

IsOk-bind :
    {A B : Type 0} (r : Result Error A) (f : A → Result Error B) {b : B}
    → (r >>= f) ≡ ok b
    → (a : A) × (f a ≡ ok b)
IsOk-bind (ok a) f h = (a, h)
IsOk-bind (err e) f h = cc
IsOk-bind panic f h = cc

accept_bounds :
    (a b c d n : ℕ) (bs : List ℕ) (m : UdpMessage)
    → accept a b c d n bs ≡ ok m
    → (0 < length m.addr) × (length m.addr ≤ max_message_length) × (0 < length m.body)
unfolding accept
accept_bounds a b c d n bs m h = ground (arith, length-take n bs, length-drop n bs)

-- Whatever quicvarint.Read returns, a message that ParseUDPMessage accepts has an address of 1 to
-- MaxMessageLength bytes and at least one byte of data.
pub parse_bounds :
    (q : QuicVarint) (msg : List ℕ) (m : UdpMessage)
    → parse_udp_message q msg ≡ ok m
    → (0 < length m.addr) × (length m.addr ≤ max_message_length) × (0 < length m.body)
unfolding parse_udp_message
parse_bounds q msg m h =
    let (p4, h4) = IsOk-bind (read_be 4 msg) _ h in
    let (p2, h2) = IsOk-bind (read_be 2 p4.1) _ h4 in
    let (p1, h1) = IsOk-bind (read_be 1 p2.1) _ h2 in
    let (p0, h0) = IsOk-bind (read_be 1 p1.1) _ h1 in
    let (pa, ha) = IsOk-bind (read_varint q p0.1) _ h0 in
    accept_bounds p4.0 p2.0 p1.0 p0.0 pa.0 pa.1 m ha
