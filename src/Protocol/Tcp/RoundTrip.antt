-- ===== src/Protocol/Tcp/RoundTrip.antt =====
-- What the writers of the TCP messages write, the readers read.
use libya_link.Common.{
  ℕ, suc, ◌+◌, ◌-◌, ◌≤◌, ◌≡◌, refl, sym, ap, ◌∙◌, inl, inr, Bool, true, false, ◌||◌, some, List, [],
  ◌∷◌, ◌++◌, append-nil, append_assoc, arith, ltb, ◌==◌, if◌then◌else◌, Bool-cases, length,
  length-append, replicate, length-replicate,
}
use libya_link.Common.Result.{ok, err}
use libya_link.Protocol.Errors.{invalid_address_length}
use libya_link.Protocol.Quic.{max_var_int, QuicVarint, IsRfc9000}
use libya_link.Protocol.Varint.{ReadsAs, varint_bytes-ReadsAs}
use libya_link.Protocol.Reader.{read_varint_lem, read_full-append, discard-append}
use libya_link.Protocol.Fill.{Holds, store_at-Holds, copy_at-Holds, varint_put_at-Holds}
use libya_link.Protocol.Tcp.{
  read_padding, read_tcp_request, write_tcp_request, read_message, read_tcp_response,
  write_tcp_response, max_padding_length, max_address_length, max_message_length,
  frame_type_tcp_request,
}

not_longer : (n m : ℕ) → n ≤ m → ltb m n ≡ false
not_longer n m h = ground arith

positive : (n : ℕ) → ltb 0 (suc n) ≡ true
positive n = ground arith

module _ (q : QuicVarint) where
  read_padding-append :
      (bs padding rest : List ℕ)
      → ReadsAs q (length padding) bs
      → length padding ≤ max_padding_length
      → read_padding q (bs ++ (padding ++ rest)) ≡ ok rest
  unfolding read_padding
  read_padding-append bs [] rest (_, _, reads) h = rw (read_varint_lem q _ (reads rest))
  read_padding-append bs (p ∷ padding) rest (_, _, reads) h = rw (
    read_varint_lem q _ (reads ((p ∷ padding) ++ rest)),
    not_longer (length (p ∷ padding)) max_padding_length h,
    positive (length padding),
    discard-append (p ∷ padding) rest,
  )

  read_request-append :
      (cs addr bs padding rest : List ℕ)
      → ReadsAs q (length addr) cs
      → ReadsAs q (length padding) bs
      → length padding ≤ max_padding_length
      → read_tcp_request q (cs ++ (addr ++ (bs ++ (padding ++ rest)))) ≡ (
          if length addr == 0 || ltb max_address_length (length addr)
          then err invalid_address_length
          else ok (addr, rest))
  unfolding read_tcp_request
  read_request-append cs addr bs padding rest ra rb hp =
      let reads = read_varint_lem q _ (ra.2 (addr ++ (bs ++ (padding ++ rest)))) in
      elim (Bool-cases (length addr == 0 || ltb max_address_length (length addr))) [
        | inl refused ↦ rw (reads, refused)
        | inr accepted ↦ rw (
          reads,
          accepted,
          read_full-append addr (bs ++ (padding ++ rest)),
          read_padding-append bs padding rest rb hp,
        )
      ]

  read_message-append :
      (msg rest : List ℕ) → read_message (length msg) (msg ++ rest) ≡ ok (msg, rest)
  unfolding read_message
  read_message-append [] rest = refl
  read_message-append (b ∷ msg) rest = rw (positive (length msg)) (read_full-append (b ∷ msg) rest)

  read_response-append :
      (status : ℕ) (cs msg bs padding rest : List ℕ)
      → ReadsAs q (length msg) cs
      → ReadsAs q (length padding) bs
      → length msg ≤ max_message_length
      → length padding ≤ max_padding_length
      → read_tcp_response q (status ∷ (cs ++ (msg ++ (bs ++ (padding ++ rest)))))
        ≡ ok (status == 0, msg, rest)
  unfolding read_tcp_response
  read_response-append status cs msg bs padding rest ra rb hi hp = rw (
    read_full-append (status ∷ []) (cs ++ (msg ++ (bs ++ (padding ++ rest)))),
    read_varint_lem q _ (ra.2 (msg ++ (bs ++ (padding ++ rest)))),
    not_longer (length msg) max_message_length hi,
    read_message-append msg (bs ++ (padding ++ rest)),
    read_padding-append bs padding rest rb hp,
  )

room_empty : (xs : List ℕ) → length xs ≡ 0 → xs ≡ []
room_empty [] h = refl
room_empty (x ∷ xs) h = absurd (omega arith)

Holds-full : (done buf : List ℕ) {room : ℕ} → Holds done room buf → room ≡ 0 → buf ≡ done
Holds-full done buf (rest, e, r) h = rw (e, room_empty rest (r ∙ h)) (append-nil done)

module _ (q : QuicVarint) where
  -- The buffer of WriteTCPRequest is filled exactly.
  write_request-append :
      (fs cs addr bs padding : List ℕ)
      → ReadsAs q frame_type_tcp_request fs
      → ReadsAs q (length addr) cs
      → ReadsAs q (length padding) bs
      → write_tcp_request q padding addr ≡ ok (fs ++ (cs ++ (addr ++ (bs ++ padding))))
  unfolding write_tcp_request
  write_request-append fs cs addr bs padding rf ra rb =
      let sz : ℕ =
        q.len frame_type_tcp_request
        + q.len (length addr)
        + length addr
        + q.len (length padding)
        + length padding in
      let (b1, e1, h1) =
        varint_put_at-Holds [] fs (replicate sz 0) sz 0 frame_type_tcp_request
          (replicate sz 0, refl, length-replicate sz 0) refl rf.0 (omega arith) in
      let (b2, e2, h2) =
        varint_put_at-Holds fs cs b1 (sz - length fs) (length fs) (length addr) h1 refl ra.0
          (omega arith) in
      let (b3, e3, h3) =
        copy_at-Holds (fs ++ cs) addr b2 (sz - length fs - length cs) (length fs + length cs) h2
          (sym (length-append fs cs)) (omega arith) in
      let (b4, e4, h4) =
        varint_put_at-Holds ((fs ++ cs) ++ addr) bs b3 (sz - length fs - length cs - length addr)
          (length fs + length cs + length addr) (length padding) h3
          (omega (arith, length-append fs cs, length-append (fs ++ cs) addr)) rb.0 (omega arith) in
      let (b5, e5, h5) =
        copy_at-Holds (((fs ++ cs) ++ addr) ++ bs) padding b4
          (sz - length fs - length cs - length addr - length bs)
          (length fs + length cs + length addr + length bs) h4
          (omega (
            arith,
            length-append fs cs,
            length-append (fs ++ cs) addr,
            length-append ((fs ++ cs) ++ addr) bs,
          ))
          (omega arith) in
      rw (e1, e2, e3, e4, e5, Holds-full (fs ++ cs ++ addr ++ bs ++ padding) b5 h5 (omega arith))
        (simp append_assoc)

  -- The buffer of WriteTCPResponse is filled exactly.
  write_response-append :
      (cs msg bs padding : List ℕ) (success : Bool)
      → ReadsAs q (length msg) cs
      → ReadsAs q (length padding) bs
      → write_tcp_response q padding success msg
        ≡ ok ((if success then 0 else 1) ∷ (cs ++ (msg ++ (bs ++ padding))))
  unfolding write_tcp_response
  write_response-append cs msg bs padding success ra rb =
      let st : List ℕ = (if success then 0 else 1) ∷ [] in
      let sz : ℕ = 1 + q.len (length msg) + length msg + q.len (length padding) + length padding in
      let (b1, e1, h1) =
        store_at-Holds [] st (replicate sz 0) sz 0 (replicate sz 0, refl, length-replicate sz 0)
          refl (omega arith) in
      let (b2, e2, h2) =
        varint_put_at-Holds st cs b1 (sz - 1) 1 (length msg) h1 refl ra.0 (omega arith) in
      let (b3, e3, h3) =
        copy_at-Holds (st ++ cs) msg b2 (sz - 1 - length cs) (1 + length cs) h2 (omega arith)
          (omega arith) in
      let (b4, e4, h4) =
        varint_put_at-Holds ((st ++ cs) ++ msg) bs b3 (sz - 1 - length cs - length msg)
          (1 + (length cs + length msg)) (length padding) h3
          (omega (arith, length-append (st ++ cs) msg)) rb.0 (omega arith) in
      let (b5, e5, h5) =
        copy_at-Holds (((st ++ cs) ++ msg) ++ bs) padding b4
          (sz - 1 - length cs - length msg - length bs) (1 + (length cs + length msg + length bs))
          h4 (omega (arith, length-append (st ++ cs) msg, length-append ((st ++ cs) ++ msg) bs))
          (omega arith) in
      rw (e1, e2, e3, e4, e5, Holds-full (st ++ cs ++ msg ++ bs ++ padding) b5 h5 (omega arith))
        (simp append_assoc)

status_bit : (b : Bool) → ((if b then 0 else 1) == 0) ≡ b
status_bit true = refl
status_bit false = refl

-- The bytes with more input behind them, regrouped as the readers take them.
regroup : (a b c d rest : List ℕ) → (a ++ (b ++ (c ++ d))) ++ rest ≡ a ++ (b ++ (c ++ (d ++ rest)))
regroup a b c d rest = simp append_assoc

module _ (q : QuicVarint) (law : IsRfc9000 q) where
  -- WriteTCPRequest fills its buffer with a message that begins with the frame type. A server that
  -- has taken the frame type reads the address back, with whatever follows the message left in the
  -- stream, for every address of 1 to MaxAddressLength bytes and padding of at most
  -- MaxPaddingLength bytes; an empty or longer address it refuses as an invalid address length.
  pub read-write_tcp_request :
      (addr padding rest : List ℕ)
      → length addr ≤ max_var_int
      → length padding ≤ max_padding_length
      → (buf body : List ℕ) × (write_tcp_request q padding addr ≡ ok buf)
        × (q.read (buf ++ rest) ≡ some (frame_type_tcp_request, body))
        × (read_tcp_request q body ≡ (
            if length addr == 0 || ltb max_address_length (length addr)
            then err invalid_address_length
            else ok (addr, rest)))
  read-write_tcp_request addr padding rest ha hp =
      let (fs, rf) = varint_bytes-ReadsAs q law frame_type_tcp_request (omega arith) in
      let (cs, ra) = varint_bytes-ReadsAs q law (length addr) ha in
      let (bs, rb) = varint_bytes-ReadsAs q law (length padding) (omega arith) in
      (
        fs ++ (cs ++ (addr ++ (bs ++ padding))),
        cs ++ (addr ++ (bs ++ (padding ++ rest))),
        write_request-append q fs cs addr bs padding rf ra rb,
        rw (append_assoc fs (cs ++ (addr ++ (bs ++ padding))) rest, regroup cs addr bs padding rest)
            (rf.2 (cs ++ (addr ++ (bs ++ (padding ++ rest))))),
        read_request-append q cs addr bs padding rest ra rb hp,
      )

  -- ReadTCPResponse reads back the status and the message that WriteTCPResponse wrote, and leaves
  -- whatever follows in the stream, for every message of at most MaxMessageLength bytes and
  -- padding of at most MaxPaddingLength bytes.
  pub read-write_tcp_response :
      (success : Bool) (msg padding rest : List ℕ)
      → length msg ≤ max_message_length
      → length padding ≤ max_padding_length
      → (buf : List ℕ) × (write_tcp_response q padding success msg ≡ ok buf)
        × (read_tcp_response q (buf ++ rest) ≡ ok (success, msg, rest))
  read-write_tcp_response success msg padding rest hm hp =
      let (cs, ra) = varint_bytes-ReadsAs q law (length msg) (omega arith) in
      let (bs, rb) = varint_bytes-ReadsAs q law (length padding) (omega arith) in
      (
        (if success then 0 else 1) ∷ (cs ++ (msg ++ (bs ++ padding))),
        write_response-append q cs msg bs padding success ra rb,
        rw (regroup cs msg bs padding rest) (
            read_response-append q (if success then 0 else 1) cs msg bs padding rest ra rb hm hp
            ∙ ap (λ b. ok (b, msg, rest)) (status_bit success)),
      )
