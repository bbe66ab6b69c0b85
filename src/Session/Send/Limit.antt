-- ===== src/Session/Send/Limit.antt =====
-- Sending over a connection with a limit on its datagrams: SendMessage and sendMessageAutoFrag of core.
use libya_link.Common.{
  ℕ, suc, ◌-◌, ◌≤◌, ◌<◌, ◌≡◌, refl, sym, ap, ◌∙◌, ◌⊎◌, inl, inr, Bool, true, Option, none, some,
  List, [], ◌∷◌, append-nil, arith, ltb, leb, leb→le, Bool-cases, length, take, length-take,
  get_elem?, All,
}
use libya_link.Common.Result.{Result, ok, err, panic, ◌>>=◌}
use libya_link.Protocol.Errors.{Error}
use libya_link.Protocol.Quic.{QuicVarint, IsRfc9000, max_var_int}
use libya_link.Protocol.Udp.{UdpMessage, header_size, size, serialize}
use libya_link.Protocol.Udp.RoundTrip.{serialize-length}
use libya_link.Frag.Split.Pieces.{pieces_needed, joined}
use libya_link.Frag.Split.Cover.{frag_udp_message_covers}
use libya_link.Session.Send.{
  SendError, too_large, Answer, sent, dropped, failed, answer_of, client_send_message, send_message,
  packet_id_of, send_each, retry, send_message_auto_frag,
}

-- SendDatagram takes the datagrams of at most `max` bytes, and of the others says so.
pub record IsLimited {E : Type 0} (max : ℕ) (conn : List ℕ → Option (SendError E)) : Type 0 where
  pub takes : (bytes : List ℕ) → length bytes ≤ max → conn bytes ≡ none
  pub refuses : (bytes : List ℕ) → max < length bytes → conn bytes ≡ some (too_large max)

-- `io` is SendMessage, for the messages whose address has a length that a varint holds.
abbrev pub IsSendMessage :
    {E : Type 0}
    → QuicVarint
    → (ℕ → Bool)
    → E
    → (List ℕ → Option (SendError E))
    → List ℕ
    → (UdpMessage → Answer E)
    → Type 0
IsSendMessage q log disconnect conn buf io =
    (m : UdpMessage)
    → length m.addr ≤ max_var_int
    → send_message q log disconnect conn buf m ≡ ok (io m)

ok-injective : {A : Type 0} (a b : A) → ◌≡◌ {A = Result Error A} (ok a) (ok b) → a ≡ b
ok-injective a b e = ap (λ r. elim r [ ok z ↦ z | err z ↦ a | panic ↦ a ]) e

send_each-All :
    {E : Type 0} (q : QuicVarint) (io : UdpMessage → Answer E) (fs : List UdpMessage)
    → All (λ f. io f ≡ sent) fs
    → send_each q io fs ≡ (fs, none)
unfolding send_each
send_each-All q io [] h = refl
send_each-All q io (f ∷ fs) h = rw (h.0, send_each-All q io fs h.1, send_each) refl

All-get_elem? :
    (P : UdpMessage → Type 0) (fs : List UdpMessage)
    → ((i : ℕ) (f : UdpMessage) → get_elem? fs i ≡ some f → P f)
    → All P fs
All-get_elem? P [] h = tt
All-get_elem? P (f ∷ fs) h = (h 0 f refl, All-get_elem? P fs (λ i g e. h (suc i) g e))

All-both :
    (P Q R : UdpMessage → Type 0) (fs : List UdpMessage)
    → ((f : UdpMessage) → P f → Q f → R f)
    → All P fs
    → All Q fs
    → All R fs
All-both P Q R [] go a b = tt
All-both P Q R (f ∷ fs) go a b = (go f a.0 b.0, All-both P Q R fs go a.1 b.1)

module _ {E : Type 0} (q : QuicVarint) (law : IsRfc9000 q) (max : ℕ) (log : ℕ → Bool)
    (disconnect : E) (conn : List ℕ → Option (SendError E)) (buf : List ℕ)
    (io : UdpMessage → Answer E) (logged : (n : ℕ) → log n ≡ true) (limited : IsLimited max conn)
    (sends : IsSendMessage q log disconnect conn buf io) where
  -- What SendMessage answers, by the message's size.
  drops : (m : UdpMessage) → length m.addr ≤ max_var_int → length buf < size q m → io m ≡ dropped
  unfolding send_message client_send_message serialize
  drops m ha h =
      let small : ltb (length buf) (size q m) ≡ true = ground arith in
      let run : send_message q log disconnect conn buf m ≡ ok dropped =
        rw (logged (length m.body), small) refl in
      ok-injective (io m) dropped (sym (sends m ha) ∙ run)

  answers :
      (m : UdpMessage)
      → length m.addr ≤ max_var_int
      → size q m ≤ length buf
      → (bytes : List ℕ) × (length bytes ≡ size q m) × (io m ≡ answer_of (conn bytes))
  unfolding send_message client_send_message
  answers m ha room =
      let (buf', e, l) = serialize-length q law m buf ha room in
      let run : send_message q log disconnect conn buf m
          ≡ ok (answer_of (conn (take (size q m) buf'))) =
        rw (logged (length m.body), e) refl in
      (
        take (size q m) buf',
        omega (arith, length-take (size q m) buf'),
        ok-injective (io m) (answer_of (conn (take (size q m) buf'))) (sym (sends m ha) ∙ run),
      )

  takes :
      (m : UdpMessage)
      → length m.addr ≤ max_var_int
      → size q m ≤ length buf
      → size q m ≤ max
      → io m ≡ sent
  takes m ha room h =
      let (bytes, l, e) = answers m ha room in e ∙ ap answer_of (limited.takes bytes (omega arith))

  refuses :
      (m : UdpMessage)
      → length m.addr ≤ max_var_int
      → size q m ≤ length buf
      → max < size q m
      → io m ≡ failed (too_large max)
  refuses m ha room h =
      let (bytes, l, e) = answers m ha room in
      e ∙ ap answer_of (limited.refuses bytes (omega arith))

  -- A message that is over the buffer is dropped, without an error. One that the connection takes
  -- whole is sent as it is. Of the others, one whose header leaves room for data, and whose data
  -- needs fewer than 256 fragments, is sent in fragments that all fit: they carry the data in order,
  -- under one new packet id, and no error is returned. SendDatagram has a limit, the traffic logger
  -- refuses nothing, and the length of the address is one that a varint holds.
  pub send_message_auto_frag-covers :
      (draw : ℕ) (m : UdpMessage)
      → length m.addr ≤ max_var_int
      → header_size q m < max
      → pieces_needed m (max - header_size q m) < 256
      → ((length buf < size q m) × (send_message_auto_frag q io draw m ≡ ok ([], none)))
        ⊎ ((fs : List UdpMessage) × (size q m ≤ length buf)
            × (send_message_auto_frag q io draw m ≡ ok (fs, none))
            × (joined fs ≡ m.body)
            × All (λ f. size q f ≤ max) fs
            × ((fs ≡ m ∷ [])
                ⊎ ((i : ℕ) (f : UdpMessage)
                    → get_elem? fs i ≡ some f
                    → f ≡ record m {
                      packet_id = packet_id_of draw;
                      frag_id = i;
                      frag_count = length fs;
                      body = f.body;
                    })))
  unfolding send_message_auto_frag retry size header_size
  send_message_auto_frag-covers draw m ha fits few =
      elim (Bool-cases (leb (size q m) (length buf))) [
        | inr beyond ↦
            let over : length buf < size q m = ground arith in
            inl (over, ap (retry q io draw m) (drops m ha over))
        | inl within ↦
            let room : size q m ≤ length buf = leb→le (size q m) (length buf) within in
            elim (Bool-cases (leb (size q m) max)) [
              | inl whole ↦
                  let small : size q m ≤ max = leb→le (size q m) max whole in
                  inr (
                    m ∷ [],
                    room,
                    ap (retry q io draw m) (takes m ha room small),
                    append-nil m.body,
                    (small, tt),
                    inl refl,
                  )
              | inr large ↦
                  let split : UdpMessage = record m { packet_id = packet_id_of draw } in
                  let over : max < size q m = ground arith in
                  let (fs, e, j, a, n) = frag_udp_message_covers q split max fits over few in
                  let addrs : All (λ f. f.addr ≡ m.addr) fs =
                    All-get_elem? (λ f. f.addr ≡ m.addr) fs
                      (λ i f g. ap (λ (x : UdpMessage). x.addr) (n i f g)) in
                  let all_sent : All (λ f. io f ≡ sent) fs =
                    All-both (λ f. (size q f ≤ max) × (0 < length f.body)) (λ f. f.addr ≡ m.addr)
                      (λ f. io f ≡ sent) fs (λ f s same. takes f (rw same ha) (omega arith) s.0) a
                      addrs in
                  inr (
                    fs,
                    room,
                    ap (retry q io draw m) (refuses m ha room over)
                        ∙ ap (λ r. r >>= λ fs. ok (send_each q io fs)) e
                        ∙ ap ok (send_each-All q io fs all_sent),
                    j,
                    All-both (λ f. (size q f ≤ max) × (0 < length f.body)) (λ f. f.addr ≡ m.addr)
                        (λ f. size q f ≤ max) fs (λ f s same. s.0) a addrs,
                    inr n,
                  )
            ]
      ]

-- SendMessage returns, so there is such a function.
abbrev pub answer : {E : Type 0} → Result Error (Answer E) → Answer E
answer (ok a) = a
answer (err e) = dropped
answer panic = dropped

pub send_message-IsSendMessage :
    {E : Type 0} (q : QuicVarint)
    → IsRfc9000 q
    → (log : ℕ → Bool) (disconnect : E) (conn : List ℕ → Option (SendError E)) (buf : List ℕ)
    → IsSendMessage q log disconnect conn buf
        (λ m. answer (send_message q log disconnect conn buf m))
unfolding send_message client_send_message serialize
send_message-IsSendMessage q law log disconnect conn buf m ha =
    elim (Bool-cases (log (length m.body))) [
      | inr refused ↦ rw refused refl
      | inl passed ↦ elim (Bool-cases (ltb (length buf) (size q m))) [
        | inl small ↦ rw (passed, small) refl
        | inr large ↦
            let (buf', e, l) = serialize-length q law m buf ha (ground arith) in rw (passed, e) refl
      ]
    ]
