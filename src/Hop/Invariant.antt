-- ===== src/Hop/Invariant.antt =====
-- What holds of the hopping connection in every run: the sockets it has open, the address it
-- writes to, the buffer sizes of the current socket, the length of the queue.
use libya_link.Common.{
  ℕ, ◌%◌, ◌≤◌, ◌<◌, ◌≡◌, refl, sym, ap, ◌∙◌, ◌≢◌, inl, inr, Bool, true, false, ◌&&◌, Option, none,
  some, List, [], ◌∷◌, ◌++◌, arith, ltb, ◌==◌, if◌then◌else◌, ltb→lt, Option-cases, length,
  get_elem?, length-append,
}
use mathlib.Core.Path.{subst}
use mathlib.Core.Option.{some-injective}
use native.Mathlib.Nat.{mod-lt}
use libya_link.Common.Result.{Result, ok, err}
use libya_link.Hop.{
  Call, opened, closed, read_buffer, write_buffer, deadline, wrote, HopConn, packet_queue_size,
  Received, datagram, timeout, failure, Packet, packet, timed_out, HopError, err_closed, move_to,
  call_if, hop, recv_round, read_from, deliver, write_to, close, set_deadline, set_read_buffer,
  set_write_buffer,
}

abbrev pub removed : ℕ → List ℕ → List ℕ
removed c [] = []
removed c (d ∷ ds) = let rest = removed c ds in if c == d then ds else d ∷ rest

-- The sockets that were opened and not closed since, by the calls alone.
abbrev pub open_sockets : List Call → List ℕ
open_sockets [] = []
open_sockets (opened c ∷ calls) = c ∷ open_sockets calls
open_sockets (closed c ∷ calls) = removed c (open_sockets calls)
open_sockets (read_buffer c n ∷ calls) = open_sockets calls
open_sockets (write_buffer c n ∷ calls) = open_sockets calls
open_sockets (deadline c t ∷ calls) = open_sockets calls
open_sockets (wrote c b addr ∷ calls) = open_sockets calls

-- The read buffer size that was last asked of a socket since it was opened, 0 for none.
abbrev pub asked_size : ℕ → List Call → ℕ
asked_size s [] = 0
asked_size s (opened c ∷ calls) = let rest = asked_size s calls in if s == c then 0 else rest
asked_size s (read_buffer c n ∷ calls) = let rest = asked_size s calls in if s == c then n else rest
asked_size s (closed c ∷ calls) = asked_size s calls
asked_size s (write_buffer c n ∷ calls) = asked_size s calls
asked_size s (deadline c t ∷ calls) = asked_size s calls
asked_size s (wrote c b addr ∷ calls) = asked_size s calls

module _ {E : Type 0} where
  -- The sockets that the connection holds.
  abbrev pub held : HopConn E → List ℕ
  held h =
      if h.is_closed
      then []
      else (h.current_conn ∷ (elim h.prev_conn [ none ↦ [] | some p ↦ p ∷ [] ]))

  abbrev pub IsApart : HopConn E → Type 0
  IsApart h = (p : ℕ) → h.prev_conn ≡ some p → p ≢ h.current_conn

  pub record IsValid (h : HopConn E) : Type 0 where
    pub holds : open_sockets h.calls ≡ held h
    pub apart : IsApart h
    pub sized : asked_size h.current_conn h.calls ≡ h.read_buffer_size
    pub aimed : h.is_closed ≡ false → h.addr_index < length h.addrs
    pub bounded : length h.recv_queue ≤ packet_queue_size

  abbrev pub IsFresh : ℕ → HopConn E → Type 0
  IsFresh conn h = (conn ≢ h.current_conn) × ((p : ℕ) → h.prev_conn ≡ some p → p ≢ conn)

  -- A critical section of the connection's goroutines. A new socket is none of the open ones.
  pub data Step : HopConn E → HopConn E → Type 0 where
    hops :
        (listened : Option ℕ) (draw : ℕ) (h h' : HopConn E)
        → ((conn : ℕ) → listened ≡ some conn → IsFresh conn h)
        → hop listened draw h ≡ ok h'
        → Step h h'
    receives :
        (r : Received E) (h h' : HopConn E) (goes : Bool)
        → recv_round r h ≡ some (h', goes)
        → Step h h'
    reads :
        (closing : Bool) (b : List ℕ) (h h' : HopConn E)
        (got : List ℕ × Result (HopError E) (ℕ × ℕ))
        → read_from closing b h ≡ some (h', got)
        → Step h h'
    writes : (b : List ℕ) (answer : Result E ℕ) (h : HopConn E) → Step h (write_to b answer h).0
    closes : (answer : Option E) (h : HopConn E) → Step h (close answer h).0
    sets_deadline : (t : ℕ) (answer : Option E) (h : HopConn E) → Step h (set_deadline t answer h).0
    sets_read : (n : ℕ) (answer : Option E) (h : HopConn E) → Step h (set_read_buffer n answer h).0
    sets_write :
        (n : ℕ) (answer : Option E) (h : HopConn E) → Step h (set_write_buffer n answer h).0

  pub data Run : HopConn E → HopConn E → Type 0 where
    done : (h : HopConn E) → Run h h
    step : (h m h' : HopConn E) → Run h m → Step m h' → Run h h'

removed_self : (c : ℕ) (ds : List ℕ) → removed c (c ∷ ds) ≡ ds
removed_self c ds = ground arith

removed_second : (c p : ℕ) → p ≢ c → removed p (c ∷ p ∷ []) ≡ c ∷ []
removed_second c p h = ground arith

removed_third : (n c p : ℕ) → p ≢ c → p ≢ n → removed p (n ∷ c ∷ p ∷ []) ≡ n ∷ c ∷ []
removed_third n c p h k = ground arith

module _ {E : Type 0} where
  abbrev pub AnyValid : {G : Type 0} → Option (HopConn E × G) → Type 0
  AnyValid none = Unit
  AnyValid (some (h, g)) = IsValid h

  if_any :
      {G : Type 0} (t : Bool) (a b : Option (HopConn E × G))
      → (t ≡ true → AnyValid a)
      → (t ≡ false → AnyValid b)
      → AnyValid (if t then a else b)
  if_any true a b va vb = va refl
  if_any false a b va vb = vb refl

  if_some :
      (t b c goes : Bool) (x y h' : HopConn E)
      → (t ≡ true → IsValid x)
      → (t ≡ false → IsValid y)
      → if◌then◌else◌ {A = Option (HopConn E × Bool)} t (some (x, b)) (some (y, c))
        ≡ some (h', goes)
      → IsValid h'
  if_some true b c goes x y h' vx vy e =
      subst IsValid (ap (λ z. z.0) (some-injective (x, b) (h', goes) e)) (vx refl)
  if_some false b c goes x y h' vx vy e =
      subst IsValid (ap (λ z. z.0) (some-injective (y, c) (h', goes) e)) (vy refl)

  if_none :
      (t b goes : Bool) (x h' : HopConn E)
      → (t ≡ true → IsValid x)
      → if◌then◌else◌ {A = Option (HopConn E × Bool)} t (some (x, b)) none ≡ some (h', goes)
      → IsValid h'
  if_none true b goes x h' vx e =
      subst IsValid (ap (λ z. z.0) (some-injective (x, b) (h', goes) e)) (vx refl)
  if_none false b goes x h' vx e = cc

-- A connection by its fields.
module _ {E : Type 0} (addr : ℕ) (addrs : List ℕ) (current index reading writing : ℕ)
    (queue : List (Packet E)) (calls : List Call) where
  abbrev conn_of : Option ℕ → Bool → HopConn E
  conn_of prev is_closed = record {
    addr = addr;
    addrs = addrs;
    prev_conn = prev;
    current_conn = current;
    addr_index = index;
    read_buffer_size = reading;
    write_buffer_size = writing;
    recv_queue = queue;
    is_closed = is_closed;
    calls = calls;
  }

  pub close_fields :
      (answer : Option E) (prev : Option ℕ) (shut : Bool)
      → IsValid (conn_of prev shut)
      → IsValid (close answer (conn_of prev shut)).0
  unfolding close
  close_fields answer prev true v = v
  close_fields answer none false v = record {
    holds = rw v.holds (removed_self current []);
    apart = v.apart;
    sized = v.sized;
    aimed = λ e. cc;
    bounded = v.bounded;
  }
  close_fields answer (some p) false v = record {
    holds = rw (v.holds, removed_second current p (v.apart p refl)) (removed_self current []);
    apart = v.apart;
    sized = v.sized;
    aimed = λ e. cc;
    bounded = v.bounded;
  }

  pub write_to_fields :
      (b : List ℕ) (answer : Result E ℕ) (prev : Option ℕ) (shut : Bool)
      → IsValid (conn_of prev shut)
      → IsValid (write_to b answer (conn_of prev shut)).0
  unfolding write_to
  write_to_fields b answer prev true v = v
  write_to_fields b answer prev false v = elim (Option-cases (get_elem? addrs index)) [
    | inl n ↦ rw n v
    | inr (a, s) ↦ rw s (record {
      holds = v.holds;
      apart = v.apart;
      sized = v.sized;
      aimed = v.aimed;
      bounded = v.bounded;
    })
  ]

  pub deadline_fields :
      (t : ℕ) (answer : Option E) (prev : Option ℕ) (shut : Bool)
      → IsValid (conn_of prev shut)
      → IsValid (set_deadline t answer (conn_of prev shut)).0
  unfolding set_deadline
  deadline_fields t answer none shut v = record {
    holds = v.holds;
    apart = v.apart;
    sized = v.sized;
    aimed = v.aimed;
    bounded = v.bounded;
  }
  deadline_fields t answer (some p) shut v = record {
    holds = v.holds;
    apart = v.apart;
    sized = v.sized;
    aimed = v.aimed;
    bounded = v.bounded;
  }

  pub read_buffer_fields :
      (n : ℕ) (answer : Option E) (prev : Option ℕ) (shut : Bool)
      → IsValid (conn_of prev shut)
      → IsValid (set_read_buffer n answer (conn_of prev shut)).0
  unfolding set_read_buffer
  read_buffer_fields n answer none shut v = record {
    holds = v.holds;
    apart = v.apart;
    sized = ground arith;
    aimed = v.aimed;
    bounded = v.bounded;
  }
  read_buffer_fields n answer (some p) shut v = record {
    holds = v.holds;
    apart = v.apart;
    sized = ground arith;
    aimed = v.aimed;
    bounded = v.bounded;
  }

  pub write_buffer_fields :
      (n : ℕ) (answer : Option E) (prev : Option ℕ) (shut : Bool)
      → IsValid (conn_of prev shut)
      → IsValid (set_write_buffer n answer (conn_of prev shut)).0
  unfolding set_write_buffer
  write_buffer_fields n answer none shut v = record {
    holds = v.holds;
    apart = v.apart;
    sized = v.sized;
    aimed = v.aimed;
    bounded = v.bounded;
  }
  write_buffer_fields n answer (some p) shut v = record {
    holds = v.holds;
    apart = v.apart;
    sized = v.sized;
    aimed = v.aimed;
    bounded = v.bounded;
  }

  longer :
      (p : Packet E) (prev : Option ℕ) (shut : Bool)
      → IsValid (conn_of prev shut)
      → length queue < packet_queue_size
      → IsValid (record (conn_of prev shut) { recv_queue = queue ++ (p ∷ []) })
  longer p prev shut v room = record {
    holds = v.holds;
    apart = v.apart;
    sized = v.sized;
    aimed = v.aimed;
    bounded = rw (length-append queue (p ∷ [])) (omega (arith, room));
  }

  pub recv_fields :
      (r : Received E) (prev : Option ℕ) (shut : Bool) (h' : HopConn E) (goes : Bool)
      → recv_round r (conn_of prev shut) ≡ some (h', goes)
      → IsValid (conn_of prev shut)
      → IsValid h'
  unfolding recv_round
  recv_fields (datagram bytes) prev shut h' goes e v =
      if_some (ltb (length queue) packet_queue_size) true true goes
        (record (conn_of prev shut) { recv_queue = queue ++ (packet bytes ∷ []) })
        (conn_of prev shut) h'
        (λ l. longer (packet bytes) prev shut v (ltb→lt (length queue) packet_queue_size l))
        (λ l. v) e
  recv_fields (timeout x) prev shut h' goes e v =
      if_none (ltb (length queue) packet_queue_size) false goes
        (record (conn_of prev shut) { recv_queue = queue ++ (timed_out x ∷ []) }) h'
        (λ l. longer (timed_out x) prev shut v (ltb→lt (length queue) packet_queue_size l)) e
  recv_fields failure prev shut h' goes e v =
      subst IsValid (ap (λ x. x.0) (some-injective (conn_of prev shut, false) (h', goes) e)) v

  -- The sizes that a new socket is given.
  buffered :
      (sets_write sets_read : Bool) (prev : Option ℕ) (shut : Bool) (new_index : ℕ)
      → (sets_read ≡ false → reading ≡ 0)
      → asked_size current calls ≡ 0
      → open_sockets calls ≡ held (conn_of prev shut)
      → IsApart (conn_of prev shut)
      → new_index < length addrs
      → length queue ≤ packet_queue_size
      → IsValid
          (record (call_if sets_write
            (write_buffer current writing)
            (call_if sets_read (read_buffer current reading) (conn_of prev shut))) {
              addr_index = new_index;
            })
  buffered true true prev shut new_index small asked o a i q = record {
    holds = o;
    apart = a;
    sized = ground arith;
    aimed = λ e. i;
    bounded = q;
  }
  buffered true false prev shut new_index small asked o a i q = record {
    holds = o;
    apart = a;
    sized = asked ∙ sym (small refl);
    aimed = λ e. i;
    bounded = q;
  }
  buffered false true prev shut new_index small asked o a i q = record {
    holds = o;
    apart = a;
    sized = ground arith;
    aimed = λ e. i;
    bounded = q;
  }
  buffered false false prev shut new_index small asked o a i q = record {
    holds = o;
    apart = a;
    sized = asked ∙ sym (small refl);
    aimed = λ e. i;
    bounded = q;
  }

module _ {E : Type 0} (addr : ℕ) (addrs : List ℕ) (current index reading writing : ℕ)
    (queue : List (Packet E)) (calls : List Call) where
  pub hop_fields :
      (conn draw : ℕ) (prev : Option ℕ)
      → IsFresh conn (conn_of addr addrs current index reading writing queue calls prev false)
      → IsValid (conn_of addr addrs current index reading writing queue calls prev false)
      → IsValid
          (record (move_to conn
            (conn_of addr addrs current index reading writing queue calls prev false)) {
              addr_index = draw % length addrs;
            })
  unfolding move_to
  hop_fields conn draw none fresh v =
      buffered addr addrs conn index reading writing queue (opened conn ∷ calls) (ltb 0 writing)
        (ltb 0 reading) (some current) false (draw % length addrs) (λ e. ground arith)
        (ground arith) (rw v.holds refl)
        (λ p e h. fresh.0 (sym h ∙ sym (some-injective current p e)))
        (mod-lt draw (omega (arith, v.aimed refl))) v.bounded
  hop_fields conn draw (some p) fresh v =
      buffered addr addrs conn index reading writing queue (closed p ∷ opened conn ∷ calls)
        (ltb 0 writing) (ltb 0 reading) (some current) false (draw % length addrs)
        (λ e. ground arith) (ground arith)
        (rw v.holds (removed_third conn current p (v.apart p refl) (fresh.1 p refl)))
        (λ q e h. fresh.0 (sym h ∙ sym (some-injective current q e)))
        (mod-lt draw (omega (arith, v.aimed refl))) v.bounded

  pub read_fields :
      (closing : Bool) (b : List ℕ) (prev : Option ℕ) (shut : Bool) (packets : List (Packet E))
      → IsValid (conn_of addr addrs current index reading writing packets calls prev shut)
      → AnyValid (
          read_from closing b
            (conn_of addr addrs current index reading writing packets calls prev shut))
  unfolding read_from
  read_fields closing b prev shut [] v =
      if_any shut
        (some (
          conn_of addr addrs current index reading writing [] calls prev shut,
          (b, err err_closed),
        ))
        none (λ e. v) (λ e. tt)
  read_fields closing b prev shut (p ∷ packets) v =
      if_any (shut && closing)
        (some (
          conn_of addr addrs current index reading writing (p ∷ packets) calls prev shut,
          (b, err err_closed),
        ))
        (some (
          conn_of addr addrs current index reading writing packets calls prev shut,
          deliver b p
              (conn_of addr addrs current index reading writing (p ∷ packets) calls prev shut),
        ))
        (λ e. v)
        (λ e. record {
          holds = v.holds;
          apart = v.apart;
          sized = v.sized;
          aimed = v.aimed;
          bounded = omega (arith, v.bounded);
        })
