-- ===== src/Hop.antt =====
-- udpHopPacketConn of extras/transport/udphop/conn.go. A socket is a number, and the calls that
-- reach a socket are recorded, the last one first. A goroutine's critical section is one operation.
-- What the sockets answer, the new socket of ListenUDPFunc and the draws of rand.Intn are arguments;
-- buffer sizes are not negative.
pub mod Invariant
pub mod Reach
pub mod Runs
use libya_link.Common.{
  ℕ, ◌+◌, ◌%◌, min, Bool, true, false, ◌&&◌, Option, none, some, List, [], ◌∷◌, ◌++◌, ltb, ◌==◌,
  if◌then◌else◌, length, get_elem?,
}
use libya_link.Common.Result.{Result, ok, err, panic}
use libya_link.Common.Buffer.{overwrite}

abbrev pub packet_queue_size : ℕ
packet_queue_size = 1024

pub data Call : Type 0 where
  opened : ℕ → Call
  closed : ℕ → Call
  read_buffer : ℕ → ℕ → Call
  write_buffer : ℕ → ℕ → Call
  deadline : ℕ → ℕ → Call
  wrote : ℕ → List ℕ → ℕ → Call

-- `net.ErrClosed`, or the error of a socket.
pub data HopError (E : Type 0) : Type 0 where
  err_closed : HopError E
  socket_error : E → HopError E

pub data Packet (E : Type 0) : Type 0 where
  packet : List ℕ → Packet E
  timed_out : E → Packet E

-- What ReadFrom of a socket gives recvLoop.
pub data Received (E : Type 0) : Type 0 where
  datagram : List ℕ → Received E
  timeout : E → Received E
  failure : Received E

-- `addrs` is empty for nil; closing closeChan is the same moment as setting `is_closed`.
pub record HopConn (E : Type 0) : Type 0 where
  pub addr : ℕ
  pub addrs : List ℕ
  pub prev_conn : Option ℕ
  pub current_conn : ℕ
  pub addr_index : ℕ
  pub read_buffer_size : ℕ
  pub write_buffer_size : ℕ
  pub recv_queue : List (Packet E)
  pub is_closed : Bool
  pub calls : List Call

module _ {E : Type 0} where
  -- Behind the checks of the interval; `listened` is none where ListenUDPFunc fails.
  unfoldable pub new_udp_hop_packet_conn : ℕ → List ℕ → Option ℕ → ℕ → Result (Unit {0}) (HopConn E)
  new_udp_hop_packet_conn addr addrs none draw = err tt
  new_udp_hop_packet_conn addr addrs (some conn) draw =
      if length addrs == 0
      then panic
      else ok (record {
        addr = addr;
        addrs = addrs;
        prev_conn = none;
        current_conn = conn;
        addr_index = draw % length addrs;
        read_buffer_size = 0;
        write_buffer_size = 0;
        recv_queue = [];
        is_closed = false;
        calls = opened conn ∷ [];
      })

  abbrev pub call : Call → HopConn E → HopConn E
  call c h = record h { calls = c ∷ h.calls }

  abbrev pub call_prev : (ℕ → Call) → HopConn E → HopConn E
  call_prev c h = elim h.prev_conn [ none ↦ h | some p ↦ call (c p) h ]

  abbrev pub call_if : Bool → Call → HopConn E → HopConn E
  call_if true c h = call c h
  call_if false c h = h

  -- Behind a new socket: close the previous one, move the current one back.
  unfoldable pub move_to : ℕ → HopConn E → HopConn E
  move_to conn h =
      let closing = call_prev closed (call (opened conn) h) in
      let moved = record closing { prev_conn = some h.current_conn; current_conn = conn } in
      call_if (ltb 0 h.write_buffer_size) (write_buffer conn h.write_buffer_size)
        (call_if (ltb 0 h.read_buffer_size) (read_buffer conn h.read_buffer_size) moved)

  unfoldable pub draw_addr : ℕ → HopConn E → Result (Unit {0}) (HopConn E)
  draw_addr draw h =
      if length h.addrs == 0 then panic else ok (record h { addr_index = draw % length h.addrs })

  unfoldable pub hop : Option ℕ → ℕ → HopConn E → Result (Unit {0}) (HopConn E)
  unfolding draw_addr
  hop listened draw h =
      if h.is_closed
      then ok h
      else elim listened [ none ↦ ok h | some conn ↦ draw_addr draw (move_to conn h) ]

  -- One round of recvLoop, and whether the loop goes on; none is the send that waits.
  unfoldable pub recv_round : Received E → HopConn E → Option (HopConn E × Bool)
  recv_round (datagram bytes) h =
      if ltb (length h.recv_queue) packet_queue_size
      then some (record h { recv_queue = h.recv_queue ++ (packet bytes ∷ []) }, true)
      else some (h, true)
  recv_round (timeout e) h =
      if ltb (length h.recv_queue) packet_queue_size
      then some (record h { recv_queue = h.recv_queue ++ (timed_out e ∷ []) }, false)
      else none
  recv_round failure h = some (h, false)

  -- What ReadFrom makes of a packet: the buffer, and how much of it is the packet's.
  unfoldable pub deliver : List ℕ → Packet E → HopConn E → List ℕ × Result (HopError E) (ℕ × ℕ)
  deliver b (timed_out e) h = (b, err (socket_error e))
  deliver b (packet bytes) h = (overwrite b bytes, ok (min (length b) (length bytes), h.addr))

  -- `closing` is the choice of select where both channels are ready; none is the wait.
  unfoldable pub read_from :
      Bool → List ℕ → HopConn E → Option (HopConn E × (List ℕ × Result (HopError E) (ℕ × ℕ)))
  unfolding deliver
  read_from closing b h = elim h.recv_queue [
    | [] ↦ if h.is_closed then some (h, (b, err err_closed)) else none
    | p ∷ queue ↦
        if h.is_closed && closing
        then some (h, (b, err err_closed))
        else some (record h { recv_queue = queue }, deliver b p h)
  ]

  -- `answer` is what the socket's WriteTo returns.
  unfoldable pub write_to : List ℕ → Result E ℕ → HopConn E → HopConn E × Result (HopError E) ℕ
  write_to b answer h =
      if h.is_closed then (h, err err_closed) else elim (get_elem? h.addrs h.addr_index) [
        | none ↦ (h, panic)
        | some addr ↦ (
          call (wrote h.current_conn b addr) h,
          (elim answer [ ok n ↦ ok n | err e ↦ err (socket_error e) | panic ↦ panic ]),
        )
      ]

  -- `answer` is the error of the current socket, which Close and the setters return.
  unfoldable pub close : Option E → HopConn E → HopConn E × Option E
  close answer h = if h.is_closed then (h, none) else (
    record (call (closed h.current_conn) (call_prev closed h)) { addrs = []; is_closed = true },
    answer,
  )

  unfoldable pub set_deadline : ℕ → Option E → HopConn E → HopConn E × Option E
  set_deadline t answer h =
      (call (deadline h.current_conn t) (call_prev (λ p. deadline p t) h), answer)

  unfoldable pub set_read_buffer : ℕ → Option E → HopConn E → HopConn E × Option E
  set_read_buffer bytes answer h = (
    call (read_buffer h.current_conn bytes)
        (call_prev (λ p. read_buffer p bytes) (record h { read_buffer_size = bytes })),
    answer,
  )

  unfoldable pub set_write_buffer : ℕ → Option E → HopConn E → HopConn E × Option E
  set_write_buffer bytes answer h = (
    call (write_buffer h.current_conn bytes)
        (call_prev (λ p. write_buffer p bytes) (record h { write_buffer_size = bytes })),
    answer,
  )
