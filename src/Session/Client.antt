-- ===== src/Session/Client.antt =====
-- udpConn and udpSessionManager of core/client/udp.go. A session object is a position in the list of
-- all that were made, which the map and the callers share; the map is a list of session ids with
-- such positions. A method is one operation, as the mutex makes it.
pub mod Invariant
pub mod Reach
pub mod Drain
use libya_link.Common.{
  ℕ, ◌+◌, ◌%◌, ◌^◌, Bool, true, false, Option, none, some, List, [], ◌∷◌, ◌++◌, ltb, ◌==◌,
  if◌then◌else◌, length, get_elem?, set,
}
use libya_link.Common.Result.{Result, ok, err, panic, ◌>>=◌}
use libya_link.Protocol.Udp.{UdpMessage}
use libya_link.Frag.Defragger.{Defragger, empty_defragger, feed}

abbrev pub udp_message_chan_size : ℕ
udp_message_chan_size = 1024

-- `receive_ch` is what the channel holds; the channel is closed where `closed` is set.
pub record UdpConn : Type 0 where
  pub id : ℕ
  pub d : Defragger
  pub receive_ch : List UdpMessage
  pub closed : Bool

pub record Manager : Type 0 where
  pub objects : List UdpConn
  pub m : List (ℕ × ℕ)
  pub next_id : ℕ
  pub closed : Bool

abbrev pub new_udp_session_manager : Manager
new_udp_session_manager = record { objects = []; m = []; next_id = 1; closed = false }

-- The map's reading and its `delete`.
unfoldable pub lookup : List (ℕ × ℕ) → ℕ → Option ℕ
lookup [] k = none
lookup ((j, r) ∷ m) k = let rest = lookup m k in if j == k then some r else rest

unfoldable pub delete : List (ℕ × ℕ) → ℕ → List (ℕ × ℕ)
delete [] k = []
delete ((j, r) ∷ m) k = let rest = delete m k in if j == k then rest else (j, r) ∷ rest

-- NewUDP; none is ClosedError. The ids are uint32.
unfoldable pub new_udp : Manager → Option ℕ × Manager
new_udp s = if s.closed then (none, s) else (
  some (length s.objects),
  record s {
    objects =
        s.objects
        ++ (record { id = s.next_id; d = empty_defragger; receive_ch = []; closed = false } ∷ []);
    m = (s.next_id, length s.objects) ∷ delete s.m s.next_id;
    next_id = (s.next_id + 1) % 2 ^ 32;
  },
)

-- Into a channel that is open: the message is dropped where the channel is full.
unfoldable pub enqueue : UdpMessage → UdpConn → UdpConn
enqueue msg c =
    if ltb (length c.receive_ch) udp_message_chan_size
    then record c { receive_ch = c.receive_ch ++ (msg ∷ []) }
    else c

-- The panics are the nil pointer, and the send on a closed channel.
unfoldable pub feed_object : UdpMessage → ℕ → Manager → Option UdpConn → Result (Unit {0}) Manager
feed_object msg r s none = panic
feed_object msg r s (some c) =
    if c.closed then panic else ok (record s { objects = set s.objects r (enqueue msg c) })

unfoldable pub feed_session : UdpMessage → Manager → Option ℕ → Result (Unit {0}) Manager
unfolding feed_object
feed_session msg s none = ok s
feed_session msg s (some r) = feed_object msg r s (get_elem? s.objects r)

-- udpSessionManager.feed
unfoldable pub feed_manager : UdpMessage → Manager → Result (Unit {0}) Manager
unfolding feed_session
feed_manager msg s = feed_session msg s (lookup s.m msg.session_id)

unfoldable pub close_object : ℕ → Manager → Option UdpConn → Manager
close_object r s none = s
close_object r s (some c) =
    if c.closed
    then s
    else record s { objects = set s.objects r (record c { closed = true }); m = delete s.m c.id }

-- udpSessionManager.close, and with it udpConn.Close.
unfoldable pub close : ℕ → Manager → Manager
unfolding close_object
close r s = close_object r s (get_elem? s.objects r)

-- The loop `for _, conn := range m.m`, over the entries that the map has before it.
unfoldable pub close_each : List (ℕ × ℕ) → Manager → Manager
close_each [] s = s
close_each ((k, r) ∷ m) s = close_each m (close r s)

unfoldable pub close_cleanup : Manager → Manager
close_cleanup s = record (close_each s.m s) { closed = true }

abbrev pub count : Manager → ℕ
count s = length s.m

-- What Receive returns: the data and the address, or io.EOF; `waits` is the wait at the channel.
pub data Received : Type 0 where
  message : List ℕ → List ℕ → Received
  eof : Received
  waits : Received

-- `rest` is what the loop gives from the defragger `d` on.
unfoldable pub received :
    List UdpMessage
    → UdpConn
    → Defragger
    → Option UdpMessage
    → Result (Unit {0}) (UdpConn × Received)
    → Result (Unit {0}) (UdpConn × Received)
received queue c d none rest = rest
received queue c d (some w) rest =
    ok (record c { d = d; receive_ch = queue }, message w.body w.addr)

unfoldable pub receive_loop : List UdpMessage → UdpConn → Result (Unit {0}) (UdpConn × Received)
unfolding received
receive_loop [] c = ok (record c { receive_ch = [] }, if c.closed then eof else waits)
receive_loop (msg ∷ queue) c = do
  (d, whole) ← feed c.d msg
  received queue c d whole (receive_loop queue (record c { d = d }))

unfoldable pub receive : UdpConn → Result (Unit {0}) (UdpConn × Received)
receive c = receive_loop c.receive_ch c
