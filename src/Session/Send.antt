-- ===== src/Session/Send.antt =====
-- SendMessage of core/client/client.go and core/server/server.go, and udpConn.Send of
-- core/client/udp.go and sendMessageAutoFrag of core/server/udp.go, which send a message whole, or in
-- fragments where the connection says that it is too large. What SendDatagram answers is a parameter,
-- and so are the traffic logger and the draw of rand.Intn.
pub mod Limit
use libya_link.Common.{
  ℕ, ◌+◌, ◌%◌, ◌<◌, Bool, Option, none, some, List, [], ◌∷◌, if◌then◌else◌, length, take,
}
use libya_link.Common.Result.{Result, ok, ◌>>=◌}
use libya_link.Protocol.Errors.{Error}
use libya_link.Protocol.Quic.{QuicVarint}
use libya_link.Protocol.Udp.{UdpMessage, serialize}
use libya_link.Frag.Split.{OutOfFuel, frag_udp_message}

-- quic.DatagramTooLargeError with its MaxDatagramPayloadSize, or any other error.
pub data SendError (E : Type 0) : Type 0 where
  too_large : ℕ → SendError E
  other : E → SendError E

-- What SendMessage makes of a message. It answers nil where it is sent, and where it is dropped
-- because the buffer is too small.
pub data Answer (E : Type 0) : Type 0 where
  sent dropped : Answer E
  failed : SendError E → Answer E

abbrev pub answer_of : {E : Type 0} → Option (SendError E) → Answer E
answer_of none = sent
answer_of (some e) = failed e

-- SendMessage of the client, over `buf`, which is MaxUDPSize bytes long. `conn` is SendDatagram.
unfoldable pub client_send_message :
    {E : Type 0}
    → QuicVarint
    → (List ℕ → Option (SendError E))
    → List ℕ
    → UdpMessage
    → Result Error (Answer E)
client_send_message q conn buf m = do
  (buf, n) ← serialize q m buf
  ok (elim n [ none ↦ dropped | some n ↦ answer_of (conn (take n buf)) ])

-- SendMessage of the server. `log` is what the traffic logger answers to the length of the data,
-- always true where there is none, and `disconnect` is errDisconnect.
unfoldable pub send_message :
    {E : Type 0}
    → QuicVarint
    → (ℕ → Bool)
    → E
    → (List ℕ → Option (SendError E))
    → List ℕ
    → UdpMessage
    → Result Error (Answer E)
unfolding client_send_message
send_message q log disconnect conn buf m =
    if log (length m.body) then client_send_message q conn buf m else ok (failed (other disconnect))

-- The messages that were sent, and the error that ends the sending.
abbrev pub Sent : Type 0 → Type 0
Sent E = List UdpMessage × Option (SendError E)

-- `uint16(rand.Intn(0xFFFF)) + 1`
abbrev pub packet_id_of : ℕ → ℕ
packet_id_of draw = draw % 65535 + 1

-- `io` is SendMessage.
module _ {E : Type 0} (q : QuicVarint) (io : UdpMessage → Answer E) where
  unfoldable pub send_each : List UdpMessage → Sent E
  send_each [] = ([], none)
  send_each (f ∷ fs) =
      let rest = send_each fs in
      elim (io f) [ sent ↦ (f ∷ rest.0, rest.1) | dropped ↦ rest | failed e ↦ ([], some e) ]

  unfoldable pub retry : ℕ → UdpMessage → Answer E → Result OutOfFuel (Sent E)
  retry draw m sent = ok (m ∷ [], none)
  retry draw m dropped = ok ([], none)
  retry draw m (failed (other e)) = ok ([], some (other e))
  retry draw m (failed (too_large max)) = do
    fs ← frag_udp_message q (record m { packet_id = packet_id_of draw }) max
    ok (send_each fs)

  unfoldable pub send_message_auto_frag : ℕ → UdpMessage → Result OutOfFuel (Sent E)
  unfolding retry
  send_message_auto_frag draw m = retry draw m (io m)

  -- udpConn.Send, by the session's id.
  unfoldable pub send : ℕ → ℕ → List ℕ → List ℕ → Result OutOfFuel (Sent E)
  unfolding send_message_auto_frag
  send draw id bytes addr = send_message_auto_frag draw (record {
    session_id = id;
    packet_id = 0;
    frag_id = 0;
    frag_count = 1;
    addr = addr;
    body = bytes;
  })
