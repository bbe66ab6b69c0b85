-- ===== src/Server/Udp/Loops.antt =====
-- cleanup and the receive loop of core/server/udp.go.
use libya_link.Common.{
  ℕ, ◌-◌, ◌⊎◌, inl, inr, Bool, not, ◌||◌, Option, none, some, List, [], ◌∷◌, ltb, ◌==◌,
  if◌then◌else◌, length, get_elem?, set,
}
use libya_link.Common.Result.{Result, ok, panic, ◌>>=◌}
use libya_link.Protocol.Quic.{QuicVarint}
use libya_link.Protocol.Udp.{UdpMessage}
use libya_link.Frag.Split.{OutOfFuel}
use libya_link.Session.Send.{Answer, SendError, send_message_auto_frag}
use libya_link.Server.Udp.{Entry, Failure, Manager, close_and_exit, of_io, of_send}

-- The loop over the map in cleanup, in an order of its entries.
unfoldable pub timed_out : Bool → ℕ → ℕ → List Entry → List (ℕ × ℕ) → List ℕ
timed_out idle_only now timeout entries [] = []
timed_out idle_only now timeout entries ((k, r) ∷ m) =
    let rest = timed_out idle_only now timeout entries m in
    elim (get_elem? entries r) [
      | none ↦ rest
      | some e ↦ if not idle_only || ltb timeout (now - e.last) then r ∷ rest else rest
    ]

-- The address of a message that the receive loop makes of a packet.
unfoldable pub reply_addr : Entry → List ℕ → List ℕ
reply_addr e addr = if length e.original_addr == 0 then addr else e.original_addr

module _ {E : Type 0} where
  -- The second loop, where no other goroutine runs in between. A session that was closed before
  -- does not exit again.
  unfoldable pub close_each : List ℕ → Manager E → Manager E
  unfolding close_and_exit
  close_each [] s = s
  close_each (r ∷ rs) s = close_each rs (close_and_exit none r s (get_elem? s.entries r))

  unfoldable pub cleanup : Bool → ℕ → ℕ → Manager E → Manager E
  unfolding timed_out close_each
  cleanup idle_only now timeout s = close_each (timed_out idle_only now timeout s.entries s.m) s

  unfoldable pub count : Manager E → ℕ
  count s = length s.m

  abbrev pub sent_error : Option (SendError E) → Option (Failure E)
  sent_error none = none
  sent_error (some e) = some (of_send e)

  -- One round of the receive loop on what ReadFrom answers, with the error that CloseWithErr is then
  -- called with. `draw` is what rand.Intn answers.
  unfoldable pub receive_entry :
      (q : QuicVarint) (io : UdpMessage → Answer E)
      → ℕ
      → ℕ
      → ℕ
      → E ⊎ (List ℕ × List ℕ)
      → Manager E
      → Option Entry
      → Result OutOfFuel (Manager E × Option (Failure E))
  unfolding reply_addr
  receive_entry q io now draw r answer s none = panic
  receive_entry q io now draw r (inl e) s (some entry) = ok (s, some (of_io e))
  receive_entry q io now draw r (inr (bytes, addr)) s (some entry) = do
    (sent, error) ← send_message_auto_frag q io draw (record {
      session_id = entry.id;
      packet_id = 0;
      frag_id = 0;
      frag_count = 1;
      addr = reply_addr entry addr;
      body = bytes;
    })
    ok (record s { entries = set s.entries r (record entry { last = now }) }, sent_error error)

  unfoldable pub receive_round :
      (q : QuicVarint) (io : UdpMessage → Answer E)
      → ℕ
      → ℕ
      → ℕ
      → E ⊎ (List ℕ × List ℕ)
      → Manager E
      → Result OutOfFuel (Manager E × Option (Failure E))
  unfolding receive_entry
  receive_round q io now draw r answer s =
      receive_entry q io now draw r answer s (get_elem? s.entries r)
