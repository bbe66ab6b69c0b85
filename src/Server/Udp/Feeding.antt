-- ===== src/Server/Udp/Feeding.antt =====
-- udpSessionManager.feed of core/server/udp.go, and Feed of a session: the parts that run without
-- another goroutine in between, and the whole.
use libya_link.Common.{
  ℕ, Option, none, some, List, [], ◌∷◌, ◌++◌, ◌==◌, if◌then◌else◌, length, get_elem?, set,
}
use libya_link.Common.Result.{Result, ok, panic, ◌>>=◌}
use libya_link.Protocol.Udp.{UdpMessage}
use libya_link.Frag.Defragger.{feed}
use libya_link.Session.Client.{lookup, delete}
use libya_link.Server.Udp.{
  Entry, Failure, Manager, new_udp_session_entry, Answers, init_conn, close_and_exit,
  session_is_closed, of_io, of_send,
}

-- Where Feed writes a message.
unfoldable pub target : Entry → List ℕ → List ℕ
target e addr = if length e.override_addr == 0 then addr else e.override_addr

-- What Feed comes to: no message yet, an error of initConn, or a write to a connection.
pub data Fed (E : Type 0) : Type 0 where
  incomplete : Fed E
  refused : Failure E → Fed E
  writes : Option ℕ → List ℕ → List ℕ → Fed E

module _ {E : Type 0} where
  -- The beginning of the manager's feed: the session of the id, or a new one in the map.
  unfoldable pub find_or_add : ℕ → ℕ → Manager E → Option ℕ → ℕ × Manager E
  unfolding new_udp_session_entry
  find_or_add now id s (some r) = (r, s)
  find_or_add now id s none = (
    length s.entries,
    record s {
      entries = s.entries ++ (new_udp_session_entry now id ∷ []);
      m = (id, length s.entries) ∷ delete s.m id;
    },
  )

  unfoldable pub session_of : ℕ → ℕ → Manager E → ℕ × Manager E
  unfolding find_or_add
  session_of now id s = find_or_add now id s (lookup s.m id)

  -- The beginning of Feed, up to the message that the defragger gives; a nil pointer is a panic.
  unfoldable pub defrag_entry :
      ℕ
      → UdpMessage
      → ℕ
      → Manager E
      → Option Entry
      → Result (Unit {0}) (Manager E × Option UdpMessage)
  defrag_entry now msg r s none = panic
  defrag_entry now msg r s (some e) = do
    (d, whole) ← feed e.d msg
    ok (record s { entries = set s.entries r (record e { last = now; d = d }) }, whole)

  unfoldable pub defrag :
      ℕ → UdpMessage → ℕ → Manager E → Result (Unit {0}) (Manager E × Option UdpMessage)
  unfolding defrag_entry
  defrag now msg r s = defrag_entry now msg r s (get_elem? s.entries r)

  -- The call of WriteTo. `writes none` would be the call on a nil pointer.
  unfoldable pub write_entry : UdpMessage → Option Entry → Fed E
  unfolding target
  write_entry whole none = writes none whole.body whole.addr
  write_entry whole (some e) = writes e.conn whole.body (target e whole.addr)

  -- initConn behind the dial: an error of DialFunc closes the session, which then exits.
  unfoldable pub after_init : ℕ → UdpMessage → Option (Failure E) × Manager E → Fed E × Manager E
  unfolding write_entry close_and_exit
  after_init r whole (none, s) = (write_entry whole (get_elem? s.entries r), s)
  after_init r whole (some session_is_closed, s) = (refused session_is_closed, s)
  after_init r whole (some (of_io e), s) =
      (refused (of_io e), close_and_exit (some (of_io e)) r s (get_elem? s.entries r))
  after_init r whole (some (of_send e), s) =
      (refused (of_send e), close_and_exit (some (of_send e)) r s (get_elem? s.entries r))

  unfoldable pub feed_whole : Answers E → ℕ → Manager E → Option UdpMessage → Fed E × Manager E
  unfolding after_init
  feed_whole a r s none = (incomplete, s)
  feed_whole a r s (some whole) = after_init r whole (init_conn a whole.addr r s)

  -- udpSessionManager.feed, and with it Feed, where no other goroutine runs in between.
  unfoldable pub feed_manager :
      ℕ → Answers E → UdpMessage → Manager E → Result (Unit {0}) (Fed E × Manager E)
  unfolding session_of feed_whole
  feed_manager now a msg s =
      let (r, s) = session_of now msg.session_id s in
      (do (s, whole) ← defrag now msg r s; ok (feed_whole a r s whole))
