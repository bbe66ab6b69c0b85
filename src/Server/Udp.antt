-- ===== src/Server/Udp.antt =====
-- udpSessionEntry and udpSessionManager of core/server/udp.go. A session object is a position in the
-- list of all that were made; the map is a list of session ids with such positions. A definition is
-- what one goroutine does under a lock: other goroutines run between two of them. Hook, UDP and
-- ReadFrom of the io and of the connections are not modelled: what they answer is an argument.
pub mod Counting
pub mod Invariant
pub mod Feeding
pub mod Keeps
pub mod Exits
pub mod Changes
pub mod Reach
pub mod Lifetime
pub mod Cleanup
pub mod Address
pub mod Counted
pub mod Whole
pub mod Loops
use libya_link.Common.{
  ℕ, ◌+◌, ◌⊎◌, inl, inr, Bool, true, false, not, Option, none, some, List, [], ◌∷◌, ◌++◌, ◌==◌,
  if◌then◌else◌, get_elem?, set,
}
use libya_link.Common.Strings.{str_eq}
use libya_link.Common.Result.{Result, ok, err, panic, ◌>>=◌}
use libya_link.Protocol.Quic.{QuicVarint}
use libya_link.Protocol.Udp.{UdpMessage}
use libya_link.Frag.Split.{OutOfFuel}
use libya_link.Frag.Defragger.{Defragger, empty_defragger, feed}
use libya_link.Session.Client.{lookup, delete}
use libya_link.Session.Send.{SendError, send_message_auto_frag}

-- The strings are lists of bytes; `conn` is the number of a connection, `none` for nil.
pub record Entry : Type 0 where
  pub id : ℕ
  pub override_addr : List ℕ
  pub original_addr : List ℕ
  pub d : Defragger
  pub last : ℕ
  pub conn : Option ℕ
  pub closed : Bool

-- The errors: `errors.New("session is closed")`, one of the hook, of the dial or of ReadFrom, and
-- one of SendMessage.
pub data Failure (E : Type 0) : Type 0 where
  session_is_closed : Failure E
  of_io : E → Failure E
  of_send : SendError E → Failure E

-- The calls of the event logger; `none` is the nil error.
pub data Event (E : Type 0) : Type 0 where
  logged_new : ℕ → List ℕ → Event E
  logged_close : ℕ → Option (Failure E) → Event E

-- `entries` are all session objects that were made, `exiting` those whose CloseWithErr has unlocked
-- and not yet called ExitFunc, and `conns` the connections that were dialed and not closed.
pub record Manager (E : Type 0) : Type 0 where
  pub entries : List Entry
  pub m : List (ℕ × ℕ)
  pub exiting : List ℕ
  pub conns : List ℕ
  pub events : List (Event E)

abbrev pub is_nil : Option ℕ → Bool
is_nil none = true
is_nil (some c) = false

-- A list without the first of the places where an element stands.
abbrev pub remove_one : List ℕ → ℕ → List ℕ
remove_one [] k = []
remove_one (j ∷ js) k = let rest = remove_one js k in if j == k then js else j ∷ rest

abbrev pub close_conn : Option ℕ → List ℕ → List ℕ
close_conn none conns = conns
close_conn (some c) conns = remove_one conns c

unfoldable pub new_udp_session_entry : ℕ → ℕ → Entry
new_udp_session_entry now id = record {
  id = id;
  override_addr = [];
  original_addr = [];
  d = empty_defragger;
  last = now;
  conn = none;
  closed = false;
}

-- What the hook and the dial answer: an error, or the address that the hook leaves, and the
-- connection.
pub record Answers (E : Type 0) : Type 0 where
  pub hook : E ⊎ List ℕ
  pub udp : E ⊎ ℕ

-- The entry with its connection, and with the address override if the hook changed the address.
unfoldable pub connected : List ℕ → List ℕ → ℕ → Entry → Entry
connected addr actual_addr conn e =
    if str_eq addr actual_addr
    then record e { conn = some conn }
    else record e { conn = some conn; override_addr = actual_addr; original_addr = addr }

module _ {E : Type 0} where
  abbrev pub new_udp_session_manager : Manager E
  new_udp_session_manager = record { entries = []; m = []; exiting = []; conns = []; events = [] }

  -- CloseWithErr up to the call of ExitFunc, of an object `e` at the position `r`.
  unfoldable pub close_entry : ℕ → Manager E → Option Entry → Manager E
  close_entry r s none = s
  close_entry r s (some e) = if e.closed then s else record s {
    entries = set s.entries r (record e { closed = true });
    exiting = r ∷ s.exiting;
    conns = close_conn e.conn s.conns;
  }

  unfoldable pub close_with_err : ℕ → Manager E → Manager E
  unfolding close_entry
  close_with_err r s = close_entry r s (get_elem? s.entries r)

  -- ExitFunc: the event, and the delete.
  unfoldable pub exit_entry : ℕ → Option (Failure E) → Manager E → Option Entry → Manager E
  exit_entry r error s none = s
  exit_entry r error s (some e) = record s {
    m = delete s.m e.id;
    exiting = remove_one s.exiting r;
    events = s.events ++ (logged_close e.id error ∷ []);
  }

  unfoldable pub exit_func : ℕ → Option (Failure E) → Manager E → Manager E
  unfolding exit_entry
  exit_func r error s = exit_entry r error s (get_elem? s.entries r)

  -- DialFunc: what it answers, and the events after it. The event is logged before the dial.
  unfoldable pub dial :
      ℕ → List ℕ → E ⊎ ℕ → List (Event E) → (Failure E ⊎ (ℕ × List ℕ)) × List (Event E)
  dial id addr (inl e) events = (inl (of_io e), events ++ (logged_new id addr ∷ []))
  dial id addr (inr conn) events = (inr (conn, addr), events ++ (logged_new id addr ∷ []))

  unfoldable pub hook_and_dial :
      ℕ → E ⊎ List ℕ → E ⊎ ℕ → List (Event E) → (Failure E ⊎ (ℕ × List ℕ)) × List (Event E)
  unfolding dial
  hook_and_dial id (inl e) udp events = (inl (of_io e), events)
  hook_and_dial id (inr addr) udp events = dial id addr udp events

  unfoldable pub dial_func :
      ℕ → Answers E → List (Event E) → (Failure E ⊎ (ℕ × List ℕ)) × List (Event E)
  unfolding hook_and_dial
  dial_func id a events = hook_and_dial id a.hook a.udp events

  -- What follows DialFunc under the lock.
  unfoldable pub use_dialed :
      ℕ → List ℕ → Manager E → Entry → Failure E ⊎ (ℕ × List ℕ) → Option (Failure E) × Manager E
  unfolding connected
  use_dialed r addr s e (inl error) = (some error, s)
  use_dialed r addr s e (inr (conn, actual_addr)) = (
    none,
    record s {
      entries = set s.entries r (connected addr actual_addr conn e);
      conns = conn ∷ s.conns;
    },
  )

  -- The test of Feed for a connection, and initConn up to the call of CloseWithErr; only the
  -- goroutine of Feed sets a connection. The answer is the error, `none` for nil.
  unfoldable pub init_entry :
      Answers E → List ℕ → ℕ → Manager E → Option Entry → Option (Failure E) × Manager E
  unfolding dial_func use_dialed
  init_entry a addr r s none = (none, s)
  init_entry a addr r s (some e) =
      let (answer, events) = dial_func e.id a s.events in
      if not (is_nil e.conn)
      then (none, s)
      else if e.closed
      then (some session_is_closed, s)
      else use_dialed r addr (record s { events = events }) e answer

  unfoldable pub init_conn : Answers E → List ℕ → ℕ → Manager E → Option (Failure E) × Manager E
  unfolding init_entry
  init_conn a addr r s = init_entry a addr r s (get_elem? s.entries r)

  -- CloseWithErr, where no other goroutine runs before ExitFunc.
  unfoldable pub close_and_exit : Option (Failure E) → ℕ → Manager E → Option Entry → Manager E
  unfolding close_entry exit_func
  close_and_exit error r s none = s
  close_and_exit error r s (some e) =
      if e.closed then s else exit_func r error (close_entry r s (some e))
