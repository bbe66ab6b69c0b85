-- ===== src/Hop/Reach.antt =====
-- The hopping connection in the runs that begin with a new one.
use libya_link.Common.{
  ℕ, zero, suc, ◌%◌, ◌<◌, ◌≡◌, refl, sym, ap, ◌∙◌, ◌≢◌, Bool, true, false, Option, none, some, List,
  [], ◌∷◌, arith, ltb, length, get_elem?,
}
use mathlib.Core.Path.{subst}
use native.Mathlib.Nat.{mod-lt}
use libya_link.Common.Result.{Result, ok, err, panic}
use libya_link.Hop.{
  Call, call, call_prev, call_if, write_buffer, read_buffer, opened, closed, HopConn,
  new_udp_hop_packet_conn, move_to, draw_addr, hop, write_to,
}
use libya_link.Hop.Invariant.{
  IsValid, AnyValid, IsFresh, Step, hops, receives, reads, writes, closes, sets_deadline, sets_read,
  sets_write, Run, done, step, close_fields, write_to_fields, deadline_fields, read_buffer_fields,
  write_buffer_fields, recv_fields, read_fields, hop_fields,
}

ok-injective : {X : Type 0} (x y : X) → ◌≡◌ {A = Result (Unit {0}) X} (ok x) (ok y) → x ≡ y
ok-injective x y e = ap (λ r. elim r [ ok z ↦ z | err z ↦ x | panic ↦ x ]) e

found : (xs : List ℕ) (i : ℕ) → i < length xs → (x : ℕ) × (get_elem? xs i ≡ some x)
found [] i h = elim h [ ]
found (x ∷ xs) zero h = (x, refl)
found (x ∷ xs) (suc i) h = found xs i (omega arith)

module _ {E : Type 0} where
  call_if-addrs : (t : Bool) (c : Call) (h : HopConn E) → (call_if t c h).addrs ≡ h.addrs
  call_if-addrs true c h = refl
  call_if-addrs false c h = refl

  call_prev-addrs :
      (c : ℕ → Call) (h : HopConn E) (prev : Option ℕ)
      → (call_prev c (record h { prev_conn = prev })).addrs ≡ h.addrs
  call_prev-addrs c h none = refl
  call_prev-addrs c h (some p) = refl

  move_to-addrs : (conn : ℕ) (h : HopConn E) → (move_to conn h).addrs ≡ h.addrs
  unfolding move_to
  move_to-addrs conn h =
      call_if-addrs (ltb 0 h.write_buffer_size) (write_buffer conn h.write_buffer_size) (
        call_if (ltb 0 h.read_buffer_size) (read_buffer conn h.read_buffer_size)
          (record (call_prev closed (call (opened conn) h)) {
            prev_conn = some h.current_conn;
            current_conn = conn;
          }))
      ∙ call_if-addrs (ltb 0 h.read_buffer_size) (read_buffer conn h.read_buffer_size)
          (record (call_prev closed (call (opened conn) h)) {
            prev_conn = some h.current_conn;
            current_conn = conn;
          })
      ∙ call_prev-addrs closed (call (opened conn) h) h.prev_conn

  hop_open :
      (conn draw : ℕ) (h : HopConn E)
      → h.is_closed ≡ false
      → 0 < length h.addrs
      → hop (some conn) draw h ≡ ok (record (move_to conn h) { addr_index = draw % length h.addrs })
  unfolding hop draw_addr
  hop_open conn draw h e some_addr =
      let same : length (move_to conn h).addrs ≡ length h.addrs =
        ap length (move_to-addrs conn h) in
      ground (arith, same)

  hop_closed :
      (listened : Option ℕ) (draw : ℕ) (h : HopConn E)
      → h.is_closed ≡ true
      → hop listened draw h ≡ ok h
  unfolding hop
  hop_closed listened draw h e = ground arith

  hop-none : (draw : ℕ) (h : HopConn E) → hop none draw h ≡ ok h
  unfolding hop
  hop-none draw h = ground arith

  hop-IsValid :
      (conn draw : ℕ) (h : HopConn E) (shut : Bool)
      → IsFresh conn h
      → IsValid (record h { is_closed = shut })
      → (h' : HopConn E) × (hop (some conn) draw (record h { is_closed = shut }) ≡ ok h')
        × IsValid h'
  hop-IsValid conn draw h true fresh v = (
    record h { is_closed = true },
    hop_closed (some conn) draw (record h { is_closed = true }) refl,
    v,
  )
  hop-IsValid conn draw h false fresh v = (
    record (move_to conn (record h { is_closed = false })) { addr_index = draw % length h.addrs },
    hop_open conn draw (record h { is_closed = false }) refl (omega (arith, v.aimed refl)),
    hop_fields h.addr h.addrs h.current_conn h.addr_index h.read_buffer_size h.write_buffer_size
        h.recv_queue h.calls conn draw h.prev_conn fresh v,
  )

  step-IsValid : (h h' : HopConn E) → Step h h' → IsValid h → IsValid h'
  step-IsValid _ _ (hops none draw h h' fresh e) v =
      subst IsValid (ok-injective h h' (sym (hop-none draw h) ∙ e)) v
  step-IsValid _ _ (hops (some conn) draw h h' fresh e) v =
      let (m, f, w) = hop-IsValid conn draw h h.is_closed (fresh conn refl) v in
      subst IsValid (ok-injective m h' (sym f ∙ e)) w
  step-IsValid _ _ (receives r h h' goes e) v =
      recv_fields h.addr h.addrs h.current_conn h.addr_index h.read_buffer_size h.write_buffer_size
        h.recv_queue h.calls r h.prev_conn h.is_closed h' goes e v
  step-IsValid _ _ (reads closing b h h' got e) v = subst AnyValid e (
      read_fields h.addr h.addrs h.current_conn h.addr_index h.read_buffer_size h.write_buffer_size
        h.recv_queue h.calls closing b h.prev_conn h.is_closed h.recv_queue v)
  step-IsValid _ _ (writes b answer h) v =
      write_to_fields h.addr h.addrs h.current_conn h.addr_index h.read_buffer_size
        h.write_buffer_size h.recv_queue h.calls b answer h.prev_conn h.is_closed v
  step-IsValid _ _ (closes answer h) v =
      close_fields h.addr h.addrs h.current_conn h.addr_index h.read_buffer_size h.write_buffer_size
        h.recv_queue h.calls answer h.prev_conn h.is_closed v
  step-IsValid _ _ (sets_deadline t answer h) v =
      deadline_fields h.addr h.addrs h.current_conn h.addr_index h.read_buffer_size
        h.write_buffer_size h.recv_queue h.calls t answer h.prev_conn h.is_closed v
  step-IsValid _ _ (sets_read n answer h) v =
      read_buffer_fields h.addr h.addrs h.current_conn h.addr_index h.read_buffer_size
        h.write_buffer_size h.recv_queue h.calls n answer h.prev_conn h.is_closed v
  step-IsValid _ _ (sets_write n answer h) v =
      write_buffer_fields h.addr h.addrs h.current_conn h.addr_index h.read_buffer_size
        h.write_buffer_size h.recv_queue h.calls n answer h.prev_conn h.is_closed v

  Run-IsValid : (h h' : HopConn E) → Run h h' → IsValid h → IsValid h'
  Run-IsValid _ _ (done h) v = v
  Run-IsValid _ _ (step h m h' r s) v = step-IsValid m h' s (Run-IsValid h m r v)

  first-IsValid :
      (addr : ℕ) (addrs : List ℕ) (conn draw : ℕ)
      → 0 < length addrs
      → IsValid {E = E} (record {
        addr = addr;
        addrs = addrs;
        prev_conn = none;
        current_conn = conn;
        addr_index = draw % length addrs;
        read_buffer_size = 0;
        write_buffer_size = 0;
        recv_queue = [];
        is_closed = false;
        calls = opened conn ∷ [];
      })
  first-IsValid addr addrs conn draw some_addr = record {
    holds = refl;
    apart = λ p e h. cc;
    sized = ground arith;
    aimed = λ e. mod-lt draw some_addr;
    bounded = omega arith;
  }

  new-IsValid :
      (addr : ℕ) (addrs : List ℕ) (listened : Option ℕ) (draw : ℕ) (h : HopConn E)
      → new_udp_hop_packet_conn addr addrs listened draw ≡ ok h
      → IsValid h
  unfolding new_udp_hop_packet_conn
  new-IsValid addr addrs none draw h e = cc
  new-IsValid addr [] (some conn) draw h e = cc
  new-IsValid addr (a ∷ addrs) (some conn) draw h e =
      subst IsValid (ok-injective _ h (sym (ground arith) ∙ e))
        (first-IsValid addr (a ∷ addrs) conn draw (omega arith))

  -- In every run from a new connection, whose new sockets are none of the open ones: the sockets
  -- opened and not closed are the current and the previous one, and none after Close; the current
  -- one was last asked for the read buffer size that was set; the address index is in range until
  -- Close; and the queue holds at most packetQueueSize packets.
  pub reachable-IsValid :
      (addr : ℕ) (addrs : List ℕ) (listened : Option ℕ) (draw : ℕ) (h h' : HopConn E)
      → new_udp_hop_packet_conn addr addrs listened draw ≡ ok h
      → Run h h'
      → IsValid h'
  reachable-IsValid addr addrs listened draw h h' e r =
      Run-IsValid h h' r (new-IsValid addr addrs listened draw h e)

  write_lands :
      (b : List ℕ) (answer : Result E ℕ) (h : HopConn E) (shut : Bool)
      → answer ≢ panic
      → IsValid (record h { is_closed = shut })
      → (write_to b answer (record h { is_closed = shut })).1 ≢ panic
  unfolding write_to
  write_lands b answer h true lands v = λ e. cc
  write_lands b (ok n) h false lands v =
      let (a, s) = found h.addrs h.addr_index (v.aimed refl) in rw s (λ e. cc)
  write_lands b (err x) h false lands v =
      let (a, s) = found h.addrs h.addr_index (v.aimed refl) in rw s (λ e. cc)
  write_lands b panic h false lands v = absurd (lands refl)

  hop_lands :
      (listened : Option ℕ) (draw : ℕ) (h : HopConn E) (shut : Bool)
      → IsValid (record h { is_closed = shut })
      → hop listened draw (record h { is_closed = shut }) ≢ panic
  hop_lands none draw h shut v = rw (hop-none draw (record h { is_closed = shut })) (λ e. cc)
  hop_lands (some conn) draw h true v =
      rw (hop_closed (some conn) draw (record h { is_closed = true }) refl) (λ e. cc)
  hop_lands (some conn) draw h false v =
      rw (hop_open conn draw (record h { is_closed = false }) refl (omega (arith, v.aimed refl)))
        (λ e. cc)

  -- In every run from a new connection neither a write, where the socket answers with a count or an
  -- error, nor a hop panics: Addrs is read and its length drawn from only while it is not nil.
  pub reachable_never_panics :
      (addr : ℕ) (addrs : List ℕ) (first listened : Option ℕ) (draw redraw : ℕ) (h h' : HopConn E)
      (b : List ℕ) (answer : Result E ℕ)
      → new_udp_hop_packet_conn addr addrs first draw ≡ ok h
      → Run h h'
      → answer ≢ panic
      → ((write_to b answer h').1 ≢ panic) × (hop listened redraw h' ≢ panic)
  reachable_never_panics addr addrs first listened draw redraw h h' b answer e r lands =
      let v : IsValid h' = reachable-IsValid addr addrs first draw h h' e r in
      (write_lands b answer h' h'.is_closed lands v, hop_lands listened redraw h' h'.is_closed v)
