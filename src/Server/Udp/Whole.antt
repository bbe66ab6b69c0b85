-- ===== src/Server/Udp/Whole.antt =====
-- udpSessionManager.feed of core/server/udp.go as a whole, as a run of its parts.
use libya_link.Common.{
  ℕ, ◌<◌, ◌≡◌, refl, sym, ap, ◌∙◌, ◌⊎◌, inl, inr, true, false, not, Option, none, some, List, ◌∷◌,
  arith, if◌then◌else◌, Bool-cases, get_elem?, set, get_elem?-set_self,
}
use mathlib.Core.Option.{some-injective}
use mathlib.Core.Path.{subst}
use libya_link.Session.Client.{lookup}
use libya_link.Server.Udp.{
  Entry, Manager, Failure, close_conn, close_entry, close_with_err, exit_func,
  new_udp_session_entry,
}
use libya_link.Server.Udp.Counting.{times, found_inside, found_last}
use libya_link.Server.Udp.Invariant.{IsValid}
use libya_link.Server.Udp.Feeding.{find_or_add, session_of}
use libya_link.Common.Result.{ok}
use libya_link.Protocol.Udp.{UdpMessage}
use libya_link.Server.Udp.{
  Answers, connected, use_dialed, init_entry, init_conn, is_nil, dial_func, session_is_closed,
  new_udp_session_manager,
}
use libya_link.Server.Udp.Feeding.{defrag_entry, defrag}
use libya_link.Server.Udp.Changes.{connected-fields, by_tests}
use libya_link.Frag.Defragger.Total.{IsCounted, feed-IsCounted}
use libya_link.Server.Udp.{close_and_exit, of_io, of_send}
use libya_link.Server.Udp.Feeding.{
  Fed, incomplete, refused, writes, write_entry, after_init, feed_whole, feed_manager,
}
use libya_link.Server.Udp.Counted.{AreCounted, Run-AreCounted}
use libya_link.Server.Udp.Reach.{
  finds, defrags, connects, closes, exits, Run, done, step, server_sessions-Run-IsValid,
}

-- Feed waits for fragments, is refused, or writes to a connection.
abbrev pub Sound : {E : Type 0} → Fed E → Type 0
Sound incomplete = Unit
Sound (refused f) = Unit
Sound (writes conn bytes addr) = is_nil conn ≡ false

write_entry-Sound :
    (E : Type 0) (whole : UdpMessage) (o : Option Entry) (e : Entry)
    → o ≡ some e
    → is_nil e.conn ≡ false
    → Sound (write_entry {E = E} whole o)
unfolding write_entry
write_entry-Sound E whole none e h c = cc
write_entry-Sound E whole (some f) e h c =
    ap (λ (x : Entry). is_nil x.conn) (some-injective f e h) ∙ c

module _ {E : Type 0} where
  -- The session that is found is there.
  find_or_add-there :
      (now id : ℕ) (s : Manager E) (o : Option ℕ)
      → lookup s.m id ≡ o
      → IsValid s
      → AreCounted s.entries
      → (e : Entry) × (get_elem? (find_or_add now id s o).1.entries (find_or_add now id s o).0
          ≡ some e)
        × IsCounted e.d
  unfolding find_or_add new_udp_session_entry
  find_or_add-there now id s none h v counted = (
    new_udp_session_entry now id,
    found_last s.entries (new_udp_session_entry now id),
    record { few = omega arith; counted = refl },
  )
  find_or_add-there now id s (some r) h v counted =
      let (e, g, i, l) = v.named id r h in (e, g, counted r e g)

  defrag-ends :
      (now : ℕ) (msg : UdpMessage) (r : ℕ) (s : Manager E) (e : Entry)
      → get_elem? s.entries r ≡ some e
      → IsCounted e.d
      → msg.frag_count < 256
      → (s' : Manager E) × (whole : Option UdpMessage) × (defrag now msg r s ≡ ok (s', whole))
        × ((e' : Entry) × (get_elem? s'.entries r ≡ some e'))
  unfolding defrag defrag_entry
  defrag-ends now msg r s e g v small =
      let (d, out, f, w) = feed-IsCounted e.d msg v small in
      let e' : Entry = record e { last = now; d = d } in
      (
        record s { entries = set s.entries r e' },
        out,
        ap (defrag_entry now msg r s) g ∙ rw f refl,
        (e', get_elem?-set_self s.entries r e' (found_inside s.entries r e g)),
      )

  close_and_exit-Run :
      (error : Option (Failure E)) (r : ℕ) (s0 s : Manager E) (o : Option Entry)
      → get_elem? s.entries r ≡ o
      → Run s0 s
      → Run s0 (close_and_exit error r s o)
  unfolding close_and_exit close_with_err close_entry
  close_and_exit-Run error r s0 s none g run = run
  close_and_exit-Run error r s0 s (some e) g run = elim (Bool-cases e.closed) [
    | inl t ↦ rw t run
    | inr t ↦
        let closing : close_with_err r s ≡ close_entry r s (some e) = ap (close_entry r s) g in
        let next : Run s0 (close_entry r s (some e)) =
          subst (Run s0) closing (step s0 s _ run (closes r s)) in
        let shut : close_entry r s (some e) ≡ record s {
          entries = set s.entries r (record e { closed = true });
          exiting = r ∷ s.exiting;
          conns = close_conn e.conn s.conns;
        } =
          rw t refl in
        let leaves : 0 < times r (close_entry r s (some e)).exiting =
          subst (λ (x : Manager E). 0 < times r x.exiting) (sym shut) (ground arith) in
        ap-run t (step s0 _ _ next (exits r error _ leaves))
  ]
    where
      ap-run :
          e.closed ≡ false
          → Run s0 (exit_func r error (close_entry r s (some e)))
          → Run s0 (close_and_exit error r s (some e))
      ap-run t x =
          subst (λ b. Run s0 (if b then s else exit_func r error (close_entry r s (some e))))
            (sym t) x

  -- At the position there is a session with a connection.
  abbrev Connected : ℕ → Manager E → Type 0
  Connected r s = (e : Entry) × (get_elem? s.entries r ≡ some e) × (is_nil e.conn ≡ false)

  use_dialed-Connected :
      (r : ℕ) (addr : List ℕ) (s : Manager E) (e : Entry) (answer : Failure E ⊎ (ℕ × List ℕ))
      → get_elem? s.entries r ≡ some e
      → (use_dialed r addr s e answer).0 ≡ none
      → Connected r (use_dialed r addr s e answer).1
  unfolding use_dialed
  use_dialed-Connected r addr s e (inl error) g h = cc
  use_dialed-Connected r addr s e (inr (conn, actual)) g h = (
    connected addr actual conn e,
    get_elem?-set_self s.entries r _ (found_inside s.entries r e g),
    ap is_nil (connected-fields addr actual conn e).2,
  )

  init_conn-Connected :
      (a : Answers E) (addr : List ℕ) (r : ℕ) (s : Manager E) (e : Entry)
      → get_elem? s.entries r ≡ some e
      → (init_conn a addr r s).0 ≡ none
      → Connected r (init_conn a addr r s).1
  unfolding init_conn init_entry
  init_conn-Connected a addr r s e g =
      let (answer, events) = dial_func e.id a s.events in
      let P : Option (Failure E) × Manager E → Type 0 = λ p. p.0 ≡ none → Connected r p.1 in
      subst (λ o. P (init_entry a addr r s o)) (sym g)
        (by_tests P (not (is_nil e.conn)) e.closed (none, s) (some session_is_closed, s)
          (use_dialed r addr (record s { events = events }) e answer) (λ t h. (e, g, ground arith))
          (λ t u h. cc)
          (λ t u h. use_dialed-Connected r addr (record s { events = events }) e answer g h))

  after_init-Sound :
      (r : ℕ) (whole : UdpMessage) (p : Option (Failure E) × Manager E)
      → (p.0 ≡ none → Connected r p.1)
      → Sound (after_init r whole p).0
  unfolding after_init
  after_init-Sound r whole (none, s) h =
      let (e, g, c) = h refl in write_entry-Sound E whole (get_elem? s.entries r) e g c
  after_init-Sound r whole (some session_is_closed, s) h = tt
  after_init-Sound r whole (some (of_io e), s) h = tt
  after_init-Sound r whole (some (of_send e), s) h = tt

  after_init-Run :
      (r : ℕ) (whole : UdpMessage) (s0 : Manager E) (p : Option (Failure E) × Manager E)
      → Run s0 p.1
      → Run s0 (after_init r whole p).1
  unfolding after_init
  after_init-Run r whole s0 (none, s) run = run
  after_init-Run r whole s0 (some session_is_closed, s) run = run
  after_init-Run r whole s0 (some (of_io e), s) run =
      close_and_exit-Run (some (of_io e)) r s0 s (get_elem? s.entries r) refl run
  after_init-Run r whole s0 (some (of_send e), s) run =
      close_and_exit-Run (some (of_send e)) r s0 s (get_elem? s.entries r) refl run

  feed_whole-Sound :
      (a : Answers E) (r : ℕ) (s0 s : Manager E) (e : Entry) (whole : Option UdpMessage)
      → get_elem? s.entries r ≡ some e
      → Run s0 s
      → Sound (feed_whole a r s whole).0 × Run s0 (feed_whole a r s whole).1
  unfolding feed_whole
  feed_whole-Sound a r s0 s e none g run = (tt, run)
  feed_whole-Sound a r s0 s e (some whole) g run = (
    after_init-Sound r whole (init_conn a whole.addr r s)
        (init_conn-Connected a whole.addr r s e g),
    after_init-Run r whole s0 (init_conn a whole.addr r s)
        (step s0 s _ run (connects a whole.addr r s)),
  )

  -- In every run, where the fragment count of a message is a uint8, feed of the manager returns: it never panics, nor writes to a nil
  -- connection, and what it does is a run of its parts.
  pub server_feed_manager-Run :
      (now : ℕ) (a : Answers E) (msg : UdpMessage) (s : Manager E)
      → Run new_udp_session_manager s
      → msg.frag_count < 256
      → (out : Fed E) × (s' : Manager E) × (feed_manager now a msg s ≡ ok (out, s'))
        × Sound out
        × Run s s'
  unfolding feed_manager session_of
  server_feed_manager-Run now a msg s run small =
      let v = server_sessions-Run-IsValid s run in
      let (r, s1) = find_or_add now msg.session_id s (lookup s.m msg.session_id) in
      let (e, g, w) =
        find_or_add-there now msg.session_id s (lookup s.m msg.session_id) refl v
          (Run-AreCounted s run) in
      let (s2, whole, f, (e2, g2)) = defrag-ends now msg r s1 e g w small in
      let found : Run s s1 = step s s s1 (done s) (finds now msg.session_id s) in
      let (sound, rest) =
        feed_whole-Sound a r s s2 e2 whole g2
          (step s s1 s2 found (defrags now msg r s1 s2 whole small f)) in
      ((feed_whole a r s2 whole).0, (feed_whole a r s2 whole).1, rw f refl, sound, rest)
