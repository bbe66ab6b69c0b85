-- ===== src/Server/Udp/Changes.antt =====
-- initConn, the defragger and the receive loop change a session, and keep what holds of the server's
-- UDP sessions.
use libya_link.Common.{
  ℕ, ◌<◌, ◌≡◌, refl, sym, ap, ◌∙◌, ◌⊎◌, inl, inr, Bool, true, false, not, Option, none, some, List,
  ◌∷◌, arith, if◌then◌else◌, Bool-cases, get_elem?, set,
}
use mathlib.Core.Path.{subst}
use libya_link.Server.Udp.{Entry, Manager, Event, Failure}
use libya_link.Server.Udp.Invariant.{IsValid}
use libya_link.Common.Result.{Result, ok, err, panic, ◌>>=◌}
use libya_link.Common.Strings.{str_eq}
use libya_link.Protocol.Quic.{QuicVarint}
use libya_link.Protocol.Udp.{UdpMessage}
use libya_link.Frag.Split.{OutOfFuel}
use libya_link.Frag.Defragger.{Defragger, feed}
use libya_link.Session.Send.{Answer, SendError, send_message_auto_frag}
use libya_link.Frag.Defragger.Total.{IsCounted, feed-IsCounted}
use libya_link.Server.Udp.{
  Answers, connected, use_dialed, init_entry, init_conn, is_nil, dial_func, session_is_closed,
}
use libya_link.Server.Udp.Feeding.{defrag_entry, defrag}
use libya_link.Server.Udp.Loops.{receive_entry, receive_round, reply_addr, sent_error}
use libya_link.Server.Udp.Invariant.{update-IsValid}

pub ok-injective : {X A : Type 0} (a b : A) → ◌≡◌ {A = Result X A} (ok a) (ok b) → a ≡ b
ok-injective a b e = ap (λ r. elim r [ ok z ↦ z | err z ↦ a | panic ↦ a ]) e

pub connected-fields :
    (addr actual : List ℕ) (conn : ℕ) (e : Entry)
    → ((connected addr actual conn e).id ≡ e.id)
      × ((connected addr actual conn e).closed ≡ e.closed)
      × ((connected addr actual conn e).conn ≡ some conn)
unfolding connected
connected-fields addr actual conn e = elim (Bool-cases (str_eq addr actual)) [
  | inl t ↦ rw t (refl, refl, refl)
  | inr t ↦ rw t (refl, refl, refl)
]

pub nil_conn : (conn : Option ℕ) → not (is_nil conn) ≡ false → conn ≡ none
nil_conn none h = refl
nil_conn (some c) h = cc

-- Three ways through two tests.
pub by_tests :
    {X : Type 0}
    → (P : X → Type 0) (b c : Bool) (x y z : X) → (b ≡ true → P x)
    → (b ≡ false → c ≡ true → P y)
    → (b ≡ false → c ≡ false → P z)
    → P (if b then x else if c then y else z)
by_tests P true c x y z f g h = f refl
by_tests P false true x y z f g h = g refl refl
by_tests P false false x y z f g h = h refl refl

module _ {E : Type 0} where
  use_dialed-IsValid :
      (r : ℕ) (addr : List ℕ) (s : Manager E) (events : List (Event E)) (e : Entry)
      (answer : Failure E ⊎ (ℕ × List ℕ))
      → get_elem? s.entries r ≡ some e
      → e.conn ≡ none
      → e.closed ≡ false
      → IsValid s
      → IsValid (use_dialed r addr (record s { events = events }) e answer).1
  unfolding use_dialed
  use_dialed-IsValid r addr s events e (inl error) g idle unclosed v = record {
    held = v.held;
    named = v.named;
    live = v.live;
    leaving = v.leaving;
    made = v.made;
  }
  use_dialed-IsValid r addr s events e (inr (conn, actual)) g idle unclosed v =
      let (i, o, n) = connected-fields addr actual conn e in
      update-IsValid s r e (connected addr actual conn e) (conn ∷ s.conns) events g i o
        (λ c. rw (o, n, unclosed, idle) (ground arith)) v

  init_entry-IsValid :
      (a : Answers E) (addr : List ℕ) (r : ℕ) (s : Manager E) (o : Option Entry)
      → get_elem? s.entries r ≡ o
      → IsValid s
      → IsValid (init_entry a addr r s o).1
  unfolding init_entry
  init_entry-IsValid a addr r s none g v = v
  init_entry-IsValid a addr r s (some e) g v =
      let (answer, events) = dial_func e.id a s.events in
      by_tests (λ (p : Option (Failure E) × Manager E). IsValid p.1) (not (is_nil e.conn)) e.closed
        (none, s) (some session_is_closed, s)
        (use_dialed r addr (record s { events = events }) e answer) (λ t. v) (λ t u. v)
        (λ t u. use_dialed-IsValid r addr s events e answer g (nil_conn e.conn t) u v)

  pub init_conn-IsValid :
      (a : Answers E) (addr : List ℕ) (r : ℕ) (s : Manager E)
      → IsValid s
      → IsValid (init_conn a addr r s).1
  unfolding init_conn
  init_conn-IsValid a addr r s v = init_entry-IsValid a addr r s (get_elem? s.entries r) refl v

  -- A session whose defragger or time is changed.
  pub touch-IsValid :
      (s : Manager E) (r : ℕ) (e : Entry) (now : ℕ) (d : Defragger)
      → get_elem? s.entries r ≡ some e
      → IsValid s
      → IsValid (record s { entries = set s.entries r (record e { last = now; d = d }) })
  touch-IsValid s r e now d g v =
      update-IsValid s r e (record e { last = now; d = d }) s.conns s.events g refl refl (λ c. refl)
        v

  -- What the steps of a session that only touch it leave.
  abbrev pub Touched : Manager E → ℕ → Manager E → Type 0
  Touched s r s' =
      (s' ≡ s)
      ⊎ ((e : Entry) × (now : ℕ) × (d : Defragger) × (get_elem? s.entries r ≡ some e)
          × (IsCounted e.d → IsCounted d)
          × (s' ≡ record s { entries = set s.entries r (record e { last = now; d = d }) }))

  pub Touched-IsValid : (s s' : Manager E) (r : ℕ) → Touched s r s' → IsValid s → IsValid s'
  Touched-IsValid s s' r (inl e) v = subst IsValid (sym e) v
  Touched-IsValid s s' r (inr (e, now, d, g, k, f)) v =
      subst IsValid (sym f) (touch-IsValid s r e now d g v)

  abbrev after_feed :
      Manager E
      → ℕ
      → Entry
      → ℕ
      → Result (Unit {0}) (Defragger × Option UdpMessage)
      → Result (Unit {0}) (Manager E × Option UdpMessage)
  after_feed s r e now fed = do
    (d, w) ← fed
    ok (record s { entries = set s.entries r (record e { last = now; d = d }) }, w)

  abbrev after_sent :
      Manager E
      → ℕ
      → Entry
      → ℕ
      → Result OutOfFuel (List UdpMessage × Option (SendError E))
      → Result OutOfFuel (Manager E × Option (Failure E))
  after_sent s r e now sent = do
    (_, w) ← sent
    ok (record s { entries = set s.entries r (record e { last = now }) }, sent_error w)

  defrag_entry-Touched :
      (now : ℕ) (msg : UdpMessage) (r : ℕ) (s s' : Manager E) (whole : Option UdpMessage)
      (o : Option Entry)
      → msg.frag_count < 256
      → get_elem? s.entries r ≡ o
      → defrag_entry now msg r s o ≡ ok (s', whole)
      → Touched s r s'
  unfolding defrag_entry
  defrag_entry-Touched now msg r s s' whole none small g h = cc
  defrag_entry-Touched now msg r s s' whole (some e) small g h = from_fed (feed e.d msg) refl h
    where
      counted :
          (d : Defragger) (w : Option UdpMessage)
          → feed e.d msg ≡ ok (d, w)
          → IsCounted e.d
          → IsCounted d
      counted d w f c =
          let (d', w', f', c') = feed-IsCounted e.d msg c small in
          let same : d' ≡ d =
            ap (λ (x : Defragger × Option UdpMessage). x.0)
              (ok-injective (d', w') (d, w) (sym f' ∙ f)) in
          subst IsCounted same c'

      from_fed :
          (fed : Result (Unit {0}) (Defragger × Option UdpMessage))
          → feed e.d msg ≡ fed
          → after_feed s r e now fed ≡ ok (s', whole)
          → Touched s r s'
      from_fed (ok (d, w)) f h = inr (
        e,
        now,
        d,
        g,
        counted d w f,
        sym (ap (λ (p : Manager E × Option UdpMessage). p.0) (ok-injective _ _ h)),
      )
      from_fed (err x) f h = cc
      from_fed panic f h = cc

  pub defrag-Touched :
      (now : ℕ) (msg : UdpMessage) (r : ℕ) (s s' : Manager E) (whole : Option UdpMessage)
      → msg.frag_count < 256
      → defrag now msg r s ≡ ok (s', whole)
      → Touched s r s'
  unfolding defrag
  defrag-Touched now msg r s s' whole small h =
      defrag_entry-Touched now msg r s s' whole (get_elem? s.entries r) small refl h

  receive_entry-Touched :
      (q : QuicVarint) (io : UdpMessage → Answer E) (now draw r : ℕ)
      (answer : E ⊎ (List ℕ × List ℕ)) (s s' : Manager E) (error : Option (Failure E))
      (o : Option Entry)
      → get_elem? s.entries r ≡ o
      → receive_entry q io now draw r answer s o ≡ ok (s', error)
      → Touched s r s'
  unfolding receive_entry
  receive_entry-Touched q io now draw r answer s s' error none g h = cc
  receive_entry-Touched q io now draw r (inl x) s s' error (some e) g h =
      inl (sym (ap (λ (p : Manager E × Option (Failure E)). p.0) (ok-injective _ _ h)))
  receive_entry-Touched q io now draw r (inr (bytes, addr)) s s' error (some e) g h =
      from_sent
        (send_message_auto_frag q io draw (record {
          session_id = e.id;
          packet_id = 0;
          frag_id = 0;
          frag_count = 1;
          addr = reply_addr e addr;
          body = bytes;
        }))
        h
    where
      from_sent :
          (sent : Result OutOfFuel (List UdpMessage × Option (SendError E)))
          → after_sent s r e now sent ≡ ok (s', error)
          → Touched s r s'
      from_sent (ok (_, w)) h = inr (
        e,
        now,
        e.d,
        g,
        (λ c. c),
        sym (ap (λ (p : Manager E × Option (Failure E)). p.0) (ok-injective _ _ h)),
      )
      from_sent (err x) h = cc
      from_sent panic h = cc

  pub receive_round-Touched :
      (q : QuicVarint) (io : UdpMessage → Answer E) (now draw r : ℕ)
      (answer : E ⊎ (List ℕ × List ℕ)) (s s' : Manager E) (error : Option (Failure E))
      → receive_round q io now draw r answer s ≡ ok (s', error)
      → Touched s r s'
  unfolding receive_round
  receive_round-Touched q io now draw r answer s s' error h =
      receive_entry-Touched q io now draw r answer s s' error (get_elem? s.entries r) refl h
