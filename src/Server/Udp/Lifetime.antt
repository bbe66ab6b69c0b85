-- ===== src/Server/Udp/Lifetime.antt =====
-- What becomes of one session of core/server/udp.go in a run.
use libya_link.Common.{
  ℕ, ◌<◌, ◌≡◌, refl, sym, ap, ◌∙◌, ◌⊎◌, inl, inr, true, false, not, Option, none, some, List, [],
  ◌∷◌, ◌++◌, arith, Bool-cases, length, get_elem?, set,
}
use mathlib.Core.Path.{subst}
use libya_link.Session.Client.{lookup}
use libya_link.Server.Udp.{
  Entry, Manager, Failure, close_entry, close_with_err, exit_entry, exit_func,
  new_udp_session_entry,
}
use libya_link.Server.Udp.Counting.{found_inside, found_before}
use libya_link.Server.Udp.Invariant.{set-keeps}
use libya_link.Server.Udp.Feeding.{find_or_add, session_of}
use libya_link.Server.Udp.{
  Answers, connected, use_dialed, init_entry, init_conn, is_nil, dial_func, session_is_closed,
}
use libya_link.Server.Udp.Changes.{
  connected-fields, nil_conn, by_tests, Touched, defrag-Touched, receive_round-Touched,
}
use libya_link.Server.Udp.Reach.{
  Step, finds, defrags, connects, receives, closes, exits, Run, done, step,
}

-- A session later on: the same id, closed if it was closed, and with its connection if it had one
-- or was closed.
pub record Follows (e e' : Entry) : Type 0 where
  pub same_id : e'.id ≡ e.id
  pub still_closed : e.closed ≡ true → e'.closed ≡ true
  pub same_conn : (e.closed ≡ true) ⊎ (is_nil e.conn ≡ false) → e'.conn ≡ e.conn

abbrev Later : List Entry → List Entry → Type 0
Later es es' =
    (r : ℕ) (e : Entry)
    → get_elem? es r ≡ some e
    → (e' : Entry) × (get_elem? es' r ≡ some e') × Follows e e'

Follows-refl : (e : Entry) → Follows e e
Follows-refl e = record { same_id = refl; still_closed = λ h. h; same_conn = λ h. refl }

Later-refl : (es : List Entry) → Later es es
Later-refl es r e g = (e, g, Follows-refl e)

Later-set :
    (es : List Entry) (r : ℕ) (e e' : Entry)
    → get_elem? es r ≡ some e
    → Follows e e'
    → Later es (set es r e')
Later-set es r e e' g f q x h =
    let (x', at, which) = set-keeps es r e e' g q x h in
    elim which [
      | inl (here, was, is) ↦
          (x', at, subst (λ y. Follows y x') (sym was) (subst (Follows e) (sym is) f))
      | inr (away, is) ↦ (x', at, subst (Follows x) (sym is) (Follows-refl x))
    ]

Later-append : (es : List Entry) (x : Entry) → Later es (es ++ (x ∷ []))
Later-append es x r e g =
    let inside : r < length es = found_inside es r e g in
    (e, found_before es x r (ground arith) ∙ g, Follows-refl e)

still :
    (e f : Entry)
    → Follows e f
    → (e.closed ≡ true) ⊎ (is_nil e.conn ≡ false)
    → (f.closed ≡ true) ⊎ (is_nil f.conn ≡ false)
still e f a (inl shut) = inl (a.still_closed shut)
still e f a (inr has) = inr (ap is_nil (a.same_conn (inr has)) ∙ has)

Follows-trans : (e f g : Entry) → Follows e f → Follows f g → Follows e g
Follows-trans e f g a b = record {
  same_id = b.same_id ∙ a.same_id;
  still_closed = λ h. b.still_closed (a.still_closed h);
  same_conn = λ h. b.same_conn (still e f a h) ∙ a.same_conn h;
}

module _ {E : Type 0} where
  Touched-Later : (s s' : Manager E) (r : ℕ) → Touched s r s' → Later s.entries s'.entries
  Touched-Later s s' r (inl h) =
      subst (λ (t : Manager E). Later s.entries t.entries) (sym h) (Later-refl s.entries)
  Touched-Later s s' r (inr (e, now, d, g, k, h)) =
      subst (λ (t : Manager E). Later s.entries t.entries) (sym h)
        (Later-set s.entries r e (record e { last = now; d = d }) g
          (record { same_id = refl; still_closed = λ u. u; same_conn = λ u. refl }))

  find_or_add-Later :
      (now id : ℕ) (s : Manager E) (o : Option ℕ)
      → Later s.entries (find_or_add now id s o).1.entries
  unfolding find_or_add
  find_or_add-Later now id s none = Later-append s.entries (new_udp_session_entry now id)
  find_or_add-Later now id s (some r) = Later-refl s.entries

  use_dialed-Later :
      (r : ℕ) (addr : List ℕ) (s : Manager E) (e : Entry) (answer : Failure E ⊎ (ℕ × List ℕ))
      → get_elem? s.entries r ≡ some e
      → e.conn ≡ none
      → e.closed ≡ false
      → Later s.entries (use_dialed r addr s e answer).1.entries
  unfolding use_dialed
  use_dialed-Later r addr s e (inl error) g idle unclosed = Later-refl s.entries
  use_dialed-Later r addr s e (inr (conn, actual)) g idle unclosed =
      let (i, o, n) = connected-fields addr actual conn e in
      Later-set s.entries r e (connected addr actual conn e) g (record {
        same_id = i;
        still_closed = λ u. o ∙ u;
        same_conn = λ u. elim u [
          | inl shut ↦ absurd (ground arith)
          | inr some_conn ↦
              (let no_conn : is_nil e.conn ≡ true = ap is_nil idle in absurd (ground arith))
        ];
      })

  init_entry-Later :
      (a : Answers E) (addr : List ℕ) (r : ℕ) (s : Manager E) (o : Option Entry)
      → get_elem? s.entries r ≡ o
      → Later s.entries (init_entry a addr r s o).1.entries
  unfolding init_entry
  init_entry-Later a addr r s none g = Later-refl s.entries
  init_entry-Later a addr r s (some e) g =
      let (answer, events) = dial_func e.id a s.events in
      by_tests (λ (p : Option (Failure E) × Manager E). Later s.entries p.1.entries)
        (not (is_nil e.conn)) e.closed (none, s) (some session_is_closed, s)
        (use_dialed r addr (record s { events = events }) e answer) (λ t. Later-refl s.entries)
        (λ t u. Later-refl s.entries)
        (λ t u.
          use_dialed-Later r addr (record s { events = events }) e answer g (nil_conn e.conn t) u)

  close_entry-Later :
      (r : ℕ) (s : Manager E) (o : Option Entry)
      → get_elem? s.entries r ≡ o
      → Later s.entries (close_entry r s o).entries
  unfolding close_entry
  close_entry-Later r s none g = Later-refl s.entries
  close_entry-Later r s (some e) g = elim (Bool-cases e.closed) [
    | inl t ↦ rw t (Later-refl s.entries)
    | inr t ↦ rw t (
        Later-set s.entries r e (record e { closed = true }) g
          (record { same_id = refl; still_closed = λ u. refl; same_conn = λ u. refl }))
  ]

  exit_entry-Later :
      (r : ℕ) (error : Option (Failure E)) (s : Manager E) (o : Option Entry)
      → Later s.entries (exit_entry r error s o).entries
  unfolding exit_entry
  exit_entry-Later r error s none = Later-refl s.entries
  exit_entry-Later r error s (some e) = Later-refl s.entries

  step-Later : (s s' : Manager E) → Step s s' → Later s.entries s'.entries
  unfolding session_of init_conn close_with_err exit_func
  step-Later _ _ (finds now id s) = find_or_add-Later now id s (lookup s.m id)
  step-Later _ _ (defrags now msg r s s' whole small h) =
      Touched-Later s s' r (defrag-Touched now msg r s s' whole small h)
  step-Later _ _ (connects a addr r s) = init_entry-Later a addr r s (get_elem? s.entries r) refl
  step-Later _ _ (receives q io now draw r answer s s' error h) =
      Touched-Later s s' r (receive_round-Touched q io now draw r answer s s' error h)
  step-Later _ _ (closes r s) = close_entry-Later r s (get_elem? s.entries r) refl
  step-Later _ _ (exits r error s u) = exit_entry-Later r error s (get_elem? s.entries r)

  -- However the goroutines interleave, a session that is closed stays so and gets no connection any
  -- more, and one that has a connection keeps it.
  pub server_sessions-Run-Follows :
      (s t : Manager E) (r : ℕ) (e : Entry)
      → Run s t
      → get_elem? s.entries r ≡ some e
      → (e' : Entry) × (get_elem? t.entries r ≡ some e') × Follows e e'
  server_sessions-Run-Follows _ _ r e (done s) g = (e, g, Follows-refl e)
  server_sessions-Run-Follows _ _ r e (step s m t run u) g =
      let (f, at, a) = server_sessions-Run-Follows s m r e run g in
      let (x, at', b) = step-Later m t u r f at in (x, at', Follows-trans e f x a b)
