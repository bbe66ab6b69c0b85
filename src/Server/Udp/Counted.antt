-- ===== src/Server/Udp/Counted.antt =====
-- The defraggers of the sessions of core/server/udp.go, in a run.
use libya_link.Common.{
  ℕ, ◌≡◌, refl, sym, ap, ◌∙◌, ◌⊎◌, inl, inr, true, not, Option, none, some, List, [], ◌∷◌, ◌++◌,
  arith, ◌==◌, Bool-cases, length, get_elem?, set,
}
use mathlib.Core.Option.{some-injective}
use mathlib.Core.Path.{subst}
use libya_link.Session.Client.{lookup}
use libya_link.Server.Udp.{
  Entry, Manager, Failure, close_entry, close_with_err, exit_entry, exit_func,
  new_udp_session_entry,
}
use libya_link.Server.Udp.Counting.{found_last, found_before}
use libya_link.Server.Udp.Invariant.{set-cases}
use libya_link.Server.Udp.Feeding.{find_or_add, session_of}
use libya_link.Common.Strings.{str_eq}
use libya_link.Server.Udp.{
  Answers, connected, use_dialed, init_entry, init_conn, is_nil, dial_func, session_is_closed,
  new_udp_session_manager,
}
use libya_link.Server.Udp.Changes.{by_tests, Touched, defrag-Touched, receive_round-Touched}
use libya_link.Frag.Defragger.Total.{IsCounted}
use libya_link.Server.Udp.Reach.{
  Step, finds, defrags, connects, receives, closes, exits, Run, done, step,
}

-- The defraggers of the sessions count their slots.
abbrev pub AreCounted : List Entry → Type 0
AreCounted es = (r : ℕ) (e : Entry) → get_elem? es r ≡ some e → IsCounted e.d

counted_set :
    (es : List Entry) (r : ℕ) (e e' : Entry)
    → get_elem? es r ≡ some e
    → (IsCounted e.d → IsCounted e'.d)
    → AreCounted es
    → AreCounted (set es r e')
counted_set es r e e' g keeps h q f at = elim (set-cases es r e e' g q f at) [
  | inl (here, is) ↦ subst (λ (x : Entry). IsCounted x.d) (sym is) (keeps (h r e g))
  | inr (away, before) ↦ h q f before
]

counted_append :
    (es : List Entry) (e : Entry) → IsCounted e.d → AreCounted es → AreCounted (es ++ (e ∷ []))
counted_append es e c h q f at = elim (Bool-cases (q == length es)) [
  | inl t ↦
      let last : q ≡ length es = ground arith in
      let is : f ≡ e =
        some-injective f e (sym at ∙ ap (get_elem? (es ++ (e ∷ []))) last ∙ found_last es e) in
      subst (λ (x : Entry). IsCounted x.d) (sym is) c
  | inr t ↦ h q f (sym (found_before es e q t) ∙ at)
]

connected-d : (addr actual : List ℕ) (conn : ℕ) (e : Entry) → (connected addr actual conn e).d ≡ e.d
unfolding connected
connected-d addr actual conn e = elim (Bool-cases (str_eq addr actual)) [
  | inl t ↦ rw t refl
  | inr t ↦ rw t refl
]

module _ {E : Type 0} where
  Touched-AreCounted :
      (s s' : Manager E) (r : ℕ) → Touched s r s' → AreCounted s.entries → AreCounted s'.entries
  Touched-AreCounted s s' r (inl h) c = subst (λ (t : Manager E). AreCounted t.entries) (sym h) c
  Touched-AreCounted s s' r (inr (e, now, d, g, k, h)) c =
      subst (λ (t : Manager E). AreCounted t.entries) (sym h)
        (counted_set s.entries r e (record e { last = now; d = d }) g k c)

  find_or_add-AreCounted :
      (now id : ℕ) (s : Manager E) (o : Option ℕ)
      → AreCounted s.entries
      → AreCounted (find_or_add now id s o).1.entries
  unfolding find_or_add new_udp_session_entry
  find_or_add-AreCounted now id s none c =
      counted_append s.entries (new_udp_session_entry now id)
        (record { few = omega arith; counted = refl }) c
  find_or_add-AreCounted now id s (some r) c = c

  use_dialed-AreCounted :
      (r : ℕ) (addr : List ℕ) (s : Manager E) (e : Entry) (answer : Failure E ⊎ (ℕ × List ℕ))
      → get_elem? s.entries r ≡ some e
      → AreCounted s.entries
      → AreCounted (use_dialed r addr s e answer).1.entries
  unfolding use_dialed
  use_dialed-AreCounted r addr s e (inl error) g c = c
  use_dialed-AreCounted r addr s e (inr (conn, actual)) g c =
      counted_set s.entries r e (connected addr actual conn e) g
        (λ k. subst IsCounted (sym (connected-d addr actual conn e)) k) c

  init_entry-AreCounted :
      (a : Answers E) (addr : List ℕ) (r : ℕ) (s : Manager E) (o : Option Entry)
      → get_elem? s.entries r ≡ o
      → AreCounted s.entries
      → AreCounted (init_entry a addr r s o).1.entries
  unfolding init_entry
  init_entry-AreCounted a addr r s none g c = c
  init_entry-AreCounted a addr r s (some e) g c =
      let (answer, events) = dial_func e.id a s.events in
      by_tests (λ (p : Option (Failure E) × Manager E). AreCounted p.1.entries)
        (not (is_nil e.conn)) e.closed (none, s) (some session_is_closed, s)
        (use_dialed r addr (record s { events = events }) e answer) (λ t. c) (λ t u. c)
        (λ t u. use_dialed-AreCounted r addr (record s { events = events }) e answer g c)

  close_entry-AreCounted :
      (r : ℕ) (s : Manager E) (o : Option Entry)
      → get_elem? s.entries r ≡ o
      → AreCounted s.entries
      → AreCounted (close_entry r s o).entries
  unfolding close_entry
  close_entry-AreCounted r s none g c = c
  close_entry-AreCounted r s (some e) g c = elim (Bool-cases e.closed) [
    | inl t ↦ rw t c
    | inr t ↦ rw t (counted_set s.entries r e (record e { closed = true }) g (λ k. k) c)
  ]

  exit_entry-AreCounted :
      (r : ℕ) (error : Option (Failure E)) (s : Manager E) (o : Option Entry)
      → AreCounted s.entries
      → AreCounted (exit_entry r error s o).entries
  unfolding exit_entry
  exit_entry-AreCounted r error s none c = c
  exit_entry-AreCounted r error s (some e) c = c

  step-AreCounted : (s s' : Manager E) → Step s s' → AreCounted s.entries → AreCounted s'.entries
  unfolding session_of init_conn close_with_err exit_func
  step-AreCounted _ _ (finds now id s) c = find_or_add-AreCounted now id s (lookup s.m id) c
  step-AreCounted _ _ (defrags now msg r s s' whole small h) c =
      Touched-AreCounted s s' r (defrag-Touched now msg r s s' whole small h) c
  step-AreCounted _ _ (connects a addr r s) c =
      init_entry-AreCounted a addr r s (get_elem? s.entries r) refl c
  step-AreCounted _ _ (receives q io now draw r answer s s' error h) c =
      Touched-AreCounted s s' r (receive_round-Touched q io now draw r answer s s' error h) c
  step-AreCounted _ _ (closes r s) c = close_entry-AreCounted r s (get_elem? s.entries r) refl c
  step-AreCounted _ _ (exits r error s u) c =
      exit_entry-AreCounted r error s (get_elem? s.entries r) c

  pub Run-AreCounted : (s : Manager E) → Run new_udp_session_manager s → AreCounted s.entries
  Run-AreCounted s r = from_start new_udp_session_manager s r (λ q e g. cc)
    where
      from_start : (a b : Manager E) → Run a b → AreCounted a.entries → AreCounted b.entries
      from_start _ _ (done a) c = c
      from_start _ _ (step a m b r t) c = step-AreCounted m b t (from_start a m r c)
