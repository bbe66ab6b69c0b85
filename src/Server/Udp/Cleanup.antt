-- ===== src/Server/Udp/Cleanup.antt =====
-- cleanup(false) of core/server/udp.go, with which Run ends.
use libya_link.Common.{
  ℕ, suc, ◌-◌, ◌<◌, ◌≡◌, refl, sym, ap, ◌∙◌, inl, inr, true, false, not, ◌||◌, Option, none, some,
  List, [], ◌∷◌, arith, ltb, ◌==◌, if◌then◌else◌, Bool-cases, get_elem?, set, get_elem?-set_self,
}
use mathlib.Core.Option.{some-injective}
use mathlib.Core.Path.{subst}
use libya_link.Session.Client.{lookup}
use libya_link.Server.Udp.{
  Entry, Manager, Failure, close_conn, remove_one, close_entry, exit_entry, exit_func,
}
use libya_link.Server.Udp.Counting.{times, owners, found_inside}
use libya_link.Server.Udp.Invariant.{IsValid, set-cases}
use libya_link.Server.Udp.{new_udp_session_manager}
use libya_link.Server.Udp.Exits.{exit_func-IsValid}
use libya_link.Server.Udp.{close_and_exit}
use libya_link.Server.Udp.Keeps.{shut-IsValid}
use libya_link.Server.Udp.Reach.{Run, server_sessions-Run-IsValid}
use libya_link.Server.Udp.Loops.{timed_out, close_each, cleanup}

-- The open sessions are among some positions.
abbrev OpenIn : List ℕ → List Entry → Type 0
OpenIn rs es = (r : ℕ) (e : Entry) → get_elem? es r ≡ some e → e.closed ≡ false → 0 < times r rs

owners_none :
    (c : ℕ) (es : List Entry)
    → ((r : ℕ) (e : Entry) → get_elem? es r ≡ some e → e.closed ≡ true)
    → owners c es ≡ 0
owners_none c [] h = refl
owners_none c (e ∷ es) h =
    let shut : e.closed ≡ true = h 0 e refl in ground (arith, owners_none c es (λ r. h (suc r)))

nowhere : (cs : List ℕ) → ((c : ℕ) → times c cs ≡ 0) → cs ≡ []
nowhere [] h = refl
nowhere (c ∷ cs) h = absurd (ground (arith, h c))

all_shut :
    (es : List Entry)
    → OpenIn [] es
    → (r : ℕ) (e : Entry) → get_elem? es r ≡ some e
    → e.closed ≡ true
all_shut es h r e g = elim (Bool-cases e.closed) [
  | inl t ↦ t
  | inr t ↦ absurd (omega (arith, h r e g t))
]

timed_out_all :
    (now timeout : ℕ) (es : List Entry) (m : List (ℕ × ℕ)) (k r : ℕ) (e : Entry)
    → lookup m k ≡ some r
    → get_elem? es r ≡ some e
    → 0 < times r (timed_out false now timeout es m)
unfolding lookup timed_out
timed_out_all now timeout es [] k r e h g = cc
timed_out_all now timeout es ((j, q) ∷ m) k r e h g = elim (Bool-cases (j == k)) [
  | inl t ↦
      let same : q ≡ r = some-injective q r (sym (rw t refl) ∙ h) in
      first q same (get_elem? es q) (timed_out false now timeout es m) (ap (get_elem? es) same ∙ g)
  | inr t ↦
      let rest : 0 < times r (timed_out false now timeout es m) =
        timed_out_all now timeout es m k r e (sym (rw t refl) ∙ h) g in
      more q (get_elem? es q) (timed_out false now timeout es m) rest
]
  where
    first :
        (q : ℕ)
        → q ≡ r
        → (o : Option Entry) (rest : List ℕ) → o ≡ some e
        → 0
          < times r (elim o [
            | none ↦ rest
            | some f ↦ if not false || ltb timeout (now - f.last) then q ∷ rest else rest
          ])
    first q same none rest h = cc
    first q same (some f) rest h = ground (arith, same)

    more :
        (q : ℕ) (o : Option Entry) (rest : List ℕ)
        → 0 < times r rest
        → 0
          < times r (elim o [
            | none ↦ rest
            | some f ↦ if not false || ltb timeout (now - f.last) then q ∷ rest else rest
          ])
    more q none rest h = h
    more q (some f) rest h = ground arith

shut_only :
    (r : ℕ) (rs : List ℕ) (es : List Entry) (e : Entry)
    → get_elem? es r ≡ some e
    → OpenIn (r ∷ rs) es
    → OpenIn rs (set es r (record e { closed = true }))
shut_only r rs es e g h q f at unclosed =
    elim (set-cases es r e (record e { closed = true }) g q f at) [
      | inl (here, is) ↦
          (let shut : f.closed ≡ true = ap (λ (x : Entry). x.closed) is in absurd (ground arith))
      | inr (away, before) ↦
          let listed : 0 < times q (r ∷ rs) = h q f before unclosed in
          let other : (r == q) ≡ false = elim (Bool-cases (r == q)) [
            | inl t ↦ absurd (away (ground arith))
            | inr t ↦ t
          ] in
          ground arith
    ]

shut_before :
    (r : ℕ) (rs : List ℕ) (es : List Entry)
    → ((e : Entry) → get_elem? es r ≡ some e → e.closed ≡ true)
    → OpenIn (r ∷ rs) es
    → OpenIn rs es
shut_before r rs es shut h q f at unclosed =
    let listed : 0 < times q (r ∷ rs) = h q f at unclosed in
    elim (Bool-cases (r == q)) [
      | inl t ↦
          let same : r ≡ q = ground arith in
          let here : f.closed ≡ true = shut f (ap (get_elem? es) same ∙ at) in absurd (ground arith)
      | inr t ↦ ground arith
    ]

taken_back : (r : ℕ) (js : List ℕ) → remove_one (r ∷ js) r ≡ js
taken_back r js = ground arith

module _ {E : Type 0} where
  -- One session of the loop is done.
  abbrev Closed : List ℕ → Manager E → Manager E → Type 0
  Closed rs s s' = IsValid s' × OpenIn rs s'.entries × (s'.exiting ≡ s.exiting)

  exit_entry-fields :
      (r : ℕ) (error : Option (Failure E)) (s : Manager E) (o : Option Entry) (e : Entry)
      → o ≡ some e
      → ((exit_entry r error s o).entries ≡ s.entries)
        × ((exit_entry r error s o).exiting ≡ remove_one s.exiting r)
  unfolding exit_entry
  exit_entry-fields r error s none e h = cc
  exit_entry-fields r error s (some f) e h = (refl, refl)

  leave-Closed :
      (r : ℕ) (rs : List ℕ) (s t : Manager E) (e : Entry)
      → t ≡ record s {
        entries = set s.entries r (record e { closed = true });
        exiting = r ∷ s.exiting;
        conns = close_conn e.conn s.conns;
      }
      → get_elem? s.entries r ≡ some e
      → IsValid t
      → OpenIn (r ∷ rs) s.entries
      → Closed rs s (exit_func r none t)
  unfolding exit_func
  leave-Closed r rs s t e is g v h =
      let exits : t.exiting ≡ r ∷ s.exiting = ap (λ (x : Manager E). x.exiting) is in
      let written : t.entries ≡ set s.entries r (record e { closed = true }) =
        ap (λ (x : Manager E). x.entries) is in
      let at : get_elem? t.entries r ≡ some (record e { closed = true }) =
        ap (λ xs. get_elem? xs r) written
        ∙ get_elem?-set_self s.entries r (record e { closed = true })
            (found_inside s.entries r e g) in
      let (f, x) =
        exit_entry-fields r none t (get_elem? t.entries r) (record e { closed = true }) at in
      let leaves : 0 < times r t.exiting = rw exits (ground arith) in
      (
        exit_func-IsValid r none t leaves v,
        subst (OpenIn rs) (sym (f ∙ written)) (shut_only r rs s.entries e g h),
        x ∙ ap (λ js. remove_one js r) exits ∙ taken_back r s.exiting,
      )

  close_and_exit-Closed :
      (r : ℕ) (rs : List ℕ) (s : Manager E) (o : Option Entry)
      → get_elem? s.entries r ≡ o
      → IsValid s
      → OpenIn (r ∷ rs) s.entries
      → Closed rs s (close_and_exit none r s o)
  unfolding close_and_exit close_entry
  close_and_exit-Closed r rs s none g v h = (v, shut_before r rs s.entries (λ e f. cc) h, refl)
  close_and_exit-Closed r rs s (some e) g v h = elim (Bool-cases e.closed) [
    | inl t ↦ rw t (
      v,
      shut_before r rs s.entries
          (λ f at. ap (λ (x : Entry). x.closed) (some-injective f e (sym at ∙ g)) ∙ t) h,
      refl,
    )
    | inr t ↦ rw t (leave-Closed r rs s _ e refl g (shut-IsValid s r e g t v) h)
  ]

  close_each-Closed :
      (rs : List ℕ) (s : Manager E)
      → IsValid s
      → OpenIn rs s.entries
      → Closed [] s (close_each rs s)
  unfolding close_each
  close_each-Closed [] s v h = (v, h, refl)
  close_each-Closed (r ∷ rs) s v h =
      let (w, k, x) = close_and_exit-Closed r rs s (get_elem? s.entries r) refl v h in
      let (w', k', x') =
        close_each-Closed rs (close_and_exit none r s (get_elem? s.entries r)) w k in
      (w', k', x' ∙ x)

  -- In whatever state the other goroutines have left the sessions, cleanup of all sessions closes
  -- every session and with it every connection that is open, and no session is left in the map but
  -- those whose ExitFunc another goroutine is to call.
  pub cleanup-closes :
      (s : Manager E) (now timeout : ℕ)
      → Run new_udp_session_manager s
      → ((cleanup false now timeout s).conns ≡ [])
        × ((r : ℕ) (e : Entry)
            → get_elem? (cleanup false now timeout s).entries r ≡ some e
            → e.closed ≡ true)
        × ((k r : ℕ) → lookup (cleanup false now timeout s).m k ≡ some r → 0 < times r s.exiting)
  unfolding cleanup
  cleanup-closes s now timeout run =
      let v = server_sessions-Run-IsValid s run in
      let listed : OpenIn (timed_out false now timeout s.entries s.m) s.entries = λ r e g unclosed.
        timed_out_all now timeout s.entries s.m e.id r e (v.live r e g (inl unclosed)) g in
      let (w, h, x) = close_each-Closed (timed_out false now timeout s.entries s.m) s v listed in
      let s' = close_each (timed_out false now timeout s.entries s.m) s in
      let shut = all_shut s'.entries h in
      (
        nowhere s'.conns (λ c. w.held c ∙ owners_none c s'.entries shut),
        shut,
        λ k r at.
            let (e, g, i, l) = w.named k r at in
            subst (λ js. 0 < times r js) x
              (elim l [
                | inl o ↦ absurd (let t : e.closed ≡ true = shut r e g in ground arith)
                | inr u ↦ u
              ]),
      )
