-- ===== src/Session/Client/Reach.antt =====
-- The runs of the client's session manager, and what holds in them.
use libya_link.Common.{
  ℕ, ◌≡◌, refl, sym, ap, ◌∙◌, ◌≢◌, ◌⊎◌, inl, inr, true, Option, none, some, List, [], ◌∷◌, arith,
  ◌==◌, Bool-cases, get_elem?, set, All,
}
use mathlib.Core.Path.{subst}
use mathlib.Core.Option.{some-injective}
use libya_link.Common.Result.{ok}
use libya_link.Protocol.Udp.{UdpMessage}
use libya_link.Session.Client.{
  UdpConn, Manager, new_udp_session_manager, lookup, delete, new_udp, feed_manager, close_object,
  close, close_each, close_cleanup, receive, Received,
}
use libya_link.Session.Client.Invariant.{
  IsEntry, IsValid, All-delete, new_udp_fields, close-IsValid, feed-IsValid, entries-keep,
  ok-injective, receive_loop-Alike,
}

-- One method of the manager or of a session.
pub data Step : Manager → Manager → Type 0 where
  opens : (s : Manager) → Step s (new_udp s).1
  feeds : (msg : UdpMessage) (s s' : Manager) → feed_manager msg s ≡ ok s' → Step s s'
  receives :
      (r : ℕ) (c c' : UdpConn) (x : Received) (s : Manager)
      → get_elem? s.objects r ≡ some c
      → receive c ≡ ok (c', x)
      → Step s (record s { objects = set s.objects r c' })
  closes : (r : ℕ) (s : Manager) → Step s (close r s)
  cleans : (s : Manager) → Step s (close_cleanup s)

pub data Run : Manager → Manager → Type 0 where
  done : (s : Manager) → Run s s
  step : (s m s' : Manager) → Run s m → Step m s' → Run s s'

abbrev IsIn : ℕ × ℕ → List (ℕ × ℕ) → Type 0
IsIn e [] = ⊥
IsIn e (f ∷ es) = (e ≡ f) ⊎ IsIn e es

All-IsIn_weaken :
    (f : ℕ × ℕ) (es m : List (ℕ × ℕ)) → All (λ e. IsIn e es) m → All (λ e. IsIn e (f ∷ es)) m
All-IsIn_weaken f es [] h = tt
All-IsIn_weaken f es (e ∷ m) h = (inr h.0, All-IsIn_weaken f es m h.1)

All-IsIn_self : (m : List (ℕ × ℕ)) → All (λ e. IsIn e m) m
All-IsIn_self [] = tt
All-IsIn_self (e ∷ m) = (inl refl, All-IsIn_weaken e m m (All-IsIn_self m))

strengthen :
    (k r : ℕ) (es m : List (ℕ × ℕ))
    → All (λ e. IsIn e ((k, r) ∷ es)) m
    → All (λ e. e.1 ≢ r) m
    → All (λ e. IsIn e es) m
strengthen k r es [] h g = tt
strengthen k r es (e ∷ m) h g = (
  (elim h.0 [ inl same ↦ absurd (g.0 (ap (λ x. x.1) same)) | inr old ↦ old ]),
  strengthen k r es m h.1 g.1,
)

-- After close of an object no entry leads to it.
no_entry_of :
    (objects : List UdpConn) (r : ℕ) (m : List (ℕ × ℕ))
    → ((c : UdpConn) → get_elem? objects r ≡ some c → c.closed ≡ true)
    → All (IsEntry objects) m
    → All (λ e. e.1 ≢ r) m
no_entry_of objects r [] shut h = tt
no_entry_of objects r ((k, q) ∷ m) shut ((c, e, i, o), t) = (
  (λ same.
      let hit : get_elem? objects r ≡ some c = ap (get_elem? objects) (sym same) ∙ e in
      let both : c.closed ≡ true = shut c hit in cc),
  no_entry_of objects r m shut t,
)

delete-drops :
    (objects : List UdpConn) (r : ℕ) (c : UdpConn) (m : List (ℕ × ℕ))
    → get_elem? objects r ≡ some c
    → All (IsEntry objects) m
    → All (λ e. e.1 ≢ r) (delete m c.id)
unfolding delete
delete-drops objects r c [] e h = tt
delete-drops objects r c ((k, q) ∷ m) e h = elim (Bool-cases (k == c.id)) [
  | inl t ↦ rw t (delete-drops objects r c m e h.1)
  | inr t ↦
      let (d, e2, i, o) = h.0 in
      rw t (
        (λ same.
            let twin : c ≡ d =
              some-injective c d (sym e ∙ ap (get_elem? objects) (sym same) ∙ e2) in
            let ids : c.id ≡ k = ap (λ (x : UdpConn). x.id) twin ∙ i in ground arith),
        delete-drops objects r c m e h.1,
      )
]

close_object-drops :
    (r : ℕ) (s : Manager) (o : Option UdpConn)
    → get_elem? s.objects r ≡ o
    → IsValid s
    → All (λ e. e.1 ≢ r) (close_object r s o).m
unfolding close_object
close_object-drops r s none e v = no_entry_of s.objects r s.m (λ c f. cc) v.entries
close_object-drops r s (some c) e v = elim (Bool-cases c.closed) [
  | inl t ↦ rw t (
      no_entry_of s.objects r s.m
        (λ d f. ap (λ (x : UdpConn). x.closed) (some-injective d c (sym f ∙ e)) ∙ t) v.entries)
  | inr t ↦ rw t (delete-drops s.objects r c s.m e v.entries)
]

close_object-All :
    (P : ℕ × ℕ → Type 0) (r : ℕ) (s : Manager) (o : Option UdpConn)
    → All P s.m
    → All P (close_object r s o).m
unfolding close_object
close_object-All P r s none h = h
close_object-All P r s (some c) h = elim (Bool-cases c.closed) [
  | inl t ↦ rw t h
  | inr t ↦ rw t (All-delete P s.m c.id h)
]

close_each-empties :
    (es : List (ℕ × ℕ)) (s : Manager)
    → IsValid s
    → All (λ e. IsIn e es) s.m
    → IsValid (close_each es s) × ((close_each es s).m ≡ [])
unfolding close_each close
close_each-empties [] s v h = (v, none_in s.m h)
  where
    none_in : (m : List (ℕ × ℕ)) → All (λ e. IsIn e []) m → m ≡ []
    none_in [] h = refl
    none_in (e ∷ m) h = absurd h.0
close_each-empties ((k, r) ∷ es) s v h = close_each-empties es (close r s) (close-IsValid r s v) (
    strengthen k r es (close r s).m
      (close_object-All (λ e. IsIn e ((k, r) ∷ es)) r s (get_elem? s.objects r) h)
      (close_object-drops r s (get_elem? s.objects r) refl v))

close_cleanup-IsValid : (s : Manager) → IsValid s → IsValid (close_cleanup s)
unfolding close_cleanup
close_cleanup-IsValid s v =
    let (w, e) = close_each-empties s.m s v (All-IsIn_self s.m) in
    record { entries = w.entries; shut = λ h. e }

step-IsValid : (s s' : Manager) → Step s s' → IsValid s → IsValid s'
unfolding feed_manager receive
step-IsValid _ _ (opens s) v = new_udp_fields s s.closed v
step-IsValid _ _ (feeds msg s s' e) v =
    let (t, f, w) = feed-IsValid msg s (lookup s.m msg.session_id) refl v in
    subst IsValid (ok-injective t s' (sym f ∙ e)) w
step-IsValid _ _ (receives r c c' x s e f) v =
    let alike = receive_loop-Alike c.receive_ch c c' x f in
    record {
      entries = entries-keep s.objects r c c' s.m e alike.0 alike.1 v.entries;
      shut = v.shut;
    }
step-IsValid _ _ (closes r s) v = close-IsValid r s v
step-IsValid _ _ (cleans s) v = close_cleanup-IsValid s v

-- In every run from a new manager each entry of the map leads to an open session with that id, and
-- once the manager is closed the map is empty.
pub sessions-Run-IsValid : (s : Manager) → Run new_udp_session_manager s → IsValid s
sessions-Run-IsValid s r =
    from_start new_udp_session_manager s r (record { entries = tt; shut = λ e. refl })
  where
    from_start : (a b : Manager) → Run a b → IsValid a → IsValid b
    from_start _ _ (done a) v = v
    from_start _ _ (step a m b r t) v = step-IsValid m b t (from_start a m r v)

-- In every run from a new manager, feeding a message does not panic: it never sends on a closed
-- channel, nor to a session that is not there.
pub sessions-Run_feeds :
    (s : Manager) (msg : UdpMessage)
    → Run new_udp_session_manager s
    → (s' : Manager) × (feed_manager msg s ≡ ok s')
unfolding feed_manager
sessions-Run_feeds s msg r =
    let (t, f, w) =
      feed-IsValid msg s (lookup s.m msg.session_id) refl (sessions-Run-IsValid s r) in
    (t, f)
