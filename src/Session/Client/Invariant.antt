-- ===== src/Session/Client/Invariant.antt =====
-- What holds of the client's sessions in every run.
use libya_link.Common.{
  ℕ, zero, suc, ◌<◌, ◌≡◌, refl, sym, ap, ◌∙◌, ◌≢◌, ◌⊎◌, inl, inr, Bool, true, false, Option, none,
  some, List, [], ◌∷◌, ◌++◌, arith, ltb, ◌==◌, if◌then◌else◌, Bool-cases, length, get_elem?, set,
  get_elem?-set_self, get_elem?-set_ne, All,
}
use mathlib.Core.Path.{subst}
use mathlib.Core.Option.{some-injective}
use libya_link.Common.Result.{Result, ok, err, panic}
use libya_link.Protocol.Udp.{UdpMessage}
use libya_link.Frag.Defragger.{Defragger, empty_defragger, feed}
use libya_link.Session.Client.{
  UdpConn, Manager, lookup, delete, new_udp, enqueue, feed_object, feed_session, close_object,
  close, close_each, received, receive_loop, Received, message, eof, waits, udp_message_chan_size,
}

-- Whatever a step returns.
Result-cases :
    {X : Type 0} (o : Result (Unit {0}) X)
    → (((x : X) × (o ≡ ok x)) ⊎ ((y : Unit {0}) × (o ≡ err y))) ⊎ (o ≡ panic)
Result-cases (ok x) = inl (inl (x, refl))
Result-cases (err y) = inl (inr (y, refl))
Result-cases panic = inr refl

-- An entry of the map leads to an open session with that id.
abbrev pub IsEntry : List UdpConn → ℕ × ℕ → Type 0
IsEntry objects (k, r) =
    (c : UdpConn) × (get_elem? objects r ≡ some c) × (c.id ≡ k) × (c.closed ≡ false)

pub record IsValid (s : Manager) : Type 0 where
  pub entries : All (IsEntry s.objects) s.m
  pub shut : s.closed ≡ true → s.m ≡ []

pub All-delete : (P : ℕ × ℕ → Type 0) (m : List (ℕ × ℕ)) (k : ℕ) → All P m → All P (delete m k)
unfolding delete
All-delete P [] k h = tt
All-delete P ((j, r) ∷ m) k h = elim (Bool-cases (j == k)) [
  | inl e ↦ rw e (All-delete P m k h.1)
  | inr e ↦ rw e (h.0, All-delete P m k h.1)
]

lookup-All :
    (P : ℕ × ℕ → Type 0) (m : List (ℕ × ℕ)) (k r : ℕ) → All P m → lookup m k ≡ some r → P (k, r)
unfolding lookup
lookup-All P [] k r h e = cc
lookup-All P ((j, q) ∷ m) k r h e = elim (Bool-cases (j == k)) [
  | inl t ↦
      let same : j ≡ k = ground arith in
      let hit : q ≡ r = ground (arith, some-injective q r) in rw (← same, ← hit) h.0
  | inr t ↦ lookup-All P m k r h.1 (ground arith)
]

get_elem?-append_left :
    (objects more : List UdpConn) (r : ℕ) (c : UdpConn)
    → get_elem? objects r ≡ some c
    → get_elem? (objects ++ more) r ≡ some c
get_elem?-append_left [] more r c e = cc
get_elem?-append_left (o ∷ objects) more zero c e = e
get_elem?-append_left (o ∷ objects) more (suc r) c e = get_elem?-append_left objects more r c e

get_elem?-append_last :
    (objects : List UdpConn) (c : UdpConn)
    → get_elem? (objects ++ (c ∷ [])) (length objects) ≡ some c
get_elem?-append_last [] c = refl
get_elem?-append_last (o ∷ objects) c = get_elem?-append_last objects c

get_elem?-inside :
    (objects : List UdpConn) (r : ℕ) (c : UdpConn)
    → get_elem? objects r ≡ some c
    → r < length objects
get_elem?-inside [] r c e = cc
get_elem?-inside (o ∷ objects) zero c e = omega arith
get_elem?-inside (o ∷ objects) (suc r) c e = omega (arith, get_elem?-inside objects r c e)

IsEntry-append :
    (objects more : List UdpConn) (m : List (ℕ × ℕ))
    → All (IsEntry objects) m
    → All (IsEntry (objects ++ more)) m
IsEntry-append objects more [] h = tt
IsEntry-append objects more ((k, r) ∷ m) ((c, e, i, o), t) =
    ((c, get_elem?-append_left objects more r c e, i, o), IsEntry-append objects more m t)

delete-nil : (k : ℕ) → delete [] k ≡ []
unfolding delete
delete-nil k = refl

-- Where an object changes, the entries of the other ids stand.
entries-set :
    (objects : List UdpConn) (r : ℕ) (c c' : UdpConn) (m : List (ℕ × ℕ))
    → get_elem? objects r ≡ some c
    → All (IsEntry objects) m
    → All (IsEntry (set objects r c')) (delete m c.id)
unfolding delete
entries-set objects r c c' [] e h = tt
entries-set objects r c c' ((k, q) ∷ m) e h = elim (Bool-cases (k == c.id)) [
  | inl t ↦ rw t (entries-set objects r c c' m e h.1)
  | inr t ↦
      let (d, e2, i, o) = h.0 in
      let other : r ≢ q = λ same.
        let twin : c ≡ d = some-injective c d (sym e ∙ ap (get_elem? objects) same ∙ e2) in
        let ids : c.id ≡ k = ap (λ (x : UdpConn). x.id) twin ∙ i in ground arith in
      rw t ((d, get_elem?-set_ne objects c' other ∙ e2, i, o), entries-set objects r c c' m e h.1)
]

-- A change that keeps the id and leaves the session open keeps every entry.
pub entries-keep :
    (objects : List UdpConn) (r : ℕ) (c c' : UdpConn) (m : List (ℕ × ℕ))
    → get_elem? objects r ≡ some c
    → c'.id ≡ c.id
    → c'.closed ≡ c.closed
    → All (IsEntry objects) m
    → All (IsEntry (set objects r c')) m
entries-keep objects r c c' [] e i o h = tt
entries-keep objects r c c' ((k, q) ∷ m) e i o h = elim (Bool-cases (r == q)) [
  | inl t ↦
      let same : r ≡ q = ground arith in
      let (d, e2, di, dopen) = h.0 in
      let twin : c ≡ d = some-injective c d (sym e ∙ ap (get_elem? objects) same ∙ e2) in
      (
        (
          c',
          ap (get_elem? (set objects r c')) (sym same)
              ∙ get_elem?-set_self objects r c' (get_elem?-inside objects r c e),
          i ∙ ap (λ (x : UdpConn). x.id) twin ∙ di,
          o ∙ ap (λ (x : UdpConn). x.closed) twin ∙ dopen,
        ),
        entries-keep objects r c c' m e i o h.1,
      )
  | inr t ↦
      let (d, e2, di, dopen) = h.0 in
      let other : r ≢ q = λ same. ground arith in
      (
        (d, get_elem?-set_ne objects c' other ∙ e2, di, dopen),
        entries-keep objects r c c' m e i o h.1,
      )
]

pub new_udp_fields :
    (s : Manager) (shut : Bool)
    → IsValid (record s { closed = shut })
    → IsValid (new_udp (record s { closed = shut })).1
unfolding new_udp
new_udp_fields s true v = v
new_udp_fields s false v =
    let c : UdpConn = record {
      id = s.next_id;
      d = empty_defragger;
      receive_ch = [];
      closed = false;
    } in
    record {
      entries = (
        (c, get_elem?-append_last s.objects c, refl, refl),
        IsEntry-append s.objects (c ∷ []) (delete s.m s.next_id)
            (All-delete (IsEntry s.objects) s.m s.next_id v.entries),
      );
      shut = λ e. cc;
    }

close_fields :
    (r : ℕ) (s : Manager) (o : Option UdpConn)
    → get_elem? s.objects r ≡ o
    → IsValid s
    → IsValid (close_object r s o)
unfolding close_object
close_fields r s none e v = v
close_fields r s (some c) e v = elim (Bool-cases c.closed) [
  | inl t ↦ rw t v
  | inr t ↦ rw t (record {
    entries = entries-set s.objects r c (record c { closed = true }) s.m e v.entries;
    shut = λ h. ap (λ m. delete m c.id) (v.shut h) ∙ delete-nil c.id;
  })
]

pub close-IsValid : (r : ℕ) (s : Manager) → IsValid s → IsValid (close r s)
unfolding close
close-IsValid r s v = close_fields r s (get_elem? s.objects r) refl v

enqueue-keeps :
    (msg : UdpMessage) (c : UdpConn)
    → ((enqueue msg c).id ≡ c.id) × ((enqueue msg c).closed ≡ c.closed)
unfolding enqueue
enqueue-keeps msg c = elim (Bool-cases (ltb (length c.receive_ch) udp_message_chan_size)) [
  | inl t ↦ rw t (refl, refl)
  | inr t ↦ rw t (refl, refl)
]

-- A valid state takes any message.
pub feed-IsValid :
    (msg : UdpMessage) (s : Manager) (found : Option ℕ)
    → lookup s.m msg.session_id ≡ found
    → IsValid s
    → (s' : Manager) × (feed_session msg s found ≡ ok s') × IsValid s'
unfolding feed_session feed_object
feed-IsValid msg s none e v = (s, refl, v)
feed-IsValid msg s (some r) e v =
    let (c, g, i, o) = lookup-All (IsEntry s.objects) s.m msg.session_id r v.entries e in
    (
      record s { objects = set s.objects r (enqueue msg c) },
      rw (g, o) refl,
      record {
        entries =
            entries-keep s.objects r c (enqueue msg c) s.m g (enqueue-keeps msg c).0
              (enqueue-keeps msg c).1 v.entries;
        shut = v.shut;
      },
    )

close_each-IsValid : (m : List (ℕ × ℕ)) (s : Manager) → IsValid s → IsValid (close_each m s)
unfolding close_each
close_each-IsValid [] s v = v
close_each-IsValid ((k, r) ∷ m) s v = close_each-IsValid m (close r s) (close-IsValid r s v)

pub ok-injective : {X : Type 0} (x y : X) → ◌≡◌ {A = Result (Unit {0}) X} (ok x) (ok y) → x ≡ y
ok-injective x y e = ap (λ r. elim r [ ok z ↦ z | err z ↦ x | panic ↦ x ]) e

-- A change of a session that keeps its id and whether it is closed.
abbrev pub Alike : UdpConn → UdpConn → Type 0
Alike c' c = (c'.id ≡ c.id) × (c'.closed ≡ c.closed)

received_fields :
    (c' c d : UdpConn) (x y : Received)
    → Alike d c
    → ◌≡◌ {A = Result (Unit {0}) (UdpConn × Received)} (ok (d, y)) (ok (c', x))
    → Alike c' c
received_fields c' c d x y alike e =
    subst (λ z. Alike z c) (ap (λ p. p.0) (ok-injective (d, y) (c', x) e)) alike

-- One round of the loop of Receive.
receive_loop-suc :
    (msg : UdpMessage) (queue : List UdpMessage) (c : UdpConn) (p : Defragger × Option UdpMessage)
    → feed c.d msg ≡ ok p
    → receive_loop (msg ∷ queue) c
      ≡ received queue c p.0 p.1 (receive_loop queue (record c { d = p.0 }))
unfolding receive_loop received
receive_loop-suc msg queue c p f = rw (f, receive_loop) refl

receive_loop-ok :
    (msg : UdpMessage) (queue : List UdpMessage) (c : UdpConn) (y : UdpConn × Received)
    → receive_loop (msg ∷ queue) c ≡ ok y
    → (p : Defragger × Option UdpMessage) × (feed c.d msg ≡ ok p)
unfolding receive_loop
receive_loop-ok msg queue c y e = elim (Result-cases (feed c.d msg)) [
  | inl (inl q) ↦ q
  | inl (inr (z, f)) ↦ absurd (no_err z f e)
  | inr f ↦ absurd (no_panic f e)
]
  where
    no_err : (z : Unit {0}) → feed c.d msg ≡ err z → receive_loop (msg ∷ queue) c ≢ ok y
    no_err z f = rw (f, receive_loop) (λ e. cc)

    no_panic : feed c.d msg ≡ panic → receive_loop (msg ∷ queue) c ≢ ok y
    no_panic f = rw (f, receive_loop) (λ e. cc)

received-Alike :
    (queue : List UdpMessage) (c c' : UdpConn) (x : Received) (d : Defragger)
    (whole : Option UdpMessage) (rest : Result (Unit {0}) (UdpConn × Received))
    → (rest ≡ ok (c', x) → Alike c' c)
    → received queue c d whole rest ≡ ok (c', x)
    → Alike c' c
unfolding received
received-Alike queue c c' x d none rest again e = again e
received-Alike queue c c' x d (some w) rest again e =
    received_fields c' c (record c { d = d; receive_ch = queue }) x (message w.body w.addr)
      (refl, refl) e

pub receive_loop-Alike :
    (queue : List UdpMessage) (c c' : UdpConn) (x : Received)
    → receive_loop queue c ≡ ok (c', x)
    → Alike c' c
unfolding receive_loop
receive_loop-Alike [] c c' x e =
    received_fields c' c (record c { receive_ch = [] }) x (if c.closed then eof else waits)
      (refl, refl) e
receive_loop-Alike (msg ∷ queue) c c' x e =
    let (p, f) = receive_loop-ok msg queue c (c', x) e in
    received-Alike queue c c' x p.0 p.1 (receive_loop queue (record c { d = p.0 }))
      (receive_loop-Alike queue (record c { d = p.0 }) c' x)
      (sym (receive_loop-suc msg queue c p f) ∙ e)
