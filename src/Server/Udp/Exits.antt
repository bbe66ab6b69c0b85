-- ===== src/Server/Udp/Exits.antt =====
-- ExitFunc and a new session keep what holds of the server's UDP sessions.
use libya_link.Common.{
  ℕ, ◌-◌, ◌≤◌, ◌<◌, ◌≡◌, refl, sym, ap, ◌∙◌, ◌≢◌, inl, inr, Bool, true, false, Option, none, some,
  List, [], ◌∷◌, ◌++◌, arith, ◌==◌, if◌then◌else◌, Bool-cases, length, get_elem?, length-append,
}
use mathlib.Core.Option.{some-injective}
use mathlib.Core.Path.{subst}
use libya_link.Session.Client.{lookup, delete}
use libya_link.Server.Udp.{
  Entry, Manager, Event, Failure, remove_one, exit_entry, exit_func, logged_close,
  new_udp_session_entry,
}
use libya_link.Server.Udp.Counting.{
  times, holds, owners-append, times-remove_one, lookup-delete_same, lookup-delete_other,
  found_inside, found_last, found_before,
}
use libya_link.Server.Udp.Invariant.{IsLive, IsNamed, IsValid}
use libya_link.Server.Udp.Feeding.{find_or_add, session_of}

-- Two numbers that differ are not equal to the test.
apart : (r q : ℕ) → r ≢ q → (r == q) ≡ false
apart r q h = elim (Bool-cases (r == q)) [ inl t ↦ absurd (h (ground arith)) | inr t ↦ t ]

module _ {E : Type 0} where
  -- A session has exited.
  abbrev left : Manager E → ℕ → Entry → List (Event E) → Manager E
  left s r e events = record s {
    m = delete s.m e.id;
    exiting = remove_one s.exiting r;
    events = events;
  }

  left-IsValid :
      (s : Manager E) (r : ℕ) (e : Entry) (events : List (Event E))
      → get_elem? s.entries r ≡ some e
      → 0 < times r s.exiting
      → IsValid s
      → IsValid (left s r e events)
  left-IsValid s r e events g some_left v = record {
    held = v.held;
    named = λ k q h. named k q h;
    live = λ q f h l. live q f h l;
    leaving = λ q f h. omega (arith, v.leaving q f h, fewer q);
    made = λ q h. omega (arith, v.made q h, fewer q);
  }
    where
      fewer : (q : ℕ) → times q (remove_one s.exiting r) ≤ times q s.exiting
      fewer q = ground (arith, times-remove_one q s.exiting r)

      others : (q : ℕ) → (r == q) ≡ false → times q (remove_one s.exiting r) ≡ times q s.exiting
      others q other = ground (arith, times-remove_one q s.exiting r)

      named :
          (k q : ℕ)
          → lookup (delete s.m e.id) k ≡ some q
          → IsNamed s.entries (remove_one s.exiting r) k q
      named k q h = elim (Bool-cases (e.id == k)) [
        | inl t ↦
            let same : e.id ≡ k = ground arith in
            let gone : lookup (delete s.m e.id) k ≡ none =
              ap (lookup (delete s.m e.id)) (sym same) ∙ lookup-delete_same s.m e.id in
            cc
        | inr t ↦
            let (f, at, i, l) = v.named k q (sym (lookup-delete_other s.m e.id k t) ∙ h) in
            let away : r ≢ q = λ z.
              let twin : e ≡ f = some-injective e f (sym g ∙ ap (get_elem? s.entries) z ∙ at) in
              let ids : e.id ≡ k = ap (λ (x : Entry). x.id) twin ∙ i in ground arith in
            (
              f,
              at,
              i,
              elim l [ inl o ↦ inl o | inr u ↦ inr (omega (arith, u, others q (apart r q away))) ],
            )
      ]

      live :
          (q : ℕ) (f : Entry)
          → get_elem? s.entries q ≡ some f
          → IsLive (remove_one s.exiting r) q f
          → lookup (delete s.m e.id) f.id ≡ some q
      live q f h l =
          let still : IsLive s.exiting q f = elim l [
            | inl o ↦ inl o
            | inr u ↦ inr (omega (arith, u, fewer q))
          ] in
          let at : lookup s.m f.id ≡ some q = v.live q f h still in
          let mine : lookup s.m e.id ≡ some r = v.live r e g (inr some_left) in
          let away : r ≢ q = λ z.
            let twin : e ≡ f = some-injective e f (sym g ∙ ap (get_elem? s.entries) z ∙ h) in
            let shut : times r s.exiting ≤ (if e.closed then 1 else 0) = v.leaving r e g in
            let one : times q (remove_one s.exiting r) ≡ times q s.exiting - 1 =
              ground (arith, times-remove_one q s.exiting r, z) in
            let most : times q s.exiting ≤ (if e.closed then 1 else 0) =
              subst (λ n. times n s.exiting ≤ (if e.closed then 1 else 0)) z shut in
            let some_here : 0 < times q s.exiting =
              subst (λ n. 0 < times n s.exiting) z some_left in
            (elim l [
              | inl o ↦
                  let open_too : e.closed ≡ false = ap (λ (x : Entry). x.closed) twin ∙ o in
                  let none_left : times q s.exiting ≤ 0 =
                    subst (λ (b : Bool). times q s.exiting ≤ (if b then 1 else 0)) open_too most in
                  omega arith
              | inr u ↦ ground arith
            ]) in
          let ids : (e.id == f.id) ≡ false =
            apart e.id f.id (λ z. away (some-injective r q (sym mine ∙ ap (lookup s.m) z ∙ at))) in
          lookup-delete_other s.m e.id f.id ids ∙ at

  exit_entry-IsValid :
      (r : ℕ) (error : Option (Failure E)) (s : Manager E) (o : Option Entry)
      → get_elem? s.entries r ≡ o
      → 0 < times r s.exiting
      → IsValid s
      → IsValid (exit_entry r error s o)
  unfolding exit_entry
  exit_entry-IsValid r error s none g u v = v
  exit_entry-IsValid r error s (some e) g u v =
      left-IsValid s r e (s.events ++ (logged_close e.id error ∷ [])) g u v

  pub exit_func-IsValid :
      (r : ℕ) (error : Option (Failure E)) (s : Manager E)
      → 0 < times r s.exiting
      → IsValid s
      → IsValid (exit_func r error s)
  unfolding exit_func
  exit_func-IsValid r error s u v = exit_entry-IsValid r error s (get_elem? s.entries r) refl u v

  -- A new session.
  abbrev added : Manager E → Entry → Manager E
  added s e = record s {
    entries = s.entries ++ (e ∷ []);
    m = (e.id, length s.entries) ∷ delete s.m e.id;
  }

  added-IsValid :
      (s : Manager E) (e : Entry)
      → lookup s.m e.id ≡ none
      → ((c : ℕ) → holds c e ≡ 0)
      → e.closed ≡ false
      → IsValid s
      → IsValid (added s e)
  unfolding lookup
  added-IsValid s e missing idle unclosed v = record {
    held = λ c. omega (arith, v.held c, owners-append c s.entries e, idle c);
    named = λ k q h. named k q h;
    live = λ q f h l. live q f h l;
    leaving = λ q f h. leaving q f h;
    made = λ q h. v.made q (omega (arith, h, length-append s.entries (e ∷ [])));
  }
    where
      named :
          (k q : ℕ)
          → lookup ((e.id, length s.entries) ∷ delete s.m e.id) k ≡ some q
          → IsNamed (s.entries ++ (e ∷ [])) s.exiting k q
      named k q h = elim (Bool-cases (e.id == k)) [
        | inl t ↦
            let at_end : some (length s.entries) ≡ some q = sym (rw t refl) ∙ h in
            let last : length s.entries ≡ q = some-injective _ _ at_end in
            (
              e,
              subst (λ n. get_elem? (s.entries ++ (e ∷ [])) n ≡ some e) last
                  (found_last s.entries e),
              ground arith,
              inl unclosed,
            )
        | inr t ↦
            let before : lookup s.m k ≡ some q =
              sym (lookup-delete_other s.m e.id k t) ∙ sym (rw t refl) ∙ h in
            let (f, at, i, l) = v.named k q before in
            let inside : q < length s.entries = found_inside s.entries q f at in
            (f, found_before s.entries e q (ground arith) ∙ at, i, l)
      ]

      live :
          (q : ℕ) (f : Entry)
          → get_elem? (s.entries ++ (e ∷ [])) q ≡ some f
          → IsLive s.exiting q f
          → lookup ((e.id, length s.entries) ∷ delete s.m e.id) f.id ≡ some q
      live q f h l = elim (Bool-cases (q == length s.entries)) [
        | inl t ↦
            let last : q ≡ length s.entries = ground arith in
            let is : f ≡ e =
              some-injective f e
                (sym h ∙ ap (get_elem? (s.entries ++ (e ∷ []))) last ∙ found_last s.entries e) in
            let own : (e.id == f.id) ≡ true = ground (arith, ap (λ (x : Entry). x.id) is) in
            rw own (ap some (sym last))
        | inr t ↦
            let at : get_elem? s.entries q ≡ some f = sym (found_before s.entries e q t) ∙ h in
            let mine : lookup s.m f.id ≡ some q = v.live q f at l in
            let other : (e.id == f.id) ≡ false = apart e.id f.id (λ z.
              let nothing : lookup s.m f.id ≡ none = ap (lookup s.m) (sym z) ∙ missing in cc) in
            rw other (lookup-delete_other s.m e.id f.id other ∙ mine)
      ]

      leaving :
          (q : ℕ) (f : Entry)
          → get_elem? (s.entries ++ (e ∷ [])) q ≡ some f
          → times q s.exiting ≤ (if f.closed then 1 else 0)
      leaving q f h = elim (Bool-cases (q == length s.entries)) [
        | inl t ↦ omega (arith, v.made q (ground arith))
        | inr t ↦ v.leaving q f (sym (found_before s.entries e q t) ∙ h)
      ]

  find_or_add-IsValid :
      (now id : ℕ) (s : Manager E) (o : Option ℕ)
      → lookup s.m id ≡ o
      → IsValid s
      → IsValid (find_or_add now id s o).1
  unfolding find_or_add new_udp_session_entry
  find_or_add-IsValid now id s none h v =
      added-IsValid s (new_udp_session_entry now id) h (λ c. refl) refl v
  find_or_add-IsValid now id s (some r) h v = v

  pub session_of-IsValid :
      (now id : ℕ) (s : Manager E) → IsValid s → IsValid (session_of now id s).1
  unfolding session_of
  session_of-IsValid now id s v = find_or_add-IsValid now id s (lookup s.m id) refl v
