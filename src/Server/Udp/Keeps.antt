-- ===== src/Server/Udp/Keeps.antt =====
-- CloseWithErr up to ExitFunc keeps what holds of the server's UDP sessions.
use libya_link.Common.{
  ℕ, ◌≤◌, ◌<◌, ◌≡◌, refl, sym, ap, ◌∙◌, inl, inr, Bool, true, false, Option, none, some, ◌∷◌, arith,
  ◌==◌, if◌then◌else◌, Bool-cases, length, get_elem?, set, length-set,
}
use mathlib.Core.Path.{subst}
use libya_link.Session.Client.{lookup}
use libya_link.Server.Udp.{Entry, Manager, close_conn, close_entry, close_with_err}
use libya_link.Server.Udp.Counting.{
  times, owns, holds, owners-set, owners_among, times-close_conn, found_inside,
}
use libya_link.Server.Udp.Invariant.{IsLive, IsNamed, IsValid, set-cases, set-keeps}

module _ {E : Type 0} where
  -- An open session is closed, and is now to exit.
  abbrev pub shut : Manager E → ℕ → Entry → Manager E
  shut s r e = record s {
    entries = set s.entries r (record e { closed = true });
    exiting = r ∷ s.exiting;
    conns = close_conn e.conn s.conns;
  }

  pub shut-IsValid :
      (s : Manager E) (r : ℕ) (e : Entry)
      → get_elem? s.entries r ≡ some e
      → e.closed ≡ false
      → IsValid s
      → IsValid (shut s r e)
  shut-IsValid s r e g unclosed v = record {
    held = λ c.
        let here : holds c e ≡ owns c e.conn = rw unclosed refl in
        omega (
          arith,
          here,
          owners-set c s.entries r e (record e { closed = true }) g,
          owners_among c s.entries r e g,
          times-close_conn c e.conn s.conns,
          v.held c,
        );
    named = λ k q h. named k q h;
    live = λ q f h l. live q f h l;
    leaving = λ q f h. leaving q f h;
    made = λ q h.
        let beyond : length s.entries ≤ q =
          subst (λ n. n ≤ q) (length-set s.entries r (record e { closed = true })) h in
        let inside : r < length s.entries = found_inside s.entries r e g in
        ground (arith, v.made q beyond);
  }
    where
      named :
          (k q : ℕ)
          → lookup s.m k ≡ some q
          → IsNamed (set s.entries r (record e { closed = true })) (r ∷ s.exiting) k q
      named k q h =
          let (f, at, i, l) = v.named k q h in
          let (f', at', which) = set-keeps s.entries r e (record e { closed = true }) g q f at in
          elim which [
            | inl (here, was, is) ↦ (
              f',
              at',
              ap (λ (x : Entry). x.id) is ∙ ap (λ (x : Entry). x.id) (sym was) ∙ i,
              inr (ground (arith, here)),
            )
            | inr (away, is) ↦ (
              f',
              at',
              ap (λ (x : Entry). x.id) is ∙ i,
              elim l [
                | inl o ↦ inl (ap (λ (x : Entry). x.closed) is ∙ o)
                | inr some_left ↦ inr (ground arith)
              ],
            )
          ]

      live :
          (q : ℕ) (f : Entry)
          → get_elem? (set s.entries r (record e { closed = true })) q ≡ some f
          → IsLive (r ∷ s.exiting) q f
          → lookup s.m f.id ≡ some q
      live q f h l = elim (set-cases s.entries r e (record e { closed = true }) g q f h) [
        | inl (here, is) ↦
            ap (lookup s.m) (ap (λ (x : Entry). x.id) is)
            ∙ v.live r e g (inl unclosed)
            ∙ ap some (sym here)
        | inr (away, at) ↦ v.live q f at (elim l [
          | inl o ↦ inl o
          | inr some_left ↦
              let other : (r == q) ≡ false = elim (Bool-cases (r == q)) [
                | inl t ↦ absurd (away (ground arith))
                | inr t ↦ t
              ] in
              inr (ground arith)
        ])
      ]

      leaving :
          (q : ℕ) (f : Entry)
          → get_elem? (set s.entries r (record e { closed = true })) q ≡ some f
          → times q (r ∷ s.exiting) ≤ (if f.closed then 1 else 0)
      leaving q f h = elim (set-cases s.entries r e (record e { closed = true }) g q f h) [
        | inl (here, is) ↦
            let before : times r s.exiting ≤ 0 =
              subst (λ (b : Bool). times r s.exiting ≤ (if b then 1 else 0)) unclosed
                (v.leaving r e g) in
            let before' : times q s.exiting ≤ 0 =
              subst (λ n. times n s.exiting ≤ 0) (sym here) before in
            subst (λ (b : Bool). times q (r ∷ s.exiting) ≤ (if b then 1 else 0))
              (sym (ap (λ (x : Entry). x.closed) is)) (ground arith)
        | inr (away, at) ↦
            let other : (r == q) ≡ false = elim (Bool-cases (r == q)) [
              | inl t ↦ absurd (away (ground arith))
              | inr t ↦ t
            ] in
            rw other (v.leaving q f at)
      ]

  close_entry-IsValid :
      (r : ℕ) (s : Manager E) (o : Option Entry)
      → get_elem? s.entries r ≡ o
      → IsValid s
      → IsValid (close_entry r s o)
  unfolding close_entry
  close_entry-IsValid r s none g v = v
  close_entry-IsValid r s (some e) g v = elim (Bool-cases e.closed) [
    | inl t ↦ rw t v
    | inr t ↦ rw t (shut-IsValid s r e g t v)
  ]

  pub close_with_err-IsValid : (r : ℕ) (s : Manager E) → IsValid s → IsValid (close_with_err r s)
  unfolding close_with_err
  close_with_err-IsValid r s v = close_entry-IsValid r s (get_elem? s.entries r) refl v
