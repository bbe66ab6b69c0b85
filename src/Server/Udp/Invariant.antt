-- ===== src/Server/Udp/Invariant.antt =====
-- What every step of the server's UDP sessions keeps: the open connections are those of the sessions
-- that are open, and the map is that of the sessions which have not exited.
use libya_link.Common.{
  ℕ, ◌+◌, ◌≤◌, ◌<◌, ◌≡◌, refl, sym, ap, ◌∙◌, ◌≢◌, ◌⊎◌, inl, inr, Bool, false, some, List, arith,
  ◌==◌, if◌then◌else◌, Bool-cases, length, get_elem?, set, length-set, get_elem?-set_self,
  get_elem?-set_ne,
}
use mathlib.Core.Option.{some-injective}
use mathlib.Core.Path.{subst}
use libya_link.Session.Client.{lookup}
use libya_link.Server.Udp.{Entry, Manager, Event}
use libya_link.Server.Udp.Counting.{times, holds, owners, owners-set, found_inside}

-- A session that has not exited.
abbrev pub IsLive : List ℕ → ℕ → Entry → Type 0
IsLive exiting r e = (e.closed ≡ false) ⊎ (0 < times r exiting)

abbrev pub IsNamed : List Entry → List ℕ → ℕ → ℕ → Type 0
IsNamed entries exiting k r =
    (e : Entry) × (get_elem? entries r ≡ some e) × (e.id ≡ k) × IsLive exiting r e

-- Each connection is as often open as sessions hold it; an entry of the map is a session of that id
-- that has not exited, and each such session is in the map; a closed session exits once at most.
pub record IsValid {E : Type 0} (s : Manager E) : Type 0 where
  pub held : (c : ℕ) → times c s.conns ≡ owners c s.entries
  pub named : (k r : ℕ) → lookup s.m k ≡ some r → IsNamed s.entries s.exiting k r
  pub live :
      (r : ℕ) (e : Entry)
      → get_elem? s.entries r ≡ some e
      → IsLive s.exiting r e
      → lookup s.m e.id ≡ some r
  pub leaving :
      (r : ℕ) (e : Entry)
      → get_elem? s.entries r ≡ some e
      → times r s.exiting ≤ (if e.closed then 1 else 0)
  pub made : (r : ℕ) → length s.entries ≤ r → times r s.exiting ≡ 0

-- What stands in a list after a write.
pub set-cases :
    (es : List Entry) (r : ℕ) (e e' : Entry)
    → get_elem? es r ≡ some e
    → (q : ℕ) (f : Entry) → get_elem? (set es r e') q ≡ some f
    → ((q ≡ r) × (f ≡ e')) ⊎ ((r ≢ q) × (get_elem? es q ≡ some f))
set-cases es r e e' g q f h = elim (Bool-cases (q == r)) [
  | inl t ↦
      let same : q ≡ r = ground arith in
      let here : get_elem? (set es r e') q ≡ some e' =
        ap (get_elem? (set es r e')) same ∙ get_elem?-set_self es r e' (found_inside es r e g) in
      inl (same, some-injective f e' (sym h ∙ here))
  | inr t ↦
      let other : r ≢ q = λ z. ground arith in inr (other, sym (get_elem?-set_ne es e' other) ∙ h)
]

pub set-keeps :
    (es : List Entry) (r : ℕ) (e e' : Entry)
    → get_elem? es r ≡ some e
    → (q : ℕ) (f : Entry) → get_elem? es q ≡ some f
    → (f' : Entry) × (get_elem? (set es r e') q ≡ some f')
      × (((q ≡ r) × (f ≡ e) × (f' ≡ e')) ⊎ ((r ≢ q) × (f' ≡ f)))
set-keeps es r e e' g q f h = elim (Bool-cases (q == r)) [
  | inl t ↦
      let same : q ≡ r = ground arith in
      (
        e',
        ap (get_elem? (set es r e')) same ∙ get_elem?-set_self es r e' (found_inside es r e g),
        inl (same, some-injective f e (sym h ∙ ap (get_elem? es) same ∙ g), refl),
      )
  | inr t ↦
      let other : r ≢ q = λ z. ground arith in
      (f, get_elem?-set_ne es e' other ∙ h, inr (other, refl))
]

module _ {E : Type 0} where
  -- A session is changed, and neither its id nor whether it is closed.
  pub update-IsValid :
      (s : Manager E) (r : ℕ) (e e' : Entry) (conns : List ℕ) (events : List (Event E))
      → get_elem? s.entries r ≡ some e
      → e'.id ≡ e.id
      → e'.closed ≡ e.closed
      → ((c : ℕ) → times c conns + holds c e ≡ times c s.conns + holds c e')
      → IsValid s
      → IsValid (record s { entries = set s.entries r e'; conns = conns; events = events })
  update-IsValid s r e e' conns events g same_id same_closed counts v = record {
    held = λ c. omega (arith, counts c, v.held c, owners-set c s.entries r e e' g);
    named = λ k q h. named k q h;
    live = λ q f h l. live q f h l;
    leaving = λ q f h. leaving q f h;
    made = λ q h. v.made q (subst (λ n. n ≤ q) (length-set s.entries r e') h);
  }
    where
      named : (k q : ℕ) → lookup s.m k ≡ some q → IsNamed (set s.entries r e') s.exiting k q
      named k q h =
          let (f, at, i, l) = v.named k q h in
          let (f', at', which) = set-keeps s.entries r e e' g q f at in
          elim which [
            | inl (here, was, is) ↦ (
              f',
              at',
              ap (λ (x : Entry). x.id) is ∙ same_id ∙ ap (λ (x : Entry). x.id) (sym was) ∙ i,
              subst (λ (b : Bool). (b ≡ false) ⊎ (0 < times q s.exiting))
                  (ap (λ (x : Entry). x.closed) was
                    ∙ sym same_closed
                    ∙ ap (λ (x : Entry). x.closed) (sym is))
                  l,
            )
            | inr (away, is) ↦
                (f', at', ap (λ (x : Entry). x.id) is ∙ i, subst (IsLive s.exiting q) (sym is) l)
          ]

      live :
          (q : ℕ) (f : Entry)
          → get_elem? (set s.entries r e') q ≡ some f
          → IsLive s.exiting q f
          → lookup s.m f.id ≡ some q
      live q f h l = elim (set-cases s.entries r e e' g q f h) [
        | inl (here, is) ↦
            let l' : IsLive s.exiting q e =
              subst (λ (b : Bool). (b ≡ false) ⊎ (0 < times q s.exiting))
                (ap (λ (x : Entry). x.closed) is ∙ same_closed) l in
            let found : get_elem? s.entries q ≡ some e = ap (get_elem? s.entries) here ∙ g in
            ap (lookup s.m) (ap (λ (x : Entry). x.id) is ∙ same_id) ∙ v.live q e found l'
        | inr (away, at) ↦ v.live q f at l
      ]

      leaving :
          (q : ℕ) (f : Entry)
          → get_elem? (set s.entries r e') q ≡ some f
          → times q s.exiting ≤ (if f.closed then 1 else 0)
      leaving q f h = elim (set-cases s.entries r e e' g q f h) [
        | inl (here, is) ↦
            let found : get_elem? s.entries q ≡ some e = ap (get_elem? s.entries) here ∙ g in
            subst (λ (b : Bool). times q s.exiting ≤ (if b then 1 else 0))
              (sym same_closed ∙ ap (λ (x : Entry). x.closed) (sym is)) (v.leaving q e found)
        | inr (away, at) ↦ v.leaving q f at
      ]
