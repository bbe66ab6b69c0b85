-- ===== src/Server/Udp/Address.antt =====
-- The addresses of a session of core/server/udp.go, which the hook may change.
use libya_link.Common.{
  ℕ, ◌<◌, ◌≡◌, refl, sym, ap, ◌∙◌, ◌≢◌, ◌⊎◌, inl, inr, true, false, Option, none, some, List, [],
  arith, ◌==◌, Bool-cases, length, get_elem?, set, get_elem?-set_self,
}
use libya_link.Server.Udp.{Entry, Manager, Failure}
use libya_link.Server.Udp.Counting.{found_inside}
use libya_link.Common.Strings.{str_eq}
use libya_link.Server.Udp.{Answers, connected, use_dialed, init_entry, init_conn, dial_func}
use libya_link.Server.Udp.Loops.{reply_addr}
use libya_link.Server.Udp.Changes.{connected-fields}
use libya_link.Common.Strings.{str_eq_sound, str_eq_refl}
use libya_link.Server.Udp.{hook_and_dial, dial}
use libya_link.Server.Udp.Feeding.{target}

-- Between a client that asks for `addr` and a connection to `actual`.
abbrev pub Translates : List ℕ → List ℕ → Entry → Type 0
Translates addr actual e =
    ((addr ≡ actual) × ((x : List ℕ) → (target e x ≡ x) × (reply_addr e x ≡ x)))
    ⊎ ((addr ≢ actual) × ((x : List ℕ) → (target e x ≡ actual) × (reply_addr e x ≡ addr)))

connected-Translates :
    (addr actual : List ℕ) (conn : ℕ) (e : Entry)
    → e.override_addr ≡ []
    → e.original_addr ≡ []
    → 0 < length addr
    → 0 < length actual
    → Translates addr actual (connected addr actual conn e)
unfolding connected target reply_addr
connected-Translates addr actual conn e no_override no_original some_addr some_actual =
    elim (Bool-cases (str_eq addr actual)) [
      | inl t ↦
          inl
            (str_eq_sound addr actual t, λ x. (rw (t, no_override) refl, rw (t, no_original) refl))
      | inr t ↦
          let differ : addr ≢ actual = λ z.
            let alike : str_eq addr actual ≡ true = ap (str_eq addr) (sym z) ∙ str_eq_refl addr in
            ground arith in
          let full : (length actual == 0) ≡ false = ground arith in
          let full' : (length addr == 0) ≡ false = ground arith in
          inr (differ, λ x. (rw (t, full) refl, rw (t, full') refl))
    ]

module _ {E : Type 0} where
  -- A session without a connection, whose hook leaves an address and whose dial succeeds, has then
  -- that connection. If the hook left the address alone, Feed writes to the address of each message
  -- and replies keep theirs; else Feed writes to the hook's address, and replies carry the first
  -- message's.
  pub init_conn-Translates :
      (a : Answers E) (addr actual : List ℕ) (conn r : ℕ) (s : Manager E) (e : Entry)
      → get_elem? s.entries r ≡ some e
      → e.conn ≡ none
      → e.closed ≡ false
      → e.override_addr ≡ []
      → e.original_addr ≡ []
      → a.hook ≡ inr actual
      → a.udp ≡ inr conn
      → 0 < length addr
      → 0 < length actual
      → ((init_conn a addr r s).0 ≡ none)
        × ((e' : Entry) × (get_elem? (init_conn a addr r s).1.entries r ≡ some e')
            × (e'.conn ≡ some conn)
            × Translates addr actual e')
  unfolding init_conn init_entry dial_func hook_and_dial dial use_dialed
  init_conn-Translates a addr actual conn r s e g idle unclosed no_override no_original hook udp
        some_addr some_actual =
      let is : init_conn a addr r s
          ≡ use_dialed r addr (record s { events = (dial_func e.id a s.events).1 }) e
              (inr (conn, actual)) =
        ap (init_entry a addr r s) g ∙ rw (idle, unclosed, hook, udp) refl in
      let kept : get_elem? (set s.entries r (connected addr actual conn e)) r
          ≡ some (connected addr actual conn e) =
        get_elem?-set_self s.entries r _ (found_inside s.entries r e g) in
      (
        ap (λ (p : Option (Failure E) × Manager E). p.0) is,
        (
          connected addr actual conn e,
          ap (λ (p : Option (Failure E) × Manager E). get_elem? p.1.entries r) is ∙ kept,
          (connected-fields addr actual conn e).2,
          connected-Translates addr actual conn e no_override no_original some_addr some_actual,
        ),
      )
