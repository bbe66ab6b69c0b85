-- ===== src/Bbr/AckPoints/Choice.antt =====
-- What chooseA0Point of core/internal/congestion/bbr/bandwidth_sampler.go answers, and what it takes.
use libya_link.Common.{
  ℕ, zero, suc, ◌+◌, ◌-◌, ◌/◌, ◌≤◌, ◌<◌, ◌≡◌, refl, sym, ap, ◌∙◌, ◌⊎◌, inl, inr, true, false, none,
  some, List, [], ◌∷◌, arith, ltb, ◌==◌, Bool-cases, length, get_elem?, drop,
}
use mathlib.Core.Option.{some-injective}
use mathlib.Core.Path.{subst}
use libya_link.Common.Result.{Result, ok}
use libya_link.Bbr.Ring.{Ring, len, is_empty, back, offset}
use libya_link.Bbr.Ring.Items.{IsValid, items}
use libya_link.Bbr.Ring.Laws.{pop_front-IsValid, offset-items}
use libya_link.Bbr.Ring.View.{length-items, is_empty-items, front-items}
use libya_link.Bbr.AckPoints.{
  AckPoint, zero_point, after, pop_many, pop_rest, scan, choose_a0_point,
}

abbrev points : Ring AckPoint → List AckPoint
points r = items zero_point r

-- What pops leave: the points but the first `n`.
abbrev Leaves : ℕ → Ring AckPoint → Result (Unit {0}) (Ring AckPoint) → Type 0
Leaves n r res = (r' : Ring AckPoint) × (res ≡ ok r') × IsValid r' × (points r' ≡ drop n (points r))

pop_many-Leaves :
    (n : ℕ) (r : Ring AckPoint) → IsValid r → n ≤ length (points r) → Leaves n r (pop_many n r)
unfolding pop_many
pop_many-Leaves zero r v h = (r, refl, v, refl)
pop_many-Leaves (suc n) r v h = elim (pop_front-IsValid zero_point r v) [
  | inl (p, e) ↦ absurd (omega (arith, ap length e))
  | inr (x, t, p, e, w) ↦
      let (r', q, u, d) = pop_many-Leaves n t w (omega (arith, ap length e)) in
      (r', rw (p, q) refl, u, d ∙ ap (drop (suc n)) (sym e))
]

pop_rest-Leaves :
    (fuel k : ℕ) (r : Ring AckPoint)
    → IsValid r
    → (length (points r) - k) / 2 ≤ fuel
    → Leaves ((length (points r) - k) / 2) r (pop_rest fuel k r)
unfolding pop_rest
pop_rest-Leaves zero k r v h =
    let nothing : (length (points r) - k) / 2 ≡ 0 = omega arith in (r, refl, v, rw nothing refl)
pop_rest-Leaves (suc fuel) k r v h =
    let size = length-items zero_point r v in
    elim (Bool-cases (ltb k (len r - 1))) [
      | inl t ↦ elim (pop_front-IsValid zero_point r v) [
        | inl (p, e) ↦ absurd (ground (arith, size, ap length e))
        | inr (x, s, p, e, w) ↦
            let shorter : length (points r) ≡ suc (length (points s)) = ap length e in
            let one_less : (length (points r) - k) / 2 ≡ suc ((length (points s) - suc k) / 2) =
              ground (arith, size) in
            let (r', q, u, d) = pop_rest-Leaves fuel (suc k) s w (omega arith) in
            (
              r',
              rw (t, p, q) refl,
              u,
              d
                  ∙ sym (ap (drop (suc ((length (points s) - suc k) / 2))) e)
                  ∙ ap (λ n. drop n (points r)) (sym one_less),
            )
      ]
      | inr t ↦
          let nothing : (length (points r) - k) / 2 ≡ 0 = ground (arith, size) in
          (r, rw t refl, v, rw nothing refl)
    ]

-- The point of number `j` is chosen: no point from the first one behind the front to it is above the
-- total; the next one is, and the points before it are taken, or it is the last, and half of the
-- points are taken.
abbrev pub Chosen : ℕ → Ring AckPoint → AckPoint → Ring AckPoint → Type 0
Chosen total r a r' =
    (j : ℕ) × IsValid r'
    × (get_elem? (points r) j ≡ some a)
    × ((i : ℕ) (p : AckPoint)
        → 0 < i
        → i ≤ j
        → get_elem? (points r) i ≡ some p
        → after p.total_bytes_acked total ≡ false)
    × (((points r' ≡ drop j (points r))
          × ((p : AckPoint) × (get_elem? (points r) (suc j) ≡ some p)
              × (after p.total_bytes_acked total ≡ true)))
        ⊎ ((suc j ≡ length (points r)) × (points r' ≡ drop (length (points r) / 2) (points r))))

inside : (xs : List AckPoint) (i : ℕ) → i < length xs → (p : AckPoint) × (get_elem? xs i ≡ some p)
inside [] i h = absurd (omega arith)
inside (x ∷ xs) zero h = (x, refl)
inside (x ∷ xs) (suc i) h = inside xs i (omega arith)

offset-point :
    (r : Ring AckPoint) (i : ℕ) (p : AckPoint)
    → IsValid r
    → get_elem? (points r) i ≡ some p
    → offset zero_point r i ≡ ok p
offset-point r i p v g = offset-items zero_point r v i ∙ rw g refl

abbrev NotAbove : ℕ → Ring AckPoint → ℕ → Type 0
NotAbove total r j =
    (i : ℕ) (p : AckPoint)
    → 0 < i
    → i ≤ j
    → get_elem? (points r) i ≡ some p
    → after p.total_bytes_acked total ≡ false

back-point :
    (r : Ring AckPoint) (j : ℕ) (a : AckPoint)
    → IsValid r
    → suc j ≡ length (points r)
    → get_elem? (points r) j ≡ some a
    → back zero_point r ≡ ok a
unfolding back
back-point r j a v all g =
    let some_left : is_empty r ≡ false = is_empty-items zero_point r v ∙ ground arith in
    let last : len r - 1 ≡ j = omega (arith, length-items zero_point r v) in
    rw some_left (ap (offset zero_point r) last ∙ offset-point r j a v g)

pop_rest-half :
    (r : Ring AckPoint) → IsValid r → Leaves (length (points r) / 2) r (pop_rest (len r) 0 r)
pop_rest-half r v =
    let same : length (points r) - 0 ≡ length (points r) = omega arith in
    subst (λ n. Leaves (n / 2) r (pop_rest (len r) 0 r)) same
      (pop_rest-Leaves (len r) 0 r v (omega (arith, length-items zero_point r v)))

scan-last :
    (total j : ℕ) (r : Ring AckPoint) (a : AckPoint)
    → back zero_point r ≡ ok a
    → (r' : Ring AckPoint) → pop_rest (len r) 0 r ≡ ok r'
    → scan total 0 (suc j) r ≡ ok (a, r')
unfolding scan
scan-last total j r a e r' q = rw (e, q) refl

scan-found :
    (total n j : ℕ) (r : Ring AckPoint) (p a : AckPoint) (r' : Ring AckPoint)
    → offset zero_point r (suc j) ≡ ok p
    → after p.total_bytes_acked total ≡ true
    → offset zero_point r j ≡ ok a
    → pop_many j r ≡ ok r'
    → scan total (suc n) (suc j) r ≡ ok (a, r')
unfolding scan
scan-found total n j r p a r' e t f q =
    let before : suc j - 1 ≡ j = omega arith in rw (e, t, before, f, q) refl

scan-Chosen :
    (total n j : ℕ) (r : Ring AckPoint)
    → IsValid r
    → suc j + n ≡ length (points r)
    → NotAbove total r j
    → (a : AckPoint) × (r' : Ring AckPoint) × (scan total n (suc j) r ≡ ok (a, r'))
      × Chosen total r a r'
unfolding scan back
scan-Chosen total zero j r v all low =
    let last : suc j ≡ length (points r) = omega arith in
    let (a, g) = inside (points r) j (omega arith) in
    let (r', q, u, d) = pop_rest-half r v in
    (a, r', scan-last total j r a (back-point r j a v last g) r' q, (j, u, g, low, inr (last, d)))
scan-Chosen total (suc n) j r v all low =
    let (p, g) = inside (points r) (suc j) (omega arith) in
    elim (Bool-cases (after p.total_bytes_acked total)) [
      | inl t ↦
          let (a, h) = inside (points r) j (omega arith) in
          let (r', q, u, d) = pop_many-Leaves j r v (omega arith) in
          (
            a,
            r',
            scan-found total n j r p a r' (offset-point r (suc j) p v g) t (offset-point r j a v h)
                q,
            (j, u, h, low, inl (d, (p, g, t))),
          )
      | inr t ↦
          let low' : NotAbove total r (suc j) = λ i x positive upto at.
            elim (Bool-cases (i == suc j)) [
              | inl here ↦
                  let same : i ≡ suc j = ground arith in
                  let is : x ≡ p =
                    some-injective x p (sym at ∙ ap (get_elem? (points r)) same ∙ g) in
                  ap (λ (y : AckPoint). after y.total_bytes_acked total) is ∙ t
              | inr there ↦ low i x positive (ground arith) at
            ] in
          let (a, r', e, c) = scan-Chosen total n (suc j) r v (omega arith) low' in
          (a, r', rw (offset-point r (suc j) p v g, t) e, c)
    ]

-- chooseA0Point never panics on well-formed candidates. It answers false on none of them; else it
-- answers the last point before the first one, from the second on, that is above the total, and takes
-- the points before the answer. Where no such point is above, it answers the last of them, and takes
-- only half of the points.
pub choose_a0_point-Chosen :
    (total : ℕ) (r : Ring AckPoint)
    → IsValid r
    → ((points r ≡ []) × (choose_a0_point total r ≡ ok (none, r)))
      ⊎ ((a : AckPoint) × (r' : Ring AckPoint) × (choose_a0_point total r ≡ ok (some a, r'))
          × Chosen total r a r')
unfolding choose_a0_point
choose_a0_point-Chosen total r v =
    let size = length-items zero_point r v in
    elim (pop_front-IsValid zero_point r v) [
      | inl (p, e) ↦
          let nothing : is_empty r ≡ true = is_empty-items zero_point r v ∙ rw e refl in
          inl (e, rw nothing refl)
      | inr (x, t, p, e, w) ↦
          let some_left : is_empty r ≡ false =
            is_empty-items zero_point r v ∙ rw e (ground arith) in
          elim (Bool-cases (len r == 1)) [
            | inl one ↦
                let only : length (points r) ≡ 1 = ground (arith, size) in
                let half : length (points r) / 2 ≡ 0 = omega arith in
                inr (
                  x,
                  r,
                  rw (some_left, one, front-items zero_point r v x (points t) e) refl,
                  (
                    0,
                    v,
                    ap (λ xs. get_elem? xs 0) e,
                    (λ i q positive upto. absurd (omega arith)),
                    inr (omega arith, ap (λ n. drop n (points r)) (sym half)),
                  ),
                )
            | inr more ↦
                let (a, r', q, c) =
                  scan-Chosen total (len r - 1) 0 r v (ground (arith, size, ap length e))
                    (λ i p positive upto. absurd (omega arith)) in
                inr (a, r', rw (some_left, more, q) refl, c)
          ]
    ]
