-- ===== src/Bbr/Queue/Clearup.antt =====
-- clearup: the slots that are not in use are taken from the front.
use libya_link.Common.{
  ℕ, zero, suc, ◌+◌, ◌-◌, ◌≤◌, ◌≡◌, refl, sym, ap, ◌∙◌, ◌⊎◌, inl, inr, true, false, Option, List,
  [], ◌∷◌, arith, ◌==◌, if◌then◌else◌, Bool-cases, length,
}
use mathlib.Core.Path.{subst}
use libya_link.Common.Result.{ok}
use libya_link.Bbr.Ring.{Ring, len, is_empty, pop_front, front}
use libya_link.Bbr.Ring.Items.{IsValid, items}
use libya_link.Bbr.Ring.Laws.{pop_front-IsValid}
use libya_link.Bbr.Ring.View.{length-items, is_empty-items, front-items}
use libya_link.Bbr.Queue.{
  EntryWrapper, Queue, Step, blank, drop_absent, clearup, invalid_packet_number,
}
use libya_link.Bbr.Queue.Map.{
  present_count, lookup, Starts, Numbered, lookup-absent, slots, entry_at, IsCounted, IsQueue,
}

module _ {T : Type 0} (zero_entry : T) where
  -- A queue whose ring has lost its first item.
  unfoldable pub tail_of : Queue T → Ring (EntryWrapper T) → ℕ → Queue T
  tail_of q r count = record q {
    entries = r;
    number_of_present_entries = count;
    first_packet = q.first_packet + 1;
  }

  -- The first slot is in use, or there is none.
  abbrev pub Headed : List (EntryWrapper T) → Type 0
  Headed [] = Unit
  Headed (w ∷ ws) = w.present ≡ true

  abbrev pub Tidied : Queue T → Step (Queue T) → Type 0
  Tidied q s =
      (q' : Queue T) × (s ≡ ok q')
      × IsCounted zero_entry q'
      × Headed (slots zero_entry q')
      × ((n : ℕ) → entry_at zero_entry q' n ≡ entry_at zero_entry q n)

  -- The first item of the ring, as the loops take it.
  abbrev pub Popped : Queue T → EntryWrapper T → Ring (EntryWrapper T) → Type 0
  Popped q x r =
      (is_empty q.entries ≡ false)
      × (front (blank zero_entry) q.entries ≡ ok x)
      × (pop_front (blank zero_entry) q.entries ≡ ok (x, r))
      × (slots zero_entry q ≡ x ∷ items (blank zero_entry) r)
      × IsValid r

  pub pop-cases :
      (q : Queue T)
      → IsValid q.entries
      → ((is_empty q.entries ≡ true) × (slots zero_entry q ≡ []))
        ⊎ ((x : EntryWrapper T) × (r : Ring (EntryWrapper T)) × Popped q x r)
  pop-cases q v = elim (pop_front-IsValid (blank zero_entry) q.entries v) [
    | inl (p, e) ↦ inl (rw (is_empty-items (blank zero_entry) q.entries v, e) refl, e)
    | inr (x, r, p, e, w) ↦ inr (
      x,
      r,
      (
        rw (is_empty-items (blank zero_entry) q.entries v, e) (ground arith),
        front-items (blank zero_entry) q.entries v x (items (blank zero_entry) r) e,
        p,
        e,
        w,
      ),
    )
  ]

  pub Numbered-suc : (first : ℕ) (ws : List (EntryWrapper T)) → Numbered (first + 1) ws
  Numbered-suc first [] = tt
  Numbered-suc first (w ∷ ws) = omega arith

  -- The count behind a first item.
  unfoldable pub rest_count : EntryWrapper T → ℕ → ℕ
  rest_count x count = if x.present then count - 1 else count

  pub rest_count-absent :
      (x : EntryWrapper T) (count : ℕ) → x.present ≡ false → rest_count x count ≡ count
  unfolding rest_count
  rest_count-absent x count h = ground arith

  pub tail-IsCounted :
      (q : Queue T) (x : EntryWrapper T) (r : Ring (EntryWrapper T))
      → IsCounted zero_entry q
      → Popped q x r
      → IsCounted zero_entry (tail_of q r (rest_count x q.number_of_present_entries))
  unfolding tail_of rest_count
  tail-IsCounted q x r v (e, f, p, s, w) =
      let all : q.number_of_present_entries ≡ present_count (x ∷ items (blank zero_entry) r) =
        v.counted ∙ ap present_count s in
      record {
        ring = w;
        counted = ground arith;
        numbered = Numbered-suc q.first_packet (items (blank zero_entry) r);
      }

  pub drop_absent-suc :
      (fuel : ℕ) (q : Queue T) (x : EntryWrapper T) (r : Ring (EntryWrapper T))
      → Popped q x r
      → drop_absent zero_entry (suc fuel) q ≡ (
          if x.present
          then ok q
          else drop_absent zero_entry fuel (tail_of q r q.number_of_present_entries))
  unfolding drop_absent tail_of
  drop_absent-suc fuel q x r (e, f, p, s, w) = rw (e, f, p) refl

  pub shorter :
      (fuel : ℕ) (q : Queue T) (x : EntryWrapper T) (r : Ring (EntryWrapper T))
      → Popped q x r
      → length (slots zero_entry q) ≤ suc fuel
      → length (items (blank zero_entry) r) ≤ fuel
  shorter fuel q x r (e, f, p, s, w) enough = omega (arith, enough, ap length s)

  pub drop_absent-Tidied :
      (fuel : ℕ) (q : Queue T)
      → IsCounted zero_entry q
      → length (slots zero_entry q) ≤ fuel
      → Tidied q (drop_absent zero_entry fuel q)
  unfolding drop_absent
  drop_absent-Tidied zero q v enough = elim (pop-cases q v.ring) [
    | inl (e, s) ↦ (q, refl, v, rw s tt, λ n. refl)
    | inr (x, r, (e, f, p, s, w)) ↦ absurd (omega (arith, enough, ap length s))
  ]
  drop_absent-Tidied (suc fuel) q v enough = elim (pop-cases q v.ring) [
    | inl (e, s) ↦ (q, rw e refl, v, rw s tt, λ n. refl)
    | inr (x, r, popped) ↦ elim (Bool-cases x.present) [
      | inl here ↦
          (q, drop_absent-suc fuel q x r popped ∙ rw here refl, v, rw popped.3 here, λ n. refl)
      | inr absent ↦
          let behind : Queue T = tail_of q r q.number_of_present_entries in
          let kept : IsCounted zero_entry behind =
            subst (λ c. IsCounted zero_entry (tail_of q r c))
              (rest_count-absent x q.number_of_present_entries absent)
              (tail-IsCounted q x r v popped) in
          let (q', e, w, h, same) =
            drop_absent-Tidied fuel behind kept
              (unfold tail_of in shorter fuel q x r popped enough) in
          (
            q',
            drop_absent-suc fuel q x r popped
                ∙ ap (λ t. if t then ok q else drop_absent zero_entry fuel behind) absent
                ∙ e,
            w,
            h,
            λ n.
                same n
                ∙ unfold tail_of in
                  (lookup-absent q.first_packet x (items (blank zero_entry) r) n absent
                    ∙ ap (λ ws. lookup q.first_packet ws n) (sym popped.3)),
          )
    ]
  ]

  -- What a removal leaves: a queue, whose map is `f`.
  abbrev pub Leaves : Step (Queue T) → (ℕ → Option T) → Type 0
  Leaves s f =
      (q' : Queue T) × (s ≡ ok q')
      × IsQueue zero_entry q'
      × ((n : ℕ) → entry_at zero_entry q' n ≡ f n)

  pub nil_lookups :
      (first other : ℕ) (ws : List (EntryWrapper T)) (n : ℕ)
      → ws ≡ []
      → lookup first ws n ≡ lookup other ws n
  nil_lookups first other [] n h = ground arith
  nil_lookups first other (w ∷ ws) n h = cc

  pub Headed-Starts :
      (first : ℕ) (ws : List (EntryWrapper T))
      → Headed ws
      → Numbered first ws
      → (length ws == 0) ≡ false
      → Starts first ws
  Headed-Starts first [] h n e = absurd (ground arith)
  Headed-Starts first (w ∷ ws) h n e = (h, n)

  pub nil-Starts :
      (ws : List (EntryWrapper T)) → (length ws == 0) ≡ true → (Starts 0 ws) × (ws ≡ [])
  nil-Starts [] h = (refl, refl)
  nil-Starts (w ∷ ws) h = absurd (ground arith)

  pub Starts-Numbered :
      (first : ℕ) (ws : List (EntryWrapper T)) → Starts first ws → Numbered first ws
  Starts-Numbered first [] s = tt
  Starts-Numbered first (w ∷ ws) s = s.1

  pub clearup-Leaves :
      (q : Queue T) → IsCounted zero_entry q → Leaves (clearup zero_entry q) (entry_at zero_entry q)
  unfolding clearup
  clearup-Leaves q v =
      let (q', e, w, h, same) =
        drop_absent-Tidied (len q.entries) q v
          (omega (arith, length-items (blank zero_entry) q.entries v.ring)) in
      let shown : is_empty q'.entries ≡ (length (slots zero_entry q') == 0) =
        is_empty-items (blank zero_entry) q'.entries w.ring in
      elim (Bool-cases (length (slots zero_entry q') == 0)) [
        | inl t ↦ (
          record q' { first_packet = invalid_packet_number },
          rw (e, shown, t) refl,
          record {
            ring = w.ring;
            counted = w.counted;
            starts = (nil-Starts (slots zero_entry q') t).0;
          },
          λ n.
              nil_lookups 0 q'.first_packet (slots zero_entry q') n
                (nil-Starts (slots zero_entry q') t).1
              ∙ same n,
        )
        | inr t ↦ (
          q',
          rw (e, shown, t) refl,
          record {
            ring = w.ring;
            counted = w.counted;
            starts = Headed-Starts q'.first_packet (slots zero_entry q') h w.numbered t;
          },
          same,
        )
      ]
