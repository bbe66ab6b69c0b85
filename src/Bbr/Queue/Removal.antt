-- ===== src/Bbr/Queue/Removal.antt =====
-- Remove takes an entry out of the map that the queue stands for.
use libya_link.Common.{
  ℕ, zero, suc, ◌-◌, ◌≤◌, ◌≡◌, refl, sym, ap, ◌∙◌, ◌≢◌, inl, inr, true, false, Option, none, some,
  List, [], ◌∷◌, arith, ltb, ◌==◌, if◌then◌else◌, Bool-cases, get_elem?, set, get_or,
}
use mathlib.Core.Path.{subst}
use mathlib.Core.Option.{some-injective}
use libya_link.Common.Result.{ok, ◌>>=◌}
use libya_link.Bbr.Queue.{EntryWrapper, Queue, blank, get_entry_wrapper, clearup, remove}
use libya_link.Bbr.Queue.Map.{
  present_count, found, lookup, Starts, Numbered, found-get, slots, entry_at, IsCounted, IsQueue,
  IsSlot, get_entry_wrapper-cases,
}
use libya_link.Bbr.Queue.Clearup.{clearup-Leaves}

module _ {T : Type 0} (zero_entry : T) where
  -- The map without a number.
  abbrev pub without : ℕ → (ℕ → Option T) → ℕ → Option T
  without n f k = let entry = f k in if k == n then none else entry

  -- The slots with one of them no longer in use.
  found-set_same :
      (ws : List (EntryWrapper T)) (i : ℕ) (y : EntryWrapper T)
      → y.present ≡ false
      → found (set ws i y) i ≡ none
  found-set_same [] i y h = refl
  found-set_same (w ∷ ws) zero y h = rw h refl
  found-set_same (w ∷ ws) (suc i) y h = found-set_same ws i y h

  found-set_other :
      (ws : List (EntryWrapper T)) (i j : ℕ) (y : EntryWrapper T)
      → i ≢ j
      → found (set ws i y) j ≡ found ws j
  found-set_other [] i j y h = refl
  found-set_other (w ∷ ws) zero zero y h = absurd (h refl)
  found-set_other (w ∷ ws) zero (suc j) y h = refl
  found-set_other (w ∷ ws) (suc i) zero y h = refl
  found-set_other (w ∷ ws) (suc i) (suc j) y h = found-set_other ws i j y (λ e. h (ap suc e))

  present_count-set :
      (ws : List (EntryWrapper T)) (i : ℕ) (w y : EntryWrapper T)
      → get_elem? ws i ≡ some w
      → w.present ≡ true
      → y.present ≡ false
      → present_count ws ≡ suc (present_count (set ws i y))
  present_count-set [] i w y g h k = cc
  present_count-set (v ∷ ws) zero w y g h k =
      let shown : v.present ≡ true =
        ap (λ (x : EntryWrapper T). x.present) (some-injective v w g) ∙ h in
      rw (shown, k) refl
  present_count-set (v ∷ ws) (suc i) w y g h k = elim (Bool-cases v.present) [
    | inl t ↦ rw t (ap suc (present_count-set ws i w y g h k))
    | inr t ↦ rw t (present_count-set ws i w y g h k)
  ]

  Numbered-set :
      (first : ℕ) (ws : List (EntryWrapper T)) (i : ℕ) (y : EntryWrapper T)
      → Starts first ws
      → Numbered first (set ws i y)
  Numbered-set first [] i y s = tt
  Numbered-set first (w ∷ ws) zero y s = s.1
  Numbered-set first (w ∷ ws) (suc i) y s = s.1

  Starts-set :
      (first : ℕ) (ws : List (EntryWrapper T)) (i : ℕ) (y : EntryWrapper T)
      → Starts first ws
      → i ≢ 0
      → Starts first (set ws i y)
  Starts-set first [] i y s h = s
  Starts-set first (w ∷ ws) zero y s h = absurd (h refl)
  Starts-set first (w ∷ ws) (suc i) y s h = s

  lookup-set :
      (first n k : ℕ) (ws : List (EntryWrapper T)) (y : EntryWrapper T)
      → first ≤ n
      → y.present ≡ false
      → lookup first (set ws (n - first) y) k ≡ without n (lookup first ws) k
  lookup-set first n k ws y from absent = elim (Bool-cases (ltb k first)) [
    | inl t ↦ ground arith
    | inr t ↦ elim (Bool-cases (k == n)) [
      | inl u ↦
          let same : k ≡ n = ground arith in
          rw (u, t)
            (ap (λ j. found (set ws (n - first) y) (j - first)) same
              ∙ found-set_same ws (n - first) y absent)
      | inr u ↦ rw (u, t) (found-set_other ws (n - first) (k - first) y (λ e. ground arith))
    ]
  ]

  -- The queue behind the marking of a slot.
  marked : Queue T → ℕ → Queue T
  marked q k = record q {
    entries = record (q.entries) {
      ring =
          set q.entries.ring k
            (record (get_or q.entries.ring k (blank zero_entry)) { present = false });
    };
    number_of_present_entries = q.number_of_present_entries - 1;
  }

  remove-slot :
      (n k : ℕ) (q : Queue T)
      → get_entry_wrapper zero_entry n q ≡ ok (some k)
      → remove zero_entry n q ≡ (
          if n == q.first_packet
          then (clearup zero_entry (marked q k) >>= λ p.
              ok (p, some (get_or q.entries.ring k (blank zero_entry)).entry))
          else ok (marked q k, some (get_or q.entries.ring k (blank zero_entry)).entry))
  unfolding remove marked
  remove-slot n k q e = rw (e, remove) refl

  remove-none :
      (n : ℕ) (q : Queue T)
      → get_entry_wrapper zero_entry n q ≡ ok none
      → remove zero_entry n q ≡ ok (q, none)
  unfolding remove
  remove-none n q e = rw (e, remove) refl

  off_mark : Queue T → ℕ → EntryWrapper T
  off_mark q k = record (get_or q.entries.ring k (blank zero_entry)) { present = false }

  marked-slots :
      (q : Queue T) (n k : ℕ)
      → IsSlot zero_entry q n k
      → slots zero_entry (marked q k) ≡ set (slots zero_entry q) (n - q.first_packet) (off_mark q k)
  unfolding marked off_mark
  marked-slots q n k (e, from, g, present, write) =
      (write (record (get_or q.entries.ring k (blank zero_entry)) { present = false })).1

  marked-IsCounted :
      (q : Queue T) (n k : ℕ)
      → IsQueue zero_entry q
      → IsSlot zero_entry q n k
      → IsCounted zero_entry (marked q k)
  unfolding marked
  marked-IsCounted q n k v slot =
      let w : EntryWrapper T = get_or q.entries.ring k (blank zero_entry) in
      let fewer =
        present_count-set (slots zero_entry q) (n - q.first_packet) w (off_mark q k) slot.2 slot.3
          (unfold off_mark in refl) in
      let one_less : (marked q k).number_of_present_entries
          ≡ present_count (set (slots zero_entry q) (n - q.first_packet) (off_mark q k)) =
        unfold marked in omega (arith, v.counted, fewer) in
      record {
        ring = unfold marked in (slot.4 (record w { present = false })).0;
        counted = one_less ∙ ap present_count (sym (marked-slots q n k slot));
        numbered = subst (Numbered q.first_packet) (sym (marked-slots q n k slot)) (
            Numbered-set q.first_packet (slots zero_entry q) (n - q.first_packet) (off_mark q k)
              v.starts);
      }

  marked-entry_at :
      (q : Queue T) (n k j : ℕ)
      → IsSlot zero_entry q n k
      → entry_at zero_entry (marked q k) j ≡ without n (entry_at zero_entry q) j
  marked-entry_at q n k j slot =
      let moved : entry_at zero_entry (marked q k) j
          ≡ lookup q.first_packet (set (slots zero_entry q) (n - q.first_packet) (off_mark q k)) j =
        unfold marked in ap (λ ws. lookup q.first_packet ws j) (marked-slots q n k slot) in
      moved
      ∙ lookup-set q.first_packet n j (slots zero_entry q) (off_mark q k) slot.1
          (unfold off_mark in refl)

  slot-entry_at :
      (q : Queue T) (n k : ℕ)
      → IsSlot zero_entry q n k
      → entry_at zero_entry q n ≡ some (get_or q.entries.ring k (blank zero_entry)).entry
  slot-entry_at q n k (e, from, g, present, write) =
      let after : ltb n q.first_packet ≡ false = ground arith in
      rw (after, found-get (slots zero_entry q) (n - q.first_packet) _ g, present) refl

  remove-used :
      (q : Queue T) (n k : ℕ)
      → IsQueue zero_entry q
      → IsSlot zero_entry q n k
      → (q' : Queue T) × (remove zero_entry n q ≡ ok (q', entry_at zero_entry q n))
        × IsQueue zero_entry q'
        × ((j : ℕ) → entry_at zero_entry q' j ≡ without n (entry_at zero_entry q) j)
  remove-used q n k v slot =
      let counted = marked-IsCounted q n k v slot in
      let (q', e, w, same) = clearup-Leaves zero_entry (marked q k) counted in
      elim (Bool-cases (n == q.first_packet)) [
        | inl t ↦ (
          q',
          remove-slot n k q slot.0 ∙ rw (t, e, slot-entry_at q n k slot) refl,
          w,
          λ j. same j ∙ marked-entry_at q n k j slot,
        )
        | inr t ↦ (
          marked q k,
          remove-slot n k q slot.0 ∙ rw (t, slot-entry_at q n k slot) refl,
          record {
            ring = counted.ring;
            counted = counted.counted;
            starts =
                unfold marked in
                subst (Starts q.first_packet) (sym (marked-slots q n k slot)) (
                  Starts-set q.first_packet (slots zero_entry q) (n - q.first_packet) (off_mark q k)
                    v.starts (λ z. ground (arith, slot.1)));
          },
          λ j. marked-entry_at q n k j slot,
        )
      ]

  -- Remove never panics. It answers with the entry of the map, for which the callback is called if
  -- there is one, and takes that number, and no other, out of the map.
  pub remove-entry_at :
      (q : Queue T) (n : ℕ)
      → IsQueue zero_entry q
      → (q' : Queue T) × (remove zero_entry n q ≡ ok (q', entry_at zero_entry q n))
        × IsQueue zero_entry q'
        × ((k : ℕ) → entry_at zero_entry q' k ≡ without n (entry_at zero_entry q) k)
  remove-entry_at q n v = elim (get_entry_wrapper-cases zero_entry q n v) [
    | inl (e, missing) ↦ (
      q,
      rw missing (remove-none n q e),
      v,
      λ k. elim (Bool-cases (k == n)) [
        | inl t ↦
            let same : k ≡ n = ground arith in rw t (ap (entry_at zero_entry q) same ∙ missing)
        | inr t ↦ rw t refl
      ],
    )
    | inr (k, slot) ↦ remove-used q n k v slot
  ]
