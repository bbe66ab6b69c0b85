-- ===== src/Bbr/Queue/Insertion.antt =====
-- Emplace puts an entry into the map that the queue stands for.
use libya_link.Common.{
  ℕ, zero, suc, ◌+◌, ◌-◌, ◌≤◌, ◌<◌, ◌≡◌, refl, sym, ap, ◌∙◌, ◌≢◌, ◌⊎◌, inl, inr, true, false,
  Option, none, some, List, [], ◌∷◌, ◌++◌, arith, ltb, leb, ◌==◌, if◌then◌else◌, leb→le, Bool-cases,
  length, length-append,
}
use mathlib.Core.Path.{subst}
use libya_link.Bbr.Ring.{Ring, len, push_back, init}
use libya_link.Bbr.Ring.Items.{IsValid, items}
use libya_link.Bbr.Ring.Laws.{push_back-IsValid, init-IsValid}
use libya_link.Bbr.Ring.View.{length-items}
use libya_link.Bbr.Queue.{
  EntryWrapper, Queue, last_packet, blank, push_gap, emplace, new_queue, invalid_packet_number,
}
use libya_link.Bbr.Queue.Map.{
  present_count, content, found, lookup, Starts, found-beyond, slots, entry_at, IsQueue,
  queue_is_empty-slots,
}

module _ {T : Type 0} where
  found-append_last :
      (ws : List (EntryWrapper T)) (w : EntryWrapper T)
      → found (ws ++ (w ∷ [])) (length ws) ≡ content w
  found-append_last [] w = refl
  found-append_last (v ∷ ws) w = found-append_last ws w

  found-append_other :
      (ws : List (EntryWrapper T)) (w : EntryWrapper T) (i : ℕ)
      → i ≢ length ws
      → found (ws ++ (w ∷ [])) i ≡ found ws i
  found-append_other [] w zero h = absurd (h refl)
  found-append_other [] w (suc i) h = refl
  found-append_other (v ∷ ws) w zero h = refl
  found-append_other (v ∷ ws) w (suc i) h = found-append_other ws w i (λ e. h (ap suc e))

  present_count-append :
      (ws : List (EntryWrapper T)) (w : EntryWrapper T)
      → present_count (ws ++ (w ∷ [])) ≡ present_count ws + (if w.present then 1 else 0)
  present_count-append [] w = ground arith
  present_count-append (v ∷ ws) w = ground (arith, present_count-append ws w)

  Starts-append :
      (first : ℕ) (ws : List (EntryWrapper T)) (w : EntryWrapper T)
      → Starts first ws
      → (length ws == 0) ≡ false
      → Starts first (ws ++ (w ∷ []))
  Starts-append first [] w s e = absurd (ground arith)
  Starts-append first (v ∷ ws) w s e = s

  Starts-positive :
      (first : ℕ) (ws : List (EntryWrapper T))
      → Starts first ws
      → (length ws == 0) ≡ false
      → 0 < first
  Starts-positive first [] s e = absurd (ground arith)
  Starts-positive first (v ∷ ws) s e = s.1

module _ {T : Type 0} (zero_entry : T) where
  -- A ring with a gap of unused slots behind it holds what it held.
  abbrev Padded : Ring (EntryWrapper T) → Ring (EntryWrapper T) → ℕ → Type 0
  Padded r r' gap =
      IsValid r'
      × (length (items (blank zero_entry) r') ≡ length (items (blank zero_entry) r) + gap)
      × (present_count (items (blank zero_entry) r') ≡ present_count (items (blank zero_entry) r))
      × ((i : ℕ) → found (items (blank zero_entry) r') i ≡ found (items (blank zero_entry) r) i)
      × ((first : ℕ)
          → (length (items (blank zero_entry) r) == 0) ≡ false
          → Starts first (items (blank zero_entry) r)
          → Starts first (items (blank zero_entry) r'))

  found-blank :
      (ws : List (EntryWrapper T)) (i : ℕ) → found (ws ++ (blank zero_entry ∷ [])) i ≡ found ws i
  found-blank ws i = elim (Bool-cases (i == length ws)) [
    | inl t ↦
        let same : i ≡ length ws = ground arith in
        rw same (
          found-append_last ws (blank zero_entry) ∙ sym (found-beyond ws (length ws) (omega arith)))
    | inr t ↦ found-append_other ws (blank zero_entry) i (λ e. ground arith)
  ]

  Padded-push_back :
      (r : Ring (EntryWrapper T))
      → IsValid r
      → Padded r (push_back (blank zero_entry) (blank zero_entry) r) 1
  Padded-push_back r v =
      let (w, e) = push_back-IsValid (blank zero_entry) (blank zero_entry) r v in
      let ws = items (blank zero_entry) r in
      (
        w,
        ap length e ∙ length-append ws (blank zero_entry ∷ []),
        ap present_count e ∙ present_count-append ws (blank zero_entry) ∙ omega arith,
        λ i. ap (λ xs. found xs i) e ∙ found-blank ws i,
        λ first some s.
            subst (Starts first) (sym e) (Starts-append first ws (blank zero_entry) s some),
      )

  push_gap-Padded :
      (gap : ℕ) (r : Ring (EntryWrapper T)) → IsValid r → Padded r (push_gap zero_entry gap r) gap
  unfolding push_gap
  push_gap-Padded zero r v = (v, omega arith, refl, λ i. refl, λ first e s. s)
  push_gap-Padded (suc gap) r v =
      let once : Ring (EntryWrapper T) = push_back (blank zero_entry) (blank zero_entry) r in
      let (w, l, c, f, s) = Padded-push_back r v in
      let (w', l', c', f', s') = push_gap-Padded gap once w in
      (
        w',
        omega (arith, l, l'),
        c' ∙ c,
        λ i. f' i ∙ f i,
        λ first e t. s' first (ground (arith, l)) (s first e t),
      )

  -- The map with an entry under a number.
  abbrev pub with_entry : ℕ → T → (ℕ → Option T) → ℕ → Option T
  with_entry n e f k = let entry = f k in if k == n then some e else entry

  lookup-push :
      (first n k : ℕ) (ws : List (EntryWrapper T)) (e : T)
      → first ≤ n
      → n - first ≡ length ws
      → lookup first (ws ++ (record { present = true; entry = e } ∷ [])) k
        ≡ with_entry n e (lookup first ws) k
  lookup-push first n k ws e from here = elim (Bool-cases (k == n)) [
    | inl t ↦
        let same : k - first ≡ length ws = ground arith in
        let after : ltb k first ≡ false = ground arith in
        rw (t, after)
          (ap (found (ws ++ (record { present = true; entry = e } ∷ []))) same
            ∙ found-append_last ws (record { present = true; entry = e }))
    | inr t ↦ elim (Bool-cases (ltb k first)) [
      | inl u ↦ rw (t, u) refl
      | inr u ↦
          rw (t, u)
            (found-append_other ws (record { present = true; entry = e }) (k - first)
              (λ z. ground arith))
    ]
  ]

  pub new_queue-IsQueue : (size : ℕ) → IsQueue zero_entry (new_queue zero_entry size)
  unfolding new_queue init len
  new_queue-IsQueue size = record {
    ring = unfold init in init-IsValid (blank zero_entry) size;
    counted = refl;
    starts = refl;
  }

  abbrev Accepts : Queue T → ℕ → T → Type 0
  Accepts q n e =
      (q' : Queue T) × (emplace zero_entry n (some e) q ≡ (q', true))
      × IsQueue zero_entry q'
      × ((k : ℕ) → entry_at zero_entry q' k ≡ with_entry n e (entry_at zero_entry q) k)

  abbrev in_use : T → EntryWrapper T
  in_use e = record { present = true; entry = e }

  lookup-only :
      (first n k : ℕ) (ws : List (EntryWrapper T)) (e : T)
      → (length ws == 0) ≡ true
      → lookup n (ws ++ (in_use e ∷ [])) k ≡ with_entry n e (lookup first ws) k
  lookup-only first n k [] e h = lookup-push n n k [] e (omega arith) (omega arith) ∙ ground arith
  lookup-only first n k (w ∷ ws) e h = absurd (ground arith)

  Starts-only :
      (n : ℕ) (ws : List (EntryWrapper T)) (e : T)
      → (length ws == 0) ≡ true
      → 0 < n
      → Starts n (ws ++ (in_use e ∷ []))
  Starts-only n [] e h p = (refl, p)
  Starts-only n (w ∷ ws) e h p = absurd (ground arith)

  count-only :
      (ws : List (EntryWrapper T)) (e : T)
      → (length ws == 0) ≡ true
      → 1 ≡ present_count (ws ++ (in_use e ∷ []))
  count-only [] e h = refl
  count-only (w ∷ ws) e h = absurd (ground arith)

  -- The queue after the first entry.
  emplace-first :
      (q : Queue T) (n : ℕ) (e : T)
      → IsQueue zero_entry q
      → (n == invalid_packet_number) ≡ false
      → (length (slots zero_entry q) == 0) ≡ true
      → Accepts q n e
  unfolding emplace
  emplace-first q n e v t u =
      let empty = queue_is_empty-slots zero_entry q v in
      let (w, i) = push_back-IsValid (blank zero_entry) (in_use e) q.entries v.ring in
      let ws = slots zero_entry q in
      (
        record q {
          entries = push_back (blank zero_entry) (in_use e) q.entries;
          number_of_present_entries = 1;
          first_packet = n;
        },
        rw (t, empty, u) refl,
        record {
          ring = w;
          counted = count-only ws e u ∙ ap present_count (sym i);
          starts = subst (Starts n) (sym i) (Starts-only n ws e u (ground arith));
        },
        λ k. ap (λ xs. lookup n xs k) i ∙ lookup-only q.first_packet n k ws e u,
      )

  -- The queue after an entry above the last one.
  emplace-next :
      (q : Queue T) (n : ℕ) (e : T)
      → IsQueue zero_entry q
      → (n == invalid_packet_number) ≡ false
      → (length (slots zero_entry q) == 0) ≡ false
      → leb n (last_packet q) ≡ false
      → q.first_packet + length (slots zero_entry q) ≤ n
      → Accepts q n e
  unfolding emplace
  emplace-next q n e v t u x above =
      let empty = queue_is_empty-slots zero_entry q v in
      let size = length-items (blank zero_entry) q.entries v.ring in
      let gap = n - q.first_packet - len q.entries in
      let (v', l, c, f, s) = push_gap-Padded gap q.entries v.ring in
      let r' = push_gap zero_entry gap q.entries in
      let ws' = items (blank zero_entry) r' in
      let (w, i) = push_back-IsValid (blank zero_entry) (in_use e) r' v' in
      (
        record q {
          entries = push_back (blank zero_entry) (in_use e) r';
          number_of_present_entries = q.number_of_present_entries + 1;
        },
        rw (t, x, empty, u) refl,
        record {
          ring = w;
          counted =
              ap (λ m. m + 1) (v.counted ∙ sym c)
              ∙ sym (ap present_count i ∙ present_count-append ws' (in_use e));
          starts = subst (Starts q.first_packet) (sym i) (
              Starts-append q.first_packet ws' (in_use e) (s q.first_packet u v.starts)
                (ground (arith, l)));
        },
        λ k.
            ap (λ xs. lookup q.first_packet xs k) i
            ∙ lookup-push q.first_packet n k ws' e (omega arith) (omega (arith, l, size))
            ∙ ap
                (λ (o : Option T).
                  if k == n then some e else (if ltb k q.first_packet then none else o))
                (f (k - q.first_packet)),
      )

  last_packet-slots :
      (q : Queue T)
      → IsQueue zero_entry q
      → last_packet q ≡ (
          if length (slots zero_entry q) == 0
          then 0
          else q.first_packet + (length (slots zero_entry q) - 1))
  unfolding last_packet
  last_packet-slots q v =
      rw (queue_is_empty-slots zero_entry q v, length-items (blank zero_entry) q.entries v.ring)
        refl

  -- Emplace takes an entry exactly where its packet number is above the last one, and adds that
  -- number, and no other, to the map; else it changes nothing.
  pub emplace-entry_at :
      (q : Queue T) (n : ℕ) (e : T)
      → IsQueue zero_entry q
      → ((last_packet q < n) × Accepts q n e)
        ⊎ ((n ≤ last_packet q) × (emplace zero_entry n (some e) q ≡ (q, false)))
  unfolding emplace
  emplace-entry_at q n e v =
      let empty = queue_is_empty-slots zero_entry q v in
      let last = last_packet-slots q v in
      elim (Bool-cases (n == invalid_packet_number)) [
        | inl t ↦ inr (ground arith, rw t refl)
        | inr t ↦ elim (Bool-cases (length (slots zero_entry q) == 0)) [
          | inl u ↦ inl (rw (last, u) (ground arith), emplace-first q n e v t u)
          | inr u ↦ elim (Bool-cases (leb n (last_packet q))) [
            | inl x ↦ inr (leb→le _ _ x, rw (t, x, empty, u) refl)
            | inr x ↦
                let over : last_packet q < n = ground arith in
                let last' : last_packet q ≡ q.first_packet + (length (slots zero_entry q) - 1) =
                  last ∙ rw u refl in
                inl (over, emplace-next q n e v t u x (ground (arith, last')))
          ]
        ]
      ]
