-- ===== src/Bbr/Queue/Map.antt =====
-- The packet number queue as a finite map from packet numbers to entries.
use libya_link.Common.{
  ℕ, zero, suc, ◌+◌, ◌-◌, ◌≤◌, ◌<◌, ◌≡◌, refl, ap, ◌∙◌, ◌⊎◌, inl, inr, true, false, Option, none,
  some, List, [], ◌∷◌, arith, ltb, leb, ◌==◌, if◌then◌else◌, leb→le, Bool-cases, length, get_elem?,
  set, get_or,
}
use libya_link.Common.Result.{ok}
use libya_link.Bbr.Ring.{len}
use libya_link.Bbr.Ring.Items.{IsValid, items}
use libya_link.Bbr.Ring.View.{length-items, position-items}
use libya_link.Bbr.Queue.{
  EntryWrapper, Queue, queue_is_empty, blank, get_entry_wrapper, get_entry, invalid_packet_number,
}

module _ {T : Type 0} where
  -- The slots in use.
  abbrev pub present_count : List (EntryWrapper T) → ℕ
  present_count [] = 0
  present_count (w ∷ ws) = let rest = present_count ws in if w.present then suc rest else rest

  abbrev pub content : EntryWrapper T → Option T
  content w = if w.present then some w.entry else none

  abbrev pub found : List (EntryWrapper T) → ℕ → Option T
  found [] i = none
  found (w ∷ ws) zero = content w
  found (w ∷ ws) (suc i) = found ws i

  -- The entry of a packet number, where the first slot is that of `first`.
  abbrev pub lookup : ℕ → List (EntryWrapper T) → ℕ → Option T
  lookup first ws n = let slot = found ws (n - first) in if ltb n first then none else slot

  -- Slots have packet numbers, and the first one is in use.
  abbrev pub Starts : ℕ → List (EntryWrapper T) → Type 0
  Starts first [] = first ≡ invalid_packet_number
  Starts first (w ∷ ws) = (w.present ≡ true) × (0 < first)

  -- Slots have packet numbers.
  abbrev pub Numbered : ℕ → List (EntryWrapper T) → Type 0
  Numbered first [] = Unit
  Numbered first (w ∷ ws) = 0 < first

  pub found-beyond : (ws : List (EntryWrapper T)) (i : ℕ) → length ws ≤ i → found ws i ≡ none
  found-beyond [] i h = refl
  found-beyond (w ∷ ws) zero h = absurd (omega arith)
  found-beyond (w ∷ ws) (suc i) h = found-beyond ws i (omega arith)

  pub found-get :
      (ws : List (EntryWrapper T)) (i : ℕ) (w : EntryWrapper T)
      → get_elem? ws i ≡ some w
      → found ws i ≡ content w
  found-get [] i w h = cc
  found-get (v ∷ ws) zero w h =
      ap (λ (o : Option (EntryWrapper T)). elim o [ none ↦ none | some x ↦ content x ]) h
  found-get (v ∷ ws) (suc i) w h = found-get ws i w h

  -- The head is taken: only its number is no longer in the map.
  pub lookup-tail :
      (first : ℕ) (w : EntryWrapper T) (ws : List (EntryWrapper T)) (n : ℕ)
      → lookup (first + 1) ws n ≡ (if n == first then none else lookup first (w ∷ ws) n)
  lookup-tail first w ws n = elim (Bool-cases (ltb n first)) [
    | inl before ↦ ground arith
    | inr from ↦ elim (Bool-cases (n == first)) [
      | inl at_first ↦ ground arith
      | inr after ↦
          let next : n - first ≡ suc (n - (first + 1)) = ground arith in
          let late : ltb n (first + 1) ≡ false = ground arith in rw (from, after, late, next) refl
    ]
  ]

  pub lookup-absent :
      (first : ℕ) (w : EntryWrapper T) (ws : List (EntryWrapper T)) (n : ℕ)
      → w.present ≡ false
      → lookup (first + 1) ws n ≡ lookup first (w ∷ ws) n
  lookup-absent first w ws n absent = lookup-tail first w ws n ∙ (elim (Bool-cases (n == first)) [
    | inl at_first ↦
        let here : n - first ≡ 0 = ground arith in
        let from : ltb n first ≡ false = ground arith in rw (at_first, from, here, absent) refl
    | inr after ↦ rw after refl
  ])

module _ {T : Type 0} (zero_entry : T) where
  abbrev pub slots : Queue T → List (EntryWrapper T)
  slots q = items (blank zero_entry) q.entries

  -- The map that a queue stands for.
  abbrev pub entry_at : Queue T → ℕ → Option T
  entry_at q n = lookup q.first_packet (slots q) n

  -- The ring is well formed, the count is of the slots in use, and slots have packet numbers.
  pub record IsCounted (q : Queue T) : Type 0 where
    pub ring : IsValid q.entries
    pub counted : q.number_of_present_entries ≡ present_count (slots q)
    pub numbered : Numbered q.first_packet (slots q)

  -- And the first slot is in use.
  pub record IsQueue (q : Queue T) : Type 0 where
    pub ring : IsValid q.entries
    pub counted : q.number_of_present_entries ≡ present_count (slots q)
    pub starts : Starts q.first_packet (slots q)

  empty-slots :
      (first count : ℕ) (ws : List (EntryWrapper T))
      → count ≡ present_count ws
      → Starts first ws
      → (count == 0) ≡ (length ws == 0)
  empty-slots first count [] c s = ground arith
  empty-slots first count (w ∷ ws) c s = ground (arith, s.0)

  pub queue_is_empty-slots : (q : Queue T) → IsQueue q → queue_is_empty q ≡ (length (slots q) == 0)
  unfolding queue_is_empty
  queue_is_empty-slots q v =
      empty-slots q.first_packet q.number_of_present_entries (slots q) v.counted v.starts

  -- The slot `k` of the ring is in use for a packet number.
  abbrev pub IsSlot : Queue T → ℕ → ℕ → Type 0
  IsSlot q n k =
      (get_entry_wrapper zero_entry n q ≡ ok (some k))
      × (q.first_packet ≤ n)
      × (get_elem? (slots q) (n - q.first_packet)
          ≡ some (get_or q.entries.ring k (blank zero_entry)))
      × ((get_or q.entries.ring k (blank zero_entry)).present ≡ true)
      × ((y : EntryWrapper T)
          → IsValid (record (q.entries) { ring = set q.entries.ring k y })
            × (items (blank zero_entry) (record (q.entries) { ring = set q.entries.ring k y })
                ≡ set (slots q) (n - q.first_packet) y))

  invalid-lookup :
      (first : ℕ) (ws : List (EntryWrapper T)) → Starts first ws → lookup first ws 0 ≡ none
  invalid-lookup first [] s = ground arith
  invalid-lookup first (w ∷ ws) s = ground (arith, s.1)

  nil-lookup :
      (first : ℕ) (ws : List (EntryWrapper T)) (n : ℕ)
      → (length ws == 0) ≡ true
      → lookup first ws n ≡ none
  nil-lookup first [] n h = ground arith
  nil-lookup first (w ∷ ws) n h = absurd (ground arith)

  pub get_entry_wrapper-cases :
      (q : Queue T) (n : ℕ)
      → IsQueue q
      → ((get_entry_wrapper zero_entry n q ≡ ok none) × (entry_at q n ≡ none))
        ⊎ ((k : ℕ) × IsSlot q n k)
  unfolding get_entry_wrapper
  get_entry_wrapper-cases q n v =
      let empty = queue_is_empty-slots q v in
      elim (Bool-cases (n == invalid_packet_number)) [
        | inl t ↦
            let zero_n : n ≡ 0 = ground arith in
            inl (rw t refl, rw zero_n (invalid-lookup q.first_packet (slots q) v.starts))
        | inr t ↦ elim (Bool-cases (length (slots q) == 0)) [
          | inl u ↦ inl (rw (t, empty, u) refl, nil-lookup q.first_packet (slots q) n u)
          | inr u ↦ elim (Bool-cases (ltb n q.first_packet)) [
            | inl w ↦ inl (rw (t, empty, u, w) refl, rw w refl)
            | inr w ↦ elim (Bool-cases (leb (len q.entries) (n - q.first_packet))) [
              | inl x ↦ inl (
                rw (t, empty, u, w, x) refl,
                rw w (
                    found-beyond (slots q) (n - q.first_packet)
                      (rw (length-items (blank zero_entry) q.entries v.ring) (leb→le _ _ x))),
              )
              | inr x ↦
                  let inside : n - q.first_packet < length (slots q) =
                    rw (length-items (blank zero_entry) q.entries v.ring) (ground arith) in
                  let (k, p, g, write) =
                    position-items (blank zero_entry) q.entries v.ring (n - q.first_packet)
                      inside in
                  elim (Bool-cases (get_or q.entries.ring k (blank zero_entry)).present) [
                    | inl y ↦
                        inr (k, (rw (t, empty, u, w, x, p, y) refl, ground arith, g, y, write))
                    | inr y ↦ inl (
                      rw (t, empty, u, w, x, p, y) refl,
                      rw w (found-get (slots q) (n - q.first_packet) _ g ∙ rw y refl),
                    )
                  ]
            ]
          ]
        ]
      ]

  -- GetEntry answers with the entry of the map, and never panics.
  pub get_entry-entry_at :
      (q : Queue T) (n : ℕ) → IsQueue q → get_entry zero_entry n q ≡ ok (entry_at q n)
  unfolding get_entry
  get_entry-entry_at q n v = elim (get_entry_wrapper-cases q n v) [
    | inl (e, missing) ↦ rw (e, missing) refl
    | inr (k, (e, from, g, present, write)) ↦
        let after : ltb n q.first_packet ≡ false = ground arith in
        rw (e, after, found-get (slots q) (n - q.first_packet) _ g, present) refl
  ]
