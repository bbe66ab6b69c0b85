-- ===== src/Bbr/Ring/Laws.antt =====
-- A ring buffer is a queue: its operations do on the items what their names say.
use libya_link.Common.{
  ℕ, suc, ◌+◌, ◌%◌, ◌<◌, ◌≡◌, refl, sym, ap, ◌∙◌, ◌≢◌, ◌⊎◌, inl, inr, true, false, ◌||◌, none, some,
  List, [], ◌∷◌, ◌++◌, arith, ltb, leb, ◌==◌, if◌then◌else◌, ltb→lt, Bool-cases, length, get_elem?,
  set, length-set, get_or, length-replicate, get_or-set_self, get_or-set_ne, tabulate,
  get_elem?-tabulate_inside, get_elem?-tabulate_beyond, tabulate-ext, tabulate-snoc,
}
use mathlib.Core.Path.{ap₂}
use native.Mathlib.Nat.{zero-add, mod-eq_of_lt, mod-eq-sub-mod}
use libya_link.Common.Result.{ok, panic}
use libya_link.Bbr.Ring.{
  Ring, len, is_empty, init, grow, place, push_back, pop_front, offset, clear,
}
use libya_link.Bbr.Ring.Growth.{grow-IsValid, room-grow, items-grow}
use libya_link.Bbr.Ring.Items.{wrap, IsValid, cell, items, len-le-capacity}

module _ {A : Type 0} (t : A) (r : Ring A) (v : IsValid r) (f : r.full ≡ false)
    (p : 0 < length r.ring) where
  place-IsValid : IsValid (place t r)
  unfolding place
  place-IsValid = ground (arith, length-set r.ring r.tail_pos t)

  len-place : len (place t r) ≡ suc (len r)
  unfolding place len
  len-place = ground (arith, length-set r.ring r.tail_pos t)

  next_is_tail : wrap (length r.ring) (r.head_pos + len r) ≡ r.tail_pos
  unfolding len
  next_is_tail = ground arith

  before_tail : (i : ℕ) → i < len r → r.tail_pos ≢ wrap (length r.ring) (r.head_pos + i)
  unfolding len
  before_tail i h = ground arith

  cell-place :
      (zero_value : A) (i : ℕ) → i < len r → cell zero_value (place t r) i ≡ cell zero_value r i
  unfolding place
  cell-place zero_value i h = rw (length-set r.ring r.tail_pos t) (
      get_or-set_ne r.ring r.tail_pos (wrap (length r.ring) (r.head_pos + i)) t zero_value
        (before_tail i h))

  cell-place_last : (zero_value : A) → cell zero_value (place t r) (len r) ≡ t
  unfolding place
  cell-place_last zero_value =
      rw (length-set r.ring r.tail_pos t, next_is_tail)
        (get_or-set_self r.ring r.tail_pos t zero_value (omega (arith, v.tail_inside)))

  items-place : (zero_value : A) → items zero_value (place t r) ≡ items zero_value r ++ (t ∷ [])
  items-place zero_value =
      rw (len-place, tabulate-snoc (cell zero_value (place t r)) 0 (len r), zero-add)
        (ap₂ (λ xs x. xs ++ (x ∷ []))
          (tabulate-ext (cell zero_value (place t r)) (cell zero_value r) 0 0 (len r)
            (λ i h. rw zero-add (cell-place zero_value i h)))
          (cell-place_last zero_value))

empty-len : {A : Type 0} (r : Ring A) → IsValid r → is_empty r ≡ true → len r ≡ 0
unfolding len is_empty
empty-len r v h = ground arith

module _ {A : Type 0} (zero_value : A) (r : Ring A) (v : IsValid r)
    (some_left : is_empty r ≡ false) where
  -- The buffer that PopFront leaves.
  pub popped : Ring A
  popped = record r {
    ring = set r.ring r.head_pos zero_value;
    head_pos = if r.head_pos + 1 == length r.ring then 0 else r.head_pos + 1;
    full = false;
  }

  pub popped-IsValid : IsValid popped
  unfolding popped is_empty
  popped-IsValid = ground (arith, length-set r.ring r.head_pos zero_value)

  len-popped : len r ≡ suc (len popped)
  unfolding popped is_empty len
  len-popped = ground (arith, length-set r.ring r.head_pos zero_value)

  next_index :
      (i : ℕ)
      → i < len popped
      → wrap (length r.ring) (popped.head_pos + i) ≡ wrap (length r.ring) (r.head_pos + suc i)
  unfolding popped is_empty len
  next_index i h = ground (arith, length-set r.ring r.head_pos zero_value)

  not_head : (i : ℕ) → i < len popped → r.head_pos ≢ wrap (length r.ring) (r.head_pos + suc i)
  not_head i h = ground (arith, len-popped, len-le-capacity r v)

  cell-popped : (i : ℕ) → i < len popped → cell zero_value r (suc i) ≡ cell zero_value popped i
  cell-popped i h = sym (
      ap (λ k. get_or popped.ring k zero_value) (size_kept ∙ next_index i h)
      ∙ (unfold popped in
          get_or-set_ne r.ring r.head_pos (wrap (length r.ring) (r.head_pos + suc i)) zero_value
            zero_value (not_head i h)))
    where
      size_kept :
          wrap (length popped.ring) (popped.head_pos + i)
          ≡ wrap (length r.ring) (popped.head_pos + i)
      size_kept =
          unfold popped in
          ap (λ n. wrap n (popped.head_pos + i)) (length-set r.ring r.head_pos zero_value)

  pub items-popped :
      items zero_value r ≡ get_or r.ring r.head_pos zero_value ∷ items zero_value popped
  items-popped = rw len-popped (
      ap₂ (λ (x : A) (xs : List A). x ∷ xs) first
        (tabulate-ext (cell zero_value r) (cell zero_value popped) 1 0 (len popped)
          (λ i h. rw (one_more i, zero-add i) (cell-popped i h))))
    where
      one_more : (i : ℕ) → 1 + i ≡ suc i
      one_more i = omega arith

      first : cell zero_value r 0 ≡ get_or r.ring r.head_pos zero_value
      first = ap (λ k. get_or r.ring k zero_value) (ground (arith, len-popped, len-le-capacity r v))

module _ {A : Type 0} (zero_value : A) where
  pub init-IsValid : (size : ℕ) → IsValid (init zero_value size)
  unfolding init
  init-IsValid size = ground (arith, length-replicate size zero_value)

  -- PushBack on a well-formed buffer adds at the end, growing where it must, and keeps it well formed.
  pub push_back-IsValid :
      (t : A) (r : Ring A)
      → IsValid r
      → IsValid (push_back zero_value t r)
        × (items zero_value (push_back zero_value t r) ≡ items zero_value r ++ (t ∷ []))
  unfolding push_back
  push_back-IsValid t r v = elim (Bool-cases (r.full || length r.ring == 0)) [
    | inl must_grow ↦
        let g : Ring A = grow zero_value r in
        let gv : IsValid g = grow-IsValid zero_value r v in
        let room : 0 < length g.ring = omega (arith, room-grow zero_value r v) in
        let all : len r ≡ length r.ring = unfold len in ground (arith, v.head_inside) in
        rw must_grow (
          place-IsValid t g gv (full-grow r) room,
          items-place t g gv (full-grow r) room zero_value
              ∙ ap (λ xs. xs ++ (t ∷ [])) (items-grow zero_value r v all),
        )
    | inr has_room ↦
        let not_full : r.full ≡ false = ground arith in
        let some_room : 0 < length r.ring = ground arith in
        rw has_room
          (place-IsValid t r v not_full some_room, items-place t r v not_full some_room zero_value)
  ]
    where
      full-grow : (r : Ring A) → (grow zero_value r).full ≡ false
      full-grow r = unfold grow in refl

  -- PopFront of a well-formed buffer panics exactly on an empty one; else it takes the first item
  -- and keeps the buffer well formed.
  pub pop_front-IsValid :
      (r : Ring A)
      → IsValid r
      → ((pop_front zero_value r ≡ panic) × (items zero_value r ≡ []))
        ⊎ ((x : A) × (r' : Ring A) × (pop_front zero_value r ≡ ok (x, r'))
            × (items zero_value r ≡ x ∷ items zero_value r')
            × IsValid r')
  pop_front-IsValid r v = elim (Bool-cases (is_empty r)) [
    | inl none_left ↦ inl (
      unfold pop_front in rw none_left,
      ap (tabulate (cell zero_value r) 0) (empty-len r v none_left),
    )
    | inr some_left ↦ inr (
      get_or r.ring r.head_pos zero_value,
      popped zero_value r v some_left,
      unfold pop_front popped in rw some_left,
      items-popped zero_value r v some_left,
      popped-IsValid zero_value r v some_left,
    )
  ]

module _ {A : Type 0} (zero_value : A) (r : Ring A) (v : IsValid r) where
  pub some_in_range : (i : ℕ) → i < len r → is_empty r ≡ false
  unfolding is_empty len
  some_in_range i h = ground arith

  pub once_around :
      (i : ℕ) → i < len r → (r.head_pos + i) % length r.ring ≡ wrap (length r.ring) (r.head_pos + i)
  once_around i h = elim (Bool-cases (ltb (r.head_pos + i) (length r.ring))) [
    | inl straight ↦ rw straight (mod-eq_of_lt (ltb→lt _ _ straight))
    | inr around ↦ rw around (
        mod-eq-sub-mod (ground arith)
        ∙ mod-eq_of_lt (omega (arith, v.head_inside, len-le-capacity r v)))
  ]

  offset_inside :
      (i : ℕ)
      → is_empty r ≡ false
      → leb (len r) i ≡ false
      → offset zero_value r i ≡ ok (get_or r.ring ((r.head_pos + i) % length r.ring) zero_value)
  unfolding offset
  offset_inside i e f = rw (e, f, offset)

  -- Offset of a well-formed buffer reads the item of that number, and panics exactly beyond the last.
  pub offset-items :
      (i : ℕ)
      → offset zero_value r i
        ≡ (elim (get_elem? (items zero_value r) i) [ none ↦ panic | some x ↦ ok x ])
  offset-items i = elim (Bool-cases (leb (len r) i)) [
    | inl beyond ↦
        rw (get_elem?-tabulate_beyond (cell zero_value r) 0 (len r) i (ground arith))
          (unfold offset in ground arith)
    | inr inside ↦
        let h : i < len r = ground arith in
        rw (get_elem?-tabulate_inside (cell zero_value r) 0 (len r) i h, zero-add)
          (offset_inside i (some_in_range i h) inside
            ∙ ap (λ k. ok (get_or r.ring k zero_value)) (once_around i h))
  ]

  pub clear-IsValid : IsValid (clear zero_value r) × (items zero_value (clear zero_value r) ≡ [])
  unfolding clear len
  clear-IsValid = (ground (arith, length-replicate (length r.ring) zero_value), refl)
