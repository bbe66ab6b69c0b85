-- ===== src/Bbr/Ring/Growth.antt =====
-- How `grow` lays the items out.
use libya_link.Common.{
  ℕ, ◌+◌, ◌-◌, ◌*◌, ◌≤◌, ◌<◌, min, ◌≡◌, refl, ap, ◌∙◌, inl, inr, List, ◌++◌, arith, ltb, ◌==◌,
  if◌then◌else◌, Bool-cases, length, length-append, get_or, take, drop, replicate, length-take,
  length-drop, length-replicate, get_or-append_left, get_or-append_right, get_or-drop, get_or-take,
  tabulate-ext,
}
use native.Mathlib.Nat.{zero-add}
use libya_link.Common.Buffer.{overwrite-drop, overwrite_at-append}
use libya_link.Bbr.Ring.{Ring, len, grow}
use libya_link.Bbr.Ring.Items.{wrap, IsValid, cell, items}

module _ {A : Type 0} (zero_value : A) (r : Ring A) (v : IsValid r) where
  -- The new ring: the items from the head on, those before it, and zero values.
  abbrev laid_out : List A
  laid_out = drop r.head_pos r.ring ++ take r.head_pos r.ring

  abbrev new_size : ℕ
  new_size = if length r.ring * 2 == 0 then 1 else length r.ring * 2

  length-laid_out : length laid_out ≡ length r.ring
  length-laid_out =
      length-append (drop r.head_pos r.ring) (take r.head_pos r.ring)
      ∙ omega (arith, v.head_inside, length-drop r.head_pos r.ring, length-take r.head_pos r.ring)

  room : length r.ring < new_size
  room = ground arith

  ring-grow :
      (spare : List A) × ((grow zero_value r).ring ≡ laid_out ++ spare)
      × (length spare ≡ new_size - length r.ring)
  unfolding grow
  ring-grow =
      let front = drop r.head_pos r.ring in
      let blank = replicate new_size zero_value in
      let fits : length front ≤ length blank =
        omega (arith, room, length-drop r.head_pos r.ring, length-replicate new_size zero_value) in
      let left = drop (length front) blank in
      let rest_fits : length (take r.head_pos r.ring) ≤ length left = omega (
        arith,
        room,
        length-laid_out,
        length-append front (take r.head_pos r.ring),
        length-drop (length front) blank,
        length-replicate new_size zero_value,
      ) in
      let head_len : min new_size (length front) ≡ length front =
        omega (arith, fits, length-replicate new_size zero_value) in
      (
        drop (length (take r.head_pos r.ring)) left,
        rw (head_len, overwrite-drop blank front fits)
            (overwrite_at-append front left (take r.head_pos r.ring) rest_fits),
        length-drop (length (take r.head_pos r.ring)) left
            ∙ omega (
              arith,
              room,
              length-laid_out,
              length-append front (take r.head_pos r.ring),
              length-drop (length front) blank,
              length-replicate new_size zero_value,
            ),
      )

  length-grow : length (grow zero_value r).ring ≡ new_size
  length-grow =
      let (spare, e, l) = ring-grow in
      ap length e ∙ length-append laid_out spare ∙ omega (arith, l, room, length-laid_out)

  pub grow-IsValid : IsValid (grow zero_value r)
  unfolding grow
  grow-IsValid = record {
    head_inside = omega arith;
    tail_inside = omega (arith, length-grow, room);
    full_meets = λ e. cc;
  }

  pub len-grow : len (grow zero_value r) ≡ length r.ring
  unfolding grow len
  len-grow = ground arith

  pub room-grow : length r.ring < length (grow zero_value r).ring
  room-grow = omega (arith, length-grow, room)

  get_or-laid_out :
      (i : ℕ) (spare : List A)
      → i < length r.ring
      → get_or (laid_out ++ spare) i zero_value
        ≡ get_or r.ring (wrap (length r.ring) (r.head_pos + i)) zero_value
  get_or-laid_out i spare h =
      get_or-append_left laid_out spare i zero_value (omega (arith, length-laid_out))
      ∙ elim (Bool-cases (ltb (r.head_pos + i) (length r.ring))) [
        | inl behind ↦ rw behind (
            get_or-append_left front before i zero_value (ground (arith, front_length))
            ∙ get_or-drop r.head_pos r.ring i zero_value)
        | inr around ↦
            let j : ℕ = r.head_pos + i - length r.ring in
            let split : i ≡ length front + j = ground (arith, front_length) in
            rw around (
              ap (λ k. get_or laid_out k zero_value) split
              ∙ get_or-append_right front before j zero_value
              ∙ get_or-take r.head_pos r.ring j zero_value (ground arith))
      ]
    where
      front : List A
      front = drop r.head_pos r.ring

      before : List A
      before = take r.head_pos r.ring

      front_length : length front ≡ length r.ring - r.head_pos
      front_length = length-drop r.head_pos r.ring

  head-grow : (grow zero_value r).head_pos ≡ 0
  unfolding grow
  head-grow = refl

  cell-grow :
      (i : ℕ) → i < length r.ring → cell zero_value (grow zero_value r) i ≡ cell zero_value r i
  cell-grow i h =
      let (spare, e, l) = ring-grow in
      straight ∙ ap (λ xs. get_or xs i zero_value) e ∙ get_or-laid_out i spare h
    where
      straight :
          cell zero_value (grow zero_value r) i ≡ get_or (grow zero_value r).ring i zero_value
      straight = ap (λ k. get_or (grow zero_value r).ring k zero_value) at_i
        where
          at_i : wrap (length (grow zero_value r).ring) ((grow zero_value r).head_pos + i) ≡ i
          at_i = ground (arith, room-grow, head-grow)

  pub items-grow : len r ≡ length r.ring → items zero_value (grow zero_value r) ≡ items zero_value r
  items-grow h =
      rw (len-grow, h)
        (tabulate-ext (cell zero_value (grow zero_value r)) (cell zero_value r) 0 0 (length r.ring)
          (λ i lt. rw zero-add (cell-grow i lt)))
