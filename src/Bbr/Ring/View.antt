-- ===== src/Bbr/Ring/View.antt =====
-- The ring buffer for its clients: its operations by the list of its items alone.
use libya_link.Common.{
  ℕ, zero, suc, ◌+◌, ◌<◌, ◌≡◌, refl, sym, ap, ◌∙◌, ◌≢◌, false, some, List, [], ◌∷◌, arith, leb,
  ◌==◌, length, get_elem?, set, length-set, get_or, get_or-set_self, get_or-set_ne, tabulate,
  length-tabulate, get_elem?-tabulate_inside, tabulate-ext,
}
use native.Mathlib.Nat.{zero-add, add-zero, add-suc, suc-add}
use libya_link.Common.Result.{ok}
use libya_link.Bbr.Ring.{Ring, len, is_empty, position, front}
use libya_link.Bbr.Ring.Items.{wrap, IsValid, cell, items, len-le-capacity}
use libya_link.Bbr.Ring.Laws.{items-popped, some_in_range, once_around}

tabulate-set :
    {A : Type 0} (f g : ℕ → A) (a k i : ℕ) (y : A)
    → g (a + i) ≡ y
    → ((j : ℕ) → j < k → j ≢ i → g (a + j) ≡ f (a + j))
    → tabulate g a k ≡ set (tabulate f a k) i y
tabulate-set f g a zero i y here there = refl
tabulate-set f g a (suc k) zero y here there = rw (rw (add-zero a) at here) (
    ap (◌∷◌ y) (
      tabulate-ext g f (suc a) (suc a) k (λ x lt.
        rw (suc-add a x, ← add-suc a x) (there (suc x) (omega arith) (λ e. omega (arith, e))))))
tabulate-set f g a (suc k) (suc i) y here there =
    rw (rw (add-zero a) at (there 0 (omega arith) (λ e. omega (arith, e)))) (
      ap (◌∷◌ (f a)) (
        tabulate-set f g (suc a) k i y (rw (suc-add a i, ← add-suc a i) here) (λ j lt ne.
          rw (suc-add a j, ← add-suc a j)
            (there (suc j) (omega arith) (λ e. ne (omega (arith, e)))))))

module _ {A : Type 0} (z : A) (r : Ring A) (v : IsValid r) where
  pub length-items : length (items z r) ≡ len r
  length-items = length-tabulate (cell z r) 0 (len r)

  pub is_empty-items : is_empty r ≡ (length (items z r) == 0)
  is_empty-items = rw length-items (unfold is_empty len in ground (arith, v))

  pub front-items : (x : A) (xs : List A) → items z r ≡ x ∷ xs → front z r ≡ ok x
  unfolding front
  front-items x xs e =
      let some_left : is_empty r ≡ false = rw (is_empty-items, e) (ground arith) in
      rw some_left (
        ap (λ (ys : List A). elim ys [ [] ↦ ok x | y ∷ ys ↦ ok y ])
          (sym (items-popped z r v some_left) ∙ e))

  -- The ring with another value in the slot of item `i`.
  rewritten : ℕ → A → Ring A
  rewritten i y = record r { ring = set r.ring (wrap (length r.ring) (r.head_pos + i)) y }

  len-rewritten : (i : ℕ) (y : A) → len (rewritten i y) ≡ len r
  unfolding rewritten len
  len-rewritten i y = ground (arith, length-set r.ring (wrap (length r.ring) (r.head_pos + i)) y)

  rewritten-IsValid : (i : ℕ) (y : A) → IsValid (rewritten i y)
  unfolding rewritten
  rewritten-IsValid i y =
      let same : length (set r.ring (wrap (length r.ring) (r.head_pos + i)) y) ≡ length r.ring =
        length-set r.ring (wrap (length r.ring) (r.head_pos + i)) y in
      record {
        head_inside = rw same v.head_inside;
        tail_inside = rw same v.tail_inside;
        full_meets = rw same v.full_meets;
      }

  apart :
      (i j : ℕ)
      → i < len r
      → j < len r
      → j ≢ i
      → wrap (length r.ring) (r.head_pos + i) ≢ wrap (length r.ring) (r.head_pos + j)
  apart i j hi hj ne = ground (arith, len-le-capacity r v, v.head_inside)

  slot_inside : (i : ℕ) → i < len r → wrap (length r.ring) (r.head_pos + i) < length r.ring
  slot_inside i h = ground (arith, len-le-capacity r v, v.head_inside)

  items-rewritten : (i : ℕ) (y : A) → i < len r → items z (rewritten i y) ≡ set (items z r) i y
  items-rewritten i y h = rw (len-rewritten i y) (
      unfold rewritten in
      tabulate-set (cell z r) (cell z (rewritten i y)) 0 (len r) i y
        (rw (zero-add i, length-set r.ring (wrap (length r.ring) (r.head_pos + i)) y)
          (get_or-set_self r.ring (wrap (length r.ring) (r.head_pos + i)) y z (slot_inside i h)))
        (λ j lt ne.
          rw (zero-add j, length-set r.ring (wrap (length r.ring) (r.head_pos + i)) y)
            (get_or-set_ne r.ring (wrap (length r.ring) (r.head_pos + i))
              (wrap (length r.ring) (r.head_pos + j)) y z (apart i j h lt ne))))

  -- The slot of an item: what is read there, and what a write there does to the items.
  pub position-items :
      (i : ℕ)
      → i < length (items z r)
      → (k : ℕ) × (position z r i ≡ ok k)
        × (get_elem? (items z r) i ≡ some (get_or r.ring k z))
        × ((y : A)
            → IsValid (record r { ring = set r.ring k y })
              × (items z (record r { ring = set r.ring k y }) ≡ set (items z r) i y))
  position-items i inside =
      let h : i < len r = rw length-items at inside in
      let some_left : is_empty r ≡ false = some_in_range z r v i h in
      let within : leb (len r) i ≡ false = ground arith in
      (
        wrap (length r.ring) (r.head_pos + i),
        unfold position in rw (some_left, within) (ap ok (once_around z r v i h)),
        get_elem?-tabulate_inside (cell z r) 0 (len r) i h ∙ rw (zero-add i) refl,
        λ y. unfold rewritten in (rewritten-IsValid i y, items-rewritten i y h),
      )
