-- ===== src/Common/Buffer.antt =====
-- Go slices of bytes: `copy`, sub-slices, and a buffer that is filled from the left.
use libya_link.Common.Lists.{length, take, drop}
use Prim.Native.Nat.{ℕ, zero, suc, ◌+◌, ◌≤◌}
use mathlib.Core.Path.{◌≡◌, refl, ap}
use mathlib.Core.List.{List, [], ◌∷◌, ◌++◌, append_assoc}
use native.Mathlib.Omega.{arith}

suc_left : (n m : ℕ) → suc n + m ≡ suc (n + m)
suc_left n m = omega arith

module _ {ℓ} {A : Type ℓ} where
  -- `copy(dst, src)`: the shorter of the two decides how much is written.
  unfoldable pub overwrite : List A → List A → List A
  overwrite [] src = []
  overwrite (d ∷ dst) [] = d ∷ dst
  overwrite (d ∷ dst) (s ∷ src) = s ∷ overwrite dst src

  -- `copy(dst[i:], src)`
  unfoldable pub overwrite_at : ℕ → List A → List A → List A
  overwrite_at i dst src = take i dst ++ overwrite (drop i dst) src

  pub overwrite-drop :
      (dst src : List A)
      → length src ≤ length dst
      → overwrite dst src ≡ src ++ drop (length src) dst
  unfolding overwrite
  overwrite-drop [] [] h = refl
  overwrite-drop [] (s ∷ src) h = absurd (omega arith)
  overwrite-drop (d ∷ dst) [] h = refl
  overwrite-drop (d ∷ dst) (s ∷ src) h = ap (◌∷◌ s) (overwrite-drop dst src (omega arith))

  pub take-append_length : (xs ys : List A) → take (length xs) (xs ++ ys) ≡ xs
  take-append_length [] ys = refl
  take-append_length (x ∷ xs) ys = ap (◌∷◌ x) (take-append_length xs ys)

  pub drop-append_length : (xs ys : List A) → drop (length xs) (xs ++ ys) ≡ ys
  drop-append_length [] ys = refl
  drop-append_length (x ∷ xs) ys = drop-append_length xs ys

  pub take-append_eq : (n : ℕ) (xs ys : List A) → n ≡ length xs → take n (xs ++ ys) ≡ xs
  take-append_eq n xs ys h = rw h (take-append_length xs ys)

  pub drop-append_eq : (n : ℕ) (xs ys : List A) → n ≡ length xs → drop n (xs ++ ys) ≡ ys
  drop-append_eq n xs ys h = rw h (drop-append_length xs ys)

  pub drop-nil : (n : ℕ) → drop {A = A} n [] ≡ []
  drop-nil zero = refl
  drop-nil (suc n) = refl

  pub drop-drop : (n m : ℕ) (xs : List A) → drop n (drop m xs) ≡ drop (m + n) xs
  drop-drop n zero xs = ap (λ k. drop k xs) (omega arith)
  drop-drop n (suc m) [] = rw (drop-nil n, drop-nil (suc m + n))
  drop-drop n (suc m) (x ∷ xs) = rw (suc_left m n) (drop-drop n m xs)

  pub take-add : (n m : ℕ) (xs : List A) → take (n + m) xs ≡ take n xs ++ take m (drop n xs)
  take-add zero m xs = ap (λ k. take k xs) (omega arith)
  take-add (suc n) zero [] = rw (suc_left n 0)
  take-add (suc n) (suc m) [] = rw (suc_left n (suc m))
  take-add (suc n) m (x ∷ xs) = rw (suc_left n m) (ap (◌∷◌ x) (take-add n m xs))

  -- A buffer whose first bytes are `done`: one more write extends them.
  pub overwrite_at-append :
      (done rest src : List A)
      → length src ≤ length rest
      → overwrite_at (length done) (done ++ rest) src ≡ (done ++ src) ++ drop (length src) rest
  unfolding overwrite_at
  overwrite_at-append done rest src h =
      simp (take-append_length, drop-append_length, append_assoc)
        (ap (λ t. done ++ t) (overwrite-drop rest src h))
