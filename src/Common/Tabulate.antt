-- ===== src/Common/Tabulate.antt =====
-- The list of a function's values over a range.
use libya_link.Common.Lists.{length, get_elem?}
use native.Mathlib.Nat.{add-zero, add-suc, suc-add}
use Prim.Native.Nat.{ℕ, zero, suc, ◌+◌, ◌≤◌, ◌<◌}
use mathlib.Core.Path.{◌≡◌, refl, sym, ap}
use mathlib.Core.List.{List, [], ◌∷◌, ◌++◌}
use mathlib.Core.Option.{none, some, some-injective}
use native.Mathlib.Omega.{arith}

module _ {ℓ} {A : Type ℓ} where
  -- f i, f (i + 1), ..., `k` of them.
  abbrev pub tabulate : (ℕ → A) → ℕ → ℕ → List A
  tabulate f i zero = []
  tabulate f i (suc k) = f i ∷ tabulate f (suc i) k

  pub length-tabulate : (f : ℕ → A) (i k : ℕ) → length (tabulate f i k) ≡ k
  length-tabulate f i zero = refl
  length-tabulate f i (suc k) = ap suc (length-tabulate f (suc i) k)

  pub get_elem?-tabulate :
      (f : ℕ → A) (i k j : ℕ) (x : A) → get_elem? (tabulate f i k) j ≡ some x → x ≡ f (i + j)
  get_elem?-tabulate f i zero j x h = cc
  get_elem?-tabulate f i (suc k) zero x h = rw (add-zero i) (sym (some-injective (f i) x h))
  get_elem?-tabulate f i (suc k) (suc j) x h =
      rw (add-suc i j, ← suc-add i j) (get_elem?-tabulate f (suc i) k j x h)

  pub tabulate-ext :
      (f g : ℕ → A) (i j k : ℕ)
      → ((x : ℕ) → x < k → f (i + x) ≡ g (j + x))
      → tabulate f i k ≡ tabulate g j k
  tabulate-ext f g i j zero h = refl
  tabulate-ext f g i j (suc k) h = rw (rw (add-zero i, add-zero j) at (h 0 (omega arith))) (
      ap (◌∷◌ (g j)) (
        tabulate-ext f g (suc i) (suc j) k (λ x lt.
          rw (suc-add i x, suc-add j x, ← add-suc i x, ← add-suc j x) (h (suc x) (omega arith)))))

  pub tabulate-snoc :
      (f : ℕ → A) (i k : ℕ) → tabulate f i (suc k) ≡ tabulate f i k ++ (f (i + k) ∷ [])
  tabulate-snoc f i zero = rw (add-zero i)
  tabulate-snoc f i (suc k) =
      ap (◌∷◌ (f i)) (rw (add-suc i k, ← suc-add i k) (tabulate-snoc f (suc i) k))

module _ {ℓ} {A : Type ℓ} where
  pub get_elem?-tabulate_inside :
      (f : ℕ → A) (i k j : ℕ) → j < k → get_elem? (tabulate f i k) j ≡ some (f (i + j))
  get_elem?-tabulate_inside f i zero j h = elim h [ ]
  get_elem?-tabulate_inside f i (suc k) zero h = rw (add-zero i)
  get_elem?-tabulate_inside f i (suc k) (suc j) h =
      rw (add-suc i j, ← suc-add i j) (get_elem?-tabulate_inside f (suc i) k j (omega arith))

  pub get_elem?-tabulate_beyond :
      (f : ℕ → A) (i k j : ℕ) → k ≤ j → get_elem? (tabulate f i k) j ≡ none
  get_elem?-tabulate_beyond f i zero j h = refl
  get_elem?-tabulate_beyond f i (suc k) zero h = elim h [ ]
  get_elem?-tabulate_beyond f i (suc k) (suc j) h =
      get_elem?-tabulate_beyond f (suc i) k j (omega arith)
