-- ===== src/Frag/Defragger/Slots.antt =====
-- The slots of a defragger that collects the fragments of one message.
use libya_link.Common.{
  ℕ, zero, suc, ◌+◌, ◌-◌, ◌≤◌, ◌<◌, min, ◌≡◌, refl, ap, ◌∙◌, ◌⊎◌, inl, inr, Option, none, some,
  List, [], ◌∷◌, ◌++◌, map, append_assoc, arith, length, get_elem?, set, length-append, drop,
  replicate, length-drop, tabulate,
}
use libya_link.Common.Result.{ok}
use libya_link.Common.Buffer.{overwrite_at-append}
use libya_link.Protocol.Udp.{UdpMessage}
use libya_link.Frag.Split.Pieces.{joined}
use libya_link.Frag.Defragger.{assemble}

abbrev pub Slot : Type 0
Slot = Option UdpMessage

-- How many slots are filled, and how many bytes they hold.
abbrev pub filled : List Slot → ℕ
filled [] = 0
filled (none ∷ ss) = filled ss
filled (some f ∷ ss) = suc (filled ss)

abbrev pub total : List Slot → ℕ
total [] = 0
total (none ∷ ss) = total ss
total (some f ∷ ss) = length f.body + total ss

pub filled-le-length : (ss : List Slot) → filled ss ≤ length ss
filled-le-length [] = omega arith
filled-le-length (none ∷ ss) = omega (arith, filled-le-length ss)
filled-le-length (some f ∷ ss) = omega (arith, filled-le-length ss)

pub filled-set :
    (ss : List Slot) (j : ℕ) (f : UdpMessage)
    → get_elem? ss j ≡ some none
    → filled (set ss j (some f)) ≡ suc (filled ss)
filled-set [] j f h = cc
filled-set (none ∷ ss) zero f h = refl
filled-set (some g ∷ ss) zero f h = cc
filled-set (none ∷ ss) (suc j) f h = filled-set ss j f h
filled-set (some g ∷ ss) (suc j) f h = ap suc (filled-set ss j f h)

pub total-set :
    (ss : List Slot) (j : ℕ) (f : UdpMessage)
    → get_elem? ss j ≡ some none
    → total (set ss j (some f)) ≡ total ss + length f.body
total-set [] j f h = cc
total-set (none ∷ ss) zero f h = omega arith
total-set (some g ∷ ss) zero f h = cc
total-set (none ∷ ss) (suc j) f h = total-set ss j f h
total-set (some g ∷ ss) (suc j) f h = omega (arith, total-set ss j f h)

pub filled-replicate : (n : ℕ) → filled (replicate n none) ≡ 0
filled-replicate zero = refl
filled-replicate (suc n) = filled-replicate n

pub total-replicate : (n : ℕ) → total (replicate n none) ≡ 0
total-replicate zero = refl
total-replicate (suc n) = total-replicate n

pub get_elem?-replicate {ℓ} :
    {A : Type ℓ} (a : A) (n i : ℕ) → i < n → get_elem? (replicate n a) i ≡ some a
get_elem?-replicate a zero i h = elim h [ ]
get_elem?-replicate a (suc n) zero h = refl
get_elem?-replicate a (suc n) (suc i) h = get_elem?-replicate a n i (omega arith)

-- Each slot is empty or holds its own fragment; the first slot of the list is number `i`.
abbrev pub Slots : (ℕ → UdpMessage) → ℕ → List Slot → Type 0
Slots frag i [] = Unit
Slots frag i (s ∷ ss) = ((s ≡ none) ⊎ (s ≡ some (frag i))) × Slots frag (suc i) ss

module _ (frag : ℕ → UdpMessage) where
  pub replicate-Slots : (i n : ℕ) → Slots frag i (replicate n none)
  replicate-Slots i zero = tt
  replicate-Slots i (suc n) = (inl refl, replicate-Slots (suc i) n)

  pub set-Slots :
      (i : ℕ) (ss : List Slot) (j k : ℕ)
      → Slots frag i ss
      → k ≡ i + j
      → Slots frag i (set ss j (some (frag k)))
  set-Slots i [] j k h e = tt
  set-Slots i (s ∷ ss) zero k h e = (inr (ap (λ x. some (frag x)) (omega arith)), h.1)
  set-Slots i (s ∷ ss) (suc j) k h e = (h.0, set-Slots (suc i) ss j k h.1 (omega arith))

  -- All slots filled: the fragments in order.
  pub Slots-full :
      (i : ℕ) (ss : List Slot)
      → Slots frag i ss
      → filled ss ≡ length ss
      → ss ≡ map some (tabulate frag i (length ss))
  Slots-full i [] h e = refl
  Slots-full i (none ∷ ss) h e = absurd (omega (arith, filled-le-length ss))
  Slots-full i (some f ∷ ss) (inl p, h) e = cc
  Slots-full i (some f ∷ ss) (inr p, h) e = rw (p, ← Slots-full (suc i) ss h (omega arith))

pub total-joined : (fs : List UdpMessage) → total (map some fs) ≡ length (joined fs)
total-joined [] = refl
total-joined (f ∷ fs) = omega (arith, total-joined fs, length-append f.body (joined fs))

pub assemble-joined :
    (fs : List UdpMessage) (done rest : List ℕ) (off : ℕ)
    → off ≡ length done
    → length rest ≡ length (joined fs)
    → assemble (done ++ rest) off (map some fs) ≡ ok (done ++ joined fs)
unfolding assemble
assemble-joined [] done [] off ho h = refl
assemble-joined [] done (x ∷ rest) off ho h = absurd (omega arith)
assemble-joined (f ∷ fs) done rest off ho h =
    let off' : ℕ = off + min (length f.body) (length (done ++ rest) - off) in
    ap (λ b. assemble b off' (map some fs))
      (rw ho
        (overwrite_at-append done rest f.body (omega (arith, length-append f.body (joined fs)))))
    ∙ assemble-joined fs (done ++ f.body) (drop (length f.body) rest) off'
        (omega (
          arith,
          length-append done rest,
          length-append done f.body,
          length-append f.body (joined fs),
        ))
        (omega (arith, length-drop (length f.body) rest, length-append f.body (joined fs)))
    ∙ ap ok (append_assoc done f.body (joined fs))
