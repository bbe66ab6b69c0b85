-- ===== src/Acl/Glob.antt =====
-- What a wildcard pattern means, and that deepMatchRune decides it.
use libya_link.Common.{
  ℕ, ◌≡◌, refl, sym, ap, ◌∙◌, ◌↔◌, ◌⊎◌, inl, inr, Bool, true, false, List, [], ◌∷◌, ◌++◌, ◌==◌,
  if◌then◌else◌, ==_iff, Bool-cases,
}
use mathlib.Core.Path.{subst}
use libya_link.Acl.Matchers.{star, deep_match_rune}

-- A text that a pattern's first character and then `P` describe.
abbrev pub Begins : Bool → ℕ → (List ℕ → Type 0) → List ℕ → Type 0
Begins true c P str = (run : List ℕ) × (rest : List ℕ) × (str ≡ run ++ rest) × P rest
Begins false c P str = (rest : List ℕ) × (str ≡ c ∷ rest) × P rest

-- A star stands for any run of characters, also the empty one; any other character for itself.
abbrev pub Matches : List ℕ → List ℕ → Type 0
Matches [] str = str ≡ []
Matches (c ∷ pattern) str = Begins (c == star) c (Matches pattern) str

-- One round of the matcher, by the first character of the pattern.
at_end :
    (c : ℕ) (pattern : List ℕ)
    → deep_match_rune [] (c ∷ pattern) ≡ (if c == star then deep_match_rune [] pattern else false)
unfolding deep_match_rune
at_end c pattern = refl

at_char :
    (s c : ℕ) (str pattern : List ℕ)
    → deep_match_rune (s ∷ str) (c ∷ pattern) ≡ (
        if c == star
        then (if deep_match_rune (s ∷ str) pattern then true else deep_match_rune str (c ∷ pattern))
        else if s == c
        then deep_match_rune str pattern
        else false)
unfolding deep_match_rune
at_char s c str pattern = refl

longer_run :
    (s c : ℕ) (str pattern : List ℕ)
    → (c == star) ≡ true
    → Matches (c ∷ pattern) str
    → Begins true c (Matches pattern) (s ∷ str)
longer_run s c str pattern e m =
    let (run, rest, split, m') = rw e at m in (s ∷ run, rest, ap (◌∷◌ s) split, m')

sound : (str pattern : List ℕ) → deep_match_rune str pattern ≡ true → Matches pattern str
sound [] [] h = refl
sound (s ∷ str) [] h = absurd (unfold deep_match_rune in cc)
sound [] (c ∷ pattern) h = elim (Bool-cases (c == star)) [
  | inl e ↦ rw e ([], [], refl, sound [] pattern (rw e at (sym (at_end c pattern) ∙ h)))
  | inr e ↦ absurd (cc (e, at_end c pattern))
]
sound (s ∷ str) (c ∷ pattern) h = elim (Bool-cases (c == star)) [
  | inl e ↦ elim (Bool-cases (deep_match_rune (s ∷ str) pattern)) [
    | inl here ↦ rw e ([], s ∷ str, refl, sound (s ∷ str) pattern here)
    | inr there ↦ rw e (
        longer_run s c str pattern e
          (sound str (c ∷ pattern) (rw (e, there) at (sym (at_char s c str pattern) ∙ h))))
  ]
  | inr e ↦ elim (Bool-cases (s == c)) [
    | inl same ↦ rw e (
      str,
      ap (λ x. x ∷ str) ((==_iff s c).0 same),
      sound str pattern (rw (e, same) at (sym (at_char s c str pattern) ∙ h)),
    )
    | inr differ ↦ absurd (cc (e, differ, at_char s c str pattern))
  ]
]

run_at_end : (run rest : List ℕ) → [] ≡ run ++ rest → [] ≡ rest
run_at_end [] rest h = h
run_at_end (x ∷ run) rest h = cc

run_cases :
    (s : ℕ) (str run rest : List ℕ)
    → s ∷ str ≡ run ++ rest
    → (s ∷ str ≡ rest) ⊎ ((run' : List ℕ) × (str ≡ run' ++ rest))
run_cases s str [] rest h = inl h
run_cases s str (x ∷ run) rest h = inr (run, cc)

skip_or_stay : (b c : Bool) → (b ≡ true) ⊎ (c ≡ true) → (if b then true else c) ≡ true
skip_or_stay true c h = refl
skip_or_stay false c (inl h) = cc
skip_or_stay false c (inr h) = h

complete : (str pattern : List ℕ) → Matches pattern str → deep_match_rune str pattern ≡ true
complete [] [] m = unfold deep_match_rune in refl
complete (s ∷ str) [] m = cc
complete [] (c ∷ pattern) m = elim (Bool-cases (c == star)) [
  | inl e ↦
      let (run, rest, split, m') = rw e at m in
      rw (at_end c pattern, e)
        (complete [] pattern (subst (Matches pattern) (sym (run_at_end run rest split)) m'))
  | inr e ↦ let (rest, split, m') = rw e at m in absurd (cc split)
]
complete (s ∷ str) (c ∷ pattern) m = elim (Bool-cases (c == star)) [
  | inl e ↦
      let (run, rest, split, m') = rw e at m in
      rw (at_char s c str pattern, e)
        (skip_or_stay _ _ (elim (run_cases s str run rest split) [
          | inl here ↦ inl (complete (s ∷ str) pattern (subst (Matches pattern) (sym here) m'))
          | inr (run', later) ↦ inr (complete str (c ∷ pattern) (rw e (run', rest, later, m')))
        ]))
  | inr e ↦
      let (rest, split, m') = rw e at m in
      rw (at_char s c str pattern, e, same s c str rest split)
        (complete str pattern (subst (Matches pattern) (cc split) m'))
]
  where
    same : (s c : ℕ) (str rest : List ℕ) → s ∷ str ≡ c ∷ rest → (s == c) ≡ true
    same s c str rest h = (==_iff s c).1 (cc h)

-- deepMatchRune answers true exactly on the texts that the pattern describes.
pub deep_match_rune_iff :
    (str pattern : List ℕ) → (deep_match_rune str pattern ≡ true) ↔ Matches pattern str
deep_match_rune_iff str pattern = (sound str pattern, complete str pattern)
