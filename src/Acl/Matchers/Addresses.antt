-- ===== src/Acl/Matchers/Addresses.antt =====
-- Addresses that net.IP.Equal takes for one, and the matchers of extras/outbounds/acl that read
-- them.
use libya_link.Common.{
  ℕ, zero, suc, ◌<◌, ◌≡◌, refl, sym, ap, ◌∙◌, ◌⊎◌, inl, inr, Bool, true, false, ◌&&◌, List, [], ◌∷◌,
  ◌++◌, arith, ◌==◌, if◌then◌else◌, Bool-cases, length, take, drop, take-append-drop, length-drop,
}
use mathlib.Core.Path.{subst}
use libya_link.Common.Strings.{str_eq, str_eq_sound, str_eq_refl}
use libya_link.Acl.Matchers.{
  ip_equal, to4, unmapped, v4_in_v6_prefix, net_contains, IpNet, match_ip,
}

-- The same bytes, or the same IPv4 address in one form or the other.
abbrev pub AreAlike : List ℕ → List ℕ → Type 0
AreAlike a b = (a ≡ b) ⊎ ((to4 a ≡ to4 b) × (length (to4 a) ≡ 4) × (0 < length a) × (0 < length b))

str_eq-take-drop :
    (n : ℕ) (a b : List ℕ)
    → str_eq a b ≡ (str_eq (take n a) (take n b) && str_eq (drop n a) (drop n b))
str_eq-take-drop zero a b = refl
str_eq-take-drop (suc n) [] [] = refl
str_eq-take-drop (suc n) [] (y ∷ b) = refl
str_eq-take-drop (suc n) (x ∷ a) [] = refl
str_eq-take-drop (suc n) (x ∷ a) (y ∷ b) = ground (arith, str_eq-take-drop n a b)

str_eq-length : (a b : List ℕ) → str_eq a b ≡ true → length a ≡ length b
str_eq-length a b h = ap length (str_eq_sound a b h)

-- The IPv4 form of an address, and how it is written.
to4-four : (a : List ℕ) → length a ≡ 4 → to4 a ≡ a
unfolding to4
to4-four a h = ground arith

to4-mapped :
    (a : List ℕ) → length a ≡ 16 → str_eq (take 12 a) v4_in_v6_prefix ≡ true → to4 a ≡ drop 12 a
unfolding to4
to4-mapped a h p = ground arith

chosen :
    (p q r x y z : Bool)
    → (if p then x else if q then y else if r then z else false) ≡ true
    → ((p ≡ true) × (x ≡ true)) ⊎ (((q ≡ true) × (y ≡ true)) ⊎ ((r ≡ true) × (z ≡ true)))
chosen true q r x y z h = inl (refl, h)
chosen false true r x y z h = inr (inl (refl, h))
chosen false false true x y z h = inr (inr (refl, h))
chosen false false false x y z h = cc

both_true : (x y : Bool) → (x && y) ≡ true → (x ≡ true) × (y ≡ true)
both_true true true h = (refl, refl)
both_true true false h = cc
both_true false y h = cc

-- Four bytes, and the sixteen of the same address.
four_of_mapped :
    (a b : List ℕ)
    → (length a == 4 && length b == 16) ≡ true
    → (str_eq (take 12 b) v4_in_v6_prefix && str_eq a (drop 12 b)) ≡ true
    → (to4 a ≡ to4 b) × (length a ≡ 4) × (length b ≡ 16) × (to4 a ≡ a)
four_of_mapped a b l h =
    let la : length a ≡ 4 = ground arith in
    let lb : length b ≡ 16 = ground arith in
    let (p, e) = both_true (str_eq (take 12 b) v4_in_v6_prefix) (str_eq a (drop 12 b)) h in
    (to4-four a la ∙ str_eq_sound a (drop 12 b) e ∙ sym (to4-mapped b lb p), la, lb, to4-four a la)

pub ip_equal-AreAlike : (a b : List ℕ) → ip_equal a b ≡ true → AreAlike a b
unfolding ip_equal
ip_equal-AreAlike a b h =
    elim (chosen (length a == length b) (length a == 4 && length b == 16)
      (length a == 16 && length b == 4) (str_eq a b)
      (str_eq (take 12 b) v4_in_v6_prefix && str_eq a (drop 12 b))
      (str_eq (take 12 a) v4_in_v6_prefix && str_eq (drop 12 a) b) h) [
        | inl (l, e) ↦ inl (str_eq_sound a b e)
        | inr (inl (l, e)) ↦
            let (same, la, lb, is) = four_of_mapped a b l e in
            inr (same, ap length is ∙ la, omega arith, omega arith)
        | inr (inr (l, e)) ↦
            let (p, x) = both_true (str_eq (take 12 a) v4_in_v6_prefix) (str_eq (drop 12 a) b) e in
            let la : length a ≡ 16 = ground arith in
            let lb : length b ≡ 4 = ground arith in
            let is : to4 a ≡ b = to4-mapped a la p ∙ str_eq_sound (drop 12 a) b x in
            inr (is ∙ sym (to4-four b lb), ap length is ∙ lb, omega arith, omega arith)
      ]

-- How an address with an IPv4 form is written.
four_cases :
    (x : List ℕ)
    → length (to4 x) ≡ 4
    → ((length x ≡ 4) × (to4 x ≡ x))
      ⊎ ((length x ≡ 16) × (str_eq (take 12 x) v4_in_v6_prefix ≡ true) × (to4 x ≡ drop 12 x))
unfolding to4
four_cases x h = elim (Bool-cases (length x == 4)) [
  | inl t ↦ let l : length x ≡ 4 = ground arith in inl (l, to4-four x l)
  | inr t ↦ elim (Bool-cases (length x == 16 && str_eq (take 12 x) v4_in_v6_prefix)) [
    | inl u ↦
        let (l, p) = both_true (length x == 16) (str_eq (take 12 x) v4_in_v6_prefix) u in
        let l16 : length x ≡ 16 = ground arith in inr (l16, p, to4-mapped x l16 p)
    | inr u ↦
        let e : to4 x ≡ [] = rw (t, u) refl in
        let z : length (to4 x) ≡ 0 = ap length e in absurd (omega arith)
  ]
]

same_bytes : (a b : List ℕ) → a ≡ b → ip_equal a b ≡ true
unfolding ip_equal
same_bytes a b e = rw (e, str_eq_refl b) (ground arith)

mapped_bytes :
    (x : List ℕ) → str_eq (take 12 x) v4_in_v6_prefix ≡ true → v4_in_v6_prefix ++ drop 12 x ≡ x
mapped_bytes x p =
    ap (λ t. t ++ drop 12 x) (sym (str_eq_sound (take 12 x) v4_in_v6_prefix p))
    ∙ take-append-drop 12 x

AreAlike-ip_equal : (a b : List ℕ) → AreAlike a b → ip_equal a b ≡ true
unfolding ip_equal
AreAlike-ip_equal a b (inl e) = same_bytes a b e
AreAlike-ip_equal a b (inr (same, four, some_a, some_b)) = elim (four_cases a four) [
  | inl (la, ea) ↦ elim (four_cases b (ap length (sym same) ∙ four)) [
    | inl (lb, eb) ↦ same_bytes a b (sym ea ∙ same ∙ eb)
    | inr (lb, p, eb) ↦
        let e : a ≡ drop 12 b = sym ea ∙ same ∙ eb in rw (la, lb, p, sym e, str_eq_refl a) refl
  ]
  | inr (la, p, ea) ↦ elim (four_cases b (ap length (sym same) ∙ four)) [
    | inl (lb, eb) ↦
        let e : drop 12 a ≡ b = sym ea ∙ same ∙ eb in rw (la, lb, p, e, str_eq_refl b) refl
    | inr (lb, q, eb) ↦ same_bytes a b (
        sym (mapped_bytes a p)
        ∙ ap (λ t. v4_in_v6_prefix ++ t) (sym ea ∙ same ∙ eb)
        ∙ mapped_bytes b q)
  ]
]

AreAlike-sym : (a b : List ℕ) → AreAlike a b → AreAlike b a
AreAlike-sym a b (inl e) = inl (sym e)
AreAlike-sym a b (inr (same, four, some_a, some_b)) =
    inr (sym same, ap length (sym same) ∙ four, some_b, some_a)

AreAlike-trans : (a b c : List ℕ) → AreAlike a b → AreAlike b c → AreAlike a c
AreAlike-trans a b c (inl e) h = subst (λ x. AreAlike x c) (sym e) h
AreAlike-trans a b c (inr h) (inl e) = subst (λ x. AreAlike a x) e (inr h)
AreAlike-trans a b c (inr (same, four, x, y)) (inr (same', four', y', z)) =
    inr (same ∙ same', four, x, z)

iff_true : (x y : Bool) → (x ≡ true → y ≡ true) → (y ≡ true → x ≡ true) → x ≡ y
iff_true true y f g = sym (f refl)
iff_true false true f g = g refl
iff_true false false f g = refl

pub ip_equal_alike : (ip a b : List ℕ) → AreAlike a b → ip_equal ip a ≡ ip_equal ip b
ip_equal_alike ip a b h =
    iff_true (ip_equal ip a) (ip_equal ip b)
      (λ t. AreAlike-ip_equal ip b (AreAlike-trans ip a b (ip_equal-AreAlike ip a t) h))
      (λ t.
        AreAlike-ip_equal ip a
          (AreAlike-trans ip b a (ip_equal-AreAlike ip b t) (AreAlike-sym a b h)))

unmapped_alike : (a b : List ℕ) → AreAlike a b → unmapped a ≡ unmapped b
unmapped_alike a b (inl e) = ap unmapped e
unmapped_alike a b (inr (same, four, x, y)) =
    let four_b : length (to4 b) ≡ 4 = ap length (sym same) ∙ four in rw (four, four_b) same

pub net_contains_alike :
    (net mask a b : List ℕ) → AreAlike a b → net_contains net mask a ≡ net_contains net mask b
unfolding net_contains
net_contains_alike net mask a b h = rw (unmapped_alike a b h) refl

pub match_ip_alike :
    (n4 n6 : List IpNet) (a b : List ℕ) → AreAlike a b → match_ip n4 n6 a ≡ match_ip n4 n6 b
unfolding match_ip
match_ip_alike n4 n6 a b (inl e) = rw e refl
match_ip_alike n4 n6 a b (inr (same, four, x, y)) =
    rw (unmapped_alike a b (inr (same, four, x, y)), same) refl

pub absent_alike : (a b : List ℕ) → AreAlike a b → (length a == 0) ≡ (length b == 0)
absent_alike a b (inl e) = ap (λ x. length x == 0) e
absent_alike a b (inr (same, four, x, y)) = ground arith

to4_form : (a : List ℕ) → (length (to4 a) ≡ 0) ⊎ (length (to4 a) ≡ 4)
unfolding to4
to4_form a = elim (Bool-cases (length a == 4)) [
  | inl t ↦ let l : length a ≡ 4 = ground arith in inr (rw t l)
  | inr t ↦ elim (Bool-cases (length a == 16 && str_eq (take 12 a) v4_in_v6_prefix)) [
    | inl u ↦
        let (l, p) = both_true (length a == 16) (str_eq (take 12 a) v4_in_v6_prefix) u in
        let l16 : length a ≡ 16 = ground arith in inr (rw (t, u, length-drop 12 a, l16) refl)
    | inr u ↦ inl (rw (t, u) refl)
  ]
]

four_nonempty : (a : List ℕ) → length (to4 a) ≡ 4 → 0 < length a
four_nonempty a h = elim (four_cases a h) [ inl (l, e) ↦ omega arith | inr (l, p, e) ↦ omega arith ]

-- An address without an IPv4 form is not the four bytes of one.
not_four : (a b : List ℕ) → length (to4 a) ≡ 0 → length (to4 b) ≡ 4 → a ≡ to4 b → ⊥
not_four a b za fb e =
    let la : length a ≡ 4 = ap length e ∙ fb in
    let f : length (to4 a) ≡ 4 = ap length (to4-four a la) ∙ la in omega arith

unmapped-plain : (a : List ℕ) → length (to4 a) ≡ 0 → unmapped a ≡ a
unmapped-plain a z = rw z refl

unmapped-four : (a : List ℕ) → length (to4 a) ≡ 4 → unmapped a ≡ to4 a
unmapped-four a f = rw f refl

pub unmapped-ip_equal : (a b : List ℕ) → unmapped a ≡ unmapped b → ip_equal a b ≡ true
unmapped-ip_equal a b e = AreAlike-ip_equal a b (elim (to4_form a) [
  | inl za ↦ elim (to4_form b) [
    | inl zb ↦ inl (sym (unmapped-plain a za) ∙ e ∙ unmapped-plain b zb)
    | inr fb ↦ absurd (not_four a b za fb (sym (unmapped-plain a za) ∙ e ∙ unmapped-four b fb))
  ]
  | inr fa ↦ elim (to4_form b) [
    | inl zb ↦ absurd (not_four b a zb fa (sym (unmapped-plain b zb) ∙ sym e ∙ unmapped-four a fa))
    | inr fb ↦ inr (
      sym (unmapped-four a fa) ∙ e ∙ unmapped-four b fb,
      fa,
      four_nonempty a fa,
      four_nonempty b fb,
    )
  ]
])
