-- ===== src/Common/Strings.antt =====
-- The functions of Go's strings, unicode and strconv packages that the program uses. A text is the
-- list of its code points, of valid UTF-8; below 128 these are its bytes. What the tables of Unicode
-- say of the code points from 128 on is a parameter.
use Prim.Native.Nat.{ℕ, ◌+◌, ◌-◌, ◌*◌, ◌≤◌}
use mathlib.Core.Path.{◌≡◌, refl}
use mathlib.Core.Bool.{Bool, true, false, ◌&&◌, ◌||◌}
use mathlib.Core.Option.{Option, none, some}
use mathlib.Core.List.{List, [], ◌∷◌, map, reverse}
use native.Mathlib.Omega.{arith}
use libya_link.Common.Tests.{leb, ◌==◌, if◌then◌else◌}

-- `a == b` on strings.
abbrev pub str_eq : List ℕ → List ℕ → Bool
str_eq [] [] = true
str_eq [] (d ∷ t) = false
str_eq (c ∷ s) [] = false
str_eq (c ∷ s) (d ∷ t) = c == d && str_eq s t

pub str_eq_sound : (s t : List ℕ) → str_eq s t ≡ true → s ≡ t
str_eq_sound [] [] h = refl
str_eq_sound [] (d ∷ t) h = cc
str_eq_sound (c ∷ s) [] h = cc
str_eq_sound (c ∷ s) (d ∷ t) h = ground (arith, str_eq_sound s t)

pub str_eq_refl : (s : List ℕ) → str_eq s s ≡ true
str_eq_refl [] = refl
str_eq_refl (c ∷ s) = ground (arith, str_eq_refl s)

-- strings.HasPrefix and strings.HasSuffix
unfoldable pub has_prefix : List ℕ → List ℕ → Bool
has_prefix s [] = true
has_prefix [] (c ∷ t) = false
has_prefix (d ∷ s) (c ∷ t) = d == c && has_prefix s t

unfoldable pub has_suffix : List ℕ → List ℕ → Bool
unfolding has_prefix
has_suffix s t = has_prefix (reverse s) (reverse t)

-- strings.Contains with a text of one byte.
unfoldable pub contains_byte : ℕ → List ℕ → Bool
contains_byte b [] = false
contains_byte b (c ∷ s) = c == b || contains_byte b s

-- unicode.ToLower and unicode.IsSpace, from 128 on.
pub record UnicodeTables : Type 0 where
  pub lower : ℕ → ℕ
  pub space : ℕ → Bool

abbrev lower_rune : UnicodeTables → ℕ → ℕ
lower_rune t c = if leb 128 c then t.lower c else if leb b'A' c && leb c b'Z' then c + 32 else c

-- strings.ToLower
unfoldable pub to_lower : UnicodeTables → List ℕ → List ℕ
to_lower t = map (lower_rune t)

-- strings.TrimSpace: below 128 tab, newline, vertical tab, form feed, carriage return and space.
unfoldable pub is_space : UnicodeTables → ℕ → Bool
is_space t c = if leb 128 c then t.space c else (leb 9 c && leb c 13 || c == 32)

unfoldable pub trim_left : UnicodeTables → List ℕ → List ℕ
unfolding is_space
trim_left t [] = []
trim_left t (c ∷ s) = if is_space t c then trim_left t s else c ∷ s

unfoldable pub trim_space : UnicodeTables → List ℕ → List ℕ
unfolding trim_left
trim_space t s = reverse (trim_left t (reverse (trim_left t s)))

-- The front of `s` up to the first `sep`, and what is behind that byte; `none` if there is none.
unfoldable pub cut : ℕ → List ℕ → Option (List ℕ × List ℕ)
cut sep [] = none
cut sep (c ∷ s) =
    let rest = cut sep s in
    if c == sep then some ([], s) else elim rest [ none ↦ none | some (a, b) ↦ some (c ∷ a, b) ]

-- strings.Split with a separator of one byte.
abbrev add_first : ℕ → List (List ℕ) → List (List ℕ)
add_first c [] = (c ∷ []) ∷ []
add_first c (s ∷ ss) = (c ∷ s) ∷ ss

unfoldable pub split : ℕ → List ℕ → List (List ℕ)
split sep [] = [] ∷ []
split sep (c ∷ s) = let rest = split sep s in if c == sep then [] ∷ rest else add_first c rest

-- strconv.ParseUint(s, 10, 16): `none` for a syntax error and for a number out of range.
unfoldable pub digits_value : ℕ → List ℕ → Option ℕ
digits_value acc [] = some acc
digits_value acc (c ∷ s) =
    let rest = digits_value (acc * 10 + (c - b'0')) s in
    if leb b'0' c && leb c b'9' then rest else none

unfoldable pub parse_uint16 : List ℕ → Option ℕ
unfolding digits_value
parse_uint16 [] = none
parse_uint16 (c ∷ s) = elim (digits_value 0 (c ∷ s)) [
  | none ↦ none
  | some n ↦ if leb n 65535 then some n else none
]

pub parse_uint16-le : (s : List ℕ) (n : ℕ) → parse_uint16 s ≡ some n → n ≤ 65535
unfolding parse_uint16
parse_uint16-le [] n h = cc
parse_uint16-le (c ∷ s) n h = ground arith
