-- ===== src/Server/Udp/Counting.antt =====
-- The connections that the sessions of core/server/udp.go hold, counted, and the map's lookups.
use libya_link.Common.{
  ℕ, zero, suc, ◌+◌, ◌-◌, ◌≤◌, ◌<◌, ◌≡◌, refl, ap, inl, inr, false, Option, none, some, List, [],
  ◌∷◌, ◌++◌, arith, ◌==◌, if◌then◌else◌, Bool-cases, length, get_elem?, set,
}
use mathlib.Core.Option.{some-injective}
use libya_link.Session.Client.{lookup, delete}
use libya_link.Server.Udp.{Entry, remove_one, close_conn}

-- How often a number stands in a list.
abbrev pub times : ℕ → List ℕ → ℕ
times k [] = 0
times k (j ∷ js) = let rest = times k js in if j == k then suc rest else rest

abbrev pub owns : ℕ → Option ℕ → ℕ
owns c none = 0
owns c (some j) = if j == c then 1 else 0

-- Whether a session holds a connection: a closed session holds none.
abbrev pub holds : ℕ → Entry → ℕ
holds c e = if e.closed then 0 else owns c e.conn

abbrev pub owners : ℕ → List Entry → ℕ
owners c [] = 0
owners c (e ∷ es) = holds c e + owners c es

pub owners-set :
    (c : ℕ) (es : List Entry) (r : ℕ) (e e' : Entry)
    → get_elem? es r ≡ some e
    → owners c (set es r e') + holds c e ≡ owners c es + holds c e'
owners-set c [] r e e' h = cc
owners-set c (f ∷ es) zero e e' h =
    let same : holds c f ≡ holds c e = ap (holds c) (some-injective f e h) in omega (arith, same)
owners-set c (f ∷ es) (suc r) e e' h = omega (arith, owners-set c es r e e' h)

pub owners-append :
    (c : ℕ) (es : List Entry) (e : Entry) → owners c (es ++ (e ∷ [])) ≡ owners c es + holds c e
owners-append c [] e = omega arith
owners-append c (f ∷ es) e = omega (arith, owners-append c es e)

-- A session is one of those that are counted.
pub owners_among :
    (c : ℕ) (es : List Entry) (r : ℕ) (e : Entry)
    → get_elem? es r ≡ some e
    → holds c e ≤ owners c es
owners_among c [] r e h = cc
owners_among c (f ∷ es) zero e h =
    let same : holds c f ≡ holds c e = ap (holds c) (some-injective f e h) in omega (arith, same)
owners_among c (f ∷ es) (suc r) e h = omega (arith, owners_among c es r e h)

pub times-remove_one :
    (c : ℕ) (js : List ℕ) (k : ℕ)
    → times c (remove_one js k) ≡ times c js - (if k == c then 1 else 0)
times-remove_one c [] k = ground arith
times-remove_one c (j ∷ js) k = ground (arith, times-remove_one c js k)

pub times-close_conn :
    (c : ℕ) (conn : Option ℕ) (js : List ℕ)
    → times c (close_conn conn js) ≡ times c js - owns c conn
times-close_conn c none js = omega arith
times-close_conn c (some k) js = times-remove_one c js k

pub lookup-delete_same : (m : List (ℕ × ℕ)) (k : ℕ) → lookup (delete m k) k ≡ none
unfolding lookup delete
lookup-delete_same [] k = refl
lookup-delete_same ((j, r) ∷ m) k = elim (Bool-cases (j == k)) [
  | inl t ↦ rw t (lookup-delete_same m k)
  | inr t ↦ rw (t, t) (lookup-delete_same m k)
]

pub lookup-delete_other :
    (m : List (ℕ × ℕ)) (k i : ℕ) → (k == i) ≡ false → lookup (delete m k) i ≡ lookup m i
unfolding lookup delete
lookup-delete_other [] k i h = refl
lookup-delete_other ((j, r) ∷ m) k i h = elim (Bool-cases (j == k)) [
  | inl t ↦
      let other : (j == i) ≡ false = ground arith in rw (t, other) (lookup-delete_other m k i h)
  | inr t ↦ rw t (ap (λ rest. if j == i then some r else rest) (lookup-delete_other m k i h))
]

-- What an index finds is inside the list.
pub found_inside :
    {A : Type 0} → (xs : List A) (r : ℕ) (x : A) → get_elem? xs r ≡ some x → r < length xs
found_inside [] r x h = cc
found_inside (y ∷ xs) zero x h = omega arith
found_inside (y ∷ xs) (suc r) x h = omega (arith, found_inside xs r x h)

pub found_last :
    {A : Type 0} → (xs : List A) (x : A) → get_elem? (xs ++ (x ∷ [])) (length xs) ≡ some x
found_last [] x = refl
found_last (y ∷ xs) x = found_last xs x

pub found_before :
    {A : Type 0}
    → (xs : List A) (x : A) (r : ℕ) → (r == length xs) ≡ false
    → get_elem? (xs ++ (x ∷ [])) r ≡ get_elem? xs r
found_before [] x zero h = absurd (ground arith)
found_before [] x (suc r) h = refl
found_before (y ∷ xs) x zero h = refl
found_before (y ∷ xs) x (suc r) h = found_before xs x r (ground arith)
