-- ===== src/Auth/Users.antt =====
-- Whom the user list of extras/auth/userpass.go lets in.
use libya_link.Common.{
  ℕ, ◌≡◌, refl, sym, ap, ◌∙◌, ◌≢◌, ◌⊎◌, inl, inr, Bool, true, false, Option, none, some, List, [],
  ◌∷◌, ◌++◌, arith, ◌==◌, if◌then◌else◌, Bool-cases,
}
use mathlib.Core.Option.{some-injective}
use libya_link.Common.Strings.{
  UnicodeTables, str_eq, str_eq_sound, str_eq_refl, to_lower, cut, contains_byte,
}
use libya_link.Auth.{
  Users, find_user, lower_users, new_user_pass_authenticator, split_user_pass, check_password,
  authenticate_user,
}

or_else : Option (List ℕ) → Option (List ℕ) → Option (List ℕ)
or_else (some q) o = some q
or_else none o = o

or_else-none : (o : Option (List ℕ)) → or_else o none ≡ o
unfolding or_else
or_else-none none = refl
or_else-none (some q) = refl

cut-cases :
    (sep : ℕ) (s : List ℕ)
    → ((cut sep s ≡ none) × (contains_byte sep s ≡ false))
      ⊎ ((u p : List ℕ) × (cut sep s ≡ some (u, p))
          × (s ≡ u ++ (sep ∷ p))
          × (contains_byte sep u ≡ false))
unfolding cut contains_byte
cut-cases sep [] = inl (refl, refl)
cut-cases sep (c ∷ s) = elim (Bool-cases (c == sep)) [
  | inl t ↦ let same : c ≡ sep = ground arith in inr ([], s, rw t refl, ap (λ x. x ∷ s) same, refl)
  | inr t ↦ elim (cut-cases sep s) [
    | inl (e, without) ↦ inl (rw (t, e) refl, rw (t, without) refl)
    | inr (u, p, e, is, without) ↦
        inr (c ∷ u, p, rw (t, e) refl, ap (λ xs. c ∷ xs) is, rw (t, without) refl)
  ]
]

check_password-cases :
    (u p : List ℕ) (o : Option (List ℕ))
    → ((o ≡ some p) × (check_password u p o ≡ (true, u)))
      ⊎ ((o ≢ some p) × (check_password u p o ≡ (false, [])))
unfolding check_password
check_password-cases u p none = inr (λ e. cc, refl)
check_password-cases u p (some q) = elim (Bool-cases (str_eq q p)) [
  | inl t ↦ inl (ap some (str_eq_sound q p t), rw t refl)
  | inr t ↦ inr (
    (λ e.
        let same : q ≡ p = some-injective q p e in
        let alike : str_eq q p ≡ true = ap (str_eq q) (sym same) ∙ str_eq_refl q in ground arith),
    rw t refl,
  )
]

module _ (t : UnicodeTables) where
  -- The password of a name, of the last entry whose name is that one in lower case.
  abbrev pub password_of : List ℕ → Users → Option (List ℕ)
  password_of n [] = none
  password_of n ((u, p) ∷ us) = elim (password_of n us) [
    | some q ↦ some q
    | none ↦ if str_eq (to_lower t u) n then some p else none
  ]

  find-lower_users :
      (n : List ℕ) (us acc : Users)
      → find_user n (lower_users t us acc) ≡ or_else (password_of n us) (find_user n acc)
  unfolding find_user lower_users or_else
  find-lower_users n [] acc = refl
  find-lower_users n ((u, p) ∷ us) acc =
      find-lower_users n us ((to_lower t u, p) ∷ acc) ∙ later (password_of n us)
    where
      later :
          (o : Option (List ℕ))
          → or_else o (find_user n ((to_lower t u, p) ∷ acc))
            ≡ or_else
                (elim o [
                  | some q ↦ some q
                  | none ↦ if str_eq (to_lower t u) n then some p else none
                ])
                (find_user n acc)
      later (some q) = refl
      later none = ground arith

  find_new :
      (n : List ℕ) (users : Users)
      → find_user n (new_user_pass_authenticator t users) ≡ password_of n users
  unfolding new_user_pass_authenticator find_user
  find_new n users = find-lower_users n users [] ∙ or_else-none (password_of n users)

  -- What authentication makes of a text that is cut at a colon, or is not.
  abbrev on_cut : Users → Option (List ℕ × List ℕ) → Bool × List ℕ
  on_cut users o =
      let named : Option (List ℕ × List ℕ) = elim o [
        | none ↦ none
        | some p ↦ some (to_lower t p.0, p.1)
      ] in
      elim named [ none ↦ (false, []) | some p ↦ check_password p.0 p.1 (find_user p.0 users) ]

  authenticate_cut :
      (users : Users) (auth : List ℕ) (o : Option (List ℕ × List ℕ))
      → cut 58 auth ≡ o
      → authenticate_user t users auth ≡ on_cut users o
  unfolding authenticate_user split_user_pass
  authenticate_cut users auth o e = ap (on_cut users) e

  -- For every text of valid UTF-8: without a colon it is refused; else the name is what stands before
  -- the first colon, in lower case by the tables of Unicode, and the text is accepted exactly if the
  -- rest is the password of that name, and then the name is the id.
  pub authenticate_user-password_of :
      (users : Users) (auth : List ℕ)
      → ((contains_byte 58 auth ≡ false)
          × (authenticate_user t (new_user_pass_authenticator t users) auth ≡ (false, [])))
        ⊎ ((u p : List ℕ) × (auth ≡ u ++ (58 ∷ p))
            × (contains_byte 58 u ≡ false)
            × (((password_of (to_lower t u) users ≡ some p)
                  × (authenticate_user t (new_user_pass_authenticator t users) auth
                      ≡ (true, to_lower t u)))
                ⊎ ((password_of (to_lower t u) users ≢ some p)
                    × (authenticate_user t (new_user_pass_authenticator t users) auth
                        ≡ (false, [])))))
  authenticate_user-password_of users auth = elim (cut-cases 58 auth) [
    | inl (e, without) ↦
        inl (without, authenticate_cut (new_user_pass_authenticator t users) auth none e)
    | inr (u, p, e, is, without) ↦
        let at : authenticate_user t (new_user_pass_authenticator t users) auth
            ≡ check_password (to_lower t u) p (password_of (to_lower t u) users) =
          authenticate_cut (new_user_pass_authenticator t users) auth (some (u, p)) e
          ∙ ap (check_password (to_lower t u) p) (find_new (to_lower t u) users) in
        inr (
          u,
          p,
          is,
          without,
          (elim (check_password-cases (to_lower t u) p (password_of (to_lower t u) users)) [
            | inl (same, granted) ↦ inl (same, at ∙ granted)
            | inr (other, refused) ↦ inr (other, at ∙ refused)
          ]),
        )
  ]
