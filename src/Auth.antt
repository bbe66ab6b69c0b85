-- ===== src/Auth.antt =====
-- extras/auth: the password and the user list. A text is its code
-- points. A map is the list of its writes, the latest first.
pub mod Users
mod Runs
use libya_link.Common.{
  ℕ, Bool, true, false, not, Option, none, some, List, [], ◌∷◌, if◌then◌else◌, codes,
}
use libya_link.Common.Strings.{UnicodeTables, str_eq, to_lower, cut}

-- PasswordAuthenticator
unfoldable pub authenticate_password : List ℕ → List ℕ → Bool × List ℕ
authenticate_password password auth =
    if str_eq auth password then (true, codes "user") else (false, [])

-- `users` of UserPassAuthenticator.
abbrev pub Users : Type 0
Users = List (List ℕ × List ℕ)

-- `a.users[u]`
unfoldable pub find_user : List ℕ → Users → Option (List ℕ)
find_user u [] = none
find_user u ((v, p) ∷ us) = let rest = find_user u us in if str_eq v u then some p else rest

-- Behind the lookup of a user.
unfoldable pub check_password : List ℕ → List ℕ → Option (List ℕ) → Bool × List ℕ
check_password u p none = (false, [])
check_password u p (some rp) = if not (str_eq rp p) then (false, []) else (true, u)

module _ (t : UnicodeTables) where
  -- The loop of NewUserPassAuthenticator, over the entries of the map in some order.
  unfoldable pub lower_users : Users → Users → Users
  lower_users [] acc = acc
  lower_users ((u, p) ∷ us) acc = lower_users us ((to_lower t u, p) ∷ acc)

  unfoldable pub new_user_pass_authenticator : Users → Users
  unfolding lower_users
  new_user_pass_authenticator users = lower_users users []

  -- splitUserPass, `none` where ok is false.
  unfoldable pub split_user_pass : List ℕ → Option (List ℕ × List ℕ)
  split_user_pass auth = elim (cut 58 auth) [ none ↦ none | some p ↦ some (to_lower t p.0, p.1) ]

  unfoldable pub authenticate_user : Users → List ℕ → Bool × List ℕ
  unfolding split_user_pass check_password
  authenticate_user users auth = elim (split_user_pass auth) [
    | none ↦ (false, [])
    | some p ↦ check_password p.0 p.1 (find_user p.0 users)
  ]
