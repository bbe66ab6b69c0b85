-- ===== src/Auth/Runs.antt =====
-- Runs of the user list, and its theorem at a concrete list.
use libya_link.Common.{
  ℕ, ◌+◌, leb, ◌==◌, not, ◌&&◌, ◌||◌, if◌then◌else◌, ◌≡◌, refl, ◌≢◌, ◌⊎◌, true, false, some, List,
  [], ◌∷◌, ◌++◌, codes,
}
use libya_link.Common.Strings.{UnicodeTables, to_lower, cut, contains_byte}
use libya_link.Auth.{
  Users, find_user, lower_users, new_user_pass_authenticator, split_user_pass, check_password,
  authenticate_user,
}
use libya_link.Auth.Users.{password_of, authenticate_user-password_of}

-- The capital letters of Latin-1, but for the multiplication sign.
abbrev latin : UnicodeTables
latin = record {
  lower = λ c. if leb 192 c && leb c 222 && not (c == 215) then c + 32 else c;
  space = λ c. c == 133 || c == 160;
}

abbrev listed : Users
listed = (codes "Ann", codes "a:b") ∷ (codes "bob", codes "c") ∷ []

-- The password may hold a colon, and the case of the name does not matter.
ann_enters :
    authenticate_user latin (new_user_pass_authenticator latin listed) (codes "aNN:a:b")
    ≡ (true, codes "ann")
unfolding authenticate_user split_user_pass check_password new_user_pass_authenticator lower_users
    find_user to_lower cut
ann_enters = refl

-- A capital A with diaeresis, then `NN:x`.
umlaut_enters :
    authenticate_user latin
      (new_user_pass_authenticator latin ((228 ∷ codes "nn", codes "x") ∷ []))
      (196 ∷ codes "NN:x")
    ≡ (true, 228 ∷ codes "nn")
unfolding authenticate_user split_user_pass check_password new_user_pass_authenticator lower_users
    find_user to_lower cut
umlaut_enters = refl

authenticate_user-password_of_example :
    ((contains_byte 58 (codes "bob:c") ≡ false)
      × (authenticate_user latin (new_user_pass_authenticator latin listed) (codes "bob:c")
          ≡ (false, [])))
    ⊎ ((u p : List ℕ) × (codes "bob:c" ≡ u ++ (58 ∷ p))
        × (contains_byte 58 u ≡ false)
        × (((password_of latin (to_lower latin u) listed ≡ some p)
              × (authenticate_user latin (new_user_pass_authenticator latin listed) (codes "bob:c")
                  ≡ (true, to_lower latin u)))
            ⊎ ((password_of latin (to_lower latin u) listed ≢ some p)
                × (authenticate_user latin
                      (new_user_pass_authenticator latin listed)
                      (codes "bob:c")
                    ≡ (false, [])))))
authenticate_user-password_of_example = authenticate_user-password_of latin listed (codes "bob:c")
