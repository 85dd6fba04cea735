-- ===== src/UserService/Accounts/Tests.antt =====
-- A sign-up and log-ins, with a toy hash that keeps the first 72 characters.
use mathlib.Core.Bool.{false≢true}
use gacha_mind.Base.{
  ◌≡◌, ◌≢◌, refl, true, [], ◌∷◌, none, codes, text_eq, text_eq_iff, take, length, if◌then◌else◌,
}
use gacha_mind.Shared.Account.{AuthResponse}
use gacha_mind.UserService.Accounts.{
  Services, Account, granted, unauthorized, find_by_username, issue_token, new_account, signup,
  login, is_signup, has_length, username_pattern, password_pattern, all_between, is_nonempty,
}
use gacha_mind.UserService.Accounts.Laws.{IsBcrypt, signup-login}

abbrev toy : Services
toy = record {
  hash = λ salt p. take 72 p;
  compare = λ p h. text_eq (take 72 p) h;
  sign = λ p. 116 ∷ p.sub ∷ p.username;
  count_chars = length;
}

toy-IsBcrypt : IsBcrypt toy
toy-IsBcrypt = record { compared = λ salt p q hp hq. refl }

abbrev lee : Account
lee = new_account toy 1 0 (codes "lee") (codes "Lee") (codes "secret")

abbrev kim : AuthResponse
kim = issue_token toy (new_account toy 2 5 (codes "kim") (codes "Kim") (codes "abc"))

valid : is_signup toy (codes "kim") (codes "Kim") (codes "abc") ≡ true
unfolding is_signup has_length username_pattern password_pattern all_between is_nonempty
valid = refl

free : find_by_username (codes "kim") (lee ∷ []) ≡ none
unfolding find_by_username text_eq new_account
free = refl

printable : password_pattern (codes "abd") ≡ true
unfolding password_pattern all_between is_nonempty
printable = refl

another : codes "lee" ≢ codes "kim"
unfolding text_eq
another e = false≢true ((text_eq_iff (codes "lee") (codes "kim")).1 e)

signup-login_example :
    let (after, outcome) = signup toy 2 5 (codes "kim") (codes "Kim") (codes "abc") (lee ∷ []) in
    let response =
      issue_token toy (new_account toy 2 5 (codes "kim") (codes "Kim") (codes "abc")) in
    (outcome ≡ granted response)
    × (login toy (codes "kim") (codes "abd") after ≡ (
        if text_eq (take 72 (codes "abd")) (take 72 (codes "abc"))
        then granted response
        else unauthorized))
    × (login toy (codes "lee") (codes "abd") after
        ≡ login toy (codes "lee") (codes "abd") (lee ∷ []))
signup-login_example =
    signup-login toy 2 5 (codes "kim") (codes "Kim") (codes "abc") (codes "abd") (codes "lee")
      (lee ∷ []) toy-IsBcrypt valid free printable another
