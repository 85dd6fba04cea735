-- ===== src/UserService/Accounts.antt =====
-- apps/user/src/auth and apps/user/src/user: sign-up and log-in. bcrypt, the signing of tokens and
-- what class-validator counts as the length of a text are parameters. `users` is the list of its rows
-- in the order of insertion; a request runs without another in between.
pub mod Laws
mod Tests
use gacha_mind.Base.{
  ℕ, Bool, true, false, ◌&&◌, List, [], ◌∷◌, ◌++◌, Option, none, some, Text, text_eq, trim, length,
  leb, if◌then◌else◌,
}
use gacha_mind.Shared.Account.{
  SessionTokenPayload, AuthUser, AuthResponse, max_nickname_length, max_password_length,
}

-- `bcrypt.hash` with a salt, `bcrypt.compare`, `jwt.signAsync`, and the length that `@Length` takes.
pub record Services : Type 0 where
  pub hash : (salt : ℕ) → Text → Text
  pub compare : (password hash : Text) → Bool
  pub sign : SessionTokenPayload → Text
  pub count_chars : Text → ℕ

pub record Account : Type 0 where
  pub id : ℕ
  pub username : Text
  pub nickname : Text
  pub password_hash : Text

pub data AuthOutcome : Type 0 where
  granted : AuthResponse → AuthOutcome
  conflict : AuthOutcome
  unauthorized : AuthOutcome

-- Every code unit lies between the two.
unfoldable pub all_between : (low high : ℕ) → Text → Bool
all_between low high [] = true
all_between low high (c ∷ s) = (leb low c && leb c high) && all_between low high s

unfoldable pub is_nonempty : Text → Bool
is_nonempty [] = false
is_nonempty (c ∷ s) = true

-- `USERNAME_PATTERN` and `PASSWORD_PATTERN`
unfoldable pub username_pattern : Text → Bool
unfolding all_between is_nonempty
username_pattern s = is_nonempty s && all_between 0x21 0x7e s

unfoldable pub password_pattern : Text → Bool
unfolding all_between is_nonempty
password_pattern s = is_nonempty s && all_between 0x20 0x7e s

-- `findByUsername`
unfoldable pub find_by_username : Text → List Account → Option Account
find_by_username name [] = none
find_by_username name (a ∷ rest) =
    if text_eq a.username name then some a else find_by_username name rest

-- `UserService.create`
unfoldable pub create_account : Account → List Account → List Account
create_account a accounts = accounts ++ a ∷ []

module _ (w : Services) where
  -- `@Length(min, max)`
  unfoldable pub has_length : (low high : ℕ) → Text → Bool
  has_length low high s = leb low (w.count_chars s) && leb (w.count_chars s) high

  -- The checks of `SignupDto`.
  unfoldable pub is_signup : (username nickname password : Text) → Bool
  unfolding has_length username_pattern password_pattern
  is_signup username nickname password =
      (leb 1 (w.count_chars username) && username_pattern username)
      && ((has_length 1 max_password_length password && password_pattern password)
          && has_length 1 max_nickname_length nickname)

  unfoldable pub issue_token : Account → AuthResponse
  issue_token a = record {
    access_token = w.sign (record { sub = a.id; username = a.username; nickname = a.nickname });
    user = record { id = a.id; username = a.username; nickname = a.nickname };
  }

  unfoldable pub new_account : (id salt : ℕ) (username nickname password : Text) → Account
  new_account id salt username nickname password = record {
    id = id;
    username = username;
    nickname = trim nickname;
    password_hash = w.hash salt password;
  }

  unfoldable pub signup_unless :
      Option Account → Account → List Account → List Account × AuthOutcome
  unfolding issue_token create_account
  signup_unless none a accounts = (create_account a accounts, granted (issue_token a))
  signup_unless (some taken) a accounts = (accounts, conflict)

  unfoldable pub signup :
      (id salt : ℕ) (username nickname password : Text) → List Account → List Account × AuthOutcome
  unfolding signup_unless find_by_username new_account
  signup id salt username nickname password accounts =
      signup_unless (find_by_username username accounts)
        (new_account id salt username nickname password) accounts

  unfoldable pub login_of : Text → Option Account → AuthOutcome
  unfolding issue_token
  login_of password none = unauthorized
  login_of password (some a) =
      if w.compare password a.password_hash then granted (issue_token a) else unauthorized

  unfoldable pub login : (username password : Text) → List Account → AuthOutcome
  unfolding login_of find_by_username
  login username password accounts = login_of password (find_by_username username accounts)
