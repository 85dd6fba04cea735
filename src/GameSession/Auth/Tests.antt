-- ===== src/GameSession/Auth/Tests.antt =====
-- A player who has logged in joins, with another cookie in the browser.
use gacha_mind.Base.{
  ◌≡◌, refl, [], ◌∷◌, Option, none, some, Text, codes, text_eq, take, drop, length, ◌++◌, ap, All,
  elem, is_space,
}
use gacha_mind.Shared.Account.{AuthResponse, session_cookie_name}
use gacha_mind.UserService.Accounts.{
  Services, Account, granted, find_by_username, login_of, issue_token, login,
}
use gacha_mind.GameSession.Auth.{Runtime, Payload, identify_connection}
use gacha_mind.GameSession.Auth.Laws.{Cookie, IsCookie, cookie_header, cookie_of}
use gacha_mind.GameSession.Auth.Bridge.{IsBridge, login-identify_connection}

-- A token spells the identifier, the length of the username, the username and the nickname.
abbrev toy : Services
toy = record {
  hash = λ salt p. p;
  compare = text_eq;
  sign = λ p. p.sub ∷ length p.username ∷ p.username ++ p.nickname;
  count_chars = length;
}

abbrev payload_of : Text → Option Payload
payload_of [] = none
payload_of (id ∷ []) = none
payload_of (id ∷ n ∷ s) =
    some (record { sub = some id; username = take n s; nickname = some (drop n s) })

abbrev toy_runtime : Runtime
toy_runtime = record { decode_component = λ s. some s; verify = payload_of }

take-length : (s t : Text) → take (length s) (s ++ t) ≡ s
take-length [] t = refl
take-length (c ∷ s) t = ap (◌∷◌ c) (take-length s t)

drop-length : (s t : Text) → drop (length s) (s ++ t) ≡ t
drop-length [] t = refl
drop-length (c ∷ s) t = drop-length s t

toy-IsBridge : IsBridge toy toy_runtime (λ s. s)
toy-IsBridge = record {
  verified = λ p. rw (take-length p.username p.nickname, drop-length p.username p.nickname) refl;
  signed = λ p e. cc;
  decoded = λ s. refl;
}

abbrev kim : Account
kim = record {
  id = 66;
  username = codes "kim";
  nickname = codes "Kim";
  password_hash = codes "abc";
}

abbrev answer : AuthResponse
answer = issue_token toy kim

abbrev theme : Cookie
theme = (codes "theme", codes "xp")

abbrev session : Cookie
session = (session_cookie_name, answer.access_token)

logged_in : login toy (codes "kim") (codes "abc") (kim ∷ []) ≡ granted answer
unfolding login login_of find_by_username text_eq
logged_in = refl

both-IsCookie : All IsCookie (theme ∷ session ∷ [])
unfolding elem is_space issue_token
both-IsCookie = (
  record {
    name_plain = refl;
    no_semicolon = refl;
    no_space = (refl, (refl, (refl, (refl, (refl, (refl, (refl, (refl, tt))))))));
  },
  (
    record {
      name_plain = refl;
      no_semicolon = refl;
      no_space = (
        refl,
        (
          refl,
          (
            refl,
            (
              refl,
              (
                refl,
                (
                  refl,
                  (
                    refl,
                    (
                      refl,
                      (
                        refl,
                        (
                          refl,
                          (
                            refl,
                            (
                              refl,
                              (
                                refl,
                                (
                                  refl,
                                  (
                                    refl,
                                    (
                                      refl,
                                      (
                                        refl,
                                        (
                                          refl,
                                          (
                                            refl,
                                            (
                                              refl,
                                              (refl, (refl, (refl, (refl, (refl, (refl, tt)))))),
                                            ),
                                          ),
                                        ),
                                      ),
                                    ),
                                  ),
                                ),
                              ),
                            ),
                          ),
                        ),
                      ),
                    ),
                  ),
                ),
              ),
            ),
          ),
        ),
      );
    },
    tt,
  ),
)

first_session : cookie_of session_cookie_name (theme ∷ session ∷ []) ≡ some answer.access_token
unfolding cookie_of text_eq
first_session = refl

login-identify_connection_example :
    identify_connection toy_runtime (some (cookie_header (theme ∷ session ∷ [])))
    ≡ some (
        some (record {
          user_id = answer.user.id;
          username = answer.user.username;
          nickname = answer.user.nickname;
        }))
login-identify_connection_example =
    login-identify_connection toy toy_runtime (λ s. s) (codes "kim") (codes "abc") (kim ∷ []) answer
      theme (session ∷ []) toy-IsBridge logged_in both-IsCookie first_session
