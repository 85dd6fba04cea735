-- ===== src/GameSession/Auth/Bridge.antt =====
-- Who logs in at the user service (apps/user/src/auth) is known to a game session by the cookie that
-- the web server sets from the answer (apps/web/src/features/auth/server.ts).
use gacha_mind.Base.{
  ◌≡◌, ◌≢◌, sym, ap, ◌∙◌, inl, inr, List, [], ◌∷◌, Option, none, some, Text, All, Bool-cases,
}
use gacha_mind.Shared.Account.{SessionTokenPayload, AuthResponse, session_cookie_name}
use gacha_mind.UserService.Accounts.{
  Services, Account, granted, unauthorized, issue_token, find_by_username, login_of, login,
}
use gacha_mind.GameSession.Auth.{Runtime, identify_connection}
use gacha_mind.GameSession.Auth.Laws.{
  Cookie, IsCookie, cookie_of, cookie_header, identify_connection-session,
}

-- The two processes share the secret, the token has not run out, and a value that was percent-encoded
-- is decoded to itself.
pub record IsBridge (w : Services) (v : Runtime) (encode : Text → Text) : Type 0 where
  pub verified :
      (p : SessionTokenPayload)
      → v.verify (w.sign p)
        ≡ some (record { sub = some p.sub; username = p.username; nickname = some p.nickname })
  pub signed : (p : SessionTokenPayload) → w.sign p ≢ []
  pub decoded : (s : Text) → v.decode_component (encode s) ≡ some s

module _ (w : Services) (v : Runtime) (encode : Text → Text) where
  identify-issue_token :
      (a : Account) (c : Cookie) (cs : List Cookie)
      → IsBridge w v encode
      → All IsCookie (c ∷ cs)
      → cookie_of session_cookie_name (c ∷ cs) ≡ some (encode (issue_token w a).access_token)
      → identify_connection v (some (cookie_header (c ∷ cs)))
        ≡ some (some (record { user_id = a.id; username = a.username; nickname = a.nickname }))
  unfolding issue_token
  identify-issue_token a c cs b h e =
      identify_connection-session v c cs _ _ a.id a.username a.nickname h e
        (b.decoded (w.sign (record { sub = a.id; username = a.username; nickname = a.nickname })))
        (b.signed (record { sub = a.id; username = a.username; nickname = a.nickname }))
        (b.verified (record { sub = a.id; username = a.username; nickname = a.nickname }))

  login_of-granted :
      (password : Text) (found : Option Account) (r : AuthResponse)
      → login_of w password found ≡ granted r
      → (a : Account) × (issue_token w a ≡ r)
  unfolding login_of
  login_of-granted password none r e = cc
  login_of-granted password (some a) r e = elim (Bool-cases (w.compare password a.password_hash)) [
    | inl same ↦ (a, granted_inj (rw same at e))
    | inr other ↦ absurd (denied (rw other at e))
  ]
    where
      granted_inj : {x y : AuthResponse} → granted x ≡ granted y → x ≡ y
      granted_inj e = cc

      denied : unauthorized ≡ granted r → ⊥
      denied e = cc

  -- Whoever logged in, and whose browser sends the token of the answer, encoded, as the session cookie,
  -- among other cookies of which no earlier one has that name, is to the game session the user of the
  -- answer. It supposes that both services share the secret and that the token has not run out.
  pub login-identify_connection :
      (username password : Text) (accounts : List Account) (r : AuthResponse) (c : Cookie)
      (cs : List Cookie)
      → IsBridge w v encode
      → login w username password accounts ≡ granted r
      → All IsCookie (c ∷ cs)
      → cookie_of session_cookie_name (c ∷ cs) ≡ some (encode r.access_token)
      → identify_connection v (some (cookie_header (c ∷ cs)))
        ≡ some (
            some (record {
              user_id = r.user.id;
              username = r.user.username;
              nickname = r.user.nickname;
            }))
  unfolding login
  login-identify_connection username password accounts r c cs b granted_r h e =
      let (a, same) = login_of-granted password (find_by_username username accounts) r granted_r in
      identify-issue_token a c cs b h (e ∙ ap (λ x. some (encode x.access_token)) (sym same))
      ∙ ap
          (λ x. some (
            some (record {
              user_id = x.user.id;
              username = x.user.username;
              nickname = x.user.nickname;
            })))
          (unfold issue_token in same)
