-- ===== src/GameSession/Auth.antt =====
-- apps/game-session/src/auth.ts: who is behind a connection. The header is `none` where there is none;
-- `decodeURIComponent` gives `none` where it throws, and the check of a token where jose rejects it.
pub mod Laws
pub mod Bridge
mod Tests
use gacha_mind.Base.{
  ℕ, Bool, true, false, List, [], ◌∷◌, ◌++◌, Option, none, some, Text, codes, text_eq, trim, ◌==◌,
  if◌then◌else◌,
}
use gacha_mind.Shared.Account.{session_cookie_name}
use gacha_mind.GameSession.Server.{Identity}

-- A verified payload as it comes: any field may be missing, and the name need be no text.
pub record Payload : Type 0 where
  pub sub : Option ℕ
  pub username : Text
  pub nickname : Option Text

pub record Runtime : Type 0 where
  pub decode_component : Text → Option Text
  pub verify : Text → Option Payload

-- `s.split(separator)` at one code unit: the first part and the others.
unfoldable pub split_at : ℕ → Text → Text × List Text
split_at x [] = ([], [])
split_at x (c ∷ s) =
    let (part, parts) = split_at x s in if c == x then ([], part ∷ parts) else (c ∷ part, parts)

unfoldable pub join_with : ℕ → List Text → Text
join_with x [] = []
join_with x (s ∷ []) = s
join_with x (s ∷ t ∷ rest) = s ++ x ∷ join_with x (t ∷ rest)

-- What reading a cookie gives: a value or null, or a throw of `decodeURIComponent`.
pub data CookieRead : Type 0 where
  value : Text → CookieRead
  missing : CookieRead
  throws : CookieRead

unfoldable pub decoded : Option Text → CookieRead
decoded none = throws
decoded (some s) = value s

module _ (w : Runtime) where
  -- One turn of the loop, on the key and the other parts.
  unfoldable pub read_part : (name : Text) → Text × List Text → CookieRead → CookieRead
  unfolding decoded join_with
  read_part name (key, rest) others =
      if text_eq key name then decoded (w.decode_component (join_with 61 rest)) else others

  unfoldable pub read_parts : (name : Text) → List Text → CookieRead
  unfolding read_part split_at
  read_parts name [] = missing
  read_parts name (part ∷ parts) = read_part name (split_at 61 (trim part)) (read_parts name parts)

  unfoldable pub read_cookie : Option Text → Text → CookieRead
  unfolding read_parts
  read_cookie none name = missing
  read_cookie (some []) name = missing
  read_cookie (some (c ∷ header)) name =
      let (part, parts) = split_at 59 (c ∷ header) in read_parts name (part ∷ parts)

  -- The fields of a payload that was verified; an empty or missing `sub` is a guest.
  unfoldable pub identity_of : Option Payload → Option Identity
  identity_of none = none
  identity_of (some p) = elim p.sub [
    | none ↦ none
    | some id ↦ elim p.nickname [
      | none ↦ none
      | some nickname ↦ some (record { user_id = id; username = p.username; nickname = nickname })
    ]
  ]

  -- `identifyConnection`: the outer `none` is a rejected promise.
  unfoldable pub identify : CookieRead → Option (Option Identity)
  unfolding identity_of
  identify missing = some none
  identify throws = none
  identify (value []) = some none
  identify (value (c ∷ token)) = some (identity_of (w.verify (c ∷ token)))

  unfoldable pub identify_connection : Option Text → Option (Option Identity)
  unfolding identify read_cookie
  identify_connection header = identify (read_cookie header session_cookie_name)
