-- ===== src/UserService/Games.antt =====
-- apps/user/src/history/history.service.ts (`listGames` and its cursors) and profile.controller.ts
-- (`games`): the games of a user in pages, the latest first. How the runtime and Postgres write and
-- read times, identifiers and base64url is a parameter; an identifier is a UUID as a number.
pub mod Order
pub mod Cursor
pub mod Pages
mod Tests
use gacha_mind.Base.{
  ℕ, suc, ◌+◌, Bool, true, false, ◌&&◌, ◌||◌, not, List, [], ◌∷◌, ◌++◌, Option, none, some, Text,
  codes, length, take, keep, leb, ltb, min, max, ◌==◌, if◌then◌else◌, sort_by, is_some,
}
use gacha_mind.Shared.Account.{GameResultPlayer, PlayerGameRecord}
use gacha_mind.UserService.History.{GameRow, PlayerRow, Database}

-- `Date.toISOString`, `Date.parse`, the text of a UUID, the two casts of the query, and base64url.
pub record Notation : Type 0 where
  pub to_iso : ℕ → Text
  pub is_date : Text → Bool
  pub to_time : Text → Option ℕ
  pub uuid_text : ℕ → Text
  pub to_uuid : Text → Option ℕ
  pub to_base64 : Text → Text
  pub from_base64 : Text → Text

abbrev pub player_games_page_size : ℕ
player_games_page_size = 20

abbrev pub player_games_page_limit : ℕ
player_games_page_limit = 50

-- A whole number of the query string; a negative one is as good as any other below 1.
pub data Integer : Type 0 where
  natural : ℕ → Integer
  negative : Integer

pub record PlayerGamesResponse : Type 0 where
  pub games : List PlayerGameRecord
  pub next_cursor : Option Text

-- A query that cannot cast its arguments fails.
pub data PageResult : Type 0 where
  page : PlayerGamesResponse → PageResult
  invalid_cursor : PageResult
  query_failed : PageResult

unfoldable pub clamp_limit : Option Integer → ℕ
clamp_limit none = min (max player_games_page_size 1) player_games_page_limit
clamp_limit (some (natural n)) = min (max n 1) player_games_page_limit
clamp_limit (some negative) = 1

-- The rows of the join, for one row of `game_players` and for all.
unfoldable pub join_games : GameResultPlayer → ℕ → List GameRow → List PlayerGameRecord
join_games p id [] = []
join_games p id (g ∷ gs) =
    if g.id == id
    then record {
      game_id = g.id;
      room_id = g.room_id;
      finished_at = g.finished_at;
      rounds_played = g.rounds_played;
      player_count = g.player_count;
      score = p.score;
      rank = p.rank;
    }
      ∷ join_games p id gs
    else join_games p id gs

unfoldable pub belongs_to : ℕ → Option ℕ → Bool
belongs_to user none = false
belongs_to user (some u) = u == user

unfoldable pub games_of : ℕ → List GameRow → List PlayerRow → List PlayerGameRecord
unfolding join_games belongs_to
games_of user games [] = []
games_of user games (p ∷ ps) =
    (if belongs_to user p.player.user_id then join_games p.player p.game_id games else [])
    ++ games_of user games ps

-- `ORDER BY g.finished_at DESC, g.id DESC`
unfoldable pub later_game : PlayerGameRecord → PlayerGameRecord → Bool
later_game a b =
    ltb b.finished_at a.finished_at || (a.finished_at == b.finished_at && ltb b.game_id a.game_id)

-- `(g.finished_at, g.id) < ($2, $3)`
unfoldable pub is_before : Option (ℕ × ℕ) → PlayerGameRecord → Bool
is_before none g = true
is_before (some (time, id)) g =
    ltb g.finished_at time || (g.finished_at == time && ltb g.game_id id)

unfoldable pub query_games : ℕ → Option (ℕ × ℕ) → ℕ → Database → List PlayerGameRecord
unfolding games_of is_before
query_games user after limit db =
    take limit
      (sort_by later_game (keep (is_before after) (games_of user db.games db.game_players)))

-- The text before the first bar, and the text after it up to the next.
unfoldable pub until_bar : Text → Text
until_bar [] = []
until_bar (c ∷ s) = if c == 124 then [] else c ∷ until_bar s

unfoldable pub after_bar : Text → Option Text
after_bar [] = none
after_bar (c ∷ s) = if c == 124 then some s else after_bar s

-- `[0-9a-f-]` without regard to case.
unfoldable pub is_uuid_char : ℕ → Bool
is_uuid_char c =
    (leb 48 c && leb c 57) || (leb 97 c && leb c 102) || (leb 65 c && leb c 70) || c == 45

unfoldable pub looks_like_uuid : Text → Bool
unfolding is_uuid_char
looks_like_uuid [] = true
looks_like_uuid (c ∷ s) = is_uuid_char c && looks_like_uuid s

unfoldable pub last_game : List PlayerGameRecord → Option PlayerGameRecord
last_game [] = none
last_game (g ∷ []) = some g
last_game (g ∷ h ∷ gs) = last_game (h ∷ gs)

module _ (w : Notation) where
  unfoldable pub encode_cursor : PlayerGameRecord → Text
  encode_cursor g = w.to_base64 (w.to_iso g.finished_at ++ codes "|" ++ w.uuid_text g.game_id)

  -- The checks of `decodeCursor` on the two parts.
  unfoldable pub check_cursor : Text → Option Text → Option (Text × Text)
  unfolding looks_like_uuid
  check_cursor [] id = none
  check_cursor (c ∷ time) none = none
  check_cursor (c ∷ time) (some id) =
      if w.is_date (c ∷ time) && (length id == 36 && looks_like_uuid id)
      then some (c ∷ time, id)
      else none

  unfoldable pub second_part : Option Text → Option Text
  unfolding until_bar
  second_part none = none
  second_part (some s) = some (until_bar s)

  unfoldable pub decode_cursor : Text → Option (Text × Text)
  unfolding check_cursor second_part until_bar after_bar
  decode_cursor cursor =
      let text = w.from_base64 cursor in
      check_cursor (until_bar text) (second_part (after_bar text))

  unfoldable pub next_page : ℕ → List PlayerGameRecord → PlayerGamesResponse
  unfolding encode_cursor last_game
  next_page limit rows = record {
    games = take limit rows;
    next_cursor =
        if ltb limit (length rows)
        then elim (last_game (take limit rows)) [ none ↦ none | some g ↦ some (encode_cursor g) ]
        else none;
  }

  -- The casts of the arguments to `timestamptz` and `uuid`.
  unfoldable pub cast_key : Text × Text → Option (ℕ × ℕ)
  cast_key (time, id) = elim (w.to_time time) [
    | none ↦ none
    | some t ↦ elim (w.to_uuid id) [ none ↦ none | some i ↦ some (t, i) ]
  ]

  unfoldable pub read_page : ℕ → ℕ → Option (ℕ × ℕ) → Database → PageResult
  unfolding next_page query_games
  read_page user limit after db = page (next_page limit (query_games user after (limit + 1) db))

  unfoldable pub read_after : ℕ → ℕ → Option (ℕ × ℕ) → Database → PageResult
  unfolding read_page
  read_after user limit none db = query_failed
  read_after user limit (some key) db = read_page user limit (some key) db

  unfoldable pub read_decoded : ℕ → ℕ → Option (Text × Text) → Database → PageResult
  unfolding read_after cast_key
  read_decoded user limit none db = invalid_cursor
  read_decoded user limit (some parts) db = read_after user limit (cast_key parts) db

  -- The empty cursor counts as none.
  unfoldable pub list_games : ℕ → Option Integer → Option Text → Database → PageResult
  unfolding read_page read_decoded decode_cursor clamp_limit
  list_games user limit none db = read_page user (clamp_limit limit) none db
  list_games user limit (some []) db = read_page user (clamp_limit limit) none db
  list_games user limit (some (c ∷ s)) db =
      read_decoded user (clamp_limit limit) (decode_cursor (c ∷ s)) db
