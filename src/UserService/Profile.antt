-- ===== src/UserService/Profile.antt =====
-- apps/user/src/history/profile.controller.ts: the two requests about a player.
use gacha_mind.Base.{ℕ, Option, none, some, Text, List}
use gacha_mind.Shared.Account.{PlayerStats}
use gacha_mind.UserService.History.{Database, get_stats}
use gacha_mind.UserService.Accounts.{Account, find_by_username}
use gacha_mind.UserService.Games.{
  Notation, Integer, PageResult, page, invalid_cursor, query_failed, PlayerGamesResponse,
  list_games,
}

-- The account of a profile as it is answered, without the date of its creation.
pub record ProfileResponse : Type 0 where
  pub id : ℕ
  pub username : Text
  pub nickname : Text
  pub stats : PlayerStats

pub data ProfileReply : Type 0 where
  profile_found : ProfileResponse → ProfileReply
  profile_not_found : ProfileReply

unfoldable pub profile_of : Option Account → Database → ProfileReply
profile_of none db = profile_not_found
profile_of (some a) db =
    profile_found (record {
      id = a.id;
      username = a.username;
      nickname = a.nickname;
      stats = get_stats a.id db;
    })

-- `profile`
unfoldable pub profile : (username : Text) → List Account → Database → ProfileReply
unfolding profile_of
profile username accounts db = profile_of (find_by_username username accounts) db

pub data GamesReply : Type 0 where
  games_found : PlayerGamesResponse → GamesReply
  games_not_found bad_limit bad_cursor games_failed : GamesReply

unfoldable pub reply_of : PageResult → GamesReply
reply_of (page p) = games_found p
reply_of invalid_cursor = bad_cursor
reply_of query_failed = games_failed

-- The whole number that `Number` makes of the text of the query, if it makes one, is an argument.
unfoldable pub games_within :
    Notation
    → (to_integer : Text → Option Integer) → (user : ℕ) → (cursor limit : Option Text) → Database
    → GamesReply
unfolding reply_of
games_within w to_integer user cursor none db = reply_of (list_games w user none cursor db)
games_within w to_integer user cursor (some raw) db = elim (to_integer raw) [
  | none ↦ bad_limit
  | some n ↦ reply_of (list_games w user (some n) cursor db)
]

unfoldable pub games_for :
    Notation
    → (to_integer : Text → Option Integer) → Option Account
    → (cursor limit : Option Text) → Database
    → GamesReply
unfolding games_within
games_for w to_integer none cursor limit db = games_not_found
games_for w to_integer (some a) cursor limit db = games_within w to_integer a.id cursor limit db

-- `games`
unfoldable pub player_games :
    Notation
    → (to_integer : Text → Option Integer) → (username : Text) → (cursor limit : Option Text)
    → List Account
    → Database
    → GamesReply
unfolding games_for
player_games w to_integer username cursor limit accounts db =
    games_for w to_integer (find_by_username username accounts) cursor limit db
