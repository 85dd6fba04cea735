-- ===== src/UserService/History.antt =====
-- apps/user/src/history/history.service.ts and internal.controller.ts: the tables of games, players
-- and statistics, and the transaction that records a finished game. A table is the list of its rows
-- in the order of insertion. A transaction either runs to its end or leaves the tables alone.
pub mod Merge
pub mod Once
use gacha_mind.Base.{
  ℕ, ◌+◌, Bool, true, false, ◌||◌, List, [], ◌∷◌, ◌++◌, Option, none, some, Text, length, max, leb,
  ◌==◌, if◌then◌else◌,
}
use gacha_mind.Shared.Account.{GameResultPlayer, GameFinishedEvent, PlayerStats}

-- A row of `games`.
pub record GameRow : Type 0 where
  pub id : ℕ
  pub room_id : Text
  pub rounds_played : ℕ
  pub finished_at : ℕ
  pub player_count : ℕ

-- A row of `game_players`.
pub record PlayerRow : Type 0 where
  pub game_id : ℕ
  pub player : GameResultPlayer

-- A row of `user_stats`.
pub record UserStats : Type 0 where
  pub user_id : ℕ
  pub nickname : Text
  pub games_played : ℕ
  pub wins : ℕ
  pub total_score : ℕ
  pub best_score : ℕ
  pub last_played_at : ℕ

pub record Database : Type 0 where
  pub games : List GameRow
  pub game_players : List PlayerRow
  pub user_stats : List UserStats

unfoldable pub has_game : ℕ → List GameRow → Bool
has_game id [] = false
has_game id (g ∷ gs) = g.id == id || has_game id gs

unfoldable pub game_row : GameFinishedEvent → GameRow
game_row event = record {
  id = event.game_id;
  room_id = event.room_id;
  rounds_played = event.rounds_played;
  finished_at = event.finished_at;
  player_count = length event.players;
}

unfoldable pub win : GameResultPlayer → ℕ
win p = if p.rank == 1 then 1 else 0

-- The row of `VALUES`.
unfoldable pub first_stats : ℕ → ℕ → GameResultPlayer → UserStats
unfolding win
first_stats finished_at user p = record {
  user_id = user;
  nickname = p.nickname;
  games_played = 1;
  wins = win p;
  total_score = p.score;
  best_score = p.score;
  last_played_at = finished_at;
}

-- `ON CONFLICT (user_id) DO UPDATE SET`
unfoldable pub update_stats : UserStats → UserStats → UserStats
update_stats excluded row = record {
  user_id = row.user_id;
  nickname =
      if leb row.last_played_at excluded.last_played_at then excluded.nickname else row.nickname;
  games_played = row.games_played + 1;
  wins = row.wins + excluded.wins;
  total_score = row.total_score + excluded.total_score;
  best_score = max row.best_score excluded.best_score;
  last_played_at = max row.last_played_at excluded.last_played_at;
}

unfoldable pub upsert_stats : UserStats → List UserStats → List UserStats
unfolding update_stats
upsert_stats excluded [] = excluded ∷ []
upsert_stats excluded (row ∷ rows) =
    if row.user_id == excluded.user_id
    then update_stats excluded row ∷ rows
    else row ∷ upsert_stats excluded rows

-- A guest has no statistics.
unfoldable pub count_for : Option ℕ → ℕ → GameResultPlayer → List UserStats → List UserStats
unfolding upsert_stats first_stats
count_for none finished_at p rows = rows
count_for (some user) finished_at p rows = upsert_stats (first_stats finished_at user p) rows

-- The body of the loop over the players.
unfoldable pub save_player : GameFinishedEvent → GameResultPlayer → Database → Database
unfolding count_for
save_player event p db = record db {
  game_players = db.game_players ++ record { game_id = event.game_id; player = p } ∷ [];
  user_stats = count_for p.user_id event.finished_at p db.user_stats;
}

unfoldable pub save_players : GameFinishedEvent → List GameResultPlayer → Database → Database
unfolding save_player
save_players event [] db = db
save_players event (p ∷ ps) db = save_players event ps (save_player event p db)

unfoldable pub save_game_result : GameFinishedEvent → Database → Database × Bool
unfolding save_players game_row has_game
save_game_result event db = if has_game event.game_id db.games then (db, false) else (
  save_players event event.players (record db { games = db.games ++ game_row event ∷ [] }),
  true,
)

unfoldable pub find_stats : ℕ → List UserStats → Option UserStats
find_stats user [] = none
find_stats user (row ∷ rows) = if row.user_id == user then some row else find_stats user rows

abbrev pub empty_stats : PlayerStats
empty_stats = record {
  games_played = 0;
  wins = 0;
  total_score = 0;
  best_score = 0;
  last_played_at = none;
}

unfoldable pub stats_of_row : Option UserStats → PlayerStats
stats_of_row none = empty_stats
stats_of_row (some row) = record {
  games_played = row.games_played;
  wins = row.wins;
  total_score = row.total_score;
  best_score = row.best_score;
  last_played_at = some row.last_played_at;
}

unfoldable pub get_stats : ℕ → Database → PlayerStats
unfolding stats_of_row find_stats
get_stats user db = stats_of_row (find_stats user db.user_stats)
