-- ===== src/UserService/Tests.antt =====
-- Results that are recorded, one of them twice.
use gacha_mind.Base.{ℕ, ◌≡◌, List, [], ◌∷◌, Option, none, some, codes}
use gacha_mind.Shared.Account.{GameResultPlayer, GameFinishedEvent}
use gacha_mind.UserService.History.{get_stats}
use gacha_mind.UserService.History.Once.{
  empty_database, save_all, first_deliveries, stats_of_events, save_all-once,
}

abbrev result : ℕ → Option ℕ → ℕ → ℕ → GameResultPlayer
result id user score rank = record {
  player_id = id;
  user_id = user;
  nickname = codes "player";
  score = score;
  rank = rank;
}

abbrev game : ℕ → ℕ → List GameResultPlayer → GameFinishedEvent
game id time players = record {
  game_id = id;
  room_id = codes "ABC12";
  finished_at = time;
  rounds_played = 2;
  players = players;
}

abbrev three_deliveries : List GameFinishedEvent
three_deliveries =
    game 1 500 (result 10 (some 7) 60 1 ∷ result 11 none 20 2 ∷ [])
    ∷ game 2 400 (result 12 (some 7) 90 1 ∷ result 13 (some 8) 10 2 ∷ [])
    ∷ game 1 500 (result 10 (some 7) 60 1 ∷ result 11 none 20 2 ∷ [])
    ∷ []

save_all-once_example :
    get_stats 7 (save_all three_deliveries empty_database)
    ≡ stats_of_events 7 (first_deliveries [] three_deliveries)
save_all-once_example = save_all-once 7 three_deliveries
