-- ===== src/ResultsWorker/Tests.antt =====
-- A result whose first reply is lost.
use gacha_mind.Base.{if◌then◌else◌, ◌≡◌, List, [], ◌∷◌, ◌++◌, some, codes}
use gacha_mind.Shared.Account.{GameFinishedEvent}
use gacha_mind.UserService.History.{save_game_result}
use gacha_mind.UserService.History.Once.{empty_database}
use gacha_mind.ResultsWorker.{acked}
use gacha_mind.ResultsWorker.Retry.{
  Fate, request_lost, reply_lost, answered, server_error, retry, retry-once, is_accepted,
}

abbrev finished : GameFinishedEvent
finished = record {
  game_id = 1;
  room_id = codes "ABC12";
  finished_at = 500;
  rounds_played = 2;
  players =
      record { player_id = 10; user_id = some 7; nickname = codes "ada"; score = 60; rank = 1 }
      ∷ [];
}

abbrev fates : List Fate
fates = request_lost ∷ reply_lost ∷ server_error 3 ∷ reply_lost ∷ []

retry-once_example : retry (fates ++ answered ∷ []) finished empty_database ≡ (
  if is_accepted finished then (save_game_result finished empty_database).0 else empty_database,
  acked,
)
retry-once_example = retry-once fates finished empty_database
