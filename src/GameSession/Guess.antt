-- ===== src/GameSession/Guess.antt =====
-- apps/game-session/src/game.ts: `handleGuess` and `handlePlayerLeftDuringGame`.
-- The lower-casing of the runtime is the parameter `lower`.
pub mod Scoring
pub mod Leaks
pub mod Pause
use gacha_mind.Base.{
  ℕ, ◌+◌, Bool, true, false, ◌&&◌, not, List, [], ◌∷◌, ◌++◌, Option, none, some, Text, codes,
  text_eq, includes, elem, ltb, ◌==◌, if◌then◌else◌, or_else,
}
use gacha_mind.Shared.Protocol.{min_players_to_start, correct_answer}
use gacha_mind.Shared.Answer.{normalize_answer}
use gacha_mind.GameSession.Room.{
  Player, Room, Session, remaining_ms, size, summaries, is_drawer, unsolved_guesser_count, change,
  broadcast, notice,
}
use gacha_mind.GameSession.Score.{answer_score, drawer_score_per_solver}
use gacha_mind.GameSession.Game.{is_playing, add_score, end_game, end_round}

-- `drawer` is `room.drawerId`; a drawer that is no longer in the room scores nothing.
unfoldable pub pay_drawer : Option ℕ → List Player → List Player
pay_drawer none ps = ps
pay_drawer (some drawer) ps = add_score drawer drawer_score_per_solver ps

unfoldable pub award : ℕ → ℕ → Room → Room
unfolding pay_drawer
award now id r = record r {
  solved_player_ids = r.solved_player_ids ++ id ∷ [];
  players =
      pay_drawer r.drawer_id
        (add_score id (answer_score (or_else (remaining_ms now r) 0)) r.players);
}

unfoldable pub is_guesser : ℕ → Room → Bool
is_guesser id r = not (is_drawer r.drawer_id id) && not (elem id r.solved_player_ids)

unfoldable pub announce_correct : Player → Session → Session
announce_correct p s = broadcast (correct_answer p.id p.nickname (summaries s.room)) none s

unfoldable pub end_if_all_solved : Session → Session
end_if_all_solved s = if unsolved_guesser_count s.room == 0 then end_round s else s

-- The guess and the answer come normalised.
unfoldable pub judge : ℕ → Player → Text → Text → Session → Session × Bool
unfolding award announce_correct end_if_all_solved is_guesser
judge now p guess answer s =
    if is_guesser p.id s.room && text_eq guess answer
    then (end_if_all_solved (announce_correct p (change (award now p.id) s)), true)
    else (s, includes guess answer)

unfoldable pub judge_word :
    (Text → Text) → ℕ → Player → Text → Option Text → Session → Session × Bool
judge_word lower now p text none s = (s, false)
judge_word lower now p text (some []) s = (s, false)
judge_word lower now p text (some (c ∷ w)) s =
    judge now p (normalize_answer lower text) (normalize_answer lower (c ∷ w)) s

unfoldable pub handle_guess : (Text → Text) → ℕ → Player → Text → Session → Session × Bool
unfolding judge judge_word
handle_guess lower now p text s =
    if is_playing s.room.phase then judge_word lower now p text s.room.word s else (s, false)

unfoldable pub too_few_to_go_on : Text
too_few_to_go_on = codes "인원이 부족해 게임을 종료합니다."

unfoldable pub drawer_left : Text
drawer_left = codes "출제자가 나가 라운드를 종료합니다."

unfoldable pub handle_player_left_during_game : ℕ → ℕ → Session → Session
unfolding end_if_all_solved
handle_player_left_during_game now left s =
    if is_playing s.room.phase
    then if ltb (size s.room) min_players_to_start
      then end_game now (notice now too_few_to_go_on s)
      else if is_drawer s.room.drawer_id left
      then end_round (notice now drawer_left s)
      else end_if_all_solved s
    else s
