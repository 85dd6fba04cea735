-- ===== src/GameSession/Game.antt =====
-- apps/game-session/src/game.ts: the course of a game. Each function takes the session, which is
-- the room and what has left the process so far, and gives the session after it; the clock, fresh
-- identifiers and random draws of the call come in an environment.
pub mod Outcomes
pub mod Secrecy
pub mod Ending
pub mod Publishing
use gacha_mind.Base.{
  ℕ, zero, suc, ◌+◌, ◌-◌, Bool, true, false, ◌&&◌, ◌||◌, not, List, [], ◌∷◌, Option, none, some,
  Text, codes, text_eq, includes, elem, length, take, min, ltb, ◌==◌, if◌then◌else◌, or_else, ◌++◌,
}
use gacha_mind.Shared.Protocol.{
  GamePhase, waiting, playing, ended, round_duration_ms, min_players_to_start, max_rounds,
  RoundStartedMessage, draw_clear, game_started, round_started, round_ended, correct_answer,
  game_ended,
}
use gacha_mind.Shared.Answer.{normalize_answer}
use gacha_mind.GameSession.Room.{
  Player, Timer, round_over, intermission_over, Room, synced_occupancy, published, Session,
  remaining_ms, ids, find_player, size, summaries, is_drawer, unsolved_guesser_count, clear_strokes,
  clear_round_timer, change, emit, send, broadcast, notice,
}
use gacha_mind.GameSession.Words.{pick_word}
use gacha_mind.GameSession.Shuffle.{shuffle}
use gacha_mind.GameSession.Score.{answer_score, drawer_score_per_solver}
use gacha_mind.GameSession.Ranking.{to_result_players}

-- One call's `Date.now()`, `randomUUID()` and `Math.random()`.
pub record Env : Type 0 where
  pub now : ℕ
  pub fresh_id : ℕ
  pub rolls : ℕ → ℕ
  pub word_roll : ℕ

abbrev pub is_playing : GamePhase → Bool
is_playing waiting = false
is_playing playing = true
is_playing ended = false

-- `player.score += points` on the player with that identifier.
unfoldable pub add_score : ℕ → ℕ → List Player → List Player
add_score id points [] = []
add_score id points (p ∷ ps) =
    if p.id == id then record p { score = p.score + points } ∷ ps else p ∷ add_score id points ps

unfoldable pub reset_scores : List Player → List Player
reset_scores [] = []
reset_scores (p ∷ ps) = record p { score = 0 } ∷ reset_scores ps

-- The fields that `endGame` clears.
unfoldable pub close_game : Room → Room
close_game r = record r {
  round_timer = none;
  phase = ended;
  game_id = none;
  drawer_id = none;
  word = none;
  round_ends_at = none;
  drawer_queue = [];
}

-- `if (gameId) publishGameEvent(…)`
unfoldable pub publish_result : ℕ → Option ℕ → ℕ → Session → Session
publish_result now none rounds s = s
publish_result now (some game) rounds s =
    emit
      (published (record {
        game_id = game;
        room_id = s.room.id;
        finished_at = now;
        rounds_played = rounds;
        players = to_result_players s.room.players;
      }))
      s

unfoldable pub announce_end : Session → Session
announce_end s =
    let s' = broadcast (game_ended (summaries s.room)) none s in emit (synced_occupancy s'.room) s'

unfoldable pub end_game : ℕ → Session → Session
unfolding announce_end close_game publish_result
end_game now s =
    if is_playing s.room.phase
    then publish_result now s.room.game_id s.room.round (announce_end (change close_game s))
    else s

-- The fields that `startRound` sets for its drawer.
unfoldable pub open_round : Env → Player → Room → Room
open_round e drawer r = record r {
  round = r.round + 1;
  drawer_id = some drawer.id;
  word = some (pick_word e.word_roll r.used_words);
  used_words = r.used_words ++ pick_word e.word_roll r.used_words ∷ [];
  round_ends_at = some (e.now + round_duration_ms);
  solved_player_ids = [];
  strokes = [];
}

unfoldable pub started_message : ℕ → Player → Room → Option Text → RoundStartedMessage
started_message now drawer r word = record {
  round = r.round;
  total_rounds = r.total_rounds;
  drawer_id = drawer.id;
  drawer_nickname = drawer.nickname;
  remaining_ms = or_else (remaining_ms now r) round_duration_ms;
  word_length = length (or_else r.word []);
  word = word;
}

unfoldable pub announce_round : ℕ → Player → Session → Session
unfolding started_message
announce_round now drawer s =
    let hidden =
      broadcast (round_started (started_message now drawer s.room none)) (some drawer.id)
        (broadcast draw_clear none s) in
    send drawer.id (round_started (started_message now drawer s.room s.room.word)) hidden

unfoldable pub schedule : Timer → Room → Room
schedule t r = record r { round_timer = some t }

unfoldable pub start_round_with : Env → Option Player → Session → Session
unfolding open_round announce_round schedule
start_round_with e none s = end_game e.now s
start_round_with e (some drawer) s =
    change (schedule round_over) (announce_round e.now drawer (change (open_round e drawer) s))

-- `drawerQueue.shift()` and the player that it names.
unfoldable pub start_round_from : Env → List ℕ → Session → Session
unfolding start_round_with
start_round_from e [] s = start_round_with e none s
start_round_from e (id ∷ rest) s =
    start_round_with e (find_player id s.room.players)
      (change (λ r. record r { drawer_queue = rest }) s)

unfoldable pub start_round : Env → Session → Session
unfolding start_round_from
start_round e s = start_round_from e s.room.drawer_queue (change clear_round_timer s)

unfoldable pub too_few_to_start : Text
too_few_to_start = codes "게임을 시작하려면 2명 이상이 필요합니다."

-- The fields that `startGame` sets.
unfoldable pub open_game : Env → Room → Room
open_game e r = record r {
  players = reset_scores r.players;
  phase = playing;
  game_id = some e.fresh_id;
  round = 0;
  used_words = [];
  total_rounds = min (size r) max_rounds;
  drawer_queue = take (min (size r) max_rounds) (shuffle e.rolls (ids r.players));
}

unfoldable pub announce_game : Session → Session
announce_game s =
    let s' = broadcast (game_started s.room.total_rounds) none s in
    emit (synced_occupancy s'.room) s'

unfoldable pub start_game : Env → Session → Session
unfolding open_game announce_game
start_game e s =
    if is_playing s.room.phase
    then s
    else if ltb (size s.room) min_players_to_start
    then notice e.now too_few_to_start s
    else start_round e (announce_game (change (open_game e) s))

-- The fields that `endRound` clears.
unfoldable pub close_round : Room → Room
close_round r = record r { round_timer = none; drawer_id = none; word = none; round_ends_at = none }

unfoldable pub announce_answer : Text → Session → Session
announce_answer word s = broadcast (round_ended s.room.round word (summaries s.room)) none s

-- An empty room schedules no further round.
unfoldable pub rest_round : Session → Session
unfolding schedule
rest_round s = if size s.room == 0 then s else change (schedule intermission_over) s

unfoldable pub end_round : Session → Session
unfolding announce_answer close_round rest_round
end_round s =
    if is_playing s.room.phase
    then rest_round (announce_answer (or_else s.room.word []) (change close_round s))
    else s

-- The callback of the pause between two rounds.
unfoldable pub resume : Env → Session → Session
resume e s =
    if is_playing s.room.phase
    then if ltb (size s.room) min_players_to_start || length s.room.drawer_queue == 0
      then end_game e.now s
      else start_round e s
    else s

unfoldable pub run_timer : Env → Option Timer → Session → Session
run_timer e none s = s
run_timer e (some round_over) s = end_round s
run_timer e (some intermission_over) s = resume e s

-- The event loop runs the callback of the pending timer.
unfoldable pub fire_timer : Env → Session → Session
unfolding run_timer
fire_timer e s = run_timer e s.room.round_timer s
