-- ===== src/GameSession/Tests.antt =====
-- Runs of the game session at concrete rooms.
mod Rooms
use gacha_mind.Base.{
  map, ◌||◌, ◌&&◌, ℕ, ◌≡◌, refl, inl, inr, true, false, text_eq, List, [], ◌∷◌, none, some, Text,
  codes, elem, arith, map, ◌+◌, ◌≤◌, or_else, ◌==◌, if◌then◌else◌,
}
use mathlib.Core.List.{Perm}
use gacha_mind.Shared.Protocol.{playing, round_ended}
use gacha_mind.Shared.Answer.{drop_spaces, normalize_answer}
use gacha_mind.Shared.RoomCode.{normalize_room_code, is_alphanumeric, repair}
use gacha_mind.GameSession.Room.{
  Player, Room, round_over, intermission_over, Session, new_room, find_player, remaining_ms,
  is_drawer, summaries, unsolved_guesser_count, count_unsolved, change, broadcast, remove_player,
  is_full, add_player, put_player, emit, send, notice,
}
use gacha_mind.GameSession.Room.Log.{Logged}
use gacha_mind.GameSession.Words.{words, text_elem, pick_word}
use gacha_mind.GameSession.Words.Laws.{pick_word_lem}
use gacha_mind.GameSession.Shuffle.{shuffle_array, shuffle}
use gacha_mind.GameSession.Shuffle.Laws.{count, count-shuffle}
use gacha_mind.GameSession.Score.{answer_score}
use gacha_mind.GameSession.Score.Laws.{answer_score_bounds}
use gacha_mind.GameSession.Ranking.{sort_by_score, ranked, to_result_players}
use gacha_mind.GameSession.Ranking.Laws.{ahead, IsFalling, to_result_players_lem}
use gacha_mind.GameSession.Game.{
  Env, is_playing, end_game, start_game, fire_timer, close_round, schedule,
}
use gacha_mind.GameSession.Game.Secrecy.{IsDiscreet, start_game-fire_timer-IsDiscreet}
use gacha_mind.GameSession.Game.Ending.{run_timers, game_ends}
use gacha_mind.GameSession.Game.Publishing.{published_count, end_game_once}
use gacha_mind.GameSession.Guess.{is_guesser, handle_guess, handle_player_left_during_game}
use gacha_mind.GameSession.Guess.Scoring.{bump, handle_guess-scores}
use gacha_mind.GameSession.Guess.Leaks.{Hides, handle_chat-Hides}
use gacha_mind.GameSession.Guess.Pause.{handle_player_left-ends_again}
use gacha_mind.GameSession.Handlers.{handle_chat}
use gacha_mind.GameSession.Invariant.{IsResting, IsSound}
use gacha_mind.GameSession.Invariant.Leave.{leave-IsSound}
use gacha_mind.GameSession.Server.Dispatch.{
  null_value, starts_game, dispatch_message, place, in_room, handle_in_room, handle_message,
}
use gacha_mind.GameSession.Server.{
  Connection, JoinMessage, Outcome, went_on, awaits_assignment, thrown, enter, enter_or_ask, report,
  log_all, admit, queue_if_playing, truthy, greet, greet_session, send_snapshot, announce_join,
  enter_session, new_player, after_assignment, after_identity,
}
use gacha_mind.GameSession.Rooms.{Server, get_or_create, find_room, on_room, put_room}
use gacha_mind.GameSession.Server.Orderly.{IsOrderly}
use gacha_mind.GameSession.Server.Throws.{
  is_thrown, is_null, is_chat_without_text, is_stroke_unreadable, is_drawing, is_player,
  handle_message-is_thrown,
}
use gacha_mind.GameSession.Server.Reach.{
  no_rooms, start, next, joins_known, joins_assigned, speaks, Reach-IsOrderly,
}
use gacha_mind.GameSession.Handlers.{
  not_primitive, nan, draws, handle_draw, draw_points, sanitize, sanitized, color_text, pass_stroke,
}
use gacha_mind.GameSession.Server.Dispatch.{Incoming, draws_stroke, draw_or_throw}
use gacha_mind.GameSession.Tests.Rooms.{
  same_text, some_player, at_time, drawing_room, drawing, drawing-IsSound, pause-IsDiscreet,
  pause_room, pause, pause_room-IsResting,
}

abbrev nobody : Connection
nobody = record { joined_room_id = none; player_id = none; joining = true }

abbrev hello : JoinMessage
hello = record { room_id = some (codes "abc12"); nickname = some (codes "ada") }

abbrev server_of : Outcome → Server
server_of (went_on c s) = s
server_of (awaits_assignment id c s) = s
server_of thrown = no_rooms

abbrev connection_of : Outcome → Connection
connection_of (went_on c s) = c
connection_of (awaits_assignment id c s) = c
connection_of thrown = nobody

-- Two players come in, and the second starts the game.
abbrev first_in : Outcome
first_in = after_assignment (at_time 1000 11) true true none hello (codes "ABC12") nobody no_rooms

abbrev again : JoinMessage
again = record { room_id = some (codes "ABC-12"); nickname = some [] }

abbrev second_in : Outcome
second_in = after_identity same_text (at_time 2000 12) true none again nobody (server_of first_in)

abbrev started : Outcome
started =
    handle_message same_text (at_time 3000 13) starts_game (connection_of second_in)
      (server_of second_in)

Reach-IsOrderly_example : IsOrderly (server_of started).rooms
unfolding after_assignment enter is_full get_or_create find_room new_room after_identity
    enter_or_ask normalize_room_code is_alphanumeric repair on_room put_room report log_all admit
    add_player put_player queue_if_playing handle_message dispatch_message place in_room truthy
    handle_in_room greet greet_session send_snapshot announce_join enter_session emit send broadcast
    notice new_player text_eq elem
Reach-IsOrderly_example = Reach-IsOrderly same_text same_text (
    next
      (next
        (next start (
          joins_assigned (at_time 1000 11) true true none hello (codes "ABC12") nobody
            (connection_of first_in) (server_of first_in) tt refl))
        (joins_known (at_time 2000 12) true none again nobody (connection_of second_in)
          (server_of second_in) (refl, tt) refl))
      (speaks (at_time 3000 13) starts_game (connection_of second_in) (connection_of started)
        (server_of started) refl))

handle_chat-Hides_example :
    Logged
      (Hides same_text (normalize_answer same_text (b'c' ∷ b'a' ∷ b't' ∷ [])))
      (handle_chat same_text 2000 2 (codes "a CAT, a cat") drawing)
handle_chat-Hides_example =
    handle_chat-Hides same_text 2000 2 (codes "a CAT, a cat") b'c' (b'a' ∷ b't' ∷ []) drawing refl
      refl tt

start_game-fire_timer-IsDiscreet_example :
    IsDiscreet (start_game (at_time 1000 5) pause) × IsDiscreet (fire_timer (at_time 1000 5) pause)
start_game-fire_timer-IsDiscreet_example =
    start_game-fire_timer-IsDiscreet (at_time 1000 5) pause pause-IsDiscreet

abbrev six_times : List Env
six_times = at_time 1 5 ∷ at_time 2 5 ∷ at_time 3 5 ∷ at_time 4 5 ∷ at_time 5 5 ∷ at_time 6 5 ∷ []

game_ends_example : is_playing (run_timers six_times drawing).room.phase ≡ false
game_ends_example = game_ends six_times drawing drawing-IsSound (omega arith)

to_result_players_lem_example :
    Perm (sort_by_score drawing_room.players) drawing_room.players
    × IsFalling (sort_by_score drawing_room.players)
    × (to_result_players drawing_room.players
        ≡ map
            (λ p. ranked p (1 + ahead p.score drawing_room.players))
            (sort_by_score drawing_room.players))
to_result_players_lem_example = to_result_players_lem drawing_room.players

handle_guess-scores_example :
    ((handle_guess same_text 31000 (some_player 3 0) (codes "c a t") drawing).1 ≡ true)
    × ((j : ℕ)
        → find_player j
            (handle_guess same_text 31000 (some_player 3 0) (codes "c a t") drawing).0.room.players
          ≡ bump
              ((if 3 == j then answer_score (or_else (remaining_ms 31000 drawing_room) 0) else 0)
                + (if is_drawer (some 1) j then 10 else 0))
              (find_player j drawing_room.players))
unfolding is_guesser elem is_drawer normalize_answer drop_spaces
handle_guess-scores_example =
    handle_guess-scores same_text 31000 (some_player 3 0) (codes "c a t") b'c' (b'a' ∷ b't' ∷ [])
      drawing refl refl refl refl

end_game_once_example :
    (published_count (end_game 5 drawing).log ≡ published_count drawing.log + 1)
    × (end_game 9 (end_game 5 drawing) ≡ end_game 5 drawing)
end_game_once_example = end_game_once 5 9 drawing refl refl

leave-IsSound_example :
    IsSound
      (handle_player_left_during_game 5 1
        (record { room = remove_player 1 drawing_room; log = [] })).room
leave-IsSound_example = leave-IsSound 5 1 drawing_room [] drawing-IsSound

answer_score_bounds_example :
    (10 ≤ answer_score 0) × (answer_score 0 ≤ answer_score 60000) × (answer_score 60000 ≤ 100)
answer_score_bounds_example = answer_score_bounds 0 60000 (omega arith) (omega arith)

abbrev three_ids : List ℕ
three_ids = 1 ∷ 2 ∷ 3 ∷ []

count-shuffle_example :
    (shuffle_array (λ i. i) three_ids ≡ map some (shuffle (λ i. i) three_ids))
    × (count 3 (shuffle (λ i. i) three_ids) ≡ count 3 three_ids)
count-shuffle_example = count-shuffle 3 (λ i. i) three_ids

pick_word_lem_example :
    (text_elem (pick_word 5 (codes "사과" ∷ [])) words ≡ true)
    × (text_elem (pick_word 5 (codes "사과" ∷ [])) (codes "사과" ∷ []) ≡ false)
unfolding text_elem text_eq words
pick_word_lem_example = pick_word_lem 5 (codes "사과" ∷ []) (codes "피자") refl refl

handle_player_left-ends_again_example :
    handle_player_left_during_game 5 1 pause
    ≡ change
        (schedule intermission_over)
        (broadcast (round_ended 1 [] (summaries pause_room)) none (change close_round pause))
unfolding unsolved_guesser_count count_unsolved is_drawer elem
handle_player_left-ends_again_example =
    handle_player_left-ends_again 5 1 pause pause_room-IsResting refl

-- The drawer sends a stroke with a color that has no text.
abbrev unreadable : Incoming
unreadable = draws_stroke (record {
  points = some (record { x = 0; y = 0 } ∷ []);
  color = not_primitive;
  width = some nan;
})

abbrev drawing_server : Server
drawing_server = record { rooms = drawing_room ∷ []; log = [] }

abbrev drawer_connection : Connection
drawer_connection = record {
  joined_room_id = some drawing_room.id;
  player_id = drawing_room.drawer_id;
  joining = false;
}

handle_message-is_thrown_example :
    is_thrown (handle_message same_text (at_time 5 5) unreadable drawer_connection drawing_server)
    ≡ is_null unreadable
      || ((is_chat_without_text unreadable && is_player (place drawer_connection drawing_server))
          || (is_stroke_unreadable unreadable
              && is_drawing (place drawer_connection drawing_server)))
handle_message-is_thrown_example =
    handle_message-is_thrown same_text (at_time 5 5) unreadable drawer_connection drawing_server

-- It throws.
unreadable_throws :
    is_thrown (handle_message same_text (at_time 5 5) unreadable drawer_connection drawing_server)
    ≡ true
unfolding is_thrown handle_message dispatch_message place in_room truthy find_room text_eq
    handle_in_room draw_or_throw handle_draw draws draw_points sanitize sanitized color_text
    pass_stroke is_drawer new_room
unreadable_throws = refl
