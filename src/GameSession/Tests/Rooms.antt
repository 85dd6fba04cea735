-- ===== src/GameSession/Tests/Rooms.antt =====
-- A room in the middle of a draw, and one in the pause after it.
use gacha_mind.Base.{ℕ, refl, inl, inr, true, [], ◌∷◌, none, some, Text, codes, elem, arith}
use gacha_mind.Shared.Protocol.{playing}
use gacha_mind.GameSession.Room.{Player, Room, round_over, intermission_over, Session, new_room}
use gacha_mind.GameSession.Game.{Env}
use gacha_mind.GameSession.Game.Secrecy.{IsDiscreet}
use gacha_mind.GameSession.Invariant.{IsResting, IsSound}

abbrev pub same_text : Text → Text
same_text s = s

abbrev pub some_player : ℕ → ℕ → Player
some_player id score = record {
  id = id;
  user_id = none;
  nickname = codes "player";
  is_open = true;
  score = score;
}

abbrev pub at_time : ℕ → ℕ → Env
at_time now id = record { now = now; fresh_id = id; rolls = λ i. i; word_roll = 5 }

-- The first of three draws, with half of the time left; the second has answered.
abbrev pub drawing_room : Room
drawing_room = record (new_room (codes "ABC12") 8) {
  players = some_player 1 10 ∷ some_player 2 60 ∷ some_player 3 0 ∷ [];
  phase = playing;
  game_id = some 77;
  round = 1;
  total_rounds = 3;
  drawer_id = some 1;
  word = some (b'c' ∷ b'a' ∷ b't' ∷ []);
  round_ends_at = some 61000;
  solved_player_ids = 2 ∷ [];
  drawer_queue = 3 ∷ 2 ∷ [];
  round_timer = some round_over;
}

abbrev pub drawing : Session
drawing = record { room = drawing_room; log = [] }

pub drawing-IsSound : IsSound drawing_room
unfolding new_room elem
drawing-IsSound = record {
  members = record {
    unique = (refl, (refl, (refl, tt)));
    fits = omega arith;
    queue_unique = (refl, (refl, tt));
    queue_within = (refl, (refl, tt));
    solved_within = (refl, tt);
    strokes_bounded = omega arith;
  };
  stage = inr (
      inl (record {
        phase = refl;
        game = refl;
        drawer = (refl, refl);
        word = refl;
        ends = refl;
        timer = refl;
        enough = omega arith;
      }));
}

-- The pause after a round that everybody solved, when its drawer has gone.
abbrev pub pause_room : Room
pause_room = record drawing_room {
  players = some_player 2 60 ∷ some_player 3 40 ∷ [];
  drawer_id = none;
  word = none;
  round_ends_at = none;
  solved_player_ids = 2 ∷ 3 ∷ [];
  round_timer = some intermission_over;
}

abbrev pub pause : Session
pause = record { room = pause_room; log = [] }

pub pause-IsDiscreet : IsDiscreet pause
pause-IsDiscreet = tt

pub pause_room-IsResting : IsResting pause_room
pause_room-IsResting = record {
  phase = refl;
  game = refl;
  drawer = refl;
  word = refl;
  ends = refl;
  timer = refl;
  enough = omega arith;
}
