-- ===== src/Web/Tests.antt =====
-- Tests of the browser's part, on small rooms.
use gacha_mind.Base.{
  take, Memᴰ, arith, ℕ, ◌≡◌, ◌≤◌, refl, true, false, List, [], ◌∷◌, none, some, Text, codes, length,
  elem,
}
use gacha_mind.Shared.Protocol.{Point, ServerToClientMessage, chat, system, room_full}
use gacha_mind.GameSession.Room.{
  Session, find_player, clear_round_timer, new_room, is_full, send, notice, broadcast, emit,
  add_player, put_player,
}
use gacha_mind.GameSession.Game.{Env, start_game, start_round, reset_scores}
use gacha_mind.GameSession.Shuffle.{shuffle}
use gacha_mind.GameSession.Server.{
  JoinMessage, new_player, enter_session, greet_session, send_snapshot, announce_join, admit,
  queue_if_playing,
}
use gacha_mind.GameSession.Handlers.{draws, RawStroke, missing, nan}
use gacha_mind.GameSession.Invariant.{IsSound}
use gacha_mind.GameSession.Server.Events.{new_room-IsSound}
use gacha_mind.Web.RoomSocket.Requests.{on_close}
use gacha_mind.Web.RoomSocket.{initial_client, receive, disconnected, last_of}
use gacha_mind.Web.Drawing.{IsDrawn, Sketch, on_sketches, on_sketches-copies}
use gacha_mind.Shared.Protocol.{StrokeSegment}
use gacha_mind.Web.Feed.{all_entries, feed_lem}
use gacha_mind.Web.DrawCanvas.{Canvas, emit_segment, handle_pointer_down, handle_pointer_up}
use gacha_mind.Web.DrawCanvas.Laws.{Motion, moves, frame, on_motions, trail}
use gacha_mind.Web.DrawCanvas.Stroke.{HasSent, stroke_lem}
use gacha_mind.Web.Mirror.{Mirrors, receive_from}
use gacha_mind.Web.Mirror.Run.{joins, starts, happen, MayCome, Attends, arrives, stays}
use gacha_mind.Web.Mirror.Join.{log_more}
use gacha_mind.Web.Mirror.Live.{happen-IsSound, Attends-Mirrors}
use gacha_mind.Web.Mirror.Strokes.{Pencil, strokes, wipes, on_pencils, Copies, joins-watches}

abbrev same_text : Text → Text
same_text t = t

abbrev at_once : ℕ → ℕ
at_once k = k

abbrev env_of : ℕ → Env
env_of id = record { now = 5; fresh_id = id; rolls = λ n. 0; word_roll = 0 }

abbrev invitation : JoinMessage
invitation = record { room_id = some (codes "AB12CD"); nickname = some (codes "kim") }

abbrev opened : Session
opened = record { room = new_room (codes "AB12CD") 100; log = [] }

abbrev alone : Session
alone = happen same_text (joins (env_of 7) none invitation []) opened

abbrev joined : Session
joined = happen same_text (joins (env_of 9) none invitation []) alone

abbrev started : Session
started = happen same_text (starts (env_of 8)) joined

alone-Attends : Attends same_text 7 alone
unfolding MayCome new_room is_full elem
alone-Attends =
    arrives (env_of 7) none invitation [] opened refl (new_room-IsSound (codes "AB12CD") 100)
      (refl, refl, tt)

started-Attends : Attends same_text 7 started
unfolding MayCome new_room is_full elem happen enter_session greet_session send_snapshot send
    announce_join notice broadcast log_more emit admit add_player put_player queue_if_playing
    new_player
started-Attends =
    stays (starts (env_of 8))
      (stays (joins (env_of 9) none invitation []) alone-Attends (refl, refl, tt)) tt

Attends-Mirrors_example : Mirrors at_once 7 initial_client started
Attends-Mirrors_example = Attends-Mirrors same_text at_once 7 initial_client started-Attends

-- The answer to a join of a full room is followed by the end of the connection.
full_then_closed :
    (on_close (receive 0 (room_full (codes "AB12CD")) initial_client)).status ≡ disconnected
unfolding on_close
full_then_closed = refl

abbrev two_messages : List ServerToClientMessage
two_messages = chat 7 (codes "kim") (codes "hello") 3 ∷ system (codes "welcome") 4 ∷ []

feed_lem_example :
    ((receive_from at_once 0 two_messages initial_client).feed
      ≡ last_of 200 (all_entries at_once 0 two_messages))
    × (length (receive_from at_once 0 two_messages initial_client).feed ≤ 200)
feed_lem_example = feed_lem at_once two_messages

abbrev point : ℕ → Point
point n = record { x = n; y = n }

abbrev blank_canvas : Canvas
blank_canvas = record {
  buffer = [];
  drawing = false;
  flushed = false;
  color = codes "#171717";
  width = 8000;
  sent = [];
}

abbrev wiggle : List Motion
wiggle = moves (point 2) ∷ frame ∷ moves (point 3) ∷ moves (point 4) ∷ frame ∷ frame ∷ []

stroke_lem_example :
    HasSent []
      (point 1 ∷ trail wiggle)
      (handle_pointer_up (on_motions wiggle (handle_pointer_down true (point 1) blank_canvas)))
stroke_lem_example = stroke_lem (point 1) wiggle blank_canvas

-- A click is one segment of one point.
click :
    (handle_pointer_up (handle_pointer_down true (point 1) blank_canvas)).sent
    ≡ record { points = point 1 ∷ []; color = codes "#171717"; width = 8000 } ∷ []
unfolding handle_pointer_up handle_pointer_down emit_segment
click = refl

abbrev dash : RawStroke
dash = record { points = some (point 1 ∷ point 2 ∷ []); color = missing; width = some nan }

abbrev lines : List Pencil
lines = strokes dash ∷ wipes ∷ strokes dash ∷ strokes dash ∷ []

started-IsSound : IsSound started.room
unfolding MayCome new_room is_full elem happen enter_session greet_session send_snapshot send
    announce_join notice broadcast log_more emit admit add_player put_player queue_if_playing
    new_player
started-IsSound = happen-IsSound same_text at_once 9 initial_client (starts (env_of 8)) joined tt (
    happen-IsSound same_text at_once 9 initial_client (joins (env_of 9) none invitation []) alone
      (refl, refl, tt)
      (happen-IsSound same_text at_once 9 initial_client (joins (env_of 7) none invitation [])
        opened (refl, refl, tt) (new_room-IsSound (codes "AB12CD") 100)))

-- The room has a place left, and the identifier is new.
room_for_newcomer : MayCome 20 (joins (env_of 20) none invitation []) started
unfolding MayCome is_full elem happen enter_session greet_session send_snapshot send announce_join
    notice broadcast log_more emit admit add_player put_player queue_if_playing new_player
    start_game start_round new_room find_player clear_round_timer reset_scores shuffle
room_for_newcomer = (refl, refl, tt)

abbrev watched : Session
watched = on_pencils 9 lines (
    greet_session 5 (new_player 20 none invitation)
      (log_more [] (enter_session (new_player 20 none invitation) started)))

joins-watches_example : Copies at_once 20 initial_client watched
joins-watches_example =
    joins-watches at_once 20 initial_client (env_of 20) none invitation [] started 9 lines refl
      started-IsSound room_for_newcomer refl

abbrev dash_drawn : StrokeSegment
dash_drawn = record { points = point 1 ∷ point 2 ∷ []; color = codes "#ef4444"; width = 8000 }

dash-IsDrawn : IsDrawn dash_drawn
dash-IsDrawn = record {
  color = Memᴰ.tail (Memᴰ.head refl);
  width = Memᴰ.tail (Memᴰ.head refl);
  some_points = omega arith;
  few_points = omega arith;
}

abbrev sketches : List Sketch
sketches = Sketch.lines dash_drawn ∷ Sketch.wipes ∷ Sketch.lines dash_drawn ∷ []

started_empty :
    (draws 9 started.room ≡ true) × (take 3000 initial_client.strokes ≡ started.room.strokes)
unfolding happen enter_session greet_session send_snapshot send announce_join notice broadcast
    log_more emit admit add_player put_player queue_if_playing new_player start_game start_round
    new_room find_player clear_round_timer reset_scores shuffle draws initial_client
started_empty = (refl, refl)

on_sketches-copies_example :
    take 3000 (on_sketches same_text (env_of 5) 9 sketches initial_client started).0.strokes
    ≡ (on_sketches same_text (env_of 5) 9 sketches initial_client started).1.room.strokes
on_sketches-copies_example =
    on_sketches-copies same_text (env_of 5) 9 sketches initial_client started
      (dash-IsDrawn, (tt, (dash-IsDrawn, tt))) started_empty.0 started_empty.1
