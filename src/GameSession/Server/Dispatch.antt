-- ===== src/GameSession/Server/Dispatch.antt =====
-- apps/game-session/src/index.ts: the messages, the end of a connection, and the timers of rooms.
use gacha_mind.Base.{
  ℕ, Bool, true, false, List, [], ◌∷◌, ◌++◌, Option, none, some, Text, codes, or_else,
  if◌then◌else◌,
}
use gacha_mind.Shared.Protocol.{player_left}
use gacha_mind.GameSession.Room.{
  Player, Room, synced_occupancy, notified_room_closed, Session, find_player, remove_player, size,
  change, broadcast, notice,
}
use gacha_mind.GameSession.Rooms.{Server, find_room, remove_if_empty, on_room}
use gacha_mind.GameSession.Game.{Env, start_game, fire_timer}
use gacha_mind.GameSession.Guess.{handle_player_left_during_game}
use gacha_mind.GameSession.Handlers.{RawStroke, handle_chat, handle_draw, handle_draw_clear}
use gacha_mind.GameSession.Server.{
  Connection, truthy, Outcome, log_all, anonymous, report, went_on, thrown,
}

-- A message after `JSON.parse`, by what the handler reads of it: `null_value` is JSON's null, and
-- `other` any value with another type. A chat's text is `none` where it is no string.
pub data Incoming : Type 0 where
  unparsable null_value other : Incoming
  chats : Option Text → Incoming
  draws_stroke : RawStroke → Incoming
  draws_clear starts_game : Incoming

unfoldable pub chat_or_throw :
    (Text → Text) → Env → ℕ → Option Text → Option Player → Connection → Room → Server → Outcome
chat_or_throw lower e id text none c r s = went_on c s
chat_or_throw lower e id none (some p) c r s = thrown
chat_or_throw lower e id (some text) (some p) c r s =
    went_on c (on_room (handle_chat lower e.now id text) r s)

unfoldable pub draw_or_throw : Connection → Option Session → Room → Server → Outcome
draw_or_throw c none r s = thrown
draw_or_throw c (some t) r s = went_on c (on_room (λ before. t) r s)

unfoldable pub handle_in_room :
    (Text → Text) → Env → Incoming → ℕ → Connection → Room → Server → Outcome
unfolding chat_or_throw draw_or_throw
handle_in_room lower e (chats text) id c r s =
    chat_or_throw lower e id text (find_player id r.players) c r s
handle_in_room lower e (draws_stroke raw) id c r s =
    draw_or_throw c (handle_draw id raw (record { room = r; log = s.log })) r s
handle_in_room lower e draws_clear id c r s = went_on c (on_room (handle_draw_clear id) r s)
handle_in_room lower e starts_game id c r s = went_on c (on_room (start_game e) r s)
handle_in_room lower e null_value id c r s = thrown
handle_in_room lower e unparsable id c r s = went_on c s
handle_in_room lower e other id c r s = went_on c s

-- The player and the room of a connection that has joined.
unfoldable pub in_room : Option ℕ → Option Room → Option (ℕ × Room)
in_room none room = none
in_room (some id) none = none
in_room (some id) (some r) = some (id, r)

unfoldable pub place : Connection → Server → Option (ℕ × Room)
unfolding in_room truthy
place c s =
    if truthy c.joined_room_id
    then in_room c.player_id (find_room (or_else c.joined_room_id []) s.rooms)
    else none

unfoldable pub dispatch_message :
    (Text → Text) → Env → Incoming → Option (ℕ × Room) → Connection → Server → Outcome
dispatch_message lower e null_value at c s = thrown
dispatch_message lower e m none c s = went_on c s
dispatch_message lower e m (some (id, r)) c s = handle_in_room lower e m id c r s

-- `handleMessage` for every message but a join, which begins `handleJoin`.
unfoldable pub handle_message : (Text → Text) → Env → Incoming → Connection → Server → Outcome
unfolding dispatch_message place
handle_message lower e m c s = dispatch_message lower e m (place c s) c s

unfoldable pub nickname_of : Option Player → Text
nickname_of none = anonymous
nickname_of (some p) = p.nickname

unfoldable pub left_notice : Text → Text
left_notice nickname = nickname ++ codes "님이 퇴장했습니다."

unfoldable pub leave_session : ℕ → ℕ → Session → Session
unfolding nickname_of
leave_session now id s =
    let nickname = nickname_of (find_player id s.room.players) in
    let gone = change (remove_player id) s in
    handle_player_left_during_game now id (
      notice now (left_notice nickname)
        (broadcast (player_left s.room.id id nickname (size gone.room)) none gone))

unfoldable pub sync_found : Option Room → Server → Server
sync_found none s = s
sync_found (some r) s = log_all (synced_occupancy r ∷ []) s

-- `removeIfEmpty`, and what is told to matchmaking or to Redis.
unfoldable pub tidy : Text → List Room × Bool → Server → Server
tidy id (rooms, true) s = log_all (notified_room_closed id ∷ []) (record s { rooms = rooms })
tidy id (rooms, false) s = sync_found (find_room id s.rooms) s

unfoldable pub close_in_room : Env → Option (ℕ × Room) → Server → Server
unfolding tidy sync_found
close_in_room e none s = s
close_in_room e (some (id, r)) s =
    let left = on_room (leave_session e.now id) r s in
    report (tidy r.id (remove_if_empty r.id left.rooms) left)

unfoldable pub handle_close : Env → Connection → Server → Server
unfolding close_in_room place leave_session
handle_close e c s = close_in_room e (place c s) s

unfoldable pub fire_found : Env → Option Room → Server → Server
fire_found e none s = s
fire_found e (some r) s = on_room (fire_timer e) r s

-- The event loop runs the pending callback of a room's timer.
unfoldable pub handle_timer : Env → Text → Server → Server
unfolding fire_found
handle_timer e id s = fire_found e (find_room id s.rooms) s
