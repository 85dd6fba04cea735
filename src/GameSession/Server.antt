-- ===== src/GameSession/Server.antt =====
-- apps/game-session/src/index.ts: the connections and their joins. Each function of it and of Dispatch
-- is one uninterrupted run of the event loop; `handleJoin` is three, cut where it awaits. A call that
-- throws gives `thrown`.
pub mod Join
pub mod Orderly
pub mod Events
pub mod Close
pub mod Reach
pub mod Throws
pub mod Dispatch
use gacha_mind.Base.{
  is_some, ℕ, Bool, true, false, ◌&&◌, ◌||◌, not, List, [], ◌∷◌, ◌++◌, Option, none, some, Text,
  codes, trim, length, take, is_some, or_else, if◌then◌else◌,
}
use gacha_mind.Shared.Account.{max_nickname_length}
use gacha_mind.Shared.Protocol.{
  room_full, room_not_found, RoomStateMessage, room_state, player_joined, player_left,
}
use gacha_mind.Shared.RoomCode.{normalize_room_code}
use gacha_mind.GameSession.Room.{
  Player, Room, Effect, replied, closed, synced_occupancy, published_load, synced_protection,
  notified_room_closed, Session, find_player, add_player, remove_player, size, is_full, summaries,
  remaining_ms, change, emit, send, broadcast, notice,
}
use gacha_mind.GameSession.Rooms.{
  Server, find_room, get_or_create, remove_if_empty, room_count, total_connections, on_room,
}
use gacha_mind.GameSession.Game.{Env, is_playing, start_game, fire_timer}
use gacha_mind.GameSession.Guess.{handle_player_left_during_game}
use gacha_mind.GameSession.Handlers.{RawStroke, handle_chat, handle_draw, handle_draw_clear}

-- What a verified cookie says (`auth.ts`); a guest has none.
pub record Identity : Type 0 where
  pub user_id : ℕ
  pub username : Text
  pub nickname : Text

pub record Connection : Type 0 where
  pub joined_room_id : Option Text
  pub player_id : Option ℕ
  pub joining : Bool

-- A field is `none` where it is no string.
pub record JoinMessage : Type 0 where
  pub room_id : Option Text
  pub nickname : Option Text

-- The empty text counts as false.
unfoldable pub truthy : Option Text → Bool
truthy none = false
truthy (some []) = false
truthy (some (c ∷ s)) = true

-- How a run ends: for good, before the question whether the room is assigned here, or in a throw.
pub data Outcome : Type 0 where
  went_on : Connection → Server → Outcome
  awaits_assignment : (room_id : Text) → Connection → Server → Outcome
  thrown : Outcome

abbrev stop_joining : Connection → Connection
stop_joining c = record c { joining = false }

-- Whether `handleJoin` goes past its first line.
unfoldable pub may_join : Connection → Bool
unfolding truthy
may_join c = not (truthy c.joined_room_id || c.joining)

unfoldable pub log_all : List Effect → Server → Server
log_all es s = record s { log = s.log ++ es }

unfoldable pub anonymous : Text
anonymous = codes "익명"

or_anonymous : Text → Text
or_anonymous [] = anonymous
or_anonymous (c ∷ s) = c ∷ s

-- `identity?.nickname ?? message.nickname`; at `none` the call of `trim` on it throws.
abbrev pub given_nickname : Option Identity → JoinMessage → Option Text
given_nickname none m = m.nickname
given_nickname (some i) m = some i.nickname

unfoldable pub join_nickname : Option Identity → JoinMessage → Text
unfolding or_anonymous
join_nickname i m = or_anonymous (take max_nickname_length (trim (or_else (given_nickname i m) [])))

user_id_of : Option Identity → Option ℕ
user_id_of none = none
user_id_of (some i) = some i.user_id

unfoldable pub new_player : ℕ → Option Identity → JoinMessage → Player
unfolding user_id_of
new_player id i m = record {
  id = id;
  user_id = user_id_of i;
  nickname = join_nickname i m;
  is_open = true;
  score = 0;
}

-- Someone who comes in during a game may draw in a later round.
unfoldable pub queue_if_playing : ℕ → Room → Room
queue_if_playing id r =
    if is_playing r.phase then record r { drawer_queue = r.drawer_queue ++ id ∷ [] } else r

unfoldable pub admit : Player → Room → Room
admit p r = queue_if_playing p.id (add_player p r)

pub word_length : Option Text → Option ℕ
word_length none = none
word_length (some w) = some (length w)

abbrev pub snapshot_of : ℕ → Player → Room → RoomStateMessage
snapshot_of now p r = record {
  room_id = r.id;
  you = record { id = p.id; nickname = p.nickname; score = 0 };
  players = summaries r;
  capacity = r.capacity;
  phase = r.phase;
  round = r.round;
  total_rounds = r.total_rounds;
  drawer_id = r.drawer_id;
  remaining_ms = remaining_ms now r;
  word_length = word_length r.word;
  strokes = r.strokes;
}

unfoldable pub send_snapshot : ℕ → Player → Session → Session
unfolding word_length
send_snapshot now p s = send p.id (room_state (snapshot_of now p s.room)) s

unfoldable pub joined_notice : Text → Text
joined_notice nickname = nickname ++ codes "님이 입장했습니다."

unfoldable pub announce_join : ℕ → Player → Session → Session
announce_join now p s = notice now (joined_notice p.nickname) (
    broadcast
      (player_joined s.room.id (record { id = p.id; nickname = p.nickname; score = 0 })
        (size s.room))
      (some p.id) s)

-- What the process reports of all its rooms.
unfoldable pub report : Server → Server
unfolding log_all
report s =
    log_all
      (published_load (room_count s.rooms) (total_connections s.rooms)
        ∷ synced_protection (room_count s.rooms)
        ∷ [])
      s

unfoldable pub enter_session : Player → Session → Session
enter_session p s = let s' = change (admit p) s in emit (synced_occupancy s'.room) s'

unfoldable pub greet_session : ℕ → Player → Session → Session
greet_session now p s = announce_join now p (send_snapshot now p s)

unfoldable pub greet : ℕ → Player → Text → Option Room → Server → Server
greet now p id none s = s
greet now p id (some r) s = on_room (greet_session now p) r s

-- From the test whether the room is full to the end. A join whose nickname is needed and is no
-- string throws; the process ends then, and with it the room that was made for the join.
unfoldable pub enter : Env → Option Identity → JoinMessage → Connection → Room → Server → Outcome
unfolding new_player admit enter_session greet greet_session
enter e i m c r s =
    if is_full r
    then went_on (stop_joining c) (log_all (replied (room_full r.id) ∷ closed ∷ []) s)
    else if is_some (given_nickname i m)
    then (let entered = report (on_room (enter_session (new_player e.fresh_id i m)) r s) in
        went_on
          (record { joined_room_id = some r.id; player_id = some e.fresh_id; joining = false })
          (greet e.now (new_player e.fresh_id i m) r.id (find_room r.id entered.rooms) entered))
    else thrown

unfoldable pub enter_or_ask :
    Env → Option Identity → JoinMessage → Connection → Text → Option Room → Server → Outcome
enter_or_ask e i m c id none s = awaits_assignment id c s
enter_or_ask e i m c id (some r) s = enter e i m c r s

-- `normalizeRoomCode` throws at a code that is no string.
unfoldable pub enter_by_code :
    (Text → Text)
    → Env
    → Option Identity
    → JoinMessage
    → Connection
    → Option Text
    → Server
    → Outcome
unfolding enter_or_ask
enter_by_code upper e i m c none s = thrown
enter_by_code upper e i m c (some code) s =
    enter_or_ask e i m c (normalize_room_code upper code)
      (find_room (normalize_room_code upper code) s.rooms) s

-- After the identity has come. `is_open` is the state of the socket at that moment.
unfoldable pub after_identity :
    (Text → Text) → Env → Bool → Option Identity → JoinMessage → Connection → Server → Outcome
unfolding enter_by_code
after_identity upper e is_open i m c s =
    if is_open then enter_by_code upper e i m c m.room_id s else went_on (stop_joining c) s

-- After `isRoomAssignedHere` has answered.
unfoldable pub after_assignment :
    Env
    → (assigned is_open : Bool) → Option Identity
    → JoinMessage
    → Text
    → Connection
    → Server
    → Outcome
after_assignment e assigned is_open i m id c s =
    if assigned
    then if is_open
      then enter e i m c (get_or_create id s.rooms).1
          (record s { rooms = (get_or_create id s.rooms).0 })
      else went_on (stop_joining c) s
    else went_on (stop_joining c) (log_all (replied (room_not_found id) ∷ closed ∷ []) s)
