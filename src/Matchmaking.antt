-- ===== src/Matchmaking.antt =====
-- apps/matchmaking/src/index.ts: the choice of a room or of a process for one who wants to play. What
-- Redis answers to a command is an argument: the hashes that were read, the members of a set, and
-- whether a field was set first. `localeCompare` is the parameter `before`.
pub mod Shards
pub mod Joinable
pub mod Claims
mod Tests
use gacha_mind.Base.{
  ℕ, ◌%◌, Bool, true, false, ◌&&◌, ◌||◌, not, List, [], ◌∷◌, ◌++◌, Option, none, some, is_some,
  Text, keep, length, take, get_elem?, or_else, ltb, leb, ◌==◌, if◌then◌else◌, sort_by,
}
use gacha_mind.Shared.Protocol.{GamePhase, waiting}
use gacha_mind.Shared.Account.{RoomAssignment, AssignMode, create, match, RoomSummary, SessionLoad}

abbrev pub joinable_sample_size : ℕ
joinable_sample_size = 10

abbrev pub room_list_limit : ℕ
room_list_limit = 50

abbrev pub room_code_attempts : ℕ
room_code_attempts = 5

-- A hash `session:*`; a field is `none` where it is missing or empty.
pub record LoadHash : Type 0 where
  pub shard : Option Text
  pub host : Option Text
  pub port : Option ℕ
  pub rooms : ℕ
  pub connections : ℕ

unfoldable pub is_complete : LoadHash → Bool
is_complete h = is_some h.shard && is_some h.host && is_some h.port

unfoldable pub load_of : LoadHash → SessionLoad
load_of h = record {
  shard = or_else h.shard [];
  host = or_else h.host [];
  port = or_else h.port 0;
  rooms = h.rooms;
  connections = h.connections;
}

unfoldable pub list_session_loads : List LoadHash → List SessionLoad
unfolding is_complete load_of
list_session_loads [] = []
list_session_loads (h ∷ hs) =
    if is_complete h then load_of h ∷ list_session_loads hs else list_session_loads hs

-- The comparison of the first sort: more connections first, then by name.
unfoldable pub fuller : (Text → Text → Bool) → SessionLoad → SessionLoad → Bool
fuller before a b =
    ltb b.connections a.connections || (a.connections == b.connections && before a.shard b.shard)

-- The comparison of the second: fewer connections first, then by name.
unfoldable pub emptier : (Text → Text → Bool) → SessionLoad → SessionLoad → Bool
emptier before a b =
    ltb a.connections b.connections || (a.connections == b.connections && before a.shard b.shard)

unfoldable pub first_shard : List SessionLoad → Option Text
first_shard [] = none
first_shard (l ∷ ls) = some l.shard

unfoldable pub under_limit : ℕ → List SessionLoad → List SessionLoad
under_limit limit loads = keep (λ l. ltb l.connections limit) loads

unfoldable pub pick_shard_for_new_room : (Text → Text → Bool) → ℕ → List SessionLoad → Option Text
unfolding first_shard fuller emptier
pick_shard_for_new_room before limit loads =
    if length loads == 0
    then none
    else if ltb 0 (length (under_limit limit loads))
    then first_shard (sort_by (fuller before) (under_limit limit loads))
    else first_shard (sort_by (emptier before) loads)

-- A hash of a room: `shard` is `none` where the field is missing or empty. `Number` of a missing field
-- is not a number, and no number is at least that.
pub record RoomHash : Type 0 where
  pub shard : Option Text
  pub player_count : Option ℕ
  pub capacity : Option ℕ
  pub phase : Option GamePhase

unfoldable pub at_least : Option ℕ → Option ℕ → Bool
at_least none n = false
at_least (some m) none = false
at_least (some m) (some n) = leb n m

-- A room in the answer: `RoomSummary`, with counts that may be no numbers.
pub record ListedRoom : Type 0 where
  pub room_id : Text
  pub shard : Text
  pub player_count : Option ℕ
  pub capacity : Option ℕ
  pub phase : GamePhase

-- The two lists that the loop of `readJoinableRooms` fills.
pub record Reading : Type 0 where
  pub alive : List ListedRoom
  pub stale : List Text

unfoldable pub listed : Text → Text → RoomHash → ListedRoom
listed id shard h = record {
  room_id = id;
  shard = shard;
  player_count = h.player_count;
  capacity = h.capacity;
  phase = or_else h.phase waiting;
}

unfoldable pub read_hash : Text → RoomHash → Option Text → Reading → Reading
unfolding listed at_least
read_hash id h none r = record r { stale = id ∷ r.stale }
read_hash id h (some shard) r =
    if at_least h.player_count h.capacity
    then record r { stale = id ∷ r.stale }
    else record r { alive = listed id shard h ∷ r.alive }

-- The candidates come with the hashes that were read for them. The loop keeps their order; the stale
-- ones go to `srem`.
unfoldable pub read_joinable_rooms : List (Text × RoomHash) → Reading
unfolding read_hash
read_joinable_rooms [] = record { alive = []; stale = [] }
read_joinable_rooms ((id, h) ∷ cs) = read_hash id h h.shard (read_joinable_rooms cs)

unfoldable pub assignment_of : Option ListedRoom → Option RoomAssignment
assignment_of none = none
assignment_of (some r) = some (record { room_id = r.room_id; shard = r.shard })

-- `alive[Math.floor(Math.random() * alive.length)]`
unfoldable pub pick_joinable_room : ℕ → List (Text × RoomHash) → Option RoomAssignment
unfolding assignment_of
pick_joinable_room roll candidates =
    let alive = (read_joinable_rooms candidates).alive in
    assignment_of (get_elem? alive (roll % length alive))

-- `b.playerCount - a.playerCount || a.roomId.localeCompare(b.roomId)` below zero; a difference that is
-- no number counts as zero.
unfoldable pub by_players : Option ℕ → Option ℕ → Bool → Bool
by_players none n before = before
by_players (some m) none before = before
by_players (some m) (some n) before = ltb n m || (m == n && before)

unfoldable pub busier : (Text → Text → Bool) → ListedRoom → ListedRoom → Bool
unfolding by_players
busier before a b = by_players a.player_count b.player_count (before a.room_id b.room_id)

-- `GET /rooms`
unfoldable pub list_rooms : (Text → Text → Bool) → List (Text × RoomHash) → List ListedRoom
unfolding busier
list_rooms before members =
    take room_list_limit (sort_by (busier before) (read_joinable_rooms members).alive)
