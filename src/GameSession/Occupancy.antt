-- ===== src/GameSession/Occupancy.antt =====
-- apps/game-session/src/occupancy.ts: what a process writes to Redis of its rooms and its load. A
-- pipeline is the list of its commands.
pub mod Laws
mod Tests
use gacha_mind.Base.{
  ℕ, Bool, true, false, List, [], ◌∷◌, ◌++◌, Option, none, some, Text, text_eq, if◌then◌else◌,
}
use gacha_mind.Shared.Account.{RoomProjection, SessionLoad}
use gacha_mind.GameSession.Config.{ShardIdentity}
use gacha_mind.GameSession.Room.{Room, size, is_full}
use gacha_mind.GameSession.Rooms.{Server, room_count, total_connections}

-- The commands on `room:<id>`, on the set of joinable rooms, and on `session:<shard>`.
pub data Command : Type 0 where
  hset_room : (id : Text) → RoomProjection → Command
  expire_room : (id : Text) → Command
  srem_joinable sadd_joinable : (id : Text) → Command
  hset_load : (shard : Text) → SessionLoad → Command
  expire_load del_load : (shard : Text) → Command

unfoldable pub projection : ShardIdentity → Room → RoomProjection
projection self r = record {
  shard = self.shard_id;
  capacity = r.capacity;
  player_count = size r;
  phase = r.phase;
}

unfoldable pub sync_occupancy : ShardIdentity → Room → List Command
sync_occupancy self r =
    hset_room r.id (projection self r)
    ∷ expire_room r.id
    ∷ (if is_full r then srem_joinable r.id else sadd_joinable r.id)
    ∷ []

unfoldable pub publish_session_load : ShardIdentity → Server → List Command
publish_session_load self s =
    hset_load self.shard_id (record {
      shard = self.shard_id;
      host = self.host;
      port = self.port;
      rooms = room_count s.rooms;
      connections = total_connections s.rooms;
    })
    ∷ expire_load self.shard_id
    ∷ []

unfoldable pub clear_session_load : ShardIdentity → List Command
clear_session_load self = del_load self.shard_id ∷ []

-- The field as Redis answers it, or a failure, which lets the player in.
pub data ShardAnswer : Type 0 where
  no_answer : ShardAnswer
  answer : Option Text → ShardAnswer

unfoldable pub is_room_assigned_here : ShardIdentity → ShardAnswer → Bool
is_room_assigned_here self no_answer = true
is_room_assigned_here self (answer none) = false
is_room_assigned_here self (answer (some shard)) = text_eq shard self.shard_id

unfoldable pub sync_rooms : ShardIdentity → List Room → List Command
sync_rooms self [] = []
sync_rooms self (r ∷ rs) = sync_occupancy self r ++ sync_rooms self rs

-- One beat of `startProjectionHeartbeat`; the mark of the task is synced along with it.
unfoldable pub beat : ShardIdentity → Server → List Command
unfolding sync_rooms
beat self s = sync_rooms self s.rooms ++ publish_session_load self s
