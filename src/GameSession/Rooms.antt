-- ===== src/GameSession/Rooms.antt =====
-- apps/game-session/src/room.ts: `RoomManager`, the rooms of the process in the order of creation.
pub mod Laws
use gacha_mind.Base.{
  ℕ, ◌+◌, Bool, true, false, List, [], ◌∷◌, ◌++◌, Option, none, some, Text, text_eq, length, ◌==◌,
  if◌then◌else◌, map,
}
use gacha_mind.Shared.Protocol.{default_room_capacity}
use gacha_mind.GameSession.Room.{Room, Effect, Session, new_room, size, clear_round_timer}

pub record Server : Type 0 where
  pub rooms : List Room
  pub log : List Effect

-- `this.rooms.get(roomId)`
unfoldable pub find_room : Text → List Room → Option Room
find_room id [] = none
find_room id (r ∷ rs) = if text_eq r.id id then some r else find_room id rs

-- The map holds the room itself, so a change of the room shows in it.
unfoldable pub put_room : Room → List Room → List Room
put_room q [] = []
put_room q (r ∷ rs) = if text_eq r.id q.id then q ∷ rs else r ∷ put_room q rs

-- `this.rooms.delete(roomId)`
unfoldable pub drop_room : Text → List Room → List Room
drop_room id [] = []
drop_room id (r ∷ rs) = if text_eq r.id id then drop_room id rs else r ∷ drop_room id rs

unfoldable pub create_if_missing : Text → List Room → Option Room → List Room × Room
create_if_missing id rooms none =
    (rooms ++ new_room id default_room_capacity ∷ [], new_room id default_room_capacity)
create_if_missing id rooms (some r) = (rooms, r)

-- The rooms after `getOrCreate`, and the room that it gives.
unfoldable pub get_or_create : Text → List Room → List Room × Room
unfolding create_if_missing
get_or_create id rooms = create_if_missing id rooms (find_room id rooms)

unfoldable pub remove_found : Text → List Room → Option Room → List Room × Bool
remove_found id rooms none = (rooms, false)
remove_found id rooms (some r) = if size r == 0 then (drop_room id rooms, true) else (rooms, false)

unfoldable pub remove_if_empty : Text → List Room → List Room × Bool
unfolding remove_found
remove_if_empty id rooms = remove_found id rooms (find_room id rooms)

abbrev pub room_count : List Room → ℕ
room_count rooms = length rooms

unfoldable pub total_connections : List Room → ℕ
total_connections [] = 0
total_connections (r ∷ rs) = size r + total_connections rs

-- Runs a handler on a room of the server.
unfoldable pub on_room : (Session → Session) → Room → Server → Server
on_room f r s =
    let after = f (record { room = r; log = s.log }) in
    record { rooms = put_room after.room s.rooms; log = after.log }
