-- ===== src/GameSession/Occupancy/Tests.antt =====
-- A room with one place left that is synced.
use gacha_mind.Base.{codes}
use gacha_mind.GameSession.Room.{Room, new_room}

abbrev small_room : Room
small_room = new_room (codes "ABC12") 1
