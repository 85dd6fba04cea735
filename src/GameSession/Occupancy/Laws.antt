-- ===== src/GameSession/Occupancy/Laws.antt =====
-- What a process writes of a room and what matchmaking reads of it agree.
use gacha_mind.Base.{
  ℕ, ◌≡◌, ◌&&◌, Bool, ◌||◌, not, List, [], ◌∷◌, Option, none, some, Text, text_eq, if◌then◌else◌,
}
use gacha_mind.Shared.Account.{RoomProjection}
use gacha_mind.GameSession.Room.{Room, size, is_full}
use gacha_mind.GameSession.Config.{ShardIdentity}
use gacha_mind.GameSession.Occupancy.{
  Command, hset_room, expire_room, srem_joinable, sadd_joinable, hset_load, expire_load, del_load,
}
use gacha_mind.Matchmaking.{RoomHash, Reading}

-- A field that holds the empty text reads as missing.
unfoldable pub field : Text → Option Text
field [] = none
field (c ∷ s) = some (c ∷ s)

unfoldable pub hash_of : RoomProjection → RoomHash
unfolding field
hash_of p = record {
  shard = field p.shard;
  player_count = some p.player_count;
  capacity = some p.capacity;
  phase = some p.phase;
}

-- The members of the set of joinable rooms after a pipeline, from those before: whether a room is one.
unfoldable pub is_joinable : Text → Bool → List Command → Bool
is_joinable id member [] = member
is_joinable id member (sadd_joinable k ∷ cs) = is_joinable id (text_eq k id || member) cs
is_joinable id member (srem_joinable k ∷ cs) = is_joinable id (not (text_eq k id) && member) cs
is_joinable id member (hset_room k p ∷ cs) = is_joinable id member cs
is_joinable id member (expire_room k ∷ cs) = is_joinable id member cs
is_joinable id member (hset_load k l ∷ cs) = is_joinable id member cs
is_joinable id member (expire_load k ∷ cs) = is_joinable id member cs
is_joinable id member (del_load k ∷ cs) = is_joinable id member cs

abbrev pub named : (c : ℕ) (name host : Text) (port : ℕ) → ShardIdentity
named c name host port = record { shard_id = c ∷ name; host = host; port = port }

-- What matchmaking makes of the hash of one room.
abbrev pub Offered : Text → Room → Reading → Type 0
Offered shard r reading = reading ≡ (
    if is_full r then record { alive = []; stale = r.id ∷ [] } else record {
      alive =
          record {
            room_id = r.id;
            shard = shard;
            player_count = some (size r);
            capacity = some r.capacity;
            phase = r.phase;
          }
          ∷ [];
      stale = [];
    })
