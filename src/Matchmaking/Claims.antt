-- ===== src/Matchmaking/Claims.antt =====
-- apps/matchmaking/src/index.ts: `claimRoomCode`, `POST /assign`, `GET /rooms/:roomId` and
-- `DELETE /rooms/:roomId`, over a Redis that keeps to its documentation. Expiry times are left out:
-- until it expires a hash is not changed by its time to live.
pub mod Laws
use gacha_mind.Base.{
  ℕ, zero, suc, ◌≡◌, ◌≢◌, Bool, true, false, List, Option, none, some, Text, if◌then◌else◌,
}
use gacha_mind.Shared.Protocol.{default_room_capacity}
use gacha_mind.Shared.Account.{RoomAssignment, AssignMode, create, match}
use gacha_mind.Shared.RoomCode.{generate_room_code, normalize_room_code}
use gacha_mind.Matchmaking.{
  room_code_attempts, LoadHash, RoomHash, list_session_loads, pick_shard_for_new_room,
  pick_joinable_room,
}

-- The hashes `room:*` in Redis. The field `shard` is what the service reads of them; the laws are the
-- documented behaviour of HSETNX, of HSET on other fields, and of DEL.
pub record Redis : Type 1 where
  pub State : Type 0
  pub shard_of : Text → State → Option Text
  pub hsetnx : Text → Text → State → State × Bool
  pub hset_counts : Text → (capacity player_count : ℕ) → State → State
  pub del : Text → State → State
  pub hsetnx_free :
      (id shard : Text) (s : State)
      → shard_of id s ≡ none
      → ((hsetnx id shard s).1 ≡ true) × (shard_of id (hsetnx id shard s).0 ≡ some shard)
  pub hsetnx_taken :
      (id shard old : Text) (s : State) → shard_of id s ≡ some old → hsetnx id shard s ≡ (s, false)
  pub hsetnx_other :
      (id other shard : Text) (s : State)
      → other ≢ id
      → shard_of other (hsetnx id shard s).0 ≡ shard_of other s
  pub hset_counts_keeps :
      (id other : Text) (capacity player_count : ℕ) (s : State)
      → shard_of other (hset_counts id capacity player_count s) ≡ shard_of other s
  pub del_gone : (id : Text) (s : State) → shard_of id (del id s) ≡ none
  pub del_other :
      (id other : Text) (s : State) → other ≢ id → shard_of other (del id s) ≡ shard_of other s

-- The answer to `POST /assign`: an assignment, or one of the two answers with status 503.
pub data AssignReply : Type 0 where
  assigned : RoomAssignment → AssignReply
  no_session no_code : AssignReply

module _ (redis : Redis) where
  -- `draws` gives the random bytes of the attempts, of which `n` are left.
  unfoldable pub claim_room_code :
      (n : ℕ) (draws : ℕ → List ℕ) → Text → redis.State → redis.State × Option Text
  claim_room_code zero draws shard s = (s, none)
  claim_room_code (suc n) draws shard s =
      let code = generate_room_code (draws n) in
      let rest = claim_room_code n draws shard (redis.hsetnx code shard s).0 in
      if (redis.hsetnx code shard s).1 then ((redis.hsetnx code shard s).0, some code) else rest

  unfoldable pub record_counts : Text → redis.State × Option Text → redis.State × AssignReply
  record_counts shard (s, none) = (s, no_code)
  record_counts shard (s, some id) = (
    redis.hset_counts id default_room_capacity 0 s,
    assigned (record { room_id = id; shard = shard }),
  )

  unfoldable pub create_on : (ℕ → List ℕ) → Option Text → redis.State → redis.State × AssignReply
  unfolding claim_room_code record_counts
  create_on draws none s = (s, no_session)
  create_on draws (some shard) s =
      record_counts shard (claim_room_code room_code_attempts draws shard s)

  -- What is left to do after the try to match.
  unfoldable pub assign_or_create :
      Option RoomAssignment → (ℕ → List ℕ) → Option Text → redis.State → redis.State × AssignReply
  assign_or_create none draws shard s = create_on draws shard s
  assign_or_create (some a) draws shard s = (s, assigned a)

  unfoldable pub matched : AssignMode → ℕ → List (Text × RoomHash) → Option RoomAssignment
  matched create roll candidates = none
  matched match roll candidates = pick_joinable_room roll candidates

  -- `POST /assign`, with the hashes that it reads.
  unfoldable pub assign :
      (before : Text → Text → Bool) (limit : ℕ)
      → AssignMode
      → (roll : ℕ) (candidates : List (Text × RoomHash)) (draws : ℕ → List ℕ)
        (loads : List LoadHash)
      → redis.State
      → redis.State × AssignReply
  unfolding matched assign_or_create
  assign before limit mode roll candidates draws loads s =
      assign_or_create (matched mode roll candidates) draws
        (pick_shard_for_new_room before limit (list_session_loads loads)) s

  unfoldable pub located : Text → Option Text → Option RoomAssignment
  located id none = none
  located id (some shard) = some (record { room_id = id; shard = shard })

  -- `GET /rooms/:roomId`
  unfoldable pub locate_room : (upper : Text → Text) → Text → redis.State → Option RoomAssignment
  unfolding located
  locate_room upper typed s =
      let id = normalize_room_code upper typed in located id (redis.shard_of id s)

  -- `DELETE /rooms/:roomId`
  unfoldable pub close_room : (upper : Text → Text) → Text → redis.State → redis.State
  close_room upper typed s = redis.del (normalize_room_code upper typed) s
