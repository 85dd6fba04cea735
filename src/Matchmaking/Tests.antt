-- ===== src/Matchmaking/Tests.antt =====
-- Matchmaking at concrete processes and rooms, over a Redis that is a function.
use gacha_mind.Base.{
  ℕ, ◌≤◌, ◌≡◌, ◌≢◌, refl, inl, inr, Bool, true, false, List, [], ◌∷◌, map, Option, none, some,
  arith, Text, codes, text_eq, text_eq_iff, text_eq_refl, length, All, ltb, if◌then◌else◌,
  Bool-cases, elem, sort_by,
}
use gacha_mind.Shared.Account.{RoomAssignment, create, SessionLoad}
use gacha_mind.Shared.RoomCode.{
  ascii_upper, UpperOnAscii, room_code_alphabet, is_alphanumeric, generate_room_code,
}
use gacha_mind.Shared.RoomCode.Spelling.{Spells, done, exact, lower, apart}
use gacha_mind.Matchmaking.{
  LoadHash, RoomHash, read_joinable_rooms, pick_shard_for_new_room, list_rooms, list_session_loads,
  is_complete, load_of, under_limit, first_shard,
}
use gacha_mind.Matchmaking.Shards.{IsChoice, pick_shard_for_new_room_lem}
use gacha_mind.Matchmaking.Joinable.{
  closed_ids, open_ids, HasPlace, read_joinable_rooms_lem, list_rooms_lem,
}
use gacha_mind.Matchmaking.Claims.{
  Redis, assign, locate_room, claim_room_code, matched, assign_or_create, create_on, record_counts,
}
use gacha_mind.Matchmaking.Claims.Laws.{locate_room-assign}

abbrev by_length : Text → Text → Bool
by_length s t = ltb (length s) (length t)

abbrev load : Text → ℕ → SessionLoad
load shard connections = record {
  shard = shard;
  host = codes "10.0.0.1";
  port = 4001;
  rooms = 1;
  connections = connections;
}

abbrev loads : List SessionLoad
loads = load (codes "a") 10 ∷ load (codes "b") 150 ∷ load (codes "c") 230 ∷ []

pick_shard_for_new_room_lem_example :
    IsChoice 200 loads (pick_shard_for_new_room by_length 200 loads)
pick_shard_for_new_room_lem_example = pick_shard_for_new_room_lem by_length 200 loads

abbrev hash : ℕ → RoomHash
hash players = record {
  shard = some (codes "a");
  player_count = some players;
  capacity = some 100;
  phase = none;
}

abbrev expired : RoomHash
expired = record { shard = none; player_count = none; capacity = none; phase = none }

abbrev three_candidates : List (Text × RoomHash)
three_candidates =
    (codes "AAAAA", hash 3) ∷ (codes "BBBBB", expired) ∷ (codes "CCCCC", hash 100) ∷ []

read_joinable_rooms_lem_example :
    ((read_joinable_rooms three_candidates).stale ≡ closed_ids three_candidates)
    × (map (λ r. r.room_id) (read_joinable_rooms three_candidates).alive
        ≡ open_ids three_candidates)
    × All HasPlace (read_joinable_rooms three_candidates).alive
read_joinable_rooms_lem_example = read_joinable_rooms_lem three_candidates

list_rooms_lem_example :
    (length (list_rooms by_length three_candidates) ≤ 50)
    × All HasPlace (list_rooms by_length three_candidates)
list_rooms_lem_example = list_rooms_lem by_length three_candidates

abbrev Shards : Type 0
Shards = Text → Option Text

abbrev put : Text → Option Text → Shards → Shards
put id shard s other = if text_eq other id then shard else s other

put_here : (id : Text) (shard : Option Text) (s : Shards) → put id shard s id ≡ shard
put_here id shard s = rw (text_eq_refl id) refl

put_other :
    (id other : Text) (shard : Option Text) (s : Shards)
    → other ≢ id
    → put id shard s other ≡ s other
put_other id other shard s ne = elim (Bool-cases (text_eq other id)) [
  | inl e ↦ absurd (ne ((text_eq_iff other id).0 e))
  | inr e ↦ rw e refl
]

abbrev set_first : Text → Text → Shards → Option Text → Shards × Bool
set_first id shard s none = (put id (some shard) s, true)
set_first id shard s (some old) = (s, false)

set_first_other :
    (id other shard : Text) (s : Shards) (found : Option Text)
    → other ≢ id
    → (set_first id shard s found).0 other ≡ s other
set_first_other id other shard s none ne = put_other id other (some shard) s ne
set_first_other id other shard s (some old) ne = refl

abbrev function_redis : Redis
function_redis = record {
  State = Shards;
  shard_of = λ id s. s id;
  hsetnx = λ id shard s. set_first id shard s (s id);
  hset_counts = λ id capacity players s. s;
  del = λ id s. put id none s;
  hsetnx_free = λ id shard s free. rw free (refl, put_here id (some shard) s);
  hsetnx_taken = λ id shard old s taken. rw taken refl;
  hsetnx_other = λ id other shard s ne. set_first_other id other shard s (s id) ne;
  hset_counts_keeps = λ id other capacity players s. refl;
  del_gone = λ id s. put_here id none s;
  del_other = λ id other s ne. put_other id other none s ne;
}

abbrev no_shards : Shards
no_shards id = none

abbrev load_hash : LoadHash
load_hash = record {
  shard = some (codes "a");
  host = some (codes "10.0.0.1");
  port = some 4001;
  rooms = 0;
  connections = 0;
}

abbrev byte_draws : ℕ → List ℕ
byte_draws i = i ∷ 10 ∷ 42 ∷ 64 ∷ 255 ∷ []

abbrev ascii : Text → Text
ascii s = map ascii_upper s

ascii-UpperOnAscii : UpperOnAscii ascii
ascii-UpperOnAscii s h = refl

abbrev got : RoomAssignment
got = record { room_id = codes "4AA0Z"; shard = codes "a" }

abbrev typed : Text
typed = codes "4aA0-Z"

typed-Spells : Spells (codes "4AA0Z") typed
unfolding is_alphanumeric ascii_upper room_code_alphabet elem
typed-Spells = exact b'4' refl (
    lower b'A' refl (omega arith)
      (exact b'A' refl (exact b'0' refl (apart b'-' (omega arith) refl (exact b'Z' refl done)))))

abbrev shards_after : Shards
shards_after =
    (assign function_redis by_length 200 create 0 [] byte_draws (load_hash ∷ []) no_shards).0

locate_room-assign_example : locate_room function_redis ascii typed shards_after ≡ some got
unfolding assign matched assign_or_create create_on claim_room_code record_counts generate_room_code
    room_code_alphabet pick_shard_for_new_room list_session_loads is_complete load_of under_limit
    first_shard sort_by
locate_room-assign_example =
    locate_room-assign function_redis ascii by_length 200 0 [] byte_draws (load_hash ∷ []) no_shards
      shards_after got typed ascii-UpperOnAscii refl typed-Spells
