-- ===== src/Matchmaking/Joinable.antt =====
-- The rooms that are offered, and those that are dropped from the set.
use gacha_mind.Base.{
  ℕ, zero, suc, or_else, ◌≤◌, ◌≡◌, refl, ap, inl, inr, Bool, false, ◌||◌, not, List, [], ◌∷◌, map,
  Option, none, some, is_some, arith, Text, length, take, All, All-take, if◌then◌else◌, Bool-cases,
  sort_by, sort_by-All,
}
use gacha_mind.Matchmaking.{
  RoomHash, at_least, ListedRoom, Reading, listed, read_hash, read_joinable_rooms, room_list_limit,
  busier, list_rooms,
}

-- A hash whose room has no process or, as far as it says, no place.
unfoldable pub is_closed : RoomHash → Bool
is_closed h = not (is_some h.shard) || at_least h.player_count h.capacity

unfoldable pub closed_ids : List (Text × RoomHash) → List Text
unfolding is_closed
closed_ids [] = []
closed_ids ((id, h) ∷ cs) = if is_closed h then id ∷ closed_ids cs else closed_ids cs

unfoldable pub open_ids : List (Text × RoomHash) → List Text
unfolding is_closed
open_ids [] = []
open_ids ((id, h) ∷ cs) = if is_closed h then open_ids cs else id ∷ open_ids cs

abbrev pub HasPlace : ListedRoom → Type 0
HasPlace r = at_least r.player_count r.capacity ≡ false

read_hash_lem :
    (id : Text) (h : RoomHash) (shard : Option Text) (r : Reading)
    → read_hash id h shard r ≡ (
        if not (is_some shard) || at_least h.player_count h.capacity
        then record { alive = r.alive; stale = id ∷ r.stale }
        else record { alive = listed id (or_else shard []) h ∷ r.alive; stale = r.stale })
unfolding read_hash
read_hash_lem id h none r = refl
read_hash_lem id h (some s) r = refl

-- Of the candidates, in their order, those without a process or without a place are taken out of the
-- set of joinable rooms, and all others are offered and have a place.
pub read_joinable_rooms_lem :
    (candidates : List (Text × RoomHash))
    → ((read_joinable_rooms candidates).stale ≡ closed_ids candidates)
      × (map (λ r. r.room_id) (read_joinable_rooms candidates).alive ≡ open_ids candidates)
      × All HasPlace (read_joinable_rooms candidates).alive
unfolding read_joinable_rooms closed_ids open_ids is_closed
read_joinable_rooms_lem [] = (refl, refl, tt)
read_joinable_rooms_lem ((id, h) ∷ cs) =
    let rest = read_joinable_rooms_lem cs in
    elim (Bool-cases (not (is_some h.shard) || at_least h.player_count h.capacity)) [
      | inl closed ↦
          rw (read_hash_lem id h h.shard (read_joinable_rooms cs), closed)
            (ap (◌∷◌ id) rest.0, rest.1, rest.2)
      | inr place ↦
          rw (read_hash_lem id h h.shard (read_joinable_rooms cs), place)
            (
              rest.0,
              unfold listed in ap (◌∷◌ id) rest.1,
              (unfold listed in ground (arith, place), rest.2),
            )
    ]

length-take-le : {A : Type 0} (n : ℕ) (xs : List A) → length (take n xs) ≤ n
length-take-le zero xs = omega arith
length-take-le (suc n) [] = omega arith
length-take-le (suc n) (x ∷ xs) = omega (arith, length-take-le n xs)

-- The lobby lists at most fifty rooms, and each of them had a place when it was read.
pub list_rooms_lem :
    (before : Text → Text → Bool) (members : List (Text × RoomHash))
    → (length (list_rooms before members) ≤ 50) × All HasPlace (list_rooms before members)
unfolding list_rooms
list_rooms_lem before members = (
  length-take-le room_list_limit (sort_by (busier before) (read_joinable_rooms members).alive),
  All-take HasPlace room_list_limit _
      (sort_by-All (busier before) HasPlace _ (read_joinable_rooms_lem members).2),
)
