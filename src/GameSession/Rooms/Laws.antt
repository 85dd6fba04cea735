-- ===== src/GameSession/Rooms/Laws.antt =====
-- The map of rooms: look-up, replacement, creation and removal.
use gacha_mind.Base.{
  ◌≡◌, refl, sym, inl, inr, false, ◌||◌, List, [], ◌∷◌, ◌++◌, map, none, some, arith, Text, text_eq,
  text_eq_iff, text_eq_refl, All, Bool-cases, subst,
}
use mathlib.Core.List.{map-append}
use gacha_mind.GameSession.Room.{Room}
use gacha_mind.GameSession.Words.{text_elem}
use gacha_mind.GameSession.Rooms.{find_room, put_room, drop_room}

abbrev pub room_ids : List Room → List Text
room_ids = map λ r. r.id

-- No two rooms have one code.
abbrev pub Unique : List Text → Type 0
Unique [] = Unit
Unique (x ∷ xs) = (text_elem x xs ≡ false) × Unique xs

module _ {ℓ} (P : Room → Type ℓ) where
  pub find_room-All :
      (id : Text) (rs : List Room) (r : Room) → All P rs → find_room id rs ≡ some r → P r
  unfolding find_room
  find_room-All id [] r h e = absurd (none_ne e)
    where
      none_ne : none ≡ some r → ⊥
      none_ne q = cc
  find_room-All id (x ∷ rs) r h e = elim (Bool-cases (text_eq x.id id)) [
    | inl hit ↦ subst P (ground arith) h.0
    | inr miss ↦ find_room-All id rs r h.1 (ground arith)
  ]

  pub put_room-All : (q : Room) (rs : List Room) → All P rs → P q → All P (put_room q rs)
  unfolding put_room
  put_room-All q [] h p = tt
  put_room-All q (x ∷ rs) h p = elim (Bool-cases (text_eq x.id q.id)) [
    | inl hit ↦ rw hit (p, h.1)
    | inr miss ↦ rw miss (h.0, put_room-All q rs h.1 p)
  ]

  pub drop_room-All : (id : Text) (rs : List Room) → All P rs → All P (drop_room id rs)
  unfolding drop_room
  drop_room-All id [] h = tt
  drop_room-All id (x ∷ rs) h = elim (Bool-cases (text_eq x.id id)) [
    | inl hit ↦ rw hit (drop_room-All id rs h.1)
    | inr miss ↦ rw miss (h.0, drop_room-All id rs h.1)
  ]

pub find_room-id : (id : Text) (rs : List Room) (r : Room) → find_room id rs ≡ some r → r.id ≡ id
unfolding find_room
find_room-id id [] r e = cc
find_room-id id (x ∷ rs) r e = ground (arith, text_eq_iff x.id id, find_room-id id rs r)

-- A change of a room leaves the codes as they are.
pub room_ids-put_room : (q : Room) (rs : List Room) → room_ids (put_room q rs) ≡ room_ids rs
unfolding put_room
room_ids-put_room q [] = refl
room_ids-put_room q (x ∷ rs) = ground (arith, text_eq_iff x.id q.id, room_ids-put_room q rs)

pub find_room-none :
    (id : Text) (rs : List Room) → find_room id rs ≡ none → text_elem id (room_ids rs) ≡ false
unfolding find_room text_elem
find_room-none id [] e = refl
find_room-none id (x ∷ rs) e = ground (arith, find_room-none id rs)

-- A room that is put under a new code goes to the end.
pub put_room_last :
    (id : Text) (rs : List Room) (r q : Room)
    → find_room id rs ≡ none
    → r.id ≡ id
    → q.id ≡ id
    → put_room q (rs ++ r ∷ []) ≡ rs ++ q ∷ []
unfolding put_room find_room
put_room_last id [] r q e h k = rw (h, k, text_eq_refl id)
put_room_last id (x ∷ rs) r q e h k = ground (arith, h, k, text_eq_refl id, put_room_last id rs r q)

text_elem-snoc :
    (a b : Text) (xs : List Text) → text_elem a (xs ++ b ∷ []) ≡ (text_elem a xs || text_eq b a)
unfolding text_elem
text_elem-snoc a b [] = ground arith
text_elem-snoc a b (x ∷ xs) = ground (arith, text_elem-snoc a b xs)

text_eq_sym : (a b : Text) → text_eq a b ≡ text_eq b a
text_eq_sym a b = ground (arith, text_eq_iff a b, text_eq_iff b a)

pub Unique-snoc :
    (b : Text) (xs : List Text) → text_elem b xs ≡ false → Unique xs → Unique (xs ++ b ∷ [])
unfolding text_elem
Unique-snoc b [] e h = (refl, tt)
Unique-snoc b (x ∷ xs) e h =
    ground (arith, text_elem-snoc x b xs, text_eq_sym x b, Unique-snoc b xs, h)

text_elem-drop :
    (a id : Text) (rs : List Room)
    → text_elem a (room_ids rs) ≡ false
    → text_elem a (room_ids (drop_room id rs)) ≡ false
unfolding text_elem drop_room
text_elem-drop a id [] e = refl
text_elem-drop a id (x ∷ rs) e = ground (arith, text_elem-drop a id rs)

pub drop_room-Unique :
    (id : Text) (rs : List Room) → Unique (room_ids rs) → Unique (room_ids (drop_room id rs))
unfolding drop_room
drop_room-Unique id [] h = tt
drop_room-Unique id (x ∷ rs) h =
    ground (arith, text_elem-drop x.id id rs, drop_room-Unique id rs h.1)

pub room_ids_snoc-Unique :
    (r : Room) (rs : List Room)
    → find_room r.id rs ≡ none
    → Unique (room_ids rs)
    → Unique (room_ids (rs ++ r ∷ []))
room_ids_snoc-Unique r rs f u =
    subst Unique (sym (map-append (λ x. x.id) rs (r ∷ [])))
      (Unique-snoc r.id (room_ids rs) (find_room-none r.id rs f) u)

-- The room that was put is found again.
pub find_room-put_room :
    (q r : Room) (rs : List Room)
    → find_room q.id rs ≡ some r
    → find_room q.id (put_room q rs) ≡ some q
unfolding find_room put_room
find_room-put_room q r [] e = cc
find_room-put_room q r (x ∷ rs) e = ground (arith, text_eq_refl q.id, find_room-put_room q r rs)

-- Removing a room forgets what was put there.
pub drop_room-put_room :
    (q : Room) (rs : List Room)
    → Unique (room_ids rs)
    → drop_room q.id (put_room q rs) ≡ drop_room q.id rs
unfolding drop_room put_room
drop_room-put_room q [] u = refl
drop_room-put_room q (x ∷ rs) u = ground (arith, text_eq_refl q.id, drop_room-put_room q rs u.1)
