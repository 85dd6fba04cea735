-- ===== src/GameSession/Server/Orderly.antt =====
-- What an orderly process is, and that letting players in keeps it so.
use gacha_mind.Base.{
  is_some, ℕ, ◌≤◌, ◌≡◌, refl, sym, subst, inl, inr, Bool, true, false, List, Option, none, some,
  Text, elem, All, Bool-cases,
}
use gacha_mind.GameSession.Room.{
  Player, Room, Session, ids, size, is_full, emit, send, broadcast, notice,
}
use gacha_mind.GameSession.Rooms.{Server, find_room, put_room, on_room}
use gacha_mind.GameSession.Rooms.Laws.{
  room_ids, Unique, find_room-All, put_room-All, room_ids-put_room,
}
use gacha_mind.GameSession.Game.{Env}
use gacha_mind.GameSession.Invariant.{IsSound}
use gacha_mind.GameSession.Invariant.Members.{size_of_ids}
use gacha_mind.GameSession.Invariant.Keeps.{Keeps}
use gacha_mind.GameSession.Invariant.Chat.{IsKept}
use gacha_mind.GameSession.Server.Join.{admit-IsSound, admit-inhabited}
use gacha_mind.GameSession.Server.{
  Identity, Connection, JoinMessage, Outcome, went_on, awaits_assignment, thrown, admit,
  enter_session, greet_session, greet, send_snapshot, announce_join, report, log_all, enter,
  enter_or_ask, enter_by_code, given_nickname, after_identity, new_player,
}

-- A room that the process holds: sound, and with someone in it.
pub record IsHealthy (r : Room) : Type 0 where
  pub sound : IsSound r
  pub inhabited : 1 ≤ size r

pub record IsOrderly (rooms : List Room) : Type 0 where
  pub healthy : All IsHealthy rooms
  pub unique : Unique (room_ids rooms)

Keeps-size : (r r' : Room) → Keeps r r' → size r' ≡ size r
Keeps-size r r' k = size_of_ids r'.players r.players k.players

IsKept-IsHealthy : (r r' : Room) → IsKept r r' → IsHealthy r → IsHealthy r'
IsKept-IsHealthy r r' k h = record {
  sound = k.sound;
  inhabited = rw (Keeps-size r r' k.keeps) h.inhabited;
}

pub put_room-IsOrderly :
    (q : Room) (rs : List Room) → IsHealthy q → IsOrderly rs → IsOrderly (put_room q rs)
put_room-IsOrderly q rs h o = record {
  healthy = put_room-All IsHealthy q rs o.healthy h;
  unique = subst Unique (sym (room_ids-put_room q rs)) o.unique;
}

-- A handler that keeps rooms sound and keeps their players keeps the process orderly.
pub on_room-IsOrderly :
    (f : Session → Session) (r : Room) (s : Server)
    → IsHealthy r
    → (IsSound r → IsKept r (f (record { room = r; log = s.log })).room)
    → IsOrderly s.rooms
    → IsOrderly (on_room f r s).rooms
unfolding on_room
on_room-IsOrderly f r s h k o = put_room-IsOrderly _ s.rooms (IsKept-IsHealthy r _ (k h.sound) h) o

-- What holds of the rooms after a run, unless it throws.
abbrev pub Leaves : (List Room → Type 0) → Outcome → Type 0
Leaves P (went_on c s) = P s.rooms
Leaves P (awaits_assignment id c s) = P s.rooms
Leaves P thrown = Unit

greet-rooms :
    (now : ℕ) (p : Player) (r : Room) (s : Server)
    → (on_room (greet_session now p) r s).rooms ≡ put_room r s.rooms
unfolding on_room greet_session send_snapshot announce_join broadcast notice send
greet-rooms now p r s = refl

greet-IsOrderly :
    (now : ℕ) (p : Player) (id : Text) (s : Server) (found : Option Room)
    → find_room id s.rooms ≡ found
    → IsOrderly s.rooms
    → IsOrderly (greet now p id found s).rooms
unfolding greet
greet-IsOrderly now p id s none f o = o
greet-IsOrderly now p id s (some r) f o =
    rw (greet-rooms now p r s)
      (put_room-IsOrderly r s.rooms (find_room-All IsHealthy id s.rooms r o.healthy f) o)

-- A full room turns the newcomer away, and any other takes it in.
pub enter-IsOrderly :
    (e : Env) (i : Option Identity) (m : JoinMessage) (c : Connection) (r : Room) (s : Server)
    → (is_full r ≡ true → IsOrderly s.rooms)
    → (is_full r ≡ false → IsOrderly (put_room (admit (new_player e.fresh_id i m) r) s.rooms))
    → Leaves IsOrderly (enter e i m c r s)
unfolding enter log_all report on_room enter_session emit
enter-IsOrderly e i m c r s full free = elim (Bool-cases (is_full r)) [
  | inl h ↦ rw h (full h)
  | inr h ↦ elim (Bool-cases (is_some (given_nickname i m))) [
    | inl named ↦ rw (h, named) (greet-IsOrderly e.now _ r.id _ _ refl (free h))
    | inr nameless ↦ rw (h, nameless) tt
  ]
]

-- The identifier of a newcomer is no player's: `randomUUID` never repeats.
abbrev pub IsFresh : ℕ → List Room → Type 0
IsFresh id rooms = All (λ r. elem id (ids r.players) ≡ false) rooms

pub admit-IsHealthy :
    (e : Env) (i : Option Identity) (m : JoinMessage) (r : Room)
    → elem e.fresh_id (ids r.players) ≡ false
    → is_full r ≡ false
    → IsSound r
    → IsHealthy (admit (new_player e.fresh_id i m) r)
unfolding new_player
admit-IsHealthy e i m r fresh free v = record {
  sound = admit-IsSound _ r fresh free v;
  inhabited = admit-inhabited _ r;
}

pub enter_or_ask-IsOrderly :
    (e : Env) (i : Option Identity) (m : JoinMessage) (c : Connection) (id : Text)
    (found : Option Room) (s : Server)
    → find_room id s.rooms ≡ found
    → IsFresh e.fresh_id s.rooms
    → IsOrderly s.rooms
    → Leaves IsOrderly (enter_or_ask e i m c id found s)
unfolding enter_or_ask
enter_or_ask-IsOrderly e i m c id none s f fresh o = o
enter_or_ask-IsOrderly e i m c id (some r) s f fresh o =
    let h = find_room-All IsHealthy id s.rooms r o.healthy f in
    enter-IsOrderly e i m c r s (λ _. o)
      (λ free.
        put_room-IsOrderly _ s.rooms
          (admit-IsHealthy e i m r
            (find_room-All (λ x. elem e.fresh_id (ids x.players) ≡ false) id s.rooms r fresh f) free
            h.sound)
          o)

enter_by_code-IsOrderly :
    (upper : Text → Text) (e : Env) (i : Option Identity) (m : JoinMessage) (c : Connection)
    (code : Option Text) (s : Server)
    → IsFresh e.fresh_id s.rooms
    → IsOrderly s.rooms
    → Leaves IsOrderly (enter_by_code upper e i m c code s)
unfolding enter_by_code
enter_by_code-IsOrderly upper e i m c none s fresh o = tt
enter_by_code-IsOrderly upper e i m c (some code) s fresh o =
    enter_or_ask-IsOrderly e i m c _ _ s refl fresh o

pub after_identity-IsOrderly :
    (upper : Text → Text) (e : Env) (is_open : Bool) (i : Option Identity) (m : JoinMessage)
    (c : Connection) (s : Server)
    → IsFresh e.fresh_id s.rooms
    → IsOrderly s.rooms
    → Leaves IsOrderly (after_identity upper e is_open i m c s)
unfolding after_identity
after_identity-IsOrderly upper e true i m c s fresh o =
    enter_by_code-IsOrderly upper e i m c m.room_id s fresh o
after_identity-IsOrderly upper e false i m c s fresh o = o
