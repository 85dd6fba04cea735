-- ===== src/GameSession/Server/Close.antt =====
-- `handleClose` keeps the process orderly: an emptied room is removed.
use gacha_mind.Base.{
  ℕ, ◌≡◌, refl, sym, subst, ◌∙◌, inl, inr, Bool, true, false, List, Option, none, some, arith, Text,
  ◌==◌, Bool-cases,
}
use gacha_mind.GameSession.Room.{Room, Session, size, remove_player, broadcast, notice}
use gacha_mind.GameSession.Rooms.{
  Server, find_room, put_room, remove_if_empty, remove_found, on_room,
}
use gacha_mind.GameSession.Rooms.Laws.{
  drop_room-All, drop_room-Unique, find_room-put_room, drop_room-put_room,
}
use gacha_mind.GameSession.Game.{Env}
use gacha_mind.GameSession.Invariant.{IsSound}
use gacha_mind.GameSession.Invariant.Leave.{leave-IsSound}
use gacha_mind.GameSession.Invariant.Keeps.{handle_player_left-Keeps}
use gacha_mind.GameSession.Server.Orderly.{IsHealthy, IsOrderly, put_room-IsOrderly}
use gacha_mind.GameSession.Server.Events.{place-found}
use gacha_mind.GameSession.Server.Dispatch.{
  place, leave_session, tidy, sync_found, close_in_room, handle_close,
}
use gacha_mind.GameSession.Server.{Connection, report, log_all}

sync_found-rooms : (found : Option Room) (s : Server) → (sync_found found s).rooms ≡ s.rooms
unfolding sync_found log_all
sync_found-rooms none s = refl
sync_found-rooms (some r) s = refl

tidy-rooms :
    (id : Text) (s : Server) (o : List Room × Bool)
    → (o.1 ≡ false → o.0 ≡ s.rooms)
    → (tidy id o s).rooms ≡ o.0
unfolding tidy log_all
tidy-rooms id s (rooms, true) h = refl
tidy-rooms id s (rooms, false) h = sync_found-rooms (find_room id s.rooms) s ∙ sym (h refl)

remove_found-kept :
    (id : Text) (rs : List Room) (found : Option Room)
    → (remove_found id rs found).1 ≡ false
    → (remove_found id rs found).0 ≡ rs
unfolding remove_found
remove_found-kept id rs none h = refl
remove_found-kept id rs (some r) h = ground arith

-- The map after the room has changed to `q`, which may be empty, and `removeIfEmpty` has run.
emptied-IsOrderly :
    (q r : Room) (rs : List Room)
    → IsSound q
    → find_room q.id rs ≡ some r
    → IsOrderly rs
    → IsOrderly (remove_if_empty q.id (put_room q rs)).0
unfolding remove_if_empty remove_found
emptied-IsOrderly q r rs v f o = elim (Bool-cases (size q == 0)) [
  | inl empty ↦
      rw (find_room-put_room q r rs f, empty, drop_room-put_room q rs o.unique)
        (record {
          healthy = drop_room-All IsHealthy q.id rs o.healthy;
          unique = drop_room-Unique q.id rs o.unique;
        })
  | inr left ↦
      rw (find_room-put_room q r rs f, left)
        (put_room-IsOrderly q rs (record { sound = v; inhabited = ground arith }) o)
]

pub left-IsSound :
    (now id : ℕ) (s : Session) → IsSound s.room → IsSound (leave_session now id s).room
unfolding leave_session broadcast notice
left-IsSound now id s v = leave-IsSound now id s.room _ v

left-id : (now id : ℕ) (s : Session) → (leave_session now id s).room.id ≡ s.room.id
unfolding leave_session broadcast notice
left-id now id s = (handle_player_left-Keeps now id _).id ∙ unfold remove_player in refl

close_in_room-IsOrderly :
    (e : Env) (c : Connection) (s : Server) (at : Option (ℕ × Room))
    → place c s ≡ at
    → IsOrderly s.rooms
    → IsOrderly (close_in_room e at s).rooms
unfolding close_in_room report log_all on_room remove_if_empty
close_in_room-IsOrderly e c s none p o = o
close_in_room-IsOrderly e c s (some (id, r)) p o =
    let s' = on_room (leave_session e.now id) r s in
    let (healthy, found) = place-found c s id r p o in
    let before : Session = record { room = r; log = s.log } in
    let q = (leave_session e.now id before).room in
    let same = left-id e.now id before in
    subst IsOrderly
      (sym (
        tidy-rooms r.id s' (remove_if_empty r.id s'.rooms)
          (remove_found-kept r.id s'.rooms (find_room r.id s'.rooms))))
      (subst (λ k. IsOrderly (remove_if_empty k (put_room q s.rooms)).0) same
        (emptied-IsOrderly q r s.rooms (left-IsSound e.now id before healthy.sound)
          (subst (λ k. find_room k s.rooms ≡ some r) (sym same) found) o))

pub handle_close-IsOrderly :
    (e : Env) (c : Connection) (s : Server)
    → IsOrderly s.rooms
    → IsOrderly (handle_close e c s).rooms
unfolding handle_close
handle_close-IsOrderly e c s o = close_in_room-IsOrderly e c s (place c s) refl o
