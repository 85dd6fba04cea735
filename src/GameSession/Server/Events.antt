-- ===== src/GameSession/Server/Events.antt =====
-- Each run of the event loop keeps the process orderly.
use gacha_mind.Base.{
  or_else, ℕ, ◌≡◌, refl, sym, subst, ◌∙◌, inl, Bool, true, false, [], ◌∷◌, ◌++◌, Option, none, some,
  arith, or_else, Text, elem, All-append,
}
use gacha_mind.GameSession.Room.{Room, Session, Player, is_full, new_room, find_player}
use gacha_mind.GameSession.Rooms.{Server, find_room, put_room, get_or_create, create_if_missing}
use gacha_mind.GameSession.Rooms.Laws.{
  find_room-All, find_room-id, put_room_last, room_ids_snoc-Unique,
}
use gacha_mind.GameSession.Game.{Env, start_game}
use gacha_mind.GameSession.Handlers.{after_draw}
use gacha_mind.GameSession.Invariant.{IsSound}
use gacha_mind.GameSession.Invariant.Rounds.{start_game-IsSound, fire_timer-IsSound}
use gacha_mind.GameSession.Invariant.Keeps.{start_game-Keeps, fire_timer-Keeps}
use gacha_mind.GameSession.Invariant.Chat.{
  IsKept, handle_chat-IsKept, after_draw-IsKept, handle_draw_clear-IsKept,
}
use gacha_mind.GameSession.Server.Join.{admit-id}
use gacha_mind.GameSession.Server.Orderly.{
  IsHealthy, IsOrderly, IsFresh, Leaves, on_room-IsOrderly, enter-IsOrderly, admit-IsHealthy,
  enter_or_ask-IsOrderly,
}
use gacha_mind.GameSession.Server.Dispatch.{
  Incoming, unparsable, null_value, other, chats, draws_stroke, draws_clear, starts_game, place,
  in_room, handle_in_room, chat_or_throw, draw_or_throw, dispatch_message, handle_message,
  fire_found, handle_timer,
}
use gacha_mind.GameSession.Server.{
  Identity, Connection, JoinMessage, admit, new_player, enter, enter_or_ask, after_assignment,
  log_all,
}

pub new_room-IsSound : (id : Text) (capacity : ℕ) → IsSound (new_room id capacity)
unfolding new_room
new_room-IsSound id capacity = record {
  members = record {
    unique = tt;
    fits = omega arith;
    queue_unique = tt;
    queue_within = tt;
    solved_within = tt;
    strokes_bounded = omega arith;
  };
  stage = inl (record {
    phase = refl;
    game = refl;
    drawer = refl;
    word = refl;
    ends = refl;
    queue = refl;
    timer = refl;
  });
}

-- The first player of a new room makes it a healthy one.
enter_created-IsOrderly :
    (e : Env) (i : Option Identity) (m : JoinMessage) (c : Connection) (id : Text) (s : Server)
    → find_room id s.rooms ≡ none
    → IsOrderly s.rooms
    → Leaves IsOrderly
        (enter e i m c (new_room id 100) (record s { rooms = s.rooms ++ new_room id 100 ∷ [] }))
enter_created-IsOrderly e i m c id s f o =
    enter-IsOrderly e i m c (new_room id 100) _ (λ full. absurd (never full))
      (λ free. subst IsOrderly (sym (last free)) (record {
        healthy = All-append IsHealthy s.rooms _ o.healthy (healthy free, tt);
        unique =
            room_ids_snoc-Unique _ s.rooms (subst (λ k. find_room k s.rooms ≡ none) (sym same) f)
              o.unique;
      }))
  where
    same : (admit (new_player e.fresh_id i m) (new_room id 100)).id ≡ id
    same = admit-id _ (new_room id 100) ∙ unfold new_room in refl

    never : is_full (new_room id 100) ≡ true → ⊥
    never h = unfold is_full new_room in cc

    healthy :
        is_full (new_room id 100) ≡ false
        → IsHealthy (admit (new_player e.fresh_id i m) (new_room id 100))
    healthy free =
        admit-IsHealthy e i m (new_room id 100) (unfold new_room elem in refl) free
          (new_room-IsSound id 100)

    last :
        is_full (new_room id 100) ≡ false
        → put_room
            (admit (new_player e.fresh_id i m) (new_room id 100))
            (s.rooms ++ new_room id 100 ∷ [])
          ≡ s.rooms ++ admit (new_player e.fresh_id i m) (new_room id 100) ∷ []
    last free = put_room_last id s.rooms _ _ f (unfold new_room in refl) same

assigned_room-IsOrderly :
    (e : Env) (i : Option Identity) (m : JoinMessage) (id : Text) (c : Connection)
    (found : Option Room) (s : Server)
    → find_room id s.rooms ≡ found
    → IsFresh e.fresh_id s.rooms
    → IsOrderly s.rooms
    → Leaves IsOrderly (
        enter e i m c
          (create_if_missing id s.rooms found).1
          (record s { rooms = (create_if_missing id s.rooms found).0 }))
unfolding create_if_missing
assigned_room-IsOrderly e i m id c none s f fresh o = enter_created-IsOrderly e i m c id s f o
assigned_room-IsOrderly e i m id c (some r) s f fresh o =
    unfold enter_or_ask in enter_or_ask-IsOrderly e i m c id (some r) s f fresh o

pub after_assignment-IsOrderly :
    (e : Env) (assigned is_open : Bool) (i : Option Identity) (m : JoinMessage) (id : Text)
    (c : Connection) (s : Server)
    → IsFresh e.fresh_id s.rooms
    → IsOrderly s.rooms
    → Leaves IsOrderly (after_assignment e assigned is_open i m id c s)
unfolding after_assignment get_or_create log_all
after_assignment-IsOrderly e true true i m id c s fresh o =
    assigned_room-IsOrderly e i m id c (find_room id s.rooms) s refl fresh o
after_assignment-IsOrderly e true false i m id c s fresh o = o
after_assignment-IsOrderly e false is_open i m id c s fresh o = o

in_room-found :
    (player : Option ℕ) (found : Option Room) (id : ℕ) (r : Room)
    → in_room player found ≡ some (id, r)
    → found ≡ some r
unfolding in_room
in_room-found none found id r e = cc
in_room-found (some x) none id r e = cc
in_room-found (some x) (some y) id r e = ground arith

-- The room in which a connection stands is one of the process's.
pub place-found :
    (c : Connection) (s : Server) (id : ℕ) (r : Room)
    → place c s ≡ some (id, r)
    → IsOrderly s.rooms
    → IsHealthy r × (find_room r.id s.rooms ≡ some r)
unfolding place
place-found c s id r e o =
    let found : find_room (or_else c.joined_room_id []) s.rooms ≡ some r =
      ground
        (arith, in_room-found c.player_id (find_room (or_else c.joined_room_id []) s.rooms) id r) in
    (
      find_room-All IsHealthy _ s.rooms r o.healthy found,
      subst (λ k. find_room k s.rooms ≡ some r) (sym (find_room-id _ s.rooms r found)) found,
    )

chat_or_throw-IsOrderly :
    (lower : Text → Text) (e : Env) (id : ℕ) (text : Option Text) (found : Option Player)
    (c : Connection) (r : Room) (s : Server)
    → IsHealthy r
    → IsOrderly s.rooms
    → Leaves IsOrderly (chat_or_throw lower e id text found c r s)
unfolding chat_or_throw
chat_or_throw-IsOrderly lower e id text none c r s h o = o
chat_or_throw-IsOrderly lower e id none (some p) c r s h o = tt
chat_or_throw-IsOrderly lower e id (some text) (some p) c r s h o =
    on_room-IsOrderly _ r s h (handle_chat-IsKept lower e.now id text _) o

start_game-IsKept : (e : Env) (s : Session) → IsSound s.room → IsKept s.room (start_game e s).room
start_game-IsKept e s v = record { sound = start_game-IsSound e s v; keeps = start_game-Keeps e s }

draw_or_throw-IsOrderly :
    (c : Connection) (o : Option Session) (r : Room) (s : Server)
    → IsHealthy r
    → IsKept r (or_else o (record { room = r; log = s.log })).room
    → IsOrderly s.rooms
    → Leaves IsOrderly (draw_or_throw c o r s)
unfolding draw_or_throw
draw_or_throw-IsOrderly c none r s h k o = tt
draw_or_throw-IsOrderly c (some t) r s h k o = on_room-IsOrderly _ r s h (λ _. k) o

handle_in_room-IsOrderly :
    (lower : Text → Text) (e : Env) (m : Incoming) (id : ℕ) (c : Connection) (r : Room) (s : Server)
    → IsHealthy r
    → IsOrderly s.rooms
    → Leaves IsOrderly (handle_in_room lower e m id c r s)
unfolding handle_in_room
handle_in_room-IsOrderly lower e (chats text) id c r s h o =
    chat_or_throw-IsOrderly lower e id text (find_player id r.players) c r s h o
handle_in_room-IsOrderly lower e (draws_stroke raw) id c r s h o =
    draw_or_throw-IsOrderly c _ r s h
      (unfold after_draw in after_draw-IsKept id raw (record { room = r; log = s.log }) h.sound) o
handle_in_room-IsOrderly lower e draws_clear id c r s h o =
    on_room-IsOrderly _ r s h (handle_draw_clear-IsKept id _) o
handle_in_room-IsOrderly lower e starts_game id c r s h o =
    on_room-IsOrderly _ r s h (start_game-IsKept e _) o
handle_in_room-IsOrderly lower e null_value id c r s h o = tt
handle_in_room-IsOrderly lower e unparsable id c r s h o = o
handle_in_room-IsOrderly lower e other id c r s h o = o

dispatch_message-IsOrderly :
    (lower : Text → Text) (e : Env) (m : Incoming) (at : Option (ℕ × Room)) (c : Connection)
    (s : Server)
    → place c s ≡ at
    → IsOrderly s.rooms
    → Leaves IsOrderly (dispatch_message lower e m at c s)
unfolding dispatch_message
dispatch_message-IsOrderly lower e null_value at c s p o = tt
dispatch_message-IsOrderly lower e m none c s p o = o
dispatch_message-IsOrderly lower e m (some (id, r)) c s p o =
    handle_in_room-IsOrderly lower e m id c r s (place-found c s id r p o).0 o

pub handle_message-IsOrderly :
    (lower : Text → Text) (e : Env) (m : Incoming) (c : Connection) (s : Server)
    → IsOrderly s.rooms
    → Leaves IsOrderly (handle_message lower e m c s)
unfolding handle_message
handle_message-IsOrderly lower e m c s o =
    dispatch_message-IsOrderly lower e m (place c s) c s refl o

fire_found-IsOrderly :
    (e : Env) (id : Text) (found : Option Room) (s : Server)
    → find_room id s.rooms ≡ found
    → IsOrderly s.rooms
    → IsOrderly (fire_found e found s).rooms
unfolding fire_found
fire_found-IsOrderly e id none s f o = o
fire_found-IsOrderly e id (some r) s f o =
    on_room-IsOrderly _ r s (find_room-All IsHealthy id s.rooms r o.healthy f)
      (λ v. record { sound = fire_timer-IsSound e _ v; keeps = fire_timer-Keeps e _ }) o

pub handle_timer-IsOrderly :
    (e : Env) (id : Text) (s : Server) → IsOrderly s.rooms → IsOrderly (handle_timer e id s).rooms
unfolding handle_timer
handle_timer-IsOrderly e id s o = fire_found-IsOrderly e id (find_room id s.rooms) s refl o
