-- ===== src/Web/Mirror/Run.antt =====
-- The time of a player in a room, from the join on.
use gacha_mind.Base.{ℕ, ◌≡◌, false, List, Option, Text, elem, ◌==◌}
use gacha_mind.GameSession.Room.{Effect, Session, ids, is_full}
use gacha_mind.GameSession.Game.{Env, start_game, fire_timer}
use gacha_mind.GameSession.Handlers.{RawStroke, handle_chat, after_draw, handle_draw_clear}
use gacha_mind.GameSession.Server.Dispatch.{leave_session}
use gacha_mind.GameSession.Server.{Identity, JoinMessage, new_player, enter_session, greet_session}
use gacha_mind.GameSession.Invariant.{IsSound}
use gacha_mind.Web.Mirror.Join.{Passes, log_more}

-- What may happen to a room. A join has room for what the process reports in between.
pub data Event : Type 0 where
  joins : Env → Option Identity → JoinMessage → List Effect → Event
  leaves : (now id : ℕ) → Event
  says : (now id : ℕ) (text : Text) → Event
  draws_stroke : (id : ℕ) → RawStroke → Event
  clears : (id : ℕ) → Event
  starts : Env → Event
  ticks : Env → Event
  elsewhere : List Effect → Event

-- The handlers of the connections, on the session of the room.
unfoldable pub happen : (Text → Text) → Event → Session → Session
happen lower (joins e i m es) s =
    let p = new_player e.fresh_id i m in greet_session e.now p (log_more es (enter_session p s))
happen lower (leaves now id) s = leave_session now id s
happen lower (says now id text) s = handle_chat lower now id text s
happen lower (draws_stroke id raw) s = after_draw id raw s
happen lower (clears id) s = handle_draw_clear id s
happen lower (starts e) s = start_game e s
happen lower (ticks e) s = fire_timer e s
happen lower (elsewhere es) s = log_more es s

-- The event may come while that player is in the room: a newcomer has a fresh identifier and finds a
-- free place, the player stays, and what happens elsewhere sends the player nothing.
unfoldable pub MayCome : ℕ → Event → Session → Type 0
MayCome id (joins e i m es) s =
    (elem e.fresh_id (ids s.room.players) ≡ false) × (is_full s.room ≡ false) × Passes id es
MayCome id (leaves now x) s = (x == id) ≡ false
MayCome id (says now x text) s = Unit
MayCome id (draws_stroke x raw) s = Unit
MayCome id (clears x) s = Unit
MayCome id (starts e) s = Unit
MayCome id (ticks e) s = Unit
MayCome id (elsewhere es) s = Passes id es

-- The states of the room's session from the join of the player with the fresh identifier of `e` on.
pub data Attends (lower : Text → Text) (id : ℕ) : Session → Type 0 where
  arrives :
      (e : Env) (i : Option Identity) (m : JoinMessage) (es : List Effect) (s : Session)
      → e.fresh_id ≡ id
      → IsSound s.room
      → MayCome id (joins e i m es) s
      → Attends lower id (happen lower (joins e i m es) s)
  stays :
      {s : Session} (event : Event)
      → Attends lower id s
      → MayCome id event s
      → Attends lower id (happen lower event s)
