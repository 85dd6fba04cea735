-- ===== src/GameSession/Server/Reach.antt =====
-- The runs of a game-session process: whatever the sockets, the timers and Redis do, every room that
-- it holds is sound.
use gacha_mind.Base.{◌≡◌, subst, Bool, [], Option, Text}
use gacha_mind.GameSession.Rooms.{Server}
use gacha_mind.GameSession.Game.{Env}
use gacha_mind.GameSession.Server.Orderly.{IsOrderly, IsFresh, Leaves, after_identity-IsOrderly}
use gacha_mind.GameSession.Server.Events.{
  after_assignment-IsOrderly, handle_message-IsOrderly, handle_timer-IsOrderly,
}
use gacha_mind.GameSession.Server.Close.{handle_close-IsOrderly}
use gacha_mind.GameSession.Server.Dispatch.{Incoming, handle_message, handle_close, handle_timer}
use gacha_mind.GameSession.Server.{
  Identity, Connection, JoinMessage, Outcome, went_on, after_identity, after_assignment,
}

abbrev pub no_rooms : Server
no_rooms = record { rooms = []; log = [] }

module _ (upper lower : Text → Text) where
  -- One run of the event loop that does not throw. The connection that it serves may be in any
  -- state; a run that stops to ask Redis leaves the rooms alone.
  pub data Step (s : Server) : Server → Type 0 where
    joins_known :
        (e : Env) (is_open : Bool) (i : Option Identity) (m : JoinMessage) (c c' : Connection)
        (s' : Server)
        → IsFresh e.fresh_id s.rooms
        → after_identity upper e is_open i m c s ≡ went_on c' s'
        → Step s s'
    joins_assigned :
        (e : Env) (assigned is_open : Bool) (i : Option Identity) (m : JoinMessage) (id : Text)
        (c c' : Connection) (s' : Server)
        → IsFresh e.fresh_id s.rooms
        → after_assignment e assigned is_open i m id c s ≡ went_on c' s'
        → Step s s'
    speaks :
        (e : Env) (m : Incoming) (c c' : Connection) (s' : Server)
        → handle_message lower e m c s ≡ went_on c' s'
        → Step s s'
    closes : (e : Env) (c : Connection) → Step s (handle_close e c s)
    ticks : (e : Env) (id : Text) → Step s (handle_timer e id s)

  pub data Reach : Server → Type 0 where
    start : Reach no_rooms
    next : {s s' : Server} → Reach s → Step s s' → Reach s'

  went_on-IsOrderly :
      (o : Outcome) (c : Connection) (s : Server)
      → o ≡ went_on c s
      → Leaves IsOrderly o
      → IsOrderly s.rooms
  went_on-IsOrderly o c s e h = subst (Leaves IsOrderly) e h

  Step-IsOrderly : {s s' : Server} → Step s s' → IsOrderly s.rooms → IsOrderly s'.rooms
  Step-IsOrderly {s} (joins_known e is_open i m c c' s' fresh q) o =
      went_on-IsOrderly _ c' s' q (after_identity-IsOrderly upper e is_open i m c s fresh o)
  Step-IsOrderly {s} (joins_assigned e assigned is_open i m id c c' s' fresh q) o =
      went_on-IsOrderly _ c' s' q (after_assignment-IsOrderly e assigned is_open i m id c s fresh o)
  Step-IsOrderly {s} (speaks e m c c' s' q) o =
      went_on-IsOrderly _ c' s' q (handle_message-IsOrderly lower e m c s o)
  Step-IsOrderly {s} (closes e c) o = handle_close-IsOrderly e c s o
  Step-IsOrderly {s} (ticks e id) o = handle_timer-IsOrderly e id s o

  -- In every reachable state of a process the codes of its rooms differ, no room is empty, and each
  -- is sound: its players are distinct and within its capacity, queue and solvers are players, and
  -- it either has no game and no timer, or is in a round with a drawer among the players, a word
  -- and the timer that ends it, or in a pause with the timer that goes on, the last two with at
  -- least two players. Newcomers are assumed to get fresh identifiers.
  pub Reach-IsOrderly : {s : Server} → Reach s → IsOrderly s.rooms
  Reach-IsOrderly start = record { healthy = tt; unique = tt }
  Reach-IsOrderly (next r st) = Step-IsOrderly st (Reach-IsOrderly r)
