-- ===== src/Web/Mirror.antt =====
-- What a browser shows of a room against the room itself: the messages that the log of the game
-- session (apps/game-session) has for one player, received one after the other by the hook
-- (apps/web/src/features/room/useRoomSocket.ts).
pub mod Delivery
pub mod Game
pub mod Timers
pub mod Talk
pub mod Members
pub mod Join
pub mod Run
pub mod Strokes
pub mod Live
use gacha_mind.Base.{
  ℕ, zero, suc, ◌+◌, ◌≡◌, Bool, true, List, [], ◌∷◌, Option, none, some, Text, length, map, ◌==◌,
  if◌then◌else◌, Distinct,
}
use gacha_mind.Shared.Protocol.{GamePhase, PlayerSummary, ServerToClientMessage}
use gacha_mind.GameSession.Room.{
  Room, Effect, sent, replied, closed, synced_occupancy, published_load, synced_protection,
  notified_room_closed, published, Session, ids,
}
use gacha_mind.GameSession.Invariant.Seats.{seats, listens, names}
use gacha_mind.Web.RoomSocket.{Client, receive}

-- The message of an effect, if it goes to that player.
unfoldable pub addressed : ℕ → Effect → Option ServerToClientMessage
addressed id (sent x m) = if x == id then some m else none
addressed id (replied m) = none
addressed id closed = none
addressed id (synced_occupancy r) = none
addressed id (published_load n k) = none
addressed id (synced_protection n) = none
addressed id (notified_room_closed room) = none
addressed id (published e) = none

unfoldable pub cons_some :
    Option ServerToClientMessage → List ServerToClientMessage → List ServerToClientMessage
cons_some none ms = ms
cons_some (some m) ms = m ∷ ms

-- The messages to a player, in the order in which they were sent.
unfoldable pub mail : ℕ → List Effect → List ServerToClientMessage
unfolding addressed cons_some
mail id [] = []
mail id (e ∷ es) = cons_some (addressed id e) (mail id es)

-- Receives messages, the one with the number `k` when the browser's clock shows `clock k`.
unfoldable pub receive_from : (ℕ → ℕ) → ℕ → List ServerToClientMessage → Client → Client
receive_from clock k [] c = c
receive_from clock k (m ∷ ms) c = receive_from clock (suc k) ms (receive (clock k) m c)

-- The browser after the log, from what it held before.
unfoldable pub view : (ℕ → ℕ) → ℕ → Client → List Effect → Client
view clock id c log = receive_from clock 0 (mail id log) c

-- What both sides know of a room. Scores are left out: those of the game before stay in a browser
-- after `game-started`.
pub record Picture : Type 0 where
  pub phase : GamePhase
  pub round : ℕ
  pub total_rounds : ℕ
  pub drawer_id : Option ℕ
  pub members : List (ℕ × Text)

abbrev pub shown_names : List PlayerSummary → List (ℕ × Text)
shown_names = map λ p. (p.id, p.nickname)

abbrev pub shown : Client → Picture
shown c = record {
  phase = c.game.phase;
  round = c.game.round;
  total_rounds = c.game.total_rounds;
  drawer_id = c.game.drawer_id;
  members = shown_names c.players;
}

abbrev pub picture : Room → Picture
picture r = record {
  phase = r.phase;
  round = r.round;
  total_rounds = r.total_rounds;
  drawer_id = r.drawer_id;
  members = names (seats r.players);
}

-- The player stands in the room once, with an open socket.
pub record Hears (id : ℕ) (r : Room) : Type 0 where
  pub unique : Distinct (ids r.players)
  pub open_seat : listens id (seats r.players) ≡ true

-- The browser that started from `c` shows the picture of the room.
abbrev pub Mirrors : (ℕ → ℕ) → ℕ → Client → Session → Type 0
Mirrors clock id c s = shown (view clock id c s.log) ≡ picture s.room
