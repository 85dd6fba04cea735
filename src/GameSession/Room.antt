-- ===== src/GameSession/Room.antt =====
-- apps/game-session/src/room.ts: players, a room and its methods. A socket is the flag that it is
-- open; a map or set in insertion order is a list; a pending `setTimeout` is the name of its
-- callback. What a handler sends or starts is kept in order in the log of a session.
pub mod Laws
pub mod Log
use gacha_mind.Base.{
  ℕ, suc, ◌+◌, ◌-◌, ◌≤◌, ◌≡◌, Bool, true, false, ◌||◌, not, List, [], ◌∷◌, ◌++◌, map, Option, none,
  some, Text, length, elem, without, keep, ltb, leb, ◌==◌, if◌then◌else◌,
}
use gacha_mind.Shared.Protocol.{
  GamePhase, waiting, PlayerSummary, StrokeSegment, ServerToClientMessage, system,
}
use gacha_mind.Shared.Account.{GameFinishedEvent}

abbrev pub max_buffered_strokes : ℕ
max_buffered_strokes = 3000

pub record Player : Type 0 where
  pub id : ℕ
  pub user_id : Option ℕ
  pub nickname : Text
  pub is_open : Bool
  pub score : ℕ

-- The callbacks that `roundTimer` may hold: the end of a round, and the end of the pause after it.
pub data Timer : Type 0 where
  round_over intermission_over : Timer

pub record Room : Type 0 where
  pub id : Text
  pub capacity : ℕ
  pub players : List Player
  pub phase : GamePhase
  pub game_id : Option ℕ
  pub round : ℕ
  pub total_rounds : ℕ
  pub drawer_id : Option ℕ
  pub word : Option Text
  pub round_ends_at : Option ℕ
  pub strokes : List StrokeSegment
  pub solved_player_ids : List ℕ
  pub drawer_queue : List ℕ
  pub used_words : List Text
  pub round_timer : Option Timer

-- What leaves the process: a message to a player of a room or to a socket that has joined none, a
-- socket closed, and the calls that report to Redis, the task agent, matchmaking and the queue.
pub data Effect : Type 0 where
  sent : (player_id : ℕ) (message : ServerToClientMessage) → Effect
  replied : (message : ServerToClientMessage) → Effect
  closed : Effect
  synced_occupancy : Room → Effect
  published_load : (rooms connections : ℕ) → Effect
  synced_protection : (rooms : ℕ) → Effect
  notified_room_closed : (room_id : Text) → Effect
  published : GameFinishedEvent → Effect

pub record Session : Type 0 where
  pub room : Room
  pub log : List Effect

unfoldable pub new_room : Text → ℕ → Room
new_room id capacity = record {
  id = id;
  capacity = capacity;
  players = [];
  phase = waiting;
  game_id = none;
  round = 0;
  total_rounds = 0;
  drawer_id = none;
  word = none;
  round_ends_at = none;
  strokes = [];
  solved_player_ids = [];
  drawer_queue = [];
  used_words = [];
  round_timer = none;
}

-- `-` stops at 0, as `Math.max(0, …)` does.
unfoldable pub remaining_ms : ℕ → Room → Option ℕ
remaining_ms now r = elim r.round_ends_at [ none ↦ none | some ends ↦ some (ends - now) ]

abbrev pub ids : List Player → List ℕ
ids = map λ p. p.id

-- `players.get(id)`
unfoldable pub find_player : ℕ → List Player → Option Player
find_player id [] = none
find_player id (p ∷ ps) = if p.id == id then some p else find_player id ps

-- `players.set(player.id, player)`
unfoldable pub put_player : Player → List Player → List Player
put_player q [] = q ∷ []
put_player q (p ∷ ps) = if p.id == q.id then q ∷ ps else p ∷ put_player q ps

-- `players.delete(id)`
unfoldable pub drop_player : ℕ → List Player → List Player
drop_player id [] = []
drop_player id (p ∷ ps) = if p.id == id then drop_player id ps else p ∷ drop_player id ps

unfoldable pub add_player : Player → Room → Room
add_player p r = record r { players = put_player p r.players }

unfoldable pub remove_player : ℕ → Room → Room
remove_player id r = record r {
  players = drop_player id r.players;
  solved_player_ids = without id r.solved_player_ids;
  drawer_queue = without id r.drawer_queue;
}

abbrev pub size : Room → ℕ
size r = length r.players

unfoldable pub is_full : Room → Bool
is_full r = leb r.capacity (size r)

unfoldable pub summary : Player → PlayerSummary
summary p = record { id = p.id; nickname = p.nickname; score = p.score }

unfoldable pub summaries : Room → List PlayerSummary
summaries r = map summary r.players

-- Whether `player.id === this.drawerId`.
unfoldable pub is_drawer : Option ℕ → ℕ → Bool
is_drawer none id = false
is_drawer (some d) id = d == id

unfoldable pub count_unsolved : Option ℕ → List ℕ → List Player → ℕ
count_unsolved drawer solved [] = 0
count_unsolved drawer solved (p ∷ ps) =
    if is_drawer drawer p.id || elem p.id solved
    then count_unsolved drawer solved ps
    else suc (count_unsolved drawer solved ps)

unfoldable pub unsolved_guesser_count : Room → ℕ
unfolding count_unsolved is_drawer
unsolved_guesser_count r = count_unsolved r.drawer_id r.solved_player_ids r.players

unfoldable pub add_stroke : StrokeSegment → Room → Room
add_stroke stroke r =
    if leb max_buffered_strokes (length r.strokes)
    then r
    else record r { strokes = r.strokes ++ stroke ∷ [] }

unfoldable pub clear_strokes : Room → Room
clear_strokes r = record r { strokes = [] }

unfoldable pub clear_round_timer : Room → Room
clear_round_timer r = record r { round_timer = none }

abbrev pub change : (Room → Room) → Session → Session
change f s = record s { room = f s.room }

unfoldable pub emit : Effect → Session → Session
emit e s = record s { log = s.log ++ e ∷ [] }

unfoldable pub deliver_one : ServerToClientMessage → Player → List Effect
deliver_one m p = if p.is_open then sent p.id m ∷ [] else []

unfoldable pub deliver_to : ServerToClientMessage → Option Player → List Effect
deliver_to m none = []
deliver_to m (some p) = deliver_one m p

unfoldable pub send : ℕ → ServerToClientMessage → Session → Session
unfolding deliver_to deliver_one
send id m s = record s { log = s.log ++ deliver_to m (find_player id s.room.players) }

unfoldable pub deliveries : ServerToClientMessage → Option ℕ → List Player → List Effect
deliveries m excluded [] = []
deliveries m excluded (p ∷ ps) =
    (if is_drawer excluded p.id then [] else deliver_one m p) ++ deliveries m excluded ps

-- The second argument is `excludePlayerId`.
unfoldable pub broadcast : ServerToClientMessage → Option ℕ → Session → Session
unfolding deliveries deliver_one is_drawer
broadcast m excluded s = record s { log = s.log ++ deliveries m excluded s.room.players }

unfoldable pub notice : ℕ → Text → Session → Session
notice now text s = broadcast (system text now) none s
