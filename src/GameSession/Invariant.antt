-- ===== src/GameSession/Invariant.antt =====
-- The well-formedness of a room between two events of the process, and the stages of a game.
pub mod Members
pub mod Seats
pub mod Rounds
pub mod Guess
pub mod Leave
pub mod Keeps
pub mod Chat
use gacha_mind.Base.{
  ℕ, ◌≤◌, ◌≡◌, ◌⊎◌, true, false, [], Option, none, some, length, elem, Distinct, Within,
}
use gacha_mind.GameSession.Room.{
  Room, ids, size, max_buffered_strokes, round_over, intermission_over,
}
use gacha_mind.GameSession.Game.{is_playing}
use gacha_mind.Base.{is_some}

-- What every method keeps, also in the middle of a handler.
pub record HasMembers (r : Room) : Type 0 where
  pub unique : Distinct (ids r.players)
  pub fits : size r ≤ r.capacity
  pub queue_unique : Distinct r.drawer_queue
  pub queue_within : Within r.drawer_queue (ids r.players)
  pub solved_within : Within r.solved_player_ids (ids r.players)
  pub strokes_bounded : length r.strokes ≤ max_buffered_strokes

-- No game: nothing of one is left, and no timer is pending.
pub record IsIdle (r : Room) : Type 0 where
  pub phase : is_playing r.phase ≡ false
  pub game : r.game_id ≡ none
  pub drawer : r.drawer_id ≡ none
  pub word : r.word ≡ none
  pub ends : r.round_ends_at ≡ none
  pub queue : r.drawer_queue ≡ []
  pub timer : r.round_timer ≡ none

-- The drawer is in the room and is none of those who have answered.
abbrev pub HasDrawer : Option ℕ → Room → Type 0
HasDrawer none r = ⊥
HasDrawer (some d) r = (elem d (ids r.players) ≡ true) × (elem d r.solved_player_ids ≡ false)

-- A round runs: it has a drawer, a word and a deadline, and the timer ends it.
pub record IsDrawing (r : Room) : Type 0 where
  pub phase : is_playing r.phase ≡ true
  pub game : is_some r.game_id ≡ true
  pub drawer : HasDrawer r.drawer_id r
  pub word : is_some r.word ≡ true
  pub ends : is_some r.round_ends_at ≡ true
  pub timer : r.round_timer ≡ some round_over
  pub enough : 2 ≤ size r

-- The pause after a round: the word is gone, and the timer goes on with the game.
pub record IsResting (r : Room) : Type 0 where
  pub phase : is_playing r.phase ≡ true
  pub game : is_some r.game_id ≡ true
  pub drawer : r.drawer_id ≡ none
  pub word : r.word ≡ none
  pub ends : r.round_ends_at ≡ none
  pub timer : r.round_timer ≡ some intermission_over
  pub enough : 2 ≤ size r

abbrev pub Stage : Room → Type 0
Stage r = IsIdle r ⊎ (IsDrawing r ⊎ IsResting r)

pub record IsSound (r : Room) : Type 0 where
  pub members : HasMembers r
  pub stage : Stage r
