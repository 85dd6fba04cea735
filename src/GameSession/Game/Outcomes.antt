-- ===== src/GameSession/Game/Outcomes.antt =====
-- What `endGame`, `endRound` and `startRound` leave of a room.
use gacha_mind.Base.{
  ℕ, ◌≡◌, refl, sym, subst, ◌∙◌, inl, inr, true, List, [], ◌∷◌, Option, none, some, arith, ◌==◌,
  if◌then◌else◌, Bool-cases,
}
use gacha_mind.GameSession.Room.{
  Player, Room, Session, round_over, intermission_over, size, find_player, clear_round_timer,
  broadcast, send, emit,
}
use gacha_mind.GameSession.Game.{
  Env, is_playing, close_game, open_round, close_round, schedule, end_game, end_round, start_round,
  start_round_from, start_round_with, publish_result, announce_round,
}

publish_result-room :
    (now : ℕ) (game : Option ℕ) (rounds : ℕ) (s : Session)
    → (publish_result now game rounds s).room ≡ s.room
unfolding publish_result emit
publish_result-room now none rounds s = refl
publish_result-room now (some g) rounds s = refl

-- Only the room's fields that `endGame` clears change.
pub end_game-room :
    (now : ℕ) (s : Session)
    → (end_game now s).room ≡ (if is_playing s.room.phase then close_game s.room else s.room)
unfolding end_game broadcast emit
end_game-room now s = elim (Bool-cases (is_playing s.room.phase)) [
  | inl e ↦ rw e (publish_result-room now s.room.game_id s.room.round _)
  | inr e ↦ rw e
]

pub end_round-room :
    (s : Session)
    → (end_round s).room ≡ (
        if is_playing s.room.phase
        then if size s.room == 0
          then close_round s.room
          else schedule intermission_over (close_round s.room)
        else s.room)
unfolding end_round broadcast close_round
end_round-room s = ground arith

-- The two outcomes of starting a round: the queue gives no player, and the game ends; or the round
-- of the first in the queue is open and its timer set.
module _ {ℓ} (P : Room → Type ℓ) (e : Env) where
  start_round_with_cases :
      (found : Option Player) (s : Session)
      → is_playing s.room.phase ≡ true
      → P (close_game s.room)
      → ((p : Player) → found ≡ some p → P (schedule round_over (open_round e p s.room)))
      → P (start_round_with e found s).room
  unfolding start_round_with
  start_round_with_cases none s h over next = subst P (sym (end_game-room e.now s ∙ rw h)) over
  start_round_with_cases (some p) s h over next =
      unfold announce_round broadcast send in next p refl

  start_round_from_cases :
      (queue : List ℕ) (s : Session)
      → is_playing s.room.phase ≡ true
      → P (close_game s.room)
      → ((id : ℕ) (rest : List ℕ) (p : Player)
          → queue ≡ id ∷ rest
          → find_player id s.room.players ≡ some p
          → P (schedule round_over (open_round e p (record s.room { drawer_queue = rest }))))
      → P (start_round_from e queue s).room
  unfolding start_round_from close_game
  start_round_from_cases [] s h over next = start_round_with_cases none s h over (λ p q. cc)
  start_round_from_cases (id ∷ rest) s h over next =
      start_round_with_cases (find_player id s.room.players) _ h over (λ p q. next id rest p refl q)

  pub start_round_cases :
      (s : Session)
      → is_playing s.room.phase ≡ true
      → P (close_game s.room)
      → ((id : ℕ) (rest : List ℕ) (p : Player)
          → s.room.drawer_queue ≡ id ∷ rest
          → find_player id s.room.players ≡ some p
          → P (
              schedule round_over
                (open_round e p (record s.room { round_timer = none; drawer_queue = rest }))))
      → P (start_round e s).room
  unfolding start_round clear_round_timer close_game
  start_round_cases s h over next = start_round_from_cases s.room.drawer_queue _ h over next
