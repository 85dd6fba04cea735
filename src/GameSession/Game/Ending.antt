-- ===== src/GameSession/Game/Ending.antt =====
-- How a game ends: left alone it does, and its result is published once.
use mathlib.Core.Bool.{false≢true}
use gacha_mind.Base.{
  ℕ, ◌+◌, ◌*◌, ◌≤◌, ◌<◌, ◌≡◌, refl, sym, subst, ◌∙◌, ap, inl, inr, true, false, ◌||◌, List, [], ◌∷◌,
  Option, none, some, is_some, arith, length, ◌==◌, ltb, if◌then◌else◌, Bool-cases,
}
use gacha_mind.GameSession.Room.{Room, Session, size}
use gacha_mind.GameSession.Game.{
  Env, is_playing, close_game, open_round, schedule, close_round, end_game, end_round, start_round,
  resume, run_timer, fire_timer,
}
use gacha_mind.GameSession.Invariant.{HasDrawer, IsDrawing, IsResting, IsSound}
use gacha_mind.GameSession.Game.Outcomes.{end_game-room, start_round_cases}
use gacha_mind.GameSession.Invariant.Rounds.{
  IsUnderway, end_round-eq, IsDrawing-IsUnderway, fire_timer-IsSound,
}

-- Twice the rounds that are left, and one more while a round runs.
unfoldable pub turns_left : Room → ℕ
turns_left r =
    if is_playing r.phase
    then 2 * length r.drawer_queue + (if is_some r.drawer_id then 2 else 1)
    else 0

end_game-turns :
    (now : ℕ) (s : Session) → is_playing s.room.phase ≡ true → turns_left (end_game now s).room ≡ 0
unfolding turns_left close_game
end_game-turns now s h = rw (end_game-room now s, h)

start_round-turns :
    (e : Env) (s : Session)
    → is_playing s.room.phase ≡ true
    → turns_left (start_round e s).room ≤ 2 * length s.room.drawer_queue
unfolding turns_left close_game schedule open_round
start_round-turns e s h =
    start_round_cases (λ r. turns_left r ≤ 2 * length s.room.drawer_queue) e s h (omega arith)
      (λ id rest p q f. ground (arith, ap length q))

resume-turns :
    (e : Env) (s : Session)
    → is_playing s.room.phase ≡ true
    → turns_left (resume e s).room ≤ 2 * length s.room.drawer_queue
unfolding resume
resume-turns e s h = elim (Bool-cases (ltb (size s.room) 2 || length s.room.drawer_queue == 0)) [
  | inl stop ↦ rw (h, stop) (omega (arith, end_game-turns e.now s h))
  | inr go ↦ rw (h, go) (start_round-turns e s h)
]

drawing_turns : (r : Room) → IsDrawing r → turns_left r ≡ 2 * length r.drawer_queue + 2
unfolding turns_left
drawing_turns r d = rw d.phase (go r.drawer_id d.drawer)
  where
    go :
        (o : Option ℕ)
        → HasDrawer o r
        → 2 * length r.drawer_queue + (if is_some o then 2 else 1) ≡ 2 * length r.drawer_queue + 2
    go none h = absurd h
    go (some x) h = refl

resting_turns : (r : Room) → IsResting r → turns_left r ≡ 2 * length r.drawer_queue + 1
unfolding turns_left
resting_turns r d = rw (d.phase, d.drawer)

end_round-turns :
    (s : Session)
    → IsUnderway s.room
    → turns_left (end_round s).room ≡ 2 * length s.room.drawer_queue + 1
end_round-turns s u = rw (end_round-eq s u) (unfold turns_left schedule close_round in rw u.phase)

-- While a game is played, the pending timer uses up a turn.
fire_timer-turns :
    (e : Env) (s : Session)
    → IsSound s.room
    → is_playing s.room.phase ≡ true
    → turns_left (fire_timer e s).room < turns_left s.room
unfolding fire_timer run_timer
fire_timer-turns e s v h = elim v.stage [
  | inl i ↦ absurd (false≢true (sym i.phase ∙ h))
  | inr (inl d) ↦
      subst (λ t. turns_left (run_timer e t s).room < turns_left s.room) (sym d.timer)
        (omega (
          arith,
          end_round-turns s (IsDrawing-IsUnderway s.room v.members d),
          drawing_turns s.room d,
        ))
  | inr (inr d) ↦
      subst (λ t. turns_left (run_timer e t s).room < turns_left s.room) (sym d.timer)
        (omega (arith, resume-turns e s h, resting_turns s.room d))
]

fire_timer-idle :
    (e : Env) (s : Session) → IsSound s.room → is_playing s.room.phase ≡ false → fire_timer e s ≡ s
unfolding fire_timer run_timer
fire_timer-idle e s v h = elim v.stage [
  | inl i ↦ ap (λ t. run_timer e t s) i.timer
  | inr (inl d) ↦ absurd (false≢true (sym h ∙ d.phase))
  | inr (inr d) ↦ absurd (false≢true (sym h ∙ d.phase))
]

-- The timers of a room run one after the other, and nothing else happens in it.
unfoldable pub run_timers : List Env → Session → Session
run_timers [] s = s
run_timers (e ∷ es) s = run_timers es (fire_timer e s)

turns-playing : (r : Room) → turns_left r ≡ 0 → is_playing r.phase ≡ false
unfolding turns_left
turns-playing r h = ground arith

run_timers-ends :
    (es : List Env) (s : Session)
    → IsSound s.room
    → turns_left s.room ≤ length es
    → is_playing (run_timers es s).room.phase ≡ false
unfolding run_timers
run_timers-ends [] s v h = turns-playing s.room (omega arith)
run_timers-ends (e ∷ es) s v h = elim (Bool-cases (is_playing s.room.phase)) [
  | inl now ↦
      run_timers-ends es (fire_timer e s) (fire_timer-IsSound e s v)
        (omega (arith, fire_timer-turns e s v now))
  | inr idle ↦ run_timers-ends es (fire_timer e s) (fire_timer-IsSound e s v) (
      subst (λ t. turns_left t.room ≤ length es) (sym (fire_timer-idle e s v idle))
        (idle_turns s.room idle))
]
  where
    idle_turns : (r : Room) → is_playing r.phase ≡ false → turns_left r ≤ length es
    idle_turns r q = unfold turns_left in rw q (omega arith)

turns-le : (r : Room) → turns_left r ≤ 2 * length r.drawer_queue + 2
unfolding turns_left
turns-le r = ground arith

-- From any sound room, a game that is left to its timers is over after two timers for each player
-- in the queue and two more.
pub game_ends :
    (es : List Env) (s : Session)
    → IsSound s.room
    → 2 * length s.room.drawer_queue + 2 ≤ length es
    → is_playing (run_timers es s).room.phase ≡ false
game_ends es s v h = run_timers-ends es s v (omega (arith, turns-le s.room))
