-- ===== src/GameSession/Invariant/Rounds.antt =====
-- The course of a game keeps a room sound, and which stage each step leads to.
use mathlib.Core.Bool.{false≢true}
use gacha_mind.Base.{
  ℕ, ltb→le, ◌≤◌, ◌≡◌, refl, sym, subst, ◌∙◌, inl, inr, true, ◌||◌, List, ◌∷◌, Option, none, some,
  is_some, arith, length, elem, ◌==◌, ltb, Bool-cases, Distinct, Within,
}
use gacha_mind.GameSession.Room.{
  Player, Timer, Room, Session, round_over, intermission_over, ids, size, find_player, broadcast,
  notice, emit,
}
use gacha_mind.GameSession.Room.Laws.{find_player-some}
use gacha_mind.GameSession.Game.{
  Env, is_playing, close_game, open_round, open_game, close_round, schedule, end_game, end_round,
  start_round, start_game, resume, run_timer, fire_timer, reset_scores,
}
use gacha_mind.GameSession.Game.Outcomes.{end_game-room, end_round-room, start_round_cases}
use gacha_mind.GameSession.Invariant.{HasMembers, IsIdle, IsDrawing, IsResting, IsSound}
use gacha_mind.GameSession.Invariant.Members.{
  close_game-HasMembers, open_round-HasMembers, open_game-HasMembers, close_round-HasMembers,
  size_of_ids, ids-reset_scores,
}

close_game-IsIdle : (r : Room) → IsIdle (close_game r)
unfolding close_game
close_game-IsIdle r = record {
  phase = refl;
  game = refl;
  drawer = refl;
  word = refl;
  ends = refl;
  queue = refl;
  timer = refl;
}

pub close_game-IsSound : (r : Room) → HasMembers r → IsSound (close_game r)
close_game-IsSound r m = record {
  members = close_game-HasMembers r m;
  stage = inl (close_game-IsIdle r);
}

schedule-HasMembers : (t : Timer) (r : Room) → HasMembers r → HasMembers (schedule t r)
unfolding schedule
schedule-HasMembers t r m = record {
  unique = m.unique;
  fits = m.fits;
  queue_unique = m.queue_unique;
  queue_within = m.queue_within;
  solved_within = m.solved_within;
  strokes_bounded = m.strokes_bounded;
}

-- A queue may lose its head.
next_in_queue-HasMembers :
    (id : ℕ) (rest : List ℕ) (r : Room)
    → r.drawer_queue ≡ id ∷ rest
    → HasMembers r
    → HasMembers (record r { round_timer = none; drawer_queue = rest })
next_in_queue-HasMembers id rest r e m =
    let unique : Distinct (id ∷ rest) = subst Distinct e m.queue_unique in
    let within : Within (id ∷ rest) (ids r.players) =
      subst (λ q. Within q (ids r.players)) e m.queue_within in
    record {
      unique = m.unique;
      fits = m.fits;
      queue_unique = unique.1;
      queue_within = within.1;
      solved_within = m.solved_within;
      strokes_bounded = m.strokes_bounded;
    }

-- A game in progress: what a round needs in order to start.
pub record IsUnderway (r : Room) : Type 0 where
  pub members : HasMembers r
  pub phase : is_playing r.phase ≡ true
  pub game : is_some r.game_id ≡ true
  pub enough : 2 ≤ size r

round_opened :
    (e : Env) (r : Room) (id : ℕ) (rest : List ℕ) (p : Player)
    → IsUnderway r
    → r.drawer_queue ≡ id ∷ rest
    → find_player id r.players ≡ some p
    → let r' = record r { round_timer = none; drawer_queue = rest } in
      IsSound (schedule round_over (open_round e p r'))
unfolding open_round schedule elem
round_opened e r id rest p u q f = record {
  members =
      schedule-HasMembers round_over _
        (open_round-HasMembers e p _ (next_in_queue-HasMembers id rest r q u.members));
  stage = inr (
      inl (record {
        phase = u.phase;
        game = u.game;
        drawer = (ground (arith, find_player-some id r.players p f), refl);
        word = refl;
        ends = refl;
        timer = refl;
        enough = u.enough;
      }));
}

pub start_round-IsSound :
    (e : Env) (s : Session) → IsUnderway s.room → IsSound (start_round e s).room
start_round-IsSound e s u =
    start_round_cases IsSound e s u.phase (close_game-IsSound s.room u.members)
      (λ id rest p q f. round_opened e s.room id rest p u q f)

pub end_game-IsSound :
    (now : ℕ) (s : Session)
    → HasMembers s.room
    → is_playing s.room.phase ≡ true
    → IsSound (end_game now s).room
end_game-IsSound now s m h =
    subst IsSound (sym (end_game-room now s ∙ rw h)) (close_game-IsSound s.room m)

IsUnderway-IsResting :
    (r : Room) → IsUnderway r → IsResting (schedule intermission_over (close_round r))
unfolding schedule close_round
IsUnderway-IsResting r u = record {
  phase = u.phase;
  game = u.game;
  drawer = refl;
  word = refl;
  ends = refl;
  timer = refl;
  enough = u.enough;
}

pub end_round-eq :
    (s : Session)
    → IsUnderway s.room
    → (end_round s).room ≡ schedule intermission_over (close_round s.room)
end_round-eq s u = ground (arith, end_round-room s, u.phase, u.enough)

pub end_round-IsSound : (s : Session) → IsUnderway s.room → IsSound (end_round s).room
end_round-IsSound s u = subst IsSound (sym (end_round-eq s u)) (record {
  members = schedule-HasMembers _ _ (close_round-HasMembers s.room u.members);
  stage = inr (inr (IsUnderway-IsResting s.room u));
})

pub IsDrawing-IsUnderway : (r : Room) → HasMembers r → IsDrawing r → IsUnderway r
IsDrawing-IsUnderway r m d = record {
  members = m;
  phase = d.phase;
  game = d.game;
  enough = d.enough;
}

IsResting-IsUnderway : (r : Room) → HasMembers r → IsResting r → IsUnderway r
IsResting-IsUnderway r m d = record {
  members = m;
  phase = d.phase;
  game = d.game;
  enough = d.enough;
}

-- A sound room whose phase is "playing" has a game underway.
pub IsSound-IsUnderway : (r : Room) → IsSound r → is_playing r.phase ≡ true → IsUnderway r
IsSound-IsUnderway r v h = elim v.stage [
  | inl i ↦ absurd (false≢true (sym i.phase ∙ h))
  | inr (inl d) ↦ IsDrawing-IsUnderway r v.members d
  | inr (inr d) ↦ IsResting-IsUnderway r v.members d
]

pub resume-IsSound : (e : Env) (s : Session) → IsSound s.room → IsSound (resume e s).room
unfolding resume
resume-IsSound e s v = elim (Bool-cases (is_playing s.room.phase)) [
  | inr idle ↦ rw idle v
  | inl h ↦ elim (Bool-cases (ltb (size s.room) 2 || length s.room.drawer_queue == 0)) [
    | inl stop ↦ rw (h, stop) (end_game-IsSound e.now s v.members h)
    | inr go ↦ rw (h, go) (start_round-IsSound e s (IsSound-IsUnderway s.room v h))
  ]
]

-- Whichever timer is pending, its callback keeps the room sound.
pub fire_timer-IsSound : (e : Env) (s : Session) → IsSound s.room → IsSound (fire_timer e s).room
unfolding fire_timer
fire_timer-IsSound e s v = elim v.stage [
  | inl i ↦ after i.timer v
  | inr (inl d) ↦ after d.timer (end_round-IsSound s (IsDrawing-IsUnderway s.room v.members d))
  | inr (inr d) ↦ after d.timer (resume-IsSound e s v)
]
  where
    after :
        {t : Option Timer}
        → s.room.round_timer ≡ t
        → IsSound (run_timer e t s).room
        → IsSound (run_timer e s.room.round_timer s).room
    after h = subst (λ t. IsSound (run_timer e t s).room) (sym h)

open_game-IsUnderway : (e : Env) (r : Room) → HasMembers r → 2 ≤ size r → IsUnderway (open_game e r)
unfolding open_game
open_game-IsUnderway e r m enough = record {
  members = open_game-HasMembers e r m;
  phase = refl;
  game = refl;
  enough =
      omega (
        arith,
        enough,
        size_of_ids (reset_scores r.players) r.players (ids-reset_scores r.players),
      );
}

pub start_game-IsSound : (e : Env) (s : Session) → IsSound s.room → IsSound (start_game e s).room
unfolding start_game notice broadcast emit
start_game-IsSound e s v = elim (Bool-cases (is_playing s.room.phase)) [
  | inl h ↦ rw h v
  | inr idle ↦ elim (Bool-cases (ltb (size s.room) 2)) [
    | inl few ↦ rw (idle, few) v
    | inr enough ↦
        rw (idle, enough)
          (start_round-IsSound e _
            (open_game-IsUnderway e s.room v.members (ltb→le (size s.room) 2 enough)))
  ]
]
