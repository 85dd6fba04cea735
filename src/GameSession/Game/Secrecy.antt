-- ===== src/GameSession/Game/Secrecy.antt =====
-- Who is told the word of a round before it ends.
use gacha_mind.Base.{
  ℕ, ◌≡◌, refl, inl, inr, ◌||◌, ◌⊎◌, List, [], ◌∷◌, Option, none, some, length, ◌==◌, ltb,
  Bool-cases, or_else,
}
use gacha_mind.Shared.Protocol.{
  ServerToClientMessage, room_state, player_joined, player_left, room_full, room_not_found, chat,
  system, draw, draw_clear, game_started, round_started, round_ended, correct_answer, game_ended,
}
use gacha_mind.GameSession.Room.{
  Player, Timer, round_over, intermission_over, Session, find_player, size, summaries, change,
  notice, broadcast,
}
use gacha_mind.GameSession.Room.Log.{Logged, broadcast-Logged, send-Logged, emit-Logged}
use gacha_mind.GameSession.Game.{
  Env, is_playing, end_game, publish_result, announce_round, start_round_with, start_round_from,
  start_round, open_game, start_game, too_few_to_start, close_round, rest_round, end_round, resume,
  run_timer, fire_timer,
}

-- A message that starts a round carries the word only to the drawer of that round.
abbrev pub TellsOnlyDrawer : ℕ → ServerToClientMessage → Type 0
TellsOnlyDrawer id (round_started m) = (m.word ≡ none) ⊎ (id ≡ m.drawer_id)
TellsOnlyDrawer id (room_state m) = Unit
TellsOnlyDrawer id (player_joined r p n) = Unit
TellsOnlyDrawer id (player_left r p n k) = Unit
TellsOnlyDrawer id (room_full r) = Unit
TellsOnlyDrawer id (room_not_found r) = Unit
TellsOnlyDrawer id (chat p n t a) = Unit
TellsOnlyDrawer id (system t a) = Unit
TellsOnlyDrawer id (draw s) = Unit
TellsOnlyDrawer id draw_clear = Unit
TellsOnlyDrawer id (game_started n) = Unit
TellsOnlyDrawer id (round_ended r w ps) = Unit
TellsOnlyDrawer id (correct_answer p n ps) = Unit
TellsOnlyDrawer id (game_ended ps) = Unit

abbrev pub IsDiscreet : Session → Type 0
IsDiscreet = Logged TellsOnlyDrawer

publish_result-IsDiscreet :
    (now : ℕ) (game : Option ℕ) (rounds : ℕ) (s : Session)
    → IsDiscreet s
    → IsDiscreet (publish_result now game rounds s)
unfolding publish_result
publish_result-IsDiscreet now none rounds s h = h
publish_result-IsDiscreet now (some g) rounds s h = emit-Logged TellsOnlyDrawer _ s tt h

end_game-IsDiscreet : (now : ℕ) (s : Session) → IsDiscreet s → IsDiscreet (end_game now s)
unfolding end_game
end_game-IsDiscreet now s h = elim (Bool-cases (is_playing s.room.phase)) [
  | inr idle ↦ rw idle h
  | inl e ↦ rw e (
      publish_result-IsDiscreet now _ _ _ (
        emit-Logged TellsOnlyDrawer _ _ tt
          (broadcast-Logged TellsOnlyDrawer _ none _ (λ id _. tt) h)))
]

announce_round-IsDiscreet :
    (now : ℕ) (drawer : Player) (s : Session)
    → IsDiscreet s
    → IsDiscreet (announce_round now drawer s)
unfolding announce_round
announce_round-IsDiscreet now drawer s h = send-Logged TellsOnlyDrawer drawer.id _ _ (inr refl) (
    broadcast-Logged TellsOnlyDrawer _ (some drawer.id) _ (λ id _. inl refl)
      (broadcast-Logged TellsOnlyDrawer draw_clear none s (λ id _. tt) h))

start_round_with-IsDiscreet :
    (e : Env) (found : Option Player) (s : Session)
    → IsDiscreet s
    → IsDiscreet (start_round_with e found s)
unfolding start_round_with
start_round_with-IsDiscreet e none s h = end_game-IsDiscreet e.now s h
start_round_with-IsDiscreet e (some p) s h = announce_round-IsDiscreet e.now p _ h

start_round_from-IsDiscreet :
    (e : Env) (queue : List ℕ) (s : Session)
    → IsDiscreet s
    → IsDiscreet (start_round_from e queue s)
unfolding start_round_from
start_round_from-IsDiscreet e [] s h = start_round_with-IsDiscreet e none s h
start_round_from-IsDiscreet e (id ∷ rest) s h =
    start_round_with-IsDiscreet e (find_player id s.room.players) _ h

start_round-IsDiscreet : (e : Env) (s : Session) → IsDiscreet s → IsDiscreet (start_round e s)
unfolding start_round
start_round-IsDiscreet e s h = start_round_from-IsDiscreet e s.room.drawer_queue _ h

end_round-IsDiscreet : (s : Session) → IsDiscreet s → IsDiscreet (end_round s)
unfolding end_round rest_round broadcast
end_round-IsDiscreet s h = elim (Bool-cases (is_playing s.room.phase)) [
  | inr idle ↦ rw idle h
  | inl e ↦
      let told =
        broadcast-Logged TellsOnlyDrawer
          (round_ended s.room.round (or_else s.room.word []) (summaries (close_round s.room))) none
          (change close_round s) (λ id _. tt) h in
      elim (Bool-cases (size s.room == 0)) [
        | inl z ↦ rw (e, z) (unfold close_round in told)
        | inr z ↦ rw (e, z) (unfold close_round in told)
      ]
]

resume-IsDiscreet : (e : Env) (s : Session) → IsDiscreet s → IsDiscreet (resume e s)
unfolding resume
resume-IsDiscreet e s h = elim (Bool-cases (is_playing s.room.phase)) [
  | inr idle ↦ rw idle h
  | inl now ↦ elim (Bool-cases (ltb (size s.room) 2 || length s.room.drawer_queue == 0)) [
    | inl stop ↦ rw (now, stop) (end_game-IsDiscreet e.now s h)
    | inr go ↦ rw (now, go) (start_round-IsDiscreet e s h)
  ]
]

start_game-IsDiscreet : (e : Env) (s : Session) → IsDiscreet s → IsDiscreet (start_game e s)
unfolding start_game
start_game-IsDiscreet e s h = elim (Bool-cases (is_playing s.room.phase)) [
  | inl now ↦ rw now h
  | inr idle ↦ elim (Bool-cases (ltb (size s.room) 2)) [
    | inl few ↦
        rw (idle, few)
          (unfold notice in
            broadcast-Logged TellsOnlyDrawer (system too_few_to_start e.now) none s (λ id _. tt) h)
    | inr enough ↦
        rw (idle, enough)
          (start_round-IsDiscreet e _ (
            emit-Logged TellsOnlyDrawer _ _ tt
              (broadcast-Logged TellsOnlyDrawer _ none (change (open_game e) s) (λ id _. tt) h)))
  ]
]

run_timer-IsDiscreet :
    (e : Env) (t : Option Timer) (s : Session) → IsDiscreet s → IsDiscreet (run_timer e t s)
unfolding run_timer
run_timer-IsDiscreet e none s h = h
run_timer-IsDiscreet e (some round_over) s h = end_round-IsDiscreet s h
run_timer-IsDiscreet e (some intermission_over) s h = resume-IsDiscreet e s h

-- If every message sent so far that starts a round carries its word to the drawer of that round
-- alone, so does every one after a game is started, and after the pending timer of the room has run,
-- which starts the later rounds.
pub start_game-fire_timer-IsDiscreet :
    (e : Env) (s : Session)
    → IsDiscreet s
    → IsDiscreet (start_game e s) × IsDiscreet (fire_timer e s)
unfolding fire_timer
start_game-fire_timer-IsDiscreet e s h =
    (start_game-IsDiscreet e s h, run_timer-IsDiscreet e s.room.round_timer s h)
