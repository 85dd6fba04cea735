-- ===== src/GameSession/Invariant/Keeps.antt =====
-- The course of a game never changes who is in a room, nor the room's code.
use gacha_mind.Base.{
  ℕ, ◌≡◌, refl, sym, subst, ◌∙◌, inl, inr, true, ◌||◌, ◌&&◌, [], ◌∷◌, Option, none, some, length,
  ◌==◌, ltb, Bool-cases, Text, text_eq,
}
use gacha_mind.GameSession.Room.{
  Player, Timer, round_over, intermission_over, Room, Session, ids, size, broadcast, notice, emit,
  is_drawer, unsolved_guesser_count,
}
use gacha_mind.GameSession.Game.{
  Env, is_playing, close_game, open_round, open_game, close_round, schedule, end_game, end_round,
  start_round, start_game, resume, run_timer, fire_timer,
}
use gacha_mind.GameSession.Guess.{
  award, is_guesser, announce_correct, end_if_all_solved, judge, judge_word, handle_guess,
  handle_player_left_during_game,
}
use gacha_mind.GameSession.Invariant.Members.{ids-reset_scores, ids-award}
use gacha_mind.GameSession.Invariant.Seats.{seats, seats-reset_scores, seats-award}
use gacha_mind.GameSession.Game.Outcomes.{end_game-room, end_round-room, start_round_cases}

pub record Keeps (r r' : Room) : Type 0 where
  pub id : r'.id ≡ r.id
  pub players : ids r'.players ≡ ids r.players
  pub seats : seats r'.players ≡ seats r.players

pub Keeps-refl : (r : Room) → Keeps r r
Keeps-refl r = record { id = refl; players = refl; seats = refl }

pub Keeps-trans : (a b c : Room) → Keeps a b → Keeps b c → Keeps a c
Keeps-trans a b c p q = record {
  id = q.id ∙ p.id;
  players = q.players ∙ p.players;
  seats = q.seats ∙ p.seats;
}

pub end_game-Keeps : (now : ℕ) (s : Session) → Keeps s.room (end_game now s).room
end_game-Keeps now s =
    subst (Keeps s.room) (sym (end_game-room now s)) (elim (Bool-cases (is_playing s.room.phase)) [
      | inl h ↦ rw h (unfold close_game in record { id = refl; players = refl; seats = refl })
      | inr h ↦ rw h (Keeps-refl s.room)
    ])

pub end_round-Keeps : (s : Session) → Keeps s.room (end_round s).room
end_round-Keeps s =
    subst (Keeps s.room) (sym (end_round-room s)) (elim (Bool-cases (is_playing s.room.phase)) [
      | inr h ↦ rw h (Keeps-refl s.room)
      | inl h ↦ elim (Bool-cases (size s.room == 0)) [
        | inl z ↦
            rw (h, z) (unfold close_round in record { id = refl; players = refl; seats = refl })
        | inr z ↦
            rw (h, z)
              (unfold close_round schedule in record { id = refl; players = refl; seats = refl })
      ]
    ])

pub start_round-Keeps :
    (e : Env) (s : Session) → is_playing s.room.phase ≡ true → Keeps s.room (start_round e s).room
unfolding close_game schedule open_round
start_round-Keeps e s h =
    start_round_cases (Keeps s.room) e s h (record { id = refl; players = refl; seats = refl })
      (λ id rest p q f. record { id = refl; players = refl; seats = refl })

pub start_game-Keeps : (e : Env) (s : Session) → Keeps s.room (start_game e s).room
unfolding start_game notice broadcast emit
start_game-Keeps e s = elim (Bool-cases (is_playing s.room.phase)) [
  | inl h ↦ rw h (Keeps-refl s.room)
  | inr idle ↦ elim (Bool-cases (ltb (size s.room) 2)) [
    | inl few ↦ rw (idle, few) (Keeps-refl s.room)
    | inr enough ↦
        rw (idle, enough)
          (Keeps-trans s.room (open_game e s.room) _
            (unfold open_game in
              record {
                id = refl;
                players = ids-reset_scores s.room.players;
                seats = seats-reset_scores s.room.players;
              })
            (start_round-Keeps e _ (unfold open_game in refl)))
  ]
]

pub resume-Keeps : (e : Env) (s : Session) → Keeps s.room (resume e s).room
unfolding resume
resume-Keeps e s = elim (Bool-cases (is_playing s.room.phase)) [
  | inr idle ↦ rw idle (Keeps-refl s.room)
  | inl h ↦ elim (Bool-cases (ltb (size s.room) 2 || length s.room.drawer_queue == 0)) [
    | inl stop ↦ rw (h, stop) (end_game-Keeps e.now s)
    | inr go ↦ rw (h, go) (start_round-Keeps e s h)
  ]
]

run_timer-Keeps : (e : Env) (t : Option Timer) (s : Session) → Keeps s.room (run_timer e t s).room
unfolding run_timer
run_timer-Keeps e none s = Keeps-refl s.room
run_timer-Keeps e (some round_over) s = end_round-Keeps s
run_timer-Keeps e (some intermission_over) s = resume-Keeps e s

pub fire_timer-Keeps : (e : Env) (s : Session) → Keeps s.room (fire_timer e s).room
unfolding fire_timer
fire_timer-Keeps e s = run_timer-Keeps e s.room.round_timer s

pub end_if_all_solved-Keeps : (s : Session) → Keeps s.room (end_if_all_solved s).room
unfolding end_if_all_solved
end_if_all_solved-Keeps s = elim (Bool-cases (unsolved_guesser_count s.room == 0)) [
  | inl all ↦ rw all (end_round-Keeps s)
  | inr some_left ↦ rw some_left (Keeps-refl s.room)
]

pub judge-Keeps :
    (now : ℕ) (p : Player) (guess answer : Text) (s : Session)
    → Keeps s.room (judge now p guess answer s).0.room
unfolding judge
judge-Keeps now p guess answer s =
    elim (Bool-cases (is_guesser p.id s.room && text_eq guess answer)) [
      | inr no_hit ↦ rw no_hit (Keeps-refl s.room)
      | inl hit ↦ rw hit (
          Keeps-trans s.room (award now p.id s.room) _
            (record {
              id = unfold award in refl;
              players = ids-award now p.id s.room;
              seats = seats-award now p.id s.room;
            })
            (unfold announce_correct broadcast in end_if_all_solved-Keeps _))
    ]

judge_word-Keeps :
    (lower : Text → Text) (now : ℕ) (p : Player) (text : Text) (w : Option Text) (s : Session)
    → Keeps s.room (judge_word lower now p text w s).0.room
unfolding judge_word
judge_word-Keeps lower now p text none s = Keeps-refl s.room
judge_word-Keeps lower now p text (some []) s = Keeps-refl s.room
judge_word-Keeps lower now p text (some (c ∷ w)) s = judge-Keeps now p _ _ s

pub handle_guess-Keeps :
    (lower : Text → Text) (now : ℕ) (p : Player) (text : Text) (s : Session)
    → Keeps s.room (handle_guess lower now p text s).0.room
unfolding handle_guess
handle_guess-Keeps lower now p text s = elim (Bool-cases (is_playing s.room.phase)) [
  | inr idle ↦ rw idle (Keeps-refl s.room)
  | inl h ↦ rw h (judge_word-Keeps lower now p text s.room.word s)
]

pub handle_player_left-Keeps :
    (now id : ℕ) (s : Session) → Keeps s.room (handle_player_left_during_game now id s).room
unfolding handle_player_left_during_game
handle_player_left-Keeps now id s = elim (Bool-cases (is_playing s.room.phase)) [
  | inr idle ↦ rw idle (Keeps-refl s.room)
  | inl h ↦ elim (Bool-cases (ltb (size s.room) 2)) [
    | inl few ↦ rw (h, few) (unfold notice broadcast in end_game-Keeps now _)
    | inr many ↦ elim (Bool-cases (is_drawer s.room.drawer_id id)) [
      | inl gone ↦ rw (h, many, gone) (unfold notice broadcast in end_round-Keeps _)
      | inr here ↦ rw (h, many, here) (end_if_all_solved-Keeps s)
    ]
  ]
]
