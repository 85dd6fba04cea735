-- ===== src/GameSession/Guess/Scoring.antt =====
-- What a correct answer changes.
use gacha_mind.Base.{
  ℕ, ◌+◌, ◌≡◌, refl, sym, ◌∙◌, ap, inl, inr, true, false, ◌&&◌, List, [], ◌∷◌, Option, none, some,
  arith, Text, text_eq, text_eq_iff, or_else, ◌==◌, if◌then◌else◌, Bool-cases,
}
use gacha_mind.Shared.Answer.{normalize_answer}
use gacha_mind.GameSession.Room.{
  Player, Room, Session, find_player, remaining_ms, is_drawer, unsolved_guesser_count, change,
  broadcast,
}
use gacha_mind.GameSession.Score.{answer_score}
use gacha_mind.GameSession.Game.{is_playing, add_score, end_round, close_round, schedule}
use gacha_mind.GameSession.Game.Outcomes.{end_round-room}
use gacha_mind.GameSession.Guess.{
  pay_drawer, award, is_guesser, announce_correct, end_if_all_solved, judge, judge_word,
  handle_guess,
}

abbrev pub bump : ℕ → Option Player → Option Player
bump n none = none
bump n (some p) = some (record p { score = p.score + n })

bump-zero : (o : Option Player) → bump 0 o ≡ o
bump-zero none = refl
bump-zero (some p) = ap (λ n. some (record p { score = n })) (omega arith)

find_player-add_score :
    (id n j : ℕ) (ps : List Player)
    → find_player j (add_score id n ps) ≡ bump (if id == j then n else 0) (find_player j ps)
unfolding find_player add_score
find_player-add_score id n j [] = refl
find_player-add_score id n j (p ∷ ps) = elim (Bool-cases (p.id == id)) [
  | inl e ↦ elim (Bool-cases (p.id == j)) [
    | inl f ↦ let same : id == j ≡ true = ground arith in rw (e, f, same) refl
    | inr f ↦
        let other : id == j ≡ false = ground arith in
        rw (e, f, other) (sym (bump-zero (find_player j ps)))
  ]
  | inr e ↦ elim (Bool-cases (p.id == j)) [
    | inl f ↦
        let other : id == j ≡ false = ground arith in rw (e, f, other) (sym (bump-zero (some p)))
    | inr f ↦ rw (e, f) (find_player-add_score id n j ps)
  ]
]

find_player-pay_drawer :
    (d : Option ℕ) (j : ℕ) (ps : List Player)
    → find_player j (pay_drawer d ps) ≡ bump (if is_drawer d j then 10 else 0) (find_player j ps)
unfolding pay_drawer is_drawer
find_player-pay_drawer none j ps = sym (bump-zero (find_player j ps))
find_player-pay_drawer (some d) j ps = find_player-add_score d 10 j ps

bump-bump : (m n : ℕ) (o : Option Player) → bump n (bump m o) ≡ bump (m + n) o
bump-bump m n none = refl
bump-bump m n (some p) = ap (λ k. some (record p { score = k })) (omega arith)

award-scores :
    (now id j : ℕ) (r : Room)
    → find_player j (award now id r).players
      ≡ bump
          ((if id == j then answer_score (or_else (remaining_ms now r) 0) else 0)
            + (if is_drawer r.drawer_id j then 10 else 0))
          (find_player j r.players)
unfolding award
award-scores now id j r =
    find_player-pay_drawer r.drawer_id j _
    ∙ ap (bump _)
        (find_player-add_score id (answer_score (or_else (remaining_ms now r) 0)) j r.players)
    ∙ bump-bump _ _ (find_player j r.players)

end_round-players : (s : Session) → (end_round s).room.players ≡ s.room.players
unfolding close_round schedule
end_round-players s = ap (λ r. r.players) (end_round-room s) ∙ ground arith

end_if_all_solved-players : (s : Session) → (end_if_all_solved s).room.players ≡ s.room.players
unfolding end_if_all_solved
end_if_all_solved-players s = elim (Bool-cases (unsolved_guesser_count s.room == 0)) [
  | inl all ↦ rw all (end_round-players s)
  | inr some_left ↦ rw some_left
]

-- While a word is shown, a guess is judged against it.
pub handle_guess-judge :
    (lower : Text → Text) (now : ℕ) (p : Player) (text : Text) (c : ℕ) (w : Text) (s : Session)
    → is_playing s.room.phase ≡ true
    → s.room.word ≡ some (c ∷ w)
    → handle_guess lower now p text s
      ≡ judge now p (normalize_answer lower text) (normalize_answer lower (c ∷ w)) s
unfolding handle_guess judge_word
handle_guess-judge lower now p text c w s h e = rw h (ap (λ o. judge_word lower now p text o s) e)

judge_hit :
    (now : ℕ) (p : Player) (guess answer : Text) (s : Session)
    → is_guesser p.id s.room ≡ true
    → guess ≡ answer
    → judge now p guess answer s
      ≡ (end_if_all_solved (announce_correct p (change (award now p.id) s)), true)
unfolding judge
judge_hit now p guess answer s g same =
    let hit : is_guesser p.id s.room && text_eq guess answer ≡ true =
      ground (arith, text_eq_iff guess answer) in
    rw hit refl

hit-players :
    (now j : ℕ) (p : Player) (s : Session)
    → find_player j
        (end_if_all_solved (announce_correct p (change (award now p.id) s))).room.players
      ≡ find_player j (award now p.id s.room).players
unfolding announce_correct broadcast
hit-players now j p s = ap (find_player j) (end_if_all_solved-players _)

-- In a game, while a word that is not empty is shown, a guess that in normal form is the word's, of
-- one who is neither the drawer nor among those who have solved it, is held back from the chat; and
-- the players are then found as before but for their scores: the guesser has gained the score of
-- the time that is left, and the drawer, if there is one and it is still here, ten points.
pub handle_guess-scores :
    (lower : Text → Text) (now : ℕ) (p : Player) (text : Text) (c : ℕ) (w : Text) (s : Session)
    → is_playing s.room.phase ≡ true
    → s.room.word ≡ some (c ∷ w)
    → is_guesser p.id s.room ≡ true
    → normalize_answer lower text ≡ normalize_answer lower (c ∷ w)
    → ((handle_guess lower now p text s).1 ≡ true)
      × ((j : ℕ)
          → find_player j (handle_guess lower now p text s).0.room.players
            ≡ bump
                ((if p.id == j then answer_score (or_else (remaining_ms now s.room) 0) else 0)
                  + (if is_drawer s.room.drawer_id j then 10 else 0))
                (find_player j s.room.players))
handle_guess-scores lower now p text c w s h e g same =
    let hit = handle_guess-judge lower now p text c w s h e ∙ judge_hit now p _ _ s g same in
    (
      ap (λ r. r.1) hit,
      λ j.
          ap (λ r. find_player j r.0.room.players) hit
          ∙ hit-players now j p s
          ∙ award-scores now p.id j s.room,
    )
