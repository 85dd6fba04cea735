-- ===== src/GameSession/Guess/Pause.antt =====
-- A departure in the pause between two rounds.
use gacha_mind.Base.{ℕ, ◌≡◌, refl, ap, or_else, false, [], none, arith, ◌==◌, ltb}
use gacha_mind.Shared.Protocol.{round_ended}
use gacha_mind.GameSession.Room.{
  Session, intermission_over, size, is_drawer, summaries, unsolved_guesser_count, change, broadcast,
}
use gacha_mind.GameSession.Game.{close_round, schedule, end_round, rest_round, announce_answer}
use gacha_mind.GameSession.Guess.{end_if_all_solved, handle_player_left_during_game}
use gacha_mind.GameSession.Invariant.{IsResting}

-- When somebody has left during the pause after a round, at least two are left and none of these is
-- counted as still to guess, the round ends a second time: an empty word is announced as its
-- answer, and the pause begins anew.
pub handle_player_left-ends_again :
    (now left : ℕ) (s : Session)
    → IsResting s.room
    → unsolved_guesser_count s.room ≡ 0
    → handle_player_left_during_game now left s
      ≡ change
          (schedule intermission_over)
          (broadcast (round_ended s.room.round [] (summaries s.room)) none (change close_round s))
unfolding handle_player_left_during_game end_if_all_solved end_round rest_round announce_answer
    is_drawer close_round broadcast summaries
handle_player_left-ends_again now left s d all =
    let few : ltb (size s.room) 2 ≡ false = ground (arith, d.enough) in
    let some_one : size s.room == 0 ≡ false = ground (arith, d.enough) in
    let no_drawer : is_drawer s.room.drawer_id left ≡ false = rw d.drawer refl in
    let no_word : or_else s.room.word [] ≡ [] = ap (λ w. or_else w []) d.word in
    rw (d.phase, few, no_drawer, all, no_word, some_one) refl
