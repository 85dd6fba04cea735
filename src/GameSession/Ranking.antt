-- ===== src/GameSession/Ranking.antt =====
-- apps/game-session/src/game.ts: `toResultPlayers`, the players by falling score with their ranks.
-- `Array.prototype.sort` is stable: a player is put behind those whose score is no lower.
pub mod Laws
use gacha_mind.Base.{
  ℕ, suc, ◌+◌, Bool, true, false, List, [], ◌∷◌, Option, none, some, leb, ltb, ◌==◌, if◌then◌else◌,
}
use gacha_mind.Shared.Account.{GameResultPlayer}
use gacha_mind.GameSession.Room.{Player}

unfoldable pub insert_sorted : Player → List Player → List Player
insert_sorted p [] = p ∷ []
insert_sorted p (q ∷ qs) = if ltb q.score p.score then p ∷ q ∷ qs else q ∷ insert_sorted p qs

-- `acc` is the sorted part, the list the part not yet read.
unfoldable pub sort_from : List Player → List Player → List Player
sort_from acc [] = acc
sort_from acc (p ∷ ps) = sort_from (insert_sorted p acc) ps

unfoldable pub sort_by_score : List Player → List Player
unfolding sort_from insert_sorted
sort_by_score ps = sort_from [] ps

unfoldable pub is_new_score : Option ℕ → ℕ → Bool
is_new_score none score = true
is_new_score (some previous) score = if previous == score then false else true

unfoldable pub ranked : Player → ℕ → GameResultPlayer
ranked p rank = record {
  player_id = p.id;
  user_id = p.user_id;
  nickname = p.nickname;
  score = p.score;
  rank = rank;
}

-- The callback of `sorted.map`, with the variables `rank` and `previousScore` that it shares.
unfoldable pub rank_from : (index rank : ℕ) → Option ℕ → List Player → List GameResultPlayer
rank_from index rank previous [] = []
rank_from index rank previous (p ∷ ps) =
    let rank' = if is_new_score previous p.score then index + 1 else rank in
    let previous' = if is_new_score previous p.score then some p.score else previous in
    ranked p rank' ∷ rank_from (index + 1) rank' previous' ps

unfoldable pub to_result_players : List Player → List GameResultPlayer
unfolding sort_by_score rank_from is_new_score ranked
to_result_players ps = rank_from 0 0 none (sort_by_score ps)
