-- ===== src/UserService/Leaderboard/Tests.antt =====
-- Three players, two of them level.
use gacha_mind.Base.{ℕ, refl, List, [], ◌∷◌, Text, codes, All, elem, text_eq}
use gacha_mind.UserService.History.{UserStats}
use gacha_mind.UserService.Leaderboard.{User, by_wins, find_user, top}
use gacha_mind.UserService.Leaderboard.Laws.{Agrees, top-rank_of}

abbrev user : ℕ → Text → User
user id username = record { id = id; username = username }

abbrev stats : ℕ → ℕ → ℕ → UserStats
stats id wins score = record {
  user_id = id;
  nickname = codes "player";
  games_played = 9;
  wins = wins;
  total_score = score;
  best_score = score;
  last_played_at = 1000;
}

abbrev users : List User
users = user 1 (codes "ada") ∷ user 2 (codes "bob") ∷ user 3 (codes "cy") ∷ []

abbrev rows : List UserStats
rows = stats 2 5 300 ∷ stats 1 7 200 ∷ stats 3 5 100 ∷ []

top-rank_of_example : All (Agrees by_wins users rows) (top by_wins 2 users rows)
unfolding find_user elem text_eq
top-rank_of_example =
    top-rank_of by_wins 2 users rows (((refl, (refl, tt))), ((refl, tt), (tt, tt)))
      (refl, (refl, (refl, tt))) (refl, (refl, (refl, tt)))
