-- ===== src/UserService/Leaderboard.antt =====
-- apps/user/src/history/leaderboard.service.ts: the list of the best players and the rank of one.
-- `users` has one row for each identifier and for each username.
pub mod Laws
mod Tests
use gacha_mind.Base.{
  ℕ, suc, ◌+◌, Bool, true, false, ◌&&◌, ◌||◌, List, [], ◌∷◌, map, Option, none, some, Text, text_eq,
  take, min, max, ltb, ◌==◌, if◌then◌else◌, sort_by,
}
use gacha_mind.UserService.History.{UserStats, find_stats}

abbrev pub leaderboard_limit : ℕ
leaderboard_limit = 100

pub data LeaderboardSort : Type 0 where
  by_total_score by_wins by_best_score : LeaderboardSort

-- A row of `users`, as far as the leaderboard reads it.
pub record User : Type 0 where
  pub id : ℕ
  pub username : Text

pub record LeaderboardEntry : Type 0 where
  pub rank : ℕ
  pub username : Text
  pub nickname : Text
  pub games_played : ℕ
  pub wins : ℕ
  pub total_score : ℕ
  pub best_score : ℕ

-- `SORT_COLUMN`
unfoldable pub column : LeaderboardSort → UserStats → ℕ
column by_total_score s = s.total_score
column by_wins s = s.wins
column by_best_score s = s.best_score

unfoldable pub to_entry : ℕ → User → UserStats → LeaderboardEntry
to_entry rank u s = record {
  rank = rank;
  username = u.username;
  nickname = s.nickname;
  games_played = s.games_played;
  wins = s.wins;
  total_score = s.total_score;
  best_score = s.best_score;
}

unfoldable pub find_user : ℕ → List User → Option User
find_user id [] = none
find_user id (u ∷ us) = if u.id == id then some u else find_user id us

unfoldable pub find_username : Text → List User → Option User
find_username name [] = none
find_username name (u ∷ us) = if text_eq u.username name then some u else find_username name us

unfoldable pub join_row :
    UserStats → Option User → List (User × UserStats) → List (User × UserStats)
join_row s none rest = rest
join_row s (some u) rest = (u, s) ∷ rest

-- `FROM user_stats s JOIN users u ON u.id = s.user_id`
unfoldable pub join : List User → List UserStats → List (User × UserStats)
unfolding join_row
join users [] = []
join users (s ∷ ss) = join_row s (find_user s.user_id users) (join users ss)

-- `count(*)` of the rows with more.
unfoldable pub count_above : LeaderboardSort → ℕ → List UserStats → ℕ
count_above sort n [] = 0
count_above sort n (s ∷ ss) = (if ltb n (column sort s) then 1 else 0) + count_above sort n ss

-- `ORDER BY s.<column> DESC, s.user_id`
unfoldable pub listed_before : LeaderboardSort → User × UserStats → User × UserStats → Bool
listed_before sort a b =
    ltb (column sort b.1) (column sort a.1)
    || (column sort a.1 == column sort b.1 && ltb a.1.user_id b.1.user_id)

-- `RANK()` is one more than the number of rows of the join that come before, ties apart.
unfoldable pub rank_in : LeaderboardSort → List (User × UserStats) → UserStats → ℕ
rank_in sort rows s = count_above sort (column sort s) (map (λ r. r.1) rows) + 1

unfoldable pub entry_in :
    LeaderboardSort → List (User × UserStats) → User × UserStats → LeaderboardEntry
unfolding rank_in
entry_in sort rows r = to_entry (rank_in sort rows r.1) r.0 r.1

unfoldable pub top :
    LeaderboardSort → (limit : ℕ) → List User → List UserStats → List LeaderboardEntry
unfolding entry_in listed_before
top sort limit users stats =
    take (min (max limit 1) leaderboard_limit)
      (map (entry_in sort (join users stats)) (sort_by (listed_before sort) (join users stats)))

-- `undefined`, `null`, or the entry.
pub data RankReply : Type 0 where
  no_account no_games : RankReply
  ranked_as : LeaderboardEntry → RankReply

unfoldable pub rank_row : LeaderboardSort → List UserStats → User → Option UserStats → RankReply
rank_row sort stats u none = no_games
rank_row sort stats u (some s) =
    ranked_as (to_entry (count_above sort (column sort s) stats + 1) u s)

unfoldable pub rank_user : LeaderboardSort → List UserStats → Option User → RankReply
unfolding rank_row
rank_user sort stats none = no_account
rank_user sort stats (some u) = rank_row sort stats u (find_stats u.id stats)

unfoldable pub rank_of : Text → LeaderboardSort → List User → List UserStats → RankReply
unfolding rank_user
rank_of username sort users stats = rank_user sort stats (find_username username users)
