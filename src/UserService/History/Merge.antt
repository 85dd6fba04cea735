-- ===== src/UserService/History/Merge.antt =====
-- Statistics put together: counts add, bests and dates take the larger.
use gacha_mind.Base.{ℕ, ◌+◌, ◌≡◌, refl, ap, Option, none, some, arith, max}
use gacha_mind.Shared.Account.{PlayerStats}
use gacha_mind.UserService.History.{empty_stats}

unfoldable pub later : Option ℕ → Option ℕ → Option ℕ
later none d = d
later (some c) none = some c
later (some c) (some d) = some (max c d)

unfoldable pub merge : PlayerStats → PlayerStats → PlayerStats
unfolding later
merge a b = record {
  games_played = a.games_played + b.games_played;
  wins = a.wins + b.wins;
  total_score = a.total_score + b.total_score;
  best_score = max a.best_score b.best_score;
  last_played_at = later a.last_played_at b.last_played_at;
}

pub stats_ext :
    {a b : PlayerStats}
    → a.games_played ≡ b.games_played
    → a.wins ≡ b.wins
    → a.total_score ≡ b.total_score
    → a.best_score ≡ b.best_score
    → a.last_played_at ≡ b.last_played_at
    → a ≡ b
stats_ext g w t s l = λ i. record {
  games_played = g i;
  wins = w i;
  total_score = t i;
  best_score = s i;
  last_played_at = l i;
}

later_assoc : (a b c : Option ℕ) → later (later a b) c ≡ later a (later b c)
unfolding later
later_assoc none b c = refl
later_assoc (some a) none c = refl
later_assoc (some a) (some b) none = refl
later_assoc (some a) (some b) (some c) = ap (some) (omega arith)

pub merge_assoc : (a b c : PlayerStats) → merge (merge a b) c ≡ merge a (merge b c)
unfolding merge
merge_assoc a b c =
    stats_ext (omega arith) (omega arith) (omega arith) (omega arith)
      (later_assoc a.last_played_at b.last_played_at c.last_played_at)

later-none : (a : Option ℕ) → later a none ≡ a
unfolding later
later-none none = refl
later-none (some a) = refl

pub merge-empty : (a : PlayerStats) → merge a empty_stats ≡ a
unfolding merge
merge-empty a =
    stats_ext (omega arith) (omega arith) (omega arith) (omega arith) (later-none a.last_played_at)

pub empty-merge : (a : PlayerStats) → merge empty_stats a ≡ a
unfolding merge later
empty-merge a = stats_ext (omega arith) (omega arith) (omega arith) (omega arith) refl
