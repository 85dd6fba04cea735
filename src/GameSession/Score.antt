-- ===== src/GameSession/Score.antt =====
-- apps/game-session/src/game.ts: the points for a correct answer.
pub mod Laws
use gacha_mind.Base.{ℕ, ◌+◌, ◌*◌, ◌/◌, ◌≤◌, ◌≡◌, arith, refl, if◌then◌else◌, ◌==◌}

abbrev pub base_answer_score : ℕ
base_answer_score = 10

abbrev pub speed_bonus_score : ℕ
speed_bonus_score = 90

abbrev pub drawer_score_per_solver : ℕ
drawer_score_per_solver = 10

-- `Math.round(SPEED_BONUS_SCORE * (remaining / ROUND_DURATION_MS))` for a whole number of
-- milliseconds up to 60000. The quotient and the product are doubles; they round to the exact
-- half-up value at each of these inputs but 21000, where the product falls just short of 31.5.
unfoldable pub speed_bonus : ℕ → ℕ
speed_bonus remaining =
    if remaining == 21000 then 31 else (speed_bonus_score * remaining + 30000) / 60000

unfoldable pub answer_score : ℕ → ℕ
unfolding speed_bonus
answer_score remaining = base_answer_score + speed_bonus remaining
