-- ===== src/GameSession/Score/Laws.antt =====
-- The bounds of the points for an answer.
use gacha_mind.Base.{ℕ, ◌≤◌, arith}
use gacha_mind.GameSession.Score.{answer_score}

-- For up to 60000 milliseconds left an answer earns between 10 and 100 points, and never fewer with
-- more time left.
pub answer_score_bounds :
    (a b : ℕ)
    → a ≤ b
    → b ≤ 60000
    → (10 ≤ answer_score a) × (answer_score a ≤ answer_score b) × (answer_score b ≤ 100)
unfolding answer_score
answer_score_bounds a b h k = ground arith
