-- ===== src/GameSession/Handlers/Draws.antt =====
-- What `handleDraw` may do to a room: nothing, or the addition of one stroke that it passes on.
use gacha_mind.Base.{ℕ, inl, inr, List, [], ◌∷◌, Option, none, some, or_else, Bool-cases}
use gacha_mind.Shared.Protocol.{Point, StrokeSegment, draw}
use gacha_mind.GameSession.Room.{Session, add_stroke, change, broadcast}
use gacha_mind.GameSession.Handlers.{
  RawStroke, sanitize, draws, pass_stroke, draw_points, handle_draw, after_draw,
}

module _ {ℓ} (P : Session → Type ℓ) (id : ℕ) (raw : RawStroke) (s : Session) (kept : P s)
    (added : (stroke : StrokeSegment)
      → P (broadcast (draw stroke) (some id) (change (add_stroke stroke) s))) where
  pass_stroke_cases : (stroke : Option StrokeSegment) → P (or_else (pass_stroke id stroke s) s)
  unfolding pass_stroke
  pass_stroke_cases none = kept
  pass_stroke_cases (some stroke) = added stroke

  draw_points_cases : (points : Option (List Point)) → P (or_else (draw_points id points raw s) s)
  unfolding draw_points
  draw_points_cases none = kept
  draw_points_cases (some []) = kept
  draw_points_cases (some (p ∷ ps)) = pass_stroke_cases (sanitize (p ∷ ps) raw)

  pub after_draw_cases : P (after_draw id raw s)
  unfolding after_draw handle_draw
  after_draw_cases = elim (Bool-cases (draws id s.room)) [
    | inl may ↦ rw may (draw_points_cases raw.points)
    | inr may_not ↦ rw may_not kept
  ]
