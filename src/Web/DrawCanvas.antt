-- ===== src/Web/DrawCanvas.antt =====
-- apps/web/src/features/room/DrawCanvas.tsx: the pointer on the canvas. The refs of the component
-- are one record, with the segments that were handed to `onStroke`, in order; the property `canDraw`
-- is an argument of the handlers that read it, and a point comes normalised. Painting is left out.
pub mod Laws
pub mod Stroke
use gacha_mind.Base.{
  ℕ, suc, Bool, true, false, ◌&&◌, ◌||◌, not, List, [], ◌∷◌, ◌++◌, Text, length, leb, ◌==◌,
  if◌then◌else◌,
}
use gacha_mind.Shared.Protocol.{Point, StrokeSegment}

pub record Canvas : Type 0 where
  pub buffer : List Point
  pub drawing : Bool
  pub flushed : Bool
  pub color : Text
  pub width : ℕ
  pub sent : List StrokeSegment

-- `emitSegment`
unfoldable pub emit_segment : List Point → Canvas → Canvas
emit_segment points c = record c {
  sent = c.sent ++ record { points = points; color = c.color; width = c.width } ∷ [];
  flushed = true;
}

-- The last point of a list, given with its first.
unfoldable pub final : Point → List Point → Point
final p [] = p
final p (q ∷ qs) = final q qs

unfoldable pub flush_buffer : List Point → Canvas → Canvas
unfolding emit_segment final
flush_buffer [] c = c
flush_buffer (p ∷ []) c = c
flush_buffer (p ∷ q ∷ qs) c = emit_segment (p ∷ q ∷ qs) (record c { buffer = final q qs ∷ [] })

-- `flush`, which each frame calls while the player may draw.
unfoldable pub flush : Canvas → Canvas
unfolding flush_buffer
flush c = flush_buffer c.buffer c

unfoldable pub handle_pointer_down : Bool → Point → Canvas → Canvas
handle_pointer_down can_draw p c =
    if can_draw then record c { drawing = true; flushed = false; buffer = p ∷ [] } else c

unfoldable pub handle_pointer_move : Bool → Point → Canvas → Canvas
handle_pointer_move can_draw p c =
    if can_draw && c.drawing then record c { buffer = c.buffer ++ p ∷ [] } else c

unfoldable pub handle_pointer_up : Canvas → Canvas
unfolding emit_segment
handle_pointer_up c =
    let released = record c { drawing = false; buffer = [] } in
    if c.drawing
    then if leb 2 (length c.buffer) || (length c.buffer == 1 && not c.flushed)
      then emit_segment c.buffer released
      else released
    else c

unfoldable pub handle_pointer_cancel : Canvas → Canvas
handle_pointer_cancel c = record c { drawing = false; buffer = [] }

-- The effect when the player may no longer draw.
unfoldable pub lose_permission : Canvas → Canvas
lose_permission c = record c { drawing = false; buffer = [] }

-- `setColor` and `setWidth`, with the effect that copies them.
unfoldable pub choose_style : Text → ℕ → Canvas → Canvas
choose_style color width c = record c { color = color; width = width }
