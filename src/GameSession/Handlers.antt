-- ===== src/GameSession/Handlers.antt =====
-- apps/game-session/src/index.ts: `handleChat`, `handleDraw` and `handleDrawClear`, on a room.
-- A value that a client sends is what `String(…)` or `Number(…)` makes of it, a number in thousandths;
-- either throws a TypeError at an object without a primitive form, as `{"toString":null}`.
pub mod Draws
use gacha_mind.Base.{
  ℕ, zero, suc, Bool, true, false, ◌&&◌, List, [], ◌∷◌, Option, none, some, Text, codes, trim, take,
  min, max, if◌then◌else◌, or_else,
}
use gacha_mind.Shared.Protocol.{Point, StrokeSegment, chat, draw, draw_clear}
use gacha_mind.GameSession.Room.{
  Player, Room, Session, find_player, is_drawer, add_stroke, clear_strokes, change, broadcast,
}
use gacha_mind.GameSession.Game.{is_playing}
use gacha_mind.GameSession.Guess.{handle_guess}

abbrev pub max_chat_length : ℕ
max_chat_length = 200

abbrev pub max_stroke_points : ℕ
max_stroke_points = 256

-- The value of `Number(stroke.width)`: not a number, negative, or a count of thousandths.
pub data JsNumber : Type 0 where
  nan negative : JsNumber
  thousandths : ℕ → JsNumber

-- The color of a stroke as it arrives: missing or null, what `String(…)` makes of it, or a value at
-- which that throws.
pub data RawColor : Type 0 where
  missing not_primitive : RawColor
  written : Text → RawColor

-- A stroke as it arrives. The points are `none` where they are no array, and the width where
-- `Number(…)` throws.
pub record RawStroke : Type 0 where
  pub points : Option (List Point)
  pub color : RawColor
  pub width : Option JsNumber

-- `Number(w) || 4`
or_four : JsNumber → JsNumber
or_four nan = thousandths 4000
or_four negative = negative
or_four (thousandths zero) = thousandths 4000
or_four (thousandths (suc n)) = thousandths (suc n)

-- `Math.min(Math.max(w, 1), 48)`
clamp : JsNumber → ℕ
clamp nan = 4000
clamp negative = 1000
clamp (thousandths n) = min (max n 1000) 48000

unfoldable pub clamp_width : JsNumber → ℕ
unfolding or_four clamp
clamp_width w = clamp (or_four w)

unfoldable pub default_color : Text
default_color = codes "#171717"

-- `String(stroke.color ?? "#171717")`, or `none` where it throws.
unfoldable pub color_text : RawColor → Option Text
color_text missing = some default_color
color_text not_primitive = none
color_text (written color) = some color

unfoldable pub sanitized : List Point → Option Text → Option JsNumber → Option StrokeSegment
unfolding clamp_width
sanitized points none width = none
sanitized points (some color) none = none
sanitized points (some color) (some width) = some (record {
  points = take max_stroke_points points;
  color = take 32 color;
  width = clamp_width width;
})

-- `none` where a conversion throws.
unfoldable pub sanitize : List Point → RawStroke → Option StrokeSegment
unfolding color_text sanitized
sanitize points raw = sanitized points (color_text raw.color) raw.width

-- The chat is handed on unless `handleGuess` holds it back.
unfoldable pub pass_on : ℕ → Player → Text → Session × Bool → Session
pass_on now p text (s, true) = s
pass_on now p text (s, false) = broadcast (chat p.id p.nickname text now) none s

unfoldable pub say : (Text → Text) → ℕ → Player → Text → Session → Session
unfolding pass_on
say lower now p [] s = s
say lower now p (c ∷ text) s = pass_on now p (c ∷ text) (handle_guess lower now p (c ∷ text) s)

unfoldable pub handle_chat_of : (Text → Text) → ℕ → Text → Option Player → Session → Session
handle_chat_of lower now text none s = s
handle_chat_of lower now text (some p) s = say lower now p (take max_chat_length (trim text)) s

unfoldable pub handle_chat : (Text → Text) → ℕ → ℕ → Text → Session → Session
unfolding handle_chat_of say
handle_chat lower now id text s = handle_chat_of lower now text (find_player id s.room.players) s

unfoldable pub draws : ℕ → Room → Bool
draws id r = is_playing r.phase && is_drawer r.drawer_id id

unfoldable pub pass_stroke : ℕ → Option StrokeSegment → Session → Option Session
pass_stroke id none s = none
pass_stroke id (some stroke) s =
    some (broadcast (draw stroke) (some id) (change (add_stroke stroke) s))

unfoldable pub draw_points : ℕ → Option (List Point) → RawStroke → Session → Option Session
unfolding pass_stroke
draw_points id none raw s = some s
draw_points id (some []) raw s = some s
draw_points id (some (p ∷ ps)) raw s = pass_stroke id (sanitize (p ∷ ps) raw) s

-- `none` where it throws, which is before it changes anything.
unfoldable pub handle_draw : ℕ → RawStroke → Session → Option Session
unfolding draws draw_points
handle_draw id raw s = if draws id s.room then draw_points id raw.points raw s else some s

-- The session when `handleDraw` has returned or thrown.
unfoldable pub after_draw : ℕ → RawStroke → Session → Session
after_draw id raw s = or_else (handle_draw id raw s) s

unfoldable pub handle_draw_clear : ℕ → Session → Session
unfolding draws
handle_draw_clear id s =
    if draws id s.room then broadcast draw_clear (some id) (change clear_strokes s) else s
