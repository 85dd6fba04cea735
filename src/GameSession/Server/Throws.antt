-- ===== src/GameSession/Server/Throws.antt =====
-- The messages that make `handleMessage` throw a TypeError, outside its `try`.
use gacha_mind.Base.{
  ℕ, ◌≡◌, refl, inl, inr, Bool, true, false, ◌||◌, ◌&&◌, Option, none, some, is_some, Option-cases,
  Text, not, List, [], ◌∷◌, sym, ◌∙◌, Bool-cases,
}
use gacha_mind.GameSession.Room.{Room, find_player}
use gacha_mind.GameSession.Room.{Session}
use gacha_mind.Shared.Protocol.{Point}
use gacha_mind.GameSession.Handlers.{
  RawColor, missing, not_primitive, written, RawStroke, JsNumber, color_text, sanitized, sanitize,
  draws, pass_stroke, draw_points, handle_draw,
}
use gacha_mind.GameSession.Rooms.{Server}
use gacha_mind.GameSession.Game.{Env}
use gacha_mind.GameSession.Server.Dispatch.{
  Incoming, unparsable, null_value, other, chats, draws_stroke, draws_clear, starts_game,
  chat_or_throw, draw_or_throw, handle_in_room, place, dispatch_message, handle_message,
}
use gacha_mind.GameSession.Server.{Connection, Outcome, went_on, awaits_assignment, thrown}

unfoldable pub is_thrown : Outcome → Bool
is_thrown (went_on c s) = false
is_thrown (awaits_assignment id c s) = false
is_thrown thrown = true

unfoldable pub is_null : Incoming → Bool
is_null null_value = true
is_null unparsable = false
is_null other = false
is_null (chats text) = false
is_null (draws_stroke raw) = false
is_null draws_clear = false
is_null starts_game = false

-- A chat message whose text is missing or is no string.
unfoldable pub is_chat_without_text : Incoming → Bool
is_chat_without_text (chats none) = true
is_chat_without_text (chats (some text)) = false
is_chat_without_text null_value = false
is_chat_without_text unparsable = false
is_chat_without_text other = false
is_chat_without_text (draws_stroke raw) = false
is_chat_without_text draws_clear = false
is_chat_without_text starts_game = false

and_true : (a : Bool) → (a && true) ≡ a
and_true true = refl
and_true false = refl

and_false : (a : Bool) → (a && false) ≡ false
and_false true = refl
and_false false = refl

or_false : (a : Bool) → (a || false) ≡ a
or_false true = refl
or_false false = refl

is_unwritable : RawColor → Bool
is_unwritable missing = false
is_unwritable not_primitive = true
is_unwritable (written color) = false

has_points : Option (List Point) → Bool
has_points none = false
has_points (some []) = false
has_points (some (p ∷ ps)) = true

-- A stroke that has points, and a color or a width without a primitive form.
unfoldable pub is_stroke_unreadable : Incoming → Bool
unfolding is_unwritable has_points
is_stroke_unreadable (draws_stroke raw) =
    has_points raw.points && (is_unwritable raw.color || not (is_some raw.width))
is_stroke_unreadable (chats text) = false
is_stroke_unreadable null_value = false
is_stroke_unreadable unparsable = false
is_stroke_unreadable other = false
is_stroke_unreadable draws_clear = false
is_stroke_unreadable starts_game = false

-- Whether the connection stands for a player that its room has.
unfoldable pub is_player : Option (ℕ × Room) → Bool
is_player none = false
is_player (some (id, r)) = is_some (find_player id r.players)

-- Whether that player draws in a running round.
unfoldable pub is_drawing : Option (ℕ × Room) → Bool
is_drawing none = false
is_drawing (some (id, r)) = draws id r

chat_or_throw-is_thrown :
    (lower : Text → Text) (e : Env) (id : ℕ) (text : Option Text) (c : Connection) (r : Room)
    (s : Server)
    → is_thrown (chat_or_throw lower e id text (find_player id r.players) c r s)
      ≡ is_chat_without_text (chats text) && is_some (find_player id r.players)
unfolding chat_or_throw is_thrown is_chat_without_text
chat_or_throw-is_thrown lower e id none c r s = elim (Option-cases (find_player id r.players)) [
  | inl gone ↦ rw gone refl
  | inr (p, found) ↦ rw found refl
]
chat_or_throw-is_thrown lower e id (some text) c r s =
    elim (Option-cases (find_player id r.players)) [
      | inl gone ↦ rw gone refl
      | inr (p, found) ↦ rw found refl
    ]

pass_stroke-is_thrown :
    (id : ℕ) (points : List Point) (color : RawColor) (width : Option JsNumber) (c : Connection)
    (r : Room) (s : Server) (before : Session)
    → is_thrown
        (draw_or_throw c (pass_stroke id (sanitized points (color_text color) width) before) r s)
      ≡ is_unwritable color || not (is_some width)
unfolding is_thrown draw_or_throw pass_stroke sanitized color_text is_unwritable
pass_stroke-is_thrown id points missing none c r s before = refl
pass_stroke-is_thrown id points missing (some w) c r s before = refl
pass_stroke-is_thrown id points not_primitive width c r s before = refl
pass_stroke-is_thrown id points (written t) none c r s before = refl
pass_stroke-is_thrown id points (written t) (some w) c r s before = refl

draw_points-is_thrown :
    (id : ℕ) (points : Option (List Point)) (raw : RawStroke) (c : Connection) (r : Room)
    (s : Server) (before : Session)
    → is_thrown (draw_or_throw c (draw_points id points raw before) r s)
      ≡ has_points points && (is_unwritable raw.color || not (is_some raw.width))
unfolding is_thrown draw_or_throw draw_points sanitize has_points
draw_points-is_thrown id none raw c r s before = refl
draw_points-is_thrown id (some []) raw c r s before = refl
draw_points-is_thrown id (some (p ∷ ps)) raw c r s before =
    pass_stroke-is_thrown id (p ∷ ps) raw.color raw.width c r s before

draw_or_throw-is_thrown :
    (id : ℕ) (raw : RawStroke) (c : Connection) (r : Room) (s : Server)
    → is_thrown (draw_or_throw c (handle_draw id raw (record { room = r; log = s.log })) r s)
      ≡ is_stroke_unreadable (draws_stroke raw) && draws id r
unfolding handle_draw is_stroke_unreadable is_thrown draw_or_throw
draw_or_throw-is_thrown id raw c r s = elim (Bool-cases (draws id r)) [
  | inl may ↦ rw may (draw_points-is_thrown id raw.points raw c r s _ ∙ sym (and_true _))
  | inr may_not ↦ rw (may_not, and_false (is_stroke_unreadable (draws_stroke raw))) refl
]

dispatch_message-is_thrown :
    (lower : Text → Text) (e : Env) (m : Incoming) (at : Option (ℕ × Room)) (c : Connection)
    (s : Server)
    → is_thrown (dispatch_message lower e m at c s)
      ≡ is_null m
        || ((is_chat_without_text m && is_player at) || (is_stroke_unreadable m && is_drawing at))
unfolding dispatch_message handle_in_room is_thrown is_null is_chat_without_text is_player
    is_stroke_unreadable is_drawing
dispatch_message-is_thrown lower e null_value at c s = refl
dispatch_message-is_thrown lower e unparsable none c s = refl
dispatch_message-is_thrown lower e unparsable (some (id, r)) c s = refl
dispatch_message-is_thrown lower e other none c s = refl
dispatch_message-is_thrown lower e other (some (id, r)) c s = refl
dispatch_message-is_thrown lower e (chats none) none c s = refl
dispatch_message-is_thrown lower e (chats (some text)) none c s = refl
dispatch_message-is_thrown lower e (chats none) (some (id, r)) c s =
    chat_or_throw-is_thrown lower e id none c r s ∙ sym (or_false _)
dispatch_message-is_thrown lower e (chats (some text)) (some (id, r)) c s =
    chat_or_throw-is_thrown lower e id (some text) c r s ∙ sym (or_false _)
dispatch_message-is_thrown lower e (draws_stroke raw) none c s = sym (and_false _)
dispatch_message-is_thrown lower e (draws_stroke raw) (some (id, r)) c s =
    draw_or_throw-is_thrown id raw c r s
dispatch_message-is_thrown lower e draws_clear none c s = refl
dispatch_message-is_thrown lower e draws_clear (some (id, r)) c s = refl
dispatch_message-is_thrown lower e starts_game none c s = refl
dispatch_message-is_thrown lower e starts_game (some (id, r)) c s = refl

-- Among the messages that are no join, those whose handling ends in a TypeError are JSON's null, from
-- anybody; a chat message without a text, from a player of a room; and from the drawer of a running
-- round a stroke with points whose color or width has no primitive form; and no others.
pub handle_message-is_thrown :
    (lower : Text → Text) (e : Env) (m : Incoming) (c : Connection) (s : Server)
    → is_thrown (handle_message lower e m c s)
      ≡ is_null m
        || ((is_chat_without_text m && is_player (place c s))
            || (is_stroke_unreadable m && is_drawing (place c s)))
unfolding handle_message
handle_message-is_thrown lower e m c s = dispatch_message-is_thrown lower e m (place c s) c s
