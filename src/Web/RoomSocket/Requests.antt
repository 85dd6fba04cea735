-- ===== src/Web/RoomSocket/Requests.antt =====
-- What the hook of a room (apps/web/src/features/room/useRoomSocket.ts) opens and sends, and the
-- ends of its connection.
use gacha_mind.Base.{
  ℕ, Bool, true, false, List, [], ◌∷◌, ◌++◌, Option, none, some, Text, codes, ◌==◌, if◌then◌else◌,
}
use gacha_mind.Shared.Protocol.{playing, PlayerSummary, StrokeSegment}
use gacha_mind.Web.RoomSocket.{Client, emit_draw, connected, disconnected, not_found, clear_event}

-- `onopen` and `onclose`.
unfoldable pub on_open : Client → Client
on_open c = record c { status = connected }

unfoldable pub on_close : Client → Client
on_close c = record c { status = disconnected }

-- What a browser sends after its join.
pub data ClientToServerMessage : Type 0 where
  chat_request : Text → ClientToServerMessage
  draw_request : StrokeSegment → ClientToServerMessage
  draw_clear_request start_game_request : ClientToServerMessage

-- `send`: nothing leaves through a socket that is not open.
unfoldable pub send_request : Bool → ClientToServerMessage → List ClientToServerMessage
send_request is_open m = if is_open then m ∷ [] else []

unfoldable pub send_stroke : Bool → StrokeSegment → Client → Client × List ClientToServerMessage
unfolding send_request
send_stroke is_open stroke c =
    (record c { strokes = c.strokes ++ stroke ∷ [] }, send_request is_open (draw_request stroke))

unfoldable pub send_clear : Bool → Client → Client × List ClientToServerMessage
unfolding send_request emit_draw
send_clear is_open c =
    (emit_draw clear_event (record c { strokes = [] }), send_request is_open draw_clear_request)

-- `Boolean(me && game.drawerId === me.id)`
unfoldable pub draws_here : Option PlayerSummary → Option ℕ → Bool
draws_here none drawer = false
draws_here (some p) none = false
draws_here (some p) (some d) = d == p.id

-- The prop `canDraw` of the canvas (room/[roomId]/page.tsx).
unfoldable pub can_draw : Client → Bool
unfolding draws_here
can_draw c = elim c.game.phase [ playing ↦ draws_here c.me c.game.drawer_id | _ ↦ false ]

-- `connect` after its request for the room's process: `none` is the answer 404. The address that the
-- browser opens, if any, and the client.
unfoldable pub socket_url : Bool → (host hostname shard : Text) → Text
socket_url true host hostname shard = codes "wss://" ++ host ++ codes "/gs/" ++ shard
socket_url false host hostname shard = codes "ws://" ++ hostname ++ codes ":" ++ shard

unfoldable pub connect :
    (cancelled secure : Bool) (host hostname : Text) → Option Text → Client → Client × Option Text
unfolding socket_url
connect cancelled secure host hostname none c =
    (if cancelled then c else record c { status = not_found }, none)
connect cancelled secure host hostname (some shard) c =
    (c, if cancelled then none else some (socket_url secure host hostname shard))
