-- ===== src/Web/Drawing.antt =====
-- What the drawer's browser sends (apps/web/src/features/room/DrawCanvas.tsx and useRoomSocket.ts),
-- as the game session takes it. A width is a count of thousandths of a pixel.
use mathlib.Core.List.Memᴰ
use gacha_mind.Base.{
  ℕ, ◌≤◌, ◌≡◌, refl, sym, subst, inl, inr, true, List, [], ◌∷◌, ◌++◌, some, Text, codes, All, Memᴰ,
  Bool-cases, length, take, leb, take-short, take-snoc_of_full, take-snoc_of_free, arith,
}
use gacha_mind.Shared.Protocol.{Point, StrokeSegment, draw}
use gacha_mind.GameSession.Room.{Session, change, add_stroke, clear_strokes, broadcast}
use gacha_mind.GameSession.Game.{Env, start_game}
use gacha_mind.GameSession.Handlers.{
  RawStroke, written, color_text, sanitized, pass_stroke, after_draw, thousandths, clamp_width,
  sanitize, draws, draw_points, handle_draw, handle_draw_clear, handle_chat,
}
use gacha_mind.Web.RoomSocket.Requests.{
  ClientToServerMessage, chat_request, draw_request, draw_clear_request, start_game_request,
  send_request, send_stroke, send_clear,
}
use gacha_mind.Web.RoomSocket.{Client, emit_draw}

-- `COLORS` and `WIDTHS`
abbrev pub colors : List Text
colors =
    codes "#171717"
    ∷ codes "#ef4444"
    ∷ codes "#f59e0b"
    ∷ codes "#10b981"
    ∷ codes "#3b82f6"
    ∷ codes "#8b5cf6"
    ∷ codes "#ffffff"
    ∷ []

abbrev pub widths : List ℕ
widths = 3000 ∷ 8000 ∷ 18000 ∷ []

-- A segment drawn with the tools of the canvas, of no more points than the game session keeps.
pub record IsDrawn (stroke : StrokeSegment) : Type 0 where
  pub color : Memᴰ stroke.color colors
  pub width : Memᴰ stroke.width widths
  pub some_points : 1 ≤ length stroke.points
  pub few_points : length stroke.points ≤ 256

abbrev pub raw_of : StrokeSegment → RawStroke
raw_of stroke = record {
  points = some stroke.points;
  color = written stroke.color;
  width = some (thousandths stroke.width);
}

All-at {ℓ} : {A : Type ℓ} (P : A → Type 0) (a : A) (xs : List A) → All P xs → Memᴰ a xs → P a
All-at P a [] h m = absurd (Memᴰ.not-nil m)
All-at P a (x ∷ xs) h m = elim (Memᴰ.cases_cons m) [
  | inl same ↦ subst P (sym same) h.0
  | inr later ↦ All-at P a xs h.1 later
]

sanitize-IsDrawn :
    (stroke : StrokeSegment) → IsDrawn stroke → sanitize stroke.points (raw_of stroke) ≡ some stroke
unfolding sanitize sanitized color_text clamp_width
sanitize-IsDrawn stroke d =
    rw
      (
        take-short 256 stroke.points d.few_points,
        All-at (λ c. take 32 c ≡ c) stroke.color colors
            (refl, (refl, (refl, (refl, (refl, (refl, (refl, tt))))))) d.color,
        All-at (λ w. clamp_width (thousandths w) ≡ w) stroke.width widths (refl, (refl, (refl, tt)))
            d.width,
      )
      refl

-- What the game session does with the requests of the player `x` of a room.
unfoldable pub take_requests :
    (Text → Text) → Env → ℕ → List ClientToServerMessage → Session → Session
take_requests lower e x [] s = s
take_requests lower e x (chat_request text ∷ ms) s =
    take_requests lower e x ms (handle_chat lower e.now x text s)
take_requests lower e x (draw_request stroke ∷ ms) s =
    take_requests lower e x ms (after_draw x (raw_of stroke) s)
take_requests lower e x (draw_clear_request ∷ ms) s =
    take_requests lower e x ms (handle_draw_clear x s)
take_requests lower e x (start_game_request ∷ ms) s = take_requests lower e x ms (start_game e s)

-- What the drawer does on the canvas.
pub data Sketch : Type 0 where
  lines : StrokeSegment → Sketch
  wipes : Sketch

abbrev pub MayBe : Sketch → Type 0
MayBe (lines stroke) = IsDrawn stroke
MayBe wipes = Unit

-- The requests of a step reach the game session before the next step.
unfoldable pub on_sketches :
    (Text → Text) → Env → ℕ → List Sketch → Client → Session → Client × Session
on_sketches lower e x [] c s = (c, s)
on_sketches lower e x (lines stroke ∷ ks) c s =
    let out = send_stroke true stroke c in
    on_sketches lower e x ks out.0 (take_requests lower e x out.1 s)
on_sketches lower e x (wipes ∷ ks) c s =
    let out = send_clear true c in on_sketches lower e x ks out.0 (take_requests lower e x out.1 s)

-- The browser and the room while `x` draws.
record IsDrawing (x : ℕ) (c : Client) (s : Session) : Type 0 where
  may : draws x s.room ≡ true
  copies : take 3000 c.strokes ≡ s.room.strokes

module _ (lower : Text → Text) (e : Env) (x : ℕ) where
  add_stroke-IsDrawing :
      (stroke : StrokeSegment) (c : Client) (s : Session)
      → IsDrawing x c s
      → IsDrawing x
          (record c { strokes = c.strokes ++ stroke ∷ [] })
          (broadcast (draw stroke) (some x) (change (add_stroke stroke) s))
  unfolding add_stroke broadcast draws
  add_stroke-IsDrawing stroke c s d = elim (Bool-cases (leb 3000 (length s.room.strokes))) [
    | inl full ↦
        rw full (record { may = d.may; copies = take-snoc_of_full 3000 _ _ stroke d.copies full })
    | inr free ↦
        rw free (record { may = d.may; copies = take-snoc_of_free 3000 _ _ stroke d.copies free })
  ]

  -- The stroke is taken as it was drawn.
  draw_points-drawn :
      (points : List Point) (stroke : StrokeSegment) (s : Session)
      → 1 ≤ length points
      → sanitize points (raw_of stroke) ≡ some stroke
      → draw_points x (some points) (raw_of stroke) s
        ≡ some (broadcast (draw stroke) (some x) (change (add_stroke stroke) s))
  unfolding draw_points pass_stroke
  draw_points-drawn [] stroke s h same = absurd (omega (arith, h))
  draw_points-drawn (p ∷ ps) stroke s h same = rw same refl

  line-IsDrawing :
      (stroke : StrokeSegment) (c : Client) (s : Session)
      → IsDrawn stroke
      → IsDrawing x c s
      → IsDrawing x
          (record c { strokes = c.strokes ++ stroke ∷ [] })
          (after_draw x (raw_of stroke) s)
  unfolding after_draw handle_draw
  line-IsDrawing stroke c s drawn d =
      rw
        (
          d.may,
          draw_points-drawn stroke.points stroke s drawn.some_points
              (sanitize-IsDrawn stroke drawn),
        )
        (add_stroke-IsDrawing stroke c s d)

  wipe-IsDrawing :
      (c : Client) (s : Session)
      → IsDrawing x c s
      → IsDrawing x (send_clear true c).0 (handle_draw_clear x s)
  unfolding send_clear emit_draw handle_draw_clear clear_strokes broadcast draws
  wipe-IsDrawing c s d = rw d.may (record { may = d.may; copies = refl })

  on_sketches-IsDrawing :
      (ks : List Sketch) (c : Client) (s : Session)
      → All MayBe ks
      → IsDrawing x c s
      → IsDrawing x (on_sketches lower e x ks c s).0 (on_sketches lower e x ks c s).1
  unfolding on_sketches send_stroke send_clear send_request take_requests
  on_sketches-IsDrawing [] c s h d = d
  on_sketches-IsDrawing (lines stroke ∷ ks) c s h d =
      on_sketches-IsDrawing ks _ _ h.1 (line-IsDrawing stroke c s h.0 d)
  on_sketches-IsDrawing (wipes ∷ ks) c s h d =
      on_sketches-IsDrawing ks _ _ h.1 (unfold send_clear in wipe-IsDrawing c s d)

  -- The player who may draw in a round draws segments with the tools of the canvas, each of 1 to 256
  -- points, and wipes, while the connection is open and each request is handled before the next
  -- step. If the first 3000 strokes in the browser were those of the room, they are so afterwards:
  -- every segment that the room keeps is stored as it was drawn.
  pub on_sketches-copies :
      (ks : List Sketch) (c : Client) (s : Session)
      → All MayBe ks
      → draws x s.room ≡ true
      → take 3000 c.strokes ≡ s.room.strokes
      → take 3000 (on_sketches lower e x ks c s).0.strokes
        ≡ (on_sketches lower e x ks c s).1.room.strokes
  on_sketches-copies ks c s h may same =
      (on_sketches-IsDrawing ks c s h (record { may = may; copies = same })).copies
