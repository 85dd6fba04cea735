-- ===== src/Web/Mirror/Strokes.antt =====
-- The drawing on the canvas of someone who watches, against the strokes of the room.
use gacha_mind.Base.{
  take-short, take-snoc_of_full, take-snoc_of_free, ℕ, ◌≤◌, ◌≡◌, refl, sym, subst, inl, inr, false,
  List, [], ◌∷◌, ◌++◌, Option, some, length, take, leb, ◌==◌, Bool-cases, ==_refl,
}
use gacha_mind.Shared.Protocol.{StrokeSegment, draw, draw_clear}
use gacha_mind.GameSession.Room.{
  Player, Effect, Session, is_drawer, add_stroke, clear_strokes, change, broadcast, emit,
}
use gacha_mind.GameSession.Handlers.{RawStroke, draws, after_draw, handle_draw_clear}
use gacha_mind.GameSession.Game.{Env}
use gacha_mind.GameSession.Server.{
  Identity, JoinMessage, new_player, admit, enter_session, greet_session,
}
use gacha_mind.GameSession.Server.Join.{admit-IsSound}
use gacha_mind.GameSession.Invariant.{IsSound}
use gacha_mind.GameSession.Handlers.Draws.{after_draw_cases}
use gacha_mind.Web.RoomSocket.{Client, receive}
use gacha_mind.Web.Mirror.{Hears, view}
use gacha_mind.Web.Mirror.Delivery.{view-broadcast}
use gacha_mind.Web.Mirror.Join.{greets_me, greeted-room, admit-Hears, log_more}
use gacha_mind.Web.Mirror.Run.{joins, MayCome}

-- What the one who draws may send.
pub data Pencil : Type 0 where
  strokes : RawStroke → Pencil
  wipes : Pencil

unfoldable pub on_pencil : ℕ → Pencil → Session → Session
on_pencil x (strokes raw) s = after_draw x raw s
on_pencil x wipes s = handle_draw_clear x s

unfoldable pub on_pencils : ℕ → List Pencil → Session → Session
on_pencils x [] s = s
on_pencils x (p ∷ ps) s = on_pencils x ps (on_pencil x p s)

-- The room has the first strokes of the browser, as many as it keeps.
abbrev pub Copies : (ℕ → ℕ) → ℕ → Client → Session → Type 0
Copies clock id c s = take 3000 (view clock id c s.log).strokes ≡ s.room.strokes

-- A player who hears the room and whose browser has its drawing.
record IsWatching (clock : ℕ → ℕ) (id : ℕ) (c : Client) (s : Session) : Type 0 where
  hears : Hears id s.room
  copies : Copies clock id c s

module _ (clock : ℕ → ℕ) (id : ℕ) (c : Client) (x : ℕ) (other : (x == id) ≡ false) where
  add_stroke-Copies :
      (stroke : StrokeSegment) (s : Session)
      → IsWatching clock id c s
      → IsWatching clock id c (broadcast (draw stroke) (some x) (change (add_stroke stroke) s))
  unfolding add_stroke receive broadcast is_drawer
  add_stroke-Copies stroke s w = elim (Bool-cases (leb 3000 (length s.room.strokes))) [
    | inl full ↦ rw full (record {
      hears = w.hears;
      copies =
          view-broadcast clock id c (λ v. take 3000 v.strokes ≡ s.room.strokes) (draw stroke)
            (some x) s w.hears other (λ t. take-snoc_of_full 3000 _ _ stroke w.copies full);
    })
    | inr free ↦ rw free (record {
      hears = record { unique = w.hears.unique; open_seat = w.hears.open_seat };
      copies =
          view-broadcast clock id c (λ v. take 3000 v.strokes ≡ s.room.strokes ++ stroke ∷ [])
            (draw stroke) (some x)
            (record s { room = record s.room { strokes = s.room.strokes ++ stroke ∷ [] } })
            (record { unique = w.hears.unique; open_seat = w.hears.open_seat }) other
            (λ t. take-snoc_of_free 3000 _ _ stroke w.copies free);
    })
  ]

  clear-Copies :
      (s : Session)
      → IsWatching clock id c s
      → IsWatching clock id c (broadcast draw_clear (some x) (change clear_strokes s))
  unfolding clear_strokes receive broadcast is_drawer
  clear-Copies s w = record {
    hears = record { unique = w.hears.unique; open_seat = w.hears.open_seat };
    copies =
        view-broadcast clock id c (λ v. take 3000 v.strokes ≡ []) draw_clear (some x)
          (change clear_strokes s)
          (record { unique = w.hears.unique; open_seat = w.hears.open_seat }) other (λ t. refl);
  }

  on_pencil-Copies :
      (p : Pencil) (s : Session) → IsWatching clock id c s → IsWatching clock id c (on_pencil x p s)
  unfolding on_pencil handle_draw_clear
  on_pencil-Copies (strokes raw) s w =
      after_draw_cases (IsWatching clock id c) x raw s w (λ stroke. add_stroke-Copies stroke s w)
  on_pencil-Copies wipes s w = elim (Bool-cases (draws x s.room)) [
    | inl may ↦ rw may (clear-Copies s w)
    | inr may_not ↦ rw may_not w
  ]

  on_pencils-Copies :
      (ps : List Pencil) (s : Session)
      → IsWatching clock id c s
      → IsWatching clock id c (on_pencils x ps s)
  unfolding on_pencils
  on_pencils-Copies [] s w = w
  on_pencils-Copies (p ∷ ps) s w = on_pencils-Copies ps (on_pencil x p s) (on_pencil-Copies p s w)

module _ (clock : ℕ → ℕ) (id : ℕ) (c : Client) where
  joins-Copies :
      (e : Env) (i : Option Identity) (m : JoinMessage) (es : List Effect) (s : Session)
      → e.fresh_id ≡ id
      → IsSound s.room
      → MayCome id (joins e i m es) s
      → IsWatching clock id c (
          greet_session e.now
            (new_player e.fresh_id i m)
            (log_more es (enter_session (new_player e.fresh_id i m) s)))
  unfolding MayCome receive new_player
  joins-Copies e i m es s me v may = record {
    hears = subst (Hears id) (sym (greeted-room e.now p es s)) (
        unfold enter_session emit in
        admit-Hears clock id c p s.room may.0 v.members.unique (rw (me, ==_refl id) refl));
    copies =
        subst (λ r. take 3000 (view clock id c greeted.log).strokes ≡ r.strokes)
          (sym (greeted-room e.now p es s))
          (greets_me clock id c (λ v. take 3000 v.strokes ≡ (enter_session p s).room.strokes) e.now
            p es s me refl may.0 v.members.unique
            (λ t v. unfold log_more in take-short 3000 _ (unfold enter_session emit in few))
            (λ t text v m. m));
  }
    where
      p : Player
      p = new_player e.fresh_id i m

      greeted : Session
      greeted = greet_session e.now p (log_more es (enter_session p s))

      few : length (admit p s.room).strokes ≤ 3000
      few = unfold new_player in (admit-IsSound p s.room may.0 may.1 v).members.strokes_bounded

  -- A player joins a sound room that is not full, with an identifier that nobody there has. The game
  -- session then handles any strokes and wipes of another player, one after the other. The first 3000
  -- strokes on the newcomer's browser, after all messages to it, are the strokes that the room keeps.
  pub joins-watches :
      (e : Env) (i : Option Identity) (m : JoinMessage) (es : List Effect) (s : Session) (x : ℕ)
      (ps : List Pencil)
      → e.fresh_id ≡ id
      → IsSound s.room
      → MayCome id (joins e i m es) s
      → (x == id) ≡ false
      → Copies clock id c (
          on_pencils x ps (
            greet_session e.now
              (new_player e.fresh_id i m)
              (log_more es (enter_session (new_player e.fresh_id i m) s))))
  joins-watches e i m es s x ps me v may other =
      (on_pencils-Copies clock id c x other ps _ (joins-Copies e i m es s me v may)).copies
