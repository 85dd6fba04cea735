-- ===== src/Web/Mirror/Talk.antt =====
-- What players say and draw, and guesses, against what the browsers show.
use gacha_mind.Base.{
  ℕ, ◌≡◌, refl, ap, ◌∙◌, inl, inr, Bool, true, false, ◌&&◌, [], ◌∷◌, Option, none, some, length,
  leb, ◌==◌, Bool-cases, Text, text_eq,
}
use gacha_mind.Shared.Protocol.{ServerToClientMessage, StrokeSegment, chat, draw, draw_clear}
use gacha_mind.GameSession.Room.{
  Player, Room, Session, find_player, is_drawer, broadcast, change, add_stroke, clear_strokes,
  unsolved_guesser_count,
}
use gacha_mind.GameSession.Guess.{
  award, is_guesser, announce_correct, end_if_all_solved, judge, judge_word, handle_guess,
}
use gacha_mind.GameSession.Game.{is_playing}
use gacha_mind.GameSession.Handlers.{
  RawStroke, pass_on, say, handle_chat_of, handle_chat, draws, after_draw, handle_draw_clear,
}
use gacha_mind.GameSession.Invariant.Members.{ids-award}
use gacha_mind.GameSession.Invariant.Seats.{seats, seats-award, names}
use gacha_mind.GameSession.Invariant.Keeps.{handle_guess-Keeps}
use gacha_mind.GameSession.Handlers.Draws.{after_draw_cases}
use gacha_mind.Web.RoomSocket.{Client, receive}
use gacha_mind.Web.Mirror.{Hears, Mirrors, shown, picture, Picture}
use gacha_mind.Web.Mirror.Delivery.{view-broadcast, view-broadcast_out}
use gacha_mind.Web.Mirror.Game.{names-summaries, end_round-Mirrors, Keeps-Hears}

module _ (clock : ℕ → ℕ) (id : ℕ) (c : Client) where
  -- A message that changes nothing of the picture may go to anyone.
  silent-Mirrors :
      (m : ServerToClientMessage) (excluded : Option ℕ) (s : Session)
      → ((now : ℕ) (v : Client) → shown (receive now m v) ≡ shown v)
      → Hears id s.room
      → Mirrors clock id c s
      → Mirrors clock id c (broadcast m excluded s)
  unfolding broadcast
  silent-Mirrors m excluded s silent h e = elim (Bool-cases (is_drawer excluded id)) [
    | inl out ↦ view-broadcast_out clock id c (λ v. shown v ≡ picture s.room) m excluded s h out e
    | inr kept ↦
        view-broadcast clock id c (λ v. shown v ≡ picture s.room) m excluded s h kept
          (λ t. silent t _ ∙ e)
  ]

  pub end_if_all_solved-Mirrors :
      (s : Session)
      → Hears id s.room
      → Mirrors clock id c s
      → Mirrors clock id c (end_if_all_solved s)
  unfolding end_if_all_solved
  end_if_all_solved-Mirrors s h m = elim (Bool-cases (unsolved_guesser_count s.room == 0)) [
    | inl all ↦ rw all (end_round-Mirrors clock id c s h m)
    | inr some_left ↦ rw some_left m
  ]

  award-Hears : (now x : ℕ) (r : Room) → Hears id r → Hears id (award now x r)
  award-Hears now x r h = record {
    unique = rw (ids-award now x r) h.unique;
    open_seat = rw (seats-award now x r) h.open_seat;
  }

  announce_correct-Mirrors :
      (now : ℕ) (p : Player) (s : Session)
      → Hears id s.room
      → Mirrors clock id c s
      → Mirrors clock id c (announce_correct p (change (award now p.id) s))
  unfolding announce_correct broadcast is_drawer receive
  announce_correct-Mirrors now p s h m =
      view-broadcast clock id c (λ v. shown v ≡ picture (award now p.id s.room)) _ none
        (change (award now p.id) s) (award-Hears now p.id s.room h) refl
        (λ t. rw (names-summaries (award now p.id s.room)) (unfold award in ap with_members m))
    where
      with_members : Picture → Picture
      with_members q = record q { members = names (seats (award now p.id s.room).players) }

  judge-Mirrors :
      (now : ℕ) (p : Player) (guess answer : Text) (s : Session)
      → Hears id s.room
      → Mirrors clock id c s
      → Mirrors clock id c (judge now p guess answer s).0
  unfolding judge
  judge-Mirrors now p guess answer s h m =
      elim (Bool-cases (is_guesser p.id s.room && text_eq guess answer)) [
        | inr no_hit ↦ rw no_hit m
        | inl hit ↦ rw hit (
            end_if_all_solved-Mirrors _
              (unfold announce_correct broadcast in award-Hears now p.id s.room h)
              (announce_correct-Mirrors now p s h m))
      ]

  judge_word-Mirrors :
      (lower : Text → Text) (now : ℕ) (p : Player) (text : Text) (w : Option Text) (s : Session)
      → Hears id s.room
      → Mirrors clock id c s
      → Mirrors clock id c (judge_word lower now p text w s).0
  unfolding judge_word
  judge_word-Mirrors lower now p text none s h m = m
  judge_word-Mirrors lower now p text (some []) s h m = m
  judge_word-Mirrors lower now p text (some (k ∷ w)) s h m = judge-Mirrors now p _ _ s h m

  handle_guess-Mirrors :
      (lower : Text → Text) (now : ℕ) (p : Player) (text : Text) (s : Session)
      → Hears id s.room
      → Mirrors clock id c s
      → Mirrors clock id c (handle_guess lower now p text s).0
  unfolding handle_guess
  handle_guess-Mirrors lower now p text s h m = elim (Bool-cases (is_playing s.room.phase)) [
    | inr idle ↦ rw idle m
    | inl go ↦ rw go (judge_word-Mirrors lower now p text s.room.word s h m)
  ]

  pass_on-Mirrors :
      (now : ℕ) (p : Player) (text : Text) (o : Session × Bool)
      → Hears id o.0.room
      → Mirrors clock id c o.0
      → Mirrors clock id c (pass_on now p text o)
  unfolding pass_on receive
  pass_on-Mirrors now p text (s, true) h m = m
  pass_on-Mirrors now p text (s, false) h m =
      silent-Mirrors (chat p.id p.nickname text now) none s (λ t v. refl) h m

  say-Mirrors :
      (lower : Text → Text) (now : ℕ) (p : Player) (text : Text) (s : Session)
      → Hears id s.room
      → Mirrors clock id c s
      → Mirrors clock id c (say lower now p text s)
  unfolding say
  say-Mirrors lower now p [] s h m = m
  say-Mirrors lower now p (k ∷ text) s h m =
      pass_on-Mirrors now p (k ∷ text) (handle_guess lower now p (k ∷ text) s)
        (Keeps-Hears id s.room _ (handle_guess-Keeps lower now p (k ∷ text) s) h)
        (handle_guess-Mirrors lower now p (k ∷ text) s h m)

  handle_chat_of-Mirrors :
      (lower : Text → Text) (now : ℕ) (text : Text) (found : Option Player) (s : Session)
      → Hears id s.room
      → Mirrors clock id c s
      → Mirrors clock id c (handle_chat_of lower now text found s)
  unfolding handle_chat_of
  handle_chat_of-Mirrors lower now text none s h m = m
  handle_chat_of-Mirrors lower now text (some p) s h m = say-Mirrors lower now p _ s h m

  pub handle_chat-Mirrors :
      (lower : Text → Text) (now x : ℕ) (text : Text) (s : Session)
      → Hears id s.room
      → Mirrors clock id c s
      → Mirrors clock id c (handle_chat lower now x text s)
  unfolding handle_chat
  handle_chat-Mirrors lower now x text s =
      handle_chat_of-Mirrors lower now text (find_player x s.room.players) s

  add_stroke-Mirrors :
      (x : ℕ) (stroke : StrokeSegment) (s : Session)
      → Hears id s.room
      → Mirrors clock id c s
      → Mirrors clock id c (broadcast (draw stroke) (some x) (change (add_stroke stroke) s))
  unfolding add_stroke receive
  add_stroke-Mirrors x stroke s h m = elim (Bool-cases (leb 3000 (length s.room.strokes))) [
    | inl full ↦ rw full (silent-Mirrors (draw stroke) (some x) s (λ t v. refl) h m)
    | inr free ↦ rw free (
        silent-Mirrors (draw stroke) (some x) _ (λ t v. refl)
          (record { unique = h.unique; open_seat = h.open_seat }) m)
  ]

  pub after_draw-Mirrors :
      (x : ℕ) (raw : RawStroke) (s : Session)
      → Hears id s.room
      → Mirrors clock id c s
      → Mirrors clock id c (after_draw x raw s)
  after_draw-Mirrors x raw s h m =
      after_draw_cases (λ t. Mirrors clock id c t) x raw s m
        (λ stroke. add_stroke-Mirrors x stroke s h m)

  pub handle_draw_clear-Mirrors :
      (x : ℕ) (s : Session)
      → Hears id s.room
      → Mirrors clock id c s
      → Mirrors clock id c (handle_draw_clear x s)
  unfolding handle_draw_clear clear_strokes receive
  handle_draw_clear-Mirrors x s h m = elim (Bool-cases (draws x s.room)) [
    | inl may ↦ rw may (
        silent-Mirrors draw_clear (some x) _ (λ t v. refl)
          (record { unique = h.unique; open_seat = h.open_seat }) m)
    | inr may_not ↦ rw may_not m
  ]
