-- ===== src/Web/Mirror/Game.antt =====
-- The course of a game keeps every browser of the room up to date.
use gacha_mind.Base.{
  ℕ, ◌≡◌, refl, ap, inl, inr, List, [], ◌∷◌, map, Option, none, some, ◌==◌, or_else, Bool-cases,
  Text,
}
use gacha_mind.Shared.Protocol.{
  playing, ended, draw_clear, RoundStartedMessage, game_ended, round_started,
}
use gacha_mind.GameSession.Room.{
  Player, Room, Session, size, summary, summaries, find_player, is_drawer, broadcast, notice, emit,
  synced_occupancy, send, change,
}
use gacha_mind.GameSession.Game.{
  is_playing, close_game, end_game, announce_end, publish_result, announce_round, started_message,
  schedule, close_round, announce_answer, rest_round, end_round,
}
use gacha_mind.GameSession.Invariant.Seats.{seats, names}
use gacha_mind.GameSession.Invariant.Keeps.{Keeps}
use gacha_mind.Web.RoomSocket.{Client, receive}
use gacha_mind.Web.Mirror.{addressed, Hears, Mirrors, view, shown, picture, shown_names, Picture}
use gacha_mind.Web.Mirror.Delivery.{
  view-broadcast, view-broadcast_out, view-send, view-send_other, view-emit,
}

pub names-summaries : (r : Room) → shown_names (summaries r) ≡ names (seats r.players)
unfolding summaries summary
names-summaries r = each r.players
  where
    each : (ps : List Player) → shown_names (map summary ps) ≡ names (seats ps)
    each [] = refl
    each (p ∷ ps) = ap (◌∷◌ (p.id, p.nickname)) (each ps)

-- A picture after the end of a game and of a round, with the players that the message names.
abbrev after_game : List (ℕ × Text) → Picture → Picture
after_game ps q = record q { phase = ended; drawer_id = none; members = ps }

abbrev after_round : List (ℕ × Text) → Picture → Picture
after_round ps q = record q { drawer_id = none; members = ps }

-- Who hears a room hears it as long as its players stay.
pub Keeps-Hears : (id : ℕ) (r r' : Room) → Keeps r r' → Hears id r → Hears id r'
Keeps-Hears id r r' k h = record {
  unique = rw k.players h.unique;
  open_seat = rw k.seats h.open_seat;
}

module _ (clock : ℕ → ℕ) (id : ℕ) (c : Client) where
  pub notice-Mirrors :
      (now : ℕ) (text : Text) (s : Session)
      → Hears id s.room
      → Mirrors clock id c s
      → Mirrors clock id c (notice now text s)
  unfolding notice broadcast is_drawer receive
  notice-Mirrors now text s h m =
      view-broadcast clock id c (λ v. shown v ≡ picture s.room) _ none s h refl (λ t. m)

  announce_end-Mirrors :
      (s : Session)
      → Hears id s.room
      → after_game (names (seats s.room.players)) (shown (view clock id c s.log)) ≡ picture s.room
      → Mirrors clock id c (announce_end s)
  unfolding announce_end broadcast emit is_drawer receive addressed
  announce_end-Mirrors s h m =
      view-emit clock id c (λ v. shown v ≡ picture s.room) (synced_occupancy s.room)
        (broadcast (game_ended (summaries s.room)) none s) refl
        (view-broadcast clock id c (λ v. shown v ≡ picture s.room) (game_ended (summaries s.room))
          none s h refl (λ t. rw (names-summaries s.room) m))

  publish_result-Mirrors :
      (now : ℕ) (game : Option ℕ) (rounds : ℕ) (s : Session)
      → Mirrors clock id c s
      → Mirrors clock id c (publish_result now game rounds s)
  unfolding publish_result emit addressed
  publish_result-Mirrors now none rounds s m = m
  publish_result-Mirrors now (some game) rounds s m =
      view-emit clock id c (λ v. shown v ≡ picture s.room) _ s refl m

  pub end_game-Mirrors :
      (now : ℕ) (s : Session)
      → Hears id s.room
      → Mirrors clock id c s
      → Mirrors clock id c (end_game now s)
  unfolding end_game close_game
  end_game-Mirrors now s h m = elim (Bool-cases (is_playing s.room.phase)) [
    | inr idle ↦ rw idle m
    | inl go ↦ rw go (
        publish_result-Mirrors now s.room.game_id s.room.round _ (
          announce_end-Mirrors _ (record { unique = h.unique; open_seat = h.open_seat })
            (ap (after_game (names (seats s.room.players))) m)))
  ]

  pub end_round-Mirrors :
      (s : Session) → Hears id s.room → Mirrors clock id c s → Mirrors clock id c (end_round s)
  unfolding end_round announce_answer close_round rest_round schedule broadcast is_drawer receive
  end_round-Mirrors s h m = elim (Bool-cases (is_playing s.room.phase)) [
    | inr idle ↦ rw idle m
    | inl go ↦ elim (Bool-cases (size s.room == 0)) [
      | inl z ↦ rw (go, z) told
      | inr z ↦ rw (go, z) told
    ]
  ]
    where
      told :
          shown
            (view clock id c (announce_answer (or_else s.room.word []) (change close_round s)).log)
          ≡ picture (close_round s.room)
      told =
          view-broadcast clock id c (λ v. shown v ≡ picture (close_round s.room)) _ none
            (change close_round s) (record { unique = h.unique; open_seat = h.open_seat }) refl
            (λ t.
              rw (names-summaries (close_round s.room))
                (ap (after_round (names (seats s.room.players))) m))

  -- A round is announced to its drawer and to the others in different messages; either will do.
  pub announce_round-Mirrors :
      (now : ℕ) (d : Player) (s : Session)
      → Hears id s.room
      → find_player d.id s.room.players ≡ some d
      → s.room.phase ≡ playing
      → s.room.drawer_id ≡ some d.id
      → (shown (view clock id c s.log)).members ≡ names (seats s.room.players)
      → Mirrors clock id c (announce_round now d s)
  unfolding announce_round started_message send broadcast is_drawer receive
  announce_round-Mirrors now d s h f going drawer m = elim (Bool-cases (d.id == id)) [
    | inl me ↦
        view-send clock id c P d.id (round_started (message s.room.word)) hidden d me f h (λ t.
          view-broadcast_out clock id c (λ v. P (receive t (round_started (message s.room.word)) v))
            (round_started (message none)) (some d.id) wiped h me
            (view-broadcast clock id c (λ v. P (receive t (round_started (message s.room.word)) v))
              draw_clear none s h refl (λ t'. rw (going, drawer) (ap with_members m))))
    | inr other ↦
        view-send_other clock id c P d.id (round_started (message s.room.word)) hidden other (
          view-broadcast clock id c P (round_started (message none)) (some d.id) wiped h other (λ t.
            view-broadcast clock id c (λ v. P (receive t (round_started (message none)) v))
              draw_clear none s h refl (λ t'. rw (going, drawer) (ap with_members m))))
  ]
    where
      message : Option Text → RoundStartedMessage
      message = started_message now d s.room

      wiped : Session
      wiped = broadcast draw_clear none s

      hidden : Session
      hidden = broadcast (round_started (message none)) (some d.id) wiped

      P : Client → Type 0
      P v = shown v ≡ picture s.room

      with_members : List (ℕ × Text) → Picture
      with_members ps = record {
        phase = playing;
        round = s.room.round;
        total_rounds = s.room.total_rounds;
        drawer_id = some d.id;
        members = ps;
      }
