-- ===== src/GameSession/Invariant/Chat.antt =====
-- What a player says or draws keeps a room sound, and keeps who is in it.
use gacha_mind.Base.{
  ℕ, ◌≡◌, refl, inl, inr, Bool, true, false, List, [], ◌∷◌, Option, none, some, elem, Bool-cases,
  Text, arith, length, leb,
}
use gacha_mind.Shared.Protocol.{StrokeSegment}
use gacha_mind.GameSession.Room.{
  Player, Room, Session, ids, broadcast, find_player, add_stroke, clear_strokes,
}
use gacha_mind.GameSession.Room.Laws.{find_player-some}
use gacha_mind.GameSession.Guess.{handle_guess}
use gacha_mind.GameSession.Handlers.{
  RawStroke, say, pass_on, handle_chat, handle_chat_of, after_draw, draws, handle_draw_clear,
}
use gacha_mind.GameSession.Handlers.Draws.{after_draw_cases}
use gacha_mind.GameSession.Invariant.{HasDrawer, Stage, IsSound}
use gacha_mind.GameSession.Invariant.Members.{add_stroke-HasMembers}
use gacha_mind.GameSession.Invariant.Guess.{handle_guess-IsSound}
use gacha_mind.GameSession.Invariant.Keeps.{Keeps, Keeps-refl, handle_guess-Keeps}

-- The room after a handler is sound, and it is the same room with the same players.
pub record IsKept (r r' : Room) : Type 0 where
  pub sound : IsSound r'
  pub keeps : Keeps r r'

pass_on-room :
    (now : ℕ) (p : Player) (text : Text) (o : Session × Bool)
    → (pass_on now p text o).room ≡ o.0.room
unfolding pass_on broadcast
pass_on-room now p text (s, true) = refl
pass_on-room now p text (s, false) = refl

say-IsKept :
    (lower : Text → Text) (now : ℕ) (p : Player) (text : Text) (s : Session)
    → elem p.id (ids s.room.players) ≡ true
    → IsSound s.room
    → IsKept s.room (say lower now p text s).room
unfolding say
say-IsKept lower now p [] s here v = record { sound = v; keeps = Keeps-refl s.room }
say-IsKept lower now p (c ∷ text) s here v =
    rw (pass_on-room now p (c ∷ text) (handle_guess lower now p (c ∷ text) s)) (record {
      sound = handle_guess-IsSound lower now p (c ∷ text) s here v;
      keeps = handle_guess-Keeps lower now p (c ∷ text) s;
    })

handle_chat_of-IsKept :
    (lower : Text → Text) (now id : ℕ) (text : Text) (found : Option Player) (s : Session)
    → find_player id s.room.players ≡ found
    → IsSound s.room
    → IsKept s.room (handle_chat_of lower now text found s).room
unfolding handle_chat_of
handle_chat_of-IsKept lower now id text none s f v = record { sound = v; keeps = Keeps-refl s.room }
handle_chat_of-IsKept lower now id text (some p) s f v =
    let (same, here) = find_player-some id s.room.players p f in
    say-IsKept lower now p _ s (rw same here) v

pub handle_chat-IsKept :
    (lower : Text → Text) (now id : ℕ) (text : Text) (s : Session)
    → IsSound s.room
    → IsKept s.room (handle_chat lower now id text s).room
unfolding handle_chat
handle_chat-IsKept lower now id text s v =
    handle_chat_of-IsKept lower now id text (find_player id s.room.players) s refl v

-- The stage of a game does not turn on the strokes.
strokes-Stage : (r : Room) (l : List StrokeSegment) → Stage r → Stage (record r { strokes = l })
strokes-Stage r l (inl i) = inl (record {
  phase = i.phase;
  game = i.game;
  drawer = i.drawer;
  word = i.word;
  ends = i.ends;
  queue = i.queue;
  timer = i.timer;
})
strokes-Stage r l (inr (inl d)) = inr (
    inl (record {
      phase = d.phase;
      game = d.game;
      drawer = drawer r.drawer_id d.drawer;
      word = d.word;
      ends = d.ends;
      timer = d.timer;
      enough = d.enough;
    }))
  where
    drawer : (o : Option ℕ) → HasDrawer o r → HasDrawer o (record r { strokes = l })
    drawer none h = h
    drawer (some x) h = h
strokes-Stage r l (inr (inr d)) = inr (
    inr (record {
      phase = d.phase;
      game = d.game;
      drawer = d.drawer;
      word = d.word;
      ends = d.ends;
      timer = d.timer;
      enough = d.enough;
    }))

add_stroke-IsKept : (stroke : StrokeSegment) (r : Room) → IsSound r → IsKept r (add_stroke stroke r)
unfolding add_stroke
add_stroke-IsKept stroke r v = elim (Bool-cases (leb 3000 (length r.strokes))) [
  | inl full ↦ rw full (record { sound = v; keeps = Keeps-refl r })
  | inr free ↦
      let m = add_stroke-HasMembers stroke r v.members in
      rw free (record {
        sound = record { members = rw (add_stroke, free) at m; stage = strokes-Stage r _ v.stage };
        keeps = record { id = refl; players = refl; seats = refl };
      })
]

clear_strokes-IsKept : (r : Room) → IsSound r → IsKept r (clear_strokes r)
unfolding clear_strokes
clear_strokes-IsKept r v = record {
  sound = record {
    members = record {
      unique = v.members.unique;
      fits = v.members.fits;
      queue_unique = v.members.queue_unique;
      queue_within = v.members.queue_within;
      solved_within = v.members.solved_within;
      strokes_bounded = omega arith;
    };
    stage = strokes-Stage r [] v.stage;
  };
  keeps = record { id = refl; players = refl; seats = refl };
}

pub after_draw-IsKept :
    (id : ℕ) (raw : RawStroke) (s : Session)
    → IsSound s.room
    → IsKept s.room (after_draw id raw s).room
unfolding broadcast
after_draw-IsKept id raw s v =
    after_draw_cases (λ t. IsKept s.room t.room) id raw s
      (record { sound = v; keeps = Keeps-refl s.room })
      (λ stroke. add_stroke-IsKept stroke s.room v)

pub handle_draw_clear-IsKept :
    (id : ℕ) (s : Session) → IsSound s.room → IsKept s.room (handle_draw_clear id s).room
unfolding handle_draw_clear
handle_draw_clear-IsKept id s v = elim (Bool-cases (draws id s.room)) [
  | inl may ↦ rw may (unfold broadcast in clear_strokes-IsKept s.room v)
  | inr may_not ↦ rw may_not (record { sound = v; keeps = Keeps-refl s.room })
]
