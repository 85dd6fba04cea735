-- ===== src/GameSession/Invariant/Guess.antt =====
-- A guess, and a player's departure, keep a room sound.
use mathlib.Core.Bool.{false≢true}
use gacha_mind.Base.{
  ap, ℕ, ◌≡◌, refl, subst, inl, inr, true, false, ◌&&◌, [], ◌∷◌, Option, none, some, is_some, arith,
  elem, ◌==◌, Bool-cases, elem-append, Text, text_eq,
}
use gacha_mind.GameSession.Room.{
  Player, Room, Session, ids, size, is_drawer, broadcast, unsolved_guesser_count,
}
use gacha_mind.GameSession.Game.{is_playing}
use gacha_mind.GameSession.Guess.{
  award, is_guesser, announce_correct, end_if_all_solved, judge, judge_word, handle_guess,
}
use gacha_mind.GameSession.Invariant.{HasMembers, HasDrawer, IsDrawing, IsSound}
use gacha_mind.GameSession.Invariant.Members.{award-HasMembers, ids-award, size_of_ids}
use gacha_mind.GameSession.Invariant.Rounds.{end_round-IsSound, IsSound-IsUnderway}

award-HasDrawer :
    (d : Option ℕ) (now id : ℕ) (r : Room)
    → is_drawer d id ≡ false
    → HasDrawer d r
    → HasDrawer d (award now id r)
unfolding is_drawer
award-HasDrawer none now id r h here = here
award-HasDrawer (some d) now id r h here = (
  rw (ids-award now id r) here.0,
  unfold award elem in ground (arith, here.1, elem-append d r.solved_player_ids (id ∷ [])),
)

size-award : (now id : ℕ) (r : Room) → size (award now id r) ≡ size r
size-award now id r = size_of_ids (award now id r).players r.players (ids-award now id r)

award-IsDrawing :
    (now id : ℕ) (r : Room)
    → is_drawer r.drawer_id id ≡ false
    → IsDrawing r
    → IsDrawing (award now id r)
award-IsDrawing now id r h d = record {
  phase = unfold award in d.phase;
  game = unfold award in d.game;
  drawer = unfold award in award-HasDrawer r.drawer_id now id r h d.drawer;
  word = unfold award in d.word;
  ends = unfold award in d.ends;
  timer = unfold award in d.timer;
  enough = rw (size-award now id r) d.enough;
}

pub end_if_all_solved-IsSound :
    (s : Session)
    → IsSound s.room
    → is_playing s.room.phase ≡ true
    → IsSound (end_if_all_solved s).room
unfolding end_if_all_solved
end_if_all_solved-IsSound s v h = elim (Bool-cases (unsolved_guesser_count s.room == 0)) [
  | inl all ↦ rw all (end_round-IsSound s (IsSound-IsUnderway s.room v h))
  | inr some_left ↦ rw some_left v
]

announce_correct-room : (p : Player) (s : Session) → (announce_correct p s).room ≡ s.room
unfolding announce_correct broadcast
announce_correct-room p s = refl

is_guesser-not_drawer :
    (id : ℕ) (r : Room) → is_guesser id r ≡ true → is_drawer r.drawer_id id ≡ false
unfolding is_guesser
is_guesser-not_drawer id r h = ground arith

award-IsSound :
    (now id : ℕ) (r : Room)
    → is_guesser id r ≡ true
    → elem id (ids r.players) ≡ true
    → HasMembers r
    → IsDrawing r
    → IsSound (award now id r)
award-IsSound now id r g here m d = record {
  members = award-HasMembers now id r here m;
  stage = inr (inl (award-IsDrawing now id r (is_guesser-not_drawer id r g) d));
}

pub judge-IsSound :
    (now : ℕ) (p : Player) (guess answer : Text) (s : Session)
    → elem p.id (ids s.room.players) ≡ true
    → HasMembers s.room
    → IsDrawing s.room
    → IsSound (judge now p guess answer s).0.room
unfolding judge
judge-IsSound now p guess answer s here m d =
    elim (Bool-cases (is_guesser p.id s.room && text_eq guess answer)) [
      | inr no_hit ↦ rw no_hit (record { members = m; stage = inr (inl d) })
      | inl hit ↦
          let g : is_guesser p.id s.room ≡ true = ground arith in
          let v = award-IsSound now p.id s.room g here m d in
          rw hit (
            end_if_all_solved-IsSound _ (unfold announce_correct broadcast in v)
              (unfold announce_correct broadcast award in d.phase))
    ]

-- A sound room with a word shown is in a round.
pub IsSound-IsDrawing : (r : Room) → IsSound r → is_some r.word ≡ true → IsDrawing r
IsSound-IsDrawing r v h = elim v.stage [
  | inl i ↦ absurd (false≢true (subst (λ w. is_some w ≡ true) i.word h))
  | inr (inl d) ↦ d
  | inr (inr d) ↦ absurd (false≢true (subst (λ w. is_some w ≡ true) d.word h))
]

judge_word-IsSound :
    (lower : Text → Text) (now : ℕ) (p : Player) (text : Text) (w : Option Text) (s : Session)
    → s.room.word ≡ w
    → elem p.id (ids s.room.players) ≡ true
    → IsSound s.room
    → IsSound (judge_word lower now p text w s).0.room
unfolding judge_word
judge_word-IsSound lower now p text none s e here v = v
judge_word-IsSound lower now p text (some []) s e here v = v
judge_word-IsSound lower now p text (some (c ∷ w)) s e here v =
    judge-IsSound now p _ _ s here v.members (IsSound-IsDrawing s.room v (ap is_some e))

pub handle_guess-IsSound :
    (lower : Text → Text) (now : ℕ) (p : Player) (text : Text) (s : Session)
    → elem p.id (ids s.room.players) ≡ true
    → IsSound s.room
    → IsSound (handle_guess lower now p text s).0.room
unfolding handle_guess
handle_guess-IsSound lower now p text s here v = elim (Bool-cases (is_playing s.room.phase)) [
  | inr idle ↦ rw idle v
  | inl h ↦ rw h (judge_word-IsSound lower now p text s.room.word s refl here v)
]
