-- ===== src/GameSession/Invariant/Leave.antt =====
-- A player's departure keeps a room sound: `removePlayer`, then `handlePlayerLeftDuringGame`.
use mathlib.Core.Bool.{false≢true}
use gacha_mind.Base.{
  ℕ, ◌≤◌, ◌≡◌, sym, ◌∙◌, inl, inr, true, false, List, Option, none, some, arith, without, ltb,
  ltb→le, Bool-cases, elem-without,
}
use gacha_mind.GameSession.Room.{
  Room, Effect, ids, size, is_drawer, remove_player, broadcast, notice,
}
use gacha_mind.GameSession.Room.Laws.{ids-drop_player}
use gacha_mind.GameSession.Game.{is_playing}
use gacha_mind.GameSession.Guess.{handle_player_left_during_game}
use gacha_mind.GameSession.Invariant.{HasDrawer, IsIdle, IsDrawing, IsResting, IsSound}
use gacha_mind.GameSession.Invariant.Members.{remove_player-HasMembers}
use gacha_mind.GameSession.Invariant.Rounds.{
  IsUnderway, end_round-IsSound, end_game-IsSound, IsSound-IsUnderway,
}
use gacha_mind.GameSession.Invariant.Guess.{end_if_all_solved-IsSound}

remove_player-IsIdle : (id : ℕ) (r : Room) → IsIdle r → IsIdle (remove_player id r)
unfolding remove_player without
remove_player-IsIdle id r i = record {
  phase = i.phase;
  game = i.game;
  drawer = i.drawer;
  word = i.word;
  ends = i.ends;
  queue = rw i.queue;
  timer = i.timer;
}

remove_player-HasDrawer :
    (d : Option ℕ) (id : ℕ) (r : Room)
    → is_drawer d id ≡ false
    → HasDrawer d r
    → HasDrawer d (remove_player id r)
unfolding is_drawer remove_player
remove_player-HasDrawer none id r h here = here
remove_player-HasDrawer (some d) id r h here = (
  rw (ids-drop_player id r.players) (ground (arith, here.0, elem-without d id (ids r.players))),
  ground (arith, here.1, elem-without d id r.solved_player_ids),
)

remove_player-IsDrawing :
    (id : ℕ) (r : Room)
    → is_drawer r.drawer_id id ≡ false
    → 2 ≤ size (remove_player id r)
    → IsDrawing r
    → IsDrawing (remove_player id r)
remove_player-IsDrawing id r h enough d = record {
  phase = unfold remove_player in d.phase;
  game = unfold remove_player in d.game;
  drawer = unfold remove_player in remove_player-HasDrawer r.drawer_id id r h d.drawer;
  word = unfold remove_player in d.word;
  ends = unfold remove_player in d.ends;
  timer = unfold remove_player in d.timer;
  enough = enough;
}

remove_player-IsResting :
    (id : ℕ) (r : Room)
    → 2 ≤ size (remove_player id r)
    → IsResting r
    → IsResting (remove_player id r)
remove_player-IsResting id r enough d = record {
  phase = unfold remove_player in d.phase;
  game = unfold remove_player in d.game;
  drawer = unfold remove_player in d.drawer;
  word = unfold remove_player in d.word;
  ends = unfold remove_player in d.ends;
  timer = unfold remove_player in d.timer;
  enough = enough;
}

-- With enough players left, and the drawer among them, the stage stays.
remove_player-IsSound :
    (id : ℕ) (r : Room)
    → is_drawer r.drawer_id id ≡ false
    → 2 ≤ size (remove_player id r)
    → IsSound r
    → IsSound (remove_player id r)
remove_player-IsSound id r h enough v = record {
  members = remove_player-HasMembers id r v.members;
  stage = elim v.stage [
    | inl i ↦ inl (remove_player-IsIdle id r i)
    | inr (inl d) ↦ inr (inl (remove_player-IsDrawing id r h enough d))
    | inr (inr d) ↦ inr (inr (remove_player-IsResting id r enough d))
  ];
}

remove_player-IsUnderway :
    (id : ℕ) (r : Room)
    → IsSound r
    → is_playing r.phase ≡ true
    → 2 ≤ size (remove_player id r)
    → IsUnderway (remove_player id r)
remove_player-IsUnderway id r v h enough =
    let u = IsSound-IsUnderway r v h in
    record {
      members = remove_player-HasMembers id r v.members;
      phase = unfold remove_player in u.phase;
      game = unfold remove_player in u.game;
      enough = enough;
    }

stage-IsIdle : (r : Room) → IsSound r → is_playing r.phase ≡ false → IsIdle r
stage-IsIdle r v h = elim v.stage [
  | inl i ↦ i
  | inr (inl d) ↦ absurd (false≢true (sym h ∙ d.phase))
  | inr (inr d) ↦ absurd (false≢true (sym h ∙ d.phase))
]

-- The departure of anyone from a sound room leaves a sound room, whatever was logged before.
pub leave-IsSound :
    (now id : ℕ) (r : Room) (log : List Effect)
    → IsSound r
    → IsSound
        (handle_player_left_during_game now id
          (record { room = remove_player id r; log = log })).room
unfolding handle_player_left_during_game
leave-IsSound now id r log v = elim (Bool-cases (is_playing r.phase)) [
  | inr idle ↦
      let i = remove_player-IsIdle id r (stage-IsIdle r v idle) in
      rw i.phase (record { members = remove_player-HasMembers id r v.members; stage = inl i })
  | inl h ↦
      let h' : is_playing (remove_player id r).phase ≡ true = unfold remove_player in h in
      elim (Bool-cases (ltb (size (remove_player id r)) 2)) [
        | inl few ↦
            rw (h', few)
              (end_game-IsSound now _
                (unfold notice broadcast in remove_player-HasMembers id r v.members)
                (unfold notice broadcast in h'))
        | inr many ↦
            let enough = ltb→le (size (remove_player id r)) 2 many in
            let u = remove_player-IsUnderway id r v h enough in
            elim (Bool-cases (is_drawer (remove_player id r).drawer_id id)) [
              | inl gone ↦ rw (h', many, gone) (end_round-IsSound _ (unfold notice broadcast in u))
              | inr here ↦
                  let v' = remove_player-IsSound id r (unfold remove_player in here) enough v in
                  rw (h', many, here) (end_if_all_solved-IsSound _ v' h')
            ]
      ]
]
