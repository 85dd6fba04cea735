-- ===== src/GameSession/Server/Join.antt =====
-- Letting a player into a room with a free place keeps the room sound.
use mathlib.Core.Bool.{false≢true}
use gacha_mind.Base.{
  ℕ, ◌≤◌, ◌≡◌, refl, sym, ◌∙◌, inl, inr, true, false, List, [], ◌∷◌, Option, none, some, arith,
  elem, elem-append, elem-snoc, elem-Within, Bool-cases,
}
use gacha_mind.GameSession.Room.{Player, Room, ids, size, put_player, add_player, is_full}
use gacha_mind.GameSession.Room.Laws.{ids-put_player, length-le-put_player, length-put_player-pos}
use gacha_mind.GameSession.Game.{is_playing}
use gacha_mind.GameSession.Invariant.{HasMembers, HasDrawer, Stage, IsSound}
use gacha_mind.GameSession.Invariant.Members.{add_player-HasMembers, queue_snoc-HasMembers}
use gacha_mind.GameSession.Server.{queue_if_playing, admit}

-- Where the players only grow in number, and the queue only if a game is played, the stage stays.
grown-HasDrawer :
    (d : Option ℕ) (r r' : Room)
    → ((a : ℕ) → elem a (ids r.players) ≡ true → elem a (ids r'.players) ≡ true)
    → r'.solved_player_ids ≡ r.solved_player_ids
    → HasDrawer d r
    → HasDrawer d r'
grown-HasDrawer none r r' f e h = h
grown-HasDrawer (some d) r r' f e h = (f d h.0, rw e h.1)

elem-put_player :
    (p : Player) (ps : List Player) (a : ℕ)
    → elem a (ids ps) ≡ true
    → elem a (ids (put_player p ps)) ≡ true
elem-put_player p ps a h = ground (arith, ids-put_player p ps, elem-append a (ids ps) (p.id ∷ []))

admit-Stage : (p : Player) (r : Room) → Stage r → Stage (admit p r)
unfolding admit queue_if_playing add_player
admit-Stage p r (inl i) = rw i.phase (
    inl (record {
      phase = i.phase;
      game = i.game;
      drawer = i.drawer;
      word = i.word;
      ends = i.ends;
      queue = i.queue;
      timer = i.timer;
    }))
admit-Stage p r (inr (inl d)) = rw d.phase (
    inr (
      inl (record {
        phase = d.phase;
        game = d.game;
        drawer = grown-HasDrawer r.drawer_id r _ (elem-put_player p r.players) refl d.drawer;
        word = d.word;
        ends = d.ends;
        timer = d.timer;
        enough = omega (arith, d.enough, length-le-put_player p r.players);
      })))
admit-Stage p r (inr (inr d)) = rw d.phase (
    inr (
      inr (record {
        phase = d.phase;
        game = d.game;
        drawer = d.drawer;
        word = d.word;
        ends = d.ends;
        timer = d.timer;
        enough = omega (arith, d.enough, length-le-put_player p r.players);
      })))

-- Someone who is not in a sound room is not in its queue.
not_queued :
    (id : ℕ) (r : Room)
    → HasMembers r
    → elem id (ids r.players) ≡ false
    → elem id r.drawer_queue ≡ false
not_queued id r m h = elim (Bool-cases (elem id r.drawer_queue)) [
  | inl e ↦
      absurd (false≢true (sym h ∙ elem-Within id r.drawer_queue (ids r.players) m.queue_within e))
  | inr e ↦ e
]

elem-put_player_self :
    (p : Player) (ps : List Player)
    → elem p.id (ids ps) ≡ false
    → elem p.id (ids (put_player p ps)) ≡ true
elem-put_player_self p ps h = ground (arith, ids-put_player p ps, elem-snoc p.id (ids ps))

queue_if_playing-HasMembers :
    (id : ℕ) (r : Room)
    → elem id (ids r.players) ≡ true
    → elem id r.drawer_queue ≡ false
    → HasMembers r
    → HasMembers (queue_if_playing id r)
unfolding queue_if_playing
queue_if_playing-HasMembers id r here out m = elim (Bool-cases (is_playing r.phase)) [
  | inl h ↦ rw h (queue_snoc-HasMembers id r here out m)
  | inr h ↦ rw h m
]

-- A newcomer under a fresh identifier, in a room with a free place.
pub admit-IsSound :
    (p : Player) (r : Room)
    → elem p.id (ids r.players) ≡ false
    → is_full r ≡ false
    → IsSound r
    → IsSound (admit p r)
admit-IsSound p r fresh free v = record {
  members =
      unfold admit in
      queue_if_playing-HasMembers p.id (add_player p r)
        (unfold add_player in elem-put_player_self p r.players fresh)
        (unfold add_player in not_queued p.id r v.members fresh)
        (add_player-HasMembers p r fresh free v.members);
  stage = admit-Stage p r v.stage;
}

pub admit-id : (p : Player) (r : Room) → (admit p r).id ≡ r.id
unfolding admit queue_if_playing add_player
admit-id p r = ground arith

pub admit-players : (p : Player) (r : Room) → (admit p r).players ≡ put_player p r.players
unfolding admit queue_if_playing add_player
admit-players p r = ground arith

pub admit-inhabited : (p : Player) (r : Room) → 1 ≤ size (admit p r)
admit-inhabited p r = rw (admit-players p r) (length-put_player-pos p r.players)
