-- ===== src/Web/Mirror/Members.antt =====
-- Who comes and who goes, against what the browsers show.
use gacha_mind.Base.{
  ℕ, ◌≡◌, refl, ap, ◌∙◌, inl, inr, Bool, false, ◌||◌, not, List, [], ◌∷◌, ◌++◌, map, none, arith,
  elem, keep, ltb, ◌==◌, if◌then◌else◌, Bool-cases, Text, Distinct, without-Distinct, Distinct-snoc,
}
use gacha_mind.Shared.Protocol.{PlayerSummary, player_left}
use gacha_mind.GameSession.Room.{
  Player, Room, Session, ids, size, is_drawer, put_player, drop_player, add_player, remove_player,
  change, broadcast, notice,
}
use gacha_mind.GameSession.Room.Laws.{ids-drop_player, ids-put_player}
use gacha_mind.GameSession.Game.{is_playing}
use gacha_mind.GameSession.Guess.{handle_player_left_during_game, too_few_to_go_on, drawer_left}
use gacha_mind.GameSession.Server.Dispatch.{leave_session}
use gacha_mind.GameSession.Server.{admit, queue_if_playing}
use gacha_mind.GameSession.Invariant.Seats.{seats, names, listens}
use gacha_mind.Web.RoomSocket.{Client, receive, drop_summary, has_id}
use gacha_mind.Web.Mirror.{Hears, Mirrors, view, shown, shown_names, picture, Picture}
use gacha_mind.Web.Mirror.Delivery.{view-broadcast}
use gacha_mind.Web.Mirror.Game.{notice-Mirrors, end_game-Mirrors, end_round-Mirrors}
use gacha_mind.Web.Mirror.Talk.{end_if_all_solved-Mirrors}

-- `filter((p) => p.id !== x)` on names.
abbrev drop_name : ℕ → List (ℕ × Text) → List (ℕ × Text)
drop_name x ns = keep (λ n. not (n.0 == x)) ns

drop_summary-names :
    (x : ℕ) (ps : List PlayerSummary)
    → shown_names (drop_summary x ps) ≡ drop_name x (shown_names ps)
unfolding drop_summary
drop_summary-names x [] = refl
drop_summary-names x (p ∷ ps) = ground (arith, drop_summary-names x ps)

drop_player-names :
    (x : ℕ) (ps : List Player) → names (seats (drop_player x ps)) ≡ drop_name x (names (seats ps))
unfolding drop_player
drop_player-names x [] = refl
drop_player-names x (p ∷ ps) = ground (arith, drop_player-names x ps)

listens-drop_player :
    (id x : ℕ) (ps : List Player)
    → (x == id) ≡ false
    → listens id (seats (drop_player x ps)) ≡ listens id (seats ps)
unfolding drop_player listens
listens-drop_player id x [] other = refl
listens-drop_player id x (p ∷ ps) other = ground (arith, listens-drop_player id x ps)

pub listens-put_player :
    (id : ℕ) (p : Player) (ps : List Player)
    → listens id (seats (put_player p ps))
      ≡ (if p.id == id then p.is_open else listens id (seats ps))
unfolding put_player listens
listens-put_player id p [] = refl
listens-put_player id p (q ∷ ps) = ground (arith, listens-put_player id p ps)

put_player-names :
    (p : Player) (ps : List Player)
    → elem p.id (ids ps) ≡ false
    → names (seats (put_player p ps)) ≡ names (seats ps) ++ (p.id, p.nickname) ∷ []
unfolding put_player elem
put_player-names p [] fresh = refl
put_player-names p (q ∷ ps) fresh = ground (arith, put_player-names p ps)

-- Whether a name has that identifier.
abbrev has_name : ℕ → List (ℕ × Text) → Bool
has_name x ns = elem x (map (λ n. n.0) ns)

has_id-shown : (x : ℕ) (ps : List PlayerSummary) → has_id x ps ≡ has_name x (shown_names ps)
unfolding has_id elem
has_id-shown x [] = refl
has_id-shown x (p ∷ ps) = ground (arith, has_id-shown x ps)

elem-names : (x : ℕ) (ps : List Player) → has_name x (names (seats ps)) ≡ elem x (ids ps)
unfolding elem
elem-names x [] = refl
elem-names x (p ∷ ps) = ap (λ b. p.id == x || b) (elem-names x ps)

-- A browser that shows the players of a room knows none that is not there.
pub has_id-names :
    (x : ℕ) (shown : List PlayerSummary) (ps : List Player)
    → shown_names shown ≡ names (seats ps)
    → has_id x shown ≡ elem x (ids ps)
has_id-names x shown ps e = has_id-shown x shown ∙ ap (has_name x) e ∙ elem-names x ps

pub shown_names-snoc :
    (ps : List PlayerSummary) (p : PlayerSummary)
    → shown_names (ps ++ p ∷ []) ≡ shown_names ps ++ (p.id, p.nickname) ∷ []
shown_names-snoc [] p = refl
shown_names-snoc (q ∷ ps) p = ap (◌∷◌ (q.id, q.nickname)) (shown_names-snoc ps p)

pub remove_player-Hears :
    (id x : ℕ) (r : Room) → (x == id) ≡ false → Hears id r → Hears id (remove_player x r)
unfolding remove_player
remove_player-Hears id x r other h = record {
  unique = rw (ids-drop_player x r.players) (without-Distinct x _ h.unique);
  open_seat = listens-drop_player id x r.players other ∙ h.open_seat;
}

pub put_player-Distinct :
    (p : Player) (ps : List Player)
    → elem p.id (ids ps) ≡ false
    → Distinct (ids ps)
    → Distinct (ids (put_player p ps))
put_player-Distinct p ps fresh d =
    rw (ids-put_player p ps, fresh) (Distinct-snoc p.id (ids ps) fresh d)

abbrev pub over_members : (List (ℕ × Text) → List (ℕ × Text)) → Picture → Picture
over_members f q = record q { members = f q.members }

pub picture-admit :
    (p : Player) (r : Room)
    → elem p.id (ids r.players) ≡ false
    → picture (admit p r) ≡ over_members (λ ns. ns ++ (p.id, p.nickname) ∷ []) (picture r)
unfolding admit queue_if_playing add_player
picture-admit p r fresh = elim (Bool-cases (is_playing r.phase)) [
  | inl go ↦ rw (go, put_player-names p r.players fresh)
  | inr idle ↦ rw (idle, put_player-names p r.players fresh)
]

module _ (clock : ℕ → ℕ) (id : ℕ) (c : Client) where
  handle_player_left-Mirrors :
      (now x : ℕ) (s : Session)
      → Hears id s.room
      → Mirrors clock id c s
      → Mirrors clock id c (handle_player_left_during_game now x s)
  unfolding handle_player_left_during_game
  handle_player_left-Mirrors now x s h m = elim (Bool-cases (is_playing s.room.phase)) [
    | inr idle ↦ rw idle m
    | inl go ↦ elim (Bool-cases (ltb (size s.room) 2)) [
      | inl few ↦
          rw (go, few)
            (end_game-Mirrors clock id c now _ (unfold notice broadcast in h)
              (notice-Mirrors clock id c now too_few_to_go_on s h m))
      | inr many ↦ elim (Bool-cases (is_drawer s.room.drawer_id x)) [
        | inl gone ↦
            rw (go, many, gone)
              (end_round-Mirrors clock id c _ (unfold notice broadcast in h)
                (notice-Mirrors clock id c now drawer_left s h m))
        | inr here ↦ rw (go, many, here) (end_if_all_solved-Mirrors clock id c s h m)
      ]
    ]
  ]

  player_left-Mirrors :
      (x : ℕ) (nickname : Text) (n : ℕ) (s : Session)
      → (x == id) ≡ false
      → Hears id s.room
      → Mirrors clock id c s
      → Mirrors clock id c
          (broadcast (player_left s.room.id x nickname n) none (change (remove_player x) s))
  unfolding broadcast is_drawer receive
  player_left-Mirrors x nickname n s other h m =
      view-broadcast clock id c (λ v. shown v ≡ picture (remove_player x s.room))
        (player_left s.room.id x nickname n) none (change (remove_player x) s)
        (remove_player-Hears id x s.room other h) refl (λ t. dropped)
    where
      v : Client
      v = view clock id c s.log

      dropped :
          shown (record v { players = drop_summary x v.players }) ≡ picture (remove_player x s.room)
      dropped =
          unfold remove_player in
          rw (drop_summary-names x v.players, drop_player-names x s.room.players)
            (ap (over_members (drop_name x)) m)

  pub leave_session-Mirrors :
      (now x : ℕ) (s : Session)
      → (x == id) ≡ false
      → Hears id s.room
      → Mirrors clock id c s
      → Mirrors clock id c (leave_session now x s)
  unfolding leave_session
  leave_session-Mirrors now x s other h m =
      let hears = remove_player-Hears id x s.room other h in
      handle_player_left-Mirrors now x _ (unfold notice broadcast in hears) (
        notice-Mirrors clock id c now _ _ (unfold broadcast in hears)
          (player_left-Mirrors x _ _ s other h m))
