-- ===== src/Web/Mirror/Timers.antt =====
-- The start of a game, of a round, and the timers, against what the browsers show.
use gacha_mind.Base.{
  ℕ, ◌≤◌, ◌≡◌, ◌≢◌, refl, sym, subst, ap, ◌∙◌, inl, inr, true, ◌||◌, List, [], ◌∷◌, Option, none,
  some, arith, length, length-take, elem, min, ◌==◌, ltb, ltb→le, Bool-cases, Within,
}
use mathlib.Core.Bool.{false≢true}
use gacha_mind.Shared.Protocol.{GamePhase, waiting, playing, ended, game_started}
use gacha_mind.GameSession.Room.{
  Player, Timer, round_over, intermission_over, Room, Session, ids, size, find_player, is_drawer,
  broadcast, emit, send, change, clear_round_timer, synced_occupancy,
}
use gacha_mind.GameSession.Room.Laws.{find_player-some, find_player-elem, length-ids}
use gacha_mind.GameSession.Game.{
  Env, is_playing, open_round, announce_round, schedule, start_round, start_round_from,
  start_round_with, start_game, open_game, announce_game, resume, run_timer, fire_timer,
  too_few_to_start,
}
use gacha_mind.GameSession.Shuffle.{shuffle}
use gacha_mind.GameSession.Shuffle.Laws.{length-shuffle}
use gacha_mind.GameSession.Invariant.{HasMembers}
use gacha_mind.GameSession.Invariant.Members.{open_game-HasMembers, ids-reset_scores}
use gacha_mind.GameSession.Invariant.Seats.{seats, seats-reset_scores, names}
use gacha_mind.Web.RoomSocket.{Client, receive}
use gacha_mind.Web.Mirror.{addressed, Hears, Mirrors, view, shown}
use gacha_mind.Web.Mirror.Delivery.{view-broadcast, view-emit}
use gacha_mind.Web.Mirror.Game.{
  notice-Mirrors, announce_round-Mirrors, end_game-Mirrors, end_round-Mirrors,
}

pub is_playing-eq : (p : GamePhase) → is_playing p ≡ true → p ≡ playing
is_playing-eq waiting h = absurd (false≢true h)
is_playing-eq playing h = refl
is_playing-eq ended h = absurd (false≢true h)

-- The members that the browser shows are those of the room.
abbrev Lists : (ℕ → ℕ) → ℕ → Client → Session → Type 0
Lists clock id c s = (shown (view clock id c s.log)).members ≡ names (seats s.room.players)

module _ (clock : ℕ → ℕ) (id : ℕ) (c : Client) where
  start_round_with-Mirrors :
      (e : Env) (x : ℕ) (found : Option Player) (s : Session)
      → find_player x s.room.players ≡ found
      → elem x (ids s.room.players) ≡ true
      → Hears id s.room
      → s.room.phase ≡ playing
      → Lists clock id c s
      → Mirrors clock id c (start_round_with e found s)
  unfolding start_round_with open_round schedule announce_round broadcast send
  start_round_with-Mirrors e x none s f here h going m =
      absurd (false≢true (sym (find_player-elem x s.room.players f) ∙ here))
  start_round_with-Mirrors e x (some d) s f here h going m =
      let same = (find_player-some x s.room.players d f).0 in
      announce_round-Mirrors clock id c e.now d (change (open_round e d) s)
        (record { unique = h.unique; open_seat = h.open_seat })
        (subst (λ k. find_player k s.room.players ≡ some d) (sym same) f) going refl m

  start_round_from-Mirrors :
      (e : Env) (queue : List ℕ) (s : Session)
      → length queue ≢ 0
      → Within queue (ids s.room.players)
      → Hears id s.room
      → s.room.phase ≡ playing
      → Lists clock id c s
      → Mirrors clock id c (start_round_from e queue s)
  unfolding start_round_from
  start_round_from-Mirrors e [] s some_left w h going m = absurd (some_left refl)
  start_round_from-Mirrors e (x ∷ rest) s some_left w h going m =
      start_round_with-Mirrors e x (find_player x s.room.players) _ refl w.0
        (record { unique = h.unique; open_seat = h.open_seat }) going m

  pub start_round-Mirrors :
      (e : Env) (s : Session)
      → length s.room.drawer_queue ≢ 0
      → HasMembers s.room
      → Hears id s.room
      → s.room.phase ≡ playing
      → Lists clock id c s
      → Mirrors clock id c (start_round e s)
  unfolding start_round clear_round_timer
  start_round-Mirrors e s some_left v h going m =
      start_round_from-Mirrors e s.room.drawer_queue _ some_left v.queue_within
        (record { unique = h.unique; open_seat = h.open_seat }) going m

  resume-Mirrors :
      (e : Env) (s : Session)
      → HasMembers s.room
      → Hears id s.room
      → Mirrors clock id c s
      → Mirrors clock id c (resume e s)
  unfolding resume
  resume-Mirrors e s v h m = elim (Bool-cases (is_playing s.room.phase)) [
    | inr idle ↦ rw idle m
    | inl go ↦ elim (Bool-cases (ltb (size s.room) 2 || length s.room.drawer_queue == 0)) [
      | inl stop ↦ rw (go, stop) (end_game-Mirrors clock id c e.now s h m)
      | inr next ↦
          rw (go, next)
            (start_round-Mirrors e s (ground (arith, next)) v h (is_playing-eq s.room.phase go)
              (ap (λ q. q.members) m))
    ]
  ]

  run_timer-Mirrors :
      (e : Env) (t : Option Timer) (s : Session)
      → HasMembers s.room
      → Hears id s.room
      → Mirrors clock id c s
      → Mirrors clock id c (run_timer e t s)
  unfolding run_timer
  run_timer-Mirrors e none s v h m = m
  run_timer-Mirrors e (some round_over) s v h m = end_round-Mirrors clock id c s h m
  run_timer-Mirrors e (some intermission_over) s v h m = resume-Mirrors e s v h m

  pub fire_timer-Mirrors :
      (e : Env) (s : Session)
      → HasMembers s.room
      → Hears id s.room
      → Mirrors clock id c s
      → Mirrors clock id c (fire_timer e s)
  unfolding fire_timer
  fire_timer-Mirrors e s = run_timer-Mirrors e s.room.round_timer s

  -- The browser learns the number of rounds, and keeps its list of players.
  announce_game-Lists :
      (s : Session) → Hears id s.room → Lists clock id c s → Lists clock id c (announce_game s)
  unfolding announce_game broadcast emit is_drawer receive addressed
  announce_game-Lists s h m =
      view-emit clock id c P (synced_occupancy s.room)
        (broadcast (game_started s.room.total_rounds) none s) refl
        (view-broadcast clock id c P (game_started s.room.total_rounds) none s h refl (λ t. m))
    where
      P : Client → Type 0
      P v = (shown v).members ≡ names (seats s.room.players)

  open_game-Hears : (e : Env) (r : Room) → Hears id r → Hears id (open_game e r)
  unfolding open_game
  open_game-Hears e r h = record {
    unique = rw (ids-reset_scores r.players) h.unique;
    open_seat = rw (seats-reset_scores r.players) h.open_seat;
  }

  open_game-queue : (e : Env) (r : Room) → 2 ≤ size r → length (open_game e r).drawer_queue ≢ 0
  unfolding open_game
  open_game-queue e r enough empty = omega (
    arith,
    enough,
    empty,
    length-take (min (size r) 10) (shuffle e.rolls (ids r.players)),
    length-shuffle e.rolls (ids r.players),
    length-ids r.players,
  )

  begin-Mirrors :
      (e : Env) (s : Session)
      → 2 ≤ size s.room
      → HasMembers s.room
      → Hears id s.room
      → Mirrors clock id c s
      → Mirrors clock id c (start_round e (announce_game (change (open_game e) s)))
  begin-Mirrors e s enough v h m =
      start_round-Mirrors e (announce_game opened)
        (unfold announce_game broadcast emit in open_game-queue e s.room enough)
        (unfold announce_game broadcast emit in open_game-HasMembers e s.room v)
        (unfold announce_game broadcast emit in hears)
        (unfold announce_game broadcast emit open_game in refl)
        (announce_game-Lists opened hears listed)
    where
      opened : Session
      opened = change (open_game e) s

      hears : Hears id opened.room
      hears = open_game-Hears e s.room h

      listed : Lists clock id c opened
      listed =
          ap (λ q. q.members) m
          ∙ unfold open_game in ap names (sym (seats-reset_scores s.room.players))

  pub start_game-Mirrors :
      (e : Env) (s : Session)
      → HasMembers s.room
      → Hears id s.room
      → Mirrors clock id c s
      → Mirrors clock id c (start_game e s)
  unfolding start_game
  start_game-Mirrors e s v h m = elim (Bool-cases (is_playing s.room.phase)) [
    | inl go ↦ rw go m
    | inr idle ↦ elim (Bool-cases (ltb (size s.room) 2)) [
      | inl few ↦ rw (idle, few) (notice-Mirrors clock id c e.now too_few_to_start s h m)
      | inr enough ↦ rw (idle, enough) (begin-Mirrors e s (ltb→le (size s.room) 2 enough) v h m)
    ]
  ]
