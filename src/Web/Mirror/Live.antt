-- ===== src/Web/Mirror/Live.antt =====
-- A browser shows the game and the names of its room as they are, for as long as its player is there.
use mathlib.Core.Bool.{false≢true}
use gacha_mind.Base.{
  inl, inr, ap, ◌∙◌, Bool-cases, ==→eq, ==_refl, ℕ, ◌≡◌, refl, sym, subst, false, List, Option,
  Text, elem, ◌==◌,
}
use gacha_mind.GameSession.Room.{Room, Effect, Session, ids, broadcast, notice, emit, remove_player}
use gacha_mind.GameSession.Game.{Env}
use gacha_mind.GameSession.Server.Dispatch.{leave_session}
use gacha_mind.GameSession.Server.{Identity, JoinMessage, new_player, enter_session}
use gacha_mind.GameSession.Server.Join.{admit-IsSound}
use gacha_mind.GameSession.Server.Close.{left-IsSound}
use gacha_mind.GameSession.Invariant.{IsSound}
use gacha_mind.GameSession.Invariant.Rounds.{start_game-IsSound, fire_timer-IsSound}
use gacha_mind.GameSession.Invariant.Keeps.{
  start_game-Keeps, fire_timer-Keeps, handle_player_left-Keeps,
}
use gacha_mind.GameSession.Invariant.Chat.{
  handle_chat-IsKept, after_draw-IsKept, handle_draw_clear-IsKept,
}
use gacha_mind.Web.RoomSocket.{Client}
use gacha_mind.Web.Mirror.{Hears, Mirrors}
use gacha_mind.Web.Mirror.Delivery.{listens-elem}
use gacha_mind.Web.Mirror.Game.{Keeps-Hears}
use gacha_mind.Web.Mirror.Timers.{start_game-Mirrors, fire_timer-Mirrors}
use gacha_mind.Web.Mirror.Talk.{handle_chat-Mirrors, after_draw-Mirrors, handle_draw_clear-Mirrors}
use gacha_mind.Web.Mirror.Members.{remove_player-Hears, leave_session-Mirrors}
use gacha_mind.Web.Mirror.Join.{
  greeted-room, log_more, log_more-Mirrors, admit-Hears, greets_other-Mirrors, greets_me-Mirrors,
}
use gacha_mind.Web.Mirror.Run.{
  Event, joins, leaves, says, draws_stroke, clears, starts, ticks, elsewhere, happen, MayCome,
  Attends, arrives, stays,
}

module _ (lower : Text → Text) (clock : ℕ → ℕ) (id : ℕ) (c : Client) where
  record IsLive (s : Session) : Type 0 where
    sound : IsSound s.room
    hears : Hears id s.room
    mirrors : Mirrors clock id c s

  pub happen-IsSound :
      (event : Event) (s : Session)
      → MayCome id event s
      → IsSound s.room
      → IsSound (happen lower event s).room
  unfolding happen MayCome
  happen-IsSound (joins e i m es) s may v =
      subst IsSound (sym (greeted-room e.now _ es s))
        (unfold enter_session new_player emit in admit-IsSound _ s.room may.0 may.1 v)
  happen-IsSound (leaves now x) s may v = left-IsSound now x s v
  happen-IsSound (says now x text) s may v = (handle_chat-IsKept lower now x text s v).sound
  happen-IsSound (draws_stroke x raw) s may v = (after_draw-IsKept x raw s v).sound
  happen-IsSound (clears x) s may v = (handle_draw_clear-IsKept x s v).sound
  happen-IsSound (starts e) s may v = start_game-IsSound e s v
  happen-IsSound (ticks e) s may v = fire_timer-IsSound e s v
  happen-IsSound (elsewhere es) s may v = unfold log_more in v

  -- A newcomer is not the player, who is in the room already.
  newcomer_other :
      (x : ℕ) (r : Room) → elem x (ids r.players) ≡ false → Hears id r → (x == id) ≡ false
  newcomer_other x r fresh h = elim (Bool-cases (x == id)) [
    | inr other ↦ other
    | inl same ↦
        let here : elem id (ids r.players) ≡ false =
          subst (λ k. elem k (ids r.players) ≡ false) (==→eq x id same) fresh in
        absurd (false≢true (sym (listens-elem id r.players here) ∙ h.open_seat))
  ]

  happen-Hears :
      (event : Event) (s : Session)
      → MayCome id event s
      → IsSound s.room
      → Hears id s.room
      → Hears id (happen lower event s).room
  unfolding happen MayCome
  happen-Hears (joins e i m es) s may v h = subst (Hears id) (sym (greeted-room e.now _ es s)) (
      unfold enter_session new_player emit in
      admit-Hears clock id c _ s.room may.0 h.unique
        (rw (newcomer_other e.fresh_id s.room may.0 h) h.open_seat))
  happen-Hears (leaves now x) s may v h =
      unfold leave_session notice broadcast in
      Keeps-Hears id (remove_player x s.room) _ (handle_player_left-Keeps now x _)
        (remove_player-Hears id x s.room may h)
  happen-Hears (says now x text) s may v h =
      Keeps-Hears id s.room _ (handle_chat-IsKept lower now x text s v).keeps h
  happen-Hears (draws_stroke x raw) s may v h =
      Keeps-Hears id s.room _ (after_draw-IsKept x raw s v).keeps h
  happen-Hears (clears x) s may v h =
      Keeps-Hears id s.room _ (handle_draw_clear-IsKept x s v).keeps h
  happen-Hears (starts e) s may v h = Keeps-Hears id s.room _ (start_game-Keeps e s) h
  happen-Hears (ticks e) s may v h = Keeps-Hears id s.room _ (fire_timer-Keeps e s) h
  happen-Hears (elsewhere es) s may v h = unfold log_more in h

  happen-Mirrors :
      (event : Event) (s : Session)
      → MayCome id event s
      → IsSound s.room
      → Hears id s.room
      → Mirrors clock id c s
      → Mirrors clock id c (happen lower event s)
  unfolding happen MayCome
  happen-Mirrors (joins e i m es) s may v h shows =
      greets_other-Mirrors clock id c e.now (new_player e.fresh_id i m) es s
        (unfold new_player in newcomer_other e.fresh_id s.room may.0 h) (unfold new_player in may.0)
        may.2 h shows
  happen-Mirrors (leaves now x) s may v h shows =
      leave_session-Mirrors clock id c now x s may h shows
  happen-Mirrors (says now x text) s may v h shows =
      handle_chat-Mirrors clock id c lower now x text s h shows
  happen-Mirrors (draws_stroke x raw) s may v h shows =
      after_draw-Mirrors clock id c x raw s h shows
  happen-Mirrors (clears x) s may v h shows = handle_draw_clear-Mirrors clock id c x s h shows
  happen-Mirrors (starts e) s may v h shows = start_game-Mirrors clock id c e s v.members h shows
  happen-Mirrors (ticks e) s may v h shows = fire_timer-Mirrors clock id c e s v.members h shows
  happen-Mirrors (elsewhere es) s may v h shows = log_more-Mirrors clock id c es s may shows

  happen-IsLive :
      (event : Event) (s : Session) → MayCome id event s → IsLive s → IsLive (happen lower event s)
  happen-IsLive event s may v = record {
    sound = happen-IsSound event s may v.sound;
    hears = happen-Hears event s may v.sound v.hears;
    mirrors = happen-Mirrors event s may v.sound v.hears v.mirrors;
  }

  arrives-IsLive :
      (e : Env) (i : Option Identity) (m : JoinMessage) (es : List Effect) (s : Session)
      → e.fresh_id ≡ id
      → IsSound s.room
      → MayCome id (joins e i m es) s
      → IsLive (happen lower (joins e i m es) s)
  arrives-IsLive e i m es s me v may = record {
    sound = happen-IsSound (joins e i m es) s may v;
    hears =
        unfold happen MayCome in
        subst (Hears id) (sym (greeted-room e.now _ es s)) (
          unfold enter_session new_player emit in
          admit-Hears clock id c _ s.room may.0 v.members.unique
            (rw (ap (λ x. x == id) me ∙ ==_refl id) refl));
    mirrors =
        unfold happen MayCome in
        greets_me-Mirrors clock id c e.now (new_player e.fresh_id i m) es s
          (unfold new_player in me) (unfold new_player in refl) (unfold new_player in may.0)
          v.members.unique;
  }

  Attends-IsLive : {s : Session} → Attends lower id s → IsLive s
  Attends-IsLive (arrives e i m es s me v may) = arrives-IsLive e i m es s me v may
  Attends-IsLive (stays {s} event a may) = happen-IsLive event s may (Attends-IsLive a)

  -- From the join of a player to a sound room on, and for as long as the player stays, the browser
  -- that receives the messages to the player, in order and at whatever times, shows the room's phase,
  -- round, number of rounds and drawer, and who its players are, with their nicknames and in their
  -- order, exactly as the process has them after each event. Newcomers are assumed to get fresh
  -- identifiers. The scores of the players are not part of it.
  pub Attends-Mirrors : {s : Session} → Attends lower id s → Mirrors clock id c s
  Attends-Mirrors a = (Attends-IsLive a).mirrors
