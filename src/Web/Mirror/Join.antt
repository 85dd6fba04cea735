-- ===== src/Web/Mirror/Join.antt =====
-- A join, against what the newcomer's browser and the others show.
use gacha_mind.Base.{
  ℕ, ◌≡◌, refl, sym, subst, ap, ◌∙◌, true, false, List, [], ◌∷◌, ◌++◌, none, some, elem, ◌==◌,
  if◌then◌else◌, Text, All, ==_refl, Distinct,
}
use gacha_mind.Shared.Protocol.{PlayerSummary, player_joined, room_state, system}
use gacha_mind.GameSession.Room.{
  Player, Room, Effect, Session, ids, is_drawer, find_player, change, emit, send, notice, broadcast,
  synced_occupancy,
}
use gacha_mind.GameSession.Room.Laws.{find_player-put}
use gacha_mind.GameSession.Server.{
  admit, enter_session, greet_session, snapshot_of, send_snapshot, announce_join,
}
use gacha_mind.GameSession.Server.Join.{admit-players}
use gacha_mind.GameSession.Invariant.Seats.{seats, listens}
use gacha_mind.Web.RoomSocket.{Client, receive, add_summary}
use gacha_mind.Web.Mirror.{addressed, mail, cons_some, Hears, Mirrors, view, shown, picture}
use gacha_mind.Web.Mirror.Delivery.{
  view-broadcast, view-broadcast_out, view-send, view-send_other, view-emit, view_none,
}
use gacha_mind.Web.Mirror.Game.{names-summaries, notice-Mirrors}
use gacha_mind.Web.Mirror.Members.{
  over_members, has_id-names, shown_names-snoc, put_player-Distinct, picture-admit,
  listens-put_player,
}

-- None of the effects is a message to that player.
abbrev pub Passes : ℕ → List Effect → Type 0
Passes id es = All (λ e. addressed id e ≡ none) es

-- What else the process does meanwhile: its reports, and the effects on other rooms.
unfoldable pub log_more : List Effect → Session → Session
log_more es s = record s { log = s.log ++ es }

pub mail-Passes : (id : ℕ) (es : List Effect) → Passes id es → mail id es ≡ []
unfolding mail cons_some
mail-Passes id [] h = refl
mail-Passes id (e ∷ es) h = rw (h.0, mail-Passes id es h.1)

pub greeted-room :
    (now : ℕ) (p : Player) (es : List Effect) (s : Session)
    → (greet_session now p (log_more es (enter_session p s))).room ≡ (enter_session p s).room
unfolding greet_session send_snapshot send announce_join notice broadcast log_more
greeted-room now p es s = refl

module _ (clock : ℕ → ℕ) (id : ℕ) (c : Client) where
  pub log_more-Mirrors :
      (es : List Effect) (s : Session)
      → Passes id es
      → Mirrors clock id c s
      → Mirrors clock id c (log_more es s)
  unfolding log_more
  log_more-Mirrors es s h m =
      view_none clock id c (λ v. shown v ≡ picture s.room) s.log es (mail-Passes id es h) m

  -- Whoever listens before a join does so after it.
  pub admit-Hears :
      (p : Player) (r : Room)
      → elem p.id (ids r.players) ≡ false
      → Distinct (ids r.players)
      → (if p.id == id then p.is_open else listens id (seats r.players)) ≡ true
      → Hears id (admit p r)
  admit-Hears p r fresh d seated = record {
    unique = rw (admit-players p r) (put_player-Distinct p r.players fresh d);
    open_seat = rw (admit-players p r) (listens-put_player id p r.players ∙ seated);
  }

  player_joined-Mirrors :
      (p : Player) (room : Text) (n : ℕ) (r : Room) (s : Session)
      → s.room ≡ admit p r
      → (p.id == id) ≡ false
      → elem p.id (ids r.players) ≡ false
      → Hears id s.room
      → shown (view clock id c s.log) ≡ picture r
      → Mirrors clock id c (
          broadcast
            (player_joined room (record { id = p.id; nickname = p.nickname; score = 0 }) n)
            (some p.id)
            s)
  unfolding broadcast is_drawer receive
  player_joined-Mirrors p room n r s same other fresh h m =
      view-broadcast clock id c (λ v. shown v ≡ picture s.room) _ (some p.id) s h other
        (λ t. joined)
    where
      newcomer : PlayerSummary
      newcomer = record { id = p.id; nickname = p.nickname; score = 0 }

      v : Client
      v = view clock id c s.log

      joined : shown (record v { players = add_summary newcomer v.players }) ≡ picture s.room
      joined =
          unfold add_summary in
          rw
            (
              has_id-names p.id v.players r.players (ap (λ q. q.members) m),
              fresh,
              shown_names-snoc v.players newcomer,
              same,
              picture-admit p r fresh,
            )
            (ap (over_members (λ ns. ns ++ (p.id, p.nickname) ∷ [])) m)

  pub greets_other-Mirrors :
      (now : ℕ) (p : Player) (es : List Effect) (s : Session)
      → (p.id == id) ≡ false
      → elem p.id (ids s.room.players) ≡ false
      → Passes id es
      → Hears id s.room
      → Mirrors clock id c s
      → Mirrors clock id c (greet_session now p (log_more es (enter_session p s)))
  unfolding greet_session announce_join
  greets_other-Mirrors now p es s other fresh passes h m =
      notice-Mirrors clock id c now _ _ (unfold broadcast in there)
        (player_joined-Mirrors p _ _ s.room snapshot same other fresh there seen)
    where
      before : Session
      before = log_more es (enter_session p s)

      snapshot : Session
      snapshot = send_snapshot now p before

      same : snapshot.room ≡ admit p s.room
      same = unfold send_snapshot send log_more enter_session emit in refl

      there : Hears id snapshot.room
      there =
          subst (Hears id) (sym same) (admit-Hears p s.room fresh h.unique (rw other h.open_seat))

      P : Client → Type 0
      P v = shown v ≡ picture s.room

      seen : P (view clock id c snapshot.log)
      seen =
          unfold send_snapshot in
          view-send_other clock id c P p.id _ before other (
            unfold log_more in
            view_none clock id c P (enter_session p s).log es (mail-Passes id es passes) (
              unfold enter_session in
              view-emit clock id c P (synced_occupancy (admit p s.room)) (change (admit p) s)
                (unfold addressed in refl) m))

  -- What the snapshot makes true of the newcomer's browser, and a notice keeps, holds after the join.
  module _ (P : Client → Type 0) (now : ℕ) (p : Player) (es : List Effect) (s : Session) where
    before : Session
    before = log_more es (enter_session p s)

    pub greets_me :
        p.id ≡ id
        → p.is_open ≡ true
        → elem p.id (ids s.room.players) ≡ false
        → Distinct (ids s.room.players)
        → ((t : ℕ) (v : Client)
            → P (
                receive t
                  (room_state (snapshot_of now p (log_more es (enter_session p s)).room))
                  v))
        → ((t : ℕ) (text : Text) (v : Client) → P v → P (receive t (system text now) v))
        → P (view clock id c (greet_session now p (log_more es (enter_session p s))).log)
    unfolding greet_session announce_join send_snapshot log_more send enter_session broadcast emit
        notice before
    greets_me me is_open fresh d shows keeps = view-broadcast clock id c P _ none _ there refl (λ t.
        keeps t _ _ (
          view-broadcast_out clock id c P _ (some p.id) snapshot there (unfold is_drawer in mine)
            seen))
      where
        snapshot : Session
        snapshot = send_snapshot now p before

        mine : (p.id == id) ≡ true
        mine = rw me (==_refl id)

        same : before.room ≡ admit p s.room
        same = unfold log_more enter_session emit in refl

        there : Hears id before.room
        there = subst (Hears id) (sym same) (admit-Hears p s.room fresh d (rw mine is_open))

        found : find_player p.id before.room.players ≡ some p
        found =
            subst (λ r. find_player p.id r.players ≡ some p) (sym same)
              (rw (admit-players p s.room, find_player-put p p.id s.room.players, ==_refl p.id)
                refl)

        seen : P (view clock id c snapshot.log)
        seen =
            unfold send_snapshot in
            view-send clock id c P p.id _ before p mine found there (λ t. shows t _)

  -- Whatever the newcomer's browser showed, the snapshot makes it show the room.
  pub greets_me-Mirrors :
      (now : ℕ) (p : Player) (es : List Effect) (s : Session)
      → p.id ≡ id
      → p.is_open ≡ true
      → elem p.id (ids s.room.players) ≡ false
      → Distinct (ids s.room.players)
      → Mirrors clock id c (greet_session now p (log_more es (enter_session p s)))
  unfolding receive
  greets_me-Mirrors now p es s me is_open fresh d =
      subst (λ r. shown (view clock id c greeted.log) ≡ picture r) (sym (greeted-room now p es s))
        (greets_me (λ v. shown v ≡ picture (enter_session p s).room) now p es s me is_open fresh d
          (λ t v. unfold log_more in rw (names-summaries (enter_session p s).room) refl)
          (λ t text v m. m))
    where
      greeted : Session
      greeted = greet_session now p (log_more es (enter_session p s))
