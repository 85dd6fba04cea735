-- ===== src/GameSession/Room/Log.antt =====
-- What holds of every message that leaves the process, through `send` and `broadcast`.
use gacha_mind.Base.{
  ℕ, ◌≡◌, refl, inl, inr, false, List, [], ◌∷◌, Option, none, some, All, All-append, Bool-cases,
}
use gacha_mind.Shared.Protocol.{ServerToClientMessage}
use gacha_mind.GameSession.Room.{
  Player, Effect, sent, replied, closed, synced_occupancy, published_load, synced_protection,
  notified_room_closed, published, Session, find_player, is_drawer, deliver_one, deliver_to,
  deliveries, send, broadcast, emit,
}
use gacha_mind.GameSession.Room.Laws.{find_player-some}

-- `Q` holds of each message to a player, with the player's identifier.
abbrev pub Sends : (ℕ → ServerToClientMessage → Type 0) → Effect → Type 0
Sends Q (sent id m) = Q id m
Sends Q (replied m) = Unit
Sends Q closed = Unit
Sends Q (synced_occupancy r) = Unit
Sends Q (published_load n k) = Unit
Sends Q (synced_protection n) = Unit
Sends Q (notified_room_closed id) = Unit
Sends Q (published e) = Unit

abbrev pub Logged : (ℕ → ServerToClientMessage → Type 0) → Session → Type 0
Logged Q s = All (Sends Q) s.log

module _ (Q : ℕ → ServerToClientMessage → Type 0) where
  deliver_one-Sends :
      (m : ServerToClientMessage) (p : Player) → Q p.id m → All (Sends Q) (deliver_one m p)
  unfolding deliver_one
  deliver_one-Sends m p q = elim (Bool-cases p.is_open) [ inl e ↦ rw e (q, tt) | inr e ↦ rw e tt ]

  deliveries-Sends :
      (m : ServerToClientMessage) (excluded : Option ℕ) (ps : List Player)
      → ((id : ℕ) → is_drawer excluded id ≡ false → Q id m)
      → All (Sends Q) (deliveries m excluded ps)
  unfolding deliveries
  deliveries-Sends m excluded [] q = tt
  deliveries-Sends m excluded (p ∷ ps) q = elim (Bool-cases (is_drawer excluded p.id)) [
    | inl e ↦ rw e (deliveries-Sends m excluded ps q)
    | inr e ↦ rw e (
        All-append (Sends Q) (deliver_one m p) _ (deliver_one-Sends m p (q p.id e))
          (deliveries-Sends m excluded ps q))
  ]

  pub broadcast-Logged :
      (m : ServerToClientMessage) (excluded : Option ℕ) (s : Session)
      → ((id : ℕ) → is_drawer excluded id ≡ false → Q id m)
      → Logged Q s
      → Logged Q (broadcast m excluded s)
  unfolding broadcast
  broadcast-Logged m excluded s q h =
      All-append (Sends Q) s.log _ h (deliveries-Sends m excluded s.room.players q)

  deliver_to-Sends :
      (id : ℕ) (m : ServerToClientMessage) (ps : List Player) (found : Option Player)
      → find_player id ps ≡ found
      → Q id m
      → All (Sends Q) (deliver_to m found)
  unfolding deliver_to
  deliver_to-Sends id m ps none f q = tt
  deliver_to-Sends id m ps (some p) f q =
      deliver_one-Sends m p (rw (find_player-some id ps p f).0 q)

  pub send-Logged :
      (id : ℕ) (m : ServerToClientMessage) (s : Session)
      → Q id m
      → Logged Q s
      → Logged Q (send id m s)
  unfolding send
  send-Logged id m s q h =
      All-append (Sends Q) s.log _ h
        (deliver_to-Sends id m s.room.players (find_player id s.room.players) refl q)

  pub emit-Logged : (e : Effect) (s : Session) → Sends Q e → Logged Q s → Logged Q (emit e s)
  unfolding emit
  emit-Logged e s q h = All-append (Sends Q) s.log (e ∷ []) h (q, tt)
