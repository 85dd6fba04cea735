-- ===== src/GameSession/Invariant/Seats.antt =====
-- What of the players the course of a game leaves alone: who they are, and which sockets are open.
use gacha_mind.Base.{
  ℕ, ◌≡◌, refl, ap, ◌∙◌, Bool, false, List, [], ◌∷◌, map, Option, none, some, Text, arith, ◌==◌,
  if◌then◌else◌,
}
use gacha_mind.GameSession.Room.{Player, Room}
use gacha_mind.GameSession.Game.{add_score, reset_scores}
use gacha_mind.GameSession.Guess.{award, pay_drawer}

pub record Seat : Type 0 where
  pub id : ℕ
  pub nickname : Text
  pub is_open : Bool

abbrev pub seat : Player → Seat
seat p = record { id = p.id; nickname = p.nickname; is_open = p.is_open }

abbrev pub seats : List Player → List Seat
seats = map seat

-- Whether a message to that player leaves the process.
unfoldable pub listens : ℕ → List Seat → Bool
listens id [] = false
listens id (p ∷ ps) = if p.id == id then p.is_open else listens id ps

abbrev pub names : List Seat → List (ℕ × Text)
names = map λ p. (p.id, p.nickname)

seats-add_score : (id n : ℕ) (ps : List Player) → seats (add_score id n ps) ≡ seats ps
unfolding add_score
seats-add_score id n [] = refl
seats-add_score id n (p ∷ ps) = ground (arith, seats-add_score id n ps)

pub seats-reset_scores : (ps : List Player) → seats (reset_scores ps) ≡ seats ps
unfolding reset_scores
seats-reset_scores [] = refl
seats-reset_scores (p ∷ ps) = ap (◌∷◌ (seat p)) (seats-reset_scores ps)

seats-pay_drawer : (d : Option ℕ) (ps : List Player) → seats (pay_drawer d ps) ≡ seats ps
unfolding pay_drawer
seats-pay_drawer none ps = refl
seats-pay_drawer (some d) ps = seats-add_score d _ ps

pub seats-award : (now id : ℕ) (r : Room) → seats (award now id r).players ≡ seats r.players
unfolding award
seats-award now id r = seats-pay_drawer r.drawer_id _ ∙ seats-add_score id _ r.players
