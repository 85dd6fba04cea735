-- ===== src/GameSession/Invariant/Members.antt =====
-- Each change of a room keeps its members in order.
use gacha_mind.Base.{
  ℕ, ◌≡◌, refl, ap, true, false, List, [], ◌∷◌, ◌++◌, Option, none, some, arith, length, elem,
  All-append, without-Distinct, without-Within, Within-snoc, Distinct-snoc, ◌∙◌, length-append, leb,
  Bool-cases, inl, inr,
}
use gacha_mind.Shared.Protocol.{StrokeSegment}
use gacha_mind.GameSession.Room.{
  Player, Room, ids, add_player, remove_player, put_player, add_stroke, is_full,
}
use gacha_mind.GameSession.Room.Laws.{
  ids-drop_player, ids-put_player, length-drop_player-le, length-put_player-le, length-ids,
}
use gacha_mind.GameSession.Shuffle.Laws.{shuffle-Distinct, take-Distinct, take-shuffle-Within}
use gacha_mind.GameSession.Game.{
  Env, add_score, reset_scores, close_game, open_round, open_game, close_round,
}
use gacha_mind.GameSession.Guess.{pay_drawer, award}
use gacha_mind.GameSession.Invariant.{HasMembers}

pub ids-add_score : (id n : ℕ) (ps : List Player) → ids (add_score id n ps) ≡ ids ps
unfolding add_score
ids-add_score id n [] = refl
ids-add_score id n (p ∷ ps) = ground (arith, ids-add_score id n ps)

pub ids-reset_scores : (ps : List Player) → ids (reset_scores ps) ≡ ids ps
unfolding reset_scores
ids-reset_scores [] = refl
ids-reset_scores (p ∷ ps) = ap (◌∷◌ p.id) (ids-reset_scores ps)

pub ids-pay_drawer : (d : Option ℕ) (ps : List Player) → ids (pay_drawer d ps) ≡ ids ps
unfolding pay_drawer
ids-pay_drawer none ps = refl
ids-pay_drawer (some d) ps = ids-add_score d _ ps

-- Equal keys are as many players.
pub size_of_ids : (ps qs : List Player) → ids ps ≡ ids qs → length ps ≡ length qs
size_of_ids ps qs e = omega (arith, length-ids ps, length-ids qs, ap length e)

pub close_game-HasMembers : (r : Room) → HasMembers r → HasMembers (close_game r)
unfolding close_game
close_game-HasMembers r m = record {
  unique = m.unique;
  fits = m.fits;
  queue_unique = tt;
  queue_within = tt;
  solved_within = m.solved_within;
  strokes_bounded = m.strokes_bounded;
}

pub open_round-HasMembers :
    (e : Env) (d : Player) (r : Room) → HasMembers r → HasMembers (open_round e d r)
unfolding open_round
open_round-HasMembers e d r m = record {
  unique = m.unique;
  fits = m.fits;
  queue_unique = m.queue_unique;
  queue_within = m.queue_within;
  solved_within = tt;
  strokes_bounded = omega arith;
}

pub open_game-HasMembers : (e : Env) (r : Room) → HasMembers r → HasMembers (open_game e r)
unfolding open_game
open_game-HasMembers e r m =
    let same = ids-reset_scores r.players in
    record {
      unique = rw same m.unique;
      fits = omega (arith, m.fits, size_of_ids (reset_scores r.players) r.players same);
      queue_unique = take-Distinct _ _ (shuffle-Distinct e.rolls (ids r.players) m.unique);
      queue_within = rw same (take-shuffle-Within _ e.rolls (ids r.players));
      solved_within = rw same m.solved_within;
      strokes_bounded = m.strokes_bounded;
    }

pub close_round-HasMembers : (r : Room) → HasMembers r → HasMembers (close_round r)
unfolding close_round
close_round-HasMembers r m = record {
  unique = m.unique;
  fits = m.fits;
  queue_unique = m.queue_unique;
  queue_within = m.queue_within;
  solved_within = m.solved_within;
  strokes_bounded = m.strokes_bounded;
}

pub add_stroke-HasMembers :
    (stroke : StrokeSegment) (r : Room) → HasMembers r → HasMembers (add_stroke stroke r)
unfolding add_stroke
add_stroke-HasMembers stroke r m = elim (Bool-cases (leb 3000 (length r.strokes))) [
  | inl full ↦ rw full m
  | inr room ↦ rw room (record {
    unique = m.unique;
    fits = m.fits;
    queue_unique = m.queue_unique;
    queue_within = m.queue_within;
    solved_within = m.solved_within;
    strokes_bounded = ground (arith, length-append r.strokes (stroke ∷ []));
  })
]

-- Whoever leaves is gone from the players, from the queue and from those who have answered.
pub remove_player-HasMembers : (id : ℕ) (r : Room) → HasMembers r → HasMembers (remove_player id r)
unfolding remove_player
remove_player-HasMembers id r m =
    let same = ids-drop_player id r.players in
    record {
      unique = rw same (without-Distinct id _ m.unique);
      fits = omega (arith, m.fits, length-drop_player-le id r.players);
      queue_unique = without-Distinct id _ m.queue_unique;
      queue_within = rw same (without-Within id _ _ m.queue_within);
      solved_within = rw same (without-Within id _ _ m.solved_within);
      strokes_bounded = m.strokes_bounded;
    }

-- A player under a fresh identifier, in a room with a free place.
pub add_player-HasMembers :
    (p : Player) (r : Room)
    → elem p.id (ids r.players) ≡ false
    → is_full r ≡ false
    → HasMembers r
    → HasMembers (add_player p r)
unfolding add_player is_full
add_player-HasMembers p r fresh free m =
    let same : ids (put_player p r.players) ≡ ids r.players ++ p.id ∷ [] =
      ground (arith, ids-put_player p r.players) in
    record {
      unique = rw same (Distinct-snoc p.id _ fresh m.unique);
      fits = ground (arith, length-put_player-le p r.players);
      queue_unique = m.queue_unique;
      queue_within = rw same (Within-snoc p.id _ _ m.queue_within);
      solved_within = rw same (Within-snoc p.id _ _ m.solved_within);
      strokes_bounded = m.strokes_bounded;
    }

-- Someone of the room who is not in the queue joins its end.
pub queue_snoc-HasMembers :
    (id : ℕ) (r : Room)
    → elem id (ids r.players) ≡ true
    → elem id r.drawer_queue ≡ false
    → HasMembers r
    → HasMembers (record r { drawer_queue = r.drawer_queue ++ id ∷ [] })
queue_snoc-HasMembers id r here out m = record {
  unique = m.unique;
  fits = m.fits;
  queue_unique = Distinct-snoc id _ out m.queue_unique;
  queue_within = All-append _ r.drawer_queue (id ∷ []) m.queue_within (here, tt);
  solved_within = m.solved_within;
  strokes_bounded = m.strokes_bounded;
}

pub ids-award : (now id : ℕ) (r : Room) → ids (award now id r).players ≡ ids r.players
unfolding award
ids-award now id r = ids-pay_drawer r.drawer_id _ ∙ ids-add_score id _ r.players

pub award-HasMembers :
    (now id : ℕ) (r : Room)
    → elem id (ids r.players) ≡ true
    → HasMembers r
    → HasMembers (award now id r)
unfolding award
award-HasMembers now id r here m =
    let same = ids-award now id r in
    record {
      unique = rw same m.unique;
      fits = omega (arith, m.fits, size_of_ids (award now id r).players r.players same);
      queue_unique = m.queue_unique;
      queue_within = rw same m.queue_within;
      solved_within =
          rw same (All-append _ r.solved_player_ids (id ∷ []) m.solved_within (here, tt));
      strokes_bounded = m.strokes_bounded;
    }
