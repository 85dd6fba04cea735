-- ===== src/UserService/History/Once.antt =====
-- However often the queue delivers a result, it counts once.
use gacha_mind.Base.{
  ℕ, ◌≡◌, refl, sym, ap, ◌∙◌, inl, inr, Bool, true, false, List, [], ◌∷◌, ◌++◌, map, Option, none,
  some, arith, elem, ◌==◌, if◌then◌else◌, Bool-cases,
}
use mathlib.Core.List.{map-append}
use gacha_mind.Shared.Account.{GameResultPlayer, GameFinishedEvent, PlayerStats}
use gacha_mind.UserService.History.{
  GameRow, UserStats, Database, has_game, game_row, win, first_stats, update_stats, upsert_stats,
  count_for, save_player, save_players, save_game_result, find_stats, empty_stats, stats_of_row,
  get_stats,
}
use gacha_mind.UserService.History.Merge.{
  merge, later, stats_ext, merge_assoc, merge-empty, empty-merge,
}

abbrev pub empty_database : Database
empty_database = record { games = []; game_players = []; user_stats = [] }

-- The queue's deliveries, in their order.
unfoldable pub save_all : List GameFinishedEvent → Database → Database
save_all [] db = db
save_all (event ∷ events) db = save_all events (save_game_result event db).0

-- The events whose game no earlier one has named.
unfoldable pub first_deliveries : List ℕ → List GameFinishedEvent → List GameFinishedEvent
first_deliveries seen [] = []
first_deliveries seen (event ∷ events) =
    if elem event.game_id seen
    then first_deliveries seen events
    else event ∷ first_deliveries (seen ++ event.game_id ∷ []) events

unfoldable pub one_game : ℕ → GameResultPlayer → PlayerStats
one_game finished_at p = record {
  games_played = 1;
  wins = win p;
  total_score = p.score;
  best_score = p.score;
  last_played_at = some finished_at;
}

unfoldable pub is_user : Option ℕ → ℕ → Bool
is_user none user = false
is_user (some u) user = u == user

unfoldable pub stats_of_players : ℕ → ℕ → List GameResultPlayer → PlayerStats
unfolding one_game is_user
stats_of_players user finished_at [] = empty_stats
stats_of_players user finished_at (p ∷ ps) =
    merge (if is_user p.user_id user then one_game finished_at p else empty_stats)
      (stats_of_players user finished_at ps)

-- What one would count from the games themselves.
unfoldable pub stats_of_events : ℕ → List GameFinishedEvent → PlayerStats
unfolding stats_of_players
stats_of_events user [] = empty_stats
stats_of_events user (event ∷ events) =
    merge (stats_of_players user event.finished_at event.players) (stats_of_events user events)

update_stats-merge :
    (x row : UserStats)
    → x.games_played ≡ 1
    → stats_of_row (some (update_stats x row))
      ≡ merge (stats_of_row (some row)) (stats_of_row (some x))
unfolding update_stats stats_of_row merge later
update_stats-merge x row one = stats_ext (omega (arith, one)) refl refl refl refl

none-merge : (a : PlayerStats) → merge (stats_of_row none) a ≡ a
unfolding stats_of_row
none-merge a = empty-merge a

upsert_stats-merge :
    (user : ℕ) (x : UserStats) (rows : List UserStats)
    → x.games_played ≡ 1
    → stats_of_row (find_stats user (upsert_stats x rows))
      ≡ merge
          (stats_of_row (find_stats user rows))
          (if x.user_id == user then stats_of_row (some x) else empty_stats)
unfolding upsert_stats find_stats
upsert_stats-merge user x [] one = elim (Bool-cases (x.user_id == user)) [
  | inl e ↦ rw e (sym (none-merge _))
  | inr e ↦ rw e (sym (merge-empty _))
]
upsert_stats-merge user x (row ∷ rows) one = elim (Bool-cases (row.user_id == x.user_id)) [
  | inl hit ↦ elim (Bool-cases (row.user_id == user)) [
    | inl mine ↦
        let same : x.user_id == user ≡ true = ground arith in
        rw (hit, same, mine) (update_stats-merge x row one)
    | inr other ↦
        let different : x.user_id == user ≡ false = ground arith in
        rw (hit, different) (unfold update_stats in rw other (sym (merge-empty _)))
  ]
  | inr miss ↦ elim (Bool-cases (row.user_id == user)) [
    | inl mine ↦
        let different : x.user_id == user ≡ false = ground arith in
        rw (miss, different, mine) (sym (merge-empty _))
    | inr other ↦ rw (miss, other) (upsert_stats-merge user x rows one)
  ]
]

count_for-merge :
    (user t : ℕ) (found : Option ℕ) (p : GameResultPlayer) (rows : List UserStats)
    → stats_of_row (find_stats user (count_for found t p rows))
      ≡ merge
          (stats_of_row (find_stats user rows))
          (if is_user found user then one_game t p else empty_stats)
unfolding count_for is_user
count_for-merge user t none p rows = sym (merge-empty _)
count_for-merge user t (some u) p rows =
    upsert_stats-merge user (first_stats t u p) rows (unfold first_stats in refl)
    ∙ (unfold first_stats stats_of_row one_game in refl)

save_players-merge :
    (user : ℕ) (event : GameFinishedEvent) (ps : List GameResultPlayer) (db : Database)
    → get_stats user (save_players event ps db)
      ≡ merge (get_stats user db) (stats_of_players user event.finished_at ps)
unfolding save_players save_player stats_of_players get_stats
save_players-merge user event [] db = sym (merge-empty _)
save_players-merge user event (p ∷ ps) db =
    save_players-merge user event ps (save_player event p db)
    ∙ ap (λ m. merge m (stats_of_players user event.finished_at ps))
        (count_for-merge user event.finished_at p.user_id p db.user_stats)
    ∙ merge_assoc _ _ _

pub save_players-games :
    (event : GameFinishedEvent) (ps : List GameResultPlayer) (db : Database)
    → (save_players event ps db).games ≡ db.games
unfolding save_players save_player
save_players-games event [] db = refl
save_players-games event (p ∷ ps) db = save_players-games event ps (save_player event p db)

abbrev pub game_ids : List GameRow → List ℕ
game_ids = map (λ g. g.id)

has_game-elem : (id : ℕ) (gs : List GameRow) → has_game id gs ≡ elem id (game_ids gs)
unfolding has_game elem
has_game-elem id [] = refl
has_game-elem id (g ∷ gs) = ground (arith, has_game-elem id gs)

add_game-stats :
    (user : ℕ) (g : GameRow) (db : Database)
    → get_stats user (record db { games = db.games ++ g ∷ [] }) ≡ get_stats user db
unfolding get_stats
add_game-stats user g db = refl

empty_database-stats : (user : ℕ) (a : PlayerStats) → merge (get_stats user empty_database) a ≡ a
unfolding get_stats find_stats
empty_database-stats user a = none-merge a

-- From any tables, the deliveries add to a user's statistics what the games count for that the
-- tables do not hold and that come for the first time.
save_all-merge :
    (user : ℕ) (events : List GameFinishedEvent) (db : Database)
    → get_stats user (save_all events db)
      ≡ merge
          (get_stats user db)
          (stats_of_events user (first_deliveries (game_ids db.games) events))
unfolding save_all first_deliveries stats_of_events save_game_result
save_all-merge user [] db = sym (merge-empty _)
save_all-merge user (event ∷ events) db = elim (Bool-cases (has_game event.game_id db.games)) [
  | inl known ↦
      rw (known, sym (has_game-elem event.game_id db.games) ∙ known) (save_all-merge user events db)
  | inr new ↦
      let opened = record db { games = db.games ++ game_row event ∷ [] } in
      let saved = save_players event event.players opened in
      let ids : game_ids saved.games ≡ game_ids db.games ++ event.game_id ∷ [] =
        ap game_ids (save_players-games event event.players opened)
        ∙ map-append (λ g. g.id) db.games (game_row event ∷ [])
        ∙ (unfold game_row in refl) in
      rw (new, sym (has_game-elem event.game_id db.games) ∙ new)
        (save_all-merge user events saved
          ∙ ap
              (λ seen.
                merge (get_stats user saved) (stats_of_events user (first_deliveries seen events)))
              ids
          ∙ ap
              (λ m. merge m (
                stats_of_events user
                  (first_deliveries (game_ids db.games ++ event.game_id ∷ []) events)))
              (save_players-merge user event event.players opened
                ∙ ap (λ m. merge m (stats_of_players user event.finished_at event.players))
                    (add_game-stats user (game_row event) db))
          ∙ merge_assoc _ _ _)
]

-- Whatever the queue delivers, in whatever order and however often, into empty tables, what the
-- service reads as a user's statistics is what one counts from the games that were delivered, each
-- at its first delivery: games, first places, the sum and the best of the scores, the last date.
pub save_all-once :
    (user : ℕ) (events : List GameFinishedEvent)
    → get_stats user (save_all events empty_database)
      ≡ stats_of_events user (first_deliveries [] events)
save_all-once user events = save_all-merge user events empty_database ∙ empty_database-stats user _
