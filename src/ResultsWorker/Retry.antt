-- ===== src/ResultsWorker/Retry.antt =====
-- The worker and the user service together: requests and replies that are lost.
use gacha_mind.Base.{
  length, ◌&&◌, if◌then◌else◌, ℕ, ◌+◌, ◌≡◌, refl, ap, ◌∙◌, inl, inr, Bool, true, false, List, [],
  ◌∷◌, ◌++◌, none, some, arith, Bool-cases, leb, ltb,
}
use gacha_mind.Shared.Account.{GameResultPlayer, GameFinishedEvent}
use gacha_mind.UserService.History.{GameRow, Database, has_game, game_row, save_game_result}
use gacha_mind.UserService.History.Once.{save_players-games}
use gacha_mind.ResultsWorker.{
  Response, failed, responded, game_finished, Verdict, acked, requeued, thrown, handle_message,
  deliver, settle, is_ok, is_permanent, of_body,
}

-- What becomes of one request to `/internal/games`: it is lost, its transaction runs but the reply is
-- lost, the service fails with a status from 500 on before the transaction, or it answers.
pub data Fate : Type 0 where
  request_lost reply_lost answered : Fate
  server_error : (above : ℕ) → Fate

has_ranks : List GameResultPlayer → Bool
has_ranks [] = true
has_ranks (p ∷ ps) = leb 1 p.rank && has_ranks ps

-- What `GameFinishedDto` asks of an event beyond the types of its fields.
unfoldable pub is_accepted : GameFinishedEvent → Bool
unfolding has_ranks
is_accepted event = leb 1 (length event.players) && has_ranks event.players

-- `InternalController.recordGame`: 200 and `{ saved }`, or 400 from the `ValidationPipe`.
unfoldable pub record_game : GameFinishedEvent → Database → Database × Response
record_game event db =
    if is_accepted event
    then ((save_game_result event db).0, responded 200 (some (save_game_result event db).1))
    else (db, responded 400 none)

-- The tables after the request, and what the worker sees of it.
unfoldable pub request : Fate → GameFinishedEvent → Database → Database × Response
unfolding record_game
request request_lost event db = (db, failed)
request reply_lost event db = ((record_game event db).0, failed)
request (server_error above) event db = (db, responded (500 + above) none)
request answered event db = record_game event db

-- A message that is not acknowledged is delivered again.
unfoldable pub stop_or : Verdict → Database → Database × Verdict → Database × Verdict
stop_or acked db rest = (db, acked)
stop_or requeued db rest = rest
stop_or thrown db rest = rest

-- The deliveries of one message, each with its fate, until the worker acknowledges it.
unfoldable pub retry : List Fate → GameFinishedEvent → Database → Database × Verdict
unfolding stop_or
retry [] event db = (db, requeued)
retry (fate ∷ fates) event db =
    stop_or (handle_message (request fate event db).1 (game_finished event))
      (request fate event db).0 (retry fates event (request fate event db).0)

has_game_last :
    (id : ℕ) (gs : List GameRow) (g : GameRow) → g.id ≡ id → has_game id (gs ++ g ∷ []) ≡ true
unfolding has_game
has_game_last id [] g e = ground arith
has_game_last id (h ∷ gs) g e = ground (arith, has_game_last id gs g e)

has_game-saved :
    (event : GameFinishedEvent) (db : Database)
    → has_game event.game_id (save_game_result event db).0.games ≡ true
unfolding save_game_result
has_game-saved event db = elim (Bool-cases (has_game event.game_id db.games)) [
  | inl known ↦ rw (known, known) refl
  | inr new ↦
      rw
        (
          new,
          save_players-games event event.players
              (record db { games = db.games ++ game_row event ∷ [] }),
        )
        (has_game_last event.game_id db.games (game_row event) (unfold game_row in refl))
]

save_game_result_known :
    (event : GameFinishedEvent) (db : Database)
    → has_game event.game_id db.games ≡ true
    → save_game_result event db ≡ (db, false)
unfolding save_game_result
save_game_result_known event db known = rw known refl

save_game_result_twice :
    (event : GameFinishedEvent) (db : Database)
    → save_game_result event (save_game_result event db).0 ≡ ((save_game_result event db).0, false)
save_game_result_twice event db =
    save_game_result_known event (save_game_result event db).0 (has_game-saved event db)

answered_acked :
    (event : GameFinishedEvent) (b : Bool)
    → handle_message (responded 200 (some b)) (game_finished event) ≡ acked
unfolding handle_message deliver settle is_ok of_body
answered_acked event true = refl
answered_acked event false = refl

failed_requeued :
    (event : GameFinishedEvent) → handle_message failed (game_finished event) ≡ requeued
unfolding handle_message deliver settle
failed_requeued event = refl

server_error_requeued :
    (event : GameFinishedEvent) (above : ℕ)
    → handle_message (responded (500 + above) none) (game_finished event) ≡ requeued
unfolding handle_message deliver settle is_ok is_permanent
server_error_requeued event above =
    let not_ok : leb (500 + above) 299 ≡ false = ground arith in
    let not_4xx : ltb (500 + above) 500 ≡ false = ground arith in ground arith

record_game_acked :
    (event : GameFinishedEvent) (db : Database)
    → handle_message (record_game event db).1 (game_finished event) ≡ acked
unfolding record_game
record_game_acked event db = elim (Bool-cases (is_accepted event)) [
  | inl fits ↦ rw fits (answered_acked event (save_game_result event db).1)
  | inr unfit ↦ rw unfit (unfold handle_message deliver settle is_ok is_permanent in refl)
]

record_game_twice :
    (event : GameFinishedEvent) (db : Database)
    → (record_game event (record_game event db).0).0 ≡ (record_game event db).0
unfolding record_game
record_game_twice event db = elim (Bool-cases (is_accepted event)) [
  | inl fits ↦ rw fits (ap (λ r. r.0) (save_game_result_twice event db))
  | inr unfit ↦ rw unfit refl
]

retry-record_game :
    (fates : List Fate) (event : GameFinishedEvent) (db : Database)
    → retry (fates ++ answered ∷ []) event db ≡ ((record_game event db).0, acked)
unfolding retry request
retry-record_game [] event db = rw (record_game_acked event db) refl
retry-record_game (answered ∷ fates) event db = rw (record_game_acked event db) refl
retry-record_game (request_lost ∷ fates) event db =
    rw (failed_requeued event) (retry-record_game fates event db)
retry-record_game (reply_lost ∷ fates) event db = rw (failed_requeued event) (
    retry-record_game fates event (record_game event db).0
    ∙ ap (λ tables. (tables, acked)) (record_game_twice event db))
retry-record_game (server_error above ∷ fates) event db =
    rw (server_error_requeued event above) (retry-record_game fates event db)

-- However many deliveries of a result are lost on the way there, lost on the way back or answered
-- with a status from 500 on, once one is answered the message is acknowledged. If the user service
-- accepts the form of the result, the tables are then those that recording the game a single time
-- gives; if not, they are as before.
pub retry-once :
    (fates : List Fate) (event : GameFinishedEvent) (db : Database)
    → retry (fates ++ answered ∷ []) event db
      ≡ (if is_accepted event then (save_game_result event db).0 else db, acked)
unfolding record_game
retry-once fates event db = elim (Bool-cases (is_accepted event)) [
  | inl fits ↦ rw fits (retry-record_game fates event db ∙ rw fits refl)
  | inr unfit ↦ rw unfit (retry-record_game fates event db ∙ rw unfit refl)
]
