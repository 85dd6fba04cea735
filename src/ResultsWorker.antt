-- ===== src/ResultsWorker.antt =====
-- apps/results-worker/src/index.ts: `deliver` and `handleMessage`, between the queue and the user
-- service. What `fetch` gives is a value of the model; the two-second wait before a message goes back
-- to the queue is left out.
pub mod Retry
mod Tests
use gacha_mind.Base.{
  ℕ, Bool, true, false, ◌&&◌, not, Option, none, some, leb, ltb, ◌==◌, if◌then◌else◌,
}
use gacha_mind.Shared.Account.{GameFinishedEvent}

-- What `fetch` gives: an exception, or a status with the field `saved` of the body, where it has one.
pub data Response : Type 0 where
  failed : Response
  responded : (status : ℕ) (saved : Option Bool) → Response

pub data Delivery : Type 0 where
  saved duplicate rejected unavailable : Delivery

-- `body.saved === false`
unfoldable pub of_body : Option Bool → Delivery
of_body none = saved
of_body (some true) = saved
of_body (some false) = duplicate

-- `res.ok`
unfoldable pub is_ok : ℕ → Bool
is_ok status = leb 200 status && leb status 299

unfoldable pub is_permanent : ℕ → Bool
is_permanent status = leb 400 status && ltb status 500 && not (status == 404)

unfoldable pub deliver : Response → Delivery
unfolding of_body is_ok is_permanent
deliver failed = unavailable
deliver (responded status body) =
    if is_ok status then of_body body else if is_permanent status then rejected else unavailable

-- A message after `JSON.parse`: `null_value` is JSON's null.
pub data Message : Type 0 where
  unparsable null_value unknown_type : Message
  game_finished : GameFinishedEvent → Message

-- What the worker does with a message: it is acknowledged, it goes back to the queue, or the handler
-- throws and the message stays unacknowledged.
pub data Verdict : Type 0 where
  acked requeued thrown : Verdict

unfoldable pub settle : Delivery → Verdict
settle saved = acked
settle duplicate = acked
settle rejected = acked
settle unavailable = requeued

-- The response is the one that the delivery meets, if the handler comes to it.
unfoldable pub handle_message : Response → Message → Verdict
unfolding settle deliver
handle_message response unparsable = acked
handle_message response null_value = thrown
handle_message response unknown_type = acked
handle_message response (game_finished event) = settle (deliver response)
