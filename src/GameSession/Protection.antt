-- ===== src/GameSession/Protection.antt =====
-- apps/game-session/src/protection.ts: the mark that keeps a task with rooms from being scaled in.
-- `syncTaskProtection` is cut at its await: it sends a request, and what comes after the await runs
-- when the request is answered, with other calls and answers in between. Whether the agent takes a
-- request is an argument; times are in milliseconds.
pub mod Laws
mod Tests
use gacha_mind.Base.{
  ℕ, zero, suc, ◌-◌, ◌*◌, ◌/◌, Bool, true, false, ◌&&◌, not, Option, none, some, is_some, ltb, List,
  [], ◌∷◌, ◌++◌, if◌then◌else◌,
}

abbrev pub protection_expires_minutes : ℕ
protection_expires_minutes = 60

abbrev pub protection_refresh_ms : ℕ
protection_refresh_ms = protection_expires_minutes / 2 * 60000

-- A request on its way: to set the mark, with the time of the call, or to clear it.
pub data Request : Type 0 where
  marks : (at : ℕ) → Request
  unmarks : Request

-- `protectedSince`, and the calls that await an answer.
pub record Protection : Type 0 where
  pub protected_since : Option ℕ
  pub in_flight : List Request

-- No mark, or one that is old.
unfoldable pub needs_mark : ℕ → Option ℕ → Bool
needs_mark now none = true
needs_mark now (some t) = ltb protection_refresh_ms (now - t)

unfoldable pub ask : Request → Protection → Protection
ask r p = record p { in_flight = p.in_flight ++ r ∷ [] }

-- To the await. `has_agent`: the process runs as a task, so that there is an agent to ask.
unfoldable pub sync_task_protection :
    (has_agent : Bool) (now room_count : ℕ) → Protection → Protection
unfolding needs_mark ask
sync_task_protection has_agent now room_count p =
    if has_agent
    then if ltb 0 room_count && needs_mark now p.protected_since
      then ask (marks now) p
      else if not (ltb 0 room_count) && is_some p.protected_since
      then ask unmarks p
      else p
    else p

-- The call at that place, and the others.
unfoldable pub take_out : ℕ → List Request → Option Request × List Request
take_out i [] = (none, [])
take_out zero (r ∷ rs) = (some r, rs)
take_out (suc i) (r ∷ rs) = let rest = take_out i rs in (rest.0, r ∷ rest.1)

unfoldable pub mark_of : Request → Option ℕ
mark_of (marks at) = some at
mark_of unmarks = none

unfoldable pub outcome : (taken : Bool) → Option Request → Option ℕ → Option ℕ
unfolding mark_of
outcome taken none since = since
outcome taken (some r) since = if taken then mark_of r else since

-- After the await, of the call at place `i`; a request that is refused or lost throws, and the mark
-- is left as it is.
unfoldable pub resume_sync : (i : ℕ) (taken : Bool) → Protection → Protection
unfolding take_out outcome
resume_sync i taken p = record {
  protected_since = outcome taken (take_out i p.in_flight).0 p.protected_since;
  in_flight = (take_out i p.in_flight).1;
}
