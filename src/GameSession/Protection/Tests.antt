-- ===== src/GameSession/Protection/Tests.antt =====
-- Marks of a task with two rooms, in milliseconds.
use gacha_mind.Base.{◌≡◌, true, false, some, none, List, [], ◌∷◌, arith}
use gacha_mind.GameSession.Protection.{marks, Protection, sync_task_protection, resume_sync}
use gacha_mind.GameSession.Protection.Laws.{
  IsCovered, Event, syncs, answers, on_events, sync_task_protection-IsCovered,
  sync_task_protection-lapses,
}

-- The mark is forty minutes old, and another call awaits its answer for ten minutes.
abbrev stale : Protection
stale = record { protected_since = some 600000; in_flight = marks 2400000 ∷ [] }

-- The call at fifty minutes is answered after the one before; a call in between finds a fresh mark.
abbrev events : List Event
events = syncs 3100000 2 ∷ answers 0 true ∷ answers 0 false ∷ []

sync_task_protection-IsCovered_example :
    IsCovered 4800000
      (on_events events
        (resume_sync 0 true (sync_task_protection true 3000000 2 stale))).protected_since
sync_task_protection-IsCovered_example =
    sync_task_protection-IsCovered 3000000 4800000 2 stale events (omega arith) (omega arith, tt)
      ((omega arith, omega arith), (tt, (tt, tt))) (omega arith)

sync_task_protection-lapses_example :
    resume_sync 0 true (
      sync_task_protection true 61000 1
        (sync_task_protection true 60000 0 (record { protected_since = some 0; in_flight = [] })))
    ≡ record { protected_since = none; in_flight = [] }
sync_task_protection-lapses_example =
    sync_task_protection-lapses 60000 61000 0 1 (omega arith) (omega arith)
