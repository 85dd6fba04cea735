-- ===== src/GameSession/Protection/Laws.antt =====
-- The mark does not lapse while there are rooms, unless a request to clear it is on its way.
use gacha_mind.Base.{
  ℕ, zero, suc, ◌+◌, ◌*◌, ◌≤◌, ◌<◌, ◌≡◌, refl, sym, subst, ◌⊎◌, ◌++◌, ◌-◌, inl, inr, Bool, true,
  false, List, [], ◌∷◌, Option, none, some, arith, ltb, Bool-cases, All, All-append,
}
use gacha_mind.GameSession.Protection.{
  protection_expires_minutes, Request, marks, unmarks, Protection, needs_mark, ask,
  sync_task_protection, take_out, mark_of, outcome, resume_sync,
}

-- At that time the agent still keeps the mark that was set at `since`.
abbrev pub IsCovered : ℕ → Option ℕ → Type 0
IsCovered now none = ⊥
IsCovered now (some since) = now ≤ since + protection_expires_minutes * 60000

-- A mark that is no more than half an hour old, and a request for one.
abbrev IsFresh : ℕ → Option ℕ → Type 0
IsFresh now none = ⊥
IsFresh now (some since) = now ≤ since + 1800000

abbrev pub IsRecent : ℕ → Request → Type 0
IsRecent now (marks at) = now ≤ at + 1800000
IsRecent now unmarks = ⊥

-- What may happen: a call with the number of rooms, or an answer.
pub data Event : Type 0 where
  syncs : (at room_count : ℕ) → Event
  answers : (i : ℕ) (taken : Bool) → Event

unfoldable pub on_events : List Event → Protection → Protection
on_events [] p = p
on_events (syncs at n ∷ es) p = on_events es (sync_task_protection true at n p)
on_events (answers i taken ∷ es) p = on_events es (resume_sync i taken p)

-- A call later than that finds rooms.
abbrev pub HasRooms : ℕ → Event → Type 0
HasRooms now (syncs at n) = (now ≤ at) × (0 < n)
HasRooms now (answers i taken) = Unit

record IsKept (now : ℕ) (p : Protection) : Type 0 where
  fresh : IsFresh now p.protected_since
  recent : All (IsRecent now) p.in_flight

needs_mark-IsFresh : (now : ℕ) (since : Option ℕ) → needs_mark now since ≡ false → IsFresh now since
unfolding needs_mark
needs_mark-IsFresh now none e = cc
needs_mark-IsFresh now (some t) e = ground (arith, e)

module _ (now : ℕ) where
  -- A call with rooms asks for a mark or finds one that is fresh.
  sync-cases :
      (at n : ℕ) (p : Protection)
      → 0 < n
      → (needs_mark at p.protected_since ≡ true
          × (sync_task_protection true at n p ≡ ask (marks at) p))
        ⊎ (needs_mark at p.protected_since ≡ false × (sync_task_protection true at n p ≡ p))
  unfolding sync_task_protection
  sync-cases at n p h =
      let rooms : ltb 0 n ≡ true = ground (arith, h) in
      elim (Bool-cases (needs_mark at p.protected_since)) [
        | inl e ↦ inl (e, rw (rooms, e) refl)
        | inr e ↦ inr (e, rw (rooms, e) refl)
      ]

  take_out-IsRecent :
      (i : ℕ) (rs : List Request) → All (IsRecent now) rs → All (IsRecent now) (take_out i rs).1
  unfolding take_out
  take_out-IsRecent i [] h = tt
  take_out-IsRecent zero (r ∷ rs) h = h.1
  take_out-IsRecent (suc i) (r ∷ rs) h = (h.0, take_out-IsRecent i rs h.1)

  IsRecentOrNone : Option Request → Type 0
  IsRecentOrNone none = Unit
  IsRecentOrNone (some r) = IsRecent now r

  take_out-IsRecentOrNone :
      (i : ℕ) (rs : List Request) → All (IsRecent now) rs → IsRecentOrNone (take_out i rs).0
  unfolding take_out IsRecentOrNone
  take_out-IsRecentOrNone i [] h = tt
  take_out-IsRecentOrNone zero (r ∷ rs) h = h.0
  take_out-IsRecentOrNone (suc i) (r ∷ rs) h = take_out-IsRecentOrNone i rs h.1

  outcome-IsFresh :
      (taken : Bool) (o : Option Request) (since : Option ℕ)
      → IsRecentOrNone o
      → IsFresh now since
      → IsFresh now (outcome taken o since)
  unfolding outcome mark_of IsRecentOrNone
  outcome-IsFresh taken none since h f = f
  outcome-IsFresh false (some r) since h f = f
  outcome-IsFresh true (some (marks at)) since h f = h
  outcome-IsFresh true (some unmarks) since h f = absurd h

  resume_sync-IsKept :
      (i : ℕ) (taken : Bool) (p : Protection) → IsKept now p → IsKept now (resume_sync i taken p)
  unfolding resume_sync
  resume_sync-IsKept i taken p k = record {
    fresh =
        outcome-IsFresh taken _ p.protected_since (take_out-IsRecentOrNone i p.in_flight k.recent)
          k.fresh;
    recent = take_out-IsRecent i p.in_flight k.recent;
  }

  sync-IsKept :
      (at n : ℕ) (p : Protection)
      → now ≤ at
      → 0 < n
      → IsKept now p
      → IsKept now (sync_task_protection true at n p)
  unfolding ask
  sync-IsKept at n p later h k = elim (sync-cases at n p h) [
    | inl (stale, asks) ↦ subst (IsKept now) (sym asks) (record {
      fresh = k.fresh;
      recent = All-append (IsRecent now) p.in_flight _ k.recent (omega (arith, later), tt);
    })
    | inr (fresh, stays) ↦ subst (IsKept now) (sym stays) k
  ]

  on_events-IsKept :
      (es : List Event) (p : Protection)
      → All (HasRooms now) es
      → IsKept now p
      → IsKept now (on_events es p)
  unfolding on_events
  on_events-IsKept [] p h k = k
  on_events-IsKept (syncs at n ∷ es) p h k =
      on_events-IsKept es _ h.1 (sync-IsKept at n p h.0.0 h.0.1 k)
  on_events-IsKept (answers i taken ∷ es) p h k =
      on_events-IsKept es _ h.1 (resume_sync-IsKept i taken p k)

  -- The first answer after the call leaves a fresh mark.
  first_answer :
      (rs : List Request) (since : Option ℕ)
      → All (IsRecent now) rs
      → IsFresh now (outcome true (take_out 0 (rs ++ marks now ∷ [])).0 since)
  unfolding outcome take_out mark_of
  first_answer [] since h = omega arith
  first_answer (marks at ∷ rs) since h = h.0
  first_answer (unmarks ∷ rs) since h = absurd h.0

  called-IsKept :
      (n : ℕ) (p : Protection)
      → 0 < n
      → All (IsRecent now) p.in_flight
      → IsKept now (resume_sync 0 true (sync_task_protection true now n p))
  unfolding ask resume_sync
  called-IsKept n p h recent = elim (sync-cases now n p h) [
    | inl (stale, asks) ↦ rw asks (record {
      fresh = first_answer p.in_flight p.protected_since recent;
      recent =
          take_out-IsRecent 0 (p.in_flight ++ marks now ∷ [])
            (All-append (IsRecent now) p.in_flight _ recent (omega arith, tt));
    })
    | inr (fresh, stays) ↦ rw stays (
        resume_sync-IsKept 0 true p
          (record { fresh = needs_mark-IsFresh now p.protected_since fresh; recent = recent }))
  ]

IsFresh-IsCovered :
    (now later : ℕ) (since : Option ℕ)
    → later ≤ now + 1800000
    → IsFresh now since
    → IsCovered later since
IsFresh-IsCovered now later none h f = f
IsFresh-IsCovered now later (some t) h f = omega (arith, h, f)

-- A task calls with rooms at a time `now`, when the requests on their way, if any, are to set the
-- mark and no more than half an hour old, and the agent takes the first request that is answered.
-- Whatever calls with rooms and whatever answers come after that, in any order, the mark that the
-- process goes by covers the task until half an hour after `now`.
pub sync_task_protection-IsCovered :
    (now later n : ℕ) (p : Protection) (es : List Event)
    → 0 < n
    → All (IsRecent now) p.in_flight
    → All (HasRooms now) es
    → later ≤ now + 1800000
    → IsCovered later
        (on_events es (resume_sync 0 true (sync_task_protection true now n p))).protected_since
sync_task_protection-IsCovered now later n p es h recent rooms soon =
    IsFresh-IsCovered now later _ soon
      (on_events-IsKept now es _ rooms (called-IsKept now n p h recent)).fresh

-- A task without rooms asks to clear its mark. If it has rooms again before the agent answers, and
-- the mark is no more than half an hour old, its call sends nothing, and the answer leaves it without
-- a mark and without a request on its way.
pub sync_task_protection-lapses :
    (early now since n : ℕ)
    → 0 < n
    → now ≤ since + 1800000
    → resume_sync 0 true (
        sync_task_protection true now n (
          sync_task_protection true early 0
            (record { protected_since = some since; in_flight = [] })))
      ≡ record { protected_since = none; in_flight = [] }
unfolding sync_task_protection needs_mark ask resume_sync take_out outcome mark_of
sync_task_protection-lapses early now since n h soon =
    let rooms : ltb 0 n ≡ true = ground (arith, h) in
    let fresh : ltb 1800000 (now - since) ≡ false = ground (arith, soon) in rw (rooms, fresh) refl
