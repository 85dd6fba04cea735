-- ===== src/Matchmaking/Claims/Laws.antt =====
-- Room codes are claimed once, and found again however they are written.
use gacha_mind.Base.{
  ℕ, zero, suc, ◌≡◌, ◌≢◌, refl, subst, ap, ◌∙◌, inl, inr, Bool, List, Option, none, some, Text,
  Option-cases,
}
use gacha_mind.Shared.Protocol.{default_room_capacity}
use gacha_mind.Shared.Account.{RoomAssignment, create}
use gacha_mind.Shared.RoomCode.{generate_room_code, UpperOnAscii}
use gacha_mind.Shared.RoomCode.Spelling.{Spells, normalize-Spells}
use gacha_mind.Matchmaking.{
  room_code_attempts, LoadHash, RoomHash, list_session_loads, pick_shard_for_new_room,
}
use gacha_mind.Matchmaking.Claims.{
  Redis, AssignReply, assigned, no_session, no_code, claim_room_code, record_counts, create_on,
  matched, assign_or_create, assign, located, locate_room,
}

module _ (redis : Redis) where
  -- Between `s` and `s'` the room `id`, which had no process, has got one, and no other has changed.
  pub record IsClaim (id shard : Text) (s s' : redis.State) : Type 0 where
    pub free : redis.shard_of id s ≡ none
    pub taken : redis.shard_of id s' ≡ some shard
    pub others : (other : Text) → other ≢ id → redis.shard_of other s' ≡ redis.shard_of other s

  abbrev pub ClaimResult : (ℕ → List ℕ) → Text → redis.State → redis.State × Option Text → Type 0
  ClaimResult draws shard s (s', none) = s' ≡ s
  ClaimResult draws shard s (s', some id) =
      IsClaim id shard s s' × ((i : ℕ) × (id ≡ generate_room_code (draws i)))

  claim_room_code_lem :
      (n : ℕ) (draws : ℕ → List ℕ) (shard : Text) (s : redis.State)
      → ClaimResult draws shard s (claim_room_code redis n draws shard s)
  unfolding claim_room_code
  claim_room_code_lem zero draws shard s = refl
  claim_room_code_lem (suc n) draws shard s =
      elim (Option-cases (redis.shard_of (generate_room_code (draws n)) s)) [
        | inl free ↦
            let won = redis.hsetnx_free (generate_room_code (draws n)) shard s free in
            rw won.0 (
              record {
                free = free;
                taken = won.1;
                others =
                    λ other ne. redis.hsetnx_other (generate_room_code (draws n)) other shard s ne;
              },
              (n, refl),
            )
        | inr (old, taken) ↦
            rw (redis.hsetnx_taken (generate_room_code (draws n)) shard old s taken)
              (claim_room_code_lem n draws shard s)
      ]

  -- What becomes of the rooms with each of the answers.
  abbrev pub CreateResult : redis.State → redis.State × AssignReply → Type 0
  CreateResult s (s', no_session) = s' ≡ s
  CreateResult s (s', no_code) = s' ≡ s
  CreateResult s (s', assigned a) = IsClaim a.room_id a.shard s s'

  record_counts_lem :
      (draws : ℕ → List ℕ) (shard : Text) (s : redis.State) (r : redis.State × Option Text)
      → ClaimResult draws shard s r
      → CreateResult s (record_counts redis shard r)
  unfolding record_counts
  record_counts_lem draws shard s (s', none) h = h
  record_counts_lem draws shard s (s', some id) (c, drawn) = record {
    free = c.free;
    taken = redis.hset_counts_keeps id id default_room_capacity 0 s' ∙ c.taken;
    others =
        λ other ne. redis.hset_counts_keeps id other default_room_capacity 0 s' ∙ c.others other ne;
  }

  create_on_lem :
      (draws : ℕ → List ℕ) (found : Option Text) (s : redis.State)
      → CreateResult s (create_on redis draws found s)
  unfolding create_on
  create_on_lem draws none s = refl
  create_on_lem draws (some shard) s =
      record_counts_lem draws shard s _ (claim_room_code_lem room_code_attempts draws shard s)

  pub assign-create :
      (before : Text → Text → Bool) (limit roll : ℕ) (candidates : List (Text × RoomHash))
      (draws : ℕ → List ℕ) (loads : List LoadHash) (s : redis.State)
      → CreateResult s (assign redis before limit create roll candidates draws loads s)
  unfolding assign matched assign_or_create
  assign-create before limit roll candidates draws loads s =
      create_on_lem draws (pick_shard_for_new_room before limit (list_session_loads loads)) s

  locate_claimed :
      (upper : Text → Text) (a : RoomAssignment) (s s' : redis.State) (typed : Text)
      → UpperOnAscii upper
      → IsClaim a.room_id a.shard s s'
      → Spells a.room_id typed
      → locate_room redis upper typed s' ≡ some a
  unfolding locate_room located
  locate_claimed upper a s s' typed law c spells =
      let code = normalize-Spells upper a.room_id typed law spells in
      ap (λ id. located redis id (redis.shard_of id s')) code ∙ ap (located redis a.room_id) c.taken

  -- After a request for a new room, with the mode "create", has been answered with an assignment, the
  -- room is found under its code on the process named, in whichever of the usual ways the code is
  -- written down, if upper-casing maps ASCII text letter by letter.
  pub locate_room-assign :
      (upper : Text → Text) (before : Text → Text → Bool) (limit roll : ℕ)
      (candidates : List (Text × RoomHash)) (draws : ℕ → List ℕ) (loads : List LoadHash)
      (s s' : redis.State) (a : RoomAssignment) (typed : Text)
      → UpperOnAscii upper
      → assign redis before limit create roll candidates draws loads s ≡ (s', assigned a)
      → Spells a.room_id typed
      → locate_room redis upper typed s' ≡ some a
  locate_room-assign upper before limit roll candidates draws loads s s' a typed law e spells =
      locate_claimed upper a s s' typed law
        (subst (CreateResult s) e (assign-create before limit roll candidates draws loads s)) spells
