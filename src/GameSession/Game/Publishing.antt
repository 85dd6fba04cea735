-- ===== src/GameSession/Game/Publishing.antt =====
-- The result of a game is published once.
use gacha_mind.Base.{
  ℕ, suc, ◌+◌, ◌≡◌, refl, inl, inr, true, false, List, [], ◌∷◌, ◌++◌, Option, none, some, is_some,
  arith, if_false, Bool-cases,
}
use gacha_mind.Shared.Protocol.{ServerToClientMessage, game_ended}
use gacha_mind.GameSession.Room.{
  Player, Session, Effect, sent, replied, closed, synced_occupancy, published_load,
  synced_protection, notified_room_closed, published, summaries, is_drawer, deliver_one, deliveries,
  broadcast, emit, change,
}
use gacha_mind.GameSession.Game.{is_playing, close_game, end_game, announce_end, publish_result}
use gacha_mind.GameSession.Game.Outcomes.{end_game-room}

-- How many results have been published.
unfoldable pub published_count : List Effect → ℕ
published_count [] = 0
published_count (published e ∷ es) = suc (published_count es)
published_count (sent id m ∷ es) = published_count es
published_count (replied m ∷ es) = published_count es
published_count (closed ∷ es) = published_count es
published_count (synced_occupancy r ∷ es) = published_count es
published_count (published_load n k ∷ es) = published_count es
published_count (synced_protection n ∷ es) = published_count es
published_count (notified_room_closed id ∷ es) = published_count es

published-append :
    (es fs : List Effect) → published_count (es ++ fs) ≡ published_count es + published_count fs
unfolding published_count
published-append [] fs = omega arith
published-append (published e ∷ es) fs = omega (arith, published-append es fs)
published-append (sent id m ∷ es) fs = published-append es fs
published-append (replied m ∷ es) fs = published-append es fs
published-append (closed ∷ es) fs = published-append es fs
published-append (synced_occupancy r ∷ es) fs = published-append es fs
published-append (published_load n k ∷ es) fs = published-append es fs
published-append (synced_protection n ∷ es) fs = published-append es fs
published-append (notified_room_closed id ∷ es) fs = published-append es fs

published-deliveries :
    (m : ServerToClientMessage) (x : Option ℕ) (ps : List Player)
    → published_count (deliveries m x ps) ≡ 0
unfolding deliveries deliver_one published_count
published-deliveries m x [] = refl
published-deliveries m x (p ∷ ps) = elim (Bool-cases (is_drawer x p.id)) [
  | inl e ↦ rw e (published-deliveries m x ps)
  | inr e ↦ elim (Bool-cases p.is_open) [
    | inl o ↦ rw (e, o) (published-deliveries m x ps)
    | inr o ↦ rw (e, o) (published-deliveries m x ps)
  ]
]

broadcast-published :
    (m : ServerToClientMessage) (x : Option ℕ) (s : Session)
    → published_count (broadcast m x s).log ≡ published_count s.log
unfolding broadcast
broadcast-published m x s = omega (
  arith,
  published-append s.log (deliveries m x s.room.players),
  published-deliveries m x s.room.players,
)

emit-published :
    (e : Effect) (s : Session)
    → published_count (emit e s).log ≡ published_count s.log + published_count (e ∷ [])
unfolding emit
emit-published e s = published-append s.log (e ∷ [])

announce_end-published :
    (s : Session) → published_count (announce_end s).log ≡ published_count s.log
unfolding announce_end published_count
announce_end-published s = omega (
  arith,
  emit-published (synced_occupancy (broadcast (game_ended (summaries s.room)) none s).room)
      (broadcast (game_ended (summaries s.room)) none s),
  broadcast-published (game_ended (summaries s.room)) none s,
)

publish_result-published :
    (now : ℕ) (game : Option ℕ) (rounds : ℕ) (s : Session)
    → is_some game ≡ true
    → published_count (publish_result now game rounds s).log ≡ published_count s.log + 1
unfolding publish_result published_count
publish_result-published now none rounds s h = cc
publish_result-published now (some g) rounds s h = emit-published _ s

end_game-published :
    (now : ℕ) (s : Session)
    → is_playing s.room.phase ≡ true
    → is_some s.room.game_id ≡ true
    → published_count (end_game now s).log ≡ published_count s.log + 1
unfolding end_game
end_game-published now s h g = rw h (
    omega (
      arith,
      publish_result-published now s.room.game_id s.room.round (announce_end (change close_game s))
          g,
      announce_end-published (change close_game s),
    ))

end_game_idle : (later : ℕ) (s : Session) → is_playing s.room.phase ≡ false → end_game later s ≡ s
unfolding end_game
end_game_idle later s h = if_false _ _ h

-- Ending a game that is played, with its identifier set, publishes its result exactly once more;
-- and ending it again changes nothing and publishes nothing.
pub end_game_once :
    (now later : ℕ) (s : Session)
    → is_playing s.room.phase ≡ true
    → is_some s.room.game_id ≡ true
    → (published_count (end_game now s).log ≡ published_count s.log + 1)
      × (end_game later (end_game now s) ≡ end_game now s)
end_game_once now later s h g =
    (end_game-published now s h g, end_game_idle later (end_game now s) ended_phase)
  where
    ended_phase : is_playing (end_game now s).room.phase ≡ false
    ended_phase = rw (end_game-room now s, h) (unfold close_game in refl)
