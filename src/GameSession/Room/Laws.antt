-- ===== src/GameSession/Room/Laws.antt =====
-- The map of players through its keys, and that messages leave the room as it is.
use gacha_mind.Base.{
  ℕ, suc, ◌+◌, ◌≤◌, ◌≡◌, refl, ap, true, false, List, [], ◌∷◌, ◌++◌, none, some, arith, length,
  elem, without, ◌==◌, if◌then◌else◌,
}
use gacha_mind.GameSession.Room.{Player, ids, find_player, put_player, drop_player}

pub ids-drop_player : (id : ℕ) (ps : List Player) → ids (drop_player id ps) ≡ without id (ids ps)
unfolding drop_player without
ids-drop_player id [] = refl
ids-drop_player id (p ∷ ps) = ground (arith, ids-drop_player id ps)

-- A new identifier goes to the end, a known one keeps its place.
pub ids-put_player :
    (q : Player) (ps : List Player)
    → ids (put_player q ps) ≡ (if elem q.id (ids ps) then ids ps else ids ps ++ q.id ∷ [])
unfolding put_player elem
ids-put_player q [] = refl
ids-put_player q (p ∷ ps) = ground (arith, ids-put_player q ps)

pub length-ids : (ps : List Player) → length (ids ps) ≡ length ps
length-ids [] = refl
length-ids (p ∷ ps) = ap suc (length-ids ps)

pub length-drop_player-le : (id : ℕ) (ps : List Player) → length (drop_player id ps) ≤ length ps
unfolding drop_player
length-drop_player-le id [] = omega arith
length-drop_player-le id (p ∷ ps) = ground (arith, length-drop_player-le id ps)

pub length-put_player-le :
    (q : Player) (ps : List Player) → length (put_player q ps) ≤ length ps + 1
unfolding put_player
length-put_player-le q [] = omega arith
length-put_player-le q (p ∷ ps) = ground (arith, length-put_player-le q ps)

pub length-le-put_player : (q : Player) (ps : List Player) → length ps ≤ length (put_player q ps)
unfolding put_player
length-le-put_player q [] = omega arith
length-le-put_player q (p ∷ ps) = ground (arith, length-le-put_player q ps)

-- A player that is found has the identifier asked for, and that identifier is a key.
pub find_player-some :
    (id : ℕ) (ps : List Player) (p : Player)
    → find_player id ps ≡ some p
    → (p.id ≡ id) × (elem id (ids ps) ≡ true)
unfolding find_player elem
find_player-some id [] p e = cc
find_player-some id (q ∷ ps) p e = ground (arith, find_player-some id ps p)

pub find_player-elem :
    (id : ℕ) (ps : List Player) → find_player id ps ≡ none → elem id (ids ps) ≡ false
unfolding find_player elem
find_player-elem id [] e = refl
find_player-elem id (q ∷ ps) e = ground (arith, find_player-elem id ps)

pub find_player-drop :
    (id j : ℕ) (ps : List Player)
    → find_player j (drop_player id ps) ≡ (if id == j then none else find_player j ps)
unfolding find_player drop_player
find_player-drop id j [] = ground arith
find_player-drop id j (p ∷ ps) = ground (arith, find_player-drop id j ps)

pub find_player-put :
    (q : Player) (j : ℕ) (ps : List Player)
    → find_player j (put_player q ps) ≡ (if q.id == j then some q else find_player j ps)
unfolding find_player put_player
find_player-put q j [] = ground arith
find_player-put q j (p ∷ ps) = ground (arith, find_player-put q j ps)

pub length-put_player-pos : (q : Player) (ps : List Player) → 1 ≤ length (put_player q ps)
unfolding put_player
length-put_player-pos q [] = omega arith
length-put_player-pos q (p ∷ ps) = ground (arith, length-put_player-pos q ps)
