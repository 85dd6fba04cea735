-- ===== src/Matchmaking/Shards.antt =====
-- A new room goes to the fullest process below the limit, and else to the emptiest.
use mathlib.Core.List.Memᴰ
use gacha_mind.Base.{
  ℕ, ◌≤◌, ◌<◌, ◌≡◌, refl, sym, subst, inl, inr, Bool, true, false, List, [], ◌∷◌, Memᴰ, Option,
  none, some, arith, Text, length, keep, All, All-members, ltb, ltb→lt, ◌==◌, Bool-cases, sort_by,
  sort_by-All, sort_by-All_back, IsSorted, sort_by-IsSorted,
}
use gacha_mind.Shared.Account.{SessionLoad}
use gacha_mind.Matchmaking.{fuller, emptier, first_shard, under_limit, pick_shard_for_new_room}

-- A process that may get the room: below the limit none that is so has more connections; and if all
-- are at the limit none has fewer.
pub data IsBest (limit : ℕ) (loads : List SessionLoad) (l : SessionLoad) : Type 0 where
  fullest :
      l.connections < limit
      → All (λ k. k.connections < limit → k.connections ≤ l.connections) loads
      → IsBest limit loads l
  emptiest :
      All (λ k. limit ≤ k.connections) loads
      → All (λ k. l.connections ≤ k.connections) loads
      → IsBest limit loads l

keep-Memᴰ :
    (p : SessionLoad → Bool) (l : SessionLoad) (loads : List SessionLoad)
    → Memᴰ l (keep p loads)
    → Memᴰ l loads × (p l ≡ true)
keep-Memᴰ p l [] m = absurd (Memᴰ.not-nil m)
keep-Memᴰ p l (k ∷ ks) m = elim (Bool-cases (p k)) [
  | inl e ↦ elim (Memᴰ.cases_cons (rw e at m)) [
    | inl same ↦ (Memᴰ.head same, subst (λ x. p x ≡ true) (sym same) e)
    | inr later ↦ let r = keep-Memᴰ p l ks later in (Memᴰ.tail r.0, r.1)
  ]
  | inr e ↦ let r = keep-Memᴰ p l ks (rw e at m) in (Memᴰ.tail r.0, r.1)
]

under_limit-Memᴰ :
    (limit : ℕ) (l : SessionLoad) (loads : List SessionLoad)
    → Memᴰ l (under_limit limit loads)
    → Memᴰ l loads × (ltb l.connections limit ≡ true)
unfolding under_limit
under_limit-Memᴰ limit l loads m = keep-Memᴰ (λ k. ltb k.connections limit) l loads m

-- What holds of those kept holds of all that pass the test.
keep-All :
    (limit : ℕ) (P : SessionLoad → Type 0) (loads : List SessionLoad)
    → All P (under_limit limit loads)
    → All (λ k. k.connections < limit → P k) loads
unfolding under_limit
keep-All limit P [] h = tt
keep-All limit P (k ∷ ks) h = elim (Bool-cases (ltb k.connections limit)) [
  | inl e ↦ let j = rw e at h in (λ _. j.0, keep-All limit P ks j.1)
  | inr e ↦ (λ lt. absurd (ground (arith, lt, e)), keep-All limit P ks (rw e at h))
]

none_under :
    (limit : ℕ) (loads : List SessionLoad)
    → length (under_limit limit loads) ≡ 0
    → All (λ k. limit ≤ k.connections) loads
unfolding under_limit
none_under limit [] h = tt
none_under limit (k ∷ ks) h = elim (Bool-cases (ltb k.connections limit)) [
  | inl e ↦ absurd (omega (arith, rw e at h))
  | inr e ↦ (ground (arith, e), none_under limit ks (rw e at h))
]

abbrev IsFirst : (SessionLoad → SessionLoad → Type 0) → List SessionLoad → Option Text → Type 0
IsFirst le xs none = ⊥
IsFirst le xs (some shard) = (l : SessionLoad) × Memᴰ l xs × (l.shard ≡ shard) × All (le l) xs

-- The first of the sorted list is one of the elements, and stands before all of them.
module _ (precedes : SessionLoad → SessionLoad → Bool) (le : SessionLoad → SessionLoad → Type 0)
    (le_refl : (x : SessionLoad) → le x x)
    (le_trans : (x y z : SessionLoad) → le x y → le y z → le x z)
    (first : (x y : SessionLoad) → precedes x y ≡ true → le x y)
    (second : (x y : SessionLoad) → precedes x y ≡ false → le y x) where
  first_shard-IsFirst :
      (xs ys : List SessionLoad)
      → sort_by precedes xs ≡ ys
      → 0 < length xs
      → IsFirst le xs (first_shard ys)
  unfolding first_shard
  first_shard-IsFirst [] [] e h = absurd (omega (arith, h))
  first_shard-IsFirst (x ∷ xs) [] e h =
      absurd (sort_by-All_back precedes (λ _. ⊥) (x ∷ xs) (subst (All (λ _. ⊥)) (sym e) tt)).0
  first_shard-IsFirst xs (l ∷ ls) e h = (
    l,
    (subst (All (λ k. Memᴰ k xs)) e (sort_by-All precedes (λ k. Memᴰ k xs) xs (All-members xs))).0,
    refl,
    sort_by-All_back precedes (le l) xs (
        subst (All (le l)) (sym e) (
          le_refl l,
          (subst (IsSorted precedes le le_trans first second) e
              (sort_by-IsSorted precedes le le_trans first second xs)).0,
        )),
  )

-- What is answered for the processes that report: nothing if there is none, and else the name of a
-- best one among them.
abbrev pub IsChoice : ℕ → List SessionLoad → Option Text → Type 0
IsChoice limit loads none = loads ≡ []
IsChoice limit loads (some shard) =
    (l : SessionLoad) × Memᴰ l loads × (l.shard ≡ shard) × IsBest limit loads l

abbrev Falls : SessionLoad → SessionLoad → Type 0
Falls a b = b.connections ≤ a.connections

abbrev Rises : SessionLoad → SessionLoad → Type 0
Rises a b = a.connections ≤ b.connections

fuller-Falls :
    (before : Text → Text → Bool) (x y : SessionLoad)
    → ((fuller before x y ≡ true) → Falls x y) × ((fuller before x y ≡ false) → Falls y x)
unfolding fuller
fuller-Falls before x y = (λ e. ground (arith, e), λ e. ground (arith, e))

emptier-Rises :
    (before : Text → Text → Bool) (x y : SessionLoad)
    → ((emptier before x y ≡ true) → Rises x y) × ((emptier before x y ≡ false) → Rises y x)
unfolding emptier
emptier-Rises before x y = (λ e. ground (arith, e), λ e. ground (arith, e))

fullest-IsFirst :
    (before : Text → Text → Bool) (xs : List SessionLoad)
    → 0 < length xs
    → IsFirst Falls xs (first_shard (sort_by (fuller before) xs))
fullest-IsFirst before xs h =
    first_shard-IsFirst (fuller before) Falls (λ x. omega arith) (λ x y z j k. omega (arith, j, k))
      (λ x y. (fuller-Falls before x y).0) (λ x y. (fuller-Falls before x y).1) xs _ refl h

emptiest-IsFirst :
    (before : Text → Text → Bool) (xs : List SessionLoad)
    → 0 < length xs
    → IsFirst Rises xs (first_shard (sort_by (emptier before) xs))
emptiest-IsFirst before xs h =
    first_shard-IsFirst (emptier before) Rises (λ x. omega arith) (λ x y z j k. omega (arith, j, k))
      (λ x y. (emptier-Rises before x y).0) (λ x y. (emptier-Rises before x y).1) xs _ refl h

choose_fullest :
    (limit : ℕ) (loads : List SessionLoad) (found : Option Text)
    → IsFirst Falls (under_limit limit loads) found
    → IsChoice limit loads found
choose_fullest limit loads none h = absurd h
choose_fullest limit loads (some shard) (l, m, named, best) =
    let k = under_limit-Memᴰ limit l loads m in
    (
      l,
      k.0,
      named,
      fullest (ltb→lt l.connections limit k.1)
          (keep-All limit (λ k. k.connections ≤ l.connections) loads best),
    )

choose_emptiest :
    (limit : ℕ) (loads : List SessionLoad) (found : Option Text)
    → length (under_limit limit loads) ≡ 0
    → IsFirst Rises loads found
    → IsChoice limit loads found
choose_emptiest limit loads none n h = absurd h
choose_emptiest limit loads (some shard) n (l, m, named, best) =
    (l, m, named, emptiest (none_under limit loads n) best)

-- No process is named exactly if none reports. Else it is one that reports: below the limit one that
-- no other below the limit is fuller than, and if all are at the limit one that none is emptier than.
pub pick_shard_for_new_room_lem :
    (before : Text → Text → Bool) (limit : ℕ) (loads : List SessionLoad)
    → IsChoice limit loads (pick_shard_for_new_room before limit loads)
unfolding pick_shard_for_new_room
pick_shard_for_new_room_lem before limit [] = refl
pick_shard_for_new_room_lem before limit (k ∷ ks) =
    let reported : length (k ∷ ks) == 0 ≡ false = ground arith in
    elim (Bool-cases (ltb 0 (length (under_limit limit (k ∷ ks))))) [
      | inl some_under ↦
          rw (reported, some_under)
            (choose_fullest limit (k ∷ ks) _
              (fullest-IsFirst before (under_limit limit (k ∷ ks)) (ltb→lt 0 _ some_under)))
      | inr full ↦
          rw (reported, full)
            (choose_emptiest limit (k ∷ ks) _ (ground (arith, full))
              (emptiest-IsFirst before (k ∷ ks) (omega arith)))
    ]
