-- ===== src/UserService/Leaderboard/Laws.antt =====
-- The two queries of the leaderboard agree.
use mathlib.Core.Bool.{false≢true}
use mathlib.Core.Option.{some-injective}
use gacha_mind.Base.{
  ℕ, ◌+◌, ◌≡◌, refl, sym, ap, ◌∙◌, subst, inl, inr, true, false, List, [], ◌∷◌, map, some, is_some,
  arith, Text, text_eq, text_eq_refl, elem, Distinct, All, All-take, All-weaken, ltb, ◌==◌, ==_refl,
  if◌then◌else◌, Bool-cases, Option-cases, sort_by-All,
}
use gacha_mind.UserService.History.{UserStats, find_stats}
use gacha_mind.UserService.Leaderboard.{
  LeaderboardSort, User, LeaderboardEntry, column, to_entry, find_user, find_username, join_row,
  join, count_above, listed_before, rank_in, entry_in, top, ranked_as, rank_row, rank_user, rank_of,
}

-- No user has that name.
abbrev pub Unnamed : Text → List User → Type 0
Unnamed name us = All (λ u. text_eq name u.username ≡ false) us

abbrev pub UniqueNames : List User → Type 0
UniqueNames [] = Unit
UniqueNames (u ∷ us) = Unnamed u.username us × UniqueNames us

abbrev pub stats_ids : List UserStats → List ℕ
stats_ids = map (λ s. s.user_id)

-- Every row of the statistics has its account.
abbrev pub HasAccounts : List User → List UserStats → Type 0
HasAccounts users stats = All (λ s. is_some (find_user s.user_id users) ≡ true) stats

find_user-id : (id : ℕ) (us : List User) (u : User) → find_user id us ≡ some u → u.id ≡ id
unfolding find_user
find_user-id id [] u e = cc
find_user-id id (v ∷ vs) u e = ground (arith, find_user-id id vs u)

found_named :
    (name : Text) (id : ℕ) (us : List User) (u : User)
    → Unnamed name us
    → find_user id us ≡ some u
    → text_eq name u.username ≡ false
unfolding find_user
found_named name id [] u h e = cc
found_named name id (v ∷ vs) u h e = elim (Bool-cases (v.id == id)) [
  | inl here ↦ subst (λ w. text_eq name w.username ≡ false) (some-injective v u (rw here at e)) h.0
  | inr there ↦ found_named name id vs u h.1 (rw there at e)
]

find_username-find_user :
    (id : ℕ) (us : List User) (u : User)
    → UniqueNames us
    → find_user id us ≡ some u
    → find_username u.username us ≡ some u
unfolding find_user find_username
find_username-find_user id [] u h e = cc
find_username-find_user id (v ∷ vs) u h e = elim (Bool-cases (v.id == id)) [
  | inl here ↦
      subst (λ w. find_username w.username (v ∷ vs) ≡ some w) (some-injective v u (rw here at e))
        (rw (text_eq_refl v.username) refl)
  | inr there ↦
      let e' = rw there at e in
      rw (found_named v.username id vs u h.0 e') (find_username-find_user id vs u h.1 e')
]

All-both :
    {A : Type 0} {P Q R : A → Type 0} (xs : List A)
    → ((x : A) → P x → Q x → R x)
    → All P xs
    → All Q xs
    → All R xs
All-both [] f h k = tt
All-both (x ∷ xs) f h k = (f x h.0 k.0, All-both xs f h.1 k.1)

absent_ids :
    (id : ℕ) (ss : List UserStats)
    → elem id (stats_ids ss) ≡ false
    → All (λ s. id == s.user_id ≡ false) ss
unfolding elem
absent_ids id [] h = tt
absent_ids id (s ∷ ss) h = (ground (arith, h), absent_ids id ss (ground (arith, h)))

-- Each row is the one that is found under its user.
find_stats-rows :
    (ss : List UserStats) → Distinct (stats_ids ss) → All (λ s. find_stats s.user_id ss ≡ some s) ss
unfolding find_stats
find_stats-rows [] h = tt
find_stats-rows (s ∷ ss) h = (
  rw (==_refl s.user_id) refl,
  All-both ss (λ t other found. rw other found) (absent_ids s.user_id ss h.0)
      (find_stats-rows ss h.1),
)

count_above-join :
    (sort : LeaderboardSort) (n : ℕ) (users : List User) (stats : List UserStats)
    → HasAccounts users stats
    → count_above sort n (map (λ r. r.1) (join users stats)) ≡ count_above sort n stats
unfolding count_above join join_row
count_above-join sort n users [] h = refl
count_above-join sort n users (s ∷ ss) h = elim (Option-cases (find_user s.user_id users)) [
  | inl gone ↦ absurd (false≢true (sym (ap is_some gone) ∙ h.0))
  | inr (u, found) ↦ rw found (
      ap (λ k. (if ltb n (column sort s) then 1 else 0) + k) (count_above-join sort n users ss h.1))
]

-- What holds of each row with its user holds of the join.
join-All :
    (P : User × UserStats → Type 0) (users : List User) (stats : List UserStats)
    → All (λ s. (u : User) → find_user s.user_id users ≡ some u → P (u, s)) stats
    → All P (join users stats)
unfolding join join_row
join-All P users [] h = tt
join-All P users (s ∷ ss) h = elim (Option-cases (find_user s.user_id users)) [
  | inl gone ↦ rw gone (join-All P users ss h.1)
  | inr (u, found) ↦ rw found (h.0 u found, join-All P users ss h.1)
]

map-All :
    {A B : Type 0} (P : B → Type 0) (f : A → B) (xs : List A)
    → All (λ x. P (f x)) xs
    → All P (map f xs)
map-All P f [] h = tt
map-All P f (x ∷ xs) h = (h.0, map-All P f xs h.1)

abbrev pub Agrees : LeaderboardSort → List User → List UserStats → LeaderboardEntry → Type 0
Agrees sort users stats e = rank_of e.username sort users stats ≡ ranked_as e

row-Agrees :
    (sort : LeaderboardSort) (users : List User) (stats : List UserStats)
    → UniqueNames users
    → HasAccounts users stats
    → (s : UserStats) → find_stats s.user_id stats ≡ some s
    → (u : User) → find_user s.user_id users ≡ some u
    → Agrees sort users stats (entry_in sort (join users stats) (u, s))
unfolding entry_in rank_in to_entry rank_of rank_user rank_row
row-Agrees sort users stats names accounts s row u found =
    let by_name = find_username-find_user s.user_id users u names found in
    let by_id : find_stats u.id stats ≡ some s =
      ap (λ id. find_stats id stats) (find_user-id s.user_id users u found) ∙ row in
    ap (rank_user sort stats) by_name
    ∙ ap (rank_row sort stats u) by_id
    ∙ ap (λ k. ranked_as (to_entry (k + 1) u s))
        (sym (count_above-join sort (column sort s) users stats accounts))

-- Every line of the list, whatever it is sorted by and however many are asked for, is what the
-- query for one player answers for the player in it, the rank included, if usernames are unique, a
-- user has one row of statistics, and each such row has its account.
pub top-rank_of :
    (sort : LeaderboardSort) (limit : ℕ) (users : List User) (stats : List UserStats)
    → UniqueNames users
    → Distinct (stats_ids stats)
    → HasAccounts users stats
    → All (Agrees sort users stats) (top sort limit users stats)
unfolding top
top-rank_of sort limit users stats names rows accounts = All-take (Agrees sort users stats) _ _ (
    map-All (Agrees sort users stats) (entry_in sort (join users stats)) _ (
      sort_by-All (listed_before sort) _ (join users stats) (
        join-All _ users stats (
          All-weaken stats (row-Agrees sort users stats names accounts)
            (find_stats-rows stats rows)))))
