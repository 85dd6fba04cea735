-- ===== src/GameSession/Ranking/Laws.antt =====
-- The result list holds the players of the room by falling score, each ranked by how many are ahead.
use mathlib.Core.List.{Perm, perm_middle, append-nil}
use mathlib.Core.List.Perm
use gacha_mind.Base.{
  ℕ, ◌+◌, ◌≤◌, ◌<◌, ◌≡◌, refl, ap, subst, inl, inr, List, [], ◌∷◌, ◌++◌, map, Option, none, some,
  arith, All, ltb, ltb→lt, ltb→le, ◌==◌, if◌then◌else◌, Bool-cases,
}
use gacha_mind.GameSession.Room.{Player}
use gacha_mind.GameSession.Ranking.{
  insert_sorted, sort_from, sort_by_score, is_new_score, ranked, rank_from, to_result_players,
}

-- How many players have more points.
unfoldable pub ahead : ℕ → List Player → ℕ
ahead score [] = 0
ahead score (p ∷ ps) = (if ltb score p.score then 1 else 0) + ahead score ps

abbrev pub NoneAbove : ℕ → List Player → Type 0
NoneAbove s ps = All (λ p. p.score ≤ s) ps

abbrev pub IsFalling : List Player → Type 0
IsFalling [] = Unit
IsFalling (p ∷ ps) = NoneAbove p.score ps × IsFalling ps

insert_sorted-NoneAbove :
    (s : ℕ) (p : Player) (ps : List Player)
    → p.score ≤ s
    → NoneAbove s ps
    → NoneAbove s (insert_sorted p ps)
unfolding insert_sorted
insert_sorted-NoneAbove s p [] h k = (h, tt)
insert_sorted-NoneAbove s p (q ∷ qs) h k = elim (Bool-cases (ltb q.score p.score)) [
  | inl e ↦ rw e (h, k)
  | inr e ↦ rw e (k.0, insert_sorted-NoneAbove s p qs h k.1)
]

NoneAbove-mono : (s t : ℕ) (ps : List Player) → s ≤ t → NoneAbove s ps → NoneAbove t ps
NoneAbove-mono s t [] h k = tt
NoneAbove-mono s t (p ∷ ps) h k = (omega arith, NoneAbove-mono s t ps h k.1)

insert_sorted-IsFalling :
    (p : Player) (ps : List Player) → IsFalling ps → IsFalling (insert_sorted p ps)
unfolding insert_sorted
insert_sorted-IsFalling p [] h = (tt, tt)
insert_sorted-IsFalling p (q ∷ qs) h = elim (Bool-cases (ltb q.score p.score)) [
  | inl e ↦
      let lt = ltb→lt q.score p.score e in
      rw e ((omega arith, NoneAbove-mono q.score p.score qs (omega arith) h.0), h)
  | inr e ↦
      let le = ltb→le q.score p.score e in
      rw e (insert_sorted-NoneAbove q.score p qs le h.0, insert_sorted-IsFalling p qs h.1)
]

sort_from-IsFalling : (acc ps : List Player) → IsFalling acc → IsFalling (sort_from acc ps)
unfolding sort_from
sort_from-IsFalling acc [] h = h
sort_from-IsFalling acc (p ∷ ps) h =
    sort_from-IsFalling (insert_sorted p acc) ps (insert_sorted-IsFalling p acc h)

insert_sorted-perm : (p : Player) (ps : List Player) → Perm (insert_sorted p ps) (p ∷ ps)
unfolding insert_sorted
insert_sorted-perm p [] = Perm.refl _
insert_sorted-perm p (q ∷ qs) = elim (Bool-cases (ltb q.score p.score)) [
  | inl e ↦ rw e (Perm.refl _)
  | inr e ↦ rw e (Perm.trans (Perm.cons q (insert_sorted-perm p qs)) (Perm.swap p q qs))
]

sort_from-perm : (acc ps : List Player) → Perm (sort_from acc ps) (ps ++ acc)
unfolding sort_from
sort_from-perm acc [] = Perm.refl acc
sort_from-perm acc (p ∷ ps) =
    Perm.trans (sort_from-perm (insert_sorted p acc) ps)
      (Perm.trans (Perm.append (Perm.refl ps) (insert_sorted-perm p acc)) (perm_middle ps acc))

ahead-NoneAbove : (s : ℕ) (ps : List Player) → NoneAbove s ps → ahead s ps ≡ 0
unfolding ahead
ahead-NoneAbove s [] h = refl
ahead-NoneAbove s (p ∷ ps) h = ground (arith, ahead-NoneAbove s ps h.1)

-- What the loop knows of the players that it has passed: `before t` of them have more than `t`
-- points, `index` is their number, and `rank` is the rank of the last.
HasRank : (total before : ℕ → ℕ) (index rank : ℕ) → Option ℕ → List Player → Type 0
HasRank total before index rank none rest = (t : ℕ) → before t ≡ index
HasRank total before index rank (some s) rest =
    ((t : ℕ) → t < s → before t ≡ index) × NoneAbove s rest × (rank ≡ 1 + total s)

abbrev step : Player → ℕ → ℕ
step p t = if ltb t p.score then 1 else 0

new_rank :
    (total before : ℕ → ℕ) (index : ℕ) (p : Player) (ps : List Player)
    → ((t : ℕ) → total t ≡ before t + ahead t (p ∷ ps))
    → IsFalling (p ∷ ps)
    → before p.score ≡ index
    → index + 1 ≡ 1 + total p.score
unfolding ahead
new_rank total before index p ps split f e =
    ground (arith, split p.score, ahead-NoneAbove p.score ps f.0)

-- The rank that the loop gives to the next player.
next_rank :
    (total before : ℕ → ℕ) (index rank : ℕ) (previous : Option ℕ) (p : Player) (ps : List Player)
    → ((t : ℕ) → total t ≡ before t + ahead t (p ∷ ps))
    → IsFalling (p ∷ ps)
    → HasRank total before index rank previous (p ∷ ps)
    → (if is_new_score previous p.score then index + 1 else rank) ≡ 1 + total p.score
unfolding is_new_score HasRank
next_rank total before index rank none p ps split f h =
    new_rank total before index p ps split f (h p.score)
next_rank total before index rank (some s) p ps split f h = elim (Bool-cases (s == p.score)) [
  | inl e ↦ rw e (ground (arith, h.2))
  | inr e ↦ rw e (new_rank total before index p ps split f (h.0 p.score (ground (arith, h.1.0))))
]

next_previous :
    (previous : Option ℕ) (s : ℕ) → (if is_new_score previous s then some s else previous) ≡ some s
unfolding is_new_score
next_previous none s = refl
next_previous (some t) s = ground arith

-- All passed players have at least as many points as the next.
passed_all :
    (total before : ℕ → ℕ) (index rank : ℕ) (previous : Option ℕ) (p : Player) (ps : List Player)
    → HasRank total before index rank previous (p ∷ ps)
    → (t : ℕ) → t < p.score
    → before t ≡ index
unfolding HasRank
passed_all total before index rank none p ps h t lt = h t
passed_all total before index rank (some s) p ps h t lt = h.0 t (omega (arith, h.1.0))

split_next :
    (total before : ℕ → ℕ) (p : Player) (ps : List Player)
    → ((t : ℕ) → total t ≡ before t + ahead t (p ∷ ps))
    → (t : ℕ) → total t ≡ before t + step p t + ahead t ps
unfolding ahead
split_next total before p ps split t = ground (arith, split t)

passed_next :
    (total before : ℕ → ℕ) (index rank : ℕ) (previous : Option ℕ) (p : Player) (ps : List Player)
    → HasRank total before index rank previous (p ∷ ps)
    → (t : ℕ) → t < p.score
    → before t + step p t ≡ index + 1
passed_next total before index rank previous p ps h t lt =
    ground (arith, passed_all total before index rank previous p ps h t lt)

rank_from_lem :
    (total before : ℕ → ℕ) (index rank : ℕ) (previous : Option ℕ) (ps : List Player)
    → ((t : ℕ) → total t ≡ before t + ahead t ps)
    → IsFalling ps
    → HasRank total before index rank previous ps
    → rank_from index rank previous ps ≡ map (λ p. ranked p (1 + total p.score)) ps
unfolding rank_from
rank_from_lem total before index rank previous [] split f h = refl
rank_from_lem total before index rank previous (p ∷ ps) split f h =
    let now = next_rank total before index rank previous p ps split f h in
    rw (now, next_previous previous p.score)
      (ap (◌∷◌ (ranked p (1 + total p.score))) (
        rank_from_lem total (λ t. before t + step p t) (index + 1) (1 + total p.score)
          (some p.score) ps (split_next total before p ps split) f.1
          (unfold HasRank in (passed_next total before index rank previous p ps h, f.0, refl))))

ahead-insert_sorted :
    (t : ℕ) (p : Player) (ps : List Player) → ahead t (insert_sorted p ps) ≡ step p t + ahead t ps
unfolding ahead insert_sorted
ahead-insert_sorted t p [] = refl
ahead-insert_sorted t p (q ∷ qs) = ground (arith, ahead-insert_sorted t p qs)

ahead-sort_from :
    (t : ℕ) (acc ps : List Player) → ahead t (sort_from acc ps) ≡ ahead t acc + ahead t ps
unfolding ahead sort_from
ahead-sort_from t acc [] = omega arith
ahead-sort_from t acc (p ∷ ps) =
    ground (arith, ahead-sort_from t (insert_sorted p acc) ps, ahead-insert_sorted t p acc)

ahead-sort_by_score : (t : ℕ) (ps : List Player) → ahead t (sort_by_score ps) ≡ ahead t ps
unfolding sort_by_score
ahead-sort_by_score t ps = unfold ahead in omega (arith, ahead-sort_from t [] ps)

-- The published results are the players of the room, each once, by falling score; and the rank of
-- each is one more than the number of players of the room with more points, so that equal scores
-- share a rank and the next rank counts all who are ahead.
pub to_result_players_lem :
    (ps : List Player)
    → Perm (sort_by_score ps) ps
      × IsFalling (sort_by_score ps)
      × (to_result_players ps ≡ map (λ p. ranked p (1 + ahead p.score ps)) (sort_by_score ps))
unfolding to_result_players
to_result_players_lem ps = (
  subst (λ l. Perm (sort_by_score ps) l) (append-nil ps)
      (unfold sort_by_score in sort_from-perm [] ps),
  unfold sort_by_score in sort_from-IsFalling [] ps tt,
  rank_from_lem (λ t. ahead t ps) (λ t. 0) 0 0 none (sort_by_score ps)
      (λ t. omega (arith, ahead-sort_by_score t ps))
      (unfold sort_by_score in sort_from-IsFalling [] ps tt) (unfold HasRank in λ t. refl),
)
