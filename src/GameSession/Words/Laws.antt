-- ===== src/GameSession/Words/Laws.antt =====
-- The choice of a word.
use gacha_mind.Base.{
  ◌∙◌, ℕ, suc, zero, ◌%◌, ◌<◌, ◌≡◌, refl, inl, inr, true, false, not, List, [], ◌∷◌, arith, Text,
  text_eq, text_eq_refl, length, keep, get_elem?, or_else, ltb, ◌&&◌, subst, text_eq_iff,
  Bool-cases,
}
use gacha_mind.GameSession.Words.{words, text_elem, pool, candidates, pick_word}

get_elem-text_elem :
    (vs : List Text) (i : ℕ) → i < length vs → text_elem (or_else (get_elem? vs i) []) vs ≡ true
unfolding text_elem
get_elem-text_elem [] i h = absurd (omega (arith, h))
get_elem-text_elem (v ∷ vs) zero h = rw (text_eq_refl v) refl
get_elem-text_elem (v ∷ vs) (suc i) h = ground (arith, get_elem-text_elem vs i)

-- What is kept is what was there and is not excluded.
text_elem-keep :
    (w : Text) (exclude vs : List Text)
    → text_elem w (keep (λ v. not (text_elem v exclude)) vs)
      ≡ text_elem w vs && not (text_elem w exclude)
unfolding text_elem
text_elem-keep w exclude [] = refl
text_elem-keep w exclude (v ∷ vs) = elim (Bool-cases (text_eq v w)) [
  | inl same ↦
      let one : v ≡ w = (text_eq_iff v w).0 same in
      elim (Bool-cases (text_elem v exclude)) [
        | inl out ↦
            let out' : text_elem w exclude ≡ true =
              subst (λ u. text_elem u exclude ≡ true) one out in
            rw out (ground (arith, text_elem-keep w exclude vs, out'))
        | inr kept ↦
            let kept' : text_elem w exclude ≡ false =
              subst (λ u. text_elem u exclude ≡ false) one kept in
            rw kept (ground (arith, same, kept'))
      ]
  | inr other ↦ elim (Bool-cases (text_elem v exclude)) [
    | inl out ↦ rw (out, other) (text_elem-keep w exclude vs)
    | inr kept ↦ rw (kept, other) (text_elem-keep w exclude vs)
  ]
]

elem-pool :
    (w : Text) (exclude : List Text)
    → text_elem w (pool exclude) ≡ text_elem w words && not (text_elem w exclude)
unfolding pool
elem-pool w exclude = text_elem-keep w exclude words

from_pool :
    (w : Text) (used : List Text)
    → text_elem w (pool used) ≡ true
    → (text_elem w words ≡ true) × (text_elem w used ≡ false)
from_pool w used h = ground (arith, elem-pool w used)

elem-nonempty : (w : Text) (vs : List Text) → text_elem w vs ≡ true → 0 < length vs
unfolding text_elem
elem-nonempty w [] h = cc
elem-nonempty w (v ∷ vs) h = omega arith

pick-candidates :
    (roll : ℕ) (vs : List Text)
    → 0 < length vs
    → text_elem (or_else (get_elem? vs (roll % length vs)) []) vs ≡ true
pick-candidates roll vs h = get_elem-text_elem vs (roll % length vs) (omega arith)

-- As long as a word of the dictionary has not been used, a word of the dictionary is picked that has
-- not been used.
pub pick_word_lem :
    (roll : ℕ) (used : List Text) (w : Text)
    → text_elem w words ≡ true
    → text_elem w used ≡ false
    → (text_elem (pick_word roll used) words ≡ true)
      × (text_elem (pick_word roll used) used ≡ false)
unfolding pick_word candidates
pick_word_lem roll used w known unused =
    let some_left : 0 < length (pool used) =
      elem-nonempty w (pool used) (elem-pool w used ∙ ground (arith, known, unused)) in
    let fresh : ltb 0 (length (pool used)) ≡ true = ground (arith, some_left) in
    rw fresh (from_pool _ used (pick-candidates roll (pool used) some_left))
