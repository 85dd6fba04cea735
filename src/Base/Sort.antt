-- ===== src/Base/Sort.antt =====
-- `Array.prototype.sort`, which is stable: the elements are put in one after the other, each before
-- the first that it precedes.
use mathlib.Core.Bool.{Bool, true, false}
use mathlib.Core.List.{List, [], ◌∷◌}
use mathlib.Core.Path.{◌≡◌, refl, ◌∙◌}
use mathlib.Core.Logic.{inl, inr}
use gacha_mind.Base.Tests.{if◌then◌else◌, Bool-cases}
use gacha_mind.Base.Lists.{All, keep}

module _ {ℓ} {A : Type ℓ} (precedes : A → A → Bool) where
  unfoldable pub insert_by : A → List A → List A
  insert_by x [] = x ∷ []
  insert_by x (y ∷ ys) = if precedes x y then x ∷ y ∷ ys else y ∷ insert_by x ys

  unfoldable pub sort_onto : List A → List A → List A
  unfolding insert_by
  sort_onto acc [] = acc
  sort_onto acc (x ∷ xs) = sort_onto (insert_by x acc) xs

  unfoldable pub sort_by : List A → List A
  unfolding sort_onto
  sort_by xs = sort_onto [] xs

  module _ {κ} (P : A → Type κ) where
    insert_by-All : (x : A) (ys : List A) → P x → All P ys → All P (insert_by x ys)
    unfolding insert_by
    insert_by-All x [] p h = (p, tt)
    insert_by-All x (y ∷ ys) p h = elim (Bool-cases (precedes x y)) [
      | inl e ↦ rw e (p, h)
      | inr e ↦ rw e (h.0, insert_by-All x ys p h.1)
    ]

    sort_onto-All : (acc xs : List A) → All P acc → All P xs → All P (sort_onto acc xs)
    unfolding sort_onto
    sort_onto-All acc [] h k = h
    sort_onto-All acc (x ∷ xs) h k =
        sort_onto-All (insert_by x acc) xs (insert_by-All x acc k.0 h) k.1

    -- What holds of all elements holds of them in order.
    pub sort_by-All : (xs : List A) → All P xs → All P (sort_by xs)
    unfolding sort_by
    sort_by-All xs k = sort_onto-All [] xs tt k

    insert_by-All_back : (x : A) (ys : List A) → All P (insert_by x ys) → P x × All P ys
    unfolding insert_by
    insert_by-All_back x [] h = (h.0, tt)
    insert_by-All_back x (y ∷ ys) h = elim (Bool-cases (precedes x y)) [
      | inl e ↦ rw e at h
      | inr e ↦
          let k = rw e at h in
          ((insert_by-All_back x ys k.1).0, (k.0, (insert_by-All_back x ys k.1).1))
    ]

    sort_onto-All_back : (acc xs : List A) → All P (sort_onto acc xs) → All P acc × All P xs
    unfolding sort_onto
    sort_onto-All_back acc [] h = (h, tt)
    sort_onto-All_back acc (x ∷ xs) h =
        let k = sort_onto-All_back (insert_by x acc) xs h in
        let j = insert_by-All_back x acc k.0 in (j.1, (j.0, k.1))

    -- What holds of them in order holds of all elements.
    pub sort_by-All_back : (xs : List A) → All P (sort_by xs) → All P xs
    unfolding sort_by
    sort_by-All_back xs h = (sort_onto-All_back [] xs h).1

  -- `le` is the order that the comparison decides.
  module _ (le : A → A → Type 0) (le_trans : (x y z : A) → le x y → le y z → le x z)
      (first : (x y : A) → precedes x y ≡ true → le x y)
      (second : (x y : A) → precedes x y ≡ false → le y x) where
    abbrev pub IsSorted : List A → Type 0
    IsSorted [] = Unit
    IsSorted (x ∷ xs) = All (le x) xs × IsSorted xs

    All-le : (x y : A) (ys : List A) → le x y → All (le y) ys → All (le x) ys
    All-le x y [] h k = tt
    All-le x y (z ∷ zs) h k = (le_trans x y z h k.0, All-le x y zs h k.1)

    insert_by-IsSorted : (x : A) (ys : List A) → IsSorted ys → IsSorted (insert_by x ys)
    unfolding insert_by
    insert_by-IsSorted x [] h = (tt, tt)
    insert_by-IsSorted x (y ∷ ys) h = elim (Bool-cases (precedes x y)) [
      | inl e ↦ rw e ((first x y e, All-le x y ys (first x y e) h.0), h)
      | inr e ↦ rw e (insert_by-All (le y) x ys (second x y e) h.0, insert_by-IsSorted x ys h.1)
    ]

    sort_onto-IsSorted : (acc xs : List A) → IsSorted acc → IsSorted (sort_onto acc xs)
    unfolding sort_onto
    sort_onto-IsSorted acc [] h = h
    sort_onto-IsSorted acc (x ∷ xs) h =
        sort_onto-IsSorted (insert_by x acc) xs (insert_by-IsSorted x acc h)

    pub sort_by-IsSorted : (xs : List A) → IsSorted (sort_by xs)
    unfolding sort_by
    sort_by-IsSorted xs = sort_onto-IsSorted [] xs tt

    -- Sorting what a test keeps is keeping what it keeps of the sorted list.
    module _ (p : A → Bool)
        (before_all : (x y z : A) → precedes x y ≡ true → le y z → precedes x z ≡ true) where
      insert_by-front :
          (x : A) (ys : List A) → All (λ y. precedes x y ≡ true) ys → insert_by x ys ≡ x ∷ ys
      unfolding insert_by
      insert_by-front x [] h = refl
      insert_by-front x (y ∷ ys) h = rw h.0 refl

      keep-All : (P : A → Type 0) (xs : List A) → All P xs → All P (keep p xs)
      keep-All P [] h = tt
      keep-All P (x ∷ xs) h = elim (Bool-cases (p x)) [
        | inl e ↦ rw e (h.0, keep-All P xs h.1)
        | inr e ↦ rw e (keep-All P xs h.1)
      ]

      All-before :
          (x y : A) (ys : List A)
          → precedes x y ≡ true
          → All (le y) ys
          → All (λ z. precedes x z ≡ true) ys
      All-before x y [] e h = tt
      All-before x y (z ∷ zs) e h = (before_all x y z e h.0, All-before x y zs e h.1)

      keep-insert_by :
          (x : A) (ys : List A)
          → IsSorted ys
          → keep p (insert_by x ys) ≡ (if p x then insert_by x (keep p ys) else keep p ys)
      unfolding insert_by
      keep-insert_by x [] h = refl
      keep-insert_by x (y ∷ ys) h = elim (Bool-cases (precedes x y)) [
        | inl e ↦
            rw
              (
                e,
                insert_by-front x (keep p (y ∷ ys))
                    (keep-All _ (y ∷ ys) (e, All-before x y ys e h.0)),
              )
              refl
        | inr e ↦ elim (Bool-cases (p x)) [
          | inl px ↦ elim (Bool-cases (p y)) [
            | inl py ↦ rw (e, px, py, keep-insert_by x ys h.1, px, e) refl
            | inr py ↦ rw (e, px, py, keep-insert_by x ys h.1, px) refl
          ]
          | inr px ↦ rw (e, px, keep-insert_by x ys h.1, px) refl
        ]
      ]

      keep-sort_onto :
          (acc xs : List A)
          → IsSorted acc
          → keep p (sort_onto acc xs) ≡ sort_onto (keep p acc) (keep p xs)
      unfolding sort_onto
      keep-sort_onto acc [] h = refl
      keep-sort_onto acc (x ∷ xs) h =
          keep-sort_onto (insert_by x acc) xs (insert_by-IsSorted x acc h)
          ∙ rw (keep-insert_by x acc h)
              (elim (Bool-cases (p x)) [ inl e ↦ rw e refl | inr e ↦ rw e refl ])

      pub keep-sort_by : (xs : List A) → keep p (sort_by xs) ≡ sort_by (keep p xs)
      unfolding sort_by
      keep-sort_by xs = keep-sort_onto [] xs tt
