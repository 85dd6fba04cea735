-- ===== src/GameSession/Shuffle/Laws.antt =====
-- A shuffle keeps every entry as often as it stands in the list, whatever the random draws.
use native.Mathlib.Omega.{mod_fact}
use gacha_mind.Base.{
  ◌<◌, Option, map, sym, ap, subst, ℕ, zero, suc, ◌+◌, ◌-◌, ◌%◌, ◌≤◌, ◌≡◌, refl, true, List, [],
  ◌∷◌, some, arith, length, get_elem?, set, elem, Distinct, Within, take, ◌==◌, ltb, if◌then◌else◌,
  length-set, ◌∙◌,
}
use gacha_mind.GameSession.Shuffle.{
  read, write, swap, shuffle_from, shuffle_array, defined, shuffle,
}

-- How often an identifier stands in a list.
unfoldable pub count : ℕ → List ℕ → ℕ
count a [] = 0
count a (x ∷ xs) = (if x == a then 1 else 0) + count a xs

count-set :
    (a : ℕ) (xs : List ℕ) (i v old : ℕ)
    → get_elem? xs i ≡ some old
    → count a (set xs i v) + (if old == a then 1 else 0) ≡ count a xs + (if v == a then 1 else 0)
unfolding count
count-set a [] i v old e = cc
count-set a (x ∷ xs) zero v old e = ground arith
count-set a (x ∷ xs) (suc i) v old e = ground (arith, count-set a xs i v old e)

-- Writing the value of position `j` elsewhere leaves position `j` with it.
get_elem?-set_same :
    (xs : List ℕ) (i j b : ℕ) → get_elem? xs j ≡ some b → get_elem? (set xs i b) j ≡ some b
get_elem?-set_same [] i j b e = cc
get_elem?-set_same (x ∷ xs) zero zero b e = refl
get_elem?-set_same (x ∷ xs) zero (suc j) b e = e
get_elem?-set_same (x ∷ xs) (suc i) zero b e = e
get_elem?-set_same (x ∷ xs) (suc i) (suc j) b e = get_elem?-set_same xs i j b e

entry : (xs : List ℕ) (i : ℕ) → i < length xs → (a : ℕ) × (get_elem? xs i ≡ some a)
entry [] i h = absurd (omega (arith, h))
entry (x ∷ xs) zero h = (x, refl)
entry (x ∷ xs) (suc i) h = entry xs i (omega (arith, h))

read-values : (xs : List ℕ) (i a : ℕ) → get_elem? xs i ≡ some a → read (map some xs) i ≡ some a
unfolding read
read-values [] i a e = cc
read-values (x ∷ xs) zero a e = e
read-values (x ∷ xs) (suc i) a e = read-values xs i a e

write-values :
    (xs : List ℕ) (i v : ℕ) → i < length xs → write (map some xs) i (some v) ≡ map some (set xs i v)
unfolding write
write-values [] i v h = absurd (omega (arith, h))
write-values (x ∷ xs) zero v h = refl
write-values (x ∷ xs) (suc i) v h = ap (◌∷◌ (some x)) (write-values xs i v (omega (arith, h)))

-- The array has a value at each place, and each as often as the list.
record Holds (xs : List ℕ) (array : List (Option ℕ)) : Type 0 where
  values : List ℕ
  whole : array ≡ map some values
  counts : (x : ℕ) → count x values ≡ count x xs
  lengths : length values ≡ length xs

-- A swap of two places of the array.
swap-Holds :
    (xs : List ℕ) (i j : ℕ) → i < length xs → j < length xs → Holds xs (swap (map some xs) i j)
unfolding swap
swap-Holds xs i j hi hj =
    let a = entry xs i hi in
    let b = entry xs j hj in
    let inside : j < length (set xs i b.0) = subst (λ n. j < n) (sym (length-set xs i b.0)) hj in
    record {
      values = set (set xs i b.0) j a.0;
      whole =
          rw
            (
              read-values xs i a.0 a.1,
              read-values xs j b.0 b.1,
              write-values xs i b.0 hi,
              write-values (set xs i b.0) j a.0 inside,
            )
            refl;
      counts = λ x. omega (
        arith,
        count-set x xs i b.0 a.0 a.1,
        count-set x (set xs i b.0) j a.0 b.0 (get_elem?-set_same xs i j b.0 b.1),
      );
      lengths = length-set (set xs i b.0) j a.0 ∙ length-set xs i b.0;
    }

shuffle_from-Holds :
    (rolls : ℕ → ℕ) (i : ℕ) (xs : List ℕ)
    → i ≤ length xs - 1
    → Holds xs (shuffle_from rolls i (map some xs))
unfolding shuffle_from
shuffle_from-Holds rolls zero xs h = record {
  values = xs;
  whole = refl;
  counts = λ x. refl;
  lengths = refl;
}
shuffle_from-Holds rolls (suc i) xs h =
    let j = rolls (suc i) % suc (suc i) in
    let low : rolls (suc i) % suc (suc i) < suc (suc i) = mod_fact (rolls (suc i)) (suc i) in
    let first = swap-Holds xs (suc i) j (omega (arith, h)) (omega (arith, h, low)) in
    let rest = shuffle_from-Holds rolls i first.values (omega (arith, h, first.lengths)) in
    record {
      values = rest.values;
      whole = rw first.whole rest.whole;
      counts = λ x. rest.counts x ∙ first.counts x;
      lengths = rest.lengths ∙ first.lengths;
    }

shuffle_array-Holds : (rolls : ℕ → ℕ) (xs : List ℕ) → Holds xs (shuffle_array rolls xs)
unfolding shuffle_array
shuffle_array-Holds rolls xs = shuffle_from-Holds rolls (length xs - 1) xs (omega arith)

defined-values : (xs : List ℕ) → defined (map some xs) ≡ xs
unfolding defined
defined-values [] = refl
defined-values (x ∷ xs) = ap (◌∷◌ x) (defined-values xs)

shuffle-values :
    (rolls : ℕ → ℕ) (xs : List ℕ) → shuffle rolls xs ≡ (shuffle_array-Holds rolls xs).values
unfolding shuffle
shuffle-values rolls xs =
    let held = shuffle_array-Holds rolls xs in ap defined held.whole ∙ defined-values held.values

-- Whatever the draws, the array that `shuffle` returns holds no `undefined`, and it holds each
-- identifier as often as the list does.
pub count-shuffle :
    (x : ℕ) (rolls : ℕ → ℕ) (xs : List ℕ)
    → (shuffle_array rolls xs ≡ map some (shuffle rolls xs))
      × (count x (shuffle rolls xs) ≡ count x xs)
count-shuffle x rolls xs =
    let held = shuffle_array-Holds rolls xs in
    (
      held.whole ∙ ap (map some) (sym (shuffle-values rolls xs)),
      ap (count x) (shuffle-values rolls xs) ∙ held.counts x,
    )

pub length-shuffle : (rolls : ℕ → ℕ) (xs : List ℕ) → length (shuffle rolls xs) ≡ length xs
length-shuffle rolls xs =
    ap length (shuffle-values rolls xs) ∙ (shuffle_array-Holds rolls xs).lengths

elem-count : (x : ℕ) (xs : List ℕ) → elem x xs ≡ ltb 0 (count x xs)
unfolding elem count
elem-count x [] = refl
elem-count x (y ∷ ys) = ground (arith, elem-count x ys)

Distinct-count : (xs : List ℕ) → Distinct xs → (x : ℕ) → count x xs ≤ 1
unfolding count
Distinct-count [] h x = omega arith
Distinct-count (y ∷ ys) h x = ground (arith, Distinct-count ys h.1 x, elem-count x ys)

count-Distinct : (xs : List ℕ) → ((x : ℕ) → count x xs ≤ 1) → Distinct xs
unfolding count
count-Distinct [] h = tt
count-Distinct (y ∷ ys) h =
    (ground (arith, h y, elem-count y ys), count-Distinct ys (λ x. ground (arith, h x)))

pub shuffle-Distinct : (rolls : ℕ → ℕ) (xs : List ℕ) → Distinct xs → Distinct (shuffle rolls xs)
shuffle-Distinct rolls xs h =
    count-Distinct _ (λ x. omega (arith, Distinct-count xs h x, (count-shuffle x rolls xs).1))

pub elem-shuffle : (x : ℕ) (rolls : ℕ → ℕ) (xs : List ℕ) → elem x (shuffle rolls xs) ≡ elem x xs
elem-shuffle x rolls xs =
    rw (elem-count x (shuffle rolls xs), (count-shuffle x rolls xs).1, elem-count x xs)

elem-take : (n x : ℕ) (xs : List ℕ) → elem x (take n xs) ≡ true → elem x xs ≡ true
unfolding elem
elem-take zero x xs e = cc
elem-take (suc n) x [] e = e
elem-take (suc n) x (y ∷ ys) e = ground (arith, elem-take n x ys)

pub take-Distinct : (n : ℕ) (xs : List ℕ) → Distinct xs → Distinct (take n xs)
take-Distinct zero xs h = tt
take-Distinct (suc n) [] h = tt
take-Distinct (suc n) (x ∷ xs) h = ground (arith, elem-take n x xs, take-Distinct n xs h.1)

elem_all-Within : (xs ys : List ℕ) → ((x : ℕ) → elem x xs ≡ true → elem x ys ≡ true) → Within xs ys
unfolding elem
elem_all-Within [] ys f = tt
elem_all-Within (x ∷ xs) ys f =
    (f x (ground arith), elem_all-Within xs ys (λ y e. f y (ground arith)))

pub take-shuffle-Within :
    (n : ℕ) (rolls : ℕ → ℕ) (xs : List ℕ) → Within (take n (shuffle rolls xs)) xs
take-shuffle-Within n rolls xs =
    elem_all-Within _ xs
      λ x e. ground (arith, elem-take n x (shuffle rolls xs), elem-shuffle x rolls xs)
