-- ===== src/Base/Lists.antt =====
-- Lists measured and indexed by native numbers, predicates on their entries, and membership tests.
use Prim.Native.Nat.{ℕ, zero, suc, ◌+◌, ◌-◌, ◌≤◌, min}
use mathlib.Core.Path.{◌≡◌, refl, ap}
use mathlib.Core.Bool.{Bool, true, false, ◌||◌, ◌&&◌, not}
use mathlib.Core.List.{List, [], ◌∷◌, ◌++◌, map, Memᴰ}
use mathlib.Core.Option.{Option, none, some}
use native.Mathlib.Omega.{arith}
use gacha_mind.Base.Tests.{◌==◌, if◌then◌else◌}

module _ {ℓ} {A : Type ℓ} where
  abbrev pub length : List A → ℕ
  length [] = 0
  length (x ∷ xs) = suc (length xs)

  abbrev pub get_elem? : List A → ℕ → Option A
  get_elem? [] i = none
  get_elem? (x ∷ xs) zero = some x
  get_elem? (x ∷ xs) (suc i) = get_elem? xs i

  -- A write out of bounds changes nothing.
  abbrev pub set : List A → ℕ → A → List A
  set [] i v = []
  set (x ∷ xs) zero v = v ∷ xs
  set (x ∷ xs) (suc i) v = x ∷ set xs i v

  abbrev pub take : ℕ → List A → List A
  take zero xs = []
  take (suc n) [] = []
  take (suc n) (x ∷ xs) = x ∷ take n xs

  abbrev pub drop : ℕ → List A → List A
  drop zero xs = xs
  drop (suc n) [] = []
  drop (suc n) (x ∷ xs) = drop n xs

  pub length-append : (xs ys : List A) → length (xs ++ ys) ≡ length xs + length ys
  length-append [] ys = omega arith
  length-append (x ∷ xs) ys = omega (arith, length-append xs ys)

  pub length-take : (n : ℕ) (xs : List A) → length (take n xs) ≡ min n (length xs)
  length-take zero xs = omega arith
  length-take (suc n) [] = omega arith
  length-take (suc n) (x ∷ xs) = omega (arith, length-take n xs)

  pub length-drop : (n : ℕ) (xs : List A) → length (drop n xs) ≡ length xs - n
  length-drop zero xs = omega arith
  length-drop (suc n) [] = omega arith
  length-drop (suc n) (x ∷ xs) = omega (arith, length-drop n xs)

  pub length-set : (xs : List A) (i : ℕ) (v : A) → length (set xs i v) ≡ length xs
  length-set [] i v = refl
  length-set (x ∷ xs) zero v = refl
  length-set (x ∷ xs) (suc i) v = ap suc (length-set xs i v)

-- `xs.filter(test)`
abbrev pub keep {ℓ} : {A : Type ℓ} → (A → Bool) → List A → List A
keep p [] = []
keep p (x ∷ xs) = if p x then x ∷ keep p xs else keep p xs

pub length-keep-le {ℓ} : {A : Type ℓ} (p : A → Bool) (xs : List A) → length (keep p xs) ≤ length xs
length-keep-le p [] = omega arith
length-keep-le p (x ∷ xs) = ground (arith, length-keep-le p xs)

pub length-map {ℓ κ} :
    {A : Type ℓ} {B : Type κ} (f : A → B) (xs : List A) → length (map f xs) ≡ length xs
length-map f [] = refl
length-map f (x ∷ xs) = ap suc (length-map f xs)

abbrev pub All {ℓ κ} : {A : Type ℓ} → (A → Type κ) → List A → Type κ
All P [] = Unit
All P (x ∷ xs) = P x × All P xs

pub All-weaken {ℓ κ μ} :
    {A : Type ℓ} {P : A → Type κ} {Q : A → Type μ} (xs : List A)
    → ((x : A) → P x → Q x)
    → All P xs
    → All Q xs
All-weaken [] f h = tt
All-weaken (x ∷ xs) f h = (f x h.0, All-weaken xs f h.1)

module _ {ℓ κ} {A : Type ℓ} (P : A → Type κ) where
  pub All-append : (xs ys : List A) → All P xs → All P ys → All P (xs ++ ys)
  All-append [] ys hx hy = hy
  All-append (x ∷ xs) ys hx hy = (hx.0, All-append xs ys hx.1 hy)

  pub All-take : (n : ℕ) (xs : List A) → All P xs → All P (take n xs)
  All-take zero xs h = tt
  All-take (suc n) [] h = tt
  All-take (suc n) (x ∷ xs) h = (h.0, All-take n xs h.1)

pub All-members {ℓ} : {A : Type ℓ} (xs : List A) → All (λ x. Memᴰ x xs) xs
All-members [] = tt
All-members (x ∷ xs) = (Memᴰ.head refl, All-weaken xs (λ y m. Memᴰ.tail m) (All-members xs))

-- `xs.includes(a)` on identifiers.
unfoldable pub elem : ℕ → List ℕ → Bool
elem a [] = false
elem a (x ∷ xs) = x == a || elem a xs

-- No identifier stands twice.
abbrev pub Distinct : List ℕ → Type 0
Distinct [] = Unit
Distinct (x ∷ xs) = (elem x xs ≡ false) × Distinct xs

-- Every identifier of the first list stands in the second.
abbrev pub Within : List ℕ → List ℕ → Type 0
Within xs ys = All (λ x. elem x ys ≡ true) xs

-- `xs.filter((id) => id !== a)`
unfoldable pub without : ℕ → List ℕ → List ℕ
without a [] = []
without a (x ∷ xs) = if x == a then without a xs else x ∷ without a xs

pub elem-append : (a : ℕ) (xs ys : List ℕ) → elem a (xs ++ ys) ≡ (elem a xs || elem a ys)
unfolding elem
elem-append a [] ys = refl
elem-append a (x ∷ xs) ys = ground (arith, elem-append a xs ys)

pub elem-without : (a b : ℕ) (xs : List ℕ) → elem a (without b xs) ≡ (not (b == a) && elem a xs)
unfolding elem without
elem-without a b [] = ground arith
elem-without a b (x ∷ xs) = ground (arith, elem-without a b xs)

pub without-Distinct : (b : ℕ) (xs : List ℕ) → Distinct xs → Distinct (without b xs)
unfolding without
without-Distinct b [] h = tt
without-Distinct b (x ∷ xs) h = ground (arith, elem-without x b xs, without-Distinct b xs h.1)

pub without-Within : (b : ℕ) (xs ys : List ℕ) → Within xs ys → Within (without b xs) (without b ys)
unfolding without
without-Within b [] ys h = tt
without-Within b (x ∷ xs) ys h = ground (arith, elem-without x b ys, without-Within b xs ys h.1)

pub Within-mono :
    (xs ys zs : List ℕ)
    → ((a : ℕ) → elem a ys ≡ true → elem a zs ≡ true)
    → Within xs ys
    → Within xs zs
Within-mono [] ys zs f h = tt
Within-mono (x ∷ xs) ys zs f h = (f x h.0, Within-mono xs ys zs f h.1)

pub elem-Within : (a : ℕ) (xs ys : List ℕ) → Within xs ys → elem a xs ≡ true → elem a ys ≡ true
unfolding elem
elem-Within a [] ys h e = absurd (false_ne e)
  where
    false_ne : false ≡ true → ⊥
    false_ne e = cc
elem-Within a (x ∷ xs) ys h e = ground (arith, elem-Within a xs ys h.1)

-- A test that every entry passes.
unfoldable pub every : (ℕ → Bool) → List ℕ → Bool
every p [] = true
every p (x ∷ xs) = p x && every p xs

pub every-elem :
    (p : ℕ → Bool) (a : ℕ) (xs : List ℕ) → every p xs ≡ true → elem a xs ≡ true → p a ≡ true
unfolding every elem
every-elem p a [] h e = cc
every-elem p a (x ∷ xs) h e = ground (arith, every-elem p a xs)

pub Distinct-snoc :
    (a : ℕ) (xs : List ℕ) → elem a xs ≡ false → Distinct xs → Distinct (xs ++ a ∷ [])
unfolding elem
Distinct-snoc a [] e h = (refl, tt)
Distinct-snoc a (x ∷ xs) e h = ground (arith, elem-append x xs (a ∷ []), Distinct-snoc a xs, h)

pub Within-snoc : (a : ℕ) (xs ys : List ℕ) → Within xs ys → Within xs (ys ++ a ∷ [])
Within-snoc a xs ys h =
    Within-mono xs ys (ys ++ a ∷ []) (λ x e. ground (arith, elem-append x ys (a ∷ []), e)) h

pub elem-snoc : (a : ℕ) (xs : List ℕ) → elem a (xs ++ a ∷ []) ≡ true
unfolding elem
elem-snoc a xs = ground (arith, elem-append a xs (a ∷ []))
