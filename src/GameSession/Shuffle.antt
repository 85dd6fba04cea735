-- ===== src/GameSession/Shuffle.antt =====
-- apps/game-session/src/game.ts: `shuffle`, the swaps from the last position down to the second. An
-- array is a list of options, where `none` is `undefined`; `Math.floor(Math.random() * (i + 1))` is
-- the remainder of an arbitrary roll by `i + 1`.
pub mod Laws
use gacha_mind.Base.{ℕ, zero, suc, ◌-◌, ◌%◌, List, [], ◌∷◌, Option, none, some, length, map}

module _ {ℓ} {A : Type ℓ} where
  -- `array[i]`
  unfoldable read : List (Option A) → ℕ → Option A
  read [] i = none
  read (x ∷ xs) zero = x
  read (x ∷ xs) (suc i) = read xs i

  -- `array[i] = v`, which lengthens an array that is too short.
  unfoldable write : List (Option A) → ℕ → Option A → List (Option A)
  write [] zero v = v ∷ []
  write [] (suc i) v = none ∷ write [] i v
  write (x ∷ xs) zero v = v ∷ xs
  write (x ∷ xs) (suc i) v = x ∷ write xs i v

  unfoldable swap : List (Option A) → ℕ → ℕ → List (Option A)
  unfolding read write
  swap xs i j = write (write xs i (read xs j)) j (read xs i)

  -- The rounds of the loop from `i` down to 1.
  unfoldable shuffle_from : (ℕ → ℕ) → ℕ → List (Option A) → List (Option A)
  unfolding swap
  shuffle_from rolls zero xs = xs
  shuffle_from rolls (suc i) xs =
      shuffle_from rolls i (swap xs (suc i) (rolls (suc i) % suc (suc i)))

  -- The array that `shuffle` returns.
  unfoldable pub shuffle_array : (ℕ → ℕ) → List A → List (Option A)
  unfolding shuffle_from
  shuffle_array rolls xs = shuffle_from rolls (length xs - 1) (map some xs)

  unfoldable defined : List (Option A) → List A
  defined [] = []
  defined (none ∷ xs) = defined xs
  defined (some x ∷ xs) = x ∷ defined xs

  -- Its values, read as the `T[]` of its type, which has no `undefined`.
  unfoldable pub shuffle : (ℕ → ℕ) → List A → List A
  unfolding shuffle_array defined
  shuffle rolls xs = defined (shuffle_array rolls xs)
