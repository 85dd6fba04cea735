-- ===== src/Base/Take.antt =====
-- The first entries of a list that grows at its end.
use Prim.Native.Nat.{ℕ, zero, suc, ◌≤◌, ◌<◌}
use mathlib.Core.Path.{◌≡◌, refl, sym, ap, ◌∙◌, subst}
use mathlib.Core.Bool.{true, false}
use mathlib.Core.List.{List, [], ◌∷◌, ◌++◌}
use native.Mathlib.Omega.{arith}
use gacha_mind.Base.Tests.{leb, leb→le, leb→lt}
use gacha_mind.Base.Lists.{length, take}

module _ {ℓ} {A : Type ℓ} where
  pub take-short : (n : ℕ) (xs : List A) → length xs ≤ n → take n xs ≡ xs
  take-short zero [] h = refl
  take-short zero (x ∷ xs) h = absurd (omega (arith, h))
  take-short (suc n) [] h = refl
  take-short (suc n) (x ∷ xs) h = ap (◌∷◌ x) (take-short n xs (omega (arith, h)))

  take-snoc_full :
      (n : ℕ) (xs : List A) (x : A) → n ≤ length (take n xs) → take n (xs ++ x ∷ []) ≡ take n xs
  take-snoc_full zero xs x h = refl
  take-snoc_full (suc n) [] x h = absurd (omega (arith, h))
  take-snoc_full (suc n) (y ∷ ys) x h = ap (◌∷◌ y) (take-snoc_full n ys x (omega (arith, h)))

  take-snoc_free :
      (n : ℕ) (xs : List A) (x : A)
      → length (take n xs) < n
      → take n (xs ++ x ∷ []) ≡ take n xs ++ x ∷ []
  take-snoc_free zero xs x h = absurd (omega (arith, h))
  take-snoc_free (suc zero) [] x h = refl
  take-snoc_free (suc (suc n)) [] x h = refl
  take-snoc_free (suc n) (y ∷ ys) x h = ap (◌∷◌ y) (take-snoc_free n ys x (omega (arith, h)))

  pub take-snoc_of_full :
      (n : ℕ) (xs ys : List A) (x : A)
      → take n xs ≡ ys
      → leb n (length ys) ≡ true
      → take n (xs ++ x ∷ []) ≡ ys
  take-snoc_of_full n xs ys x e full =
      take-snoc_full n xs x (subst (λ l. n ≤ length l) (sym e) (leb→le n (length ys) full)) ∙ e

  pub take-snoc_of_free :
      (n : ℕ) (xs ys : List A) (x : A)
      → take n xs ≡ ys
      → leb n (length ys) ≡ false
      → take n (xs ++ x ∷ []) ≡ ys ++ x ∷ []
  take-snoc_of_free n xs ys x e free =
      take-snoc_free n xs x (subst (λ l. length l < n) (sym e) (leb→lt n (length ys) free))
      ∙ ap (λ l. l ++ x ∷ []) e
