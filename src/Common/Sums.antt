-- ===== src/Common/Sums.antt =====
-- Sums of a measure over a list.
use Prim.Native.Nat.{ℕ, ◌+◌}
use mathlib.Core.Path.{◌≡◌}
use mathlib.Core.List.{List, [], ◌∷◌, ◌++◌, reverse, reverse_aux}
use native.Mathlib.Omega.{arith}

module _ {ℓ} {A : Type ℓ} (f : A → ℕ) where
  abbrev pub sum_of : List A → ℕ
  sum_of [] = 0
  sum_of (x ∷ xs) = f x + sum_of xs

  pub sum_of-append : (xs ys : List A) → sum_of (xs ++ ys) ≡ sum_of xs + sum_of ys
  sum_of-append [] ys = omega arith
  sum_of-append (x ∷ xs) ys = omega (arith, sum_of-append xs ys)

  sum_of-reverse_aux : (xs ys : List A) → sum_of (reverse_aux xs ys) ≡ sum_of xs + sum_of ys
  sum_of-reverse_aux [] ys = omega arith
  sum_of-reverse_aux (x ∷ xs) ys = omega (arith, sum_of-reverse_aux xs (x ∷ ys))

  pub sum_of-reverse : (xs : List A) → sum_of (reverse xs) ≡ sum_of xs
  sum_of-reverse xs = omega (arith, sum_of-reverse_aux xs [])
