-- ===== src/Common/Texts.antt =====
-- The order of texts.
use Prim.Native.Nat.{ℕ, Ordering, compare as compare_ℕ}
use Prim.Native.Char.{code}
use Prim.Native.String.compare
use Prim.Native.String.{String, [], ◌∷◌, then, compare}
use mathlib.Core.Path.{◌≡◌, refl, sym, ◌∙◌}
use native.Mathlib.Omega.{arith}

turn_number : (m n : ℕ) → compare_ℕ m n ≡ Ordering.gt → compare_ℕ n m ≡ Ordering.lt
turn_number m n h = ground arith

same_number : (m n : ℕ) → compare_ℕ m n ≡ Ordering.eq → compare_ℕ n m ≡ Ordering.eq
same_number m n h = ground arith

turn_then :
    (o o' r r' : Ordering)
    → (o ≡ Ordering.gt → o' ≡ Ordering.lt)
    → (o ≡ Ordering.eq → o' ≡ Ordering.eq)
    → (r ≡ Ordering.gt → r' ≡ Ordering.lt)
    → then o r ≡ Ordering.gt
    → then o' r' ≡ Ordering.lt
turn_then Ordering.lt o' r r' gt eq rest h = cc
turn_then Ordering.eq o' r r' gt eq rest h = rw (eq refl) (rest h)
turn_then Ordering.gt o' r r' gt eq rest h = rw (gt refl) refl

-- What comes after another text, that comes before it.
pub turn_compare : (s t : String) → compare s t ≡ Ordering.gt → compare t s ≡ Ordering.lt
turn_compare [] [] h = cc (compare.nil-nil, h)
turn_compare [] (d ∷ t) h = cc (compare.nil-cons d t, h)
turn_compare (c ∷ s) [] h = compare.nil-cons c s
turn_compare (c ∷ s) (d ∷ t) h =
    compare.cons-cons d c t s
    ∙ turn_then (compare_ℕ (code c) (code d)) (compare_ℕ (code d) (code c)) (compare s t)
        (compare t s) (turn_number (code c) (code d)) (same_number (code c) (code d))
        (turn_compare s t) (sym (compare.cons-cons c d s t) ∙ h)
