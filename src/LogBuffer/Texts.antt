-- ===== src/LogBuffer/Texts.antt =====
-- How long the texts of a record are.
use norves_editor.Common.{
  ℕ, zero, suc, ◌+◌, ◌-◌, ◌≤◌, min, ◌≡◌, refl, ap, Option, none, some, arith, string_eq, nat_eq,
  option_eq,
}
use Prim.Native.String.len
use Prim.Native.String.slice
use Prim.Native.String.{String, [], ◌∷◌, len, slice, fits}
use norves_editor.LogBuffer.{
  boundary_before, bounded_copy, bounded_option, option_len, owned_fields, BorrowedLog,
}
use Prim.Native.Char.{Char, len_utf8}
use Prim.Native.Nat.{compare, Ordering}

len-fits :
    (n b : ℕ) (c : Char) (s : String)
    → len_utf8 c ≡ n
    → len s ≤ b - n
    → len (fits (compare n b) c s) ≤ b
len-fits n b c s e h = go (compare n b) refl
  where
    go : (o : Ordering) → compare n b ≡ o → len (fits o c s) ≤ b
    go Ordering.lt q = ground (arith, len.cons c s)
    go Ordering.eq q = ground (arith, len.cons c s)
    go Ordering.gt q = omega (arith, len.nil)

-- A text up to a position has at most so many bytes.
len-slice : (s : String) (b : ℕ) → len (slice s zero b) ≤ b
len-slice [] b = omega (arith, ap len (slice.nil zero b), len.nil)
len-slice (c ∷ s) b = omega (
  arith,
  ap len (slice.cons-zero c s b),
  len-fits (len_utf8 c) b c (slice s zero (b - len_utf8 c)) refl (len-slice s (b - len_utf8 c)),
)

boundary_before-le : (s : String) (n : ℕ) → boundary_before s n ≤ n
unfolding boundary_before
boundary_before-le s zero = omega arith
boundary_before-le s (suc n) = ground (arith, boundary_before-le s n)

bounded_copy-le : (s : String) (n : ℕ) → len (bounded_copy s n).0 + (bounded_copy s n).1 ≤ n
unfolding bounded_copy
bounded_copy-le s n =
    omega
      (arith, len-slice s (boundary_before s (min (len s) n)), boundary_before-le s (min (len s) n))

bounded_option-le :
    (o : Option String) (n : ℕ) → option_len (bounded_option o n).0 + (bounded_option o n).1 ≤ n
unfolding bounded_option
bounded_option-le none n = omega arith
bounded_option-le (some s) n = bounded_copy-le s n

-- The texts of a record are together no longer than the limit.
pub owned_fields-le :
    {L : Type 0} (b : BorrowedLog L) (limit : ℕ)
    → let fields = owned_fields b limit in
      len fields.0 + option_len fields.1 + option_len fields.2 ≤ limit
unfolding owned_fields
owned_fields-le b limit = omega (
  arith,
  bounded_copy-le b.message limit,
  bounded_option-le b.category (bounded_copy b.message limit).1,
  bounded_option-le b.engine_timestamp
      (bounded_option b.category (bounded_copy b.message limit).1).1,
)
