-- ===== src/History/Groups/Secrets.antt =====
-- The comparison of group secrets is equality: `GroupSecret::matches` of edit_service/groups.rs.
use norves_editor.Common.{
  ℕ, zero, suc, ◌<◌, ◌≡◌, refl, ap, ◌↔◌, Bool, true, not, ◌&&◌, List, [], ◌∷◌, arith, length, All,
  if◌then◌else◌, ltb, nat_beq, Bool-cases, inl, inr, string_eq, nat_eq, option_eq,
}
use Prim.Native.Nat.{bit_or, bit_xor}
use norves_editor.History.Groups.{differences, matches}

abbrev pub IsByte : ℕ → Type 0
IsByte b = b < 256

-- Whether a test holds of all the numbers under a bound.
every_under : (ℕ → Bool) → ℕ → Bool
every_under test zero = true
every_under test (suc bound) = every_under test bound && test bound

every_under_sound :
    (test : ℕ → Bool) (bound k : ℕ) → k < bound → every_under test bound ≡ true → test k ≡ true
unfolding every_under
every_under_sound test zero k below all = absurd (omega arith)
every_under_sound test (suc bound) k below all = elim (Bool-cases (nat_beq k bound)) [
  | inl last ↦ ground arith
  | inr earlier ↦ ground (arith, every_under_sound test bound k)
]

-- For two bytes: the exclusive or is a byte, and is 0 just if they are equal.
abbrev xor_test : ℕ → ℕ → Bool
xor_test a b =
    ltb (bit_xor a b) 256
    && (if nat_beq (bit_xor a b) 0 then nat_beq a b else true)
    && (if nat_beq a b then nat_beq (bit_xor a b) 0 else true)

xor_table : every_under (λ a. every_under (xor_test a) 256) 256 ≡ true
unfolding every_under
xor_table = refl

or_test : ℕ → ℕ → Bool
or_test a b =
    ltb (bit_or a b) 256
    && (if nat_beq (bit_or a b) 0
        then nat_beq a 0 && nat_beq b 0
        else not (nat_beq a 0 && nat_beq b 0))

or_table : every_under (λ a. every_under (or_test a) 256) 256 ≡ true
unfolding every_under or_test
or_table = refl

or_fact :
    (a b : ℕ) → IsByte a → IsByte b → IsByte (bit_or a b) × ((bit_or a b ≡ 0) ↔ ((a ≡ 0) × (b ≡ 0)))
unfolding or_test
or_fact a b ha hb =
    let h = every_under_sound (or_test a) 256 b hb (every_under_sound _ 256 a ha or_table) in
    ground arith

xor_fact : (a b : ℕ) → IsByte a → IsByte b → IsByte (bit_xor a b) × ((bit_xor a b ≡ 0) ↔ (a ≡ b))
xor_fact a b ha hb =
    let h = every_under_sound (xor_test a) 256 b hb (every_under_sound _ 256 a ha xor_table) in
    ground arith

-- Of two texts of one length no difference is found just if they are equal.
differences-eq-zero :
    (diff : ℕ) (secret candidate : List ℕ)
    → IsByte diff
    → All IsByte secret
    → All IsByte candidate
    → length candidate ≡ length secret
    → (differences diff secret candidate ≡ 0) ↔ ((diff ≡ 0) × (candidate ≡ secret))
unfolding differences
differences-eq-zero diff [] [] hd hs hc same = (λ e. (e, refl), λ e. e.0)
differences-eq-zero diff [] (b ∷ candidate) hd hs hc same = absurd (omega arith)
differences-eq-zero diff (a ∷ secret) [] hd hs hc same = absurd (omega arith)
differences-eq-zero diff (a ∷ secret) (b ∷ candidate) hd hs hc same =
    let x = xor_fact a b hs.0 hc.0 in
    let o = or_fact diff (bit_xor a b) hd x.0 in
    let ih =
      differences-eq-zero (bit_or diff (bit_xor a b)) secret candidate o.0 hs.1 hc.1
        (omega arith) in
    ground arith

-- A candidate matches a secret exactly where it is the secret, byte for byte. Both are lists of
-- bytes.
pub matches_iff :
    (secret candidate : List ℕ)
    → All IsByte secret
    → All IsByte candidate
    → (matches secret candidate ≡ true) ↔ (candidate ≡ secret)
unfolding matches
matches_iff secret candidate hs hc = (
  λ h.
      ((differences-eq-zero 0 secret candidate (omega arith) hs hc (ground arith)).0
        (ground arith)).1,
  λ e.
      let d =
        (differences-eq-zero 0 secret candidate (omega arith) hs hc (ap length e)).1 (refl, e) in
      ground (arith, ap length e),
)
