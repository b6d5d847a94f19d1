-- ===== src/Bridge/Correlation/Order.antt =====
-- What the monitor of event numbers reports over a whole sequence of events.
use norves_editor.Common.{
  ℕ, ◌<◌, ◌≡◌, refl, ◌∙◌, Bool, true, false, ◌||◌, Option, none, some, List, [], ◌∷◌, arith, any,
  All, leb, string_eq, nat_eq, option_eq, u64_max,
}
use norves_editor.Bridge.Correlation.{SeqObservation, observe}

abbrev pub is_regressed : SeqObservation → Bool
is_regressed SeqObservation.ok = false
is_regressed SeqObservation.skipped = false
is_regressed (SeqObservation.regressed last got) = true

-- The monitor's state after a sequence of events, the first of them at the head.
unfoldable pub observe_all : Option ℕ → List (Option ℕ) → Option ℕ
unfolding observe
observe_all last [] = last
observe_all last (seq ∷ seqs) = observe_all (observe last seq).1 seqs

abbrev pub reaches : ℕ → Option ℕ → Bool
reaches seq none = false
reaches seq (some earlier) = leb seq earlier

abbrev pub IsBelowTop : Option ℕ → Type 0
IsBelowTop none = Unit
IsBelowTop (some seq) = seq < u64_max

observe-below :
    (last seq : Option ℕ) → IsBelowTop last → IsBelowTop seq → IsBelowTop (observe last seq).1
unfolding observe
observe-below last none h k = h
observe-below none (some seq) h k = k
observe-below (some last) (some seq) h k = ground arith

observe-reaches :
    (last seq : Option ℕ) (n : ℕ)
    → reaches n (observe last seq).1 ≡ (reaches n last || reaches n seq)
unfolding observe
observe-reaches none none n = refl
observe-reaches (some last) none n = ground arith
observe-reaches none (some seq) n = refl
observe-reaches (some last) (some seq) n = ground arith

observe_all-reaches :
    (last : Option ℕ) (seqs : List (Option ℕ)) (n : ℕ)
    → reaches n (observe_all last seqs) ≡ (reaches n last || any (reaches n) seqs)
unfolding observe_all any
observe_all-reaches last [] n = ground arith
observe_all-reaches last (seq ∷ seqs) n =
    ground (arith, observe_all-reaches (observe last seq).1 seqs n, observe-reaches last seq n)

observe_all-below :
    (last : Option ℕ) (seqs : List (Option ℕ))
    → IsBelowTop last
    → All IsBelowTop seqs
    → IsBelowTop (observe_all last seqs)
unfolding observe_all
observe_all-below last [] h k = h
observe_all-below last (seq ∷ seqs) h k =
    observe_all-below (observe last seq).1 seqs (observe-below last seq h k.0) k.1

observe-is_regressed :
    (last : Option ℕ) (n : ℕ)
    → IsBelowTop last
    → is_regressed (observe last (some n)).0 ≡ reaches n last
unfolding observe
observe-is_regressed none n h = refl
observe-is_regressed (some last) n h = ground arith

-- After any events whose numbers are below the largest `u64`, a new one is reported as a
-- regression exactly where some earlier event had its number or a larger one: a regression never
-- lowers the mark, and events without a number never change it.
pub observe_regresses_iff :
    (seqs : List (Option ℕ)) (n : ℕ)
    → All IsBelowTop seqs
    → is_regressed (observe (observe_all none seqs) (some n)).0 ≡ any (reaches n) seqs
observe_regresses_iff seqs n h =
    observe-is_regressed (observe_all none seqs) n (observe_all-below none seqs tt h)
    ∙ observe_all-reaches none seqs n
