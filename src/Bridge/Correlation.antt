-- ===== src/Bridge/Correlation.antt =====
-- The table of requests in flight and the monitor of event numbers, norves-bridge-core/src/correlation.rs.
pub mod Order
use norves_editor.Common.{
  ℕ, zero, suc, ◌+◌, ◌-◌, ◌*◌, ◌/◌, ◌%◌, ◌≤◌, ◌<◌, min, max, ◌≡◌, ◌≢◌, refl, sym, ap, subst, ◌∙◌,
  ◌⊎◌, inl, inr, ◌↔◌, Bool, true, false, not, ◌&&◌, ◌||◌, String, Option, none, some, List, [], ◌∷◌,
  ◌++◌, map, reverse, arith, length, head?, any, retain, take_while, All, if◌then◌else◌, ltb, leb,
  nat_beq, nat_beq_iff, Bool-cases, Option-cases, ◌==◌, Eq, string_eq, nat_eq, option_eq,
  option_beq, beq_refl, eq_iff, u64_max, u64_modulus, wrapping_add, saturating_add, saturating_sub,
}
use norves_editor.Common.Dict
use norves_editor.Common.Dict.{Dict}

-- The waiters by correlation id. Of a replaced or removed waiter the caller gets the old value.
abbrev pub PendingTable : Type 0 → Type 0
PendingTable T = Dict String T

module _ {T : Type 0} where
  -- `PendingTable::insert`
  unfoldable pub insert : PendingTable T → String → T → Option T × PendingTable T
  insert table id waiter = (Dict.get id table, Dict.insert id waiter table)

  -- `PendingTable::take`
  unfoldable pub take : PendingTable T → String → Option T × PendingTable T
  take table id = (Dict.get id table, Dict.remove id table)

  -- `PendingTable::drain_all`, in the map's order
  abbrev pub drain_all : PendingTable T → List (String × T) × PendingTable T
  drain_all table = (table, [])

pub data SeqObservation : Type 0 where
  ok : SeqObservation
  skipped : SeqObservation
  regressed : (last got : ℕ) → SeqObservation

-- `last + 1` on `u64`, as a release build computes it; a debug build stops at the largest number.
abbrev pub next_seq : ℕ → ℕ
next_seq last = wrapping_add last 1

abbrev pub classify : Option ℕ → ℕ → SeqObservation
classify none seq = SeqObservation.ok
classify (some last) seq =
    if seq == next_seq last
    then SeqObservation.ok
    else if ltb last seq
    then SeqObservation.skipped
    else SeqObservation.regressed last seq

abbrev pub raise : Option ℕ → ℕ → ℕ
raise none seq = seq
raise (some last) seq = max last seq

-- `SeqMonitor::observe`, on the monitor's `last`
unfoldable pub observe : Option ℕ → Option ℕ → SeqObservation × Option ℕ
observe last none = (SeqObservation.skipped, last)
observe last (some seq) = (classify last seq, some (raise last seq))
