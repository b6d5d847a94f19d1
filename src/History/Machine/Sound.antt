-- ===== src/History/Machine/Sound.antt =====
-- The invariant of the history, and the operations that change little of it.
use norves_editor.Common.{
  ℕ, ◌≡◌, refl, sym, ap, subst, ◌∙◌, inl, inr, Bool, true, false, Option, none, some, arith,
  Bool-cases, ◌==◌, string_eq, nat_eq, option_eq,
}
use norves_editor.History.Corrections.{CorrectionCache}
use norves_editor.History.State.{
  HistoryState, synchronize, clear_for_shutdown, mark_edit_unsupported,
}
use norves_editor.History.Corrections.Bounds.{IsBounded, clear-IsBounded}
use norves_editor.History.Machine.Frame.{kept}
use norves_editor.History.Actions.{clear_completed_pending_group, discard_pending_group}
use norves_editor.History.Finish.{advance_pending}
use norves_editor.History.Types.{source_eq, GroupKey, group_key_eq, PendingGroupAction}

abbrev pub is_pending_group : Option PendingGroupAction → Bool
is_pending_group none = false
is_pending_group (some p) = true

-- There is a pending group exactly where the flag of a pending failure is set, and the corrections
-- keep their limits and their account.
pub record IsSound {V : Type 0} (s : HistoryState V) : Type 0 where
  pub paired : s.pending ≡ is_pending_group s.pending_group
  pub bounded : IsBounded s.corrections

module _ {V : Type 0} where
  pub IsSound-with :
      (s s' : HistoryState V) (c : CorrectionCache V)
      → kept s' ≡ (s.pending, s.pending_group, c)
      → IsSound s
      → IsBounded c
      → IsSound s'
  IsSound-with s s' c e p b = record {
    paired =
        ap (λ (x : Bool × Option PendingGroupAction × CorrectionCache V). x.0) e
        ∙ p.paired
        ∙ ap (λ (x : Bool × Option PendingGroupAction × CorrectionCache V). is_pending_group (x.1))
            (sym e);
    bounded =
        subst IsBounded
          (ap (λ (x : Bool × Option PendingGroupAction × CorrectionCache V). x.2) (sym e)) b;
  }

  pub IsSound-same : (s s' : HistoryState V) → kept s' ≡ kept s → IsSound s → IsSound s'
  IsSound-same s s' e p = IsSound-with s s' s.corrections e p p.bounded

  pub advance_pending-IsSound :
      (s : HistoryState V) (k : GroupKey) → IsSound s → IsSound (advance_pending s k)
  unfolding advance_pending
  advance_pending-IsSound s k p = record {
    paired = paired_still;
    bounded = subst IsBounded corrections_same p.bounded;
  }
    where
      paired_still :
          (advance_pending s k).pending ≡ is_pending_group (advance_pending s k).pending_group
      paired_still = ground (arith, p.paired)

      corrections_same : s.corrections ≡ (advance_pending s k).corrections
      corrections_same = ground arith

  pub clear_completed_pending_group-IsSound :
      (s : HistoryState V) (k : GroupKey) → IsSound s → IsSound (clear_completed_pending_group s k)
  unfolding clear_completed_pending_group
  clear_completed_pending_group-IsSound s k p = record {
    paired = paired_still;
    bounded = subst IsBounded corrections_same p.bounded;
  }
    where
      paired_still :
          (clear_completed_pending_group s k).pending
          ≡ is_pending_group (clear_completed_pending_group s k).pending_group
      paired_still = ground (arith, p.paired)

      corrections_same : s.corrections ≡ (clear_completed_pending_group s k).corrections
      corrections_same = ground arith

  pub discard_pending_group-IsSound :
      (s : HistoryState V) → IsSound s → IsSound (discard_pending_group s).1
  unfolding discard_pending_group
  discard_pending_group-IsSound s p = record {
    paired = paired_still;
    bounded = subst IsBounded corrections_same p.bounded;
  }
    where
      paired_still :
          (discard_pending_group s).1.pending
          ≡ is_pending_group (discard_pending_group s).1.pending_group
      paired_still = ground (arith, p.paired)

      corrections_same : s.corrections ≡ (discard_pending_group s).1.corrections
      corrections_same = ground arith

  pub synchronize-IsSound :
      (s : HistoryState V) (g : Option ℕ) → IsSound s → IsSound (synchronize s g)
  unfolding synchronize
  synchronize-IsSound s g p = elim (Bool-cases (s.generation == g)) [
    | inl same ↦ rw (same, synchronize) p
    | inr other ↦
        rw (other, synchronize) (record { paired = refl; bounded = clear-IsBounded s.corrections })
  ]

  pub clear_for_shutdown-IsSound : (s : HistoryState V) → IsSound (clear_for_shutdown s)
  unfolding clear_for_shutdown
  clear_for_shutdown-IsSound s = record { paired = refl; bounded = clear-IsBounded s.corrections }

  pub mark_edit_unsupported-IsSound :
      (s : HistoryState V) → IsSound s → IsSound (mark_edit_unsupported s)
  unfolding mark_edit_unsupported
  mark_edit_unsupported-IsSound s p = IsSound-same s (mark_edit_unsupported s) same p
    where
      same : kept (mark_edit_unsupported s) ≡ kept s
      same = ground arith
