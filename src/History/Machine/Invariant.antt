-- ===== src/History/Machine/Invariant.antt =====
-- What every operation of the history keeps, and so every run of it.
use norves_editor.Common.{
  ℕ, refl, ◌∙◌, inl, inr, String, Option, none, some, List, [], ◌∷◌, Bool-cases, string_eq, nat_eq,
  option_eq, wrapping_add,
}
use norves_editor.History.Corrections.{CorrectionCache, CorrectionKey, CorrectionValue}
use norves_editor.History.State.{
  HistoryState, init, push_marker, record_untracked_success, pop_action_entry_id, pop_action_entry,
}
use norves_editor.History.Records.{accepted, updated_history_record}
use norves_editor.History.Groups.{
  expire_group, begin_group, end_group, close_group_unless, begin_named_group, group_boundary,
  end_named_group, revoke_mcp_group,
}
use norves_editor.History.Corrections.Bounds.{
  IsBounded, insert-IsBounded, remove_object-IsBounded, empty-IsBounded,
  clear_and_mark_lost_through-IsBounded,
}
use norves_editor.History.Machine.Frame.{
  kept-expire_group, kept-file, kept-pop_action_entry_id, kept-discard_action,
  kept-close_group_unless, kept-begin_group, kept-end_group, kept-begin_named_group,
  kept-group_boundary, kept-end_named_group, kept-revoke_mcp_group, kept-move_to,
  kept-remap_changed,
}
use norves_editor.History.Recording.{
  is_deletion, correct, record_edit, record_deletion, record_success_in_group, recorded,
  correction_of,
}
use norves_editor.History.Actions.{
  discard_action, finish_group_failure, start_pending_group, mark_mcp_outcome_unknown,
  finish_action_failure,
}
use norves_editor.History.Finish.{
  corrections_after, update_action_corrections, finish_updated, finish_popped,
  finish_action_success, moved_step, step_updated, step_popped, finish_group_step, put_parent,
  put_known_parent, applied_or,
}
use norves_editor.History.Machine.{
  Operation, synchronizes, shuts_down, begins, begins_named, ends, ends_named, crosses,
  closes_unless, expires, revokes, records, records_untracked, finishes, steps, starts_pending,
  fails_group, loses_outcome, clears_completed, discards, fails, marks_unsupported, apply, run,
}
use norves_editor.History.Types.{
  Json, EditSource, source_eq, EditKind, HistoryDirection, Result, ok, err, HistoryRecord, create,
  duplicate, reparent, set_property, GroupKey, group_key_eq, HistoryEntry, PreparedHistoryRequest,
  QueuedEditResult, HistoryOperationContext, HistoryActionStep, HistoryAction,
}
use norves_editor.History.Machine.Sound.{
  IsSound, IsSound-with, IsSound-same, advance_pending-IsSound,
  clear_completed_pending_group-IsSound, discard_pending_group-IsSound, synchronize-IsSound,
  clear_for_shutdown-IsSound, mark_edit_unsupported-IsSound,
}

module _ {V : Type 0} (j : Json V) where
  correct-IsSound :
      (s : HistoryState V) (o : Option (CorrectionKey × CorrectionValue V))
      → IsSound s
      → IsSound (correct j s o)
  unfolding correct
  correct-IsSound s none p = p
  correct-IsSound s (some (k, v)) p = record {
    paired = p.paired;
    bounded = insert-IsBounded j s.corrections k s.applied_revision v p.bounded;
  }

  record_edit-IsSound :
      (s : HistoryState V) (p : PreparedHistoryRequest V) (c : HistoryOperationContext)
      (r : QueuedEditResult V) (now later unix : ℕ)
      → IsSound s
      → IsSound (record_edit j s p c r now later unix)
  unfolding record_edit push_marker
  record_edit-IsSound s p c r now later unix h =
      IsSound-same _ (record_edit j s p c r now later unix)
        (kept-file _ c (recorded j p r) now later unix)
        (correct-IsSound _ (correction_of j p r)
          (record { paired = h.paired; bounded = h.bounded }))

  record_success_in_group-IsSound :
      (s : HistoryState V) (p : PreparedHistoryRequest V) (c : HistoryOperationContext)
      (r : QueuedEditResult V) (now later unix : ℕ)
      → IsSound s
      → IsSound (record_success_in_group j s p c r now later unix)
  unfolding record_success_in_group record_deletion push_marker
  record_success_in_group-IsSound s p c r now later unix h =
      elim (Bool-cases (accepted j r.value)) [
        | inr refused ↦ rw (refused, record_success_in_group) h
        | inl taken ↦ elim (Bool-cases (is_deletion p)) [
          | inl deletion ↦ rw (taken, deletion, record_success_in_group) deleted
          | inr edit ↦
              rw (taken, edit, record_success_in_group)
                (record_edit-IsSound s p c r now later unix h)
        ]
      ]
    where
      deleted : IsSound (record_deletion s c)
      deleted = record {
        paired = h.paired;
        bounded =
            clear_and_mark_lost_through-IsBounded s.corrections (wrapping_add s.applied_revision 1);
      }

  put_parent-IsBounded :
      (c : CorrectionCache V) (id : String) (r : ℕ) (o : Option String)
      → IsBounded c
      → IsBounded (put_parent j c id r o)
  put_parent-IsBounded c id r o =
      insert-IsBounded j c (CorrectionKey.parent id) r (CorrectionValue.parent o)

  put_known_parent-IsBounded :
      (c : CorrectionCache V) (id : String) (r : ℕ) (o : Option String)
      → IsBounded c
      → IsBounded (put_known_parent j c id r o)
  put_known_parent-IsBounded c id r none b = b
  put_known_parent-IsBounded c id r (some x) b = put_parent-IsBounded c id r (some x) b

  corrections_after-IsBounded :
      (c : CorrectionCache V) (r : ℕ) (x y : HistoryRecord V) (d : HistoryDirection) (v : V)
      → IsBounded c
      → IsBounded (corrections_after j c r x y d v)
  unfolding corrections_after
  corrections_after-IsBounded c r (create id _ _) (create _ _ _) HistoryDirection.undo v b =
      remove_object-IsBounded c id r b
  corrections_after-IsBounded c r (create id _ _) (create new_id parent_id _) HistoryDirection.redo
        v b =
      put_parent-IsBounded _ new_id r parent_id (remove_object-IsBounded c id r b)
  corrections_after-IsBounded c r (duplicate _ id _) (duplicate _ _ _) HistoryDirection.undo v b =
      remove_object-IsBounded c id r b
  corrections_after-IsBounded c r (duplicate _ id _) (duplicate _ new_id parent_id)
        HistoryDirection.redo v b =
      put_known_parent-IsBounded _ new_id r parent_id (remove_object-IsBounded c id r b)
  corrections_after-IsBounded c r (reparent id old new) (reparent _ _ _) HistoryDirection.undo v b =
      put_parent-IsBounded c id r old b
  corrections_after-IsBounded c r (reparent id old new) (reparent _ _ _) HistoryDirection.redo v b =
      put_parent-IsBounded c id r new b
  corrections_after-IsBounded c r (set_property id p old new) (set_property _ _ _ _)
        HistoryDirection.undo v b =
      insert-IsBounded j c (CorrectionKey.property id p) r
        (CorrectionValue.property (applied_or j v old)) b
  corrections_after-IsBounded c r (set_property id p old new) (set_property _ _ _ _)
        HistoryDirection.redo v b =
      insert-IsBounded j c (CorrectionKey.property id p) r
        (CorrectionValue.property (applied_or j v new)) b
  corrections_after-IsBounded c r _ _ _ v b = b

  discard_action-IsSound :
      (s : HistoryState V) (a : HistoryAction V) → IsSound s → IsSound (discard_action s a)
  discard_action-IsSound s a p = IsSound-same s (discard_action s a) (kept-discard_action s a) p

  finish_popped-IsSound :
      (o : Option (HistoryEntry V)) (s : HistoryState V) (a : HistoryAction V) (u : HistoryRecord V)
      (x : EditSource) (k : EditKind) (n g : ℕ) (r : V)
      → IsSound s
      → IsSound (finish_popped j (o, s) a u x k n g r).1
  unfolding finish_popped update_action_corrections push_marker
  finish_popped-IsSound none s a u x k n g r p = p
  finish_popped-IsSound (some e) s a u x k n g r p =
      IsSound-with s (finish_popped j (some e, s) a u x k n g r).1 _ (kept-move_to a.direction _ _)
        p
        (corrections_after-IsBounded s.corrections (wrapping_add s.applied_revision 1) a.record_of u
          a.direction r p.bounded)

  pop_action_entry_id-IsSound :
      (s : HistoryState V) (d : HistoryDirection) (id : ℕ) (k : GroupKey)
      → IsSound s
      → IsSound (pop_action_entry_id s d id k).1
  pop_action_entry_id-IsSound s d id k p =
      IsSound-same s (pop_action_entry_id s d id k).1 (kept-pop_action_entry_id s d id k) p

  finish_updated-IsSound :
      (u : Result (HistoryRecord V)) (s : HistoryState V) (a : HistoryAction V) (x : EditSource)
      (k : EditKind) (n g : ℕ) (r : V)
      → IsSound s
      → IsSound (finish_updated j u s a x k n g r).1
  unfolding pop_action_entry
  finish_updated-IsSound (err e) s a x k n g r p = discard_action-IsSound s a p
  finish_updated-IsSound (ok u) s a x k n g r p =
      finish_popped-IsSound (pop_action_entry s a).0 (pop_action_entry s a).1 a u x k n g r
        (pop_action_entry_id-IsSound s a.direction a.entry_id a.group.key p)

  finish_action_success-IsSound :
      (s : HistoryState V) (a : HistoryAction V) (x : EditSource) (k : EditKind) (n g : ℕ) (r : V)
      → IsSound s
      → IsSound (finish_action_success j s a x k n g r).1
  unfolding finish_action_success
  finish_action_success-IsSound s a x k n g r p = elim (Bool-cases (accepted j r)) [
    | inr refused ↦ rw (refused, finish_action_success) (discard_action-IsSound s a p)
    | inl taken ↦
        rw (taken, finish_action_success)
          (finish_updated-IsSound (updated_history_record j a.record_of a.direction r) s a x k n g r
            p)
  ]

  moved_step-IsSound :
      (e : HistoryEntry V) (s : HistoryState V) (a : HistoryAction V) (t : HistoryActionStep V)
      (u : HistoryRecord V) (c : HistoryOperationContext) (r : V)
      → IsSound s
      → IsSound (moved_step j e s a t u c r)
  unfolding moved_step update_action_corrections push_marker
  moved_step-IsSound e s a t u c r p =
      IsSound-with s (moved_step j e s a t u c r) _
        (kept-move_to a.direction _ _ ∙ kept-remap_changed _ a.group.key _) p
        (corrections_after-IsBounded s.corrections (wrapping_add s.applied_revision 1) t.record_of u
          a.direction r p.bounded)

  step_popped-IsSound :
      (o : Option (HistoryEntry V)) (s : HistoryState V) (a : HistoryAction V)
      (t : HistoryActionStep V) (u : HistoryRecord V) (c : HistoryOperationContext) (r : V)
      → IsSound s
      → IsSound (step_popped j (o, s) a t u c r).1
  unfolding step_popped
  step_popped-IsSound none s a t u c r p = p
  step_popped-IsSound (some e) s a t u c r p =
      advance_pending-IsSound (moved_step j e s a t u c r) a.group.key
        (moved_step-IsSound e s a t u c r p)

  step_updated-IsSound :
      (u : Result (HistoryRecord V)) (s : HistoryState V) (a : HistoryAction V)
      (t : HistoryActionStep V) (c : HistoryOperationContext) (r : V)
      → IsSound s
      → IsSound (step_updated j u s a t c r).1
  step_updated-IsSound (err e) s a t c r p = p
  step_updated-IsSound (ok u) s a t c r p =
      step_popped-IsSound (pop_action_entry_id s a.direction t.entry_id a.group.key).0
        (pop_action_entry_id s a.direction t.entry_id a.group.key).1 a t u c r
        (pop_action_entry_id-IsSound s a.direction t.entry_id a.group.key p)

  finish_group_step-IsSound :
      (s : HistoryState V) (a : HistoryAction V) (t : HistoryActionStep V)
      (c : HistoryOperationContext) (r : V)
      → IsSound s
      → IsSound (finish_group_step j s a t c r).1
  unfolding finish_group_step
  finish_group_step-IsSound s a t c r p = elim (Bool-cases (accepted j r)) [
    | inr refused ↦ rw (refused, finish_group_step) p
    | inl taken ↦
        rw (taken, finish_group_step)
          (step_updated-IsSound (updated_history_record j t.record_of a.direction r) s a t c r p)
  ]

  apply-IsSound : (s : HistoryState V) (o : Operation V) → IsSound s → IsSound (apply j s o)
  unfolding apply
  apply-IsSound s (synchronizes g) p = synchronize-IsSound s g p
  apply-IsSound s shuts_down p = clear_for_shutdown-IsSound s
  apply-IsSound s (begins f t n x g now unix) p =
      IsSound-same s (begin_group s f t n x g now unix).1 (kept-begin_group s f t n x g now unix) p
  apply-IsSound s (begins_named f r t n g now unix) p =
      IsSound-same s (begin_named_group s f r t n g now unix).1
        (kept-begin_named_group s f r t n g now unix) p
  apply-IsSound s (ends t now) p = IsSound-same s (end_group s t now).1 (kept-end_group s t now) p
  apply-IsSound s (ends_named x now) p =
      IsSound-same s (end_named_group s x now).1 (kept-end_named_group s x now) p
  apply-IsSound s (crosses x keep now) p =
      IsSound-same s (group_boundary s x keep now).1 (kept-group_boundary s x keep now) p
  apply-IsSound s (closes_unless t) p =
      IsSound-same s (close_group_unless s t).0 (kept-close_group_unless s t) p
  apply-IsSound s (expires now) p =
      IsSound-same s (expire_group s now).0 (kept-expire_group s now) p
  apply-IsSound s revokes p = IsSound-same s (revoke_mcp_group s).0 (kept-revoke_mcp_group s) p
  apply-IsSound s (records q c r now later unix) p =
      record_success_in_group-IsSound s q c r now later unix p
  apply-IsSound s (records_untracked x k n g) p =
      unfold record_untracked_success push_marker in
      (record { paired = p.paired; bounded = p.bounded })
  apply-IsSound s (finishes a x k n g r) p = finish_action_success-IsSound s a x k n g r p
  apply-IsSound s (steps a t c r) p = finish_group_step-IsSound s a t c r p
  apply-IsSound s (starts_pending a n u r) p =
      unfold start_pending_group in (record { paired = refl; bounded = p.bounded })
  apply-IsSound s (fails_group a n e) p =
      unfold finish_group_failure start_pending_group in
      (record { paired = refl; bounded = p.bounded })
  apply-IsSound s (loses_outcome n g unix) p =
      unfold mark_mcp_outcome_unknown in (record { paired = refl; bounded = p.bounded })
  apply-IsSound s (clears_completed k) p = clear_completed_pending_group-IsSound s k p
  apply-IsSound s discards p = discard_pending_group-IsSound s p
  apply-IsSound s (fails a) p =
      IsSound-same s (finish_action_failure s a)
        (unfold finish_action_failure discard_action in kept-discard_action s a) p
  apply-IsSound s marks_unsupported p = mark_edit_unsupported-IsSound s p

  run-IsSound : (s : HistoryState V) (os : List (Operation V)) → IsSound s → IsSound (run j s os)
  unfolding run
  run-IsSound s [] p = p
  run-IsSound s (o ∷ os) p = run-IsSound (apply j s o) os (apply-IsSound s o p)

  -- Whatever operations are applied to the history that a session starts with, in whatever order,
  -- with whatever times and answers: the flag of a pending failure is set exactly where a pending
  -- group is kept, and the cache of corrections has at most its limit of entries and of bytes, no
  -- key twice, and a byte count that is the sum of its entries'.
  pub run_from_init-IsSound : (os : List (Operation V)) → IsSound (run j (init {V = V}) os)
  run_from_init-IsSound os =
      run-IsSound init os (record { paired = refl; bounded = empty-IsBounded })
