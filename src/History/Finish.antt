-- ===== src/History/Finish.antt =====
-- The end of an undo or redo that the engine accepted: `finish_action_success` and
-- `finish_group_step` of history.rs.
pub mod RoundTrip
use norves_editor.Common.{
  ℕ, zero, suc, ◌+◌, ◌-◌, ◌*◌, ◌/◌, ◌%◌, ◌≤◌, ◌<◌, min, max, ◌≡◌, ◌≢◌, refl, sym, ap, subst, ◌∙◌,
  ◌⊎◌, inl, inr, ◌↔◌, Bool, true, false, not, ◌&&◌, ◌||◌, String, Option, none, some, List, [], ◌∷◌,
  ◌++◌, map, reverse, arith, length, head?, any, retain, take_while, All, if◌then◌else◌, ltb, leb,
  nat_beq, nat_beq_iff, Bool-cases, Option-cases, ◌==◌, Eq, string_eq, nat_eq, option_eq,
  option_beq, beq_refl, eq_iff, u64_max, u64_modulus, wrapping_add, saturating_add, saturating_sub,
}
use norves_editor.History.Corrections
use norves_editor.History.Corrections.{CorrectionCache, CorrectionKey, CorrectionValue}
use norves_editor.History.State.{
  HistoryState, init, bump_revision, synchronize, clear_for_shutdown, snapshot, stack, with_stack,
  shown, visible_stack, history_cursor, can_act, push_marker, record_untracked_success,
  mark_edit_unsupported, pop_from, pop_action_entry_id, pop_action_entry, has_group_on_stack,
  with_group, closed_entries, close_active_group,
}
use norves_editor.History.Records.{
  accepted, non_empty_new_id, updated_history_record, changed_created_id, replace_record_ids,
  summary_name,
}
use norves_editor.History.Actions.{discard_action}
use norves_editor.History.Types.{
  Json, EditSource, source_eq, EditKind, HistoryDirection, Reason, BackendError, Result, ok, err,
  request, engine, unrelated, HistoryMarker, HistoryRecord, create, duplicate, reparent,
  set_property, GroupKey, group_key_eq, key_beq, key_beq_iff, GroupMetadata, HistoryEntry,
  ActiveGroup, PendingGroupAction, HistoryCapture, PriorCapture, HistoryRequest,
  PreparedHistoryRequest, HistoryPrior, QueuedEditResult, HistoryOperationContext,
  HistoryActionRequest, HistoryActionStep, HistoryAction,
}

module _ {V : Type 0} where
  abbrev pub renamed : String → String → HistoryEntry V → HistoryEntry V
  renamed old_id new_id e = record e { record_of = replace_record_ids old_id new_id e.record_of }

  unfoldable pub remap_entry : GroupKey → String → String → HistoryEntry V → HistoryEntry V
  unfolding replace_record_ids
  remap_entry key old_id new_id e = if e.group.key == key then renamed old_id new_id e else e

  unfoldable pub remap_active :
      GroupKey → String → String → Option (ActiveGroup V) → Option (ActiveGroup V)
  unfolding replace_record_ids
  remap_active key old_id new_id none = none
  remap_active key old_id new_id (some g) =
      if g.metadata.key == key
      then some (record g { entries = map (renamed old_id new_id) g.entries })
      else some g

  unfoldable pub remap_group_ids : HistoryState V → GroupKey → String → String → HistoryState V
  unfolding remap_entry remap_active
  remap_group_ids s key old_id new_id = record s {
    undo = map (remap_entry key old_id new_id) s.undo;
    redo = map (remap_entry key old_id new_id) s.redo;
    active_group = remap_active key old_id new_id s.active_group;
  }

  abbrev pub remap_changed : HistoryState V → GroupKey → Option (String × String) → HistoryState V
  remap_changed s key none = s
  remap_changed s key (some (old_id, new_id)) = remap_group_ids s key old_id new_id

  -- Puts an entry that was undone on the redo stack, and one that was redone on the undo stack.
  abbrev pub move_to : HistoryDirection → HistoryEntry V → HistoryState V → HistoryState V
  move_to HistoryDirection.undo e s = record s { redo = e ∷ s.redo }
  move_to HistoryDirection.redo e s = record s { undo = e ∷ s.undo }

  -- Counts a step of the pending group, which ends with the last of its entries.
  unfoldable pub advance_pending : HistoryState V → GroupKey → HistoryState V
  unfolding has_group_on_stack
  advance_pending s key = elim s.pending_group [
    | none ↦ s
    | some p ↦
        if p.metadata.key == key
        then (if has_group_on_stack s p.direction key
            then record s {
              pending_group = some (record p { completed = saturating_add p.completed 1 });
            }
            else record s { pending = false; pending_group = none })
        else s
  ]

module _ {V : Type 0} (j : Json V) where
  abbrev pub put_parent : CorrectionCache V → String → ℕ → Option String → CorrectionCache V
  put_parent c object_id revision parent_id =
      Corrections.insert j c (CorrectionKey.parent object_id) revision
        (CorrectionValue.parent parent_id)

  abbrev pub put_known_parent : CorrectionCache V → String → ℕ → Option String → CorrectionCache V
  put_known_parent c object_id revision none = c
  put_known_parent c object_id revision (some parent_id) =
      put_parent c object_id revision (some parent_id)

  -- `result.get("appliedValue")`, or the recorded value
  abbrev pub applied_or : V → V → V
  applied_or result recorded_value = elim (j.field result "appliedValue") [
    | none ↦ recorded_value
    | some v ↦ v
  ]

  abbrev pub put_property : CorrectionCache V → String → String → ℕ → V → CorrectionCache V
  put_property c object_id property revision v =
      Corrections.insert j c (CorrectionKey.property object_id property) revision
        (CorrectionValue.property v)

  -- The corrections after a step, by its record before and after it and the direction.
  unfoldable pub corrections_after :
      CorrectionCache V
      → ℕ
      → HistoryRecord V
      → HistoryRecord V
      → HistoryDirection
      → V
      → CorrectionCache V
  corrections_after c r (create id _ _) (create _ _ _) HistoryDirection.undo result =
      Corrections.remove_object c id r
  corrections_after c r (create id _ _) (create new_id parent_id _) HistoryDirection.redo result =
      put_parent (Corrections.remove_object c id r) new_id r parent_id
  corrections_after c r (duplicate _ id _) (duplicate _ _ _) HistoryDirection.undo result =
      Corrections.remove_object c id r
  corrections_after c r (duplicate _ id _) (duplicate _ new_id parent_id) HistoryDirection.redo
        result =
      put_known_parent (Corrections.remove_object c id r) new_id r parent_id
  corrections_after c r (reparent id old new) (reparent _ _ _) HistoryDirection.undo result =
      put_parent c id r old
  corrections_after c r (reparent id old new) (reparent _ _ _) HistoryDirection.redo result =
      put_parent c id r new
  corrections_after c r (set_property id p old new) (set_property _ _ _ _) HistoryDirection.undo
        result =
      put_property c id p r (applied_or result old)
  corrections_after c r (set_property id p old new) (set_property _ _ _ _) HistoryDirection.redo
        result =
      put_property c id p r (applied_or result new)
  corrections_after c r _ _ _ result = c

  unfoldable pub update_action_corrections :
      HistoryState V → HistoryRecord V → HistoryRecord V → HistoryDirection → V → HistoryState V
  unfolding corrections_after
  update_action_corrections s old_record new_record direction result = record s {
    corrections =
        corrections_after s.corrections s.applied_revision old_record new_record direction result;
  }

  -- The rest of `finish_action_success`, from the updated record and what `pop_action_entry` gave.
  unfoldable pub finish_popped :
      Option (HistoryEntry V) × HistoryState V
      → HistoryAction V
      → HistoryRecord V
      → EditSource
      → EditKind
      → (sequence generation : ℕ) → V
      → Result Bool × HistoryState V
  unfolding update_action_corrections push_marker
  finish_popped (none, s) action updated source kind sequence generation result = (ok false, s)
  finish_popped (some e, s) action updated source kind sequence generation result =
      let s1 = record s { applied_revision = wrapping_add s.applied_revision 1 } in
      let s2 = update_action_corrections s1 action.record_of updated action.direction result in
      let s3 = push_marker s2 source kind sequence generation in
      (ok true, move_to action.direction (record e { record_of = updated }) s3)

  abbrev pub finish_updated :
      Result (HistoryRecord V)
      → HistoryState V
      → HistoryAction V
      → EditSource
      → EditKind
      → (sequence generation : ℕ) → V
      → Result Bool × HistoryState V
  finish_updated (err e) s action source kind sequence generation result =
      (err e, discard_action s action)
  finish_updated (ok updated) s action source kind sequence generation result =
      finish_popped (pop_action_entry s action) action updated source kind sequence generation
        result

  -- A refusal, or an answer without the new identifier, throws the entry away.
  unfoldable pub finish_action_success :
      HistoryState V
      → HistoryAction V
      → EditSource
      → EditKind
      → (sequence generation : ℕ) → V
      → Result Bool × HistoryState V
  unfolding accepted updated_history_record pop_action_entry finish_popped discard_action
  finish_action_success s action source kind sequence generation result =
      if not (accepted j result)
      then (err (request Reason.not_accepted), discard_action s action)
      else finish_updated (updated_history_record j action.record_of action.direction result) s
          action source kind sequence generation result

  -- The step's entry on its new stack, its corrections, its marker, and the group's identifiers
  -- after a creation was redone under a new one.
  unfoldable pub moved_step :
      HistoryEntry V
      → HistoryState V
      → HistoryAction V
      → HistoryActionStep V
      → HistoryRecord V
      → HistoryOperationContext
      → V
      → HistoryState V
  unfolding update_action_corrections push_marker remap_group_ids changed_created_id
  moved_step e s action step updated context result =
      let s1 = record s { applied_revision = wrapping_add s.applied_revision 1 } in
      let s2 = update_action_corrections s1 step.record_of updated action.direction result in
      let s3 = remap_changed s2 action.group.key (changed_created_id step.record_of updated) in
      let s4 = push_marker s3 context.source context.kind context.sequence context.generation in
      move_to action.direction (record e { record_of = updated }) s4

  unfoldable pub step_popped :
      Option (HistoryEntry V) × HistoryState V
      → HistoryAction V
      → HistoryActionStep V
      → HistoryRecord V
      → HistoryOperationContext
      → V
      → Result Bool × HistoryState V
  unfolding moved_step advance_pending
  step_popped (none, s) action step updated context result = (ok false, s)
  step_popped (some e, s) action step updated context result = (
    ok true,
    advance_pending (moved_step e s action step updated context result) action.group.key,
  )

  abbrev pub step_updated :
      Result (HistoryRecord V)
      → HistoryState V
      → HistoryAction V
      → HistoryActionStep V
      → HistoryOperationContext
      → V
      → Result Bool × HistoryState V
  step_updated (err e) s action step context result = (err e, s)
  step_updated (ok updated) s action step context result =
      step_popped (pop_action_entry_id s action.direction step.entry_id action.group.key) action
        step updated context result

  unfoldable pub finish_group_step :
      HistoryState V
      → HistoryAction V
      → HistoryActionStep V
      → HistoryOperationContext
      → V
      → Result Bool × HistoryState V
  unfolding accepted updated_history_record pop_action_entry_id step_popped
  finish_group_step s action step context result =
      if not (accepted j result)
      then (ok false, s)
      else step_updated (updated_history_record j step.record_of action.direction result) s action
          step context result
