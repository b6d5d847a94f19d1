-- ===== src/History/Machine.antt =====
-- The history as a machine: every operation of `HistoryState` in history.rs that changes the state,
-- in any order, with whatever the queue, the engine and the clock hand it.
pub mod Frame
pub mod Sound
pub mod Invariant
use norves_editor.Common.{
  ℕ, zero, suc, ◌+◌, ◌-◌, ◌*◌, ◌/◌, ◌%◌, ◌≤◌, ◌<◌, min, max, ◌≡◌, ◌≢◌, refl, sym, ap, subst, ◌∙◌,
  ◌⊎◌, inl, inr, ◌↔◌, Bool, true, false, not, ◌&&◌, ◌||◌, String, Option, none, some, List, [], ◌∷◌,
  ◌++◌, map, reverse, arith, length, head?, any, retain, take_while, All, if◌then◌else◌, ltb, leb,
  nat_beq, nat_beq_iff, Bool-cases, Option-cases, ◌==◌, Eq, string_eq, nat_eq, option_eq,
  option_beq, beq_refl, eq_iff, u64_max, u64_modulus, wrapping_add, saturating_add, saturating_sub,
}
use norves_editor.History.Corrections
use norves_editor.History.Corrections.{CorrectionCache, CorrectionKey, CorrectionValue}
use norves_editor.History.State.{
  HistoryState, init, bump_revision, synchronize, clear_for_shutdown, snapshot, stack, with_stack,
  shown, visible_stack, history_cursor, can_act, push_marker, record_untracked_success,
  mark_edit_unsupported, pop_from, pop_action_entry_id, pop_action_entry, has_group_on_stack,
  with_group, closed_entries, close_active_group,
}
use norves_editor.History.Records.{
  accepted, non_empty_new_id, updated_history_record, changed_created_id, replace_record_ids,
  summary_name,
}
use norves_editor.History.Groups.{
  expire_group, begin_group, end_group, close_group_unless, begin_named_group, group_boundary,
  end_named_group, revoke_mcp_group,
}
use norves_editor.History.Recording.{record_success_in_group}
use norves_editor.History.Actions.{
  finish_group_failure, start_pending_group, mark_mcp_outcome_unknown,
  clear_completed_pending_group, discard_pending_group, finish_action_failure,
}
use norves_editor.History.Finish.{finish_action_success, finish_group_step}
use norves_editor.History.Types.{
  Json, EditSource, source_eq, EditKind, HistoryDirection, Reason, BackendError, Result, ok, err,
  request, engine, unrelated, HistoryMarker, HistoryRecord, create, duplicate, reparent,
  set_property, GroupKey, group_key_eq, key_beq, key_beq_iff, GroupMetadata, HistoryEntry,
  ActiveGroup, PendingGroupAction, HistoryCapture, PriorCapture, HistoryRequest,
  PreparedHistoryRequest, HistoryPrior, QueuedEditResult, HistoryOperationContext,
  HistoryActionRequest, HistoryActionStep, HistoryAction,
}

pub data Operation (V : Type 0) : Type 0 where
  synchronizes : Option ℕ → Operation V
  shuts_down : Operation V
  begins :
      (trimmed : String → String)
      → (token : ℕ) → (name : String) → EditSource
      → (generation now unix : ℕ) → Operation V
  begins_named :
      (trimmed : String → String)
      → (random : Option (List ℕ)) → (token : ℕ) → (name : String) → (generation now unix : ℕ)
      → Operation V
  ends : (token now : ℕ) → Operation V
  ends_named : (secret : List ℕ) → (now : ℕ) → Operation V
  crosses : (secret : Option (List ℕ)) → (keep : Bool) → (now : ℕ) → Operation V
  closes_unless : Option ℕ → Operation V
  expires : (now : ℕ) → Operation V
  revokes : Operation V
  records :
      PreparedHistoryRequest V
      → HistoryOperationContext
      → QueuedEditResult V
      → (now later unix : ℕ) → Operation V
  records_untracked : EditSource → EditKind → (sequence generation : ℕ) → Operation V
  finishes : HistoryAction V → EditSource → EditKind → (sequence generation : ℕ) → V → Operation V
  steps : HistoryAction V → HistoryActionStep V → HistoryOperationContext → V → Operation V
  starts_pending :
      HistoryAction V → (completed : ℕ) → (outcome_unknown retry_allowed : Bool) → Operation V
  fails_group : HistoryAction V → (completed : ℕ) → BackendError → Operation V
  loses_outcome : (sequence generation unix : ℕ) → Operation V
  clears_completed : GroupKey → Operation V
  discards : Operation V
  fails : HistoryAction V → Operation V
  marks_unsupported : Operation V

module _ {V : Type 0} (j : Json V) where
  unfoldable pub apply : HistoryState V → Operation V → HistoryState V
  apply s (synchronizes generation) = synchronize s generation
  apply s shuts_down = clear_for_shutdown s
  apply s (begins trimmed token name source generation now unix) =
      (begin_group s trimmed token name source generation now unix).1
  apply s (begins_named trimmed random token name generation now unix) =
      (begin_named_group s trimmed random token name generation now unix).1
  apply s (ends token now) = (end_group s token now).1
  apply s (ends_named secret now) = (end_named_group s secret now).1
  apply s (crosses secret keep now) = (group_boundary s secret keep now).1
  apply s (closes_unless token) = (close_group_unless s token).0
  apply s (expires now) = (expire_group s now).0
  apply s revokes = (revoke_mcp_group s).0
  apply s (records prepared context r now later unix) =
      record_success_in_group j s prepared context r now later unix
  apply s (records_untracked source kind sequence generation) =
      record_untracked_success s source kind sequence generation
  apply s (finishes action source kind sequence generation result) =
      (finish_action_success j s action source kind sequence generation result).1
  apply s (steps action step context result) = (finish_group_step j s action step context result).1
  apply s (starts_pending action completed outcome_unknown retry_allowed) =
      start_pending_group s action completed outcome_unknown retry_allowed
  apply s (fails_group action completed error) = finish_group_failure s action completed error
  apply s (loses_outcome sequence generation unix) =
      mark_mcp_outcome_unknown s sequence generation unix
  apply s (clears_completed key) = clear_completed_pending_group s key
  apply s discards = (discard_pending_group s).1
  apply s (fails action) = finish_action_failure s action
  apply s marks_unsupported = mark_edit_unsupported s

  unfoldable pub run : HistoryState V → List (Operation V) → HistoryState V
  run s [] = s
  run s (o ∷ os) = run (apply s o) os
