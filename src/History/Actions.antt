-- ===== src/History/Actions.antt =====
-- Undo and redo: preparing an action on the top group, finishing its steps, and the group that is
-- left pending where a step fails, in history.rs.
pub mod TopGroup
use norves_editor.Common.{
  ℕ, zero, suc, ◌+◌, ◌-◌, ◌*◌, ◌/◌, ◌%◌, ◌≤◌, ◌<◌, min, max, ◌≡◌, ◌≢◌, refl, sym, ap, subst, ◌∙◌,
  ◌⊎◌, inl, inr, ◌↔◌, Bool, true, false, not, ◌&&◌, ◌||◌, String, Option, none, some, List, [], ◌∷◌,
  ◌++◌, map, reverse, arith, length, head?, any, retain, take_while, All, if◌then◌else◌, ltb, leb,
  nat_beq, nat_beq_iff, Bool-cases, Option-cases, ◌==◌, Eq, string_eq, nat_eq, option_eq,
  option_beq, beq_refl, eq_iff, u64_max, u64_modulus, wrapping_add, saturating_add, saturating_sub,
}
use norves_editor.Common.Dict
use norves_editor.History.Corrections
use norves_editor.History.Corrections.{CorrectionCache, CorrectionKey, CorrectionValue}
use norves_editor.History.State.{
  HistoryState, init, bump_revision, synchronize, clear_for_shutdown, snapshot, stack, with_stack,
  shown, visible_stack, history_cursor, can_act, push_marker, record_untracked_success,
  mark_edit_unsupported, pop_from, pop_action_entry_id, pop_action_entry, has_group_on_stack,
  with_group, closed_entries, close_active_group,
}
use norves_editor.History.Records.{
  accepted, non_empty_new_id, updated_history_record, changed_created_id, replace_record_ids,
  summary_name,
}
use norves_editor.History.Types.{
  Json, EditSource, source_eq, EditKind, HistoryDirection, Reason, BackendError, Result, ok, err,
  request, engine, unrelated, HistoryMarker, HistoryRecord, create, duplicate, reparent,
  set_property, GroupKey, group_key_eq, key_beq, key_beq_iff, GroupMetadata, HistoryEntry,
  ActiveGroup, PendingGroupAction, HistoryCapture, PriorCapture, HistoryRequest,
  PreparedHistoryRequest, HistoryPrior, QueuedEditResult, HistoryOperationContext,
  HistoryActionRequest, HistoryActionStep, HistoryAction,
}

-- `EditDiscardResultDto` of dto.rs, which names the group by a text printed from this key.
pub record EditDiscardResult : Type 0 where
  pub group : GroupKey
  pub completed_count : ℕ
  pub total_count : ℕ
  pub outcome_unknown : Bool
  pub changes_remain : Bool

abbrev is_engine_error : BackendError → Bool
is_engine_error engine = true
is_engine_error _ = false

module _ {V : Type 0} where
  abbrev pub same_group : GroupKey → HistoryEntry V → Bool
  same_group key e = e.group.key == key

  abbrev pub step_of : HistoryEntry V → HistoryActionStep V
  step_of e = record { entry_id = e.marker.sequence; record_of = e.record_of }

  -- The run of entries of one group at the top of a stack.
  unfoldable pub top_run : List (HistoryEntry V) → GroupKey → List (HistoryActionStep V)
  top_run entries key = map step_of (take_while (same_group key) entries)

  abbrev pub action_from :
      HistoryDirection
      → GroupMetadata
      → Bool
      → List (HistoryActionStep V)
      → Option (HistoryAction V)
  action_from direction group grouped [] = none
  action_from direction group grouped (first ∷ rest) = some (record {
    direction = direction;
    entry_id = first.entry_id;
    record_of = first.record_of;
    group = group;
    steps = first ∷ rest;
    grouped = grouped;
  })

  unfoldable pub on_top : HistoryDirection → List (HistoryEntry V) → ℕ → Option (HistoryAction V)
  unfolding top_run
  on_top direction [] expected = none
  on_top direction (e ∷ es) expected =
      if not (e.marker.sequence == expected)
      then none
      else action_from direction e.group e.group.named (top_run (e ∷ es) e.group.key)

  unfoldable pub prepare_action : HistoryState V → HistoryActionRequest → Option (HistoryAction V)
  unfolding visible_stack on_top
  prepare_action s asked = elim asked.expected_head_id [
    | none ↦ none
    | some expected ↦
        if s.edit_unsupported || s.pending || not (asked.expected_revision == s.revision)
        then none
        else on_top asked.direction (visible_stack asked.direction s) expected
  ]

  unfoldable pub prepare_retry : HistoryState V → Option (HistoryAction V)
  unfolding top_run stack
  prepare_retry s = elim s.pending_group [
    | none ↦ none
    | some p ↦
        if not p.retry_allowed || p.outcome_unknown
        then none
        else action_from p.direction p.metadata true (top_run (stack p.direction s) p.metadata.key)
  ]

  find_entry : List (HistoryEntry V) → GroupKey → ℕ → Option (HistoryActionStep V)
  find_entry [] key entry_id = none
  find_entry (e ∷ es) key entry_id =
      if e.marker.sequence == entry_id && e.group.key == key
      then some (record { entry_id = entry_id; record_of = e.record_of })
      else find_entry es key entry_id

  unfoldable pub refresh_action_step :
      HistoryState V → HistoryDirection → GroupKey → ℕ → Option (HistoryActionStep V)
  unfolding stack find_entry
  refresh_action_step s direction key entry_id = find_entry (stack direction s) key entry_id

  unfoldable pub start_pending_group :
      HistoryState V
      → HistoryAction V
      → (completed : ℕ) → (outcome_unknown retry_allowed : Bool) → HistoryState V
  start_pending_group s action completed outcome_unknown retry_allowed = bump_revision (record s {
    pending = true;
    pending_group = some (record {
      direction = action.direction;
      metadata = action.group;
      completed = completed;
      outcome_unknown = outcome_unknown;
      retry_allowed = retry_allowed;
    });
  })

  -- Only an answer of the engine itself lets the group be tried again.
  unfoldable pub finish_group_failure :
      HistoryState V → HistoryAction V → ℕ → BackendError → HistoryState V
  unfolding start_pending_group
  finish_group_failure s action completed error =
      start_pending_group s action completed (not (is_engine_error error)) (is_engine_error error)

  unfoldable pub mark_mcp_outcome_unknown :
      HistoryState V → (sequence generation unix : ℕ) → HistoryState V
  mark_mcp_outcome_unknown s sequence generation unix = bump_revision (record s {
    pending = true;
    pending_group = some (record {
      direction = HistoryDirection.undo;
      metadata = record {
        key = record { generation = generation; sequence = sequence };
        name = "MCP編集の結果確認";
        source = EditSource.mcp;
        created_at = unix;
        count = 1;
        named = false;
      };
      completed = 0;
      outcome_unknown = true;
      retry_allowed = false;
    });
  })

  unfoldable pub clear_completed_pending_group : HistoryState V → GroupKey → HistoryState V
  unfolding has_group_on_stack
  clear_completed_pending_group s key = elim s.pending_group [
    | none ↦ s
    | some p ↦
        if p.metadata.key == key && not (has_group_on_stack s p.direction key)
        then bump_revision (record s { pending = false; pending_group = none })
        else s
  ]

  unfoldable pub discard_pending_group : HistoryState V → Result EditDiscardResult × HistoryState V
  discard_pending_group s = elim s.pending_group [
    | none ↦ (err (request Reason.nothing_to_discard), s)
    | some p ↦ (
      ok (record {
        group = p.metadata.key;
        completed_count = p.completed;
        total_count = p.metadata.count;
        outcome_unknown = p.outcome_unknown;
        changes_remain = ltb 0 p.completed || p.outcome_unknown;
      }),
      bump_revision (record s {
        pending_group = none;
        undo = retain (λ e. not (e.group.key == p.metadata.key)) s.undo;
        redo = retain (λ e. not (e.group.key == p.metadata.key)) s.redo;
        pending = false;
      }),
    )
  ]

  unfoldable pub discard_action : HistoryState V → HistoryAction V → HistoryState V
  unfolding pop_action_entry
  discard_action s action = elim (pop_action_entry s action).0 [
    | none ↦ s
    | some e ↦ bump_revision (pop_action_entry s action).1
  ]

  unfoldable pub finish_action_failure : HistoryState V → HistoryAction V → HistoryState V
  unfolding pop_action_entry
  finish_action_failure s action = elim (pop_action_entry s action).0 [
    | none ↦ s
    | some e ↦ bump_revision (pop_action_entry s action).1
  ]
