-- ===== src/History/Recording.antt =====
-- Recording an edit that the engine accepted: `record_success_in_group` of history.rs. It reads the
-- clock twice: `now` for the edit, `later` for the check of the deadline.
pub mod Cases
pub mod Effects
pub mod Tracking
use norves_editor.Common.{
  ℕ, zero, suc, ◌+◌, ◌-◌, ◌*◌, ◌/◌, ◌%◌, ◌≤◌, ◌<◌, min, max, ◌≡◌, ◌≢◌, refl, sym, ap, subst, ◌∙◌,
  ◌⊎◌, inl, inr, ◌↔◌, Bool, true, false, not, ◌&&◌, ◌||◌, String, Option, none, some, List, [], ◌∷◌,
  ◌++◌, map, reverse, arith, length, head?, any, retain, take_while, All, if◌then◌else◌, ltb, leb,
  nat_beq, nat_beq_iff, Bool-cases, Option-cases, ◌==◌, Eq, string_eq, nat_eq, option_eq,
  option_beq, beq_refl, eq_iff, u64_max, u64_modulus, wrapping_add, saturating_add, saturating_sub,
}
use norves_editor.History.Corrections
use norves_editor.History.Corrections.{CorrectionCache, CorrectionKey, CorrectionValue}
use norves_editor.History.State.{
  HistoryState, init, bump_revision, synchronize, clear_for_shutdown, snapshot, stack, with_stack,
  shown, visible_stack, history_cursor, can_act, push_marker, record_untracked_success,
  mark_edit_unsupported, pop_from, pop_action_entry_id, pop_action_entry, has_group_on_stack,
  with_group, closed_entries, close_active_group,
}
use norves_editor.History.Records.{
  accepted, non_empty_new_id, updated_history_record, changed_created_id, replace_record_ids,
  summary_name,
}
use norves_editor.History.Groups.{max_edits, expire_group}
use norves_editor.History.Types.{
  Json, EditSource, source_eq, EditKind, HistoryDirection, Reason, BackendError, Result, ok, err,
  request, engine, unrelated, HistoryMarker, HistoryRecord, create, duplicate, reparent,
  set_property, GroupKey, group_key_eq, key_beq, key_beq_iff, GroupMetadata, HistoryEntry,
  ActiveGroup, PendingGroupAction, HistoryCapture, PriorCapture, HistoryRequest,
  PreparedHistoryRequest, HistoryPrior, QueuedEditResult, HistoryOperationContext,
  HistoryActionRequest, HistoryActionStep, HistoryAction,
}

abbrev first_of_two : {T : Type 0} → Option T → Option T → Option T
first_of_two none b = b
first_of_two (some a) b = some a

abbrev prior_parent : {V : Type 0} → Option (HistoryPrior V) → Option (Option String)
prior_parent none = none
prior_parent (some (HistoryPrior.parent p)) = some p
prior_parent (some (HistoryPrior.property v)) = none

abbrev prior_property : {V : Type 0} → Option (HistoryPrior V) → Option V
prior_property none = none
prior_property (some (HistoryPrior.parent p)) = none
prior_property (some (HistoryPrior.property v)) = some v

module _ {V : Type 0} (j : Json V) where
  -- `property_values_equal`
  abbrev pub property_values_equal : V → V → Bool
  property_values_equal left right = j.js_stringify left == j.js_stringify right

  -- `result.value.get("appliedValue")`, or what was asked for
  abbrev pub applied_value : V → V → V
  applied_value result requested = elim (j.field result "appliedValue") [
    | none ↦ requested
    | some v ↦ v
  ]

  abbrev reparented : String → Option String → Option (Option String) → Option (HistoryRecord V)
  reparented object_id new_parent_id none = none
  reparented object_id new_parent_id (some old) =
      if old == new_parent_id then none else some (reparent object_id old new_parent_id)

  abbrev property_changed : String → String → V → Option V → Option (HistoryRecord V)
  property_changed object_id property new_value none = none
  property_changed object_id property new_value (some old) =
      if property_values_equal old new_value
      then none
      else some (set_property object_id property old new_value)

  -- The record that an accepted edit leaves, if it leaves one.
  unfoldable pub recorded : PreparedHistoryRequest V → QueuedEditResult V → Option (HistoryRecord V)
  unfolding non_empty_new_id
  recorded (PreparedHistoryRequest.create_object parent_id kind) r =
      elim (non_empty_new_id j r.value) [ none ↦ none | some id ↦ some (create id parent_id kind) ]
  recorded (PreparedHistoryRequest.duplicate_object source_object_id parent_id) r =
      elim (non_empty_new_id j r.value) [
        | none ↦ none
        | some id ↦ some (duplicate source_object_id id parent_id)
      ]
  recorded (PreparedHistoryRequest.reparent_object object_id new_parent_id old_parent_id) r =
      reparented object_id new_parent_id (first_of_two old_parent_id (prior_parent r.prior))
  recorded (PreparedHistoryRequest.set_property object_id property requested_value old_value) r =
      property_changed object_id property (applied_value r.value requested_value)
        (first_of_two old_value (prior_property r.prior))
  recorded (PreparedHistoryRequest.delete_object object_id) r = none

  -- The correction that the same edit leaves.
  unfoldable pub correction_of :
      PreparedHistoryRequest V → QueuedEditResult V → Option (CorrectionKey × CorrectionValue V)
  unfolding non_empty_new_id
  correction_of (PreparedHistoryRequest.create_object parent_id kind) r =
      elim (non_empty_new_id j r.value) [
        | none ↦ none
        | some id ↦ some (CorrectionKey.parent id, CorrectionValue.parent parent_id)
      ]
  correction_of (PreparedHistoryRequest.duplicate_object source_object_id none) r = none
  correction_of (PreparedHistoryRequest.duplicate_object source_object_id (some parent_id)) r =
      elim (non_empty_new_id j r.value) [
        | none ↦ none
        | some id ↦ some (CorrectionKey.parent id, CorrectionValue.parent (some parent_id))
      ]
  correction_of (PreparedHistoryRequest.reparent_object object_id new_parent_id old_parent_id) r =
      some (CorrectionKey.parent object_id, CorrectionValue.parent new_parent_id)
  correction_of (PreparedHistoryRequest.set_property object_id property requested_value old_value)
        r =
      some (
        CorrectionKey.property object_id property,
        CorrectionValue.property (applied_value r.value requested_value),
      )
  correction_of (PreparedHistoryRequest.delete_object object_id) r = none

  unfoldable pub correct :
      HistoryState V → Option (CorrectionKey × CorrectionValue V) → HistoryState V
  correct s none = s
  correct s (some (key, value)) = record s {
    corrections = Corrections.insert j s.corrections key s.applied_revision value;
  }

module _ {V : Type 0} where
  -- The entry joins the group that is open. The first one empties the redo stack.
  unfoldable pub join_group :
      HistoryState V → ActiveGroup V → HistoryMarker → HistoryRecord V → (now : ℕ) → HistoryState V
  join_group s g marker record_of now =
      let entry : HistoryEntry V = record {
        marker = marker;
        record_of = record_of;
        group = record g.metadata { count = saturating_add (length g.entries) 1 };
      } in
      record s {
        active_group = some (record g { entries = entry ∷ g.entries; last_edit_at = now });
        redo = if length (entry ∷ g.entries) == 1 then [] else s.redo;
      }

  unfoldable pub close_if_full : HistoryState V → ℕ → HistoryState V
  unfolding close_active_group
  close_if_full s n = if leb max_edits n then (close_active_group s).0 else s

  -- The last entry that the limit allows closes the group, and so does the deadline.
  unfoldable pub file_in_group :
      HistoryState V
      → ActiveGroup V
      → HistoryMarker
      → HistoryRecord V
      → (now later : ℕ) → HistoryState V
  unfolding join_group close_if_full expire_group
  file_in_group s g marker record_of now later =
      (expire_group (close_if_full (join_group s g marker record_of now) (suc (length g.entries)))
        later).0

  -- An entry of its own, under the name of its record.
  unfoldable pub file_alone :
      HistoryState V
      → HistoryOperationContext
      → HistoryMarker
      → HistoryRecord V
      → (unix : ℕ) → HistoryState V
  unfolding summary_name
  file_alone s context marker record_of unix = record s {
    undo =
        record {
          marker = marker;
          record_of = record_of;
          group = record {
            key = record { generation = context.generation; sequence = context.sequence };
            name = summary_name record_of;
            source = context.source;
            created_at = unix;
            count = 1;
            named = false;
          };
        }
        ∷ s.undo;
    redo = [];
  }

  abbrev pub is_members_edit : ActiveGroup V → HistoryOperationContext → Bool
  is_members_edit g context =
      some g.token == context.group_token
      && g.metadata.key.generation == context.generation
      && g.metadata.source == context.source

  unfoldable pub file_under :
      Option (ActiveGroup V)
      → HistoryState V
      → HistoryOperationContext
      → HistoryMarker
      → HistoryRecord V
      → (now later unix : ℕ) → HistoryState V
  unfolding file_in_group file_alone
  file_under none s context marker record_of now later unix =
      file_alone s context marker record_of unix
  file_under (some g) s context marker record_of now later unix =
      if is_members_edit g context
      then file_in_group s g marker record_of now later
      else file_alone s context marker record_of unix

  unfoldable pub file :
      HistoryState V
      → HistoryOperationContext
      → Option (HistoryRecord V)
      → (now later unix : ℕ) → HistoryState V
  unfolding file_under
  file s context none now later unix = s
  file s context (some record_of) now later unix =
      file_under s.active_group s context
        (record {
          sequence = context.sequence;
          source = context.source;
          kind = context.kind;
          generation = context.generation;
        })
        record_of now later unix

  abbrev pub is_deletion : PreparedHistoryRequest V → Bool
  is_deletion (PreparedHistoryRequest.delete_object object_id) = true
  is_deletion _ = false

  -- A deletion that succeeded empties the history and the corrections.
  unfoldable pub record_deletion : HistoryState V → HistoryOperationContext → HistoryState V
  unfolding Corrections.clear_and_mark_lost_through push_marker
  record_deletion s context =
      let applied = wrapping_add s.applied_revision 1 in
      push_marker
        (record s {
          applied_revision = applied;
          corrections = Corrections.clear_and_mark_lost_through s.corrections applied;
          undo = [];
          redo = [];
        })
        context.source context.kind context.sequence context.generation

module _ {V : Type 0} (j : Json V) where
  unfoldable pub record_edit :
      HistoryState V
      → PreparedHistoryRequest V
      → HistoryOperationContext
      → QueuedEditResult V
      → (now later unix : ℕ) → HistoryState V
  unfolding push_marker recorded correction_of correct file
  record_edit s prepared context r now later unix =
      let s1 = record s { applied_revision = wrapping_add s.applied_revision 1 } in
      let s2 = push_marker s1 context.source context.kind context.sequence context.generation in
      file (correct j s2 (correction_of j prepared r)) context (recorded j prepared r) now later
        unix

  unfoldable pub record_success_in_group :
      HistoryState V
      → PreparedHistoryRequest V
      → HistoryOperationContext
      → QueuedEditResult V
      → (now later unix : ℕ) → HistoryState V
  unfolding accepted record_deletion record_edit
  record_success_in_group s prepared context r now later unix =
      if not (accepted j r.value)
      then s
      else if is_deletion prepared
      then record_deletion s context
      else record_edit s prepared context r now later unix
