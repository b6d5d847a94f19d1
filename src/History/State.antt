-- ===== src/History/State.antt =====
-- `HistoryState` of history.rs, its reset, its views and its stacks. Of a stack the head is the
-- back of the vector.
use norves_editor.Common.{
  ℕ, Bool, true, false, not, ◌&&◌, ◌||◌, Option, none, some, List, [], ◌∷◌, ◌++◌, map, reverse,
  length, any, if◌then◌else◌, ◌==◌, string_eq, nat_eq, option_eq, wrapping_add,
}
use norves_editor.History.Corrections
use norves_editor.History.Corrections.{CorrectionCache}
use norves_editor.History.Types.{
  EditSource, source_eq, EditKind, HistoryDirection, HistoryMarker, GroupKey, group_key_eq,
  GroupMetadata, HistoryEntry, ActiveGroup, PendingGroupAction, HistoryAction,
}

pub record HistoryState (V : Type 0) : Type 0 where
  pub generation : Option ℕ
  pub revision : ℕ
  pub applied_revision : ℕ
  pub markers : List HistoryMarker
  pub undo : List (HistoryEntry V)
  pub redo : List (HistoryEntry V)
  pub corrections : CorrectionCache V
  pub edit_unsupported : Bool
  pub pending : Bool
  pub pending_group : Option PendingGroupAction
  pub active_group : Option (ActiveGroup V)

-- `HistoryState::default()`
abbrev pub init : {V : Type 0} → HistoryState V
init = record {
  generation = none;
  revision = 0;
  applied_revision = 0;
  markers = [];
  undo = [];
  redo = [];
  corrections = Corrections.empty;
  edit_unsupported = false;
  pending = false;
  pending_group = none;
  active_group = none;
}

module _ {V : Type 0} where
  abbrev pub bump_revision : HistoryState V → HistoryState V
  bump_revision s = record s { revision = wrapping_add s.revision 1 }

  unfoldable pub synchronize : HistoryState V → Option ℕ → HistoryState V
  unfolding Corrections.clear
  synchronize s generation =
      if s.generation == generation
      then s
      else bump_revision (record s {
        generation = generation;
        undo = [];
        redo = [];
        corrections = Corrections.clear s.corrections;
        edit_unsupported = false;
        applied_revision = 0;
        markers = [];
        pending = false;
        pending_group = none;
        active_group = none;
      })

  unfoldable pub clear_for_shutdown : HistoryState V → HistoryState V
  unfolding Corrections.clear
  clear_for_shutdown s = bump_revision (record s {
    generation = none;
    undo = [];
    redo = [];
    corrections = Corrections.clear s.corrections;
    edit_unsupported = false;
    applied_revision = 0;
    markers = [];
    pending = false;
    pending_group = none;
    active_group = none;
  })

  unfoldable pub snapshot : HistoryState V → Option ℕ × ℕ × List HistoryMarker
  snapshot s = (s.generation, s.revision, reverse s.markers)

  -- The stack that a direction works on.
  unfoldable pub stack : HistoryDirection → HistoryState V → List (HistoryEntry V)
  stack HistoryDirection.undo s = s.undo
  stack HistoryDirection.redo s = s.redo

  abbrev pub with_stack : HistoryDirection → List (HistoryEntry V) → HistoryState V → HistoryState V
  with_stack HistoryDirection.undo entries s = record s { undo = entries }
  with_stack HistoryDirection.redo entries s = record s { redo = entries }

  -- The entries of the active group, if it has some, else the undo stack.
  abbrev pub shown : Option (ActiveGroup V) → List (HistoryEntry V) → List (HistoryEntry V)
  shown none undo = undo
  shown (some g) undo = elim g.entries [ [] ↦ undo | e ∷ es ↦ e ∷ es ]

  unfoldable pub visible_stack : HistoryDirection → HistoryState V → List (HistoryEntry V)
  visible_stack HistoryDirection.undo s = shown s.active_group s.undo
  visible_stack HistoryDirection.redo s = s.redo

  unfoldable pub history_cursor : HistoryState V → HistoryDirection → Option ℕ × ℕ
  unfolding visible_stack
  history_cursor s direction =
      (elim (visible_stack direction s) [ [] ↦ none | e ∷ es ↦ some e.marker.sequence ], s.revision)

  -- `can_undo` and `can_redo` of `summary`
  unfoldable pub can_act : HistoryState V → HistoryDirection → Bool
  unfolding history_cursor
  can_act s direction =
      elim (history_cursor s direction).0 [ none ↦ false | some id ↦ true ]
      && not s.edit_unsupported
      && not s.pending

  unfoldable pub push_marker : HistoryState V → EditSource → EditKind → ℕ → ℕ → HistoryState V
  push_marker s source kind sequence generation = bump_revision (record s {
    markers =
        record { sequence = sequence; source = source; kind = kind; generation = generation }
        ∷ s.markers;
  })

  unfoldable pub record_untracked_success :
      HistoryState V → EditSource → EditKind → ℕ → ℕ → HistoryState V
  unfolding push_marker
  record_untracked_success s source kind sequence generation =
      push_marker (record s { applied_revision = wrapping_add s.applied_revision 1 }) source kind
        sequence generation

  unfoldable pub mark_edit_unsupported : HistoryState V → HistoryState V
  mark_edit_unsupported s =
      if s.edit_unsupported then s else bump_revision (record s { edit_unsupported = true })

  unfoldable pub pop_from :
      List (HistoryEntry V) → ℕ → GroupKey → Option (HistoryEntry V × List (HistoryEntry V))
  pop_from [] entry_id key = none
  pop_from (e ∷ es) entry_id key =
      if not (e.marker.sequence == entry_id) || not (e.group.key == key) then none else some (e, es)

  -- The state is left as it was where nothing is popped.
  unfoldable pub pop_action_entry_id :
      HistoryState V → HistoryDirection → ℕ → GroupKey → Option (HistoryEntry V) × HistoryState V
  unfolding pop_from stack
  pop_action_entry_id s direction entry_id key = elim (pop_from (stack direction s) entry_id key) [
    | none ↦ (none, s)
    | some (e, es) ↦ (some e, with_stack direction es s)
  ]

  unfoldable pub pop_action_entry :
      HistoryState V → HistoryAction V → Option (HistoryEntry V) × HistoryState V
  unfolding pop_action_entry_id
  pop_action_entry s action =
      pop_action_entry_id s action.direction action.entry_id action.group.key

  unfoldable pub has_group_on_stack : HistoryState V → HistoryDirection → GroupKey → Bool
  unfolding any stack
  has_group_on_stack s direction key = any (λ e. e.group.key == key) (stack direction s)

  abbrev pub with_group : GroupMetadata → HistoryEntry V → HistoryEntry V
  with_group metadata e = record e { group = metadata }

  -- The entries of the group, all under its final metadata.
  unfoldable pub closed_entries : ActiveGroup V → List (HistoryEntry V)
  closed_entries g = map (with_group (record g.metadata { count = length g.entries })) g.entries

  unfoldable pub close_active_group : HistoryState V → HistoryState V × Bool
  unfolding closed_entries
  close_active_group s = elim s.active_group [
    | none ↦ (s, false)
    | some g ↦
        (bump_revision (record s { active_group = none; undo = closed_entries g ++ s.undo }), true)
  ]
