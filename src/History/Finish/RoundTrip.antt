-- ===== src/History/Finish/RoundTrip.antt =====
-- Undo and redo as inverse moves between the stacks: `finish_action_success` after
-- `prepare_action`.
use norves_editor.Common.{
  ℕ, ◌≡◌, refl, sym, ap, subst, ◌∙◌, true, String, Option, none, some, List, ◌∷◌, arith, string_eq,
  nat_eq, option_eq, wrapping_add,
}
use norves_editor.History.State.{HistoryState, stack, with_stack, visible_stack, pop_action_entry}
use norves_editor.History.Records.{accepted, non_empty_new_id, updated_history_record}
use norves_editor.History.Actions.{prepare_action}
use norves_editor.History.Actions.TopGroup.{prepare_action-head}
use norves_editor.History.Finish.{finish_action_success, finish_popped}
use norves_editor.History.Types.{
  Json, EditSource, source_eq, EditKind, HistoryDirection, ok, HistoryRecord, create, duplicate,
  reparent, set_property, group_key_eq, key_beq_iff, HistoryEntry, HistoryActionRequest,
  HistoryAction,
}

abbrev pub opposite : HistoryDirection → HistoryDirection
opposite HistoryDirection.undo = HistoryDirection.redo
opposite HistoryDirection.redo = HistoryDirection.undo

module _ {V : Type 0} (j : Json V) where
  -- The entry that the action names is popped from its stack.
  pop_action_entry-top :
      (s : HistoryState V) (a : HistoryAction V) (e : HistoryEntry V) (es : List (HistoryEntry V))
      → stack a.direction s ≡ e ∷ es
      → a.entry_id ≡ e.marker.sequence
      → a.group ≡ e.group
      → pop_action_entry s a ≡ (some e, with_stack a.direction es s)
  unfolding pop_action_entry
  pop_action_entry-top s a e es top id group =
      ground (arith, top, key_beq_iff e.group.key e.group.key)

  finish_popped-moves :
      (s : HistoryState V) (a : HistoryAction V) (e : HistoryEntry V) (es : List (HistoryEntry V))
      (updated : HistoryRecord V) (source : EditSource) (kind : EditKind) (sequence generation : ℕ)
      (result : V)
      → let s' =
          finish_popped j
            (some e, with_stack a.direction es s)
            a
            updated
            source
            kind
            sequence
            generation
            result in
        (s'.0 ≡ ok true)
        × (stack a.direction s'.1 ≡ es)
        × (stack (opposite a.direction) s'.1
            ≡ record e { record_of = updated } ∷ stack (opposite a.direction) s)
        × (s'.1.active_group ≡ s.active_group)
        × (s'.1.applied_revision ≡ wrapping_add s.applied_revision 1)
  unfolding finish_popped stack
  finish_popped-moves s a e es updated source kind sequence generation result = go a.direction refl
    where
      go :
          (d : HistoryDirection)
          → a.direction ≡ d
          → let s' =
              finish_popped j
                (some e, with_stack a.direction es s)
                a
                updated
                source
                kind
                sequence
                generation
                result in
            (s'.0 ≡ ok true)
            × (stack a.direction s'.1 ≡ es)
            × (stack (opposite a.direction) s'.1
                ≡ record e { record_of = updated } ∷ stack (opposite a.direction) s)
            × (s'.1.active_group ≡ s.active_group)
            × (s'.1.applied_revision ≡ wrapping_add s.applied_revision 1)
      go HistoryDirection.undo d = rw d (refl, refl, refl, refl, refl)
      go HistoryDirection.redo d = rw d (refl, refl, refl, refl, refl)

  -- A finished action takes the top entry off its stack and puts it, updated, on the other one.
  finish_action_success_moves :
      (s : HistoryState V) (a : HistoryAction V) (e : HistoryEntry V) (es : List (HistoryEntry V))
      (updated : HistoryRecord V) (source : EditSource) (kind : EditKind) (sequence generation : ℕ)
      (result : V)
      → stack a.direction s ≡ e ∷ es
      → a.entry_id ≡ e.marker.sequence
      → a.group ≡ e.group
      → accepted j result ≡ true
      → updated_history_record j a.record_of a.direction result ≡ ok updated
      → let s' = finish_action_success j s a source kind sequence generation result in
        (s'.0 ≡ ok true)
        × (stack a.direction s'.1 ≡ es)
        × (stack (opposite a.direction) s'.1
            ≡ record e { record_of = updated } ∷ stack (opposite a.direction) s)
        × (s'.1.active_group ≡ s.active_group)
        × (s'.1.applied_revision ≡ wrapping_add s.applied_revision 1)
  unfolding finish_action_success stack
  finish_action_success_moves s a e es updated source kind sequence generation result top id group
        taken record_updated =
      rw (finish_action_success, taken, record_updated, pop_action_entry-top s a e es top id group)
        (finish_popped-moves s a e es updated source kind sequence generation result)

  updated_history_record-undo :
      (x : HistoryRecord V) (result : V)
      → updated_history_record j x HistoryDirection.undo result ≡ ok x
  unfolding updated_history_record
  updated_history_record-undo (create _ _ _) result = refl
  updated_history_record-undo (duplicate _ _ _) result = refl
  updated_history_record-undo (reparent _ _ _) result = refl
  updated_history_record-undo (set_property _ _ _ _) result = refl

  -- An accepted undo moves the top entry of the undo stack, as it is, to the redo stack.
  undo_of_top :
      (s : HistoryState V) (e : HistoryEntry V) (es : List (HistoryEntry V))
      (asked : HistoryActionRequest) (a : HistoryAction V) (source : EditSource) (kind : EditKind)
      (sequence generation : ℕ) (result : V)
      → s.undo ≡ e ∷ es
      → s.active_group ≡ none
      → asked.direction ≡ HistoryDirection.undo
      → prepare_action s asked ≡ some a
      → accepted j result ≡ true
      → let s' = (finish_action_success j s a source kind sequence generation result).1 in
        (s'.undo ≡ es) × (s'.redo ≡ e ∷ s.redo)
  unfolding stack visible_stack
  undo_of_top s e es asked a source kind sequence generation result top alone undoes prepared
        taken =
      let head =
        prepare_action-head s asked a e es (rw (undoes, visible_stack, alone) top) prepared in
      let undo_a : a.direction ≡ HistoryDirection.undo = head.0 ∙ undoes in
      let s' = (finish_action_success j s a source kind sequence generation result).1 in
      let moved =
        finish_action_success_moves s a e es e.record_of source kind sequence generation result
          (rw undo_a top) head.1 head.3 taken
          (rw (undo_a, head.2) (updated_history_record-undo e.record_of result)) in
      (
        subst (λ d. stack d s' ≡ es) undo_a moved.1,
        subst (λ d. stack (opposite d) s' ≡ e ∷ stack (opposite d) s) undo_a moved.2,
      )

  -- An accepted redo moves the top entry of the redo stack to the undo stack, with its record
  -- updated.
  redo_of_top :
      (s : HistoryState V) (e : HistoryEntry V) (es : List (HistoryEntry V))
      (asked : HistoryActionRequest) (a : HistoryAction V) (updated : HistoryRecord V)
      (source : EditSource) (kind : EditKind) (sequence generation : ℕ) (result : V)
      → s.redo ≡ e ∷ es
      → asked.direction ≡ HistoryDirection.redo
      → prepare_action s asked ≡ some a
      → accepted j result ≡ true
      → updated_history_record j e.record_of HistoryDirection.redo result ≡ ok updated
      → let s' = (finish_action_success j s a source kind sequence generation result).1 in
        (s'.redo ≡ es) × (s'.undo ≡ record e { record_of = updated } ∷ s.undo)
  unfolding stack visible_stack
  redo_of_top s e es asked a updated source kind sequence generation result top redoes prepared
        taken u =
      let head = prepare_action-head s asked a e es (rw (redoes, visible_stack) top) prepared in
      let redo_a : a.direction ≡ HistoryDirection.redo = head.0 ∙ redoes in
      let s' = (finish_action_success j s a source kind sequence generation result).1 in
      let moved =
        finish_action_success_moves s a e es updated source kind sequence generation result
          (rw redo_a top) head.1 head.3 taken (rw (redo_a, head.2) u) in
      (
        subst (λ d. stack d s' ≡ es) redo_a moved.1,
        subst (λ d. stack (opposite d) s' ≡ record e { record_of = updated } ∷ stack (opposite d) s)
            redo_a moved.2,
      )

  -- The identifier that a record made an object under.
  abbrev pub created_id_of : HistoryRecord V → Option String
  created_id_of (create created_id _ _) = some created_id
  created_id_of (duplicate _ created_id _) = some created_id
  created_id_of (reparent _ _ _) = none
  created_id_of (set_property _ _ _ _) = none

  updated_history_record-redo :
      (x : HistoryRecord V) (result : V)
      → ((id : String) → created_id_of x ≡ some id → non_empty_new_id j result ≡ some id)
      → updated_history_record j x HistoryDirection.redo result ≡ ok x
  unfolding updated_history_record
  updated_history_record-redo (create id _ _) result again = rw (again id refl) refl
  updated_history_record-redo (duplicate _ id _) result again = rw (again id refl) refl
  updated_history_record-redo (reparent _ _ _) result again = refl
  updated_history_record-redo (set_property _ _ _ _) result again = refl

  -- Undo and then redo of the top entry, with no group open, gives back both stacks, if the engine
  -- accepts both and, where the entry is a creation or a duplication, makes the object again under
  -- the identifier that the entry records. The first action is prepared on the state, the second
  -- one on the state that the first left.
  pub undo_redo_roundtrip :
      (s : HistoryState V) (e : HistoryEntry V) (es : List (HistoryEntry V))
      (asked asked' : HistoryActionRequest) (a b : HistoryAction V) (source : EditSource)
      (kind kind' : EditKind) (sequence sequence' generation : ℕ) (result result' : V)
      → s.undo ≡ e ∷ es
      → s.active_group ≡ none
      → asked.direction ≡ HistoryDirection.undo
      → prepare_action s asked ≡ some a
      → accepted j result ≡ true
      → asked'.direction ≡ HistoryDirection.redo
      → let s' = (finish_action_success j s a source kind sequence generation result).1 in
        prepare_action s' asked' ≡ some b
        → accepted j result' ≡ true
        → ((id : String)
            → created_id_of e.record_of ≡ some id
            → non_empty_new_id j result' ≡ some id)
        → let s'' = (finish_action_success j s' b source kind' sequence' generation result').1 in
          (s''.undo ≡ s.undo) × (s''.redo ≡ s.redo)
  undo_redo_roundtrip s e es asked asked' a b source kind kind' sequence sequence' generation result
        result' top alone undoes prepared taken redoes prepared' taken' again =
      let s' = (finish_action_success j s a source kind sequence generation result).1 in
      let undone =
        undo_of_top s e es asked a source kind sequence generation result top alone undoes prepared
          taken in
      let redone =
        redo_of_top s' e s.redo asked' b e.record_of source kind' sequence' generation result'
          undone.1 redoes prepared' taken'
          (updated_history_record-redo e.record_of result' again) in
      (redone.1 ∙ ap (◌∷◌ e) undone.0 ∙ sym top, redone.0)
