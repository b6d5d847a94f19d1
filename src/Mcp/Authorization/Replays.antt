-- ===== src/Mcp/Authorization/Replays.antt =====
-- `check_history`: all that an accepted undo or redo of a group touches.
use norves_editor.Common.{
  ◌≡◌, inl, inr, subst, true, String, Option, List, [], ◌∷◌, ◌++◌, arith, string_eq,
}
use norves_editor.Common.Dict.{Dict}
use norves_editor.Common.Results.{ok, err, Result-cases, ok_injective}
use norves_editor.History.Types.{HistoryRecord}
use norves_editor.Mcp.Authorization.{ScopeError, McpHistoryDirection, McpHistoryAction}
use norves_editor.Mcp.Authorization.Scope.{
  SceneNode, McpScopeBudget, McpSceneScopeIndex, contains, from_result,
}
use norves_editor.Mcp.Authorization.Reach.{Reach}
use norves_editor.Mcp.Authorization.Deletion.{check_delete_subtree_covers}
use norves_editor.Mcp.Authorization.Checks.{
  check_object, check_object_or_component, check_parent, check_delete_subtree, parent_of, or_else,
  add_recreated_node, set_parent, check_record, check_records, check_history,
}
use norves_editor.Mcp.Authorization.Targets.{
  Target, Places, targets, moves, placed_by, makes, made_by, AreCovered, Projects,
  add_recreated_node-Recreated,
}
use norves_editor.Mcp.Authorization.Covered.{
  object_covered, parent_covered, holder_covered, Projects-add, set_parent-Projects, initial,
  deletion_covered,
}

module _ (V : Type 0) (index : McpSceneScopeIndex)
    (reaches : (id : String)
      → check_delete_subtree index id ≡ ok tt
      → (k : String) → Reach index.nodes id k
      → contains k index.allowed ≡ true) where
  abbrev Step :
      McpHistoryDirection → HistoryRecord V → List String → Places → McpSceneScopeIndex → Type 0
  Step d r made places p' =
      AreCovered index made (targets index d places r)
      × Projects index (makes r d made) (moves index r d places) p'

  Step-redo_duplicate :
      (made : List String) (places : Places) (p p' : McpSceneScopeIndex) (s id : String)
      (parent : Option String)
      → Projects index made places p
      → check_record {V = V} index McpHistoryDirection.redo p (HistoryRecord.duplicate s id parent)
        ≡ ok p'
      → Step McpHistoryDirection.redo (HistoryRecord.duplicate s id parent) made places p'
  unfolding check_record
  Step-redo_duplicate made places p p' s id parent j h = elim (Result-cases (check_object p s)) [
    | inr (e, refused) ↦ cc (rw (refused, check_record) at h)
    | inl (t, accepted) ↦
        let added : add_recreated_node p id (or_else parent (places s)) ≡ ok p' =
          subst (λ q. add_recreated_node p id (or_else parent q) ≡ ok p') (j.placed s)
            (rw (accepted, check_record) at h) in
        let c = add_recreated_node-Recreated p p' id (or_else parent (places s)) added in
        (
          (
            object_covered index made places p j s accepted,
            (parent_covered index made places p j (or_else parent (places s)) c.parent_passes, tt),
          ),
          Projects-add index made places p j p' id _ c,
        )
  ]

  redo_reparent_passes :
      (p p' : McpSceneScopeIndex) (id : String) (old new : Option String)
      → check_record {V = V} index McpHistoryDirection.redo p (HistoryRecord.reparent id old new)
        ≡ ok p'
      → (check_object p id ≡ ok tt)
        × (check_parent p old ≡ ok tt)
        × (check_parent p new ≡ ok tt)
        × (check_parent p (parent_of p id) ≡ ok tt)
        × (set_parent p id new ≡ ok p')
  unfolding check_record
  redo_reparent_passes p p' id old new h = ground arith

  undo_reparent_passes :
      (p p' : McpSceneScopeIndex) (id : String) (old new : Option String)
      → check_record {V = V} index McpHistoryDirection.undo p (HistoryRecord.reparent id old new)
        ≡ ok p'
      → (check_object p id ≡ ok tt)
        × (check_parent p old ≡ ok tt)
        × (check_parent p new ≡ ok tt)
        × (p ≡ p')
  unfolding check_record
  undo_reparent_passes p p' id old new h = ground arith

  property_step :
      (d : McpHistoryDirection) (id n : String) (v w : V) (made : List String) (places : Places)
      (p p' : McpSceneScopeIndex)
      → Projects index made places p
      → check_record index d p (HistoryRecord.set_property id n v w) ≡ ok p'
      → AreCovered index made (Target.holder_target id ∷ []) × Projects index made places p'
  unfolding check_record
  property_step d id n v w made places p p' j h =
      elim (Result-cases (check_object_or_component p id)) [
        | inr (e, refused) ↦ cc (rw (refused, check_record) at h)
        | inl (t, accepted) ↦ (
          (holder_covered index made places p j id accepted, tt),
          subst (Projects index made places) (ok_injective (rw (accepted, check_record) at h)) j,
        )
      ]

  check_record-Step :
      (d : McpHistoryDirection) (r : HistoryRecord V) (made : List String) (places : Places)
      (p p' : McpSceneScopeIndex)
      → Projects index made places p
      → check_record index d p r ≡ ok p'
      → Step d r made places p'
  unfolding check_record
  check_record-Step McpHistoryDirection.undo (HistoryRecord.create id q k) made places p p' j h =
      elim (Result-cases (check_delete_subtree index id)) [
        | inr (e, refused) ↦ cc (rw (refused, check_record) at h)
        | inl (t, accepted) ↦ (
          deletion_covered index reaches made id accepted,
          subst (Projects index made places) (ok_injective (rw (accepted, check_record) at h)) j,
        )
      ]
  check_record-Step McpHistoryDirection.undo (HistoryRecord.duplicate s id q) made places p p' j h =
      elim (Result-cases (check_delete_subtree index id)) [
        | inr (e, refused) ↦ cc (rw (refused, check_record) at h)
        | inl (t, accepted) ↦ (
          deletion_covered index reaches made id accepted,
          subst (Projects index made places) (ok_injective (rw (accepted, check_record) at h)) j,
        )
      ]
  check_record-Step McpHistoryDirection.redo (HistoryRecord.create id q k) made places p p' j h =
      let c = add_recreated_node-Recreated p p' id q h in
      (
        (parent_covered index made places p j q c.parent_passes, tt),
        Projects-add index made places p j p' id q c,
      )
  check_record-Step McpHistoryDirection.redo (HistoryRecord.duplicate s id q) made places p p' j h =
      Step-redo_duplicate made places p p' s id q j h
  check_record-Step McpHistoryDirection.undo (HistoryRecord.reparent id old new) made places p p' j
        h =
      let (moved, from_old, to_new, same) = undo_reparent_passes p p' id old new h in
      (
        (
          object_covered index made places p j id moved,
          (
            parent_covered index made places p j old from_old,
            (parent_covered index made places p j new to_new, tt),
          ),
        ),
        subst (Projects index made places) same j,
      )
  check_record-Step McpHistoryDirection.redo (HistoryRecord.reparent id old new) made places p p' j
        h =
      let (moved, from_old, to_new, leaves, set) = redo_reparent_passes p p' id old new h in
      (
        (
          object_covered index made places p j id moved,
          (
            parent_covered index made places p j old from_old,
            (
              parent_covered index made places p j new to_new,
              (
                parent_covered index made places p j (places id)
                    (subst (λ q. check_parent p q ≡ ok tt) (j.placed id) leaves),
                tt,
              ),
            ),
          ),
        ),
        set_parent-Projects index made places p j p' id new set,
      )
  check_record-Step McpHistoryDirection.undo (HistoryRecord.set_property id n v w) made places p p'
        j h =
      property_step McpHistoryDirection.undo id n v w made places p p' j h
  check_record-Step McpHistoryDirection.redo (HistoryRecord.set_property id n v w) made places p p'
        j h =
      property_step McpHistoryDirection.redo id n v w made places p p' j h

  check_records-AreCovered :
      (d : McpHistoryDirection) (before after : List (HistoryRecord V)) (r : HistoryRecord V)
      (made : List String) (places : Places) (p : McpSceneScopeIndex)
      → Projects index made places p
      → check_records index d p (before ++ r ∷ after) ≡ ok tt
      → AreCovered index
          (made_by d before made)
          (targets index d (placed_by index d before places) r)
  unfolding check_records
  check_records-AreCovered d [] after r made places p j h =
      elim (Result-cases (check_record index d p r)) [
        | inr (e, refused) ↦ cc (rw (refused, check_records) at h)
        | inl (p', accepted) ↦ (check_record-Step d r made places p p' j accepted).0
      ]
  check_records-AreCovered d (x ∷ before) after r made places p j h =
      elim (Result-cases (check_record index d p x)) [
        | inr (e, refused) ↦ cc (rw (refused, check_records) at h)
        | inl (p', accepted) ↦
            check_records-AreCovered d before after r (makes x d made) (moves index x d places) p'
              (check_record-Step d x made places p p' j accepted).1
              (rw (accepted, check_records) at h)
      ]

-- On an index built from a scene's tree, with whatever owners of components: if the undo or redo
-- of a group is accepted, then each of its records touches only what the scope covers. Touched are
-- an object that is moved, with the parents that its record names and, redone, the one it has
-- then; for an undone creation or duplication the object with all below it and its parent; for a
-- redone one the parent it gets, the source's where none is named, and the source; and what holds
-- a property. Covered are the objects of the scope, and those that an earlier record of the action
-- makes there again; of an object deleted all that is below it must be in the scope; the scene's
-- root as a parent only where the scope is the whole scene; and for a property also a component
-- whose owner is covered.
pub check_history-AreCovered :
    {V : Type 0} (tree : Option SceneNode) (scope : Option String) (b b' : McpScopeBudget)
    (built index : McpSceneScopeIndex) (owners : Dict String String) (action : McpHistoryAction V)
    (before after : List (HistoryRecord V)) (r : HistoryRecord V)
    → from_result tree scope b ≡ ok (built, b')
    → index ≡ record built { component_owners = owners }
    → action.records ≡ before ++ r ∷ after
    → check_history index action ≡ ok tt
    → AreCovered index (made_by action.direction before []) (
        targets index action.direction
          (placed_by index action.direction before (parent_of index))
          r)
unfolding check_history
check_history-AreCovered {V} tree scope b b' built index owners action before after r from_tree
      with_owners e h =
    let reaches : (id : String)
        → check_delete_subtree index id ≡ ok tt
        → (k : String) → Reach index.nodes id k
        → contains k index.allowed ≡ true =
      λ id passed k below.
        check_delete_subtree_covers tree scope b b' built index owners id from_tree with_owners k
          passed below in
    check_records-AreCovered V index reaches action.direction before after r [] (parent_of index)
      index (initial index reaches)
      (subst (λ rs. check_records index action.direction index rs ≡ ok tt) e
        (walks action.records h))
  where
    walks :
        (rs : List (HistoryRecord V))
        → (elim rs [
          | [] ↦ err ScopeError.history_unavailable
          | x ∷ ys ↦ check_records index action.direction index (x ∷ ys)
        ])
          ≡ ok tt
        → check_records index action.direction index rs ≡ ok tt
    walks [] q = cc
    walks (x ∷ rs) q = q
