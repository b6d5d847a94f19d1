-- ===== src/Mcp/Authorization/Checks.antt =====
-- The checks of an operation against the scope: `check_operation` and what it calls, of
-- apps/editor/src-tauri/src/mcp/authorization.rs.
use norves_editor.Common.{
  ℕ, zero, suc, Bool, not, ◌||◌, String, Option, none, some, List, [], ◌∷◌, ◌++◌, reverse, length,
  if◌then◌else◌, leb, ◌==◌, string_eq, option_eq,
}
use norves_editor.Common.Dict
use norves_editor.Common.Dict.{Dict}
use norves_editor.Common.Results.{Result, ok, err, ◌>>=◌, ◌>>◌, ok_or, refuse_if}
use norves_editor.History.Types.{HistoryRecord}
use norves_editor.Mcp.Authorization.{
  ScopeError, Checked, McpHistoryDirection, McpHistoryAction, McpWriteOperation,
}
use norves_editor.Mcp.Authorization.Scope.{
  McpSceneScopeIndex, contains, has_key, unwrap_or, max_scope_nodes,
}

unfoldable pub is_full_scene : McpSceneScopeIndex → Bool
is_full_scene index = index.root_id == index.scene_root_id

unfoldable pub check_object : McpSceneScopeIndex → String → Checked
check_object index id =
    if not (has_key id index.nodes)
    then err ScopeError.object_unknown
    else if not (contains id index.allowed)
    then err ScopeError.object_outside_scope
    else ok tt

unfoldable pub check_component : McpSceneScopeIndex → String → Checked
check_component index id = elim (Dict.get id index.component_owners) [
  | none ↦ err ScopeError.component_membership_unknown
  | some owner ↦ refuse_if (not (contains owner index.allowed)) ScopeError.component_outside_scope
]

unfoldable pub check_object_or_component : McpSceneScopeIndex → String → Checked
unfolding check_object check_component
check_object_or_component index id =
    if has_key id index.nodes then check_object index id else check_component index id

unfoldable pub check_parent : McpSceneScopeIndex → Option String → Checked
unfolding check_object is_full_scene
check_parent index (some id) = check_object index id
check_parent index none = refuse_if (not (is_full_scene index)) ScopeError.object_outside_scope

-- `self.nodes.get(id).and_then(|node| node.parent.as_deref())`
abbrev pub parent_of : McpSceneScopeIndex → String → Option String
parent_of index id = elim (Dict.get id index.nodes) [ none ↦ none | some meta ↦ meta.parent ]

-- The loop of `check_delete_subtree`. It takes each node below the object once.
unfoldable pub check_below : ℕ → McpSceneScopeIndex → List String → Checked
check_below fuel index [] = ok tt
check_below zero index (id ∷ descendants) = err ScopeError.object_outside_scope
check_below (suc fuel) index (id ∷ descendants) = do
  refuse_if (not (contains id index.allowed)) ScopeError.object_outside_scope
  meta ← ok_or (Dict.get id index.nodes) ScopeError.object_unknown
  check_below fuel index (reverse meta.children ++ descendants)

unfoldable pub check_delete_subtree : McpSceneScopeIndex → String → Checked
unfolding check_object check_parent check_below
check_delete_subtree index id = do
  check_object index id
  check_parent index (parent_of index id)
  check_below (length index.nodes) index (id ∷ [])

abbrev pub or_else : Option String → Option String → Option String
or_else (some id) other = some id
or_else none other = other

unfoldable pub add_recreated_node :
    McpSceneScopeIndex → String → Option String → Result ScopeError McpSceneScopeIndex
unfolding check_parent
add_recreated_node index id parent = do
  check_parent index parent
  refuse_if (has_key id index.nodes || has_key id index.component_owners)
      ScopeError.duplicate_object_id
  refuse_if (leb max_scope_nodes (length index.nodes)) ScopeError.limit_exceeded
  let parent_id = unwrap_or parent index.scene_root_id
  meta ← ok_or (Dict.get parent_id index.nodes) ScopeError.object_unknown
  let nodes' =
      Dict.insert parent_id (record meta { children = meta.children ++ id ∷ [] }) index.nodes
  ok (record index {
    nodes = Dict.insert id (record { parent = some parent_id; children = [] }) nodes';
    allowed = id ∷ index.allowed;
  })

-- `projected.nodes.get_mut(object_id)` and the assignment of the parent.
unfoldable pub set_parent :
    McpSceneScopeIndex → String → Option String → Result ScopeError McpSceneScopeIndex
set_parent index id parent = do
  meta ← ok_or (Dict.get id index.nodes) ScopeError.object_unknown
  let moved = record meta { parent = or_else parent (some index.scene_root_id) }
  ok (record index { nodes = Dict.insert id moved index.nodes })

module _ {V : Type 0} where
  -- One turn of the loop of `check_history`: the index of the current tree, and the projected one.
  unfoldable pub check_record :
      McpSceneScopeIndex
      → McpHistoryDirection
      → McpSceneScopeIndex
      → HistoryRecord V
      → Result ScopeError McpSceneScopeIndex
  unfolding check_delete_subtree check_object check_parent check_object_or_component
      add_recreated_node set_parent
  check_record index McpHistoryDirection.undo projected (HistoryRecord.create created_id _ _) = do
    check_delete_subtree index created_id
    ok projected
  check_record index McpHistoryDirection.undo projected (HistoryRecord.duplicate _ created_id _) =
      do check_delete_subtree index created_id; ok projected
  check_record index McpHistoryDirection.redo projected (HistoryRecord.create id parent_id _) =
      add_recreated_node projected id parent_id
  check_record index McpHistoryDirection.redo projected (HistoryRecord.duplicate source id parent) =
      do
        check_object projected source
        add_recreated_node projected id (or_else parent (parent_of projected source))
  check_record index McpHistoryDirection.undo projected (HistoryRecord.reparent id old new) = do
    check_object projected id
    check_parent projected old
    check_parent projected new
    ok projected
  check_record index McpHistoryDirection.redo projected (HistoryRecord.reparent id old new) = do
    check_object projected id
    check_parent projected old
    check_parent projected new
    check_parent projected (parent_of projected id)
    set_parent projected id new
  check_record index direction projected (HistoryRecord.set_property id _ _ _) = do
    check_object_or_component projected id
    ok projected

  unfoldable pub check_records :
      McpSceneScopeIndex
      → McpHistoryDirection
      → McpSceneScopeIndex
      → List (HistoryRecord V)
      → Checked
  unfolding check_record
  check_records index direction projected [] = ok tt
  check_records index direction projected (r ∷ rs) = do
    projected' ← check_record index direction projected r
    check_records index direction projected' rs

  unfoldable pub check_history : McpSceneScopeIndex → McpHistoryAction V → Checked
  unfolding check_records
  check_history index action = elim action.records [
    | [] ↦ err ScopeError.history_unavailable
    | r ∷ rs ↦ check_records index action.direction index (r ∷ rs)
  ]

  unfoldable pub check_operation : McpSceneScopeIndex → McpWriteOperation V → Checked
  unfolding check_object_or_component check_parent check_object check_delete_subtree check_component
      check_history is_full_scene
  check_operation index (McpWriteOperation.property id) = check_object_or_component index id
  check_operation index (McpWriteOperation.create parent) = check_parent index parent
  check_operation index (McpWriteOperation.duplicate id parent) = do
    check_object index id
    check_parent index (or_else parent (parent_of index id))
  check_operation index (McpWriteOperation.reparent id parent) = do
    check_object index id
    check_parent index (parent_of index id)
    check_parent index parent
  check_operation index (McpWriteOperation.delete id) = check_delete_subtree index id
  check_operation index (McpWriteOperation.component_add id) = check_object index id
  check_operation index (McpWriteOperation.component_remove id) = check_component index id
  check_operation index McpWriteOperation.runtime_control =
      refuse_if (not (is_full_scene index)) ScopeError.object_outside_scope
  check_operation index (McpWriteOperation.history action) = check_history index action
