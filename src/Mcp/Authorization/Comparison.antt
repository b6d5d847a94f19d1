-- ===== src/Mcp/Authorization/Comparison.antt =====
-- The derived comparisons of the settings and of a write's target, the latter over that of JSON
-- values: `PartialEq` of apps/editor/src-tauri/src/mcp/authorization.rs.
use norves_editor.Common.{
  Bool, true, false, ◌&&◌, List, [], ◌∷◌, ◌==◌, Eq, string_eq, nat_eq, option_eq,
}
use norves_editor.History.Types.{HistoryRecord, source_eq}
use norves_editor.Mcp.Authorization.{
  McpWriteMode, McpWriteSettings, McpWriteOperation, McpHistoryDirection, McpHistoryAction,
}

abbrev pub mode_beq : McpWriteMode → McpWriteMode → Bool
mode_beq McpWriteMode.read_only McpWriteMode.read_only = true
mode_beq McpWriteMode.enabled McpWriteMode.enabled = true
mode_beq McpWriteMode.confirm McpWriteMode.confirm = true
mode_beq _ _ = false

abbrev pub settings_beq : McpWriteSettings → McpWriteSettings → Bool
settings_beq a b = mode_beq a.mode b.mode && a.scene_root_id == b.scene_root_id

abbrev pub direction_beq : McpHistoryDirection → McpHistoryDirection → Bool
direction_beq McpHistoryDirection.undo McpHistoryDirection.undo = true
direction_beq McpHistoryDirection.redo McpHistoryDirection.redo = true
direction_beq _ _ = false

module _ {V : Type 0} ⦃v : Eq V⦄ where
  abbrev pub record_beq : HistoryRecord V → HistoryRecord V → Bool
  record_beq (HistoryRecord.create a p k) (HistoryRecord.create b q l) =
      a == b && (p == q && k == l)
  record_beq (HistoryRecord.duplicate a b p) (HistoryRecord.duplicate c d q) =
      a == c && (b == d && p == q)
  record_beq (HistoryRecord.reparent a p q) (HistoryRecord.reparent b r s) =
      a == b && (p == r && q == s)
  record_beq (HistoryRecord.set_property a p x y) (HistoryRecord.set_property b q z w) =
      a == b && (p == q && (x == z && y == w))
  record_beq _ _ = false

  abbrev pub records_beq : List (HistoryRecord V) → List (HistoryRecord V) → Bool
  records_beq [] [] = true
  records_beq [] (s ∷ ss) = false
  records_beq (r ∷ rs) [] = false
  records_beq (r ∷ rs) (s ∷ ss) = record_beq r s && records_beq rs ss

  abbrev pub action_beq : McpHistoryAction V → McpHistoryAction V → Bool
  action_beq a b =
      direction_beq a.direction b.direction
      && (a.head_id == b.head_id
          && (a.revision == b.revision
              && (a.group_name == b.group_name
                  && (a.source == b.source && records_beq a.records b.records))))

  abbrev pub operation_beq : McpWriteOperation V → McpWriteOperation V → Bool
  operation_beq (McpWriteOperation.property a) (McpWriteOperation.property b) = a == b
  operation_beq (McpWriteOperation.create p) (McpWriteOperation.create q) = p == q
  operation_beq (McpWriteOperation.duplicate a p) (McpWriteOperation.duplicate b q) =
      a == b && p == q
  operation_beq (McpWriteOperation.reparent a p) (McpWriteOperation.reparent b q) = a == b && p == q
  operation_beq (McpWriteOperation.delete a) (McpWriteOperation.delete b) = a == b
  operation_beq (McpWriteOperation.component_add a) (McpWriteOperation.component_add b) = a == b
  operation_beq (McpWriteOperation.component_remove a) (McpWriteOperation.component_remove b) =
      a == b
  operation_beq McpWriteOperation.runtime_control McpWriteOperation.runtime_control = true
  operation_beq (McpWriteOperation.history a) (McpWriteOperation.history b) = action_beq a b
  operation_beq _ _ = false
