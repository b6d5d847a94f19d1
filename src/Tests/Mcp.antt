-- ===== src/Tests/Mcp.antt =====
-- The theorems on the MCP server's state on small inputs.
use norves_editor.Common.{
  ℕ, ◌≤◌, subst, inl, inr, eq_iff, Bool-cases, ◌≡◌, refl, ◌↔◌, true, String, none, some, [], ◌∷◌,
  arith, any, ◌||◌, ◌==◌, string_eq, nat_eq, option_eq,
}
use norves_editor.Common.Dict
use norves_editor.Common.Results.{ok, ◌>>◌}
use norves_editor.History.Types.{EditSource, HistoryRecord}
use norves_editor.Mcp.Authorization.{McpHistoryDirection, McpHistoryAction}
use norves_editor.Mcp.Authorization.Scope.{
  SceneNode, SceneNodes, McpScopeBudget, McpSceneScopeIndex, ObjectSnapshot, contains, id_of,
  unwrap_or, from_result, record_component_snapshot,
}
use norves_editor.Mcp.Authorization.Checks.{
  check_object, check_parent, check_delete_subtree, check_history, parent_of,
}
use norves_editor.Mcp.Authorization.Capabilities.{history_required_capabilities, needs}
use norves_editor.Mcp.Authorization.Capabilities.Sorted.{
  IsAscending, history_required_capabilities_lem,
}
use norves_editor.Mcp.Authorization.Forest.{IsPart, count, size}
use norves_editor.Mcp.Authorization.Subtree.{from_result_accepts}
use norves_editor.Mcp.Authorization.Reach.{Reach, from_result-allowed_iff}
use norves_editor.Mcp.Authorization.Deletion.{check_delete_subtree-eq, check_delete_subtree_covers}
use norves_editor.Mcp.Authorization.Targets.{AreCovered, made_by, placed_by, targets}
use norves_editor.Mcp.Authorization.Replays.{check_history-AreCovered}
use norves_editor.Mcp.Authorization.Owners.{gather, IsOwned, gather-from_result-IsOwned}

abbrev leaf : String → SceneNode
leaf id = SceneNode.node id SceneNodes.nil

-- A scene with a house, which has a door, and a tree beside it.
abbrev house : SceneNode
house = SceneNode.node "house" (SceneNodes.cons (leaf "door") SceneNodes.nil)

abbrev scene : SceneNode
scene =
    SceneNode.node "scene" (SceneNodes.cons house (SceneNodes.cons (leaf "tree") SceneNodes.nil))

abbrev budget : ℕ → McpScopeBudget
budget n = record { nodes = n; snapshots = 0; bytes = 100 }

abbrev index : McpSceneScopeIndex
index = record {
  root_id = "house";
  scene_root_id = "scene";
  nodes =
      ("tree", record { parent = some "scene"; children = [] })
      ∷ ("door", record { parent = some "house"; children = [] })
      ∷ ("house", record { parent = some "scene"; children = "door" ∷ [] })
      ∷ ("scene", record { parent = none; children = "house" ∷ "tree" ∷ [] })
      ∷ [];
  allowed = "door" ∷ "house" ∷ [];
  component_owners = [];
}

builds : from_result (some scene) (some "house") (budget 0) ≡ ok (index, budget 4)
unfolding from_result Dict.get Dict.insert any
builds = refl

from_result-allowed_iff_example :
    (root top : SceneNode) × (some scene ≡ some root)
    × IsPart top root
    × (id_of top ≡ unwrap_or (some "house") (id_of root))
    × ((k : String) → (contains k index.allowed ≡ true) ↔ (1 ≤ count k top))
from_result-allowed_iff_example =
    from_result-allowed_iff (some scene) (some "house") (budget 0) (budget 4) index builds

once : (k : String) → count k house ≤ 1
unfolding count
once k = elim (Bool-cases ("house" == k)) [
  | inl same ↦ subst (λ k. count k house ≤ 1) ((eq_iff "house" k).0 same) (omega arith)
  | inr other ↦ ground arith
]

from_result_accepts_example :
    (index : McpSceneScopeIndex) × (from_result (some house) (some "door") (budget 0)
      ≡ ok (index, budget 2))
unfolding size count
from_result_accepts_example =
    from_result_accepts house (some "door") (budget 0) once (omega arith) (omega arith)

abbrev owned : McpSceneScopeIndex
owned = record index { component_owners = ("mesh", "door") ∷ [] }

check_delete_subtree-eq_example :
    check_delete_subtree owned "door"
    ≡ (check_object owned "door" >> check_parent owned (some "house"))
unfolding Dict.get
check_delete_subtree-eq_example =
    check_delete_subtree-eq (some scene) (some "house") (budget 0) (budget 4) index owned
      (("mesh", "door") ∷ []) "door" builds refl

deletes_door : check_delete_subtree owned "door" ≡ ok tt
unfolding check_delete_subtree Dict.get any
deletes_door = refl

check_delete_subtree_covers_example : contains "door" owned.allowed ≡ true
check_delete_subtree_covers_example =
    check_delete_subtree_covers (some scene) (some "house") (budget 0) (budget 4) index owned
      (("mesh", "door") ∷ []) "door" builds refl "door" deletes_door Reach.here

-- Making a window in the house again, and a copy of it.
abbrev makes_window : HistoryRecord ℕ
makes_window = HistoryRecord.create "window" (some "house") none

abbrev copies_window : HistoryRecord ℕ
copies_window = HistoryRecord.duplicate "window" "pane" none

abbrev replay : McpHistoryAction ℕ
replay = record {
  direction = McpHistoryDirection.redo;
  head_id = 1;
  revision = 2;
  group_name = "windows";
  source = EditSource.mcp;
  records = makes_window ∷ copies_window ∷ [];
}

replays : check_history index replay ≡ ok tt
unfolding check_history Dict.get Dict.insert any
replays = refl

check_history-AreCovered_example :
    AreCovered index (made_by replay.direction (makes_window ∷ []) []) (
      targets index replay.direction
        (placed_by index replay.direction (makes_window ∷ []) (parent_of index))
        copies_window)
check_history-AreCovered_example =
    check_history-AreCovered (some scene) (some "house") (budget 0) (budget 4) index index [] replay
      (makes_window ∷ []) [] copies_window builds refl refl replays

abbrev mesh : ObjectSnapshot
mesh = record { object_id = "door"; components = some ("mesh" ∷ []) }

gathers : gather index (("door", mesh) ∷ []) ≡ ok owned
unfolding gather record_component_snapshot Dict.get Dict.insert any
gathers = refl

gather-from_result-IsOwned_example : IsOwned owned
gather-from_result-IsOwned_example =
    gather-from_result-IsOwned (some scene) (some "house") (budget 0) (budget 4) index owned
      (("door", mesh) ∷ []) builds gathers

history_required_capabilities_lem_example :
    IsAscending (history_required_capabilities replay)
    × ((c : String)
        → contains c (history_required_capabilities replay)
          ≡ ("scene.query" == c || any (needs c) replay.records))
history_required_capabilities_lem_example = history_required_capabilities_lem replay
