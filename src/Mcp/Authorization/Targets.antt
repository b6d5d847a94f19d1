-- ===== src/Mcp/Authorization/Targets.antt =====
-- What the undo or redo of a record touches, and the index that `check_history` projects.
use norves_editor.Common.{
  ◌≡◌, inl, inr, Bool, true, false, String, Option, none, some, List, [], ◌∷◌, ◌++◌, arith, All,
  if◌then◌else◌, string_eq, ◌==◌, eq_iff, ◌||◌, Bool-cases, Option-cases,
}
use norves_editor.Common.Dict
use norves_editor.Common.Dict.{Dict, get-insert}
use norves_editor.Common.Results.{ok}
use norves_editor.History.Types.{HistoryRecord}
use norves_editor.Mcp.Authorization.{McpHistoryDirection, is_redo}
use norves_editor.Mcp.Authorization.Scope.{SceneNodeMeta, McpSceneScopeIndex, contains, unwrap_or}
use norves_editor.Mcp.Authorization.Reach.{Reach}
use norves_editor.Mcp.Authorization.Checks.{
  is_full_scene, check_object, check_parent, parent_of, or_else, add_recreated_node,
}

-- What the engine is asked to touch: an object, a parent (`none` is the scene's root), what holds a
-- property, an object or a component, or an object with all that is below it.
pub data Target : Type 0 where
  object_target holder_target subtree_target : String → Target
  parent_target : Option String → Target

-- Where the objects stand: the parent of each one.
abbrev pub Places : Type 0
Places = String → Option String

abbrev pub place : String → String → Places → Places
place id parent places k = if id == k then some parent else places k

module _ {V : Type 0} (index : McpSceneScopeIndex) where
  -- An undo deletes what was made, from where it stands in the current tree. A redo works on the
  -- tree as the records before it leave it.
  abbrev pub targets : McpHistoryDirection → Places → HistoryRecord V → List Target
  targets McpHistoryDirection.undo places (HistoryRecord.create id p k) =
      Target.parent_target (parent_of index id) ∷ Target.subtree_target id ∷ []
  targets McpHistoryDirection.undo places (HistoryRecord.duplicate s id p) =
      Target.parent_target (parent_of index id) ∷ Target.subtree_target id ∷ []
  targets McpHistoryDirection.redo places (HistoryRecord.create id p k) =
      Target.parent_target p ∷ []
  targets McpHistoryDirection.redo places (HistoryRecord.duplicate s id p) =
      Target.object_target s ∷ Target.parent_target (or_else p (places s)) ∷ []
  targets McpHistoryDirection.undo places (HistoryRecord.reparent id old new) =
      Target.object_target id ∷ Target.parent_target old ∷ Target.parent_target new ∷ []
  targets McpHistoryDirection.redo places (HistoryRecord.reparent id old new) =
      Target.object_target id
      ∷ Target.parent_target old
      ∷ Target.parent_target new
      ∷ Target.parent_target (places id)
      ∷ []
  targets d places (HistoryRecord.set_property id p v w) = Target.holder_target id ∷ []

  -- Where a redone record puts an object; without a parent, under the scene's root.
  abbrev pub moves : HistoryRecord V → McpHistoryDirection → Places → Places
  moves r McpHistoryDirection.undo places = places
  moves (HistoryRecord.create id p k) McpHistoryDirection.redo places =
      place id (unwrap_or p index.scene_root_id) places
  moves (HistoryRecord.duplicate s id p) McpHistoryDirection.redo places =
      place id (unwrap_or (or_else p (places s)) index.scene_root_id) places
  moves (HistoryRecord.reparent id old new) McpHistoryDirection.redo places =
      place id (unwrap_or new index.scene_root_id) places
  moves (HistoryRecord.set_property id n v w) McpHistoryDirection.redo places = places

  abbrev pub placed_by : McpHistoryDirection → List (HistoryRecord V) → Places → Places
  placed_by d [] places = places
  placed_by d (r ∷ rs) places = placed_by d rs (moves r d places)

module _ {V : Type 0} where
  -- The objects that records make again, latest first, before those of `made`.
  abbrev pub makes : HistoryRecord V → McpHistoryDirection → List String → List String
  makes (HistoryRecord.create id p k) d made = if is_redo d then id ∷ made else made
  makes (HistoryRecord.duplicate s id p) d made = if is_redo d then id ∷ made else made
  makes (HistoryRecord.reparent id old new) d made = made
  makes (HistoryRecord.set_property id p v w) d made = made

  abbrev pub made_by : McpHistoryDirection → List (HistoryRecord V) → List String → List String
  made_by d [] made = made
  made_by d (r ∷ rs) made = made_by d rs (makes r d made)

abbrev pub inside : McpSceneScopeIndex → List String → String → Bool
inside index made id = contains id made || contains id index.allowed

-- Whether a target is in the scope, when the objects `made` have been made in it.
abbrev pub Covers : McpSceneScopeIndex → List String → Target → Type 0
Covers index made (Target.object_target id) = inside index made id ≡ true
Covers index made (Target.parent_target none) = is_full_scene index ≡ true
Covers index made (Target.parent_target (some id)) = inside index made id ≡ true
Covers index made (Target.holder_target id) =
    (inside index made id || elim (Dict.get id index.component_owners) [
      | none ↦ false
      | some owner ↦ inside index made owner
    ])
    ≡ true
Covers index made (Target.subtree_target id) =
    (k : String) → Reach index.nodes id k → contains k index.allowed ≡ true

abbrev pub AreCovered : McpSceneScopeIndex → List String → List Target → Type 0
AreCovered index made = All (Covers index made)

-- The projected index after the objects `made` were made, with the objects at `places`.
pub record Projects (index : McpSceneScopeIndex) (made : List String) (places : Places)
    (p : McpSceneScopeIndex) : Type 0 where
  pub owners : p.component_owners ≡ index.component_owners
  pub full : is_full_scene p ≡ is_full_scene index
  pub allowed : (k : String) → contains k p.allowed ≡ inside index made k
  pub root : p.scene_root_id ≡ index.scene_root_id
  pub placed : (k : String) → parent_of p k ≡ places k

pub check_object-allowed :
    (p : McpSceneScopeIndex) (id : String)
    → check_object p id ≡ ok tt
    → contains id p.allowed ≡ true
unfolding check_object
check_object-allowed p id h = ground arith

pub record Recreated (p : McpSceneScopeIndex) (id : String) (parent : Option String)
    (p' : McpSceneScopeIndex) : Type 0 where
  pub parent_passes : check_parent p parent ≡ ok tt
  pub owners : p'.component_owners ≡ p.component_owners
  pub full : is_full_scene p' ≡ is_full_scene p
  pub allowed : p'.allowed ≡ id ∷ p.allowed
  pub root : p'.scene_root_id ≡ p.scene_root_id
  pub placed :
      (k : String) → parent_of p' k ≡ place id (unwrap_or parent p.scene_root_id) (parent_of p) k

-- A node that gets another child, and a new node under it.
pub parent_of-insert :
    (nodes : Dict String SceneNodeMeta) (id parent_id : String) (meta : SceneNodeMeta)
    (children : List String) (k : String)
    → Dict.get parent_id nodes ≡ some meta
    → (elim (Dict.get k (
        Dict.insert id
          (record { parent = some parent_id; children = [] })
          (Dict.insert parent_id (record meta { children = children }) nodes))) [
            | none ↦ none
            | some m ↦ m.parent
          ])
      ≡ place id parent_id (λ k. elim (Dict.get k nodes) [ none ↦ none | some m ↦ m.parent ]) k
parent_of-insert nodes id parent_id meta children k e = elim (Bool-cases (parent_id == k)) [
  | inl same ↦ ground (
    arith,
    eq_iff parent_id k,
    get-insert k id (record { parent = some parent_id; children = [] })
        (Dict.insert parent_id (record meta { children = children }) nodes),
    get-insert k parent_id (record meta { children = children }) nodes,
  )
  | inr other ↦ ground (
    arith,
    get-insert k id (record { parent = some parent_id; children = [] })
        (Dict.insert parent_id (record meta { children = children }) nodes),
    get-insert k parent_id (record meta { children = children }) nodes,
  )
]

-- A node that gets another parent.
pub parent_of-moved :
    (nodes : Dict String SceneNodeMeta) (id root : String) (parent : Option String)
    (meta : SceneNodeMeta) (k : String)
    → (elim (Dict.get k
        (Dict.insert id (record meta { parent = or_else parent (some root) }) nodes)) [
          | none ↦ none
          | some m ↦ m.parent
        ])
      ≡ place id
          (unwrap_or parent root)
          (λ k. elim (Dict.get k nodes) [ none ↦ none | some m ↦ m.parent ])
          k
parent_of-moved nodes id root none meta k =
    ground (arith, get-insert k id (record meta { parent = some root }) nodes)
parent_of-moved nodes id root (some q) meta k =
    ground (arith, get-insert k id (record meta { parent = some q }) nodes)

pub add_recreated_node-placed :
    (p p' : McpSceneScopeIndex) (id : String) (parent : Option String)
    → add_recreated_node p id parent ≡ ok p'
    → (k : String) → parent_of p' k ≡ place id (unwrap_or parent p.scene_root_id) (parent_of p) k
unfolding add_recreated_node
add_recreated_node-placed p p' id parent h k =
    let parent_id = unwrap_or parent p.scene_root_id in
    elim (Option-cases (Dict.get parent_id p.nodes)) [
      | inl absent ↦ ground arith
      | inr (meta, there) ↦
          let built : p'.nodes
              ≡ Dict.insert id (record { parent = some parent_id; children = [] })
                  (Dict.insert parent_id (record meta { children = meta.children ++ id ∷ [] })
                    p.nodes) =
            ground arith in
          rw built (parent_of-insert p.nodes id parent_id meta (meta.children ++ id ∷ []) k there)
    ]

pub add_recreated_node-Recreated :
    (p p' : McpSceneScopeIndex) (id : String) (parent : Option String)
    → add_recreated_node p id parent ≡ ok p'
    → Recreated p id parent p'
unfolding add_recreated_node is_full_scene
add_recreated_node-Recreated p p' id parent h = record {
  parent_passes = ground arith;
  owners = ground arith;
  full = ground arith;
  allowed = ground arith;
  root = ground arith;
  placed = add_recreated_node-placed p p' id parent h;
}
