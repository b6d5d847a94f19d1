-- ===== src/Mcp/Authorization/Scope.antt =====
-- The scope of an MCP client: `McpScopeBudget`, `McpSceneScopeIndex` and its checks, of
-- apps/editor/src-tauri/src/mcp/authorization.rs. The tree is what `parse_scene_tree_result` of
-- bridge/crates/norves-bridge-editor-client/src/scene.rs gives. Of a list that stands for a stack
-- the head is its top.
use norves_editor.Common.{
  ℕ, zero, suc, ◌+◌, Bool, true, false, not, ◌&&◌, ◌||◌, String, Option, none, some, List, [], ◌∷◌,
  ◌++◌, map, reverse, length, any, if◌then◌else◌, ltb, leb, ◌==◌, string_eq, option_eq,
  saturating_add,
}
use norves_editor.Common.Dict
use norves_editor.Common.Dict.{Dict}
use norves_editor.Common.Results.{Result, ok, err, ◌>>=◌, ◌>>◌, ok_or, refuse_if}
use norves_editor.Mcp.Authorization.{ScopeError}

abbrev pub max_scope_nodes : ℕ
max_scope_nodes = 2000

abbrev pub max_scope_snapshots : ℕ
max_scope_snapshots = 200

-- 2 MiB
abbrev pub max_scope_bytes : ℕ
max_scope_bytes = 2097152

pub record McpScopeBudget : Type 0 where
  pub nodes : ℕ
  pub snapshots : ℕ
  pub bytes : ℕ

-- A refused call leaves its budget behind; the callers stop there.
unfoldable pub new : ℕ → Result ScopeError McpScopeBudget
new tree_bytes = do
  refuse_if (ltb max_scope_bytes tree_bytes) ScopeError.limit_exceeded
  ok (record { nodes = 0; snapshots = 0; bytes = tree_bytes })

unfoldable pub add_nodes : McpScopeBudget → ℕ → Result ScopeError McpScopeBudget
add_nodes b count =
    let nodes' = saturating_add b.nodes count in
    if ltb max_scope_nodes nodes'
    then err ScopeError.limit_exceeded
    else ok (record b { nodes = nodes' })

unfoldable pub begin_snapshot : McpScopeBudget → Result ScopeError McpScopeBudget
begin_snapshot b =
    if leb max_scope_snapshots b.snapshots
    then err ScopeError.limit_exceeded
    else ok (record b { snapshots = b.snapshots + 1 })

unfoldable pub add_bytes : McpScopeBudget → ℕ → Result ScopeError McpScopeBudget
add_bytes b size =
    let bytes' = saturating_add b.bytes size in
    if ltb max_scope_bytes bytes'
    then err ScopeError.limit_exceeded
    else ok (record b { bytes = bytes' })

-- `SceneNode` of scene.rs, without the name and the kind, which are not read here.
mutual
  pub data SceneNode : Type 0 where
    node : (id : String) → (children : SceneNodes) → SceneNode

  pub data SceneNodes : Type 0 where
    nil : SceneNodes
    cons : SceneNode → SceneNodes → SceneNodes

abbrev pub id_of : SceneNode → String
id_of (SceneNode.node id children) = id

abbrev pub list_of : SceneNodes → List SceneNode
list_of SceneNodes.nil = []
list_of (SceneNodes.cons x xs) = x ∷ list_of xs

abbrev pub children_of : SceneNode → List SceneNode
children_of (SceneNode.node id children) = list_of children

pub record SceneNodeMeta : Type 0 where
  pub parent : Option String
  pub children : List String

pub record McpSceneScopeIndex : Type 0 where
  pub root_id : String
  pub scene_root_id : String
  pub nodes : Dict String SceneNodeMeta
  pub allowed : List String
  pub component_owners : Dict String String

abbrev pub contains : String → List String → Bool
contains id = any (λ x. x == id)

abbrev pub has_key {ℓ} : {V : Type ℓ} → String → Dict String V → Bool
has_key k m = elim (Dict.get k m) [ none ↦ false | some v ↦ true ]

-- The children as `(child, Some(node.id))`.
abbrev pub under : String → List SceneNode → List (SceneNode × Option String)
under id = map (λ child. (child, some id))

abbrev pub meta_of : SceneNode → Option String → SceneNodeMeta
meta_of x parent = record { parent = parent; children = map id_of (children_of x) }

-- The first loop of `from_result`: the nodes and the budget that it leaves. A turn counts one node,
-- so with one turn more than the limit has nodes the fuel never ends before the budget does.
unfoldable pub index_nodes :
    ℕ
    → List (SceneNode × Option String)
    → Dict String SceneNodeMeta
    → McpScopeBudget
    → Result ScopeError (Dict String SceneNodeMeta × McpScopeBudget)
unfolding add_nodes
index_nodes fuel [] nodes b = ok (nodes, b)
index_nodes zero (top ∷ pending) nodes b = err ScopeError.limit_exceeded
index_nodes (suc fuel) ((x, parent) ∷ pending) nodes b = do
  b' ← add_nodes b 1
  refuse_if (has_key (id_of x) nodes) ScopeError.duplicate_object_id
  index_nodes fuel (under (id_of x) (children_of x) ++ pending)
      (Dict.insert (id_of x) (meta_of x parent) nodes) b'

-- The second loop of `from_result`: the identifiers below the root of the scope. A turn takes one
-- node that was not taken before.
unfoldable pub index_allowed :
    ℕ → Dict String SceneNodeMeta → List String → List String → Result ScopeError (List String)
index_allowed fuel nodes [] allowed = ok allowed
index_allowed zero nodes (id ∷ descendants) allowed = err ScopeError.duplicate_object_id
index_allowed (suc fuel) nodes (id ∷ descendants) allowed = do
  refuse_if (contains id allowed) ScopeError.duplicate_object_id
  meta ← ok_or (Dict.get id nodes) ScopeError.tree_malformed
  index_allowed fuel nodes (reverse meta.children ++ descendants) (id ∷ allowed)

abbrev pub unwrap_or : Option String → String → String
unwrap_or (some id) other = id
unwrap_or none other = other

-- `from_result`, after `parse_scene_tree_result`.
unfoldable pub from_result :
    Option SceneNode
    → Option String
    → McpScopeBudget
    → Result ScopeError (McpSceneScopeIndex × McpScopeBudget)
unfolding index_nodes index_allowed
from_result tree scope b = do
  root ← ok_or tree ScopeError.tree_malformed
  walked ← index_nodes (suc max_scope_nodes) ((root, none) ∷ []) [] b
  let root_id = unwrap_or scope (id_of root)
  refuse_if (not (has_key root_id walked.0)) ScopeError.scope_root_unknown
  allowed ← index_allowed (suc (length walked.0)) walked.0 (root_id ∷ []) []
  ok (
    record {
      root_id = root_id;
      scene_root_id = id_of root;
      nodes = walked.0;
      allowed = allowed;
      component_owners = [];
    },
    walked.1,
  )

-- `ObjectSnapshot` of object.rs, the fields that are read here: the components by identifier.
pub record ObjectSnapshot : Type 0 where
  pub object_id : String
  pub components : Option (List String)

-- The first loop of `record_component_snapshot`: whether every component is new.
unfoldable pub are_new : McpSceneScopeIndex → List String → List String → Bool
are_new index [] snapshot_ids = true
are_new index (id ∷ ids) snapshot_ids =
    let rest = are_new index ids (id ∷ snapshot_ids) in
    not (has_key id index.nodes || (has_key id index.component_owners || contains id snapshot_ids))
    && rest

unfoldable pub own : String → List String → Dict String String → Dict String String
own owner [] owners = owners
own owner (id ∷ ids) owners = own owner ids (Dict.insert id owner owners)

unfoldable pub record_component_snapshot :
    McpSceneScopeIndex → String → ObjectSnapshot → Result ScopeError McpSceneScopeIndex
unfolding are_new own
record_component_snapshot index expected_owner snapshot = do
  refuse_if (not (snapshot.object_id == expected_owner) || not (has_key expected_owner index.nodes))
      ScopeError.component_membership_unknown
  components ← ok_or snapshot.components ScopeError.component_membership_unknown
  refuse_if (not (are_new index components [])) ScopeError.component_membership_unknown
  ok (record index { component_owners = own expected_owner components index.component_owners })
