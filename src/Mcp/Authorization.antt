-- ===== src/Mcp/Authorization.antt =====
-- What an MCP client may write: apps/editor/src-tauri/src/mcp/authorization.rs, the settings, the
-- operations and what they require, and the errors. The checks of the scope are in Scope.
pub mod Scope
pub mod Checks
pub mod Forest
pub mod Walks
pub mod Subtree
pub mod Reach
pub mod Deletion
pub mod Targets
pub mod Covered
pub mod Replays
pub mod Owners
pub mod Capabilities
pub mod Comparison
use norves_editor.Common.{
  ℕ, zero, suc, ◌+◌, ◌<◌, Bool, true, false, not, ◌&&◌, ◌||◌, String, Option, none, some, List, [],
  ◌∷◌, ◌≡◌, any, if◌then◌else◌, ltb, leb, nat_beq, ◌==◌, string_eq, arith, ◌++◌,
}
use Prim.Native.Char.{code}
use Prim.Native.Nat.{Ordering}
use Prim.Native.String.{len, compare}
use norves_editor.Common.Results.{Result, ok, err, ◌>>=◌, ok_or, refuse_if}
use norves_editor.History.Types.{EditSource, HistoryRecord, HistoryDirection}

-- `McpWriteMode` of mcp.rs.
pub data McpWriteMode : Type 0 where
  read_only enabled confirm : McpWriteMode

pub record McpWriteSettings : Type 0 where
  pub mode : McpWriteMode
  pub scene_root_id : Option String

pub data ScopeError : Type 0 where
  invalid_scope_root invalid_write_request unsupported_write read_only : ScopeError
  confirmation_required authorization_revoked scope_root_unknown object_unknown : ScopeError
  object_outside_scope component_membership_unknown component_outside_scope : ScopeError
  tree_malformed duplicate_object_id limit_exceeded deadline_exceeded : ScopeError
  history_unavailable : ScopeError

-- `Result<(), ScopeError>`
abbrev pub Checked : Type 0
Checked = Result ScopeError (Unit {0})

abbrev pub max_scope_root_id_bytes : ℕ
max_scope_root_id_bytes = 256

-- `id.contains('\0')`
abbrev pub contains_nul : String → Bool
contains_nul String.[] = false
contains_nul (String.◌∷◌ c s) = nat_beq (code c) 0 || contains_nul s

abbrev pub is_bad_root : String → Bool
is_bad_root id = id == "" || (ltb max_scope_root_id_bytes (len id) || contains_nul id)

unfoldable pub validate : McpWriteSettings → Checked
validate settings = elim settings.scene_root_id [
  | none ↦ ok tt
  | some id ↦ refuse_if (is_bad_root id) ScopeError.invalid_scope_root
]

pub data McpHistoryDirection : Type 0 where
  undo redo : McpHistoryDirection

-- `HistoryDirection::from`
abbrev pub history_direction : McpHistoryDirection → HistoryDirection
history_direction McpHistoryDirection.undo = HistoryDirection.undo
history_direction McpHistoryDirection.redo = HistoryDirection.redo

pub record McpHistoryAction (V : Type 0) : Type 0 where
  pub direction : McpHistoryDirection
  pub head_id : ℕ
  pub revision : ℕ
  pub group_name : String
  pub source : EditSource
  pub records : List (HistoryRecord V)

abbrev pub is_redo : McpHistoryDirection → Bool
is_redo McpHistoryDirection.undo = false
is_redo McpHistoryDirection.redo = true

module _ {V : Type 0} where
  -- Whether redoing the record makes an object of this identifier.
  abbrev pub recreates : String → HistoryRecord V → Bool
  recreates object_id (HistoryRecord.create created_id _ _) = created_id == object_id
  recreates object_id (HistoryRecord.duplicate _ created_id _) = created_id == object_id
  recreates object_id _ = false

  -- `records.iter().take(position)`
  abbrev pub first : ℕ → List (HistoryRecord V) → List (HistoryRecord V)
  first zero rs = []
  first (suc n) [] = []
  first (suc n) (r ∷ rs) = r ∷ first n rs

  unfoldable pub recreates_before : McpHistoryAction V → ℕ → String → Bool
  recreates_before action position object_id =
      is_redo action.direction && any (recreates object_id) (first position action.records)

pub data McpWriteOperation (V : Type 0) : Type 0 where
  property : (object_id : String) → McpWriteOperation V
  create : (parent_id : Option String) → McpWriteOperation V
  duplicate : (object_id : String) → (new_parent_id : Option String) → McpWriteOperation V
  reparent : (object_id : String) → (new_parent_id : Option String) → McpWriteOperation V
  delete : (object_id : String) → McpWriteOperation V
  component_add : (object_id : String) → McpWriteOperation V
  component_remove : (component_id : String) → McpWriteOperation V
  runtime_control : McpWriteOperation V
  history : McpHistoryAction V → McpWriteOperation V

-- What `from_bridge_method` reads of a `serde_json::Value`: `O` is the type of JSON objects.
pub record Params (V O : Type 0) : Type 0 where
  pub as_object : V → Option O
  pub get : O → String → Option V
  pub is_empty : O → Bool
  pub as_str : V → Option String

-- `Option::filter` with a text that is not empty.
abbrev pub non_empty : Option String → Option String
non_empty none = none
non_empty (some value) = if value == "" then none else some value

abbrev pub if_string : Option String → Result ScopeError (Option String)
if_string (some value) = ok (some value)
if_string none = err ScopeError.invalid_write_request

module _ {V O : Type 0} (p : Params V O) where
  -- `object.get(key).and_then(Value::as_str)`
  abbrev pub text_at : O → String → Option String
  text_at object key = elim (p.get object key) [ none ↦ none | some v ↦ p.as_str v ]

  abbrev pub required_id : O → String → Result ScopeError String
  required_id object key = ok_or (non_empty (text_at object key)) ScopeError.invalid_write_request

  abbrev pub optional_id : O → String → Result ScopeError (Option String)
  optional_id object key = elim (p.get object key) [
    | none ↦ ok none
    | some v ↦ if_string (non_empty (p.as_str v))
  ]

  abbrev pub is_runtime : String → Bool
  is_runtime method =
      method == "runtime.play" || (method == "runtime.pause" || method == "runtime.stop")

  unfoldable pub from_object : String → O → Result ScopeError (McpWriteOperation V)
  from_object method object =
      if method == "object.setProperty"
      then (do id ← required_id object "objectId"; ok (McpWriteOperation.property id))
      else if method == "scene.createObject"
      then (do parent ← optional_id object "parentId"; ok (McpWriteOperation.create parent))
      else if method == "scene.duplicateObject"
      then (do
        id ← required_id object "objectId"
        parent ← optional_id object "newParentId"
        ok (McpWriteOperation.duplicate id parent))
      else if method == "scene.reparentObject"
      then (do
        id ← required_id object "objectId"
        parent ← optional_id object "newParentId"
        ok (McpWriteOperation.reparent id parent))
      else if method == "scene.deleteObject"
      then (do id ← required_id object "objectId"; ok (McpWriteOperation.delete id))
      else if method == "component.add"
      then (do id ← required_id object "objectId"; ok (McpWriteOperation.component_add id))
      else if method == "component.remove"
      then (do id ← required_id object "objectId"; ok (McpWriteOperation.component_remove id))
      else if is_runtime method && p.is_empty object
      then ok McpWriteOperation.runtime_control
      else err ScopeError.unsupported_write

  unfoldable pub from_bridge_method : String → V → Result ScopeError (McpWriteOperation V)
  unfolding from_object
  from_bridge_method method params = do
    object ← ok_or (p.as_object params) ScopeError.invalid_write_request
    from_object method object
