-- ===== src/Mcp/Authorization/Capabilities.antt =====
-- What the engine must be able to do, and what the user must confirm, for an operation:
-- apps/editor/src-tauri/src/mcp/authorization.rs.
pub mod Sorted
use norves_editor.Common.{
  ◌≡◌, ◌∙◌, inl, inr, refl, ap, Bool, true, false, String, List, [], ◌∷◌, ◌++◌, arith, any,
  if◌then◌else◌, ◌==◌, string_eq, eq_iff, ◌||◌, Bool-cases,
}
use Prim.Native.Nat.{Ordering}
use Prim.Native.String.{compare}
use norves_editor.History.Types.{HistoryRecord}
use norves_editor.Mcp.Authorization.{McpHistoryDirection, McpHistoryAction, McpWriteOperation}
use norves_editor.Mcp.Authorization.Scope.{contains}

-- `sort_unstable`, by insertion.
unfoldable pub insert_sorted : String → List String → List String
insert_sorted x [] = x ∷ []
insert_sorted x (y ∷ ys) =
    let rest = insert_sorted x ys in elim (compare x y) [ Ordering.gt ↦ y ∷ rest | _ ↦ x ∷ y ∷ ys ]

unfoldable pub sort : List String → List String
unfolding insert_sorted
sort [] = []
sort (x ∷ xs) = insert_sorted x (sort xs)

-- `dedup`, on what stands before the list.
unfoldable pub dedup_after : String → List String → List String
dedup_after x [] = x ∷ []
dedup_after x (y ∷ ys) = let rest = dedup_after y ys in if x == y then rest else x ∷ rest

unfoldable pub dedup : List String → List String
unfolding dedup_after
dedup [] = []
dedup (x ∷ xs) = dedup_after x xs

module _ {V : Type 0} where
  -- What one turn of the loop pushes.
  abbrev pub pushed : HistoryRecord V → List String
  pushed (HistoryRecord.create _ _ _) = "scene.edit" ∷ []
  pushed (HistoryRecord.duplicate _ _ _) = "scene.edit" ∷ []
  pushed (HistoryRecord.reparent _ _ _) = "scene.edit" ∷ []
  pushed (HistoryRecord.set_property _ _ _ _) = "object.edit" ∷ "object.query" ∷ []

  abbrev pub push_all : List (HistoryRecord V) → List String
  push_all [] = []
  push_all (r ∷ rs) = pushed r ++ push_all rs

  unfoldable pub history_required_capabilities : McpHistoryAction V → List String
  unfolding sort dedup
  history_required_capabilities action = dedup (sort ("scene.query" ∷ push_all action.records))

  unfoldable pub required_capabilities : McpWriteOperation V → List String
  unfolding history_required_capabilities
  required_capabilities (McpWriteOperation.property _) =
      "object.edit" ∷ "object.query" ∷ "scene.query" ∷ []
  required_capabilities (McpWriteOperation.create _) = "scene.edit" ∷ "scene.query" ∷ []
  required_capabilities (McpWriteOperation.duplicate _ _) = "scene.edit" ∷ "scene.query" ∷ []
  required_capabilities (McpWriteOperation.reparent _ _) = "scene.edit" ∷ "scene.query" ∷ []
  required_capabilities (McpWriteOperation.delete _) = "scene.edit" ∷ "scene.query" ∷ []
  required_capabilities (McpWriteOperation.component_add _) =
      "component.edit" ∷ "object.query" ∷ "scene.query" ∷ []
  required_capabilities (McpWriteOperation.component_remove _) =
      "component.edit" ∷ "object.query" ∷ "scene.query" ∷ []
  required_capabilities McpWriteOperation.runtime_control = "runtime.control" ∷ []
  required_capabilities (McpWriteOperation.history action) = history_required_capabilities action

  -- Whether undoing or redoing the record deletes an object.
  abbrev pub deletes : McpHistoryDirection → HistoryRecord V → Bool
  deletes McpHistoryDirection.undo (HistoryRecord.create _ _ _) = true
  deletes McpHistoryDirection.undo (HistoryRecord.duplicate _ _ _) = true
  deletes _ _ = false

  unfoldable pub requires_confirmation : McpWriteOperation V → Bool
  requires_confirmation (McpWriteOperation.delete _) = true
  requires_confirmation (McpWriteOperation.component_remove _) = true
  requires_confirmation (McpWriteOperation.history action) =
      any (deletes action.direction) action.records
  requires_confirmation _ = false

  -- A capability that a record of the history is replayed with.
  abbrev pub edits_scene : HistoryRecord V → Bool
  edits_scene (HistoryRecord.set_property _ _ _ _) = false
  edits_scene _ = true

  abbrev pub needs : String → HistoryRecord V → Bool
  needs c r =
      if edits_scene r then "scene.edit" == c else ("object.edit" == c || "object.query" == c)

contains-insert_sorted :
    (c x : String) (xs : List String) → contains c (insert_sorted x xs) ≡ (x == c || contains c xs)
unfolding insert_sorted any
contains-insert_sorted c x [] = refl
contains-insert_sorted c x (y ∷ ys) = ground (arith, contains-insert_sorted c x ys)

contains-sort : (c : String) (xs : List String) → contains c (sort xs) ≡ contains c xs
unfolding sort any
contains-sort c [] = refl
contains-sort c (x ∷ xs) =
    contains-insert_sorted c x (sort xs) ∙ ap (λ t. x == c || t) (contains-sort c xs)

contains-dedup_after :
    (c x : String) (xs : List String) → contains c (dedup_after x xs) ≡ (x == c || contains c xs)
unfolding dedup_after any
contains-dedup_after c x [] = refl
contains-dedup_after c x (y ∷ ys) = elim (Bool-cases (x == y)) [
  | inl same ↦ ground (arith, contains-dedup_after c y ys, eq_iff x y)
  | inr other ↦ ground (arith, contains-dedup_after c y ys)
]

contains-dedup : (c : String) (xs : List String) → contains c (dedup xs) ≡ contains c xs
unfolding dedup any
contains-dedup c [] = refl
contains-dedup c (x ∷ xs) = contains-dedup_after c x xs

module _ {V : Type 0} where
  contains-push_all :
      (c : String) (rs : List (HistoryRecord V)) → contains c (push_all rs) ≡ any (needs c) rs
  unfolding any
  contains-push_all c [] = refl
  contains-push_all c (HistoryRecord.set_property id p v w ∷ rs) =
      ground (arith, contains-push_all c rs)
  contains-push_all c (HistoryRecord.create _ _ _ ∷ rs) = ground (arith, contains-push_all c rs)
  contains-push_all c (HistoryRecord.duplicate _ _ _ ∷ rs) = ground (arith, contains-push_all c rs)
  contains-push_all c (HistoryRecord.reparent _ _ _ ∷ rs) = ground (arith, contains-push_all c rs)

  pub contains-history_required_capabilities :
      (action : McpHistoryAction V) (c : String)
      → contains c (history_required_capabilities action)
        ≡ ("scene.query" == c || any (needs c) action.records)
  unfolding history_required_capabilities any
  contains-history_required_capabilities action c =
      contains-dedup c (sort ("scene.query" ∷ push_all action.records))
      ∙ contains-sort c ("scene.query" ∷ push_all action.records)
      ∙ ap (λ t. "scene.query" == c || t) (contains-push_all c action.records)
