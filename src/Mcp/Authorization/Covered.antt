-- ===== src/Mcp/Authorization/Covered.antt =====
-- What the checks of one record let pass is covered.
use norves_editor.Common.{
  ◌≡◌, ◌∙◌, inl, inr, refl, sym, ap, subst, true, String, Option, none, some, List, [], ◌∷◌, arith,
  any, string_eq, Bool-cases, Option-cases,
}
use norves_editor.Common.Dict
use norves_editor.Common.Dict.{Dict, get-insert}
use norves_editor.Common.Results.{ok, Result-cases, ok_injective}
use norves_editor.Mcp.Authorization.Scope.{McpSceneScopeIndex, contains, has_key, unwrap_or}
use norves_editor.Mcp.Authorization.Reach.{Reach}
use norves_editor.Mcp.Authorization.Checks.{
  is_full_scene, check_object, check_component, check_object_or_component, check_parent,
  check_delete_subtree, parent_of, set_parent,
}
use norves_editor.Mcp.Authorization.Targets.{
  Target, Places, place, inside, Covers, AreCovered, Projects, check_object-allowed, Recreated,
  parent_of-moved,
}

module _ (index : McpSceneScopeIndex) (made : List String) (places : Places)
    (p : McpSceneScopeIndex) (j : Projects index made places p) where
  pub object_covered : (id : String) → check_object p id ≡ ok tt → inside index made id ≡ true
  object_covered id h = sym (j.allowed id) ∙ check_object-allowed p id h

  pub parent_covered :
      (id : Option String) → check_parent p id ≡ ok tt → Covers index made (Target.parent_target id)
  unfolding check_parent
  parent_covered none h = ground (arith, j.full)
  parent_covered (some id) h = object_covered id h

  pub component_covered :
      (id : String) → check_component p id ≡ ok tt → Covers index made (Target.holder_target id)
  unfolding check_component
  component_covered id h = elim (Option-cases (Dict.get id index.component_owners)) [
    | inl e ↦ cc (rw (j.owners, e, check_component) at h)
    | inr (owner, e) ↦
        rw e (ground (arith, j.allowed owner, rw (j.owners, e, check_component) at h))
  ]

  pub node_checked :
      (id : String) → has_key id p.nodes ≡ true → check_object_or_component p id ≡ check_object p id
  unfolding check_object_or_component
  node_checked id there = rw there refl

  pub holder_covered :
      (id : String)
      → check_object_or_component p id ≡ ok tt
      → Covers index made (Target.holder_target id)
  unfolding check_object_or_component
  holder_covered id h = elim (Bool-cases (has_key id p.nodes)) [
    | inl there ↦ ground (arith, object_covered id (sym (node_checked id there) ∙ h))
    | inr absent ↦ component_covered id (rw (absent, check_object_or_component) at h)
  ]

  pub Projects-add :
      (p' : McpSceneScopeIndex) (id : String) (parent : Option String)
      → Recreated p id parent p'
      → Projects index (id ∷ made) (place id (unwrap_or parent index.scene_root_id) places) p'
  unfolding any
  Projects-add p' id parent c = record {
    owners = c.owners ∙ j.owners;
    full = c.full ∙ j.full;
    allowed = λ k. ap (contains k) c.allowed ∙ ground (arith, j.allowed k);
    root = c.root ∙ j.root;
    placed = λ k.
        c.placed k
        ∙ ap (λ root. place id (unwrap_or parent root) (parent_of p) k) j.root
        ∙ ground (arith, j.placed k);
  }

  -- A new parent leaves the rest of the projected index as it is.
  pub set_parent-Projects :
      (p' : McpSceneScopeIndex) (id : String) (parent : Option String)
      → set_parent p id parent ≡ ok p'
      → Projects index made (place id (unwrap_or parent index.scene_root_id) places) p'
  unfolding set_parent is_full_scene
  set_parent-Projects p' id parent h = elim (Option-cases (Dict.get id p.nodes)) [
    | inl e ↦ cc (rw (e, set_parent) at h)
    | inr (meta, e) ↦
        subst (Projects index made (place id (unwrap_or parent index.scene_root_id) places))
          (ok_injective (rw (e, set_parent) at h))
          (record {
            owners = j.owners;
            full = j.full;
            allowed = j.allowed;
            root = j.root;
            placed = λ k.
                parent_of-moved p.nodes id p.scene_root_id parent meta k
                ∙ ap (λ root. place id (unwrap_or parent root) (parent_of p) k) j.root
                ∙ ground (arith, j.placed k);
          })
  ]

module _ (index : McpSceneScopeIndex)
    (reaches : (id : String)
      → check_delete_subtree index id ≡ ok tt
      → (k : String) → Reach index.nodes id k
      → contains k index.allowed ≡ true) where
  pub delete_passes :
      (id : String)
      → check_delete_subtree index id ≡ ok tt
      → check_parent index (parent_of index id) ≡ ok tt
  unfolding check_delete_subtree
  delete_passes id h = elim (Result-cases (check_object index id)) [
    | inr (e, refused) ↦ cc (rw (refused, check_delete_subtree) at h)
    | inl (t, accepted) ↦ elim (Result-cases (check_parent index (parent_of index id))) [
      | inr (e, refused) ↦ cc (rw (accepted, refused, check_delete_subtree) at h)
      | inl (t, passes) ↦ passes
    ]
  ]

  pub initial : Projects index [] (parent_of index) index
  unfolding any
  initial = record {
    owners = refl;
    full = refl;
    allowed = λ k. refl;
    root = refl;
    placed = λ k. refl;
  }

  pub allowed_later :
      (made : List String) (id : String) → inside index [] id ≡ true → inside index made id ≡ true
  unfolding any
  allowed_later made id h = ground arith

  pub deletion_covered :
      (made : List String) (id : String)
      → check_delete_subtree index id ≡ ok tt
      → AreCovered index made
          (Target.parent_target (parent_of index id) ∷ Target.subtree_target id ∷ [])
  deletion_covered made id h =
      (under (parent_of index id) (delete_passes id h), (λ k r. reaches id h k r, tt))
    where
      under :
          (parent : Option String)
          → check_parent index parent ≡ ok tt
          → Covers index made (Target.parent_target parent)
      under none q = parent_covered index [] (parent_of index) index initial none q
      under (some k) q =
          allowed_later made k (parent_covered index [] (parent_of index) index initial (some k) q)
