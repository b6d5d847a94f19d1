-- ===== src/Mcp/Authorization/Deletion.antt =====
-- `check_delete_subtree` on an index of a tree: what decides it, and what it covers.
use norves_editor.Common.{
  ℕ, zero, suc, ◌+◌, ◌≡◌, ◌≤◌, ◌∙◌, inl, inr, refl, sym, ap, subst, Bool, true, String, Option,
  some, List, [], ◌∷◌, ◌++◌, map, reverse, arith, length, ◌==◌, string_eq, beq_refl,
}
use norves_editor.Common.Dict
use norves_editor.Common.Dict.{Dict}
use norves_editor.Common.Results.{ok, ◌>>◌, Result-cases}
use norves_editor.Mcp.Authorization.Scope.{
  SceneNode, SceneNodeMeta, McpScopeBudget, McpSceneScopeIndex, id_of, contains, from_result,
}
use norves_editor.Mcp.Authorization.Checks.{
  check_object, check_parent, check_below, check_delete_subtree, parent_of,
}
use norves_editor.Mcp.Authorization.Forest.{
  count_if, count, size, IsHeld, counts, sizes, Held, Within, find,
}
use norves_editor.Mcp.Authorization.Walks.{
  taken, descend, map-descend, counts-descend, sizes-descend, descend-Held,
}
use norves_editor.Mcp.Authorization.Subtree.{IsIndexed, from_result-IsIndexed}
use norves_editor.Mcp.Authorization.Reach.{Reach, Reach_iff, taken_iff}

check_below-next :
    (fuel : ℕ) (index : McpSceneScopeIndex) (id : String) (ids : List String) (m : SceneNodeMeta)
    → contains id index.allowed ≡ true
    → Dict.get id index.nodes ≡ some m
    → check_below (suc fuel) index (id ∷ ids) ≡ check_below fuel index (reverse m.children ++ ids)
unfolding check_below
check_below-next fuel index id ids m there e = rw (there, e) refl

-- The walk passes where all that it takes is allowed, with a turn for each node.
check_below_passes :
    (fuel : ℕ) (index : McpSceneScopeIndex) (xs : List SceneNode)
    → Held index.nodes xs
    → ((k : String) → counts k xs ≤ taken k index.allowed)
    → sizes xs ≤ fuel
    → check_below fuel index (map id_of xs) ≡ ok tt
unfolding check_below count size IsHeld
check_below_passes fuel index [] held inside l = ground arith
check_below_passes zero index (SceneNode.node id cs ∷ xs) held inside l = absurd (omega arith)
check_below_passes (suc fuel) index (SceneNode.node id cs ∷ xs) held inside l =
    let there = allowed_here (contains id index.allowed) id _ _ (inside id) in
    check_below-next fuel index id (map id_of xs) _ there held.0.0.1
    ∙ ap (check_below fuel index) (sym (map-descend cs xs))
    ∙ check_below_passes fuel index (descend cs xs) (descend-Held index.nodes cs xs held.0.1 held.1)
        (λ k. omega (arith, inside k, counts-descend k cs xs)) (omega (arith, sizes-descend cs xs))
  where
    allowed_here :
        (t : Bool) (id : String) (m n : ℕ) → (count_if (id == id) + m) + n ≤ count_if t → t ≡ true
    allowed_here t id m n h = ground (arith, beq_refl id)

module _ (index : McpSceneScopeIndex) (i : IsIndexed index) (id : String) where
  -- The part of the tree below an allowed identifier.
  below_allowed :
      contains id index.allowed ≡ true → (y : SceneNode) × (id_of y ≡ id) × Within i.top y
  below_allowed h =
      find id i.top (subst (λ n. 1 ≤ n) (i.chosen id) ((taken_iff id index.allowed).1 h))

  allowed_object : check_object index id ≡ ok tt → contains id index.allowed ≡ true
  unfolding check_object
  allowed_object h = ground arith

  delete_walk_passes :
      contains id index.allowed ≡ true → check_below (length index.nodes) index (id ∷ []) ≡ ok tt
  delete_walk_passes h =
      let (y, named, inside) = below_allowed h in
      subst (λ k. check_below (length index.nodes) index (k ∷ []) ≡ ok tt) named
        (check_below_passes (length index.nodes) index (y ∷ [])
          (inside.held index.nodes (i.within.held index.nodes i.held), tt)
          (λ k. omega (arith, inside.fewer k, i.chosen k))
          (omega (arith, inside.smaller, i.within.smaller, i.sized)))

  delete_decided :
      check_delete_subtree index id
      ≡ (check_object index id >> check_parent index (parent_of index id))
  unfolding check_delete_subtree
  delete_decided = elim (Result-cases (check_object index id)) [
    | inr (e, refused) ↦ rw refused refl
    | inl (t, accepted) ↦ elim (Result-cases (check_parent index (parent_of index id))) [
      | inr (e, refused) ↦ rw (accepted, refused) refl
      | inl (s, parent) ↦
          rw (accepted, parent) (delete_walk_passes (allowed_object (accepted ∙ refl)) ∙ refl)
    ]
  ]

  all_below_allowed :
      check_object index id ≡ ok tt
      → (k : String) → Reach index.nodes id k
      → contains k index.allowed ≡ true
  all_below_allowed h k r =
      let (y, named, inside) = below_allowed (allowed_object h) in
      let below =
        Reach_iff index.nodes y k (inside.held index.nodes (i.within.held index.nodes i.held)) in
      (taken_iff k index.allowed).0 (
        omega (
          arith,
          below.1 (subst (λ id. Reach index.nodes id k) (sym named) r),
          inside.fewer k,
          i.chosen k,
        ))

with_owners :
    (index : McpSceneScopeIndex) (owners : Dict String String)
    → IsIndexed index
    → IsIndexed (record index { component_owners = owners })
with_owners index owners i = record {
  root = i.root;
  top = i.top;
  once = i.once;
  root_named = i.root_named;
  top_named = i.top_named;
  within = i.within;
  held = i.held;
  keyed = i.keyed;
  sized = i.sized;
  chosen = i.chosen;
}

module _ (tree : Option SceneNode) (scope : Option String) (b b' : McpScopeBudget)
    (built index : McpSceneScopeIndex) (owners : Dict String String) (id : String)
    (h : from_result tree scope b ≡ ok (built, b'))
    (e : index ≡ record built { component_owners = owners }) where
  indexed : IsIndexed index
  indexed =
      subst IsIndexed (sym e) (with_owners built owners (from_result-IsIndexed tree scope b h))

  -- On an index built from a tree, with whatever owners of components, the walk over the
  -- descendants ends and refuses nothing: a deletion is accepted or refused as the check of the
  -- object, and then of its parent, says.
  pub check_delete_subtree-eq :
      check_delete_subtree index id
      ≡ (check_object index id >> check_parent index (parent_of index id))
  check_delete_subtree-eq = delete_decided index indexed id

  -- On an index built from a tree, with whatever owners of components: if the deletion of an
  -- object is accepted, then all that children lead to from it is in the scope.
  pub check_delete_subtree_covers :
      (k : String)
      → check_delete_subtree index id ≡ ok tt
      → Reach index.nodes id k
      → contains k index.allowed ≡ true
  unfolding check_delete_subtree
  check_delete_subtree_covers k passed r = elim (Result-cases (check_object index id)) [
    | inr (e, refused) ↦ cc (rw (refused, check_delete_subtree) at passed)
    | inl (t, accepted) ↦ all_below_allowed index indexed id accepted k r
  ]
