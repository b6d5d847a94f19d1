-- ===== src/Mcp/Authorization/Subtree.antt =====
-- The index that `from_result` builds: the identifiers of the scope are those that children lead
-- to from its root.
use norves_editor.Common.{
  ℕ, suc, ◌+◌, ◌≡◌, ◌≤◌, ◌∙◌, inl, inr, refl, sym, ap, subst, Bool, true, String, Option, none,
  some, List, [], ◌∷◌, arith, length, any, string_eq, Bool-cases,
}
use norves_editor.Common.Dict
use norves_editor.Common.Dict.{Dict}
use norves_editor.Common.Results.{Result, ok, Result-cases, ok_injective}
use norves_editor.Mcp.Authorization.{ScopeError}
use norves_editor.Mcp.Authorization.Scope.{
  SceneNode, SceneNodeMeta, McpScopeBudget, McpSceneScopeIndex, id_of, has_key, index_nodes,
  index_allowed, max_scope_nodes, from_result, unwrap_or,
}
use norves_editor.Mcp.Authorization.Forest.{count_if, count, size, IsHeld, Within, find}
use norves_editor.Mcp.Authorization.Walks.{
  present, taken, index_nodes-Walked, index_nodes_accepts, index_allowed_takes,
}

-- The index of a tree `root` whose part `top` is the scope.
pub record IsIndexed (index : McpSceneScopeIndex) : Type 0 where
  pub root : SceneNode
  pub top : SceneNode
  pub once : (k : String) → count k root ≤ 1
  pub root_named : id_of root ≡ index.scene_root_id
  pub top_named : id_of top ≡ index.root_id
  pub within : Within root top
  pub held : IsHeld index.nodes root
  pub keyed : (k : String) → present k index.nodes ≡ count k root
  pub sized : length index.nodes ≡ size root
  pub chosen : (k : String) → taken k index.allowed ≡ count k top

abbrev limit : ℕ
limit = suc max_scope_nodes

abbrev index_of :
    SceneNode → Option String → Dict String SceneNodeMeta → List String → McpSceneScopeIndex
index_of root scope nodes allowed = record {
  root_id = unwrap_or scope (id_of root);
  scene_root_id = id_of root;
  nodes = nodes;
  allowed = allowed;
  component_owners = [];
}

ok_pair :
    {A B : Type 0} {a c : A} {b d : B}
    → ◌≡◌ {A = Result ScopeError (A × B)} (ok (a, b)) (ok (c, d))
    → (a ≡ c) × (b ≡ d)
ok_pair h = ground arith

module _ (root : SceneNode) (scope : Option String) (b : McpScopeBudget) where
  abbrev top_id : String
  top_id = unwrap_or scope (id_of root)

  from_result-parts :
      {index : McpSceneScopeIndex} {b' : McpScopeBudget}
      → from_result (some root) scope b ≡ ok (index, b')
      → (nodes : Dict String SceneNodeMeta) × (index_nodes limit ((root, none) ∷ []) [] b
          ≡ ok (nodes, b'))
        × (has_key top_id nodes ≡ true)
        × (index_allowed (suc (length nodes)) nodes (top_id ∷ []) [] ≡ ok index.allowed)
        × (index ≡ index_of root scope nodes index.allowed)
  unfolding from_result
  from_result-parts {index} {b'} h =
      elim (Result-cases (index_nodes limit ((root, none) ∷ []) [] b)) [
        | inr (e, q) ↦ cc (rw (q, from_result) at h)
        | inl ((nodes, left), q) ↦ elim (Bool-cases (has_key top_id nodes)) [
          | inr absent ↦ cc (rw (q, absent, from_result) at h)
          | inl key ↦
              elim (Result-cases (index_allowed (suc (length nodes)) nodes (top_id ∷ []) [])) [
                | inr (e, r) ↦ cc (rw (q, key, r, from_result) at h)
                | inl (allowed, r) ↦
                    let (same, budget) = ok_pair (rw (q, key, r, from_result) at h) in
                    (
                      nodes,
                      q ∙ ap (λ left. ok (nodes, left)) budget,
                      key,
                      r ∙ ap (λ (i : McpSceneScopeIndex). ok i.allowed) same,
                      sym same
                          ∙ ap (λ (i : McpSceneScopeIndex). index_of root scope nodes i.allowed)
                              same,
                    )
              ]
        ]
      ]

  index-IsIndexed :
      (nodes : Dict String SceneNodeMeta) (b' : McpScopeBudget)
      → index_nodes limit ((root, none) ∷ []) [] b ≡ ok (nodes, b')
      → has_key top_id nodes ≡ true
      → (allowed : List String) × (index_allowed (suc (length nodes)) nodes (top_id ∷ []) []
          ≡ ok allowed)
        × (i : IsIndexed (index_of root scope nodes allowed)) × (i.root ≡ root)
  unfolding Dict.get count any
  index-IsIndexed nodes b' walked key =
      let w = index_nodes-Walked limit ((root, none) ∷ []) [] b walked in
      let keyed : (k : String) → present k nodes ≡ count k root = λ k. omega (arith, w.counted k) in
      let once : (k : String) → count k root ≤ 1 =
        λ k. at_most_one (has_key k nodes) (count k root) (keyed k) in
      let (top, named, within) =
        find top_id root (subst (λ n. 1 ≤ n) (keyed top_id) (rw key (omega arith))) in
      let sized : length nodes ≡ size root = omega (arith, w.grown) in
      let (allowed, e, all) =
        index_allowed_takes (suc (length nodes)) nodes (top ∷ []) []
          (within.held nodes w.held.0, tt) (λ k. omega (arith, once k, within.fewer k))
          (omega (arith, within.smaller)) in
      (
        allowed,
        subst (λ id. index_allowed (suc (length nodes)) nodes (id ∷ []) [] ≡ ok allowed) named e,
        record {
          root = root;
          top = top;
          once = once;
          root_named = refl;
          top_named = named;
          within = within;
          held = w.held.0;
          keyed = keyed;
          sized = sized;
          chosen = λ k. omega (arith, all k);
        },
        refl,
      )
    where
      at_most_one : (t : Bool) (n : ℕ) → count_if t ≡ n → n ≤ 1
      at_most_one t n e = ground arith

-- The index is of this tree, and of the scope asked for.
pub from_result-tree :
    (tree : Option SceneNode) (scope : Option String) (b : McpScopeBudget)
    {index : McpSceneScopeIndex} {b' : McpScopeBudget}
    → from_result tree scope b ≡ ok (index, b')
    → (root : SceneNode) × (tree ≡ some root)
      × (index.root_id ≡ unwrap_or scope (id_of root))
      × (i : IsIndexed index) × (i.root ≡ root)
unfolding from_result
from_result-tree none scope b h = cc
from_result-tree (some root) scope b {index} {b'} h =
    let (nodes, walked, key, taken, same) = from_result-parts root scope b h in
    let (allowed, e, built, rooted) = index-IsIndexed root scope b nodes b' walked key in
    let again : allowed ≡ index.allowed = ok_injective (sym e ∙ taken) in
    let (i, of_root) =
      subst (λ index. (i : IsIndexed index) × (i.root ≡ root))
        (sym (same ∙ ap (index_of root scope nodes) (sym again))) (built, rooted) in
    (root, refl, ap (λ (i : McpSceneScopeIndex). i.root_id) same, i, of_root)

pub from_result-IsIndexed :
    (tree : Option SceneNode) (scope : Option String) (b : McpScopeBudget)
    {index : McpSceneScopeIndex} {b' : McpScopeBudget}
    → from_result tree scope b ≡ ok (index, b')
    → IsIndexed index
from_result-IsIndexed tree scope b h =
    let (root, is_root, named, built, rooted) = from_result-tree tree scope b h in built

pub from_result-no_owners :
    (tree : Option SceneNode) (scope : Option String) (b : McpScopeBudget)
    {index : McpSceneScopeIndex} {b' : McpScopeBudget}
    → from_result tree scope b ≡ ok (index, b')
    → index.component_owners ≡ []
unfolding from_result
from_result-no_owners none scope b h = cc
from_result-no_owners (some root) scope b h =
    let (nodes, walked, key, taken, same) = from_result-parts root scope b h in
    ap (λ (i : McpSceneScopeIndex). i.component_owners) same

-- A tree in which no identifier stands twice, whose nodes fit into what is left of the budget and
-- in which the scope's root stands, is always indexed, and the budget pays for each of its nodes
-- and for nothing else.
pub from_result_accepts :
    (root : SceneNode) (scope : Option String) (b : McpScopeBudget)
    → ((k : String) → count k root ≤ 1)
    → 1 ≤ count (unwrap_or scope (id_of root)) root
    → b.nodes + size root ≤ max_scope_nodes
    → (index : McpSceneScopeIndex) × (from_result (some root) scope b
        ≡ ok (index, record b { nodes = b.nodes + size root }))
unfolding from_result Dict.get
from_result_accepts root scope b once there small =
    let ((nodes, b'), walked) =
      index_nodes_accepts limit ((root, none) ∷ []) [] b (λ k. omega (arith, once k)) (omega arith)
        (omega arith) in
    let w = index_nodes-Walked limit ((root, none) ∷ []) [] b walked in
    let key =
      known (has_key (unwrap_or scope (id_of root)) nodes) _
        (omega (arith, w.counted (unwrap_or scope (id_of root)))) there in
    let (allowed, e, built, rooted) = index-IsIndexed root scope b nodes b' walked key in
    (
      index_of root scope nodes allowed,
      rw (walked, key, e)
          (ap (λ c. ok (index_of root scope nodes allowed, c))
            (w.spent ∙ ap (λ n. record b { nodes = n }) (omega arith))),
    )
  where
    known : (t : Bool) (n : ℕ) → count_if t ≡ n → 1 ≤ n → t ≡ true
    known t n e l = ground arith
