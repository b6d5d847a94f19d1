-- ===== src/Mcp/Authorization/Reach.antt =====
-- Which identifiers lie below another: by the children that the index holds, and by the tree.
use norves_editor.Common.{
  ◌≡◌, ◌≤◌, ◌∙◌, inl, inr, sym, subst, Bool, true, String, Option, some, List, map, arith, any,
  ◌==◌, string_eq, beq_refl, eq_iff, ◌↔◌, Bool-cases, nat_beq,
}
use norves_editor.Common.Dict
use norves_editor.Common.Dict.{Dict}
use norves_editor.Common.Results.{ok}
use norves_editor.Mcp.Authorization.Scope.{
  SceneNode, SceneNodes, SceneNodeMeta, McpScopeBudget, McpSceneScopeIndex, id_of, list_of,
  children_of, meta_of, contains, from_result, unwrap_or,
}
use norves_editor.Mcp.Authorization.Forest.{
  count_if, count, count_among, IsHeld, AreHeld, IsPart, find, Entry,
}
use norves_editor.Mcp.Authorization.Walks.{taken}
use norves_editor.Mcp.Authorization.Subtree.{IsIndexed, from_result-tree}

-- The identifiers that children lead to from `from`.
pub data Reach (nodes : Dict String SceneNodeMeta) (from : String) : String → Type 0 where
  here : Reach nodes from from
  step :
      {u v : String} {m : SceneNodeMeta}
      → Reach nodes from u
      → Dict.get u nodes ≡ some m
      → contains v m.children ≡ true
      → Reach nodes from v

module _ (nodes : Dict String SceneNodeMeta) where
  abbrev is_child : String → SceneNodes → Bool
  is_child v cs = contains v (map id_of (list_of cs))

  child_counts : (v : String) (cs : SceneNodes) → is_child v cs ≡ true → 1 ≤ count_among v cs
  unfolding any count
  child_counts v SceneNodes.nil h = cc
  child_counts v (SceneNodes.cons (SceneNode.node id xs) cs) h = ground (arith, child_counts v cs)

  children_count :
      (v : String) (x : SceneNode) → contains v (map id_of (children_of x)) ≡ true → 1 ≤ count v x
  unfolding count
  children_count v (SceneNode.node id cs) h = omega (arith, child_counts v cs h)

  pub IsHeld-Entry : (x : SceneNode) → IsHeld nodes x → Entry nodes x
  unfolding IsHeld
  IsHeld-Entry (SceneNode.node id cs) h = h.0

  -- What a node of the tree has for a child stands in the tree.
  step_counts :
      (x : SceneNode) (u v : String) (m : SceneNodeMeta)
      → IsHeld nodes x
      → 1 ≤ count u x
      → Dict.get u nodes ≡ some m
      → contains v m.children ≡ true
      → 1 ≤ count v x
  unfolding count IsHeld
  step_counts x u v m held there e child =
      let (y, named, within) = find u x there in
      let entry = IsHeld-Entry y (within.held nodes held) in
      let found : Dict.get u nodes ≡ some (meta_of y entry.0) =
        subst (λ k. Dict.get k nodes ≡ some (meta_of y entry.0)) named entry.1 in
      let same : m ≡ meta_of y entry.0 = some_injective (sym e ∙ found) in
      omega (
        arith,
        within.fewer v,
        children_count v y (subst (λ (m : SceneNodeMeta). contains v m.children ≡ true) same child),
      )
    where
      some_injective : {a b : SceneNodeMeta} → some a ≡ some b → a ≡ b
      some_injective h = ground arith

  Reach-counts :
      (x : SceneNode) (k : String) → IsHeld nodes x → Reach nodes (id_of x) k → 1 ≤ count k x
  unfolding count
  Reach-counts (SceneNode.node id cs) k held here = ground (arith, beq_refl id)
  Reach-counts x k held (step {u} {v} {m} p e child) =
      step_counts x u v m held (Reach-counts x u held p) e child

  mutual
    unfolding count IsHeld any

    counts-Reach :
        (from : String) (x : SceneNode) (k : String)
        → IsHeld nodes x
        → Reach nodes from (id_of x)
        → 1 ≤ count k x
        → Reach nodes from k
    counts-Reach from (SceneNode.node id cs) k held p there = elim (Bool-cases (id == k)) [
      | inl same ↦ subst (Reach nodes from) ((eq_iff id k).0 same) p
      | inr other ↦ among-Reach from cs k held.1 (λ v child. step p held.0.1 child) (ground arith)
    ]

    among-Reach :
        (from : String) (cs : SceneNodes) (k : String)
        → AreHeld nodes cs
        → ((v : String) → is_child v cs ≡ true → Reach nodes from v)
        → 1 ≤ count_among k cs
        → Reach nodes from k
    among-Reach from SceneNodes.nil k held p there = absurd (omega arith)
    among-Reach from (SceneNodes.cons x xs) k held p there =
        elim (Bool-cases (nat_beq (count k x) 0)) [
          | inl z ↦ among-Reach from xs k held.1 (λ v child. p v (ground arith)) (ground arith)
          | inr more ↦
              counts-Reach from x k held.0 (p (id_of x) (ground (arith, beq_refl (id_of x))))
                (ground arith)
        ]

  pub Reach_iff :
      (x : SceneNode) (k : String) → IsHeld nodes x → (1 ≤ count k x) ↔ Reach nodes (id_of x) k
  Reach_iff x k held = (counts-Reach (id_of x) x k held here, Reach-counts x k held)

pub taken_iff :
    (k : String) (allowed : List String) → (1 ≤ taken k allowed) ↔ (contains k allowed ≡ true)
taken_iff k allowed = flag (contains k allowed)
  where
    flag : (t : Bool) → (1 ≤ count_if t) ↔ (t ≡ true)
    flag t = ground arith

pub IsIndexed-allowed :
    (index : McpSceneScopeIndex)
    → IsIndexed index
    → (k : String) → (contains k index.allowed ≡ true) ↔ Reach index.nodes index.root_id k
IsIndexed-allowed index i k =
    let below = Reach_iff index.nodes i.top k (i.within.held index.nodes i.held) in
    let flag = taken_iff k index.allowed in
    (
      λ h.
          subst (λ id. Reach index.nodes id k) i.top_named
            (below.0 (subst (λ n. 1 ≤ n) (i.chosen k) (flag.1 h))),
      λ r. flag.0 (
          subst (λ n. 1 ≤ n) (sym (i.chosen k))
            (below.1 (subst (λ id. Reach index.nodes id k) (sym i.top_named) r))),
    )

-- If an index is built, then a tree was given, and it has a part, the tree itself or one of what
-- is below it, whose top is the root of the scope, or of the tree where no scope is named, and the
-- allowed identifiers are exactly those that stand in that part.
pub from_result-allowed_iff :
    (tree : Option SceneNode) (scope : Option String) (b b' : McpScopeBudget)
    (index : McpSceneScopeIndex)
    → from_result tree scope b ≡ ok (index, b')
    → (root top : SceneNode) × (tree ≡ some root)
      × IsPart top root
      × (id_of top ≡ unwrap_or scope (id_of root))
      × ((k : String) → (contains k index.allowed ≡ true) ↔ (1 ≤ count k top))
from_result-allowed_iff tree scope b b' index h =
    let (root, is_root, named, i, rooted) = from_result-tree tree scope b h in
    (
      root,
      i.top,
      is_root,
      subst (IsPart i.top) rooted i.within.part,
      i.top_named ∙ named,
      λ k.
          let flag = taken_iff k index.allowed in
          (
            λ inside. subst (λ n. 1 ≤ n) (i.chosen k) (flag.1 inside),
            λ below. flag.0 (subst (λ n. 1 ≤ n) (sym (i.chosen k)) below),
          ),
    )
