-- ===== src/Mcp/Authorization/Walks.antt =====
-- The two loops of `from_result`: what the index of the nodes holds after the first one, that a
-- tree without repeated identifiers passes it, and which identifiers the second one takes.
use norves_editor.Common.{
  ℕ, zero, suc, ◌+◌, ◌≡◌, ◌≤◌, ◌∙◌, inl, inr, refl, sym, ap, subst, Bool, false, String, Option,
  some, List, [], ◌∷◌, ◌++◌, map, reverse, arith, length, any, ◌==◌, string_eq, beq_refl, eq_iff,
  Bool-cases,
}
use norves_editor.Common.Dict
use norves_editor.Common.Dict.{
  Dict, get-insert, get-insert_self, get-remove, get-remove_self, remove-none,
}
use mathlib.Core.List.{reverse_aux}
use norves_editor.Common.Results.{ok}
use norves_editor.Common.Sums.{sum_of-append, sum_of-reverse}
use norves_editor.Mcp.Authorization.Scope.{
  SceneNode, SceneNodes, SceneNodeMeta, McpScopeBudget, id_of, list_of, meta_of, contains, has_key,
  under, add_nodes, index_nodes, index_allowed, max_scope_nodes,
}
use norves_editor.Mcp.Authorization.Forest.{
  count_if, count, count_among, size, size_among, IsHeld, AreHeld, counts, sizes, counts-list_of,
  sizes-list_of, Held, Held-append, append-Held, reverse-Held, AreHeld-iff,
}

-- The nodes of a stack.
abbrev pub forest : List (SceneNode × Option String) → List SceneNode
forest = map (λ p. p.0)

forest-under :
    (id : String) (xs : List SceneNode) (rest : List (SceneNode × Option String))
    → forest (under id xs ++ rest) ≡ xs ++ forest rest
forest-under id [] rest = refl
forest-under id (x ∷ xs) rest = ap (λ ys. x ∷ ys) (forest-under id xs rest)

abbrev pub present : String → Dict String SceneNodeMeta → ℕ
present k nodes = count_if (has_key k nodes)

module _ (nodes : Dict String SceneNodeMeta) (id : String) (m : SceneNodeMeta) where
  present-insert :
      (k : String)
      → has_key id nodes ≡ false
      → present k (Dict.insert id m nodes) ≡ present k nodes + count_if (id == k)
  present-insert k new = elim (Bool-cases (id == k)) [
    | inl same ↦ ground (arith, eq_iff id k, get-insert k id m nodes)
    | inr other ↦ ground (arith, get-insert k id m nodes)
  ]

  length-insert : has_key id nodes ≡ false → length (Dict.insert id m nodes) ≡ suc (length nodes)
  unfolding Dict.insert
  length-insert new = ground (arith, remove-none id nodes)

-- A turn of the first loop that goes on.
add_nodes-ok :
    (b b' : McpScopeBudget) → add_nodes b 1 ≡ ok b' → b' ≡ record b { nodes = b.nodes + 1 }
unfolding add_nodes
add_nodes-ok b b' h = ground arith

add_nodes_fits :
    (b : McpScopeBudget)
    → suc b.nodes ≤ max_scope_nodes
    → add_nodes b 1 ≡ ok (record b { nodes = b.nodes + 1 })
unfolding add_nodes
add_nodes_fits b h = ground arith

counts_of_step :
    (k id : String) (cs : SceneNodes) (rest : List (SceneNode × Option String))
    → counts k (forest (under id (list_of cs) ++ rest)) ≡ count_among k cs + counts k (forest rest)
counts_of_step k id cs rest =
    ap (counts k) (forest-under id (list_of cs) rest)
    ∙ omega (arith, sum_of-append (count k) (list_of cs) (forest rest), counts-list_of k cs)

sizes_of_step :
    (id : String) (cs : SceneNodes) (rest : List (SceneNode × Option String))
    → sizes (forest (under id (list_of cs) ++ rest)) ≡ size_among cs + sizes (forest rest)
sizes_of_step id cs rest =
    ap sizes (forest-under id (list_of cs) rest)
    ∙ omega (arith, sum_of-append size (list_of cs) (forest rest), sizes-list_of cs)

pub record Walked (pending : List (SceneNode × Option String)) (nodes : Dict String SceneNodeMeta)
    (b : McpScopeBudget) (nodes' : Dict String SceneNodeMeta) (b' : McpScopeBudget) : Type 0 where
  pub kept :
      (k : String) (m : SceneNodeMeta) → Dict.get k nodes ≡ some m → Dict.get k nodes' ≡ some m
  pub held : Held nodes' (forest pending)
  pub counted : (k : String) → present k nodes' ≡ present k nodes + counts k (forest pending)
  pub grown : length nodes' ≡ length nodes + sizes (forest pending)
  pub spent : b' ≡ record b { nodes = b.nodes + sizes (forest pending) }

-- What a turn leaves: the stack, the nodes and the budget.
abbrev next_pending :
    String → SceneNodes → List (SceneNode × Option String) → List (SceneNode × Option String)
next_pending id cs pending = under id (list_of cs) ++ pending

abbrev next_nodes :
    String → SceneNodes → Option String → Dict String SceneNodeMeta → Dict String SceneNodeMeta
next_nodes id cs parent nodes = Dict.insert id (meta_of (SceneNode.node id cs) parent) nodes

abbrev next_budget : McpScopeBudget → McpScopeBudget
next_budget b = record b { nodes = b.nodes + 1 }

module _ (fuel : ℕ) (id : String) (cs : SceneNodes) (parent : Option String)
    (pending : List (SceneNode × Option String)) (nodes : Dict String SceneNodeMeta)
    (b : McpScopeBudget) where
  turn-ok :
      {r : Dict String SceneNodeMeta × McpScopeBudget}
      → index_nodes (suc fuel) ((SceneNode.node id cs, parent) ∷ pending) nodes b ≡ ok r
      → (has_key id nodes ≡ false)
        × (index_nodes fuel
              (next_pending id cs pending)
              (next_nodes id cs parent nodes)
              (next_budget b)
            ≡ ok r)
  unfolding index_nodes
  turn-ok h = ground (arith, add_nodes-ok b)

  Walked-turn :
      {nodes' : Dict String SceneNodeMeta} {b' : McpScopeBudget}
      → has_key id nodes ≡ false
      → Walked
          (next_pending id cs pending)
          (next_nodes id cs parent nodes)
          (next_budget b)
          nodes'
          b'
      → Walked ((SceneNode.node id cs, parent) ∷ pending) nodes b nodes' b'
  unfolding count size IsHeld
  Walked-turn {nodes'} new w =
      let parts =
        Held-append nodes' (list_of cs) (forest pending)
          (subst (Held nodes') (forest-under id (list_of cs) pending) w.held) in
      record {
        kept = λ k m h. w.kept k m (
            ground
              (arith, eq_iff id k, get-insert k id (meta_of (SceneNode.node id cs) parent) nodes));
        held = (
          (
            (
              parent,
              w.kept id _ (get-insert_self id (meta_of (SceneNode.node id cs) parent) nodes),
            ),
            (AreHeld-iff nodes' cs).1 parts.0,
          ),
          parts.1,
        );
        counted = λ k. omega (
          arith,
          w.counted k,
          counts_of_step k id cs pending,
          present-insert nodes id (meta_of (SceneNode.node id cs) parent) k new,
        );
        grown = omega (
          arith,
          w.grown,
          sizes_of_step id cs pending,
          length-insert nodes id (meta_of (SceneNode.node id cs) parent) new,
        );
        spent =
            w.spent ∙ ap (λ n. record b { nodes = n }) (omega (arith, sizes_of_step id cs pending));
      }

pub index_nodes-Walked :
    (fuel : ℕ) (pending : List (SceneNode × Option String)) (nodes : Dict String SceneNodeMeta)
    (b : McpScopeBudget) {nodes' : Dict String SceneNodeMeta} {b' : McpScopeBudget}
    → index_nodes fuel pending nodes b ≡ ok (nodes', b')
    → Walked pending nodes b nodes' b'
unfolding index_nodes
index_nodes-Walked fuel [] nodes b h = record {
  kept = λ k m e. ground arith;
  held = tt;
  counted = λ k. ground arith;
  grown = ground arith;
  spent = ground arith;
}
index_nodes-Walked zero (x ∷ pending) nodes b h = cc
index_nodes-Walked (suc fuel) ((SceneNode.node id cs, parent) ∷ pending) nodes b h =
    let (new, rest) = turn-ok fuel id cs parent pending nodes b h in
    Walked-turn fuel id cs parent pending nodes b new (
      index_nodes-Walked fuel (next_pending id cs pending) (next_nodes id cs parent nodes)
        (next_budget b) rest)

not_yet :
    (t : Bool) (id : String) (m n : ℕ)
    → count_if t + ((count_if (id == id) + m) + n) ≤ 1
    → t ≡ false
not_yet t id m n h = ground (arith, beq_refl id)

pub index_nodes_accepts :
    (fuel : ℕ) (pending : List (SceneNode × Option String)) (nodes : Dict String SceneNodeMeta)
    (b : McpScopeBudget)
    → ((k : String) → present k nodes + counts k (forest pending) ≤ 1)
    → b.nodes + sizes (forest pending) ≤ max_scope_nodes
    → sizes (forest pending) ≤ fuel
    → (r : Dict String SceneNodeMeta × McpScopeBudget) × (index_nodes fuel pending nodes b ≡ ok r)
unfolding index_nodes count size
index_nodes_accepts fuel [] nodes b once small l = ((nodes, b), ground arith)
index_nodes_accepts zero ((SceneNode.node id cs, parent) ∷ pending) nodes b once small l =
    absurd (omega arith)
index_nodes_accepts (suc fuel) ((SceneNode.node id cs, parent) ∷ pending) nodes b once small l =
    let new = not_yet (has_key id nodes) id _ _ (once id) in
    let (r, e) =
      index_nodes_accepts fuel (next_pending id cs pending) (next_nodes id cs parent nodes)
        (next_budget b)
        (λ k. omega (
          arith,
          once k,
          counts_of_step k id cs pending,
          present-insert nodes id (meta_of (SceneNode.node id cs) parent) k new,
        ))
        (omega (arith, sizes_of_step id cs pending)) (omega (arith, sizes_of_step id cs pending)) in
    (r, rw (add_nodes_fits b (omega arith), new) e)

abbrev pub taken : String → List String → ℕ
taken k allowed = count_if (contains k allowed)

taken-cons :
    (k id : String) (allowed : List String)
    → contains id allowed ≡ false
    → taken k (id ∷ allowed) ≡ taken k allowed + count_if (id == k)
unfolding any
taken-cons k id allowed new = elim (Bool-cases (id == k)) [
  | inl same ↦ ground (arith, eq_iff id k)
  | inr other ↦ ground arith
]

map-reverse_aux :
    (xs ys : List SceneNode)
    → map id_of (reverse_aux xs ys) ≡ reverse_aux (map id_of xs) (map id_of ys)
map-reverse_aux [] ys = refl
map-reverse_aux (x ∷ xs) ys = map-reverse_aux xs (x ∷ ys)

map-append : (xs ys : List SceneNode) → map id_of (xs ++ ys) ≡ map id_of xs ++ map id_of ys
map-append [] ys = refl
map-append (x ∷ xs) ys = ap (λ zs. id_of x ∷ zs) (map-append xs ys)

-- The stack of a walk below nodes that an index holds, after a turn.
pub descend : SceneNodes → List SceneNode → List SceneNode
descend cs rest = reverse (list_of cs) ++ rest

pub map-descend :
    (cs : SceneNodes) (rest : List SceneNode)
    → map id_of (descend cs rest) ≡ reverse (map id_of (list_of cs)) ++ map id_of rest
unfolding descend
map-descend cs rest =
    map-append (reverse (list_of cs)) rest
    ∙ ap (λ zs. zs ++ map id_of rest) (map-reverse_aux (list_of cs) [])

pub counts-descend :
    (k : String) (cs : SceneNodes) (rest : List SceneNode)
    → counts k (descend cs rest) ≡ count_among k cs + counts k rest
unfolding descend
counts-descend k cs rest = omega (
  arith,
  sum_of-append (count k) (reverse (list_of cs)) rest,
  sum_of-reverse (count k) (list_of cs),
  counts-list_of k cs,
)

pub sizes-descend :
    (cs : SceneNodes) (rest : List SceneNode) → sizes (descend cs rest) ≡ size_among cs + sizes rest
unfolding descend
sizes-descend cs rest = omega (
  arith,
  sum_of-append size (reverse (list_of cs)) rest,
  sum_of-reverse size (list_of cs),
  sizes-list_of cs,
)

pub descend-Held :
    (nodes : Dict String SceneNodeMeta) (cs : SceneNodes) (rest : List SceneNode)
    → AreHeld nodes cs
    → Held nodes rest
    → Held nodes (descend cs rest)
unfolding descend
descend-Held nodes cs rest h r =
    append-Held nodes (reverse (list_of cs)) rest
      (reverse-Held nodes (list_of cs) ((AreHeld-iff nodes cs).0 h)) r

index_allowed-next :
    (fuel : ℕ) (nodes : Dict String SceneNodeMeta) (id : String) (ids allowed : List String)
    (m : SceneNodeMeta)
    → contains id allowed ≡ false
    → Dict.get id nodes ≡ some m
    → index_allowed (suc fuel) nodes (id ∷ ids) allowed
      ≡ index_allowed fuel nodes (reverse m.children ++ ids) (id ∷ allowed)
unfolding index_allowed
index_allowed-next fuel nodes id ids allowed m new e = rw (new, e) refl

pub index_allowed_takes :
    (fuel : ℕ) (nodes : Dict String SceneNodeMeta) (xs : List SceneNode) (allowed : List String)
    → Held nodes xs
    → ((k : String) → taken k allowed + counts k xs ≤ 1)
    → sizes xs ≤ fuel
    → (allowed' : List String) × (index_allowed fuel nodes (map id_of xs) allowed ≡ ok allowed')
      × ((k : String) → taken k allowed' ≡ taken k allowed + counts k xs)
unfolding index_allowed count size IsHeld
index_allowed_takes fuel nodes [] allowed held once l = (allowed, ground arith, λ k. omega arith)
index_allowed_takes zero nodes (SceneNode.node id cs ∷ xs) allowed held once l =
    absurd (omega arith)
index_allowed_takes (suc fuel) nodes (SceneNode.node id cs ∷ xs) allowed held once l =
    let new = not_yet (contains id allowed) id _ _ (once id) in
    let (allowed', e, all) =
      index_allowed_takes fuel nodes (descend cs xs) (id ∷ allowed)
        (descend-Held nodes cs xs held.0.1 held.1)
        (λ k. omega (arith, once k, counts-descend k cs xs, taken-cons k id allowed new))
        (omega (arith, sizes-descend cs xs)) in
    (
      allowed',
      index_allowed-next fuel nodes id (map id_of xs) allowed _ new held.0.0.1
          ∙ ap (λ ids. index_allowed fuel nodes ids (id ∷ allowed)) (sym (map-descend cs xs))
          ∙ e,
      λ k. omega (arith, all k, counts-descend k cs xs, taken-cons k id allowed new),
    )
