-- ===== src/Mcp/Authorization/Forest.antt =====
-- Trees of scene nodes and the stacks of them: how often an identifier stands in one, how many
-- nodes it has, and whether an index holds all of its nodes.
use norves_editor.Common.{
  ℕ, suc, ◌+◌, ◌≡◌, ◌≤◌, ◌⊎◌, inl, inr, refl, Bool, true, false, String, Option, some, List, [],
  ◌∷◌, ◌++◌, reverse, arith, All, ◌==◌, string_eq, eq_iff, ◌↔◌, Bool-cases, nat_beq,
}
use norves_editor.Common.Dict
use norves_editor.Common.Dict.{Dict, get-insert, get-insert_self}
use mathlib.Core.List.{reverse_aux}
use norves_editor.Common.Sums.{sum_of}
use norves_editor.Mcp.Authorization.Scope.{
  SceneNode, SceneNodes, SceneNodeMeta, id_of, list_of, meta_of,
}

abbrev pub count_if : Bool → ℕ
count_if true = 1
count_if false = 0

unfoldable mutual
  pub count : String → SceneNode → ℕ
  count k (SceneNode.node id cs) = count_if (id == k) + count_among k cs

  pub count_among : String → SceneNodes → ℕ
  count_among k SceneNodes.nil = 0
  count_among k (SceneNodes.cons x xs) = count k x + count_among k xs

unfoldable mutual
  pub size : SceneNode → ℕ
  size (SceneNode.node id cs) = suc (size_among cs)

  pub size_among : SceneNodes → ℕ
  size_among SceneNodes.nil = 0
  size_among (SceneNodes.cons x xs) = size x + size_among xs

-- The parent under which a dictionary of nodes holds a node with these children.
abbrev pub Entry : Dict String SceneNodeMeta → SceneNode → Type 0
Entry nodes x = (parent : Option String) × (Dict.get (id_of x) nodes ≡ some (meta_of x parent))

unfoldable mutual
  pub IsHeld : Dict String SceneNodeMeta → SceneNode → Type 0
  IsHeld nodes (SceneNode.node id cs) = Entry nodes (SceneNode.node id cs) × AreHeld nodes cs

  pub AreHeld : Dict String SceneNodeMeta → SceneNodes → Type 0
  AreHeld nodes SceneNodes.nil = Unit
  AreHeld nodes (SceneNodes.cons x xs) = IsHeld nodes x × AreHeld nodes xs

abbrev pub counts : String → List SceneNode → ℕ
counts k = sum_of (count k)

abbrev pub sizes : List SceneNode → ℕ
sizes = sum_of size

pub counts-list_of : (k : String) (cs : SceneNodes) → counts k (list_of cs) ≡ count_among k cs
unfolding count
counts-list_of k SceneNodes.nil = refl
counts-list_of k (SceneNodes.cons x xs) = omega (arith, counts-list_of k xs)

pub sizes-list_of : (cs : SceneNodes) → sizes (list_of cs) ≡ size_among cs
unfolding size
sizes-list_of SceneNodes.nil = refl
sizes-list_of (SceneNodes.cons x xs) = omega (arith, sizes-list_of xs)

module _ (nodes : Dict String SceneNodeMeta) where
  abbrev pub Held : List SceneNode → Type 0
  Held = All (IsHeld nodes)

  pub Held-append : (xs ys : List SceneNode) → Held (xs ++ ys) → Held xs × Held ys
  Held-append [] ys h = (tt, h)
  Held-append (x ∷ xs) ys h = let rest = Held-append xs ys h.1 in ((h.0, rest.0), rest.1)

  pub append-Held : (xs ys : List SceneNode) → Held xs → Held ys → Held (xs ++ ys)
  append-Held [] ys hx hy = hy
  append-Held (x ∷ xs) ys hx hy = (hx.0, append-Held xs ys hx.1 hy)

  reverse_aux-Held : (xs ys : List SceneNode) → Held xs → Held ys → Held (reverse_aux xs ys)
  reverse_aux-Held [] ys hx hy = hy
  reverse_aux-Held (x ∷ xs) ys hx hy = reverse_aux-Held xs (x ∷ ys) hx.1 (hx.0, hy)

  pub reverse-Held : (xs : List SceneNode) → Held xs → Held (reverse xs)
  reverse-Held xs h = reverse_aux-Held xs [] h tt

  pub AreHeld-iff : (cs : SceneNodes) → AreHeld nodes cs ↔ Held (list_of cs)
  unfolding IsHeld
  AreHeld-iff SceneNodes.nil = (λ h. tt, λ h. tt)
  AreHeld-iff (SceneNodes.cons x xs) =
      (λ h. (h.0, (AreHeld-iff xs).0 h.1), λ h. (h.0, (AreHeld-iff xs).1 h.1))

-- A node of a tree: the root, or a part of what stands under a child.
unfoldable mutual
  pub IsPart : SceneNode → SceneNode → Type 0
  IsPart y (SceneNode.node id cs) = (y ≡ SceneNode.node id cs) ⊎ IsPartAmong y cs

  pub IsPartAmong : SceneNode → SceneNodes → Type 0
  IsPartAmong y SceneNodes.nil = ⊥
  IsPartAmong y (SceneNodes.cons x xs) = IsPart y x ⊎ IsPartAmong y xs

-- A node of the tree: it stands in it with all that is below it.
pub record Within (x y : SceneNode) : Type 0 where
  pub part : IsPart y x
  pub fewer : (k : String) → count k y ≤ count k x
  pub smaller : size y ≤ size x
  pub held : (nodes : Dict String SceneNodeMeta) → IsHeld nodes x → IsHeld nodes y

mutual
  unfolding count size IsHeld IsPart

  pub find :
      (k : String) (x : SceneNode) → 1 ≤ count k x → (y : SceneNode) × (id_of y ≡ k) × Within x y
  find k (SceneNode.node id cs) h = elim (Bool-cases (id == k)) [
    | inl same ↦ (
      SceneNode.node id cs,
      (eq_iff id k).0 same,
      record {
        part = inl refl;
        fewer = λ j. omega arith;
        smaller = omega arith;
        held = λ nodes held. held;
      },
    )
    | inr other ↦
        let (y, e, part, fewer, smaller, held) = find_among k cs (ground arith) in
        (
          y,
          e,
          record {
            part = inr part;
            fewer = λ j. omega (arith, fewer j);
            smaller = omega (arith, smaller);
            held = λ nodes h. held nodes h.1;
          },
        )
  ]

  find_among :
      (k : String) (cs : SceneNodes)
      → 1 ≤ count_among k cs
      → (y : SceneNode) × (id_of y ≡ k)
        × IsPartAmong y cs
        × ((j : String) → count j y ≤ count_among j cs)
        × (size y ≤ size_among cs)
        × ((nodes : Dict String SceneNodeMeta) → AreHeld nodes cs → IsHeld nodes y)
  find_among k SceneNodes.nil h = absurd (omega arith)
  find_among k (SceneNodes.cons x xs) h = elim (Bool-cases (nat_beq (count k x) 0)) [
    | inl z ↦
        let (y, e, part, fewer, smaller, held) = find_among k xs (ground arith) in
        (
          y,
          e,
          inr part,
          λ j. omega (arith, fewer j),
          omega (arith, smaller),
          λ nodes h. held nodes h.1,
        )
    | inr p ↦
        let (y, e, w) = find k x (ground arith) in
        (
          y,
          e,
          inl w.part,
          λ j. omega (arith, w.fewer j),
          omega (arith, w.smaller),
          λ nodes h. w.held nodes h.0,
        )
  ]
