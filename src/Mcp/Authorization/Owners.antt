-- ===== src/Mcp/Authorization/Owners.antt =====
-- The owners of components that `record_component_snapshot` gathers.
use norves_editor.Common.{
  ◌≡◌, ◌∙◌, inl, inr, refl, sym, ap, subst, Bool, true, false, String, Option, none, some, List, [],
  ◌∷◌, arith, any, if◌then◌else◌, ◌==◌, string_eq, eq_iff, not, ◌||◌, Bool-cases, Option-cases,
}
use norves_editor.Common.Dict
use norves_editor.Common.Dict.{Dict, get-insert}
use norves_editor.Common.Results.{Result, ok, ◌>>=◌, Result-cases, ok_injective}
use norves_editor.Mcp.Authorization.{ScopeError}
use norves_editor.Mcp.Authorization.Scope.{
  SceneNode, McpScopeBudget, McpSceneScopeIndex, ObjectSnapshot, contains, has_key, are_new, own,
  record_component_snapshot, from_result,
}
use norves_editor.Mcp.Authorization.Subtree.{from_result-no_owners}

are_new_sound :
    (index : McpSceneScopeIndex) (ids seen : List String) (k : String)
    → are_new index ids seen ≡ true
    → contains k ids ≡ true
    → (has_key k index.nodes ≡ false) × (has_key k index.component_owners ≡ false)
unfolding are_new any
are_new_sound index [] seen k h there = cc
are_new_sound index (id ∷ ids) seen k h there = elim (Bool-cases (id == k)) [
  | inl same ↦ ground (arith, eq_iff id k)
  | inr other ↦ are_new_sound index ids (id ∷ seen) k (ground arith) (ground arith)
]

get-own :
    (k owner : String) (ids : List String) (owners : Dict String String)
    → Dict.get k (own owner ids owners) ≡ (if contains k ids then some owner else Dict.get k owners)
unfolding own any
get-own k owner [] owners = refl
get-own k owner (id ∷ ids) owners =
    get-own k owner ids (Dict.insert id owner owners) ∙ ground (arith, get-insert k id owner owners)

-- Which identifiers a snapshot says are components.
abbrev pub lists : ObjectSnapshot → String → Bool
lists snapshot k = elim snapshot.components [ none ↦ false | some ids ↦ contains k ids ]

pub record IsOwned (index : McpSceneScopeIndex) : Type 0 where
  pub apart : (k : String) → has_key k index.component_owners ≡ true → has_key k index.nodes ≡ false
  pub by_node :
      (k owner : String)
      → Dict.get k index.component_owners ≡ some owner
      → has_key owner index.nodes ≡ true

pub record Gathers (index : McpSceneScopeIndex) (owner : String) (snapshot : ObjectSnapshot)
    (index' : McpSceneScopeIndex) : Type 0 where
  pub known : has_key owner index.nodes ≡ true
  pub fresh :
      (k : String)
      → lists snapshot k ≡ true
      → (has_key k index.nodes ≡ false) × (has_key k index.component_owners ≡ false)
  pub same_nodes : index'.nodes ≡ index.nodes
  pub owners :
      (k : String)
      → Dict.get k index'.component_owners
        ≡ (if lists snapshot k then some owner else Dict.get k index.component_owners)

record_component_snapshot-Gathers :
    (index index' : McpSceneScopeIndex) (owner : String) (snapshot : ObjectSnapshot)
    → record_component_snapshot index owner snapshot ≡ ok index'
    → Gathers index owner snapshot index'
unfolding record_component_snapshot
record_component_snapshot-Gathers index index' owner snapshot h =
    elim (Bool-cases (not (snapshot.object_id == owner) || not (has_key owner index.nodes))) [
      | inl bad ↦ cc (rw (bad, record_component_snapshot) at h)
      | inr good ↦ elim (Option-cases snapshot.components) [
        | inl e ↦ cc (rw (good, e, record_component_snapshot) at h)
        | inr (ids, e) ↦ elim (Bool-cases (are_new index ids [])) [
          | inr old ↦ cc (rw (good, e, old, record_component_snapshot) at h)
          | inl new ↦
              let same = ok_injective (rw (good, e, new, record_component_snapshot) at h) in
              record {
                known = ground arith;
                fresh = λ k there. are_new_sound index ids [] k new (rw e at there);
                same_nodes = sym (ap (λ (i : McpSceneScopeIndex). i.nodes) same);
                owners = λ k. rw e (
                    ap (λ (i : McpSceneScopeIndex). Dict.get k i.component_owners) (sym same)
                    ∙ get-own k owner ids index.component_owners);
              }
        ]
      ]
    ]

Gathers-IsOwned :
    (index index' : McpSceneScopeIndex) (owner : String) (snapshot : ObjectSnapshot)
    → Gathers index owner snapshot index'
    → IsOwned index
    → IsOwned index'
Gathers-IsOwned index index' owner snapshot g o = record {
  apart = λ k h. rw g.same_nodes (elim (Bool-cases (lists snapshot k)) [
    | inl listed ↦ (g.fresh k listed).0
    | inr other ↦ o.apart k (ground (arith, g.owners k))
  ]);
  by_node = λ k a h. rw g.same_nodes (elim (Bool-cases (lists snapshot k)) [
    | inl listed ↦ ground (arith, g.known, rw (g.owners k, listed) at h)
    | inr other ↦ o.by_node k a (rw (g.owners k, other) at h)
  ]);
}

-- The snapshots of several objects, one after another.
unfoldable pub gather :
    McpSceneScopeIndex → List (String × ObjectSnapshot) → Result ScopeError McpSceneScopeIndex
gather index [] = ok index
gather index ((owner, snapshot) ∷ rest) = do
  index' ← record_component_snapshot index owner snapshot
  gather index' rest

gather-IsOwned :
    (index index' : McpSceneScopeIndex) (snapshots : List (String × ObjectSnapshot))
    → IsOwned index
    → gather index snapshots ≡ ok index'
    → IsOwned index'
unfolding gather
gather-IsOwned index index' [] o h = subst IsOwned (ok_injective h) o
gather-IsOwned index index' ((owner, snapshot) ∷ rest) o h =
    elim (Result-cases (record_component_snapshot index owner snapshot)) [
      | inr (e, refused) ↦ cc (rw (refused, gather) at h)
      | inl (next, accepted) ↦
          gather-IsOwned next index' rest
            (Gathers-IsOwned index next owner snapshot
              (record_component_snapshot-Gathers index next owner snapshot accepted) o)
            (rw (accepted, gather) at h)
    ]

-- Of an index built from a tree, after whatever snapshots it accepted: no identifier is both a
-- node of the scene and a component, and every component's owner is a node of the scene.
pub gather-from_result-IsOwned :
    (tree : Option SceneNode) (scope : Option String) (b b' : McpScopeBudget)
    (built index : McpSceneScopeIndex) (snapshots : List (String × ObjectSnapshot))
    → from_result tree scope b ≡ ok (built, b')
    → gather built snapshots ≡ ok index
    → IsOwned index
unfolding Dict.get
gather-from_result-IsOwned tree scope b b' built index snapshots h g =
    gather-IsOwned built index snapshots
      (record {
        apart = λ k there. cc (rw (from_result-no_owners tree scope b h, Dict.get) at there);
        by_node =
            λ k owner there. cc (rw (from_result-no_owners tree scope b h, Dict.get) at there);
      })
      g
