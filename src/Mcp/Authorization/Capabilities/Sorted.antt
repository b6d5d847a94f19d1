-- ===== src/Mcp/Authorization/Capabilities/Sorted.antt =====
-- The capabilities for a replay are sorted, each stands once, and they are the ones needed.
use Prim.Native.Nat.{Ordering}
use Prim.Native.String.{compare}
use norves_editor.Common.{
  ◌≡◌, refl, sym, subst, ◌⊎◌, inl, inr, false, String, List, [], ◌∷◌, any, ◌==◌, string_eq, eq_iff,
  ◌||◌, Bool-cases,
}
use norves_editor.Common.Texts.{turn_compare}
use text.Mathlib.TextEquality.{path_by_compare}
use norves_editor.Mcp.Authorization.{McpHistoryAction}
use norves_editor.Mcp.Authorization.Scope.{contains}
use norves_editor.Mcp.Authorization.Capabilities.{
  insert_sorted, sort, dedup_after, dedup, push_all, history_required_capabilities, needs,
  contains-history_required_capabilities,
}

-- What stands first of a list comes after `x`, or is it.
abbrev Follows : String → List String → Type 0
Follows x [] = Unit
Follows x (y ∷ ys) = ¬ (compare x y ≡ Ordering.gt)

abbrev IsSorted : List String → Type 0
IsSorted [] = Unit
IsSorted (x ∷ xs) = Follows x xs × IsSorted xs

-- Strictly after it.
abbrev pub Above : String → List String → Type 0
Above x [] = Unit
Above x (y ∷ ys) = compare x y ≡ Ordering.lt

abbrev pub IsAscending : List String → Type 0
IsAscending [] = Unit
IsAscending (x ∷ xs) = Above x xs × IsAscending xs

data Compared (x y : String) : Type 0 where
  below : compare x y ≡ Ordering.lt → Compared x y
  same : compare x y ≡ Ordering.eq → Compared x y
  above : compare x y ≡ Ordering.gt → Compared x y

compared : (x y : String) → Compared x y
compared x y = go (compare x y) refl
  where
    go : (o : Ordering) → compare x y ≡ o → Compared x y
    go Ordering.lt e = below e
    go Ordering.eq e = same e
    go Ordering.gt e = above e

insert_sorted_first :
    (x y : String) (ys : List String)
    → ¬ (compare x y ≡ Ordering.gt)
    → insert_sorted x (y ∷ ys) ≡ x ∷ y ∷ ys
unfolding insert_sorted
insert_sorted_first x y ys h = elim (compared x y) [
  | below e ↦ rw (e, insert_sorted) refl
  | same e ↦ rw (e, insert_sorted) refl
  | above e ↦ absurd (h e)
]

insert_sorted_later :
    (x y : String) (ys : List String)
    → compare x y ≡ Ordering.gt
    → insert_sorted x (y ∷ ys) ≡ y ∷ insert_sorted x ys
unfolding insert_sorted
insert_sorted_later x y ys e = rw (e, insert_sorted) refl

at_most : (x y : String) → (compare x y ≡ Ordering.gt) ⊎ ¬ (compare x y ≡ Ordering.gt)
at_most x y = elim (compared x y) [
  | below e ↦ inr (λ q. cc (e, q))
  | same e ↦ inr (λ q. cc (e, q))
  | above e ↦ inl e
]

insert_sorted-Follows :
    (x y : String) (ys : List String)
    → compare x y ≡ Ordering.gt
    → Follows y ys
    → Follows y (insert_sorted x ys)
unfolding insert_sorted
insert_sorted-Follows x y [] h f = λ e. cc (e, turn_compare x y h)
insert_sorted-Follows x y (z ∷ zs) h f = elim (at_most x z) [
  | inl later ↦ subst (Follows y) (sym (insert_sorted_later x z zs later)) f
  | inr first ↦
      subst (Follows y) (sym (insert_sorted_first x z zs first)) (λ q. cc (q, turn_compare x y h))
]

insert_sorted-IsSorted :
    (x : String) (ys : List String) → IsSorted ys → IsSorted (insert_sorted x ys)
unfolding insert_sorted
insert_sorted-IsSorted x [] h = (tt, tt)
insert_sorted-IsSorted x (y ∷ ys) h = elim (at_most x y) [
  | inl later ↦
      subst IsSorted (sym (insert_sorted_later x y ys later))
        (insert_sorted-Follows x y ys later h.0, insert_sorted-IsSorted x ys h.1)
  | inr first ↦ subst IsSorted (sym (insert_sorted_first x y ys first)) (first, h)
]

sort-IsSorted : (xs : List String) → IsSorted (sort xs)
unfolding sort
sort-IsSorted [] = tt
sort-IsSorted (x ∷ xs) = insert_sorted-IsSorted x (sort xs) (sort-IsSorted xs)

dedup_after-Above :
    (x y : String) (ys : List String) → compare x y ≡ Ordering.lt → Above x (dedup_after y ys)
unfolding dedup_after
dedup_after-Above x y [] h = h
dedup_after-Above x y (z ∷ zs) h = elim (Bool-cases (y == z)) [
  | inl e ↦
      rw e (dedup_after-Above x z zs (subst (λ k. compare x k ≡ Ordering.lt) ((eq_iff y z).0 e) h))
  | inr e ↦ rw e h
]

differ_below :
    (x y : String) → ¬ (compare x y ≡ Ordering.gt) → (x == y) ≡ false → compare x y ≡ Ordering.lt
differ_below x y h e = elim (compared x y) [
  | below q ↦ q
  | same q ↦ cc (e, (eq_iff x y).1 (path_by_compare x y q))
  | above q ↦ absurd (h q)
]

dedup_after-IsAscending :
    (x : String) (ys : List String) → IsSorted (x ∷ ys) → IsAscending (dedup_after x ys)
unfolding dedup_after
dedup_after-IsAscending x [] h = (tt, tt)
dedup_after-IsAscending x (y ∷ ys) h = elim (Bool-cases (x == y)) [
  | inl e ↦ rw e (dedup_after-IsAscending y ys h.1)
  | inr e ↦
      rw e (dedup_after-Above x y ys (differ_below x y h.0 e), dedup_after-IsAscending y ys h.1)
]

dedup-IsAscending : (xs : List String) → IsSorted xs → IsAscending (dedup xs)
unfolding dedup
dedup-IsAscending [] h = tt
dedup-IsAscending (x ∷ xs) h = dedup_after-IsAscending x xs h

-- The capabilities that the undo or redo of a group requires are in strictly ascending order, so
-- none stands twice, and they are exactly `scene.query` and those that some record of the group
-- needs: an edit of the scene, or the edit and the query of an object.
pub history_required_capabilities_lem :
    {V : Type 0} (action : McpHistoryAction V)
    → IsAscending (history_required_capabilities action)
      × ((c : String)
          → contains c (history_required_capabilities action)
            ≡ ("scene.query" == c || any (needs c) action.records))
unfolding history_required_capabilities
history_required_capabilities_lem action = (
  dedup-IsAscending _ (sort-IsSorted ("scene.query" ∷ push_all action.records)),
  contains-history_required_capabilities action,
)
