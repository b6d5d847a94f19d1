-- ===== src/Common/Dict.antt =====
-- The hash and tree maps of the program, as association lists under their laws.
use mathlib.Core.Path.{◌≡◌, refl}
use mathlib.Core.Logic.{inl, inr}
use mathlib.Core.Option.{Option, none, some}
use mathlib.Core.List.{List, [], ◌∷◌}
use native.Mathlib.Omega.{arith}
use norves_editor.Common.Tests.{if◌then◌else◌, Bool-cases}
use norves_editor.Common.Equality.{Eq, ◌==◌, beq_refl}

abbrev pub Dict {ℓ κ} : Type ℓ → Type κ → Type (ℓ ⊔ κ)
Dict K V = List (K × V)

module _ {ℓ κ} {K : Type ℓ} {V : Type κ} ⦃e : Eq K⦄ where
  unfoldable pub get : K → Dict K V → Option V
  get k [] = none
  get k ((j, v) ∷ m) = if j == k then some v else get k m

  unfoldable pub remove : K → Dict K V → Dict K V
  remove k [] = []
  remove k ((j, v) ∷ m) = if j == k then remove k m else (j, v) ∷ remove k m

  unfoldable pub insert : K → V → Dict K V → Dict K V
  unfolding remove
  insert k v m = (k, v) ∷ remove k m

  -- No key stands twice.
  abbrev pub Unique : Dict K V → Type κ
  Unique [] = Unit
  Unique ((k, v) ∷ m) = (get k m ≡ none) × Unique m

  pub get-remove :
      (j k : K) (m : Dict K V) → get j (remove k m) ≡ (if k == j then none else get j m)
  unfolding get remove
  get-remove j k [] = ground arith
  get-remove j k ((i, v) ∷ m) =
      ground (arith, e.equal_iff i k, e.equal_iff i j, e.equal_iff k j, get-remove j k m)

  pub get-remove_self : (k : K) (m : Dict K V) → get k (remove k m) ≡ none
  get-remove_self k m = rw (get-remove k k m, beq_refl k) refl

  pub get-insert :
      (j k : K) (v : V) (m : Dict K V) → get j (insert k v m) ≡ (if k == j then some v else get j m)
  unfolding get insert
  get-insert j k v m = ground (arith, get-remove j k m)

  pub get-insert_self : (k : K) (v : V) (m : Dict K V) → get k (insert k v m) ≡ some v
  get-insert_self k v m = rw (get-insert k k v m, beq_refl k) refl

  pub remove-Unique : (k : K) (m : Dict K V) → Unique m → Unique (remove k m)
  unfolding remove
  remove-Unique k [] u = tt
  remove-Unique k ((j, v) ∷ m) u = elim (Bool-cases (j == k)) [
    | inl same ↦ rw same (remove-Unique k m u.1)
    | inr other ↦ rw other (ground (arith, get-remove j k m, u.0), remove-Unique k m u.1)
  ]

  pub insert-Unique : (k : K) (v : V) (m : Dict K V) → Unique m → Unique (insert k v m)
  unfolding insert
  insert-Unique k v m u = (rw (get-remove k k m, beq_refl k), remove-Unique k m u)

  -- Removing an absent key changes nothing.
  pub remove-none : (k : K) (m : Dict K V) → get k m ≡ none → remove k m ≡ m
  unfolding get remove
  remove-none k [] h = refl
  remove-none k ((j, v) ∷ m) h = ground (arith, remove-none k m)
