-- ===== src/Mcp/Operations/Kept.antt =====
-- What publishing and finishing a record keep true of the store.
use norves_editor.Common.{
  ℕ, ◌≡◌, ◌≤◌, ◌∙◌, ◌⊎◌, inl, inr, refl, sym, subst, Bool, true, false, not, String, Option, none,
  some, List, [], ◌∷◌, ◌++◌, arith, length, any, retain, All, ltb, ◌==◌, string_eq, nat_eq,
  Bool-cases, Option-cases, eq_iff,
}
use norves_editor.Common.Dict
use norves_editor.Common.Dict.{Dict, get-insert}
use norves_editor.Mcp.Operations.{
  McpOperationDto, StoreState, OperationUpdate, World, max_records, known_tools, known_tool, trim,
  publish, finish,
}
use norves_editor.Mcp.Operations.Storage.{
  Files, Faults, AreSmall, append_record, append_record-AreSmall,
}

abbrev pub has_id : String → McpOperationDto → Bool
has_id id r = r.request_id == id

-- No request has two records.
abbrev pub AreDistinct : List McpOperationDto → Type 0
AreDistinct [] = Unit
AreDistinct (r ∷ rs) = (any (has_id r.request_id) rs ≡ false) × AreDistinct rs

-- A tool of the closed list, or the name for all others.
abbrev pub IsKnown : McpOperationDto → Type 0
IsKnown r = (r.tool ≡ "unknown_tool") ⊎ (any (λ t. t == r.tool) known_tools ≡ true)

pub record IsKept (s : StoreState) : Type 0 where
  pub few : length s.records ≤ max_records
  pub distinct : AreDistinct s.records
  pub known : All IsKnown s.records
  pub small : (files : Files) → s.directory ≡ some files → AreSmall files

pub record IsSound (w : World) : Type 0 where
  pub kept : IsKept w.store
  pub known : (h : ℕ) (r : McpOperationDto) → Dict.get h w.handles ≡ some r → IsKnown r

abbrev pub others : String → List McpOperationDto → List McpOperationDto
others id = retain (λ old. not (old.request_id == id))

pub length-trim : (rs : List McpOperationDto) → length (trim rs) ≤ max_records
length-trim [] = omega arith
length-trim (r ∷ rs) = elim (Bool-cases (ltb max_records (length (r ∷ rs)))) [
  | inl long ↦ rw long (length-trim rs)
  | inr short ↦ rw short (ground arith)
]

pub trim-AreDistinct : (rs : List McpOperationDto) → AreDistinct rs → AreDistinct (trim rs)
trim-AreDistinct [] h = tt
trim-AreDistinct (r ∷ rs) h = elim (Bool-cases (ltb max_records (length (r ∷ rs)))) [
  | inl long ↦ rw long (trim-AreDistinct rs h.1)
  | inr short ↦ rw short h
]

pub trim-All :
    (P : McpOperationDto → Type 0) (rs : List McpOperationDto) → All P rs → All P (trim rs)
trim-All P [] h = tt
trim-All P (r ∷ rs) h = elim (Bool-cases (ltb max_records (length (r ∷ rs)))) [
  | inl long ↦ rw long (trim-All P rs h.1)
  | inr short ↦ rw short h
]

-- A record of another request, among the others and at the end.
pub any-others :
    (id k : String) (r : McpOperationDto) (rs : List McpOperationDto)
    → r.request_id ≡ id
    → any (has_id k) rs ≡ false
    → (k == id) ≡ false
    → any (has_id k) (others id rs ++ r ∷ []) ≡ false
unfolding any retain
any-others id k r [] e h other = ground (arith, eq_iff id k, eq_iff k id)
any-others id k r (x ∷ rs) e h other =
    ground (arith, any-others id k r rs e, eq_iff x.request_id id)

pub append-AreDistinct :
    (r : McpOperationDto) (rs : List McpOperationDto)
    → AreDistinct rs
    → AreDistinct (others r.request_id rs ++ r ∷ [])
unfolding any retain
append-AreDistinct r [] h = (refl, tt)
append-AreDistinct r (x ∷ rs) h = elim (Bool-cases (x.request_id == r.request_id)) [
  | inl same ↦ rw same (append-AreDistinct r rs h.1)
  | inr other ↦
      rw other
        (any-others r.request_id x.request_id r rs refl h.0 other, append-AreDistinct r rs h.1)
]

pub append-All :
    (P : McpOperationDto → Type 0) (r : McpOperationDto) (rs : List McpOperationDto)
    → P r
    → All P rs
    → All P (others r.request_id rs ++ r ∷ [])
unfolding retain
append-All P r [] p h = (p, tt)
append-All P r (x ∷ rs) p h = elim (Bool-cases (x.request_id == r.request_id)) [
  | inl same ↦ rw same (append-All P r rs p h.1)
  | inr other ↦ rw other (h.0, append-All P r rs p h.1)
]

pub known_tool_same :
    (name : String) → any (λ t. t == name) known_tools ≡ true → known_tool name ≡ name
unfolding known_tool
known_tool_same name there = rw there refl

pub known_tool_unknown :
    (name : String) → any (λ t. t == name) known_tools ≡ false → known_tool name ≡ "unknown_tool"
unfolding known_tool
known_tool_unknown name absent = rw absent refl

pub known_tool-known :
    (name : String)
    → (known_tool name ≡ "unknown_tool") ⊎ (any (λ t. t == known_tool name) known_tools ≡ true)
known_tool-known name = elim (Bool-cases (any (λ t. t == name) known_tools)) [
  | inl there ↦
      inr
        (subst (λ n. any (λ t. t == n) known_tools ≡ true) (sym (known_tool_same name there)) there)
  | inr absent ↦ inl (known_tool_unknown name absent)
]

pub some_injective : {A : Type 0} {a b : A} → some a ≡ some b → a ≡ b
some_injective h = ground arith

pub publish-directory :
    (r : McpOperationDto) (storage : Option ℕ × Faults) (s : StoreState) (files : Files)
    → s.directory ≡ some files
    → (publish r storage s).directory ≡ some (append_record storage.1 storage.0 files).1
unfolding publish
publish-directory r storage s files e = rw e refl

pub publish-no_directory :
    (r : McpOperationDto) (storage : Option ℕ × Faults) (s : StoreState)
    → s.directory ≡ none
    → (publish r storage s).directory ≡ none
unfolding publish
publish-no_directory r storage s e = rw e refl

pub publish-small :
    (r : McpOperationDto) (storage : Option ℕ × Faults) (s : StoreState)
    → ((files : Files) → s.directory ≡ some files → AreSmall files)
    → (files : Files) → (publish r storage s).directory ≡ some files
    → AreSmall files
publish-small r storage s h files e = elim (Option-cases s.directory) [
  | inl n ↦ cc (publish-no_directory r storage s n, e)
  | inr (before, n) ↦
      subst AreSmall (some_injective (sym (publish-directory r storage s before n) ∙ e))
        (append_record-AreSmall storage.1 storage.0 before (h before n))
]

pub publish-IsKept :
    (r : McpOperationDto) (storage : Option ℕ × Faults) (s : StoreState)
    → IsKnown r
    → IsKept s
    → IsKept (publish r storage s)
unfolding publish
publish-IsKept r storage s k h = record {
  few = length-trim (others r.request_id s.records ++ r ∷ []);
  distinct = trim-AreDistinct _ (append-AreDistinct r s.records h.distinct);
  known = trim-All IsKnown _ (append-All IsKnown r s.records k h.known);
  small = publish-small r storage s h.small;
}

pub insert-IsKnown :
    (h : ℕ) (r : McpOperationDto) (handles : Dict ℕ McpOperationDto)
    → IsKnown r
    → ((k : ℕ) (q : McpOperationDto) → Dict.get k handles ≡ some q → IsKnown q)
    → (k : ℕ) (q : McpOperationDto) → Dict.get k (Dict.insert h r handles) ≡ some q
    → IsKnown q
insert-IsKnown h r handles known before k q e = elim (Bool-cases (h == k)) [
  | inl same ↦ subst IsKnown (some_injective (rw (get-insert k h r handles, same) at e)) known
  | inr other ↦ before k q (rw (get-insert k h r handles, other) at e)
]

pub finish-IsKept :
    (now : ℕ) (update : OperationUpdate) (storage : Option ℕ × Faults) (r : McpOperationDto)
    (s : StoreState)
    → IsKnown r
    → IsKept s
    → IsKnown (finish now update storage r s).0 × IsKept (finish now update storage r s).1
unfolding finish
finish-IsKept now update storage r s known h = elim (Bool-cases r.actor_finished) [
  | inl done ↦ rw (done, finish) (known, h)
  | inr open_ ↦ rw (open_, finish) (known, publish-IsKept _ storage s known h)
]

pub finish-next_id :
    (now : ℕ) (update : OperationUpdate) (storage : Option ℕ × Faults) (r : McpOperationDto)
    (s : StoreState)
    → (finish now update storage r s).1.next_id ≡ s.next_id
unfolding finish publish
finish-next_id now update storage r s = elim (Bool-cases r.actor_finished) [
  | inl done ↦ rw (done, finish) refl
  | inr open_ ↦ rw (open_, finish) refl
]

pub finish_done :
    (now : ℕ) (update : OperationUpdate) (storage : Option ℕ × Faults) (r : McpOperationDto)
    (s : StoreState)
    → r.actor_finished ≡ true
    → (finish now update storage r s).0 ≡ r
unfolding finish
finish_done now update storage r s done = rw (done, finish) refl
