-- ===== src/History/Recording/Cases.antt =====
-- The ways in which an accepted edit enters the history.
use norves_editor.Common.{
  ℕ, ◌≡◌, refl, inl, inr, Option, none, some, Bool-cases, string_eq, nat_eq, option_eq,
}
use norves_editor.History.State.{HistoryState}
use norves_editor.History.Recording.{file, file_under, file_in_group, file_alone, is_members_edit}
use norves_editor.History.Types.{
  source_eq, HistoryMarker, HistoryRecord, group_key_eq, ActiveGroup, HistoryOperationContext,
}

module _ {V : Type 0} where
  -- No record, an entry of its own, or an entry of the open group.
  pub file_cases {ℓ} :
      (P : HistoryState V → Type ℓ) (s : HistoryState V) (c : HistoryOperationContext)
      (o : Option (HistoryRecord V)) (now later unix : ℕ)
      → P s
      → ((m : HistoryMarker) (x : HistoryRecord V) → P (file_alone s c m x unix))
      → ((g : ActiveGroup V) (m : HistoryMarker) (x : HistoryRecord V)
          → s.active_group ≡ some g
          → P (file_in_group s g m x now later))
      → P (file s c o now later unix)
  unfolding file file_under
  file_cases P s c none now later unix same alone joined = same
  file_cases P s c (some x) now later unix same alone joined = go s.active_group refl
    where
      marker : HistoryMarker
      marker = record {
        sequence = c.sequence;
        source = c.source;
        kind = c.kind;
        generation = c.generation;
      }

      go :
          (o : Option (ActiveGroup V))
          → s.active_group ≡ o
          → P (file_under o s c marker x now later unix)
      go none e = alone marker x
      go (some g) e = elim (Bool-cases (is_members_edit g c)) [
        | inl member ↦ rw member (joined g marker x e)
        | inr other ↦ rw other (alone marker x)
      ]
