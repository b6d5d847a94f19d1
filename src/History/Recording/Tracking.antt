-- ===== src/History/Recording/Tracking.antt =====
-- The corrections while edits are recorded: they go on tracking the last value of each key.
use norves_editor.Common.{
  ℕ, ◌≤◌, ◌<◌, ◌≡◌, refl, inl, inr, sym, subst, Option, none, some, arith, Bool-cases, string_eq,
  nat_eq, option_eq, u64_max, wrapping_add,
}
use norves_editor.Common.Dict
use norves_editor.History.Recording.Effects.{noted, noted_success, IsAfter, noted_success_unique}
use norves_editor.History.Corrections.{key_eq, CorrectionKey, CorrectionValue}
use norves_editor.History.State.{HistoryState, push_marker, close_active_group}
use norves_editor.History.Records.{accepted}
use norves_editor.History.Corrections.Bounds.{IsBounded}
use norves_editor.History.Corrections.Tracking.{
  Latest, Agrees, Tracks, insert-Tracks, clear_and_mark_lost_through-Tracks, Tracks-later,
}
use norves_editor.History.Recording.{
  recorded, correction_of, correct, file, record_deletion, record_edit, is_deletion,
  record_success_in_group,
}
use norves_editor.History.Types.{
  Json, source_eq, HistoryRecord, group_key_eq, PreparedHistoryRequest, QueuedEditResult,
  HistoryOperationContext,
}

module _ {V : Type 0} where
  close_active_group-corrections :
      (s : HistoryState V)
      → ((close_active_group s).0.corrections ≡ s.corrections)
        × ((close_active_group s).0.applied_revision ≡ s.applied_revision)
  unfolding close_active_group
  close_active_group-corrections s = ground arith

  file-corrections :
      (s : HistoryState V) (context : HistoryOperationContext) (o : Option (HistoryRecord V))
      (now later unix : ℕ)
      → ((file s context o now later unix).corrections ≡ s.corrections)
        × ((file s context o now later unix).applied_revision ≡ s.applied_revision)
  unfolding file
  file-corrections s context none now later unix = (refl, refl)
  file-corrections s context (some x) now later unix = ground arith

module _ {V : Type 0} (j : Json V) where
  correct-Tracks :
      (s : HistoryState V) (o : Option (CorrectionKey × CorrectionValue V)) (latest : Latest V)
      (now : ℕ)
      → IsBounded s.corrections
      → Tracks s.corrections latest now
      → now ≤ s.applied_revision
      → Tracks (correct j s o).corrections (noted latest o s.applied_revision) s.applied_revision
  unfolding correct
  correct-Tracks s none latest now b t h =
      Tracks-later s.corrections latest now s.applied_revision t h
  correct-Tracks s (some (key, value)) latest now b t h =
      insert-Tracks j s.corrections latest now key s.applied_revision value b t h

  correct-applied :
      (s : HistoryState V) (o : Option (CorrectionKey × CorrectionValue V))
      → (correct j s o).applied_revision ≡ s.applied_revision
  unfolding correct
  correct-applied s none = refl
  correct-applied s (some (key, value)) = refl

  record_edit-Tracks :
      (s : HistoryState V) (prepared : PreparedHistoryRequest V) (context : HistoryOperationContext)
      (r : QueuedEditResult V) (now later unix : ℕ) (latest : Latest V)
      → IsBounded s.corrections
      → Tracks s.corrections latest s.applied_revision
      → s.applied_revision < u64_max
      → Tracks
          (record_edit j s prepared context r now later unix).corrections
          (noted latest (correction_of j prepared r) (wrapping_add s.applied_revision 1))
          (record_edit j s prepared context r now later unix).applied_revision
  unfolding record_edit push_marker
  record_edit-Tracks s prepared context r now later unix latest b t h =
      let s2 =
        push_marker (record s { applied_revision = wrapping_add s.applied_revision 1 })
          context.source context.kind context.sequence context.generation in
      let o = correction_of j prepared r in
      let kept = file-corrections (correct j s2 o) context (recorded j prepared r) now later unix in
      rw (kept.0, kept.1, correct-applied s2 o)
        (correct-Tracks s2 o latest s.applied_revision b t (omega arith))

  record_deletion-Tracks :
      (s : HistoryState V) (context : HistoryOperationContext) (latest : Latest V)
      → Tracks s.corrections latest s.applied_revision
      → s.applied_revision < u64_max
      → Tracks
          (record_deletion s context).corrections
          latest
          (record_deletion s context).applied_revision
  unfolding record_deletion push_marker
  record_deletion-Tracks s context latest t h =
      clear_and_mark_lost_through-Tracks s.corrections latest s.applied_revision
        (wrapping_add s.applied_revision 1) t (omega arith)

  -- The same, against the history that the corrections themselves make up.
  pub noted-Tracks :
      (s : HistoryState V) (prepared : PreparedHistoryRequest V) (context : HistoryOperationContext)
      (r : QueuedEditResult V) (now later unix : ℕ) (latest : Latest V)
      → IsBounded s.corrections
      → Tracks s.corrections latest s.applied_revision
      → s.applied_revision < u64_max
      → Tracks
          (record_success_in_group j s prepared context r now later unix).corrections
          (noted_success j latest prepared r (wrapping_add s.applied_revision 1))
          (record_success_in_group j s prepared context r now later unix).applied_revision
  unfolding record_success_in_group
  noted-Tracks s prepared context r now later unix latest b t h =
      elim (Bool-cases (accepted j r.value)) [
        | inr refused ↦ rw (refused, record_success_in_group) t
        | inl taken ↦ elim (Bool-cases (is_deletion prepared)) [
          | inl deletion ↦
              rw (taken, deletion, record_success_in_group)
                (record_deletion-Tracks s context latest t h)
          | inr edit ↦
              rw (taken, edit, record_success_in_group)
                (record_edit-Tracks s prepared context r now later unix latest b t h)
        ]
      ]

  -- Recording the end of an edit, accepted or not, keeps the cache of corrections in step with the
  -- full history of the last value of each key: an entry is that value, and what the cache no
  -- longer holds is no newer than what it knows to be lost. In the full history an accepted edit
  -- sets, at the revision it ends at, the parent of the object that it makes or moves, where it is
  -- known, or the value of a property, which is the one that the engine applied or else the one
  -- asked for; nothing else changes, and nothing where the edit is refused. The cache must keep
  -- its limits and be in step before, and the applied revision must be below the largest `u64`.
  pub record_success_in_group-Tracks :
      (s : HistoryState V) (prepared : PreparedHistoryRequest V) (context : HistoryOperationContext)
      (r : QueuedEditResult V) (now later unix : ℕ) (latest latest' : Latest V)
      → IsBounded s.corrections
      → Tracks s.corrections latest s.applied_revision
      → s.applied_revision < u64_max
      → IsAfter j latest prepared r.value (wrapping_add s.applied_revision 1) latest'
      → Tracks
          (record_success_in_group j s prepared context r now later unix).corrections
          latest'
          (record_success_in_group j s prepared context r now later unix).applied_revision
  record_success_in_group-Tracks s prepared context r now later unix latest latest' b t h after k =
      let s' = record_success_in_group j s prepared context r now later unix in
      subst
        (λ l.
          Agrees (Dict.get k s'.corrections.entries) l s'.corrections.lost_through
            s'.applied_revision)
        (sym (
          noted_success_unique j latest latest' prepared r (wrapping_add s.applied_revision 1) after
            k))
        (noted-Tracks s prepared context r now later unix latest b t h k)
