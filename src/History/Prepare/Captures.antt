-- ===== src/History/Prepare/Captures.antt =====
-- What an old value captured by the user interface is worth: `resolve_capture` against the full
-- history of the corrections.
use norves_editor.Common.{
  ℕ, ◌≤◌, ◌<◌, ◌≡◌, refl, Bool, true, false, String, Option, none, some, arith, if◌then◌else◌, ltb,
  leb, ◌||◌, ◌↔◌, string_eq, nat_eq, option_eq, option_beq_iff, beq_refl, u64_max, wrapping_add,
}
use norves_editor.Common.Dict
use norves_editor.History.Corrections.{CorrectionKey, CorrectionValue, CorrectionEntry, key_eq}
use norves_editor.History.Corrections.Tracking.{Latest, Agrees, Tracks}
use norves_editor.History.State.{HistoryState}
use norves_editor.History.Prepare.{resolve_capture, corrected, uncorrected, as_property}
use norves_editor.History.Corrections.Bounds.{IsBounded}
use norves_editor.History.Records.{accepted}
use norves_editor.History.Recording.{record_success_in_group, correction_of, applied_value}
use norves_editor.History.Recording.Tracking.{noted-Tracks}
use norves_editor.History.Types.{
  Json, EditSource, source_eq, source_beq_iff, BackendError, Result, ok, err, group_key_eq,
  HistoryCapture, PreparedHistoryRequest, QueuedEditResult, HistoryOperationContext,
}

-- A guarded result that came out well has passed its guard.
else_ok :
    {A : Type 0} (guard : Bool) (reason : BackendError) (result : Result A) {a : A}
    → (if guard then err reason else result) ≡ ok a
    → result ≡ ok a
else_ok true reason result h = cc
else_ok false reason result h = h

module _ {V T : Type 0} where
  corrected_fresh :
      (o : Option (CorrectionEntry V)) (r : ℕ) (v : CorrectionValue V) (lost now : ℕ)
      (capture : HistoryCapture T) (correction : CorrectionValue V → Option T) (t : T)
      → Agrees o (some (r, v)) lost now
      → capture.revision < r
      → corrected o capture lost correction ≡ ok (some t)
      → correction v ≡ some t
  corrected_fresh (some e) r v lost now capture correction t a newer h = ground arith
  corrected_fresh none r v lost now capture correction t a newer h = ground arith

  -- If a capture resolves to a value, and the key has been edited since the capture, then the value
  -- is the one that the last of these edits left.
  resolve_capture_fresh :
      (s : HistoryState V) (latest : Latest V) (key : CorrectionKey) (capture : HistoryCapture T)
      (source : EditSource) (generation : ℕ) (correction : CorrectionValue V → Option T) (t : T)
      (r : ℕ) (v : CorrectionValue V)
      → Tracks s.corrections latest s.applied_revision
      → latest key ≡ some (r, v)
      → capture.revision < r
      → resolve_capture s key capture source generation correction ≡ ok (some t)
      → correction v ≡ some t
  unfolding resolve_capture
  resolve_capture_fresh s latest key capture source generation correction t r v tracks last newer
        h =
      corrected_fresh (Dict.get key s.corrections.entries) r v s.corrections.lost_through
        s.applied_revision capture correction t (rw last at (tracks key)) newer (else_ok _ _ _ h)

  -- The value of a key now, by the full history: what the last edit since the capture left, or what
  -- was captured, where there was none.
  abbrev pub current_value :
      Option (ℕ × CorrectionValue V) → HistoryCapture T → (CorrectionValue V → Option T) → Option T
  current_value none capture correction = capture.value
  current_value (some (r, v)) capture correction =
      if ltb capture.revision r then correction v else capture.value

  -- Whether the cache can tell if there was an edit since the capture.
  abbrev pub is_remembered : HistoryState V → CorrectionKey → HistoryCapture T → Bool
  is_remembered s key capture =
      leb s.corrections.lost_through capture.revision
      || elim (Dict.get key s.corrections.entries) [ none ↦ false | some e ↦ true ]

  corrected_iff :
      (o : Option (CorrectionEntry V)) (l : Option (ℕ × CorrectionValue V)) (lost now : ℕ)
      (capture : HistoryCapture T) (correction : CorrectionValue V → Option T) (t : T)
      → Agrees o l lost now
      → (corrected o capture lost correction ≡ ok (some t)) ↔ (
          (current_value l capture correction ≡ some t)
          × ((leb lost capture.revision || elim o [ none ↦ false | some e ↦ true ]) ≡ true))
  corrected_iff none none lost now capture correction t a = value_cases capture.value refl
    where
      value_cases :
          (o : Option T)
          → capture.value ≡ o
          → (uncorrected capture lost false ≡ ok (some t))
            ↔ ((capture.value ≡ some t) × ((leb lost capture.revision || false) ≡ true))
      value_cases none e = ground arith
      value_cases (some x) e = ground arith
  corrected_iff none (some (r, v)) lost now capture correction t a = ground arith
  corrected_iff (some e) none lost now capture correction t a = absurd a
  corrected_iff (some e) (some (r, v)) lost now capture correction t a = ground arith

  -- A capture resolves to a value exactly where the user interface made it, in the connection that
  -- is asked about and that the history is of, not after the applied revision, where the full
  -- history gives that value (the captured one if no edit of the key came after, else the last
  -- one, if it corrects this kind of capture), and where the cache remembers enough: it has the
  -- key, or has lost nothing newer than the capture. The cache must be in step with the full
  -- history.
  pub resolve_capture_iff :
      (s : HistoryState V) (latest : Latest V) (key : CorrectionKey) (capture : HistoryCapture T)
      (source : EditSource) (generation : ℕ) (correction : CorrectionValue V → Option T) (t : T)
      → Tracks s.corrections latest s.applied_revision
      → (resolve_capture s key capture source generation correction ≡ ok (some t)) ↔ (
          (source ≡ EditSource.ui)
          × (capture.generation ≡ generation)
          × (s.generation ≡ some generation)
          × (capture.revision ≤ s.applied_revision)
          × (current_value (latest key) capture correction ≡ some t)
          × (is_remembered s key capture ≡ true))
  unfolding resolve_capture
  resolve_capture_iff s latest key capture source generation correction t tracks = ground (
    arith,
    source_beq_iff source EditSource.ui,
    option_beq_iff s.generation (some generation),
    corrected_iff (Dict.get key s.corrections.entries) (latest key) s.corrections.lost_through
        s.applied_revision capture correction t (tracks key),
  )

-- Once a property has been set, a capture of it from before never passes off another value as the
-- old one: if it still resolves to a value, then to the one that the edit left. The edit was
-- accepted, the capture's revision is at most the one applied before it, that revision is below
-- the largest `u64`, and the cache keeps its limits and is in step with the full history.
pub set_property_is_seen :
    {V : Type 0} (j : Json V) (s : HistoryState V) (latest : Latest V) (object_id property : String)
    (requested : V) (old : Option V) (context : HistoryOperationContext) (r : QueuedEditResult V)
    (now later unix : ℕ) (capture : HistoryCapture V) (source : EditSource) (generation : ℕ) (t : V)
    → IsBounded s.corrections
    → Tracks s.corrections latest s.applied_revision
    → s.applied_revision < u64_max
    → accepted j r.value ≡ true
    → capture.revision ≤ s.applied_revision
    → resolve_capture
        (record_success_in_group j s
          (PreparedHistoryRequest.set_property object_id property requested old)
          context
          r
          now
          later
          unix)
        (CorrectionKey.property object_id property)
        capture
        source
        generation
        as_property
      ≡ ok (some t)
    → t ≡ applied_value j r.value requested
unfolding as_property correction_of
set_property_is_seen j s latest object_id property requested old context r now later unix capture
      source generation t b tracks room taken before h =
    let prepared = PreparedHistoryRequest.set_property object_id property requested old in
    let s' = record_success_in_group j s prepared context r now later unix in
    let tracks' = noted-Tracks j s prepared context r now later unix latest b tracks room in
    let fresh =
      resolve_capture_fresh s' _ (CorrectionKey.property object_id property) capture source
        generation as_property t (wrapping_add s.applied_revision 1)
        (CorrectionValue.property (applied_value j r.value requested)) tracks'
        (rw (taken, beq_refl (CorrectionKey.property object_id property)) refl) (omega arith) h in
    cc fresh
