-- ===== src/History/Prepare.antt =====
-- Preparing an edit: `prepare` and `resolve_capture` of history.rs, which check the old value that
-- the user interface captured against the corrections.
pub mod Captures
use norves_editor.Common.{
  ℕ, zero, suc, ◌+◌, ◌-◌, ◌*◌, ◌/◌, ◌%◌, ◌≤◌, ◌<◌, min, max, ◌≡◌, ◌≢◌, refl, sym, ap, subst, ◌∙◌,
  ◌⊎◌, inl, inr, ◌↔◌, Bool, true, false, not, ◌&&◌, ◌||◌, String, Option, none, some, List, [], ◌∷◌,
  ◌++◌, map, reverse, arith, length, head?, any, retain, take_while, All, if◌then◌else◌, ltb, leb,
  nat_beq, nat_beq_iff, Bool-cases, Option-cases, ◌==◌, Eq, string_eq, nat_eq, option_eq,
  option_beq, beq_refl, eq_iff, u64_max, u64_modulus, wrapping_add, saturating_add, saturating_sub,
}
use norves_editor.Common.Dict
use norves_editor.History.Corrections
use norves_editor.History.Corrections.{CorrectionKey, CorrectionValue, CorrectionEntry, key_eq}
use norves_editor.History.State.{HistoryState}
use norves_editor.History.Types.{
  Json, EditSource, source_eq, EditKind, HistoryDirection, Reason, BackendError, Result, ok, err,
  request, engine, unrelated, HistoryMarker, HistoryRecord, create, duplicate, reparent,
  set_property, GroupKey, group_key_eq, key_beq, key_beq_iff, GroupMetadata, HistoryEntry,
  ActiveGroup, PendingGroupAction, HistoryCapture, PriorCapture, HistoryRequest,
  PreparedHistoryRequest, HistoryPrior, QueuedEditResult, HistoryOperationContext,
  HistoryActionRequest, HistoryActionStep, HistoryAction,
}

abbrev refresh_required : {A : Type 0} → Result A
refresh_required = err (request Reason.refresh_required)

-- A corrected value of the wrong kind asks for a refresh.
abbrev from_correction : {T : Type 0} → Option T → Result (Option T)
from_correction none = refresh_required
from_correction (some t) = ok (some t)

-- Without a newer entry: refused if the key's value may have been lost.
abbrev uncorrected : {T : Type 0} → HistoryCapture T → ℕ → Bool → Result (Option T)
uncorrected capture lost_through is_cached =
    if elim capture.value [ none ↦ false | some t ↦ true ]
      && ltb capture.revision lost_through
      && not is_cached
    then refresh_required
    else ok capture.value

module _ {V : Type 0} where
  abbrev corrected :
      {T : Type 0}
      → Option (CorrectionEntry V)
      → HistoryCapture T
      → ℕ
      → (CorrectionValue V → Option T)
      → Result (Option T)
  corrected none capture lost_through correction = uncorrected capture lost_through false
  corrected (some e) capture lost_through correction =
      if ltb capture.revision e.revision
      then from_correction (correction e.value)
      else uncorrected capture lost_through true

  unfoldable pub resolve_capture :
      {T : Type 0}
      → HistoryState V
      → CorrectionKey
      → HistoryCapture T
      → EditSource
      → ℕ
      → (CorrectionValue V → Option T)
      → Result (Option T)
  resolve_capture s key capture source generation correction =
      if not (source == EditSource.ui)
        || not (capture.generation == generation)
        || not (s.generation == some generation)
        || ltb s.applied_revision capture.revision
      then refresh_required
      else corrected (Dict.get key s.corrections.entries) capture s.corrections.lost_through
          correction

  unfoldable pub as_parent : CorrectionValue V → Option (Option String)
  as_parent (CorrectionValue.parent p) = some p
  as_parent (CorrectionValue.property v) = none

  unfoldable pub as_property : CorrectionValue V → Option V
  as_property (CorrectionValue.property v) = some v
  as_property (CorrectionValue.parent p) = none

  -- An edit over MCP reads the old value itself, inside the queue.
  unfoldable pub resolve_prior :
      {T : Type 0}
      → HistoryState V
      → CorrectionKey
      → PriorCapture T
      → EditSource
      → ℕ
      → (CorrectionValue V → Option T)
      → Result (Option T)
  unfolding resolve_capture
  resolve_prior s key (PriorCapture.ui capture) source generation correction =
      resolve_capture s key capture source generation correction
  resolve_prior s key PriorCapture.in_action source generation correction =
      if source == EditSource.mcp then ok none else refresh_required

  abbrev on_ok :
      {A : Type 0} → Result A → (A → PreparedHistoryRequest V) → Result (PreparedHistoryRequest V)
  on_ok (ok a) f = ok (f a)
  on_ok (err e) f = err e

  unfoldable pub prepare :
      HistoryState V → HistoryRequest V → EditSource → ℕ → Result (PreparedHistoryRequest V)
  unfolding resolve_prior as_parent as_property
  prepare s (HistoryRequest.create_object parent_id kind) source generation =
      ok (PreparedHistoryRequest.create_object parent_id kind)
  prepare s (HistoryRequest.duplicate_object source_object_id parent_id) source generation =
      ok (PreparedHistoryRequest.duplicate_object source_object_id parent_id)
  prepare s (HistoryRequest.reparent_object object_id new_parent_id old_parent) source generation =
      on_ok
        (resolve_prior s (CorrectionKey.parent object_id) old_parent source generation as_parent)
        λ old_parent_id.
          PreparedHistoryRequest.reparent_object object_id new_parent_id old_parent_id
  prepare s (HistoryRequest.set_property object_id property requested_value old_value) source
        generation =
      on_ok
        (resolve_prior s (CorrectionKey.property object_id property) old_value source generation
          as_property)
        λ old. PreparedHistoryRequest.set_property object_id property requested_value old
  prepare s (HistoryRequest.delete_object object_id) source generation =
      ok (PreparedHistoryRequest.delete_object object_id)
