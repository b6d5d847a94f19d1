-- ===== src/Tests/History.antt =====
-- The history's theorems on small inputs.
use norves_editor.Common.{
  ℕ, ◌≤◌, ◌≡◌, refl, ◌↔◌, true, false, some, List, [], ◌∷◌, ◌++◌, map, arith, take_while, All,
  string_eq, nat_eq, option_eq,
}
use norves_editor.History.Types.{
  EditSource, source_eq, EditKind, HistoryDirection, ok, group_key_eq, HistoryEntry, HistoryCapture,
  PreparedHistoryRequest,
}
use norves_editor.Common.Dict
use norves_editor.Tests.Samples.{
  Sample, text, answer, json, connected_state, by_user, accepted_answer, entry, edited,
  undo_request, redo_request, action,
}
use norves_editor.History.State.{HistoryState, init, visible_stack}
use norves_editor.History.Corrections
use norves_editor.History.Corrections.{CorrectionKey, CorrectionValue, insert}
use norves_editor.History.Corrections.Bounds.{empty-IsBounded}
use norves_editor.History.Corrections.Tracking.{never, Tracks}
use norves_editor.History.Records.{accepted}
use norves_editor.History.Prepare.{resolve_capture, as_property}
use norves_editor.History.Prepare.Captures.{
  set_property_is_seen, resolve_capture_iff, is_remembered,
}
use norves_editor.History.Recording.{record_success_in_group, applied_value}
use norves_editor.History.Recording.Tracking.{record_success_in_group-Tracks}
use norves_editor.History.Recording.Effects.{noted_success, noted_success-IsAfter}
use norves_editor.History.Actions.{prepare_action, same_group, step_of}
use norves_editor.History.Actions.TopGroup.{StopsAt, prepare_action_takes_top_group}
use norves_editor.History.Finish.{finish_action_success}
use norves_editor.History.Finish.RoundTrip.{undo_redo_roundtrip}
use norves_editor.History.Groups.{matches}
use norves_editor.History.Groups.Secrets.{matches_iff}
use norves_editor.History.Machine.{run, synchronizes, records}
use norves_editor.History.Machine.Sound.{IsSound}
use norves_editor.History.Machine.Invariant.{run_from_init-IsSound}

never-Tracks : Tracks (connected_state).corrections (never {V = Sample}) 0
unfolding Dict.get
never-Tracks k = tt

abbrev colour_edit : PreparedHistoryRequest Sample
colour_edit = PreparedHistoryRequest.set_property "cube" "colour" (text "blue") (some (text "red"))

record_success_in_group-Tracks_example :
    Tracks
      (record_success_in_group json connected_state colour_edit by_user accepted_answer 5 6
        7).corrections
      (noted_success json never colour_edit accepted_answer 1)
      (record_success_in_group json connected_state colour_edit by_user accepted_answer 5 6
        7).applied_revision
record_success_in_group-Tracks_example =
    record_success_in_group-Tracks json connected_state colour_edit by_user accepted_answer 5 6 7
      never (noted_success json never colour_edit accepted_answer 1) empty-IsBounded never-Tracks
      (omega arith) (noted_success-IsAfter json never colour_edit accepted_answer 1)

abbrev old_capture : HistoryCapture Sample
old_capture = record { generation = 1; revision = 0; value = some (text "red") }

taken : accepted json (answer true "") ≡ true
unfolding accepted
taken = refl

resolved :
    resolve_capture
      (record_success_in_group json connected_state colour_edit by_user accepted_answer 5 6 7)
      (CorrectionKey.property "cube" "colour")
      old_capture
      EditSource.ui
      1
      as_property
    ≡ ok (some (text "blue"))
unfolding resolve_capture record_success_in_group Dict.get insert Corrections.needed_bytes
    Corrections.store Dict.insert as_property Corrections.drop_entry Corrections.make_room
resolved = refl

set_property_is_seen_example : text "blue" ≡ applied_value json (answer true "") (text "blue")
set_property_is_seen_example =
    set_property_is_seen json connected_state never "cube" "colour" (text "blue")
      (some (text "red")) by_user accepted_answer 5 6 7 old_capture EditSource.ui 1 (text "blue")
      empty-IsBounded never-Tracks (omega arith) taken (omega arith) resolved

resolve_capture_iff_example :
    (resolve_capture connected_state
        (CorrectionKey.property "cube" "colour")
        old_capture
        EditSource.ui
        1
        as_property
      ≡ ok (some (text "red")))
    ↔ ((EditSource.ui ≡ EditSource.ui)
        × (old_capture.generation ≡ 1)
        × ((connected_state).generation ≡ some 1)
        × (old_capture.revision ≤ (connected_state).applied_revision)
        × (old_capture.value ≡ some (text "red"))
        × (is_remembered connected_state (CorrectionKey.property "cube" "colour") old_capture
            ≡ true))
resolve_capture_iff_example =
    resolve_capture_iff connected_state never (CorrectionKey.property "cube" "colour") old_capture
      EditSource.ui 1 as_property (text "red") never-Tracks

undone : HistoryState Sample
undone =
    (finish_action_success json edited (action HistoryDirection.undo) EditSource.ui EditKind.undo 2
      1 (answer true "")).1

prepares : prepare_action edited undo_request ≡ some (action HistoryDirection.undo)
unfolding prepare_action take_while
prepares = refl

prepare_action_takes_top_group_example :
    (run rest : List (HistoryEntry Sample)) × (visible_stack HistoryDirection.undo edited
      ≡ run ++ rest)
    × ((action HistoryDirection.undo).steps ≡ map step_of run)
    × All (λ e. same_group (action HistoryDirection.undo).group.key e ≡ true) run
    × StopsAt (same_group (action HistoryDirection.undo).group.key) rest
    × (edited.pending ≡ false)
    × (edited.edit_unsupported ≡ false)
    × (1 ≡ edited.revision)
    × (some 1 ≡ some (action HistoryDirection.undo).entry_id)
prepare_action_takes_top_group_example =
    prepare_action_takes_top_group edited undo_request (action HistoryDirection.undo) prepares

abbrev held_secret : List ℕ
held_secret = 1 ∷ 2 ∷ []

abbrev guess : List ℕ
guess = 1 ∷ 3 ∷ []

undo_prepared : prepare_action undone (redo_request 2) ≡ some (action HistoryDirection.redo)
unfolding prepare_action take_while undone finish_action_success
undo_prepared = refl

redone : HistoryState Sample
redone =
    (finish_action_success json undone (action HistoryDirection.redo) EditSource.ui EditKind.redo 3
      1 (answer true "")).1

undo_redo_roundtrip_example : (redone.undo ≡ edited.undo) × (redone.redo ≡ edited.redo)
unfolding redone undone
undo_redo_roundtrip_example =
    undo_redo_roundtrip json edited entry [] undo_request (redo_request 2)
      (action HistoryDirection.undo) (action HistoryDirection.redo) EditSource.ui EditKind.undo
      EditKind.redo 2 3 1 (answer true "") (answer true "") refl refl refl prepares taken refl
      undo_prepared taken (λ id h. ground arith)

matches_iff_example : (matches held_secret guess ≡ true) ↔ (guess ≡ held_secret)
matches_iff_example =
    matches_iff held_secret guess (omega arith, (omega arith, tt)) (omega arith, (omega arith, tt))

run_from_init-IsSound_example :
    IsSound (
      run json init
        (synchronizes (some 1) ∷ records colour_edit by_user accepted_answer 5 6 7 ∷ []))
run_from_init-IsSound_example =
    run_from_init-IsSound json
      (synchronizes (some 1) ∷ records colour_edit by_user accepted_answer 5 6 7 ∷ [])
