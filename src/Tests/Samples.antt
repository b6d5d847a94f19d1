-- ===== src/Tests/Samples.antt =====
-- A small type of JSON values, and a session that has one recorded edit.
use norves_editor.Common.{
  ℕ, Bool, true, false, String, Option, none, some, [], ◌∷◌, if◌then◌else◌, ◌==◌, string_eq, nat_eq,
  option_eq,
}
use norves_editor.History.Types.{
  Json, EditSource, source_eq, EditKind, HistoryDirection, set_property, group_key_eq,
  GroupMetadata, HistoryEntry, QueuedEditResult, HistoryOperationContext, HistoryActionRequest,
  HistoryAction,
}
use norves_editor.History.State.{HistoryState, init}

pub data Sample : Type 0 where
  flag : Bool → Sample
  text : String → Sample
  answer : (accepted : Bool) → (new_id : String) → Sample

abbrev pub sample_field : Sample → String → Option Sample
sample_field (answer b n) key =
    if key == "accepted" then some (flag b) else if key == "newId" then some (text n) else none
sample_field _ key = none

abbrev pub sample_as_bool : Sample → Option Bool
sample_as_bool (flag b) = some b
sample_as_bool _ = none

abbrev pub sample_as_str : Sample → Option String
sample_as_str (text s) = some s
sample_as_str _ = none

abbrev pub sample_text : Sample → String
sample_text (flag b) = if b then "true" else "false"
sample_text (text s) = s
sample_text (answer b n) = n

abbrev pub json : Json Sample
json = record {
  field = sample_field;
  as_bool = sample_as_bool;
  as_str = sample_as_str;
  to_vec_len = λ v. some 8;
  text_to_vec_len = λ t. some 4;
  js_stringify = sample_text;
}

abbrev pub connected_state : HistoryState Sample
connected_state = record init { generation = some 1 }

abbrev pub by_user : HistoryOperationContext
by_user = record {
  source = EditSource.ui;
  kind = EditKind.edit;
  sequence = 1;
  generation = 1;
  group_token = none;
}

abbrev pub accepted_answer : QueuedEditResult Sample
accepted_answer = record { value = answer true ""; prior = none }

abbrev pub group_of_entry : GroupMetadata
group_of_entry = record {
  key = record { generation = 1; sequence = 1 };
  name = "edit";
  source = EditSource.ui;
  created_at = 7;
  count = 1;
  named = false;
}

abbrev pub entry : HistoryEntry Sample
entry = record {
  marker = record { sequence = 1; source = EditSource.ui; kind = EditKind.edit; generation = 1 };
  record_of = set_property "cube" "colour" (text "red") (text "blue");
  group = group_of_entry;
}

-- One edit can be undone.
abbrev pub edited : HistoryState Sample
edited = record init { generation = some 1; revision = 1; applied_revision = 1; undo = entry ∷ [] }

abbrev pub undo_request : HistoryActionRequest
undo_request = record {
  direction = HistoryDirection.undo;
  expected_head_id = some 1;
  expected_revision = 1;
}

abbrev pub action : HistoryDirection → HistoryAction Sample
action direction = record {
  direction = direction;
  entry_id = 1;
  record_of = entry.record_of;
  group = group_of_entry;
  steps = record { entry_id = 1; record_of = entry.record_of } ∷ [];
  grouped = false;
}

abbrev pub redo_request : ℕ → HistoryActionRequest
redo_request revision = record {
  direction = HistoryDirection.redo;
  expected_head_id = some 1;
  expected_revision = revision;
}
