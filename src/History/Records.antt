-- ===== src/History/Records.antt =====
-- The records of the history under undo and redo: `updated_history_record`, `changed_created_id`,
-- `replace_record_ids`, `summary_name`, and what is read of an engine result.
use norves_editor.Common.{
  Bool, false, String, Option, none, some, if◌then◌else◌, ◌==◌, string_eq, nat_eq, option_eq,
}
use norves_editor.History.Types.{
  Json, source_eq, HistoryDirection, Reason, Result, ok, err, request, HistoryRecord, create,
  duplicate, reparent, set_property, group_key_eq,
}

abbrev non_empty : String → Option String
non_empty text = if text == "" then none else some text

abbrev changed : String → String → Option (String × String)
changed old_id new_id = if old_id == new_id then none else some (old_id, new_id)

abbrev replace : String → String → String → String
replace old_id new_id value = if value == old_id then new_id else value

abbrev replace_option : String → String → Option String → Option String
replace_option old_id new_id none = none
replace_option old_id new_id (some value) = some (replace old_id new_id value)

module _ {V : Type 0} where
  -- `result.get("accepted").and_then(Value::as_bool) == Some(true)`
  unfoldable pub accepted : Json V → V → Bool
  accepted j result = elim (j.field result "accepted") [
    | none ↦ false
    | some v ↦ elim (j.as_bool v) [ none ↦ false | some b ↦ b ]
  ]

  unfoldable pub non_empty_new_id : Json V → V → Option String
  non_empty_new_id j result = elim (j.field result "newId") [
    | none ↦ none
    | some v ↦ elim (j.as_str v) [ none ↦ none | some text ↦ non_empty text ]
  ]

  abbrev or_malformed : Option String → (String → HistoryRecord V) → Result (HistoryRecord V)
  or_malformed none f = err (request Reason.new_id_missing)
  or_malformed (some created_id) f = ok (f created_id)

  -- A redone creation takes the identifier that the engine gave it this time.
  unfoldable pub updated_history_record :
      Json V → HistoryRecord V → HistoryDirection → V → Result (HistoryRecord V)
  unfolding non_empty_new_id
  updated_history_record j (create created_id parent_id kind) HistoryDirection.redo result =
      or_malformed (non_empty_new_id j result) λ new_id. create new_id parent_id kind
  updated_history_record j (duplicate source_object_id created_id parent_id) HistoryDirection.redo
        result =
      or_malformed (non_empty_new_id j result) λ new_id. duplicate source_object_id new_id parent_id
  updated_history_record j record_of _ result = ok record_of

  unfoldable pub changed_created_id : HistoryRecord V → HistoryRecord V → Option (String × String)
  changed_created_id (create old_id _ _) (create new_id _ _) = changed old_id new_id
  changed_created_id (duplicate _ old_id _) (duplicate _ new_id _) = changed old_id new_id
  changed_created_id _ _ = none

  unfoldable pub replace_record_ids : String → String → HistoryRecord V → HistoryRecord V
  replace_record_ids o n (create created_id parent_id kind) =
      create (replace o n created_id) (replace_option o n parent_id) kind
  replace_record_ids o n (duplicate source_object_id created_id parent_id) =
      duplicate (replace o n source_object_id) (replace o n created_id)
        (replace_option o n parent_id)
  replace_record_ids o n (reparent object_id old_parent_id new_parent_id) =
      reparent (replace o n object_id) (replace_option o n old_parent_id)
        (replace_option o n new_parent_id)
  replace_record_ids o n (set_property object_id property old_value new_value) =
      set_property (replace o n object_id) property old_value new_value

  unfoldable pub summary_name : HistoryRecord V → String
  summary_name (create _ _ _) = "オブジェクトを作成"
  summary_name (duplicate _ _ _) = "オブジェクトを複製"
  summary_name (reparent _ _ _) = "親を変更"
  summary_name (set_property _ _ _ _) = "プロパティを変更"
