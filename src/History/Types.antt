-- ===== src/History/Types.antt =====
-- The data of the edit history: apps/editor/src-tauri/src/edit_service/history.rs, with the
-- sources and kinds of edits of edit_service.rs and the errors of error.rs that the history raises.
use norves_editor.Common.{
  ℕ, Bool, String, Option, List, ◌≡◌, ◌↔◌, ◌&&◌, true, false, arith, Eq, nat_beq,
}

-- What the history reads of `serde_json::Value`, a library of its own: `V` is the type of values.
pub record Json (V : Type 0) : Type 0 where
  -- `value.get(key)`
  pub field : V → String → Option V
  -- `Value::as_bool`
  pub as_bool : V → Option Bool
  -- `Value::as_str`
  pub as_str : V → Option String
  -- `serde_json::to_vec(value).ok().map(|v| v.len())`
  pub to_vec_len : V → Option ℕ
  -- the same of an `Option<String>`
  pub text_to_vec_len : Option String → Option ℕ
  -- The text by which two property values are compared, `js_stringify` of history.rs: it prints
  -- numbers through `f64`, and is taken as it is.
  pub js_stringify : V → String

pub data EditSource : Type 0 where
  ui mcp : EditSource

pub data EditKind : Type 0 where
  edit undo redo runtime_control : EditKind

pub data HistoryDirection : Type 0 where
  undo redo : HistoryDirection

abbrev pub source_beq : EditSource → EditSource → Bool
source_beq EditSource.ui EditSource.ui = true
source_beq EditSource.mcp EditSource.mcp = true
source_beq _ _ = false

pub source_beq_iff : (a b : EditSource) → (source_beq a b ≡ true) ↔ (a ≡ b)
source_beq_iff a b = ground arith

instance abbrev pub source_eq : Eq EditSource
source_eq = record { equal = source_beq; equal_iff = source_beq_iff }

-- `BackendError`, the variants that the history raises or reads. A `request` carries the reason in
-- place of its message.
pub data Reason : Type 0 where
  refresh_required not_accepted new_id_missing bad_group_name group_mismatch : Reason
  group_expired nothing_to_discard no_randomness : Reason

pub data BackendError : Type 0 where
  request : Reason → BackendError
  engine : BackendError
  unrelated : BackendError

pub data Result {ℓ} (A : Type ℓ) : Type ℓ where
  ok : A → Result A
  err : BackendError → Result A

pub record HistoryMarker : Type 0 where
  pub sequence : ℕ
  pub source : EditSource
  pub kind : EditKind
  pub generation : ℕ

pub data HistoryRecord (V : Type 0) : Type 0 where
  create : (created_id : String) → (parent_id kind : Option String) → HistoryRecord V
  duplicate : (source_object_id created_id : String) → (parent_id : Option String) → HistoryRecord V
  reparent : (object_id : String) → (old_parent_id new_parent_id : Option String) → HistoryRecord V
  set_property : (object_id property : String) → (old_value new_value : V) → HistoryRecord V

pub record GroupKey : Type 0 where
  pub generation : ℕ
  pub sequence : ℕ

abbrev pub key_beq : GroupKey → GroupKey → Bool
key_beq a b = nat_beq a.generation b.generation && nat_beq a.sequence b.sequence

pub key_beq_iff : (a b : GroupKey) → (key_beq a b ≡ true) ↔ (a ≡ b)
key_beq_iff a b = ground arith

instance abbrev pub group_key_eq : Eq GroupKey
group_key_eq = record { equal = key_beq; equal_iff = key_beq_iff }

pub record GroupMetadata : Type 0 where
  pub key : GroupKey
  pub name : String
  pub source : EditSource
  pub created_at : ℕ
  pub count : ℕ
  pub named : Bool

pub record HistoryEntry (V : Type 0) : Type 0 where
  pub marker : HistoryMarker
  pub record_of : HistoryRecord V
  pub group : GroupMetadata

-- Times of the monotonic clock are counted in nanoseconds. A secret is its bytes. Of a list of
-- entries the head is the back of the vector.
pub record ActiveGroup (V : Type 0) : Type 0 where
  pub token : ℕ
  pub secret : Option (List ℕ)
  pub started_at : ℕ
  pub last_edit_at : ℕ
  pub metadata : GroupMetadata
  pub entries : List (HistoryEntry V)

pub record PendingGroupAction : Type 0 where
  pub direction : HistoryDirection
  pub metadata : GroupMetadata
  pub completed : ℕ
  pub outcome_unknown : Bool
  pub retry_allowed : Bool

pub record HistoryCapture (T : Type 0) : Type 0 where
  pub generation : ℕ
  pub revision : ℕ
  pub value : Option T

pub data PriorCapture (T : Type 0) : Type 0 where
  ui : HistoryCapture T → PriorCapture T
  in_action : PriorCapture T

pub data HistoryRequest (V : Type 0) : Type 0 where
  create_object : (parent_id kind : Option String) → HistoryRequest V
  duplicate_object : (source_object_id : String) → (parent_id : Option String) → HistoryRequest V
  reparent_object :
      (object_id : String)
      → (new_parent_id : Option String) → PriorCapture (Option String)
      → HistoryRequest V
  set_property :
      (object_id property : String) → (requested_value : V) → PriorCapture V → HistoryRequest V
  delete_object : (object_id : String) → HistoryRequest V

pub data PreparedHistoryRequest (V : Type 0) : Type 0 where
  create_object : (parent_id kind : Option String) → PreparedHistoryRequest V
  duplicate_object :
      (source_object_id : String) → (parent_id : Option String) → PreparedHistoryRequest V
  reparent_object :
      (object_id : String)
      → (new_parent_id : Option String) → (old_parent_id : Option (Option String))
      → PreparedHistoryRequest V
  set_property :
      (object_id property : String)
      → (requested_value : V) → (old_value : Option V) → PreparedHistoryRequest V
  delete_object : (object_id : String) → PreparedHistoryRequest V

pub data HistoryPrior (V : Type 0) : Type 0 where
  property : V → HistoryPrior V
  parent : Option String → HistoryPrior V

pub record QueuedEditResult (V : Type 0) : Type 0 where
  pub value : V
  pub prior : Option (HistoryPrior V)

pub record HistoryOperationContext : Type 0 where
  pub source : EditSource
  pub kind : EditKind
  pub sequence : ℕ
  pub generation : ℕ
  pub group_token : Option ℕ

pub record HistoryActionRequest : Type 0 where
  pub direction : HistoryDirection
  pub expected_head_id : Option ℕ
  pub expected_revision : ℕ

pub record HistoryActionStep (V : Type 0) : Type 0 where
  pub entry_id : ℕ
  pub record_of : HistoryRecord V

pub record HistoryAction (V : Type 0) : Type 0 where
  pub direction : HistoryDirection
  pub entry_id : ℕ
  pub record_of : HistoryRecord V
  pub group : GroupMetadata
  pub steps : List (HistoryActionStep V)
  pub grouped : Bool
