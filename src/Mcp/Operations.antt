-- ===== src/Mcp/Operations.antt =====
-- `OperationStore` and `OperationHandle` of apps/editor/src-tauri/src/mcp/operations.rs: the records
-- of what MCP clients asked for. The files are in Storage.
pub mod Storage
pub mod Kept
pub mod Records
use norves_editor.Common.{
  ℕ, zero, suc, ◌+◌, ◌≡◌, Bool, true, false, not, ◌&&◌, ◌||◌, String, Option, none, some, List, [],
  ◌∷◌, ◌++◌, arith, length, any, retain, if◌then◌else◌, ltb, leb, nat_beq, ◌==◌, string_eq, nat_eq,
}
use Prim.Native.Char.{Char, code}
use Prim.Native.String.{len, ◌++◌ as append}
use norves_editor.Common.Dict
use norves_editor.Common.Dict.{Dict}
use norves_editor.Mcp.Operations.Storage.{Files, Faults, append_record, size_of}

-- `McpOperationDto` of dto.rs.
pub record McpOperationDto : Type 0 where
  pub request_id : String
  pub session_id : String
  pub timestamp : ℕ
  pub tool : String
  pub target : String
  pub summary : String
  pub result : String
  pub outcome : String
  pub display_group_id : Option String
  pub completed_count : ℕ
  pub pending : Bool
  pub retry_allowed : Bool
  pub automatic_retry_allowed : Bool
  pub actor_finished : Bool

-- `StoreState`, without the sink; `storage_error` is whether the message is set.
pub record StoreState : Type 0 where
  pub session_id : String
  pub next_id : ℕ
  pub revision : ℕ
  pub records : List McpOperationDto
  pub directory : Option Files
  pub storage_error : Bool

pub record OperationUpdate : Type 0 where
  pub result : String
  pub outcome : String
  pub completed : ℕ
  pub pending : Bool
  pub retry_allowed : Bool
  pub actor_finished : Bool

abbrev pub max_records : ℕ
max_records = 500

-- `OperationStore::new`: the session's identifier, the directory, and whether it cannot be opened.
unfoldable pub new : String → Option Files → Bool → StoreState
new session directory fails = record {
  session_id = session;
  next_id = 1;
  revision = 0;
  records = [];
  directory = elim directory [
    | none ↦ none
    | some files ↦
        some (if fails then files else record files { current = some (size_of files.current) })
  ];
  storage_error = elim directory [ none ↦ true | some files ↦ fails ];
}

-- What `begin` uses of other libraries: the arguments as JSON, the printing of numbers, the hash.
pub record Outside (V : Type 0) : Type 0 where
  pub get : V → String → Option V
  pub as_str : V → Option String
  -- `{}` of a `u64`
  pub display : ℕ → String
  -- `{:016x}` of `target_hasher.hash_one(value)`
  pub fingerprint : String → String

abbrev pub known_tools : List String
known_tools =
    "object_set_property" ∷ "scene_create_object" ∷ "scene_duplicate_object"
    ∷ "scene_reparent_object" ∷ "scene_delete_object" ∷ "component_add" ∷ "component_remove"
    ∷ "edit_undo" ∷ "edit_redo" ∷ "edit_begin_group" ∷ "edit_end_group" ∷ "runtime_play"
    ∷ "runtime_pause" ∷ "runtime_stop" ∷ "engine_get_status" ∷ "bridge_get_capabilities"
    ∷ "scene_get_tree_page" ∷ "object_get_snapshot" ∷ "schema_get_snapshot" ∷ "asset_get_manifest"
    ∷ "asset_resolve" ∷ "logs_get_recent" ∷ "viewport_get_thumbnail" ∷ []

unfoldable pub known_tool : String → String
known_tool name = if any (λ t. t == name) known_tools then name else "unknown_tool"

abbrev pub summary_of : String → Bool → String
summary_of outcome pending =
    if outcome == "unknown"
    then "操作結果は不明です。自動再送せず、要求IDとエディタの状態を確認してください。"
    else if outcome == "rejected" && pending
    then "操作は拒否され、編集履歴を保留しています。自動再送せず、画面で再試行または破棄を選んでください。"
    else if pending
    then "編集履歴を保留しています。自動再送せず、画面で適用済みの件数と保留状態を確認してください。"
    else if outcome == "partial"
    then "一部の適用を確認済みです。自動再送せず、エディタの状態を確認してください。"
    else if outcome == "rejected"
    then "エンジンが操作を拒否しました。変更は適用されていません。"
    else if outcome == "notApplied"
    then "操作は未送信です。理由を確認してください。"
    else if outcome == "readFailed"
    then "読み取りが完了しませんでした。"
    else if outcome == "noChange"
    then "操作対象の履歴がないため、変更はありません。"
    else "操作が完了しました。"

-- `BackendError`, as far as `result_kind` reads it.
pub data Failure : Type 0 where
  request : (message : String) → Failure
  edit_cancelled mcp_authorization_revoked unrelated : Failure

abbrev pub has_prefix : String → String → Bool
has_prefix String.[] text = true
has_prefix (String.◌∷◌ c p) String.[] = false
has_prefix (String.◌∷◌ c p) (String.◌∷◌ d text) = nat_beq (code c) (code d) && has_prefix p text

-- `text.contains(part)`
abbrev pub includes : String → String → Bool
includes part String.[] = has_prefix part String.[]
includes part (String.◌∷◌ c text) = has_prefix part (String.◌∷◌ c text) || includes part text

abbrev pub is_deadline : Option Failure → Bool
is_deadline (some (Failure.request message)) = includes "期限" message || includes "timed out" message
is_deadline _ = false

abbrev pub kind_of_error : Option Failure → String
kind_of_error (some Failure.edit_cancelled) = "cancelled"
kind_of_error (some (Failure.request message)) = "rejected"
kind_of_error (some Failure.mcp_authorization_revoked) = "rejected"
kind_of_error _ = "failed"

unfoldable pub result_kind : String → Option Failure → Bool → String
result_kind outcome error timed_out =
    if timed_out || is_deadline error
    then "timedOut"
    else if outcome == "applied" || outcome == "noChange"
    then "success"
    else if outcome == "partial"
    then "partial"
    else if outcome == "rejected"
    then "rejected"
    else if outcome == "unknown"
    then "unknown"
    else kind_of_error error

module _ {V : Type 0} (outside : Outside V) where
  abbrev pub target_at : String → Option String → Option String
  target_at key none = none
  target_at key (some value) =
      if ltb 512 (len value)
      then some (append key ": 対象ID省略")
      else some (append key (append ": #" (outside.fingerprint value)))

  -- `params.get(*key).and_then(Value::as_str)`
  abbrev pub text_at : V → String → Option String
  text_at params key = elim (outside.get params key) [ none ↦ none | some v ↦ outside.as_str v ]

  -- `find_map` over the keys.
  unfoldable pub find_target : V → List String → Option String
  find_target params [] = none
  find_target params (key ∷ keys) =
      let rest = find_target params keys in
      elim (target_at key (text_at params key)) [ none ↦ rest | some target ↦ some target ]

  abbrev pub default_target : String → String
  default_target tool =
      if tool == "edit_undo" || tool == "edit_redo"
      then "履歴の先頭まとまり"
      else if tool == "edit_begin_group" || tool == "edit_end_group"
      then "編集まとまり"
      else "エンジン"

  abbrev pub params_of : V → V
  params_of arguments = elim (outside.get arguments "params") [ none ↦ arguments | some v ↦ v ]

  abbrev pub target_keys : List String
  target_keys = "objectId" ∷ "parentId" ∷ "newParentId" ∷ "rootId" ∷ "logicalPath" ∷ []

  abbrev pub target_of : String → V → String
  target_of tool arguments = elim (find_target (params_of arguments) target_keys) [
    | none ↦ default_target tool
    | some target ↦ target
  ]

  abbrev pub request_id_of : String → ℕ → String
  request_id_of session n = append "mcp-write-" (append session (append "-" (outside.display n)))

  unfoldable pub begin : ℕ → String → V → StoreState → McpOperationDto × StoreState
  unfolding known_tool find_target
  begin now tool arguments s = (
    record {
      request_id = request_id_of s.session_id s.next_id;
      session_id = s.session_id;
      timestamp = now;
      tool = known_tool tool;
      target = target_of (known_tool tool) arguments;
      summary = "";
      result = "cancelled";
      outcome = "notApplied";
      display_group_id = none;
      completed_count = 0;
      pending = false;
      retry_allowed = false;
      automatic_retry_allowed = false;
      actor_finished = false;
    },
    record s { next_id = s.next_id + 1 },
  )

-- `while records.len() > MAX_RECORDS { records.pop_front() }`
abbrev pub trim : List McpOperationDto → List McpOperationDto
trim [] = []
trim (r ∷ rs) = let rest = trim rs in if ltb max_records (length (r ∷ rs)) then rest else r ∷ rs

-- `publish`: `storage` is the size of the record as JSON and the failures of the file system.
unfoldable pub publish : McpOperationDto → Option ℕ × Faults → StoreState → StoreState
publish r storage s =
    let saved : Bool × Option Files = elim s.directory [
      | none ↦ (false, none)
      | some files ↦
          let (ok_, files') = append_record storage.1 storage.0 files in (ok_, some files')
    ] in
    record s {
      directory = saved.1;
      storage_error = not saved.0;
      records = trim (retain (λ old. not (old.request_id == r.request_id)) s.records ++ r ∷ []);
      revision = s.revision + 1;
    }

-- `finish` of a handle: its record and the store.
unfoldable pub finish :
    ℕ
    → OperationUpdate
    → Option ℕ × Faults
    → McpOperationDto
    → StoreState
    → McpOperationDto × StoreState
unfolding publish
finish now update storage r s =
    let updated = record r {
      timestamp = now;
      result = update.result;
      outcome = update.outcome;
      completed_count = update.completed;
      pending = update.pending;
      retry_allowed = update.retry_allowed;
      actor_finished = update.actor_finished;
      summary = summary_of update.outcome update.pending;
    } in
    if r.actor_finished then (r, s) else (updated, publish updated storage s)

abbrev pub set_group : String → McpOperationDto → McpOperationDto
set_group display_group_id r = record r { display_group_id = some display_group_id }

-- The store and the records of the handles, each under the number that `begin` took for it.
pub record World : Type 0 where
  pub store : StoreState
  pub handles : Dict ℕ McpOperationDto

pub data Call (V : Type 0) : Type 0 where
  begins : (now : ℕ) → (tool : String) → (arguments : V) → Call V
  groups : (handle : ℕ) → (display_group_id : String) → Call V
  finishes : (handle now : ℕ) → OperationUpdate → Option ℕ × Faults → Call V

abbrev pub fresh : StoreState → World
fresh s = record { store = s; handles = [] }

module _ {V : Type 0} (outside : Outside V) where
  unfoldable pub call : Call V → World → World
  unfolding begin finish
  call (Call.begins now tool arguments) w =
      let (r, s) = begin outside now tool arguments w.store in
      record { store = s; handles = Dict.insert w.store.next_id r w.handles }
  call (Call.groups h display_group_id) w = elim (Dict.get h w.handles) [
    | none ↦ w
    | some r ↦ record w { handles = Dict.insert h (set_group display_group_id r) w.handles }
  ]
  call (Call.finishes h now update storage) w = elim (Dict.get h w.handles) [
    | none ↦ w
    | some r ↦
        let (r', s) = finish now update storage r w.store in
        record { store = s; handles = Dict.insert h r' w.handles }
  ]

  unfoldable pub run : World → List (Call V) → World
  unfolding call
  run w [] = w
  run w (c ∷ cs) = run (call c w) cs
