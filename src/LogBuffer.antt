-- ===== src/LogBuffer.antt =====
-- `LogBuffer` of apps/editor/src-tauri/src/mcp/log_buffer.rs: the engine's log by generations of the
-- connection, bounded in records and bytes. The head of `entries` is the front of the queue.
pub mod Operations
pub mod Texts
pub mod Bounds
pub mod Runs
pub mod Pages
use norves_editor.Common.{
  ℕ, zero, suc, ◌+◌, ◌-◌, ◌*◌, ◌/◌, ◌%◌, ◌≤◌, ◌<◌, min, max, ◌≡◌, ◌≢◌, refl, sym, ap, subst, ◌∙◌,
  ◌⊎◌, inl, inr, ◌↔◌, Bool, true, false, not, ◌&&◌, ◌||◌, String, Option, none, some, List, [], ◌∷◌,
  ◌++◌, map, reverse, arith, length, head?, any, retain, take_while, All, if◌then◌else◌, ltb, leb,
  nat_beq, nat_beq_iff, Bool-cases, Option-cases, ◌==◌, Eq, string_eq, nat_eq, option_eq,
  option_beq, beq_refl, eq_iff, u64_max, u64_modulus, wrapping_add, saturating_add, saturating_sub,
}
use Prim.Native.String.{len, slice}
use text.Mathlib.Text.{is_char_boundary}
use norves_editor.Common.Dict
use norves_editor.Common.Dict.{Dict}

abbrev pub max_log_entries : ℕ
max_log_entries = 1000

-- 2 * 1024 * 1024
abbrev pub max_log_bytes : ℕ
max_log_bytes = 2097152

abbrev pub max_tracked_generations : ℕ
max_tracked_generations = max_log_entries + 1

pub data LogSubscriptionStatus : Type 0 where
  not_attempted pending subscribed unsupported failed cancelled : LogSubscriptionStatus
  incompatible_ack : LogSubscriptionStatus

pub data LogBufferError : Type 0 where
  invalid_shape missing_level invalid_level missing_message invalid_message : LogBufferError
  invalid_category invalid_timestamp sequence_exhausted : LogBufferError

pub data Logged (A : Type 0) : Type 0 where
  ok : A → Logged A
  err : LogBufferError → Logged A

-- What is read of the parameters of `log.message`: `M` is the type of serde_json's maps, `V` of its
-- values, and `L` of levels, which serde decodes.
pub record LogParams (M V L : Type 0) : Type 0 where
  pub get : M → String → Option V
  pub as_str : V → Option String
  pub level : V → Option L

pub record LogEntry (L : Type 0) : Type 0 where
  pub generation : ℕ
  pub sequence : ℕ
  pub received_at_ms : ℕ
  pub level : L
  pub message : String
  pub category : Option String
  pub engine_timestamp : Option String
  pub truncated : Bool
  pub stored_bytes : ℕ

pub record GenerationState : Type 0 where
  pub last_observed_sequence : ℕ
  pub missing_count : ℕ
  pub missed_event_count : ℕ
  pub subscription : LogSubscriptionStatus

abbrev pub default_state : GenerationState
default_state = record {
  last_observed_sequence = 0;
  missing_count = 0;
  missed_event_count = 0;
  subscription = LogSubscriptionStatus.not_attempted;
}

pub record LogBuffer (L : Type 0) : Type 0 where
  pub entries : List (LogEntry L)
  pub retained_bytes : ℕ
  pub generations : Dict ℕ GenerationState
  pub generation_order : List ℕ
  pub active_generation : Option ℕ
  pub last_generation : Option ℕ

abbrev pub empty : {L : Type 0} → LogBuffer L
empty = record {
  entries = [];
  retained_bytes = 0;
  generations = [];
  generation_order = [];
  active_generation = none;
  last_generation = none;
}

-- `BorrowedLog`
pub record BorrowedLog (L : Type 0) : Type 0 where
  pub level : L
  pub message : String
  pub category : Option String
  pub engine_timestamp : Option String

pub record LogRecordOutcome : Type 0 where
  pub sequence : ℕ
  pub truncated : Bool

-- The largest boundary of a character that is at most the given position.
unfoldable pub boundary_before : String → ℕ → ℕ
boundary_before value zero = 0
boundary_before value (suc end_) =
    let rest = boundary_before value end_ in
    if is_char_boundary value (suc end_) then suc end_ else rest

-- `bounded_copy`: the copy, and how much remains.
unfoldable pub bounded_copy : String → ℕ → String × ℕ
unfolding boundary_before
bounded_copy value remaining =
    let end_ = boundary_before value (min (len value) remaining) in
    (slice value zero end_, remaining - end_)

unfoldable pub bounded_option : Option String → ℕ → Option String × ℕ
unfolding bounded_copy
bounded_option none remaining = (none, remaining)
bounded_option (some value) remaining =
    (some (bounded_copy value remaining).0, (bounded_copy value remaining).1)

abbrev pub option_len : Option String → ℕ
option_len none = 0
option_len (some text) = len text

-- `optional_string`
abbrev pub optional_string :
    {M V L : Type 0} → LogParams M V L → M → String → LogBufferError → Logged (Option String)
optional_string j params key error = elim (j.get params key) [
  | none ↦ ok none
  | some value ↦ elim (j.as_str value) [ none ↦ err error | some text ↦ ok (some text) ]
]

-- The first generation that may go, and the others.
unfoldable pub pick : (ℕ → Bool) → List ℕ → Option (ℕ × List ℕ)
pick test [] = none
pick test (generation ∷ order) =
    let rest = pick test order in
    if test generation
    then some (generation, order)
    else elim rest [ none ↦ none | some (picked, others) ↦ some (picked, generation ∷ others) ]

module _ {L : Type 0} where
  -- `payload_bytes`
  abbrev pub payload_bytes : BorrowedLog L → ℕ
  payload_bytes b =
      saturating_add (saturating_add (len b.message) (option_len b.category))
        (option_len b.engine_timestamp)

  -- `owned_fields`
  unfoldable pub owned_fields : BorrowedLog L → ℕ → String × Option String × Option String
  unfolding bounded_copy bounded_option
  owned_fields b limit =
      let message = bounded_copy b.message limit in
      let category = bounded_option b.category message.1 in
      let engine_timestamp = bounded_option b.engine_timestamp category.1 in
      (message.0, category.0, engine_timestamp.0)

  unfoldable pub ensure_generation : LogBuffer L → ℕ → LogBuffer L
  ensure_generation b generation = elim (Dict.get generation b.generations) [
    | some state ↦ b
    | none ↦ record b {
      generations = Dict.insert generation default_state b.generations;
      generation_order = b.generation_order ++ (generation ∷ []);
    }
  ]

  abbrev pub is_removable : LogBuffer L → ℕ → Bool
  is_removable b generation =
      not (any (λ e. e.generation == generation) b.entries)
      && not (some generation == b.active_generation)
      && not (some generation == b.last_generation)

  unfoldable pub prune_loop : (fuel : ℕ) → LogBuffer L → LogBuffer L
  unfolding pick
  prune_loop zero b = b
  prune_loop (suc fuel) b = elim (ltb max_tracked_generations (length b.generations)) [
    | false ↦ b
    | true ↦ elim (pick (is_removable b) b.generation_order) [
      | none ↦ b
      | some (generation, order) ↦ prune_loop fuel (record b {
        generation_order = order;
        generations = Dict.remove generation b.generations;
      })
    ]
  ]

  abbrev pub is_known : LogBuffer L → ℕ → Bool
  is_known b generation = elim (Dict.get generation b.generations) [
    | none ↦ false
    | some state ↦ true
  ]

  abbrev pub forget_unknown : LogBuffer L → LogBuffer L
  forget_unknown b = record b { generation_order = retain (is_known b) b.generation_order }

  -- `prune_generation_metadata`, whose loop removes a place of the order in each turn
  unfoldable pub prune : LogBuffer L → LogBuffer L
  unfolding prune_loop
  prune b =
      if leb (length b.generations) max_tracked_generations
      then b
      else forget_unknown (prune_loop (suc (length b.generation_order)) b)
