-- ===== src/LogBuffer/Operations.antt =====
-- The operations of `LogBuffer` on its generations and records, and runs of them.
use norves_editor.Common.{
  ℕ, zero, suc, ◌+◌, Bool, true, false, not, ◌||◌, none, some, List, [], ◌∷◌, ◌++◌, length,
  if◌then◌else◌, ltb, leb, ◌==◌, string_eq, nat_eq, option_eq, u64_max, saturating_add,
  saturating_sub,
}
use Prim.Native.String.{len}
use norves_editor.Common.Dict
use norves_editor.Common.Dict.{Dict}
use norves_editor.LogBuffer.{
  max_log_entries, max_log_bytes, LogSubscriptionStatus, LogBufferError, Logged, ok, err, LogParams,
  LogEntry, GenerationState, LogBuffer, BorrowedLog, LogRecordOutcome, option_len, optional_string,
  payload_bytes, owned_fields, ensure_generation, prune,
}

abbrev pub cancelled_if_open : GenerationState → GenerationState
cancelled_if_open state = elim state.subscription [
  | LogSubscriptionStatus.pending ↦ record state { subscription = LogSubscriptionStatus.cancelled }
  | LogSubscriptionStatus.subscribed ↦ record state {
    subscription = LogSubscriptionStatus.cancelled;
  }
  | _ ↦ state
]

abbrev pub missed_more : ℕ → GenerationState → GenerationState
missed_more count state = record state {
  missed_event_count = saturating_add state.missed_event_count count;
}

abbrev pub one_missing : GenerationState → GenerationState
one_missing state = record state { missing_count = saturating_add state.missing_count 1 }

module _ {L : Type 0} where
  unfoldable pub begin_generation : LogBuffer L → ℕ → LogBuffer L
  unfolding ensure_generation prune
  begin_generation b generation = prune (
      ensure_generation
        (record b { active_generation = some generation; last_generation = some generation })
        generation)

  abbrev pub change_state : (GenerationState → GenerationState) → ℕ → LogBuffer L → LogBuffer L
  change_state f generation b = elim (Dict.get generation b.generations) [
    | none ↦ b
    | some state ↦ record b { generations = Dict.insert generation (f state) b.generations }
  ]

  unfoldable pub end_generation : LogBuffer L → ℕ → LogBuffer L
  unfolding prune
  end_generation b generation = prune (
      if b.active_generation == some generation
      then change_state cancelled_if_open generation
          (record b { active_generation = none; last_generation = some generation })
      else b)

  abbrev pub note_last : LogBuffer L → ℕ → LogBuffer L
  note_last b generation = elim b.active_generation [
    | none ↦ record b { last_generation = some generation }
    | some active ↦ b
  ]

  unfoldable pub set_subscription_status : LogBuffer L → ℕ → LogSubscriptionStatus → LogBuffer L
  unfolding ensure_generation prune
  set_subscription_status b generation status = prune (
      note_last
        (change_state (λ state. record state { subscription = status }) generation
          (ensure_generation b generation))
        generation)

  unfoldable pub set_subscription_status_if_active :
      LogBuffer L → ℕ → LogSubscriptionStatus → Bool × LogBuffer L
  unfolding set_subscription_status
  set_subscription_status_if_active b generation status =
      if not (b.active_generation == some generation)
      then (false, b)
      else (true, set_subscription_status b generation status)

  unfoldable pub note_missed_events : LogBuffer L → ℕ → ℕ → Bool × LogBuffer L
  note_missed_events b generation count =
      if not (b.active_generation == some generation)
      then (false, b)
      else elim (Dict.get generation b.generations) [
        | none ↦ (false, b)
        | some state ↦ (true, change_state (missed_more count) generation b)
      ]

  -- The oldest record goes, and its generation counts it as missing.
  abbrev pub evict : LogEntry L → List (LogEntry L) → LogBuffer L → LogBuffer L
  evict oldest entries b = change_state one_missing oldest.generation (record b {
    entries = entries;
    retained_bytes = saturating_sub b.retained_bytes oldest.stored_bytes;
  })

  abbrev pub is_over : LogBuffer L → ℕ → Bool
  is_over b n =
      leb max_log_entries (length b.entries)
      || ltb max_log_bytes (saturating_add b.retained_bytes n)

  unfoldable pub make_room : (fuel : ℕ) → LogBuffer L → ℕ → LogBuffer L
  make_room zero b n = b
  make_room (suc fuel) b n = elim (is_over b n) [
    | false ↦ b
    | true ↦ elim b.entries [
      | [] ↦ b
      | oldest ∷ entries ↦ make_room fuel (evict oldest entries b) n
    ]
  ]

  -- Puts the record at the end of the queue, once there is room.
  unfoldable pub append : LogBuffer L → LogEntry L → LogBuffer L
  unfolding make_room
  append b entry =
      let b' = make_room (length b.entries) b entry.stored_bytes in
      record b' {
        entries = b'.entries ++ (entry ∷ []);
        retained_bytes = saturating_add b'.retained_bytes entry.stored_bytes;
      }

  -- The number of the last record of a generation.
  abbrev pub last_observed : LogBuffer L → ℕ → ℕ
  last_observed b generation = elim (Dict.get generation b.generations) [
    | none ↦ 0
    | some state ↦ state.last_observed_sequence
  ]

module _ {M V L : Type 0} (j : LogParams M V L) (entry_size : ℕ) where
  -- `BorrowedLog::parse`
  unfoldable pub parse : M → Logged (BorrowedLog L)
  parse params = elim (j.get params "level") [
    | none ↦ err LogBufferError.missing_level
    | some level_value ↦ elim (j.level level_value) [
      | none ↦ err LogBufferError.invalid_level
      | some level ↦ elim (j.get params "message") [
        | none ↦ err LogBufferError.missing_message
        | some message_value ↦ elim (j.as_str message_value) [
          | none ↦ err LogBufferError.invalid_message
          | some message ↦
              elim (optional_string j params "category" LogBufferError.invalid_category) [
                | err e ↦ err e
                | ok category ↦
                    elim (optional_string j params "timestamp" LogBufferError.invalid_timestamp) [
                      | err e ↦ err e
                      | ok engine_timestamp ↦ ok (record {
                        level = level;
                        message = message;
                        category = category;
                        engine_timestamp = engine_timestamp;
                      })
                    ]
              ]
        ]
      ]
    ]
  ]

  -- The record that is kept of a log: its texts are cut to what one record may take.
  unfoldable pub entry_of : BorrowedLog L → (generation sequence received_at_ms : ℕ) → LogEntry L
  unfolding owned_fields
  entry_of borrowed generation sequence received_at_ms =
      let max_payload_bytes = saturating_sub max_log_bytes entry_size in
      let fields = owned_fields borrowed max_payload_bytes in
      record {
        generation = generation;
        sequence = sequence;
        received_at_ms = received_at_ms;
        level = borrowed.level;
        message = fields.0;
        category = fields.1;
        engine_timestamp = fields.2;
        truncated = ltb max_payload_bytes (payload_bytes borrowed);
        stored_bytes =
            saturating_add
              (saturating_add (saturating_add entry_size (len fields.0)) (option_len fields.1))
              (option_len fields.2);
      }

  -- The rest of `record_at`, from the number of the record.
  unfoldable pub record_numbered :
      LogBuffer L
      → (sequence : ℕ) → ℕ
      → BorrowedLog L
      → (received_at_ms : ℕ) → Logged LogRecordOutcome × LogBuffer L
  unfolding entry_of append prune
  record_numbered b sequence generation borrowed received_at_ms =
      let entry = entry_of borrowed generation sequence received_at_ms in
      if ltb u64_max sequence then (err LogBufferError.sequence_exhausted, b) else (
        ok (record { sequence = sequence; truncated = entry.truncated }),
        prune (
            append
              (note_last
                (change_state (λ state. record state { last_observed_sequence = sequence })
                  generation b)
                generation)
              entry),
      )

  -- `record_at` after parsing
  unfoldable pub record_borrowed :
      LogBuffer L → ℕ → BorrowedLog L → (received_at_ms : ℕ) → Logged LogRecordOutcome × LogBuffer L
  unfolding ensure_generation record_numbered
  record_borrowed b generation borrowed received_at_ms =
      let b1 = ensure_generation b generation in
      record_numbered b1 (last_observed b1 generation + 1) generation borrowed received_at_ms

  -- `record_at`
  unfoldable pub record_at :
      LogBuffer L → ℕ → M → (received_at_ms : ℕ) → Logged LogRecordOutcome × LogBuffer L
  unfolding parse record_borrowed
  record_at b generation params received_at_ms = elim (parse params) [
    | err e ↦ (err e, b)
    | ok borrowed ↦ record_borrowed b generation borrowed received_at_ms
  ]
