-- ===== src/LogBuffer/Pages.antt =====
-- The reading of the log buffer by pages: `LogBuffer::read` and `matches_query` of
-- apps/editor/src-tauri/src/mcp/log_buffer.rs.
pub mod Continued
pub mod Order
pub mod Ordered
use norves_editor.Common.{
  ℕ, zero, suc, ◌+◌, ◌-◌, Bool, true, false, not, ◌&&◌, ◌||◌, Option, none, some, List, [], ◌∷◌,
  map, any, length, if◌then◌else◌, ltb, leb, min, max, ◌==◌, nat_eq, saturating_add,
}
use norves_editor.Common.Dict
use norves_editor.Common.Dict.{Dict}
use norves_editor.LogBuffer.{LogSubscriptionStatus, LogEntry, GenerationState, LogBuffer}

abbrev pub max_log_page_size : ℕ
max_log_page_size = 1000

abbrev pub default_log_page_size : ℕ
default_log_page_size = 100

pub record LogQuery : Type 0 where
  pub generation : Option ℕ
  pub from_time_ms : Option ℕ
  pub to_time_ms : Option ℕ
  pub after_sequence : Option ℕ
  pub through_sequence : Option ℕ
  pub limit : Option ℕ

pub record LogRetention : Type 0 where
  pub generation : ℕ
  pub first_sequence : Option ℕ
  pub last_sequence : Option ℕ
  pub last_observed_sequence : ℕ
  pub first_received_at_ms : Option ℕ
  pub last_received_at_ms : Option ℕ
  pub missing_count : ℕ
  pub missed_event_count : ℕ
  pub has_gap : Bool
  pub subscription : LogSubscriptionStatus

pub record LogSnapshot (L : Type 0) : Type 0 where
  pub entries : List (LogEntry L)
  pub retention : List LogRetention
  pub has_more : Bool
  pub next_after_sequence : Option ℕ
  pub missing_before_cursor : Bool

-- `Option::is_none_or`, `Option::is_some_and` and `Option::map`
abbrev pub is_none_or : Option ℕ → (ℕ → Bool) → Bool
is_none_or none test = true
is_none_or (some n) test = test n

abbrev pub is_some_and : Option ℕ → (ℕ → Bool) → Bool
is_some_and none test = false
is_some_and (some n) test = test n

abbrev pub limit_of : LogQuery → ℕ
limit_of query = elim query.limit [
  | none ↦ default_log_page_size
  | some n ↦ min (max n 1) max_log_page_size
]

abbrev pub is_missing_after : ℕ → LogRetention → Bool
is_missing_after cursor range =
    ltb 0 range.missed_event_count
    || (is_some_and range.first_sequence (λ first. ltb (saturating_add cursor 1) first)
        || elim range.first_sequence [
          | none ↦ ltb cursor range.last_observed_sequence
          | some first ↦ false
        ])

-- A tree map iterates in the order of its keys.
unfoldable pub insert_in_order :
    ℕ → GenerationState → Dict ℕ GenerationState → Dict ℕ GenerationState
insert_in_order g state [] = (g, state) ∷ []
insert_in_order g state ((g', state') ∷ m) =
    let rest = insert_in_order g state m in
    if leb g g' then (g, state) ∷ (g', state') ∷ m else (g', state') ∷ rest

unfoldable pub in_key_order : Dict ℕ GenerationState → Dict ℕ GenerationState
unfolding insert_in_order
in_key_order [] = []
in_key_order ((g, state) ∷ m) = insert_in_order g state (in_key_order m)

module _ {L : Type 0} where
  unfoldable pub matches_query : LogEntry L → LogQuery → Bool
  matches_query entry query =
      is_none_or query.generation (λ g. g == entry.generation)
      && (is_none_or query.from_time_ms (λ t. leb t entry.received_at_ms)
          && (is_none_or query.to_time_ms (λ t. leb entry.received_at_ms t)
              && (is_none_or query.after_sequence (λ n. ltb n entry.sequence)
                  && is_none_or query.through_sequence (λ n. leb entry.sequence n))))

  -- The loop of `read` over the records, with as many places as are left on the page.
  unfoldable pub fill_page : ℕ → LogQuery → List (LogEntry L) → List (LogEntry L) × Bool
  unfolding matches_query
  fill_page left query [] = ([], false)
  fill_page zero query (e ∷ es) =
      let rest = fill_page zero query es in if matches_query e query then ([], true) else rest
  fill_page (suc left) query (e ∷ es) =
      let next = fill_page left query es in
      let rest = fill_page (suc left) query es in
      if matches_query e query then (e ∷ next.0, next.1) else rest

  -- `iter().find` and `iter().rev().find` by the generation.
  unfoldable pub find_first : ℕ → List (LogEntry L) → Option (LogEntry L)
  find_first g [] = none
  find_first g (e ∷ es) = let rest = find_first g es in if e.generation == g then some e else rest

  unfoldable pub find_last : ℕ → List (LogEntry L) → Option (LogEntry L)
  find_last g [] = none
  find_last g (e ∷ es) =
      let rest = find_last g es in
      elim rest [ none ↦ if e.generation == g then some e else none | some later ↦ some later ]

  abbrev pub sequence_of : Option (LogEntry L) → Option ℕ
  sequence_of none = none
  sequence_of (some e) = some e.sequence

  abbrev pub received_at_of : Option (LogEntry L) → Option ℕ
  received_at_of none = none
  received_at_of (some e) = some e.received_at_ms

  unfoldable pub retention_for : LogBuffer L → ℕ → GenerationState → LogRetention
  unfolding find_first find_last
  retention_for b generation state =
      let first = find_first generation b.entries in
      let last = find_last generation b.entries in
      record {
        generation = generation;
        first_sequence = sequence_of first;
        last_sequence = sequence_of last;
        last_observed_sequence = state.last_observed_sequence;
        first_received_at_ms = received_at_of first;
        last_received_at_ms = received_at_of last;
        missing_count = state.missing_count;
        missed_event_count = state.missed_event_count;
        has_gap =
            ltb 0 state.missing_count
            || (ltb 0 state.missed_event_count
                || (is_some_and (sequence_of first) (λ n. ltb 1 n)
                    || (is_some_and (sequence_of last) (λ n. ltb n state.last_observed_sequence)
                        || any (λ e. e.generation == generation && e.truncated) b.entries)));
        subscription = state.subscription;
      }

  -- The retention of the generations that the query selects.
  unfoldable pub retentions : LogBuffer L → LogQuery → Dict ℕ GenerationState → List LogRetention
  unfolding retention_for
  retentions b query [] = []
  retentions b query ((generation, state) ∷ m) =
      let rest = retentions b query m in
      if is_none_or query.generation (λ wanted. wanted == generation)
      then retention_for b generation state ∷ rest
      else rest

  -- `entries.last()`
  abbrev pub last_of : List (LogEntry L) → Option (LogEntry L)
  last_of [] = none
  last_of (e ∷ es) = elim (last_of es) [ none ↦ some e | some last ↦ some last ]

  unfoldable pub read : LogBuffer L → LogQuery → LogSnapshot L
  unfolding fill_page retentions in_key_order
  read b query =
      let page = fill_page (limit_of query) query b.entries in
      let retention = retentions b query (in_key_order b.generations) in
      record {
        entries = page.0;
        retention = retention;
        has_more = page.1;
        next_after_sequence = elim query.generation [
          | none ↦ none
          | some g ↦ if page.1 then sequence_of (last_of page.0) else none
        ];
        missing_before_cursor =
            is_some_and query.after_sequence (λ cursor. any (is_missing_after cursor) retention);
      }
