-- ===== src/History/Groups.antt =====
-- Groups of edits: edit_service/groups.rs, and the group operations of history.rs. A call that
-- reads the clock takes the time that it reads.
pub mod Secrets
use norves_editor.Common.{
  ℕ, zero, suc, ◌+◌, ◌-◌, ◌*◌, ◌/◌, ◌%◌, ◌≤◌, ◌<◌, min, max, ◌≡◌, ◌≢◌, refl, sym, ap, subst, ◌∙◌,
  ◌⊎◌, inl, inr, ◌↔◌, Bool, true, false, not, ◌&&◌, ◌||◌, String, Option, none, some, List, [], ◌∷◌,
  ◌++◌, map, reverse, arith, length, head?, any, retain, take_while, All, if◌then◌else◌, ltb, leb,
  nat_beq, nat_beq_iff, Bool-cases, Option-cases, ◌==◌, Eq, string_eq, nat_eq, option_eq,
  option_beq, beq_refl, eq_iff, u64_max, u64_modulus, wrapping_add, saturating_add, saturating_sub,
}
use Prim.Native.Nat.{bit_or, bit_xor}
use Prim.Native.String.{len}
use norves_editor.History.Corrections
use norves_editor.History.Corrections.{CorrectionCache, CorrectionKey, CorrectionValue}
use norves_editor.History.State.{
  HistoryState, init, bump_revision, synchronize, clear_for_shutdown, snapshot, stack, with_stack,
  shown, visible_stack, history_cursor, can_act, push_marker, record_untracked_success,
  mark_edit_unsupported, pop_from, pop_action_entry_id, pop_action_entry, has_group_on_stack,
  with_group, closed_entries, close_active_group,
}
use norves_editor.History.Records.{
  accepted, non_empty_new_id, updated_history_record, changed_created_id, replace_record_ids,
  summary_name,
}
use norves_editor.History.Types.{
  Json, EditSource, source_eq, EditKind, HistoryDirection, Reason, BackendError, Result, ok, err,
  request, engine, unrelated, HistoryMarker, HistoryRecord, create, duplicate, reparent,
  set_property, GroupKey, group_key_eq, key_beq, key_beq_iff, GroupMetadata, HistoryEntry,
  ActiveGroup, PendingGroupAction, HistoryCapture, PriorCapture, HistoryRequest,
  PreparedHistoryRequest, HistoryPrior, QueuedEditResult, HistoryOperationContext,
  HistoryActionRequest, HistoryActionStep, HistoryAction,
}

abbrev pub max_edits : ℕ
max_edits = 128

-- 5 * 60 seconds
abbrev pub idle_timeout : ℕ
idle_timeout = 300000000000

-- 15 * 60 seconds
abbrev pub total_timeout : ℕ
total_timeout = 900000000000

-- The fold of `GroupSecret::matches` over the zipped bytes.
unfoldable pub differences : ℕ → List ℕ → List ℕ → ℕ
differences diff [] candidate = diff
differences diff (a ∷ secret) [] = diff
differences diff (a ∷ secret) (b ∷ candidate) =
    differences (bit_or diff (bit_xor a b)) secret candidate

-- `GroupSecret::matches`, whose time does not depend on where the bytes differ.
unfoldable pub matches : List ℕ → List ℕ → Bool
unfolding differences
matches secret candidate =
    (length candidate == length secret) && (differences 0 secret candidate == 0)

abbrev pub keep_if : Bool → Option ℕ → Option ℕ
keep_if keep token = if keep then token else none

abbrev pub boundary_result : Option (List ℕ) → Option ℕ → Bool → Result (Option ℕ)
boundary_result none token keep = ok (keep_if keep token)
boundary_result (some candidate) none keep = err (request Reason.group_expired)
boundary_result (some candidate) (some token) keep = ok (keep_if keep (some token))

module _ {V : Type 0} where
  unfoldable pub group_deadline : HistoryState V → Option ℕ
  group_deadline s = elim s.active_group [
    | none ↦ none
    | some g ↦ some (min (g.started_at + total_timeout) (g.last_edit_at + idle_timeout))
  ]

  unfoldable pub expire_group : HistoryState V → ℕ → HistoryState V × Bool
  unfolding group_deadline close_active_group
  expire_group s now = elim (group_deadline s) [
    | none ↦ (s, false)
    | some deadline ↦ if leb deadline now then close_active_group s else (s, false)
  ]

  -- A name is 1 to 256 bytes once `trim` has been applied to it.
  unfoldable pub begin_group :
      HistoryState V
      → (trim : String → String) → (token : ℕ) → (name : String) → EditSource
      → (generation now unix : ℕ) → Result Bool × HistoryState V
  unfolding close_active_group
  begin_group s trim token name source generation now unix =
      if trim name == "" || ltb 256 (len (trim name))
      then (err (request Reason.bad_group_name), s)
      else (
        ok true,
        bump_revision (record (close_active_group s).0 {
          active_group = some (record {
            token = token;
            secret = none;
            started_at = now;
            last_edit_at = now;
            metadata = record {
              key = record { generation = generation; sequence = token };
              name = trim name;
              source = source;
              created_at = unix;
              count = 0;
              named = true;
            };
            entries = [];
          });
        }),
      )

  abbrev pub token_of : Option (ActiveGroup V) → Option ℕ
  token_of none = none
  token_of (some g) = some g.token

  unfoldable pub end_group : HistoryState V → ℕ → ℕ → Result Bool × HistoryState V
  unfolding expire_group close_active_group
  end_group s token now =
      let s' = (expire_group s now).0 in
      if not (token_of s'.active_group == some token)
      then (err (request Reason.group_mismatch), s')
      else (ok (close_active_group s').1, (close_active_group s').0)

  unfoldable pub close_group_unless : HistoryState V → Option ℕ → HistoryState V × Bool
  unfolding close_active_group
  close_group_unless s token =
      if not (token_of s.active_group == token) then close_active_group s else (s, false)

  abbrev pub with_secret : List ℕ → HistoryState V → HistoryState V
  with_secret secret s = elim s.active_group [
    | none ↦ s
    | some g ↦ record s { active_group = some (record g { secret = some secret }) }
  ]

  -- `random` is the secret that the operating system's randomness gave, if it did.
  unfoldable pub begin_named_group :
      HistoryState V
      → (trim : String → String) → (random : Option (List ℕ)) → (token : ℕ) → (name : String)
      → (generation now unix : ℕ) → Result Bool × HistoryState V
  unfolding begin_group
  begin_named_group s trim none token name generation now unix =
      (err (request Reason.no_randomness), s)
  begin_named_group s trim (some secret) token name generation now unix =
      let (result, s') = begin_group s trim token name EditSource.mcp generation now unix in
      elim result [ ok done ↦ (ok done, with_secret secret s') | err e ↦ (err e, s') ]

  abbrev pub secret_matches : Option (ActiveGroup V) → List ℕ → Bool
  secret_matches none candidate = false
  secret_matches (some g) candidate = elim g.secret [
    | none ↦ false
    | some secret ↦ matches secret candidate
  ]

  -- The token of the active group, if the candidate is its secret.
  abbrev pub matched_token : Option (ActiveGroup V) → Option (List ℕ) → Option ℕ
  matched_token group none = none
  matched_token group (some candidate) =
      if secret_matches group candidate then token_of group else none

  unfoldable pub group_boundary :
      HistoryState V → Option (List ℕ) → Bool → ℕ → Result (Option ℕ) × HistoryState V
  unfolding expire_group close_group_unless matches
  group_boundary s secret keep now =
      let s' = (expire_group s now).0 in
      let token = matched_token s'.active_group secret in
      (boundary_result secret token keep, (close_group_unless s' (keep_if keep token)).0)

  unfoldable pub end_named_group : HistoryState V → List ℕ → ℕ → Result Bool × HistoryState V
  unfolding expire_group close_active_group matches
  end_named_group s secret now =
      let s' = (expire_group s now).0 in
      if not (secret_matches s'.active_group secret)
      then (err (request Reason.group_expired), s')
      else (ok true, (close_active_group s').0)

  unfoldable pub has_group : HistoryState V → ℕ → ℕ → Bool
  has_group s token generation = elim s.active_group [
    | none ↦ false
    | some g ↦ g.token == token && g.metadata.key.generation == generation
  ]

  -- A change of the authorization closes a group that MCP owns.
  unfoldable pub revoke_mcp_group : HistoryState V → HistoryState V × Bool
  unfolding close_active_group
  revoke_mcp_group s = elim s.active_group [
    | none ↦ (s, false)
    | some g ↦ if g.metadata.source == EditSource.mcp then close_active_group s else (s, false)
  ]
