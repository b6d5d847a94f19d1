-- ===== src/Mcp/Permits.antt =====
-- `McpAuthorization` and `McpRequestLease` of apps/editor/src-tauri/src/mcp.rs: the revision of the
-- authentication, the leases of requests, the write policy, and the permits for single writes.
pub mod Binding
pub mod Expiry
pub mod Use
pub mod Revocation
use norves_editor.Common.{
  ℕ, ◌+◌, ◌≡◌, Bool, true, false, not, ◌&&◌, ◌||◌, String, Option, none, some, List, [], ◌∷◌, arith,
  any, if◌then◌else◌, ltb, nat_beq, ◌==◌, Eq, string_eq, nat_eq, option_eq, wrapping_add,
}
use norves_editor.Common.Results.{Result, ok, err, ◌>>=◌, ◌>>◌, refuse_if}
use norves_editor.Mcp.Authorization.{
  McpWriteMode, McpWriteSettings, ScopeError, Checked, McpWriteOperation, McpHistoryDirection,
  McpHistoryAction, validate,
}
use norves_editor.History.Types.{HistoryRecord, source_eq}
use norves_editor.Mcp.Authorization.Capabilities.{requires_confirmation}
use norves_editor.Mcp.Authorization.Comparison.{mode_beq, settings_beq, operation_beq}
use norves_editor.Mcp.Confirmation.{Broker, cancel_before_revision}

-- The two cancellation tokens of a lease go by its request's number.
pub record McpRequestLease : Type 0 where
  pub revision : ℕ
  pub request_id : ℕ
  pub deadline : ℕ

-- `WritePolicyState`, and the snapshot of it.
pub record WritePolicyState : Type 0 where
  pub settings : McpWriteSettings
  pub revision : ℕ

-- `McpAuthorizationInner`, with the tokens that were cancelled: those of the authorization and
-- those of single requests. The newest lease stands first.
pub record McpAuthorization (D : Type 0) : Type 0 where
  pub revision : ℕ
  pub next_request_id : ℕ
  pub leases : List (ℕ × ℕ)
  pub cancelled : List ℕ
  pub cancelled_requests : List ℕ
  pub write_policy : WritePolicyState
  pub confirmations : Broker D

-- `McpWritePermit`, without the review for the screen.
pub record McpWritePermit (V : Type 0) : Type 0 where
  pub auth_revision : ℕ
  pub policy_revision : ℕ
  pub generation : ℕ
  pub request_id : ℕ
  pub confirmed : Bool
  pub operation : McpWriteOperation V

abbrev pub holds : ℕ → List ℕ → Bool
holds n = any (λ m. m == n)

-- `WRITE_REQUEST_TIMEOUT`, in nanoseconds.
abbrev pub write_request_timeout : ℕ
write_request_timeout = 125000000000

-- The lease list by which tokens are still held.
unfoldable pub alive_leases : (ℕ → Bool) → List (ℕ × ℕ) → List (ℕ × ℕ)
alive_leases alive [] = []
alive_leases alive ((r, token) ∷ ls) =
    let rest = alive_leases alive ls in if alive token then (r, token) ∷ rest else rest

-- `leases.retain` of `revoke`: what stays, and the tokens that are cancelled.
unfoldable pub retain_leases : (ℕ → Bool) → ℕ → List (ℕ × ℕ) → List (ℕ × ℕ) × List ℕ
retain_leases alive revision [] = ([], [])
retain_leases alive revision ((r, token) ∷ ls) =
    let rest = retain_leases alive revision ls in
    if r == revision
    then (if alive token then ((r, token) ∷ rest.0, rest.1) else rest)
    else if alive token
    then (rest.0, token ∷ rest.1)
    else rest

abbrev pub append_all : List ℕ → List ℕ → List ℕ
append_all [] ys = ys
append_all (x ∷ xs) ys = x ∷ append_all xs ys

module _ {V : Type 0} where
  abbrev pub permit_of :
      McpRequestLease → WritePolicyState → ℕ → Bool → McpWriteOperation V → McpWritePermit V
  permit_of lease snapshot generation confirmed operation = record {
    auth_revision = lease.revision;
    policy_revision = snapshot.revision;
    generation = generation;
    request_id = lease.request_id;
    confirmed = confirmed;
    operation = operation;
  }

  unfoldable pub ensure_write_mode : McpWriteMode → McpWriteOperation V → Bool → Checked
  ensure_write_mode McpWriteMode.read_only operation confirmed = err ScopeError.read_only
  ensure_write_mode McpWriteMode.confirm operation confirmed =
      refuse_if (not confirmed) ScopeError.confirmation_required
  ensure_write_mode McpWriteMode.enabled operation confirmed =
      refuse_if (requires_confirmation operation && not confirmed) ScopeError.confirmation_required

module _ {D : Type 0} where
  -- `current_lease`. `reload` is what the second load of the revision reads, which a revocation in
  -- another thread may have moved on, and `alive` tells which tokens are held.
  unfoldable pub current_lease :
      (ℕ → Bool) → (reload now : ℕ) → McpAuthorization D → McpRequestLease × McpAuthorization D
  unfolding alive_leases
  current_lease alive reload now s =
      let id = s.next_request_id in
      let kept = alive_leases alive s.leases in
      (
        record { revision = s.revision; request_id = id; deadline = now + write_request_timeout },
        record s {
          next_request_id = wrapping_add id 1;
          leases = if s.revision == reload then (s.revision, id) ∷ kept else kept;
          cancelled = if s.revision == reload then s.cancelled else id ∷ s.cancelled;
        },
      )

  unfoldable pub revoke : (ℕ → Bool) → McpAuthorization D → McpAuthorization D
  unfolding retain_leases
  revoke alive s =
      let revision' = wrapping_add s.revision 1 in
      let split = retain_leases alive revision' s.leases in
      record s {
        revision = revision';
        leases = split.0;
        cancelled = append_all split.1 s.cancelled;
        confirmations = cancel_before_revision revision' s.confirmations;
      }

  -- Whether `set_write_settings` changes anything.
  abbrev pub changes : McpWriteSettings → McpAuthorization D → Bool
  changes settings s = not (settings_beq s.write_policy.settings settings)

  unfoldable pub set_write_settings :
      (ℕ → Bool) → McpWriteSettings → McpAuthorization D → Result ScopeError ℕ × McpAuthorization D
  unfolding revoke
  set_write_settings alive settings s = elim (validate settings) [
    | err e ↦ (err e, s)
    | ok t ↦
        let policy_revision = wrapping_add s.write_policy.revision 1 in
        if changes settings s
        then (
          ok policy_revision,
          revoke alive (record s {
            write_policy = record { settings = settings; revision = policy_revision };
          }),
        )
        else (ok s.write_policy.revision, s)
  ]

  -- `McpRequestLease::is_authorization_current`
  abbrev pub is_authorization_current : McpAuthorization D → McpRequestLease → Bool
  is_authorization_current s lease =
      not (holds lease.request_id s.cancelled) && s.revision == lease.revision

  -- `McpRequestLease::is_current`
  abbrev pub is_current : ℕ → McpAuthorization D → McpRequestLease → Bool
  is_current now s lease =
      is_authorization_current s lease
      && (not (holds lease.request_id s.cancelled_requests) && ltb now lease.deadline)

  -- `McpRequestLease::cancel_request`
  abbrev pub cancel_request : McpRequestLease → McpAuthorization D → McpAuthorization D
  cancel_request lease s = record s { cancelled_requests = lease.request_id ∷ s.cancelled_requests }

  abbrev pub is_outdated : McpAuthorization D → WritePolicyState → Bool
  is_outdated s snapshot =
      not (nat_beq s.write_policy.revision snapshot.revision)
      || not (settings_beq s.write_policy.settings snapshot.settings)

  unfoldable pub check_write_preflight :
      ℕ → McpAuthorization D → McpRequestLease → WritePolicyState → Checked
  check_write_preflight now s lease snapshot = do
    refuse_if (not (is_current now s lease)) ScopeError.authorization_revoked
    refuse_if (is_outdated s snapshot) ScopeError.authorization_revoked
    refuse_if (mode_beq snapshot.settings.mode McpWriteMode.read_only) ScopeError.read_only

  module _ {V : Type 0} where
    unfoldable pub check_write_request :
        ℕ → McpAuthorization D → McpRequestLease → WritePolicyState → McpWriteOperation V → Checked
    check_write_request now s lease snapshot operation = do
      refuse_if (not (is_current now s lease)) ScopeError.authorization_revoked
      refuse_if (is_outdated s snapshot) ScopeError.authorization_revoked
      refuse_if (mode_beq snapshot.settings.mode McpWriteMode.read_only) ScopeError.read_only
      refuse_if
          (mode_beq snapshot.settings.mode McpWriteMode.confirm || requires_confirmation operation)
          ScopeError.confirmation_required

    -- The check is that of `check_write_preflight`, line by line.
    abbrev pub check_write_request_after_confirmation :
        ℕ → McpAuthorization D → McpRequestLease → WritePolicyState → McpWriteOperation V → Checked
    check_write_request_after_confirmation now s lease snapshot operation =
        check_write_preflight now s lease snapshot

    unfoldable pub issue_write_permit :
        ℕ
        → McpAuthorization D
        → McpRequestLease
        → WritePolicyState
        → ℕ
        → McpWriteOperation V
        → Result ScopeError (McpWritePermit V)
    unfolding check_write_request
    issue_write_permit now s lease snapshot generation operation = do
      check_write_request now s lease snapshot operation
      ok (permit_of lease snapshot generation false operation)

    unfoldable pub issue_confirmed_write_permit :
        ℕ
        → McpAuthorization D
        → McpRequestLease
        → WritePolicyState
        → ℕ
        → McpWriteOperation V
        → Result ScopeError (McpWritePermit V)
    unfolding check_write_preflight
    issue_confirmed_write_permit now s lease snapshot generation operation = do
      check_write_request_after_confirmation now s lease snapshot operation
      ok (permit_of lease snapshot generation true operation)

    module _ ⦃v : Eq V⦄ where
      -- The permit is of this request, this connection, this policy and this operation.
      abbrev pub fits :
          ℕ
          → McpAuthorization D
          → McpWritePermit V
          → McpRequestLease
          → ℕ
          → McpWriteOperation V
          → Bool
      fits now s permit lease generation operation =
          is_current now s lease
          && (permit.auth_revision == lease.revision
              && (permit.policy_revision == s.write_policy.revision
                  && (permit.generation == generation
                      && (permit.request_id == lease.request_id
                          && operation_beq permit.operation operation))))

      unfoldable pub validate_write_permit :
          ℕ
          → McpAuthorization D
          → McpWritePermit V
          → McpRequestLease
          → ℕ
          → McpWriteOperation V
          → Checked
      unfolding ensure_write_mode
      validate_write_permit now s permit lease generation operation = do
        refuse_if (not (fits now s permit lease generation operation))
            ScopeError.authorization_revoked
        ensure_write_mode s.write_policy.settings.mode operation permit.confirmed

pub data Event : Type 0 where
  leases : (alive : ℕ → Bool) → (reload now : ℕ) → Event
  revokes : (alive : ℕ → Bool) → Event
  sets_settings : (alive : ℕ → Bool) → McpWriteSettings → Event
  cancels : McpRequestLease → Event

module _ {D : Type 0} where
  unfoldable pub happen : McpAuthorization D → Event → McpAuthorization D
  unfolding current_lease revoke set_write_settings
  happen s (leases alive reload now) = (current_lease alive reload now s).1
  happen s (revokes alive) = revoke alive s
  happen s (sets_settings alive settings) = (set_write_settings alive settings s).1
  happen s (cancels lease) = cancel_request lease s

  unfoldable pub run : McpAuthorization D → List Event → McpAuthorization D
  unfolding happen
  run s [] = s
  run s (e ∷ es) = run (happen s e) es
