-- ===== src/Tests/Permits.antt =====
-- The theorems on permits and revocations on small inputs.
use norves_editor.Common.{
  String, ℕ, ◌≡◌, refl, inl, Bool, true, false, none, some, [], ◌∷◌, arith, any, string_eq, nat_eq,
  option_eq,
}
use norves_editor.Common.Results.{ok, err}
use norves_editor.Mcp.Authorization.{McpWriteMode, ScopeError, McpWriteOperation}
use norves_editor.Mcp.Confirmation.{default}
use norves_editor.Mcp.Permits.{
  is_current, McpRequestLease, WritePolicyState, McpAuthorization, McpWritePermit, Event, permit_of,
  revoke, issue_write_permit, validate_write_permit, run,
}
use norves_editor.Mcp.Permits.Binding.{permit_is_bound}
use norves_editor.Mcp.Permits.Expiry.{permit_expires, revocations}
use norves_editor.Mcp.Authorization.Capabilities.{requires_confirmation}
use norves_editor.Mcp.Permits.Revocation.{IsCleared, revoke-IsCleared}
use norves_editor.Mcp.Permits.Use.{issued-validate_write_permit}

abbrev pub held : ℕ → Bool
held token = true

abbrev policy : WritePolicyState
policy = record {
  settings = record { mode = McpWriteMode.enabled; scene_root_id = none };
  revision = 1;
}

abbrev pub fresh : McpAuthorization String
fresh = record {
  revision = 1;
  next_request_id = 1;
  leases = [];
  cancelled = [];
  cancelled_requests = [];
  write_policy = policy;
  confirmations = default;
}

-- The first request, at the time 5.
abbrev pub first_lease : McpRequestLease
first_lease = record { revision = 1; request_id = 1; deadline = 125000000005 }

-- A request after a revocation.
abbrev next_lease : McpRequestLease
next_lease = record { revision = 2; request_id = 1; deadline = 125000000006 }

abbrev leased : McpAuthorization String
leased = record fresh { next_request_id = 2; leases = (1, 1) ∷ [] }

abbrev moves_door : McpWriteOperation String
moves_door = McpWriteOperation.reparent "door" (some "house")

abbrev permit : McpWritePermit String
permit = permit_of first_lease policy 3 false moves_door

is_issued : issue_write_permit 6 leased first_lease policy 3 moves_door ≡ ok permit
unfolding issue_write_permit any requires_confirmation
is_issued = refl

issued-validate_write_permit_example :
    validate_write_permit 6 leased permit first_lease 3 moves_door ≡ ok tt
issued-validate_write_permit_example =
    issued-validate_write_permit 6 leased first_lease policy 3 moves_door permit (inl is_issued)

permit_expires_example :
    validate_write_permit 7 (run leased (Event.revokes held ∷ [])) permit next_lease 3 moves_door
    ≡ err ScopeError.authorization_revoked
unfolding run revocations
permit_expires_example =
    permit_expires 6 7 leased (Event.revokes held ∷ []) first_lease next_lease policy 3 3 moves_door
      moves_door permit (inl is_issued) (omega arith) (omega arith) (omega arith)

is_accepted : validate_write_permit 6 leased permit first_lease 3 moves_door ≡ ok tt
unfolding validate_write_permit any requires_confirmation
is_accepted = refl

permit_is_bound_example :
    (permit.generation ≡ permit.generation)
    × (first_lease.request_id ≡ first_lease.request_id)
    × (moves_door ≡ moves_door)
    × (first_lease.revision ≡ (leased).revision)
    × (policy.revision ≡ (leased).write_policy.revision)
    × (is_current 6 leased first_lease ≡ true)
permit_is_bound_example =
    permit_is_bound 6 6 leased leased first_lease first_lease policy 3 3 moves_door moves_door
      permit (inl is_issued) is_accepted

revoke-IsCleared_example : IsCleared held leased (revoke held leased)
revoke-IsCleared_example = revoke-IsCleared held leased
