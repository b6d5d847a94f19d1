-- ===== src/Mcp/Permits/Use.antt =====
-- A permit is good at once for what it was issued for.
use norves_editor.Common.{
  ℕ, ◌≡◌, ◌⊎◌, inl, inr, refl, subst, Bool, true, false, ◌&&◌, ◌||◌, List, [], ◌∷◌, arith, Eq,
  string_eq, nat_eq, option_eq, Bool-cases, beq_refl,
}
use norves_editor.Common.Results.{ok, ok_injective}
use norves_editor.History.Types.{HistoryRecord, source_eq}
use norves_editor.Mcp.Authorization.{McpWriteMode, McpWriteOperation, McpHistoryDirection}
use norves_editor.Mcp.Authorization.Capabilities.{requires_confirmation}
use norves_editor.Mcp.Authorization.Comparison.{
  mode_beq, direction_beq, record_beq, records_beq, operation_beq,
}
use norves_editor.Mcp.Permits.{
  McpRequestLease, WritePolicyState, McpAuthorization, McpWritePermit, is_current, is_outdated,
  check_write_request, check_write_preflight, issue_write_permit, issue_confirmed_write_permit,
  ensure_write_mode, fits, validate_write_permit, permit_of,
}

direction_beq_refl : (d : McpHistoryDirection) → direction_beq d d ≡ true
direction_beq_refl McpHistoryDirection.undo = refl
direction_beq_refl McpHistoryDirection.redo = refl

mode_beq_eq : (a b : McpWriteMode) → mode_beq a b ≡ true → a ≡ b
mode_beq_eq McpWriteMode.read_only McpWriteMode.read_only h = refl
mode_beq_eq McpWriteMode.enabled McpWriteMode.enabled h = refl
mode_beq_eq McpWriteMode.confirm McpWriteMode.confirm h = refl
mode_beq_eq McpWriteMode.read_only McpWriteMode.enabled h = ground arith
mode_beq_eq McpWriteMode.read_only McpWriteMode.confirm h = ground arith
mode_beq_eq McpWriteMode.enabled McpWriteMode.read_only h = ground arith
mode_beq_eq McpWriteMode.enabled McpWriteMode.confirm h = ground arith
mode_beq_eq McpWriteMode.confirm McpWriteMode.read_only h = ground arith
mode_beq_eq McpWriteMode.confirm McpWriteMode.enabled h = ground arith

and_true : {a b : Bool} → a ≡ true → b ≡ true → (a && b) ≡ true
and_true h k = ground arith

module _ {V : Type 0} ⦃v : Eq V⦄ where
  record_beq_refl : (r : HistoryRecord V) → record_beq r r ≡ true
  record_beq_refl (HistoryRecord.create a p k) =
      and_true (beq_refl a) (and_true (beq_refl p) (beq_refl k))
  record_beq_refl (HistoryRecord.duplicate a b p) =
      and_true (beq_refl a) (and_true (beq_refl b) (beq_refl p))
  record_beq_refl (HistoryRecord.reparent a p q) =
      and_true (beq_refl a) (and_true (beq_refl p) (beq_refl q))
  record_beq_refl (HistoryRecord.set_property a p x y) =
      and_true (beq_refl a) (and_true (beq_refl p) (and_true (beq_refl x) (beq_refl y)))

  records_beq_refl : (rs : List (HistoryRecord V)) → records_beq rs rs ≡ true
  records_beq_refl [] = refl
  records_beq_refl (r ∷ rs) = and_true (record_beq_refl r) (records_beq_refl rs)

  operation_beq_refl : (o : McpWriteOperation V) → operation_beq o o ≡ true
  operation_beq_refl (McpWriteOperation.property a) = beq_refl a
  operation_beq_refl (McpWriteOperation.create p) = beq_refl p
  operation_beq_refl (McpWriteOperation.duplicate a p) = and_true (beq_refl a) (beq_refl p)
  operation_beq_refl (McpWriteOperation.reparent a p) = and_true (beq_refl a) (beq_refl p)
  operation_beq_refl (McpWriteOperation.delete a) = beq_refl a
  operation_beq_refl (McpWriteOperation.component_add a) = beq_refl a
  operation_beq_refl (McpWriteOperation.component_remove a) = beq_refl a
  operation_beq_refl McpWriteOperation.runtime_control = refl
  operation_beq_refl (McpWriteOperation.history a) = and_true (direction_beq_refl a.direction) (
      and_true (beq_refl a.head_id) (
        and_true (beq_refl a.revision) (
          and_true (beq_refl a.group_name)
            (and_true (beq_refl a.source) (records_beq_refl a.records)))))

same_mode :
    {D : Type 0} (s : McpAuthorization D) (snapshot : WritePolicyState)
    → is_outdated s snapshot ≡ false
    → s.write_policy.settings.mode ≡ snapshot.settings.mode
same_mode s snapshot fresh = mode_beq_eq _ _ (ground arith)

module _ {D V : Type 0} where
  enough :
      (s : McpAuthorization D) (mode : McpWriteMode) (operation : McpWriteOperation V)
      (confirmed : Bool)
      → s.write_policy.settings.mode ≡ mode
      → mode_beq mode McpWriteMode.read_only ≡ false
      → ((confirmed ≡ true)
          ⊎ ((mode_beq mode McpWriteMode.confirm || requires_confirmation operation) ≡ false))
      → ensure_write_mode s.write_policy.settings.mode operation confirmed ≡ ok tt
  unfolding ensure_write_mode
  enough s McpWriteMode.read_only operation confirmed same mode answered = ground arith
  enough s McpWriteMode.enabled operation confirmed same mode answered =
      rw (same, ensure_write_mode) (ground arith)
  enough s McpWriteMode.confirm operation confirmed same mode answered =
      rw (same, ensure_write_mode) (ground arith)

  issue_write_permit-ok :
      (now : ℕ) (s : McpAuthorization D) (lease : McpRequestLease) (snapshot : WritePolicyState)
      (generation : ℕ) (operation : McpWriteOperation V) (permit : McpWritePermit V)
      → issue_write_permit now s lease snapshot generation operation ≡ ok permit
      → (permit_of lease snapshot generation false operation ≡ permit)
        × (is_current now s lease ≡ true)
        × (is_outdated s snapshot ≡ false)
        × (ensure_write_mode s.write_policy.settings.mode operation false ≡ ok tt)
  unfolding issue_write_permit check_write_request
  issue_write_permit-ok now s lease snapshot generation operation permit h =
      elim (Bool-cases (is_current now s lease)) [
        | inr outdated ↦ cc (rw (outdated, issue_write_permit, check_write_request) at h)
        | inl current ↦ elim (Bool-cases (is_outdated s snapshot)) [
          | inl old ↦ cc (rw (current, old, issue_write_permit, check_write_request) at h)
          | inr fresh ↦ elim (Bool-cases (mode_beq snapshot.settings.mode McpWriteMode.read_only)) [
            | inl ro ↦ cc (rw (current, fresh, ro, issue_write_permit, check_write_request) at h)
            | inr rw_ ↦
                elim (Bool-cases (
                  mode_beq snapshot.settings.mode McpWriteMode.confirm
                  || requires_confirmation operation)) [
                    | inl ask ↦ cc (
                        rw (current, fresh, rw_, ask, issue_write_permit, check_write_request) at h)
                    | inr free ↦ (
                      ok_injective (
                          rw (current, fresh, rw_, free, issue_write_permit, check_write_request) at
                            h),
                      current,
                      fresh,
                      enough s snapshot.settings.mode operation false (same_mode s snapshot fresh)
                          rw_ (inr free),
                    )
                  ]
          ]
        ]
      ]

  issue_confirmed-ok :
      (now : ℕ) (s : McpAuthorization D) (lease : McpRequestLease) (snapshot : WritePolicyState)
      (generation : ℕ) (operation : McpWriteOperation V) (permit : McpWritePermit V)
      → issue_confirmed_write_permit now s lease snapshot generation operation ≡ ok permit
      → (permit_of lease snapshot generation true operation ≡ permit)
        × (is_current now s lease ≡ true)
        × (is_outdated s snapshot ≡ false)
        × (ensure_write_mode s.write_policy.settings.mode operation true ≡ ok tt)
  unfolding issue_confirmed_write_permit check_write_preflight
  issue_confirmed-ok now s lease snapshot generation operation permit h =
      elim (Bool-cases (is_current now s lease)) [
        | inr outdated ↦
            cc (rw (outdated, issue_confirmed_write_permit, check_write_preflight) at h)
        | inl current ↦ elim (Bool-cases (is_outdated s snapshot)) [
          | inl old ↦
              cc (rw (current, old, issue_confirmed_write_permit, check_write_preflight) at h)
          | inr fresh ↦ elim (Bool-cases (mode_beq snapshot.settings.mode McpWriteMode.read_only)) [
            | inl ro ↦
                cc (
                  rw (current, fresh, ro, issue_confirmed_write_permit, check_write_preflight) at h)
            | inr rw_ ↦ (
              ok_injective (
                  rw (current, fresh, rw_, issue_confirmed_write_permit, check_write_preflight) at
                    h),
              current,
              fresh,
              enough s snapshot.settings.mode operation true (same_mode s snapshot fresh) rw_
                  (inl refl),
            )
          ]
        ]
      ]

  -- Either way, the permit is made of the request's data, and the request was current.
  pub issued-permit_of :
      (now : ℕ) (s : McpAuthorization D) (lease : McpRequestLease) (snapshot : WritePolicyState)
      (generation : ℕ) (operation : McpWriteOperation V) (permit : McpWritePermit V)
      → (issue_write_permit now s lease snapshot generation operation ≡ ok permit)
        ⊎ (issue_confirmed_write_permit now s lease snapshot generation operation ≡ ok permit)
      → (confirmed : Bool) × (permit_of lease snapshot generation confirmed operation ≡ permit)
        × (is_current now s lease ≡ true)
  issued-permit_of now s lease snapshot generation operation permit (inl h) =
      let (same, current, fresh, mode) =
        issue_write_permit-ok now s lease snapshot generation operation permit h in
      (false, same, current)
  issued-permit_of now s lease snapshot generation operation permit (inr h) =
      let (same, current, fresh, mode) =
        issue_confirmed-ok now s lease snapshot generation operation permit h in
      (true, same, current)

module _ {D V : Type 0} ⦃v : Eq V⦄ where
  -- Used by its own request, on the connection and for the operation it was issued for.
  own_use-fits :
      (now : ℕ) (s : McpAuthorization D) (lease : McpRequestLease) (snapshot : WritePolicyState)
      (generation : ℕ) (confirmed : Bool) (operation : McpWriteOperation V)
      → is_current now s lease ≡ true
      → is_outdated s snapshot ≡ false
      → fits now s
          (permit_of lease snapshot generation confirmed operation)
          lease
          generation
          operation
        ≡ true
  own_use-fits now s lease snapshot generation confirmed operation current fresh = ground (
    arith,
    operation_beq_refl operation,
    beq_refl lease.revision,
    beq_refl generation,
    beq_refl lease.request_id,
  )

  own_use-validates :
      (now : ℕ) (s : McpAuthorization D) (lease : McpRequestLease) (snapshot : WritePolicyState)
      (generation : ℕ) (confirmed : Bool) (operation : McpWriteOperation V)
      → is_current now s lease ≡ true
      → is_outdated s snapshot ≡ false
      → ensure_write_mode s.write_policy.settings.mode operation confirmed ≡ ok tt
      → validate_write_permit now s
          (permit_of lease snapshot generation confirmed operation)
          lease
          generation
          operation
        ≡ ok tt
  unfolding validate_write_permit
  own_use-validates now s lease snapshot generation confirmed operation current fresh mode =
      rw
        (
          own_use-fits now s lease snapshot generation confirmed operation current fresh,
          validate_write_permit,
        )
        mode

  -- A write permit that was just issued, with a confirmation or without, is accepted for the
  -- request, the connection and the operation it was issued for, at the same time and under the
  -- same state.
  pub issued-validate_write_permit :
      (now : ℕ) (s : McpAuthorization D) (lease : McpRequestLease) (snapshot : WritePolicyState)
      (generation : ℕ) (operation : McpWriteOperation V) (permit : McpWritePermit V)
      → (issue_write_permit now s lease snapshot generation operation ≡ ok permit)
        ⊎ (issue_confirmed_write_permit now s lease snapshot generation operation ≡ ok permit)
      → validate_write_permit now s permit lease generation operation ≡ ok tt
  issued-validate_write_permit now s lease snapshot generation operation permit (inl h) =
      let (same, current, fresh, mode) =
        issue_write_permit-ok now s lease snapshot generation operation permit h in
      subst (λ p. validate_write_permit now s p lease generation operation ≡ ok tt) same
        (own_use-validates now s lease snapshot generation false operation current fresh mode)
  issued-validate_write_permit now s lease snapshot generation operation permit (inr h) =
      let (same, current, fresh, mode) =
        issue_confirmed-ok now s lease snapshot generation operation permit h in
      subst (λ p. validate_write_permit now s p lease generation operation ≡ ok tt) same
        (own_use-validates now s lease snapshot generation true operation current fresh mode)
