-- ===== src/Mcp/Permits/Binding.antt =====
-- A permit is good for one request, connection and operation, under one policy.
use norves_editor.Common.{
  ℕ, ◌≡◌, ◌⊎◌, inl, inr, refl, sym, ap, subst, true, List, [], ◌∷◌, arith, nat_beq_iff, Eq,
  string_eq, nat_eq, option_eq, option_beq_iff, eq_iff, Bool-cases,
}
use norves_editor.Common.Results.{ok}
use norves_editor.History.Types.{HistoryRecord, source_eq, source_beq_iff}
use norves_editor.Mcp.Authorization.{McpWriteOperation, McpHistoryDirection, McpHistoryAction}
use norves_editor.Mcp.Authorization.Comparison.{
  direction_beq, record_beq, records_beq, action_beq, operation_beq,
}
use norves_editor.Mcp.Permits.{
  McpRequestLease, WritePolicyState, McpAuthorization, McpWritePermit, is_current,
  issue_write_permit, issue_confirmed_write_permit, fits, validate_write_permit,
}
use norves_editor.Mcp.Permits.Use.{issued-permit_of}

direction_eq : (d e : McpHistoryDirection) → direction_beq d e ≡ true → d ≡ e
direction_eq d e h = ground arith

module _ {V : Type 0} ⦃v : Eq V⦄ where
  record_eq : (r s : HistoryRecord V) → record_beq r s ≡ true → r ≡ s
  record_eq (HistoryRecord.create a p k) (HistoryRecord.create b q l) h =
      ground (arith, eq_iff a b, option_beq_iff p q, option_beq_iff k l)
  record_eq (HistoryRecord.duplicate a b p) (HistoryRecord.duplicate c d q) h =
      ground (arith, eq_iff a c, eq_iff b d, option_beq_iff p q)
  record_eq (HistoryRecord.reparent a p q) (HistoryRecord.reparent b r s) h =
      ground (arith, eq_iff a b, option_beq_iff p r, option_beq_iff q s)
  record_eq (HistoryRecord.set_property a p x y) (HistoryRecord.set_property b q z w) h =
      ground (arith, eq_iff a b, eq_iff p q, v.equal_iff x z, v.equal_iff y w)
  record_eq r s h = ground arith

  records_eq : (rs ss : List (HistoryRecord V)) → records_beq rs ss ≡ true → rs ≡ ss
  records_eq [] [] h = refl
  records_eq [] (s ∷ ss) h = ground arith
  records_eq (r ∷ rs) [] h = ground arith
  records_eq (r ∷ rs) (s ∷ ss) h = ground (arith, record_eq r s, records_eq rs ss)

  action_eq : (a b : McpHistoryAction V) → action_beq a b ≡ true → a ≡ b
  action_eq a b h = ground (
    arith,
    direction_eq a.direction b.direction,
    eq_iff a.group_name b.group_name,
    source_beq_iff a.source b.source,
    records_eq a.records b.records,
  )

  operation_eq : (a b : McpWriteOperation V) → operation_beq a b ≡ true → a ≡ b
  operation_eq (McpWriteOperation.property a) (McpWriteOperation.property b) h =
      ground (arith, eq_iff a b)
  operation_eq (McpWriteOperation.create p) (McpWriteOperation.create q) h =
      ground (arith, option_beq_iff p q)
  operation_eq (McpWriteOperation.duplicate a p) (McpWriteOperation.duplicate b q) h =
      ground (arith, eq_iff a b, option_beq_iff p q)
  operation_eq (McpWriteOperation.reparent a p) (McpWriteOperation.reparent b q) h =
      ground (arith, eq_iff a b, option_beq_iff p q)
  operation_eq (McpWriteOperation.delete a) (McpWriteOperation.delete b) h =
      ground (arith, eq_iff a b)
  operation_eq (McpWriteOperation.component_add a) (McpWriteOperation.component_add b) h =
      ground (arith, eq_iff a b)
  operation_eq (McpWriteOperation.component_remove a) (McpWriteOperation.component_remove b) h =
      ground (arith, eq_iff a b)
  operation_eq McpWriteOperation.runtime_control McpWriteOperation.runtime_control h = refl
  operation_eq (McpWriteOperation.history a) (McpWriteOperation.history b) h =
      ap McpWriteOperation.history (action_eq a b h)
  operation_eq a b h = ground arith

module _ {D V : Type 0} ⦃v : Eq V⦄ where
  validates-fits :
      (now : ℕ) (s : McpAuthorization D) (permit : McpWritePermit V) (lease : McpRequestLease)
      (generation : ℕ) (operation : McpWriteOperation V)
      → validate_write_permit now s permit lease generation operation ≡ ok tt
      → fits now s permit lease generation operation ≡ true
  unfolding validate_write_permit
  validates-fits now s permit lease generation operation h =
      elim (Bool-cases (fits now s permit lease generation operation)) [
        | inl fitting ↦ fitting
        | inr other ↦ cc (rw (other, validate_write_permit) at h)
      ]

  -- A permit that is accepted is of the request, the connection and the operation.
  abbrev IsOfUse :
      ℕ → McpAuthorization D → McpWritePermit V → McpRequestLease → ℕ → McpWriteOperation V → Type 0
  IsOfUse now s permit lease generation operation =
      (permit.generation ≡ generation)
      × (permit.request_id ≡ lease.request_id)
      × (permit.operation ≡ operation)
      × (permit.auth_revision ≡ s.revision)
      × (permit.policy_revision ≡ s.write_policy.revision)
      × (is_current now s lease ≡ true)

  fits-IsOfUse :
      (now : ℕ) (s : McpAuthorization D) (permit : McpWritePermit V) (lease : McpRequestLease)
      (generation : ℕ) (operation : McpWriteOperation V)
      → fits now s permit lease generation operation ≡ true
      → IsOfUse now s permit lease generation operation
  fits-IsOfUse now s permit lease generation operation h = ground (
    arith,
    operation_eq permit.operation operation,
    nat_beq_iff permit.auth_revision lease.revision,
    nat_beq_iff permit.policy_revision s.write_policy.revision,
    nat_beq_iff permit.generation generation,
    nat_beq_iff permit.request_id lease.request_id,
    nat_beq_iff s.revision lease.revision,
  )

  -- If a write permit was issued, with a confirmation or without, and is accepted, at whatever
  -- time and under whatever state, then it was issued for the connection, the operation and the
  -- request that it is accepted for, the lease is current and of the present revision, and the
  -- write policy has the revision of the snapshot that the permit was issued under.
  pub permit_is_bound :
      (now later : ℕ) (s s' : McpAuthorization D) (lease lease' : McpRequestLease)
      (snapshot : WritePolicyState) (generation generation' : ℕ)
      (operation operation' : McpWriteOperation V) (permit : McpWritePermit V)
      → (issue_write_permit now s lease snapshot generation operation ≡ ok permit)
        ⊎ (issue_confirmed_write_permit now s lease snapshot generation operation ≡ ok permit)
      → validate_write_permit later s' permit lease' generation' operation' ≡ ok tt
      → (generation ≡ generation')
        × (lease.request_id ≡ lease'.request_id)
        × (operation ≡ operation')
        × (lease.revision ≡ s'.revision)
        × (snapshot.revision ≡ s'.write_policy.revision)
        × (is_current later s' lease' ≡ true)
  permit_is_bound now later s s' lease lease' snapshot generation generation' operation operation'
        permit h accepted =
      let (confirmed, made, current) =
        issued-permit_of now s lease snapshot generation operation permit h in
      subst (λ p. IsOfUse later s' p lease' generation' operation') (sym made)
        (fits-IsOfUse later s' permit lease' generation' operation'
          (validates-fits later s' permit lease' generation' operation' accepted))
