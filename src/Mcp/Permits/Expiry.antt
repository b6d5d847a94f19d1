-- ===== src/Mcp/Permits/Expiry.antt =====
-- How long a permit is good.
use norves_editor.Common.{
  ℕ, ◌+◌, ◌%◌, ◌≤◌, ◌<◌, ◌≡◌, ◌⊎◌, inl, inr, ap, refl, Bool, true, false, List, [], ◌∷◌, arith,
  nat_beq_iff, Eq, string_eq, nat_eq, option_eq, u64_modulus, Bool-cases,
}
use norves_editor.Common.Results.{ok, err, Result-cases}
use norves_editor.Mcp.Authorization.{ScopeError, McpWriteOperation, validate}
use norves_editor.Mcp.Permits.Use.{issued-permit_of}
use norves_editor.Mcp.Permits.{
  McpRequestLease, WritePolicyState, McpAuthorization, McpWritePermit, current_lease, revoke,
  changes, set_write_settings, is_current, issue_confirmed_write_permit, issue_write_permit,
  validate_write_permit, fits, Event, happen, run,
}

abbrev pub one_if : Bool → ℕ
one_if true = 1
one_if false = 0

module _ {D : Type 0} where
  -- Whether an event moves the revision on: a revocation, and a valid change of the settings.
  abbrev pub advances : McpAuthorization D → Event → Bool
  advances s (Event.leases alive reload now) = false
  advances s (Event.revokes alive) = true
  advances s (Event.sets_settings alive settings) = elim (validate settings) [
    | ok t ↦ changes settings s
    | err e ↦ false
  ]
  advances s (Event.cancels lease) = false

  -- How many events of a run do.
  unfoldable pub revocations : McpAuthorization D → List Event → ℕ
  revocations s [] = 0
  revocations s (e ∷ es) = one_if (advances s e) + revocations (happen s e) es

  pub happen-revision :
      (s : McpAuthorization D) (e : Event)
      → s.revision < u64_modulus
      → (happen s e).revision ≡ (s.revision + one_if (advances s e)) % u64_modulus
  unfolding happen current_lease revoke set_write_settings
  happen-revision s (Event.leases alive reload now) h = omega arith
  happen-revision s (Event.revokes alive) h = refl
  happen-revision s (Event.sets_settings alive settings) h =
      elim (Result-cases (validate settings)) [
        | inr (e, bad) ↦ rw (bad, happen, set_write_settings, advances) (omega arith)
        | inl (t, good) ↦ elim (Bool-cases (changes settings s)) [
          | inl new ↦ rw (good, new, happen, set_write_settings, advances) refl
          | inr same ↦ rw (good, same, happen, set_write_settings, advances) (omega arith)
        ]
      ]
  happen-revision s (Event.cancels lease) h = omega arith

  run-revision :
      (s : McpAuthorization D) (es : List Event)
      → s.revision < u64_modulus
      → (run s es).revision ≡ (s.revision + revocations s es) % u64_modulus
  unfolding run revocations
  run-revision s [] h = omega arith
  run-revision s (e ∷ es) h = omega (
    arith,
    happen-revision s e h,
    run-revision (happen s e) es (omega (arith, happen-revision s e h)),
  )

  is_current-revision :
      (now : ℕ) (s : McpAuthorization D) (lease : McpRequestLease)
      → is_current now s lease ≡ true
      → s.revision ≡ lease.revision
  is_current-revision now s lease h = ground (arith, nat_beq_iff s.revision lease.revision)

  pub not_current :
      (now : ℕ) (s : McpAuthorization D) (lease : McpRequestLease)
      → ¬ (s.revision ≡ lease.revision)
      → is_current now s lease ≡ false
  not_current now s lease h = ground (arith, nat_beq_iff s.revision lease.revision)

  module _ {V : Type 0} ⦃v : Eq V⦄ where
    not_fits :
        (now : ℕ) (s : McpAuthorization D) (permit : McpWritePermit V) (lease : McpRequestLease)
        (generation : ℕ) (operation : McpWriteOperation V)
        → ¬ (s.revision ≡ permit.auth_revision)
        → fits now s permit lease generation operation ≡ false
    not_fits now s permit lease generation operation other =
        elim (Bool-cases (is_current now s lease)) [
          | inr outdated ↦ rw outdated refl
          | inl current ↦ ground (
            arith,
            is_current-revision now s lease current,
            nat_beq_iff permit.auth_revision lease.revision,
          )
        ]

    validate_not_fitting :
        (now : ℕ) (s : McpAuthorization D) (permit : McpWritePermit V) (lease : McpRequestLease)
        (generation : ℕ) (operation : McpWriteOperation V)
        → fits now s permit lease generation operation ≡ false
        → validate_write_permit now s permit lease generation operation
          ≡ err ScopeError.authorization_revoked
    unfolding validate_write_permit
    validate_not_fitting now s permit lease generation operation h =
        rw (h, validate_write_permit) refl

    -- If a write permit was issued, with a confirmation or without, and from then on, among
    -- requests, cancellations and settings that change nothing, there was a revocation or a change
    -- of the settings, then the permit is refused as revoked, at whatever time, with whatever
    -- lease, also one that is current then, on whatever connection and for whatever operation. The
    -- revision is a `u64`, and fewer than 2^64 revisions have passed.
    pub permit_expires :
        (now later : ℕ) (s : McpAuthorization D) (es : List Event) (lease lease' : McpRequestLease)
        (snapshot : WritePolicyState) (generation generation' : ℕ)
        (operation operation' : McpWriteOperation V) (permit : McpWritePermit V)
        → (issue_write_permit now s lease snapshot generation operation ≡ ok permit)
          ⊎ (issue_confirmed_write_permit now s lease snapshot generation operation ≡ ok permit)
        → s.revision < u64_modulus
        → 1 ≤ revocations s es
        → revocations s es < u64_modulus
        → validate_write_permit later (run s es) permit lease' generation' operation'
          ≡ err ScopeError.authorization_revoked
    permit_expires now later s es lease lease' snapshot generation generation' operation operation'
          permit h small some_ few =
        let (confirmed, made, current) =
          issued-permit_of now s lease snapshot generation operation permit h in
        validate_not_fitting later (run s es) permit lease' generation' operation' (
          not_fits later (run s es) permit lease' generation' operation' (λ same. omega (
            arith,
            same,
            ap (λ (p : McpWritePermit V). p.auth_revision) made,
            run-revision s es small,
            is_current-revision now s lease current,
          )))
