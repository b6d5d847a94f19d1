-- ===== src/Mcp/Authentication/Sessions.antt =====
-- How long a lease is good, over all that is done to the server's authentication.
use norves_editor.Common.{
  ℕ, ◌+◌, ◌%◌, ◌≤◌, ◌<◌, ◌≡◌, inl, inr, refl, Bool, true, false, String, some, List, [], ◌∷◌, arith,
  u64_modulus, Bool-cases, Option-cases,
}
use norves_editor.Mcp.Permits.{McpRequestLease, current_lease, revoke, is_current}
use norves_editor.Mcp.Permits.Expiry.{one_if, advances as moves_on, happen-revision, not_current}
use norves_editor.Mcp.Authentication.{
  TokenCode, matches, bearer_of, McpHttpAuth, Moment, replace, disable, authorize,
  authorized_request, Event, happen, run,
}

module _ {D : Type 0} where
  -- Whether an event withdraws the leases: another token, none, or a revocation by another part.
  abbrev pub withdraws : {H : Type 0} → McpHttpAuth D → Event H → Bool
  withdraws s (Event.replaces alive token) = true
  withdraws s (Event.disables alive) = true
  withdraws s (Event.requests at headers) = false
  withdraws s (Event.changes_authorization e) = moves_on s.authorization e

  abbrev revision_of : McpHttpAuth D → ℕ
  revision_of s = s.authorization.revision

module _ {D H : Type 0} (code : TokenCode H) where
  unfoldable pub withdrawals : McpHttpAuth D → List (Event H) → ℕ
  withdrawals s [] = 0
  withdrawals s (e ∷ es) = one_if (withdraws s e) + withdrawals (happen code s e) es

  authorize-revision :
      (at : Moment) (presented : String) (s : McpHttpAuth D)
      → revision_of (authorize code at presented s).1 ≡ revision_of s
  unfolding authorize current_lease
  authorize-revision at presented s = elim (Option-cases s.token) [
    | inl absent ↦ rw (absent, authorize) refl
    | inr (token, there) ↦ elim (Bool-cases (matches code token presented)) [
      | inl good ↦ rw (there, good, authorize) refl
      | inr bad ↦ rw (there, bad, authorize) refl
    ]
  ]

  requests-revision :
      (at : Moment) (headers : List H) (s : McpHttpAuth D)
      → revision_of (authorized_request code at headers s).1 ≡ revision_of s
  unfolding authorized_request
  requests-revision at [] s = refl
  requests-revision at (value ∷ other ∷ values) s = refl
  requests-revision at (value ∷ []) s = elim (Option-cases (bearer_of code value)) [
    | inl other ↦ rw (other, authorized_request) refl
    | inr (presented, bears) ↦ rw (bears, authorized_request) (authorize-revision at presented s)
  ]

  authentication_happen-revision :
      (s : McpHttpAuth D) (e : Event H)
      → revision_of s < u64_modulus
      → revision_of (happen code s e) ≡ (revision_of s + one_if (withdraws s e)) % u64_modulus
  unfolding happen replace disable revoke
  authentication_happen-revision s (Event.replaces alive token) h = refl
  authentication_happen-revision s (Event.disables alive) h = refl
  authentication_happen-revision s (Event.requests at headers) h =
      omega (arith, requests-revision at headers s)
  authentication_happen-revision s (Event.changes_authorization e) h =
      happen-revision s.authorization e h

  authentication_run-revision :
      (s : McpHttpAuth D) (es : List (Event H))
      → revision_of s < u64_modulus
      → revision_of (run code s es) ≡ (revision_of s + withdrawals s es) % u64_modulus
  unfolding run withdrawals
  authentication_run-revision s [] h = omega arith
  authentication_run-revision s (e ∷ es) h =
      let one = authentication_happen-revision s e h in
      omega (arith, one, authentication_run-revision (happen code s e) es (omega (arith, one)))

  authorize-lease :
      (at : Moment) (presented : String) (s : McpHttpAuth D) (l : McpRequestLease)
      → (authorize code at presented s).0 ≡ some l
      → l.revision ≡ revision_of s
  unfolding authorize current_lease
  authorize-lease at presented s l h = elim (Option-cases s.token) [
    | inl absent ↦ ground arith
    | inr (token, there) ↦ elim (Bool-cases (matches code token presented)) [
      | inl good ↦ ground arith
      | inr bad ↦ ground arith
    ]
  ]

  requests-lease :
      (at : Moment) (headers : List H) (s : McpHttpAuth D) (l : McpRequestLease)
      → (authorized_request code at headers s).0 ≡ some l
      → l.revision ≡ revision_of s
  unfolding authorized_request
  requests-lease at [] s l h = ground arith
  requests-lease at (value ∷ other ∷ values) s l h = ground arith
  requests-lease at (value ∷ []) s l h = elim (Option-cases (bearer_of code value)) [
    | inl other ↦ cc (rw (other, authorized_request) at h)
    | inr (presented, bears) ↦
        authorize-lease at presented s l (rw (bears, authorized_request) at h)
  ]

  -- If a request was given a lease, and from then on, among requests and changes of the
  -- authorization that withdraw nothing, the token was replaced, the authentication was closed or
  -- the leases were withdrawn, then the lease is not current any more, at whatever time. The
  -- revision is a `u64`, and fewer than 2^64 withdrawals have happened.
  pub lease_expires :
      (at : Moment) (headers : List H) (s : McpHttpAuth D) (es : List (Event H))
      (l : McpRequestLease) (later : ℕ)
      → (authorized_request code at headers s).0 ≡ some l
      → s.authorization.revision < u64_modulus
      → 1 ≤ withdrawals (authorized_request code at headers s).1 es
      → withdrawals (authorized_request code at headers s).1 es < u64_modulus
      → is_current later (run code (authorized_request code at headers s).1 es).authorization l
        ≡ false
  lease_expires at headers s es l later h small some_ few =
      let s' = (authorized_request code at headers s).1 in
      let same = requests-revision at headers s in
      not_current later (run code s' es).authorization l (λ again. omega (
        arith,
        again,
        same,
        requests-lease at headers s l h,
        authentication_run-revision s' es (omega (arith, same)),
      ))
