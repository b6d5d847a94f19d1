-- ===== src/Mcp/Permits/Revocation.antt =====
-- What `revoke` clears away.
use norves_editor.Common.{
  ℕ, ◌≤◌, ◌≡◌, inl, inr, sym, subst, Bool, true, false, not, ◌&&◌, ◌||◌, String, List, [], ◌∷◌,
  arith, any, All, leb, ◌==◌, string_eq, nat_eq, nat_beq_iff, wrapping_add, Bool-cases, beq_refl,
}
use norves_editor.Common.Dict.{Dict}
use norves_editor.Mcp.Confirmation.{
  PendingConfirmation, newer, cancel_before_revision, publish_locked,
}
use norves_editor.Mcp.Permits.{
  McpRequestLease, McpAuthorization, holds, retain_leases, append_all, revoke,
  is_authorization_current,
}

-- A lease that was registered: of this revision, cancelled, or held by nobody.
abbrev pub IsSettled : (ℕ → Bool) → ℕ → List ℕ → ℕ × ℕ → Type 0
IsSettled alive revision cancelled (r, token) =
    (r == revision || (holds token cancelled || not (alive token))) ≡ true

abbrev pub IsNewer : {D : Type 0} → ℕ → String × PendingConfirmation D → Type 0
IsNewer revision (id, p) = revision ≤ p.auth_revision

abbrev pub IsOf : ℕ → ℕ × ℕ → Type 0
IsOf revision (r, token) = r ≡ revision

-- The state after a revocation, beside the one before it.
pub record IsCleared {D : Type 0} (alive : ℕ → Bool) (before s : McpAuthorization D) : Type 0 where
  pub ended :
      (lease : McpRequestLease)
      → is_authorization_current before lease ≡ true
      → is_authorization_current s lease ≡ false
  pub kept : All (IsOf s.revision) s.leases
  pub settled : All (IsSettled alive s.revision s.cancelled) before.leases
  pub asked : All (IsNewer s.revision) s.confirmations.requests

module _ (alive : ℕ → Bool) (revision : ℕ) where
  retain_leases-IsOf : (ls : List (ℕ × ℕ)) → All (IsOf revision) (retain_leases alive revision ls).0
  unfolding retain_leases
  retain_leases-IsOf [] = tt
  retain_leases-IsOf ((r, token) ∷ ls) = elim (Bool-cases (r == revision)) [
    | inl same ↦ elim (Bool-cases (alive token)) [
      | inl held ↦
          rw (same, held, retain_leases) ((nat_beq_iff r revision).0 same, retain_leases-IsOf ls)
      | inr free ↦ rw (same, free, retain_leases) (retain_leases-IsOf ls)
    ]
    | inr other ↦ elim (Bool-cases (alive token)) [
      | inl held ↦ rw (other, held, retain_leases) (retain_leases-IsOf ls)
      | inr free ↦ rw (other, free, retain_leases) (retain_leases-IsOf ls)
    ]
  ]

  holds-append_all :
      (n : ℕ) (xs ys : List ℕ) → holds n xs ≡ true → holds n (append_all xs ys) ≡ true
  unfolding any
  holds-append_all n [] ys h = cc
  holds-append_all n (x ∷ xs) ys h = ground (arith, holds-append_all n xs ys)

  -- One lease of the list, with more tokens cancelled before it.
  IsSettled-more :
      (x : ℕ × ℕ) (token : ℕ) (cancelled : List ℕ)
      → IsSettled alive revision cancelled x
      → IsSettled alive revision (token ∷ cancelled) x
  unfolding any
  IsSettled-more (r, t) token cancelled h = ground arith

  All-IsSettled-more :
      (ls : List (ℕ × ℕ)) (token : ℕ) (cancelled : List ℕ)
      → All (IsSettled alive revision cancelled) ls
      → All (IsSettled alive revision (token ∷ cancelled)) ls
  All-IsSettled-more [] token cancelled h = tt
  All-IsSettled-more (x ∷ ls) token cancelled h =
      (IsSettled-more x token cancelled h.0, All-IsSettled-more ls token cancelled h.1)

  retain_leases-IsSettled :
      (ls : List (ℕ × ℕ)) (cancelled : List ℕ)
      → All (IsSettled alive revision (append_all (retain_leases alive revision ls).1 cancelled)) ls
  unfolding retain_leases any
  retain_leases-IsSettled [] cancelled = tt
  retain_leases-IsSettled ((r, token) ∷ ls) cancelled =
      let rest = retain_leases-IsSettled ls cancelled in
      elim (Bool-cases (r == revision)) [
        | inl same ↦ after (stays same) (ground arith) rest
        | inr other ↦ elim (Bool-cases (alive token)) [
          | inl held ↦
              after (goes other held) (ground (arith, beq_refl token))
                (All-IsSettled-more ls token _ rest)
          | inr free ↦ after (lapses other free) (ground arith) rest
        ]
      ]
    where
      after :
          {ts : List ℕ}
          → (retain_leases alive revision ((r, token) ∷ ls)).1 ≡ ts
          → IsSettled alive revision (append_all ts cancelled) (r, token)
          → All (IsSettled alive revision (append_all ts cancelled)) ls
          → All
              (IsSettled alive revision
                (append_all (retain_leases alive revision ((r, token) ∷ ls)).1 cancelled))
              ((r, token) ∷ ls)
      after e h hs =
          subst (λ ts. All (IsSettled alive revision (append_all ts cancelled)) ((r, token) ∷ ls))
            (sym e) (h, hs)

      stays :
          (r == revision) ≡ true
          → (retain_leases alive revision ((r, token) ∷ ls)).1 ≡ (retain_leases alive revision ls).1
      stays same = ground arith

      goes :
          (r == revision) ≡ false
          → alive token ≡ true
          → (retain_leases alive revision ((r, token) ∷ ls)).1
            ≡ token ∷ (retain_leases alive revision ls).1
      goes other held = ground arith

      lapses :
          (r == revision) ≡ false
          → alive token ≡ false
          → (retain_leases alive revision ((r, token) ∷ ls)).1 ≡ (retain_leases alive revision ls).1
      lapses other free = ground arith

-- A lease of one revision is not of another.
outdated :
    (revision of_lease : ℕ) (cancelled cancelled' : Bool)
    → ¬ (wrapping_add revision 1 ≡ revision)
    → (cancelled && revision == of_lease) ≡ true
    → (cancelled' && wrapping_add revision 1 == of_lease) ≡ false
outdated revision of_lease cancelled cancelled' moved h =
    ground (arith, nat_beq_iff revision of_lease, nat_beq_iff (wrapping_add revision 1) of_lease)

newer-IsNewer :
    {D : Type 0} (revision : ℕ) (m : Dict String (PendingConfirmation D))
    → All (IsNewer revision) (newer revision m)
unfolding newer
newer-IsNewer revision [] = tt
newer-IsNewer revision ((id, p) ∷ m) = elim (Bool-cases (leb revision p.auth_revision)) [
  | inl kept ↦ rw kept (ground arith, newer-IsNewer revision m)
  | inr dropped ↦ rw dropped (newer-IsNewer revision m)
]

-- After a revocation no lease whose authorization was current before is current, every registered
-- lease is of the new revision, every lease that was registered before is of that revision,
-- cancelled, or held by nobody, and every pending confirmation is of that revision or a later one.
pub revoke-IsCleared :
    {D : Type 0} (alive : ℕ → Bool) (s : McpAuthorization D) → IsCleared alive s (revoke alive s)
unfolding revoke cancel_before_revision publish_locked
revoke-IsCleared alive s = record {
  ended =
      λ lease current. outdated s.revision lease.revision _ _ (λ same. omega (arith, same)) current;
  kept = retain_leases-IsOf alive (wrapping_add s.revision 1) s.leases;
  settled = retain_leases-IsSettled alive (wrapping_add s.revision 1) s.leases s.cancelled;
  asked = newer-IsNewer (wrapping_add s.revision 1) s.confirmations.requests;
}
