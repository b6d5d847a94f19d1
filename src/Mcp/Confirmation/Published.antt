-- ===== src/Mcp/Confirmation/Published.antt =====
-- What the broker holds and what it shows, over all of its runs.
use norves_editor.Common.{
  ℕ, suc, ◌≡◌, ◌≤◌, inl, inr, refl, sym, subst, Bool, false, String, Option, none, List, [], ◌∷◌,
  arith, length, All, leb, string_eq, nat_eq, Bool-cases, Option-cases,
}
use mathlib.Core.List.{Perm}
use mathlib.Core.List.Perm
use norves_editor.Common.Dict
use norves_editor.Common.Dict.{Dict, Unique, get-remove, insert-Unique, remove-Unique, remove-none}
use norves_editor.Mcp.Confirmation.{
  Request, PendingConfirmation, Lease, Signals, Broker, Input, max_pending_confirmations, default,
  insert_by_expiry, sort_by_expiry, pending, publish_locked, remove, decide, newer,
  cancel_before_revision, begin, register, entry_of, select, leave, poll, abandon, step, run,
}

-- In the order of the times of expiry: each request expires no later than those after it.
abbrev pub IsOrdered : {D : Type 0} → List (Request D) → Type 0
IsOrdered [] = Unit
IsOrdered (r ∷ rs) = All (λ q. r.expires_at ≤ q.expires_at) rs × IsOrdered rs

pub record IsPublished {D : Type 0} (s : Broker D) : Type 0 where
  pub few : length s.requests ≤ max_pending_confirmations
  pub unique : Unique s.requests
  pub shown : Perm s.updates (pending s.requests)
  pub ordered : IsOrdered s.updates

module _ {D : Type 0} where
  insert_by_expiry-Perm :
      (r : Request D) (rs : List (Request D)) → Perm (insert_by_expiry r rs) (r ∷ rs)
  unfolding insert_by_expiry
  insert_by_expiry-Perm r [] = Perm.refl (r ∷ [])
  insert_by_expiry-Perm r (q ∷ qs) = elim (Bool-cases (leb r.expires_at q.expires_at)) [
    | inl first ↦ rw first (Perm.refl (r ∷ q ∷ qs))
    | inr later ↦
        rw later (Perm.trans (Perm.cons q (insert_by_expiry-Perm r qs)) (Perm.swap r q qs))
  ]

  sort_by_expiry-Perm : (rs : List (Request D)) → Perm (sort_by_expiry rs) rs
  unfolding sort_by_expiry
  sort_by_expiry-Perm [] = Perm.refl []
  sort_by_expiry-Perm (r ∷ rs) =
      Perm.trans (insert_by_expiry-Perm r (sort_by_expiry rs))
        (Perm.cons r (sort_by_expiry-Perm rs))

  All-insert_by_expiry :
      (n : ℕ) (r : Request D) (rs : List (Request D))
      → n ≤ r.expires_at
      → All (λ q. n ≤ q.expires_at) rs
      → All (λ q. n ≤ q.expires_at) (insert_by_expiry r rs)
  unfolding insert_by_expiry
  All-insert_by_expiry n r [] here h = (here, tt)
  All-insert_by_expiry n r (q ∷ qs) here h = elim (Bool-cases (leb r.expires_at q.expires_at)) [
    | inl first ↦ rw first (here, h)
    | inr later ↦ rw later (h.0, All-insert_by_expiry n r qs here h.1)
  ]

  All-later :
      (m n : ℕ) (rs : List (Request D))
      → m ≤ n
      → All (λ q. n ≤ q.expires_at) rs
      → All (λ q. m ≤ q.expires_at) rs
  All-later m n [] l h = tt
  All-later m n (q ∷ qs) l h = (omega (arith, h.0), All-later m n qs l h.1)

  insert_by_expiry-IsOrdered :
      (r : Request D) (rs : List (Request D)) → IsOrdered rs → IsOrdered (insert_by_expiry r rs)
  unfolding insert_by_expiry
  insert_by_expiry-IsOrdered r [] h = (tt, tt)
  insert_by_expiry-IsOrdered r (q ∷ qs) h = elim (Bool-cases (leb r.expires_at q.expires_at)) [
    | inl first ↦
        let l : r.expires_at ≤ q.expires_at = ground arith in
        rw first ((l, All-later r.expires_at q.expires_at qs l h.0), h)
    | inr later ↦ rw later (
      All-insert_by_expiry q.expires_at r qs (ground arith) h.0,
      insert_by_expiry-IsOrdered r qs h.1,
    )
  ]

  sort_by_expiry-IsOrdered : (rs : List (Request D)) → IsOrdered (sort_by_expiry rs)
  unfolding sort_by_expiry
  sort_by_expiry-IsOrdered [] = tt
  sort_by_expiry-IsOrdered (r ∷ rs) =
      insert_by_expiry-IsOrdered r (sort_by_expiry rs) (sort_by_expiry-IsOrdered rs)

  length-remove :
      (id : String) (m : Dict String (PendingConfirmation D)) → length (Dict.remove id m) ≤ length m
  unfolding Dict.remove
  length-remove id [] = omega arith
  length-remove id ((k, p) ∷ m) = ground (arith, length-remove id m)

  length-insert :
      (id : String) (p : PendingConfirmation D) (m : Dict String (PendingConfirmation D))
      → length (Dict.insert id p m) ≤ suc (length m)
  unfolding Dict.insert
  length-insert id p m = omega (arith, length-remove id m)

  length-newer :
      (revision : ℕ) (m : Dict String (PendingConfirmation D))
      → length (newer revision m) ≤ length m
  unfolding newer
  length-newer revision [] = omega arith
  length-newer revision ((id, p) ∷ m) = ground (arith, length-newer revision m)

  get-newer-none :
      (k : String) (revision : ℕ) (m : Dict String (PendingConfirmation D))
      → Dict.get k m ≡ none
      → Dict.get k (newer revision m) ≡ none
  unfolding newer Dict.get
  get-newer-none k revision [] h = refl
  get-newer-none k revision ((id, p) ∷ m) h = ground (arith, get-newer-none k revision m)

  newer-Unique :
      (revision : ℕ) (m : Dict String (PendingConfirmation D))
      → Unique m
      → Unique (newer revision m)
  unfolding newer
  newer-Unique revision [] u = tt
  newer-Unique revision ((id, p) ∷ m) u = elim (Bool-cases (leb revision p.auth_revision)) [
    | inl kept ↦ rw kept (get-newer-none id revision m u.0, newer-Unique revision m u.1)
    | inr dropped ↦ rw dropped (newer-Unique revision m u.1)
  ]

  -- Every change of the requests is followed by a notice.
  publish_locked-IsPublished :
      (s : Broker D)
      → length s.requests ≤ max_pending_confirmations
      → Unique s.requests
      → IsPublished (publish_locked s)
  unfolding publish_locked
  publish_locked-IsPublished s few unique = record {
    few = few;
    unique = unique;
    shown = sort_by_expiry-Perm (pending s.requests);
    ordered = sort_by_expiry-IsOrdered (pending s.requests);
  }

  -- The requests and what is shown decide it.
  IsPublished-same :
      (s t : Broker D)
      → t.requests ≡ s.requests
      → t.updates ≡ s.updates
      → IsPublished s
      → IsPublished t
  IsPublished-same s t r u h = record {
    few = subst (λ m. length m ≤ max_pending_confirmations) (sym r) h.few;
    unique = subst Unique (sym r) h.unique;
    shown =
        subst (λ m. Perm t.updates (pending m)) (sym r)
          (subst (λ us. Perm us (pending s.requests)) (sym u) h.shown);
    ordered = subst IsOrdered (sym u) h.ordered;
  }

  taken-IsPublished :
      (id : String) (s : Broker D)
      → IsPublished s
      → IsPublished (publish_locked (record s { requests = Dict.remove id s.requests }))
  taken-IsPublished id s h =
      publish_locked-IsPublished (record s { requests = Dict.remove id s.requests })
        (omega (arith, length-remove id s.requests, h.few)) (remove-Unique id s.requests h.unique)

  remove-IsPublished : (id : String) (s : Broker D) → IsPublished s → IsPublished (remove id s)
  unfolding remove
  remove-IsPublished id s h = elim (Option-cases (Dict.get id s.requests)) [
    | inl e ↦ rw (e, remove) h
    | inr (p, e) ↦ rw (e, remove) (IsPublished-same _ _ refl refl (taken-IsPublished id s h))
  ]

  decide-IsPublished :
      (id : String) (verdict : Bool) (s : Broker D)
      → IsPublished s
      → IsPublished (decide id verdict s).1
  unfolding decide
  decide-IsPublished id verdict s h = elim (Option-cases (Dict.get id s.requests)) [
    | inl e ↦ rw (e, decide) h
    | inr (p, e) ↦ rw (e, decide) (IsPublished-same _ _ refl refl (taken-IsPublished id s h))
  ]

  register-IsPublished :
      (c : ℕ) (request : Request D) (id : String) (revision : ℕ) (s : Broker D)
      → leb max_pending_confirmations (length s.requests) ≡ false
      → IsPublished s
      → IsPublished (register c request id revision s)
  unfolding register publish_locked
  register-IsPublished c request id revision s room h = record {
    few = ground (arith, length-insert id (entry_of c request id revision) s.requests);
    unique = insert-Unique id (entry_of c request id revision) s.requests h.unique;
    shown =
        sort_by_expiry-Perm (pending (Dict.insert id (entry_of c request id revision) s.requests));
    ordered =
        sort_by_expiry-IsOrdered
          (pending (Dict.insert id (entry_of c request id revision) s.requests));
  }

  begin-IsPublished :
      (c : ℕ) (request : Request D) (lease : Lease) (fresh : Option String) (s : Broker D)
      → IsPublished s
      → IsPublished (begin c request lease fresh s)
  unfolding begin
  begin-IsPublished c request lease fresh s h = elim (Option-cases lease.confirmation_deadline) [
    | inl e ↦ rw (e, begin) (IsPublished-same _ _ refl refl h)
    | inr (d, e) ↦ elim (Bool-cases lease.is_current) [
      | inr stale ↦ rw (e, stale, begin) (IsPublished-same _ _ refl refl h)
      | inl current ↦ elim (Option-cases fresh) [
        | inl f ↦ rw (e, current, f, begin) (IsPublished-same _ _ refl refl h)
        | inr (id, f) ↦ elim (Bool-cases (leb max_pending_confirmations (length s.requests))) [
          | inl full ↦
              rw (e, current, f, full, begin)
                (IsPublished-same _ _ refl refl (remove-IsPublished id s h))
          | inr room ↦
              rw (e, current, f, room, begin)
                (register-IsPublished c request id lease.revision s room h)
        ]
      ]
    ]
  ]

  leave-IsPublished :
      (c : ℕ) (id : String) (s : Broker D) → IsPublished s → IsPublished (leave c id s)
  unfolding leave
  leave-IsPublished c id s h = IsPublished-same _ _ refl refl (remove-IsPublished id s h)

  poll-IsPublished :
      (c : ℕ) (signals : Signals) (s : Broker D) → IsPublished s → IsPublished (poll c signals s)
  unfolding poll
  poll-IsPublished c signals s h = elim (Option-cases (Dict.get c s.waiting)) [
    | inl e ↦ rw (e, poll) h
    | inr (id, e) ↦ elim (Option-cases (select signals (Dict.get c s.decisions))) [
      | inl still ↦ rw (e, still, poll) h
      | inr (r, done) ↦
          rw (e, done, poll) (IsPublished-same _ _ refl refl (leave-IsPublished c id s h))
    ]
  ]

  abandon-IsPublished : (c : ℕ) (s : Broker D) → IsPublished s → IsPublished (abandon c s)
  unfolding abandon
  abandon-IsPublished c s h = elim (Option-cases (Dict.get c s.waiting)) [
    | inl e ↦ rw (e, abandon) h
    | inr (id, e) ↦ rw (e, abandon) (leave-IsPublished c id s h)
  ]

  cancel-IsPublished :
      (revision : ℕ) (s : Broker D)
      → IsPublished s
      → IsPublished (cancel_before_revision revision s)
  unfolding cancel_before_revision publish_locked
  cancel-IsPublished revision s h = record {
    few = omega (arith, length-newer revision s.requests, h.few);
    unique = newer-Unique revision s.requests h.unique;
    shown = sort_by_expiry-Perm (pending (newer revision s.requests));
    ordered = sort_by_expiry-IsOrdered (pending (newer revision s.requests));
  }

  step-IsPublished : (i : Input D) (s : Broker D) → IsPublished s → IsPublished (step i s)
  unfolding step
  step-IsPublished (Input.begins c request lease fresh) s h =
      begin-IsPublished c request lease fresh s h
  step-IsPublished (Input.polls c signals) s h = poll-IsPublished c signals s h
  step-IsPublished (Input.abandons c) s h = abandon-IsPublished c s h
  step-IsPublished (Input.decides id verdict) s h = decide-IsPublished id verdict s h
  step-IsPublished (Input.cancels_before revision) s h = cancel-IsPublished revision s h

  run-IsPublished : (s : Broker D) (is : List (Input D)) → IsPublished s → IsPublished (run s is)
  unfolding run
  run-IsPublished s [] h = h
  run-IsPublished s (i ∷ is) h = run-IsPublished (step i s) is (step-IsPublished i s h)

  -- Over every run of a new broker at most 16 requests are pending, no identifier is pending
  -- twice, and the list that the screen is shown holds each pending request once and is in the
  -- order of the times of expiry.
  pub run_from_default-IsPublished : (is : List (Input D)) → IsPublished (run default is)
  unfolding sort_by_expiry
  run_from_default-IsPublished is =
      run-IsPublished default is
        (record { few = omega arith; unique = tt; shown = Perm.refl []; ordered = tt })
