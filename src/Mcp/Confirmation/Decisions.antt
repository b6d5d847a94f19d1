-- ===== src/Mcp/Confirmation/Decisions.antt =====
-- Which decisions reach a call: only the user's, and each of them once.
use norves_editor.Common.{
  ℕ, ◌≡◌, ◌∙◌, ◌⊎◌, inl, inr, refl, ap, subst, Bool, true, false, ◌&&◌, String, Option, none, some,
  List, [], ◌∷◌, arith, length, any, All, leb, ◌==◌, string_eq, nat_eq, option_eq, option_beq_iff,
  nat_beq_iff, Bool-cases, Option-cases, eq_iff, beq_refl,
}
use norves_editor.Common.Dict
use norves_editor.Common.Dict.{Dict, get-insert, get-remove_self}
use norves_editor.Mcp.Confirmation.{
  ConfirmationResult, Request, PendingConfirmation, Lease, Signals, Broker, Input,
  max_pending_confirmations, default, publish_locked, remove, decide, newer, drop_older,
  cancel_before_revision, return, begin, register, select, leave, poll, abandon, step, run,
}

abbrev pub is_approved : ℕ → ℕ × ConfirmationResult → Bool
is_approved c (call, ConfirmationResult.approved) = call == c
is_approved c (call, _) = false

module _ {D : Type 0} where
  -- The call was started and got this identifier.
  abbrev pub begins_as : ℕ → String → Input D → Bool
  begins_as c id (Input.begins call request lease fresh) = call == c && fresh == some id
  begins_as c id _ = false

  -- The user approved what stands under the identifier.
  abbrev pub approves : String → Input D → Bool
  approves id (Input.decides other verdict) = other == id && verdict
  approves id _ = false

  abbrev pub Warranted : List (Input D) → ℕ → Type 0
  Warranted all c =
      (id : String) × (any (begins_as c id) all ≡ true) × (any (approves id) all ≡ true)

  abbrev Began : List (Input D) → String × PendingConfirmation D → Type 0
  Began all (id, p) = any (begins_as p.decision id) all ≡ true

  record IsJustified (all : List (Input D)) (s : Broker D) : Type 0 where
    held : All (Began all) s.requests
    chosen : (c : ℕ) → Dict.get c s.decisions ≡ some (some true) → Warranted all c
    returned : (c : ℕ) → any (is_approved c) s.results ≡ true → Warranted all c

module _ {D : Type 0} (P : String × PendingConfirmation D → Type 0) where
  All-remove :
      (id : String) (m : Dict String (PendingConfirmation D)) → All P m → All P (Dict.remove id m)
  unfolding Dict.remove
  All-remove id [] h = tt
  All-remove id ((k, p) ∷ m) h = elim (Bool-cases (k == id)) [
    | inl same ↦ rw same (All-remove id m h.1)
    | inr other ↦ rw other (h.0, All-remove id m h.1)
  ]

  All-newer :
      (revision : ℕ) (m : Dict String (PendingConfirmation D)) → All P m → All P (newer revision m)
  unfolding newer
  All-newer revision [] h = tt
  All-newer revision ((k, p) ∷ m) h = elim (Bool-cases (leb revision p.auth_revision)) [
    | inl kept ↦ rw kept (h.0, All-newer revision m h.1)
    | inr dropped ↦ rw dropped (All-newer revision m h.1)
  ]

  All-get :
      (id : String) (p : PendingConfirmation D) (m : Dict String (PendingConfirmation D))
      → All P m
      → Dict.get id m ≡ some p
      → P (id, p)
  unfolding Dict.get
  All-get id p [] h e = cc
  All-get id p ((k, q) ∷ m) h e = elim (Bool-cases (k == id)) [
    | inl same ↦ subst P (found ((eq_iff k id).0 same) (rw same at e)) h.0
    | inr other ↦ All-get id p m h.1 (rw other at e)
  ]
    where
      found : k ≡ id → some q ≡ some p → ◌≡◌ {A = String × PendingConfirmation D} (k, q) (id, p)
      found a b = ground arith

-- Closing a channel approves nothing.
get-close :
    (c d : ℕ) (decisions : Dict ℕ (Option Bool))
    → Dict.get c (Dict.insert d none decisions) ≡ some (some true)
    → Dict.get c decisions ≡ some (some true)
get-close c d decisions h = ground (arith, get-insert c d none decisions)

module _ {D : Type 0} where
  get-drop_older :
      (revision c : ℕ) (m : Dict String (PendingConfirmation D)) (decisions : Dict ℕ (Option Bool))
      → Dict.get c (drop_older revision m decisions) ≡ some (some true)
      → Dict.get c decisions ≡ some (some true)
  unfolding drop_older
  get-drop_older revision c [] decisions h = h
  get-drop_older revision c ((id, p) ∷ m) decisions h =
      elim (Bool-cases (leb revision p.auth_revision)) [
        | inl kept ↦ get-drop_older revision c m decisions (rw kept at h)
        | inr dropped ↦
            get-drop_older revision c m decisions
              (get-close c p.decision (drop_older revision m decisions) (rw dropped at h))
      ]

-- A call returns `approved` only from its channel.
select_approves :
    (signals : Signals) (channel : Option (Option Bool))
    → select signals channel ≡ some ConfirmationResult.approved
    → channel ≡ some (some true)
unfolding select
select_approves signals none h = ground arith
select_approves signals (some none) h = ground arith
select_approves signals (some (some true)) h = refl
select_approves signals (some (some false)) h = ground arith

module _ {D : Type 0} (all : List (Input D)) where
  remove-IsJustified :
      (id : String) (s : Broker D) → IsJustified all s → IsJustified all (remove id s)
  unfolding remove publish_locked
  remove-IsJustified id s h = elim (Option-cases (Dict.get id s.requests)) [
    | inl e ↦ rw (e, remove) h
    | inr (p, e) ↦
        rw (e, remove)
          (record {
            held = All-remove (Began all) id s.requests h.held;
            chosen = λ c d. h.chosen c (get-close c p.decision s.decisions d);
            returned = h.returned;
          })
  ]

  decide-IsJustified :
      (id : String) (verdict : Bool) (s : Broker D)
      → (verdict ≡ true → any (approves id) all ≡ true)
      → IsJustified all s
      → IsJustified all (decide id verdict s).1
  unfolding decide publish_locked
  decide-IsJustified id verdict s inputs h = elim (Option-cases (Dict.get id s.requests)) [
    | inl e ↦ rw (e, decide) h
    | inr (p, e) ↦
        rw (e, decide)
          (record {
            held = All-remove (Began all) id s.requests h.held;
            chosen = λ c d. decided c p e d (Bool-cases (p.decision == c));
            returned = h.returned;
          })
  ]
    where
      decided :
          (c : ℕ) (p : PendingConfirmation D)
          → Dict.get id s.requests ≡ some p
          → Dict.get c (Dict.insert p.decision (some verdict) s.decisions) ≡ some (some true)
          → (p.decision == c ≡ true) ⊎ (p.decision == c ≡ false)
          → Warranted all c
      decided c p e d (inl same) = (
        id,
        subst (λ k. any (begins_as k id) all ≡ true) ((nat_beq_iff p.decision c).0 same)
            (All-get (Began all) id p s.requests h.held e),
        inputs (ground (arith, get-insert c p.decision (some verdict) s.decisions)),
      )
      decided c p e d (inr other) =
          h.chosen c (ground (arith, get-insert c p.decision (some verdict) s.decisions))

  register-IsJustified :
      (c : ℕ) (request : Request D) (id : String) (revision : ℕ) (s : Broker D)
      → any (begins_as c id) all ≡ true
      → IsJustified all s
      → IsJustified all (register c request id revision s)
  unfolding register publish_locked Dict.insert
  register-IsJustified c request id revision s began h =
      elim (Option-cases (Dict.get id s.requests)) [
        | inl e ↦
            rw (e, register)
              (record {
                held = (began, All-remove (Began all) id s.requests h.held);
                chosen = h.chosen;
                returned = h.returned;
              })
        | inr (p, e) ↦
            rw (e, register)
              (record {
                held = (began, All-remove (Began all) id s.requests h.held);
                chosen = λ c d. h.chosen c (get-close c p.decision s.decisions d);
                returned = h.returned;
              })
      ]

  cancel-IsJustified :
      (revision : ℕ) (s : Broker D)
      → IsJustified all s
      → IsJustified all (cancel_before_revision revision s)
  unfolding cancel_before_revision publish_locked
  cancel-IsJustified revision s h = record {
    held = All-newer (Began all) revision s.requests h.held;
    chosen = λ c d. h.chosen c (get-drop_older revision c s.requests s.decisions d);
    returned = h.returned;
  }

  leave-IsJustified :
      (c : ℕ) (id : String) (s : Broker D) → IsJustified all s → IsJustified all (leave c id s)
  unfolding leave
  leave-IsJustified c id s h =
      let k = remove-IsJustified id s h in
      record { held = k.held; chosen = k.chosen; returned = k.returned }

  return-IsJustified :
      (c : ℕ) (r : ConfirmationResult) (s : Broker D)
      → (r ≡ ConfirmationResult.approved → Warranted all c)
      → IsJustified all s
      → IsJustified all (return c r s)
  unfolding any
  return-IsJustified c r s w h = record {
    held = h.held;
    chosen = h.chosen;
    returned = λ k d. elim (Bool-cases (is_approved k (c, r))) [
      | inl now ↦ now_returned r w k now
      | inr before ↦ h.returned k (ground arith)
    ];
  }
    where
      now_returned :
          (r : ConfirmationResult)
          → (r ≡ ConfirmationResult.approved → Warranted all c)
          → (k : ℕ) → is_approved k (c, r) ≡ true
          → Warranted all k
      now_returned ConfirmationResult.approved w k e =
          subst (Warranted all) ((nat_beq_iff c k).0 e) (w refl)
      now_returned _ w k e = cc

  poll-IsJustified :
      (c : ℕ) (signals : Signals) (s : Broker D)
      → IsJustified all s
      → IsJustified all (poll c signals s)
  unfolding poll
  poll-IsJustified c signals s h = elim (Option-cases (Dict.get c s.waiting)) [
    | inl e ↦ rw (e, poll) h
    | inr (id, e) ↦ elim (Option-cases (select signals (Dict.get c s.decisions))) [
      | inl still ↦ rw (e, still, poll) h
      | inr (r, done) ↦
          rw (e, done, poll)
            (return-IsJustified c r (leave c id s)
              (λ a.
                h.chosen c (select_approves signals (Dict.get c s.decisions) (done ∙ ap some a)))
              (leave-IsJustified c id s h))
    ]
  ]

  begin-IsJustified :
      (c : ℕ) (request : Request D) (lease : Lease) (fresh : Option String) (s : Broker D)
      → ((id : String) → fresh ≡ some id → any (begins_as c id) all ≡ true)
      → IsJustified all s
      → IsJustified all (begin c request lease fresh s)
  unfolding begin
  begin-IsJustified c request lease fresh s inputs h =
      elim (Option-cases lease.confirmation_deadline) [
        | inl e ↦ rw (e, begin) (return-IsJustified c ConfirmationResult.timed_out s (λ a. cc) h)
        | inr (d, e) ↦ elim (Bool-cases lease.is_current) [
          | inr stale ↦
              rw (e, stale, begin) (return-IsJustified c ConfirmationResult.cancelled s (λ a. cc) h)
          | inl current ↦ elim (Option-cases fresh) [
            | inl f ↦
                rw (e, current, f, begin)
                  (return-IsJustified c ConfirmationResult.unavailable s (λ a. cc) h)
            | inr (id, f) ↦ elim (Bool-cases (leb max_pending_confirmations (length s.requests))) [
              | inl full ↦
                  rw (e, current, f, full, begin)
                    (return-IsJustified c ConfirmationResult.unavailable (remove id s) (λ a. cc)
                      (remove-IsJustified id s h))
              | inr room ↦
                  rw (e, current, f, room, begin)
                    (register-IsJustified c request id lease.revision s (inputs id f) h)
            ]
          ]
        ]
      ]

  abandon-IsJustified : (c : ℕ) (s : Broker D) → IsJustified all s → IsJustified all (abandon c s)
  unfolding abandon
  abandon-IsJustified c s h = elim (Option-cases (Dict.get c s.waiting)) [
    | inl e ↦ rw (e, abandon) h
    | inr (id, e) ↦ rw (e, abandon) (leave-IsJustified c id s h)
  ]

  abbrev Among : List (Input D) → Type 0
  Among is = (P : Input D → Bool) → any P is ≡ true → any P all ≡ true

  step-IsJustified :
      (i : Input D) (s : Broker D)
      → ((P : Input D → Bool) → P i ≡ true → any P all ≡ true)
      → IsJustified all s
      → IsJustified all (step i s)
  unfolding step
  step-IsJustified (Input.begins c request lease fresh) s among h =
      begin-IsJustified c request lease fresh s
        (λ id f.
          among (begins_as c id) (ground (arith, beq_refl c, (option_beq_iff fresh (some id)).1 f)))
        h
  step-IsJustified (Input.polls c signals) s among h = poll-IsJustified c signals s h
  step-IsJustified (Input.abandons c) s among h = abandon-IsJustified c s h
  step-IsJustified (Input.decides id verdict) s among h =
      decide-IsJustified id verdict s (λ v. among (approves id) (ground (arith, beq_refl id))) h
  step-IsJustified (Input.cancels_before revision) s among h = cancel-IsJustified revision s h

  run-IsJustified :
      (s : Broker D) (is : List (Input D))
      → Among is
      → IsJustified all s
      → IsJustified all (run s is)
  unfolding run any
  run-IsJustified s [] among h = h
  run-IsJustified s (i ∷ is) among h =
      run-IsJustified (step i s) is (λ P p. among P (ground arith))
        (step-IsJustified i s (λ P p. among P (ground arith)) h)

-- Over every run of a new broker: a call returns that it was approved only if it began with some
-- identifier and an approval of that identifier is among the inputs. Timeouts, cancellations,
-- dropped senders and refusals never count as one.
pub approved-Warranted :
    {D : Type 0} (is : List (Input D)) (c : ℕ)
    → any (is_approved c) (run default is).results ≡ true
    → Warranted is c
unfolding any Dict.get
approved-Warranted is c h =
    (run-IsJustified is default is (λ P p. p)
        (record { held = tt; chosen = λ k d. cc; returned = λ k d. cc })).returned
      c h

-- After an answer to an identifier, whatever it was and whether or not a request was pending under
-- it, a second answer reports that it reached none.
pub decide_again :
    {D : Type 0} (id : String) (first second : Bool) (s : Broker D)
    → (decide id second (decide id first s).1).0 ≡ false
unfolding decide publish_locked
decide_again id first second s = elim (Option-cases (Dict.get id s.requests)) [
  | inl e ↦ ground arith
  | inr (p, e) ↦ rw (e, decide) (ground (arith, get-remove_self id s.requests))
]
