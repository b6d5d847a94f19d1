-- ===== src/LogBuffer/Runs.antt =====
-- Every operation of the log buffer, in any order, and what holds after every run of them.
use norves_editor.Common.{
  ℕ, ◌+◌, ◌-◌, ◌≤◌, ◌≡◌, refl, sym, ap, subst, inl, inr, true, Option, none, some, List, [], ◌∷◌,
  arith, length, ltb, Bool-cases, Option-cases, ◌==◌, string_eq, nat_eq, option_eq, beq_refl,
  u64_max,
}
use norves_editor.Common.Dict
use norves_editor.Common.Dict.{Dict, get-insert}
use norves_editor.LogBuffer.{
  max_log_bytes, LogSubscriptionStatus, Logged, ok, err, LogParams, LogEntry, GenerationState,
  default_state, LogBuffer, empty, BorrowedLog, ensure_generation,
}
use norves_editor.LogBuffer.Operations.{
  begin_generation, cancelled_if_open, change_state, end_generation, set_subscription_status,
  set_subscription_status_if_active, missed_more, note_missed_events, make_room, append, parse,
  entry_of, last_observed, record_numbered, record_borrowed, record_at,
}
use norves_editor.LogBuffer.Texts.{owned_fields-le}
use norves_editor.LogBuffer.Bounds.{
  Accounts, IsHolding, IsBounded, one_of, total-append, count-append, length-append_one,
  ensure_generation-IsHolding, change_state-IsHolding, note_last-IsHolding, make_room-IsHolding,
  prune-IsBounded,
}

pub data Operation (M : Type 0) : Type 0 where
  begins : (generation : ℕ) → Operation M
  ends : (generation : ℕ) → Operation M
  sets_status : (generation : ℕ) → LogSubscriptionStatus → Operation M
  sets_status_if_active : (generation : ℕ) → LogSubscriptionStatus → Operation M
  misses : (generation count : ℕ) → Operation M
  logs : (generation : ℕ) → M → (received_at_ms : ℕ) → Operation M

module _ {M V L : Type 0} (j : LogParams M V L) (entry_size : ℕ) where
  unfoldable pub apply : LogBuffer L → Operation M → LogBuffer L
  unfolding begin_generation end_generation set_subscription_status
      set_subscription_status_if_active note_missed_events record_at
  apply b (begins generation) = begin_generation b generation
  apply b (ends generation) = end_generation b generation
  apply b (sets_status generation status) = set_subscription_status b generation status
  apply b (sets_status_if_active generation status) =
      (set_subscription_status_if_active b generation status).1
  apply b (misses generation n) = (note_missed_events b generation n).1
  apply b (logs generation params received_at_ms) =
      (record_at j entry_size b generation params received_at_ms).1

  unfoldable pub run : LogBuffer L → List (Operation M) → LogBuffer L
  run b [] = b
  run b (o ∷ os) = run (apply b o) os

module _ {L : Type 0} where
  -- The record that the accounts wait for.
  append-IsBounded :
      (b : LogBuffer L) (e : LogEntry L)
      → IsHolding (one_of e.generation) b
      → e.stored_bytes ≤ max_log_bytes
      → IsBounded (append b e)
  unfolding append
  append-IsBounded b e h small =
      let (h', room) =
        make_room-IsHolding (length b.entries) b e.stored_bytes h (omega arith) small in
      record {
        few =
            ground
              (arith, length-append_one (make_room (length b.entries) b e.stored_bytes).entries e);
        counted = ground (
          arith,
          h'.counted,
          h'.small,
          total-append (make_room (length b.entries) b e.stored_bytes).entries e,
        );
        small = ground (arith, h'.small);
        accounted = λ k.
            subst
              (Accounts (Dict.get k (make_room (length b.entries) b e.stored_bytes).generations))
              (omega
                (arith, count-append k (make_room (length b.entries) b e.stored_bytes).entries e))
              (h'.accounted k);
      }

  begin_generation-IsBounded :
      (b : LogBuffer L) (g : ℕ) → IsBounded b → IsBounded (begin_generation b g)
  unfolding begin_generation
  begin_generation-IsBounded b g h = prune-IsBounded _ (
      ensure_generation-IsHolding _ g
        (record { few = h.few; counted = h.counted; small = h.small; accounted = h.accounted }))

  end_generation-IsBounded :
      (b : LogBuffer L) (g : ℕ) → IsBounded b → IsBounded (end_generation b g)
  unfolding end_generation
  end_generation-IsBounded b g h = elim (Bool-cases (b.active_generation == some g)) [
    | inr other ↦ rw (other, end_generation) (prune-IsBounded b h)
    | inl own ↦
        rw (own, end_generation)
          (prune-IsBounded _ (
            change_state-IsHolding cancelled_if_open g _ (λ s. same_counts s)
              (record {
                few = h.few;
                counted = h.counted;
                small = h.small;
                accounted = h.accounted;
              })))
  ]
    where
      same_counts :
          (s : GenerationState)
          → ((cancelled_if_open s).missing_count ≡ s.missing_count)
            × ((cancelled_if_open s).last_observed_sequence ≡ s.last_observed_sequence)
      same_counts s = ground arith

  set_subscription_status-IsBounded :
      (b : LogBuffer L) (g : ℕ) (status : LogSubscriptionStatus)
      → IsBounded b
      → IsBounded (set_subscription_status b g status)
  unfolding set_subscription_status
  set_subscription_status-IsBounded b g status h = prune-IsBounded _ (
      note_last-IsHolding _ g (
        change_state-IsHolding _ g (ensure_generation b g) (λ s. (refl, refl))
          (ensure_generation-IsHolding b g h)))

  note_missed_events-IsBounded :
      (b : LogBuffer L) (g n : ℕ) → IsBounded b → IsBounded (note_missed_events b g n).1
  unfolding note_missed_events
  note_missed_events-IsBounded b g n h = elim (Bool-cases (b.active_generation == some g)) [
    | inr other ↦ rw (other, note_missed_events) h
    | inl own ↦ elim (Option-cases (Dict.get g b.generations)) [
      | inl gone ↦ rw (own, gone, note_missed_events) h
      | inr (state, there) ↦
          subst IsBounded (sym (noted own state there))
            (change_state-IsHolding (missed_more n) g b (λ s. (refl, refl)) h)
    ]
  ]
    where
      noted :
          b.active_generation == some g ≡ true
          → (s : GenerationState) → Dict.get g b.generations ≡ some s
          → (note_missed_events b g n).1 ≡ change_state (missed_more n) g b
      noted own s there = ground arith

  pub ensure_generation-there :
      (b : LogBuffer L) (g : ℕ)
      → (state : GenerationState) × (Dict.get g (ensure_generation b g).generations ≡ some state)
  unfolding ensure_generation
  ensure_generation-there b g = elim (Option-cases (Dict.get g b.generations)) [
    | inl gone ↦
        rw (gone, ensure_generation)
          (default_state, rw (get-insert g g default_state b.generations, beq_refl g) refl)
    | inr (state, there) ↦ rw (there, ensure_generation) (state, there)
  ]

  -- One more record is observed, and is about to be kept.
  observed-IsHolding :
      (b : LogBuffer L) (g : ℕ) (state : GenerationState)
      → Dict.get g b.generations ≡ some state
      → IsBounded b
      → state.last_observed_sequence + 1 ≤ u64_max
      → IsHolding (one_of g) (
          change_state
            (λ s. record s { last_observed_sequence = state.last_observed_sequence + 1 })
            g
            b)
  observed-IsHolding b g state there h fits =
      rw (there, change_state)
        (record {
          few = h.few;
          counted = h.counted;
          small = h.small;
          accounted = λ k. elim (Bool-cases (g == k)) [
            | inl same ↦
                rw
                  (
                    get-insert k g
                        (record state { last_observed_sequence = state.last_observed_sequence + 1 })
                        b.generations,
                    same,
                  )
                  (ground (arith, rw there at (h.accounted g)))
            | inr other ↦
                rw
                  (
                    get-insert k g
                        (record state { last_observed_sequence = state.last_observed_sequence + 1 })
                        b.generations,
                    other,
                  )
                  (h.accounted k)
          ];
        })

module _ {M V L : Type 0} (j : LogParams M V L) (entry_size : ℕ) where
  entry_of-small :
      (borrowed : BorrowedLog L) (g n at_ms : ℕ)
      → entry_size ≤ max_log_bytes
      → (entry_of j entry_size borrowed g n at_ms).stored_bytes ≤ max_log_bytes
  unfolding entry_of
  entry_of-small borrowed g n at_ms h =
      omega (arith, owned_fields-le borrowed (max_log_bytes - entry_size))

  record_numbered-IsBounded :
      (b : LogBuffer L) (g : ℕ) (state : GenerationState) (borrowed : BorrowedLog L) (at_ms : ℕ)
      → entry_size ≤ max_log_bytes
      → Dict.get g b.generations ≡ some state
      → IsBounded b
      → IsBounded
          (record_numbered j entry_size b (state.last_observed_sequence + 1) g borrowed at_ms).1
  unfolding record_numbered
  record_numbered-IsBounded b g state borrowed at_ms size there h =
      elim (Bool-cases (ltb u64_max (state.last_observed_sequence + 1))) [
        | inl exhausted ↦ rw (exhausted, record_numbered) h
        | inr fits ↦
            rw (fits, record_numbered)
              (prune-IsBounded _ (
                append-IsBounded _
                  (entry_of j entry_size borrowed g (state.last_observed_sequence + 1) at_ms)
                  (unfold entry_of in
                    note_last-IsHolding _ g (observed-IsHolding b g state there h (ground arith)))
                  (entry_of-small borrowed g (state.last_observed_sequence + 1) at_ms size)))
      ]

  record_borrowed-IsBounded :
      (b : LogBuffer L) (g : ℕ) (borrowed : BorrowedLog L) (at_ms : ℕ)
      → entry_size ≤ max_log_bytes
      → IsBounded b
      → IsBounded (record_borrowed j entry_size b g borrowed at_ms).1
  unfolding record_borrowed
  record_borrowed-IsBounded b g borrowed at_ms size h =
      let (state, there) = ensure_generation-there b g in
      subst
        (λ n. IsBounded (record_numbered j entry_size (ensure_generation b g) n g borrowed at_ms).1)
        (number state there)
        (record_numbered-IsBounded (ensure_generation b g) g state borrowed at_ms size there
          (ensure_generation-IsHolding b g h))
    where
      number :
          (state : GenerationState)
          → Dict.get g (ensure_generation b g).generations ≡ some state
          → state.last_observed_sequence + 1 ≡ last_observed (ensure_generation b g) g + 1
      number state there = ap (λ n. n + 1) (sym (last_of state there))
        where
          last_of :
              (state : GenerationState)
              → Dict.get g (ensure_generation b g).generations ≡ some state
              → last_observed (ensure_generation b g) g ≡ state.last_observed_sequence
          last_of state there =
              ap
                (λ (o : Option GenerationState). elim o [
                  | none ↦ 0
                  | some s ↦ s.last_observed_sequence
                ])
                there

  set_if_active-IsBounded :
      (b : LogBuffer L) (g : ℕ) (status : LogSubscriptionStatus)
      → IsBounded b
      → IsBounded (set_subscription_status_if_active b g status).1
  unfolding set_subscription_status_if_active
  set_if_active-IsBounded b g status h = elim (Bool-cases (b.active_generation == some g)) [
    | inl own ↦
        rw (own, set_subscription_status_if_active) (set_subscription_status-IsBounded b g status h)
    | inr other ↦ rw (other, set_subscription_status_if_active) h
  ]

  record_at-IsBounded :
      (b : LogBuffer L) (g : ℕ) (params : M) (at_ms : ℕ)
      → entry_size ≤ max_log_bytes
      → IsBounded b
      → IsBounded (record_at j entry_size b g params at_ms).1
  unfolding record_at
  record_at-IsBounded b g params at_ms size h = logged (parse j entry_size params) refl
    where
      logged :
          (p : Logged (BorrowedLog L))
          → parse j entry_size params ≡ p
          → IsBounded (record_at j entry_size b g params at_ms).1
      logged (err e) q = rw (q, record_at) h
      logged (ok borrowed) q =
          rw (q, record_at) (record_borrowed-IsBounded b g borrowed at_ms size h)

  apply-IsBounded :
      (b : LogBuffer L) (o : Operation M)
      → entry_size ≤ max_log_bytes
      → IsBounded b
      → IsBounded (apply j entry_size b o)
  unfolding apply
  apply-IsBounded b (begins g) size h = begin_generation-IsBounded b g h
  apply-IsBounded b (ends g) size h = end_generation-IsBounded b g h
  apply-IsBounded b (sets_status g status) size h = set_subscription_status-IsBounded b g status h
  apply-IsBounded b (sets_status_if_active g status) size h = set_if_active-IsBounded b g status h
  apply-IsBounded b (misses g n) size h = note_missed_events-IsBounded b g n h
  apply-IsBounded b (logs g params at_ms) size h = record_at-IsBounded b g params at_ms size h

  run-IsBounded :
      (b : LogBuffer L) (os : List (Operation M))
      → entry_size ≤ max_log_bytes
      → IsBounded b
      → IsBounded (run j entry_size b os)
  unfolding run
  run-IsBounded b [] size h = h
  run-IsBounded b (o ∷ os) size h =
      run-IsBounded (apply j entry_size b o) os size (apply-IsBounded b o size h)

  -- Whatever operations are applied to an empty log buffer, in whatever order, with whatever
  -- parameters and times: it has at most its limits of records and of bytes, its byte count is the
  -- sum of the records', and of every generation that it knows the records kept and those missing
  -- are together the ones observed, while of any other it keeps none. The size of a record without
  -- its texts must be within the limit of bytes.
  pub run_from_empty-IsBounded :
      (os : List (Operation M))
      → entry_size ≤ max_log_bytes
      → IsBounded (run j entry_size (empty {L = L}) os)
  run_from_empty-IsBounded os size = run-IsBounded empty os size (record {
    few = omega arith;
    counted = refl;
    small = omega arith;
    accounted = λ g. unfold Dict.get in refl;
  })
