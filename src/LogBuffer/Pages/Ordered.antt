-- ===== src/LogBuffer/Pages/Ordered.antt =====
-- The records of a generation stay in the order of their numbers, over all runs of the log buffer.
use norves_editor.Common.{
  ℕ, ◌+◌, ◌<◌, ◌≡◌, inl, inr, refl, sym, subst, true, some, List, [], ◌∷◌, ◌++◌, arith, All, ltb,
  ◌==◌, nat_eq, option_eq, Bool-cases, u64_max,
}
use norves_editor.Common.Dict
use norves_editor.Common.Dict.{Dict, get-insert, get-remove}
use norves_editor.LogBuffer.{
  LogSubscriptionStatus, GenerationState, LogBuffer, LogParams, BorrowedLog, empty,
  ensure_generation, Logged, ok, err,
}
use norves_editor.LogBuffer.Operations.{
  change_state, note_last, set_subscription_status_if_active, parse, entry_of, last_observed,
  record_numbered, record_borrowed, record_at,
}
use norves_editor.LogBuffer.Runs.{Operation, apply, run, ensure_generation-there}
use norves_editor.LogBuffer.Pages.{LogQuery, read}
use norves_editor.LogBuffer.Pages.Continued.{precedes, IsAscending, selected, after, read_continued}
use norves_editor.LogBuffer.Pages.Order.{
  last_in, IsOrdered, change_state-entries, note_last-IsOrdered, ensure_generation-IsOrdered,
  prune-IsOrdered, begin_generation-IsOrdered, end_generation-IsOrdered,
  set_subscription_status-IsOrdered, note_missed_events-IsOrdered, append-IsOrdered, below-precedes,
  observed-IsOrdered, observed-last,
}

module _ {M V L : Type 0} (j : LogParams M V L) (entry_size : ℕ) where
  record_numbered-IsOrdered :
      (b : LogBuffer L) (g n : ℕ) (state : GenerationState) (borrowed : BorrowedLog L) (at_ms : ℕ)
      → Dict.get g b.generations ≡ some state
      → last_in b.generations g < n
      → IsOrdered b
      → IsOrdered (record_numbered j entry_size b n g borrowed at_ms).1
  unfolding record_numbered entry_of
  record_numbered-IsOrdered b g n state borrowed at_ms there low h =
      elim (Bool-cases (ltb u64_max n)) [
        | inl over ↦ rw (over, record_numbered) h
        | inr fits ↦
            let entry = entry_of j entry_size borrowed g n at_ms in
            let seen = change_state (λ s. record s { last_observed_sequence = n }) g b in
            rw (fits, record_numbered)
              (prune-IsOrdered _ (
                append-IsOrdered (note_last seen g) entry
                  (note_last-IsOrdered seen g (observed-IsOrdered b g n (omega arith) h))
                  (subst (All (λ x. precedes x entry ≡ true)) (same_entries seen) (
                    subst (All (λ x. precedes x entry ≡ true))
                      (sym
                        (change_state-entries (λ s. record s { last_observed_sequence = n }) g b))
                      (below-precedes b entry low h.below)))
                  (omega (arith, observed-last b g n state there, same_last seen))))
      ]
    where
      same_entries : (seen : LogBuffer L) → seen.entries ≡ (note_last seen g).entries
      same_entries seen = ground arith

      same_last :
          (seen : LogBuffer L)
          → last_in (note_last seen g).generations g ≡ last_in seen.generations g
      same_last seen = ground arith

  record_borrowed-IsOrdered :
      (b : LogBuffer L) (g : ℕ) (borrowed : BorrowedLog L) (at_ms : ℕ)
      → IsOrdered b
      → IsOrdered (record_borrowed j entry_size b g borrowed at_ms).1
  unfolding record_borrowed
  record_borrowed-IsOrdered b g borrowed at_ms h =
      let (state, there) = ensure_generation-there b g in
      record_numbered-IsOrdered (ensure_generation b g) g
        (last_observed (ensure_generation b g) g + 1) state borrowed at_ms there (omega arith)
        (ensure_generation-IsOrdered b g h)

  record_at-IsOrdered :
      (b : LogBuffer L) (g : ℕ) (params : M) (at_ms : ℕ)
      → IsOrdered b
      → IsOrdered (record_at j entry_size b g params at_ms).1
  unfolding record_at
  record_at-IsOrdered b g params at_ms h = logged (parse j entry_size params) refl
    where
      logged :
          (p : Logged (BorrowedLog L))
          → parse j entry_size params ≡ p
          → IsOrdered (record_at j entry_size b g params at_ms).1
      logged (err x) e = rw (e, record_at) h
      logged (ok borrowed) e = rw (e, record_at) (record_borrowed-IsOrdered b g borrowed at_ms h)

  set_if_active-IsOrdered :
      (b : LogBuffer L) (g : ℕ) (status : LogSubscriptionStatus)
      → IsOrdered b
      → IsOrdered (set_subscription_status_if_active b g status).1
  unfolding set_subscription_status_if_active
  set_if_active-IsOrdered b g status h = elim (Bool-cases (b.active_generation == some g)) [
    | inl own ↦
        rw (own, set_subscription_status_if_active) (set_subscription_status-IsOrdered b g status h)
    | inr other ↦ rw (other, set_subscription_status_if_active) h
  ]

  apply-IsOrdered :
      (b : LogBuffer L) (o : Operation M) → IsOrdered b → IsOrdered (apply j entry_size b o)
  unfolding apply
  apply-IsOrdered b (Operation.begins g) h = begin_generation-IsOrdered b g h
  apply-IsOrdered b (Operation.ends g) h = end_generation-IsOrdered b g h
  apply-IsOrdered b (Operation.sets_status g status) h =
      set_subscription_status-IsOrdered b g status h
  apply-IsOrdered b (Operation.sets_status_if_active g status) h =
      set_if_active-IsOrdered b g status h
  apply-IsOrdered b (Operation.misses g n) h = note_missed_events-IsOrdered b g n h
  apply-IsOrdered b (Operation.logs g params at_ms) h = record_at-IsOrdered b g params at_ms h

  run-IsOrdered :
      (b : LogBuffer L) (os : List (Operation M)) → IsOrdered b → IsOrdered (run j entry_size b os)
  unfolding run
  run-IsOrdered b [] h = h
  run-IsOrdered b (o ∷ os) h = run-IsOrdered (apply j entry_size b o) os (apply-IsOrdered b o h)

  pub run_from_empty-IsAscending :
      (os : List (Operation M)) → IsAscending (run j entry_size empty os).entries
  run_from_empty-IsAscending os =
      (run-IsOrdered empty os (record { ascending = tt; below = tt })).ascending

  -- Whatever was done to an empty log buffer before: if a query of one generation is answered with
  -- a page and a number to go on after, then the records that it selects are those of the page,
  -- followed by those that the same query selects after that number.
  pub pages_lose_nothing :
      (os : List (Operation M)) (query : LogQuery) (g n : ℕ)
      → query.generation ≡ some g
      → (read (run j entry_size empty os) query).next_after_sequence ≡ some n
      → selected query (run j entry_size empty os).entries
        ≡ (read (run j entry_size empty os) query).entries
          ++ selected (after query n) (run j entry_size empty os).entries
  pages_lose_nothing os query g n one h =
      read_continued (run j entry_size empty os) query g n one (run_from_empty-IsAscending os) h
