-- ===== src/Bridge/Dispatcher/Accounts.antt =====
-- What the dispatcher task owes each responder, and what it sent it.
use norves_editor.Common.{
  ℕ, ◌+◌, ◌≡◌, refl, sym, ap, subst, inl, inr, String, Option, none, some, List, [], ◌∷◌, arith,
  if◌then◌else◌, Bool-cases, Option-cases, ◌==◌, string_eq, nat_eq, option_eq, beq_refl, eq_iff,
}
use norves_editor.Common.Dict
use norves_editor.Common.Dict.{
  Dict, Unique, get-remove, get-insert, get-remove_self, get-insert_self, remove-Unique,
  insert-Unique,
}
use norves_editor.Bridge.Correlation
use norves_editor.Bridge.Correlation.{PendingTable}
use norves_editor.Bridge.Envelope.{ResponsePayload}
use norves_editor.Bridge.Dispatcher.{
  connection_closed, Outcome, failed, Waiter, TaskState, answer, answer_old, settle_taken,
  answer_taken, on_cancel, closed_answers, Input, send_request, cancel, stop,
}

abbrev pub one : ℕ → ℕ → ℕ
one r r' = if r == r' then 1 else 0

-- How many waiters of the table have the responder.
abbrev pub held : ℕ → PendingTable Waiter → ℕ
held r [] = 0
held r ((id, w) ∷ table) = one r w.responder + held r table

abbrev pub held_by : ℕ → Option Waiter → ℕ
held_by r none = 0
held_by r (some w) = one r w.responder

module _ {V : Type 0} where
  -- How many answers the responder was sent.
  abbrev pub sent_to : ℕ → List (ℕ × Outcome V) → ℕ
  sent_to r [] = 0
  sent_to r ((r', outcome) ∷ answers) = one r r' + sent_to r answers

  pub sent_to-closed_answers :
      (r : ℕ) (table : PendingTable Waiter) (answers : List (ℕ × Outcome V))
      → sent_to r (closed_answers table answers) ≡ held r table + sent_to r answers
  sent_to-closed_answers r [] answers = omega arith
  sent_to-closed_answers r ((id, w) ∷ table) answers =
      omega
        (arith, sent_to-closed_answers r table ((w.responder, failed connection_closed) ∷ answers))

held-remove-none :
    (r : ℕ) (id : String) (table : PendingTable Waiter)
    → Dict.get id table ≡ none
    → held r (Dict.remove id table) ≡ held r table
unfolding Dict.get Dict.remove
held-remove-none r id [] h = refl
held-remove-none r id ((j, w) ∷ table) h = ground (arith, held-remove-none r id table)

held-remove :
    (r : ℕ) (id : String) (table : PendingTable Waiter)
    → Unique table
    → held r table ≡ held_by r (Dict.get id table) + held r (Dict.remove id table)
unfolding Dict.get Dict.remove
held-remove r id [] u = refl
held-remove r id ((j, w) ∷ table) u =
    ground (arith, eq_iff j id, held-remove r id table u.1, held-remove-none r id table)

held-insert :
    (r : ℕ) (id : String) (w : Waiter) (table : PendingTable Waiter)
    → Unique table
    → held r (Dict.insert id w table) + held_by r (Dict.get id table)
      ≡ one r w.responder + held r table
unfolding Dict.insert
held-insert r id w table u = omega (arith, held-remove r id table u)

-- A waiter that is taken and put back leaves the accounts as they were.
held-put_back :
    (r : ℕ) (id : String) (w : Waiter) (table : PendingTable Waiter)
    → Unique table
    → Dict.get id table ≡ some w
    → held r (Dict.insert id w (Dict.remove id table)) ≡ held r table
held-put_back r id w table u h = omega (
  arith,
  held-insert r id w (Dict.remove id table) (remove-Unique id table u),
  ap (held_by r) (get-remove_self id table),
  held-remove r id table u,
  ap (held_by r) h,
)

module _ {M V : Type 0} where
  -- What the task owes the responder and what it sent it.
  abbrev pub account : ℕ → TaskState M V → ℕ
  account r s = held r s.pending + sent_to r s.answers

  -- How often a cancellation drops the responder's waiter without an answer.
  unfoldable pub dropped : ℕ → TaskState M V → Input M V → ℕ
  dropped r s (cancel id token) = elim (Dict.get id s.pending) [
    | none ↦ 0
    | some w ↦ if w.token == token then one r w.responder else 0
  ]
  dropped r s _ = 0

  -- How often an input brings the responder in.
  unfoldable pub issued : ℕ → Input M V → ℕ
  issued r (send_request written id token envelope responder) = one r responder
  issued r _ = 0

  -- The requests of a run that bring it in, up to where the run stops.
  unfoldable pub issued_in : ℕ → List (Input M V) → ℕ
  issued_in r [] = 0
  issued_in r (stop ∷ is) = 0
  issued_in r (i ∷ is) = issued r i + issued_in r is

  pub on_cancel-account :
      (r : ℕ) (s : TaskState M V) (id : String) (token : ℕ)
      → Unique s.pending
      → account r (on_cancel s id token) + dropped r s (cancel id token) ≡ account r s
  unfolding on_cancel Correlation.take Correlation.insert dropped
  on_cancel-account r s id token u = elim (Option-cases (Dict.get id s.pending)) [
    | inl gone ↦ rw (gone, on_cancel, dropped) (omega (arith, held-remove-none r id s.pending gone))
    | inr (w, there) ↦ elim (Bool-cases (w.token == token)) [
      | inl own ↦
          rw (there, own, on_cancel, dropped)
            (omega (arith, held-remove r id s.pending u, ap (held_by r) there))
      | inr other ↦
          rw (there, other, on_cancel, dropped)
            (omega (arith, held-put_back r id w s.pending u there))
    ]
  ]

  pub answer_taken-account :
      (r : ℕ) (s : TaskState M V) (id : String) (payload : ResponsePayload V)
      → Unique s.pending
      → account r (answer_taken (Correlation.take s.pending id) payload s) ≡ account r s
  unfolding Correlation.take
  answer_taken-account r s id payload u = elim (Option-cases (Dict.get id s.pending)) [
    | inl gone ↦ rw gone (omega (arith, held-remove-none r id s.pending gone))
    | inr (w, there) ↦ rw there (omega (arith, held-remove r id s.pending u, ap (held_by r) there))
  ]

  -- The registration of a waiter, with the answer to the one that it replaces.
  pub registered-account :
      (r : ℕ) (s : TaskState M V) (id : String) (w : Waiter)
      → Unique s.pending
      → account r
          (answer_old (Dict.get id s.pending) (record s { pending = Dict.insert id w s.pending }))
        ≡ account r s + one r w.responder
  registered-account r s id w u = elim (Option-cases (Dict.get id s.pending)) [
    | inl gone ↦ rw gone (omega (arith, held-insert r id w s.pending u, ap (held_by r) gone))
    | inr (w', there) ↦
        rw there (omega (arith, held-insert r id w s.pending u, ap (held_by r) there))
  ]

  registered-pending :
      (o : Option Waiter) (s : TaskState M V) → (answer_old o s).pending ≡ s.pending
  registered-pending none s = refl
  registered-pending (some w) s = refl

  -- The state with the table that `registered` leaves.
  abbrev pub registered : TaskState M V → String → Waiter → TaskState M V
  registered s id w =
      answer_old (Dict.get id s.pending) (record s { pending = Dict.insert id w s.pending })

  pub unsent-account :
      (r : ℕ) (s : TaskState M V) (id : String) (w : Waiter)
      → Unique s.pending
      → Dict.get id s.pending ≡ some w
      → account r (
          settle_taken
            (Correlation.take s.pending id)
            id
            w.token
            (λ w'. answer w'.responder (failed connection_closed))
            s)
        ≡ account r s
  unfolding Correlation.take Correlation.insert
  unsent-account r s id w u there =
      rw (there, beq_refl w.token)
        (omega (arith, held-remove r id s.pending u, ap (held_by r) there))

  pub registered-there :
      (s : TaskState M V) (id : String) (w : Waiter)
      → Dict.get id (registered s id w).pending ≡ some w
  registered-there s id w =
      rw
        (registered-pending (Dict.get id s.pending)
          (record s { pending = Dict.insert id w s.pending }))
        (get-insert_self id w s.pending)

  pub registered-Unique :
      (s : TaskState M V) (id : String) (w : Waiter)
      → Unique s.pending
      → Unique (registered s id w).pending
  registered-Unique s id w u =
      rw
        (registered-pending (Dict.get id s.pending)
          (record s { pending = Dict.insert id w s.pending }))
        (insert-Unique id w s.pending u)

  pub settle_taken-Unique :
      (s : TaskState M V) (id : String) (token : ℕ) (f : Waiter → TaskState M V → TaskState M V)
      → ((v : Waiter) (s' : TaskState M V) → (f v s').pending ≡ s'.pending)
      → Unique s.pending
      → Unique (settle_taken (Correlation.take s.pending id) id token f s).pending
  unfolding Correlation.take Correlation.insert
  settle_taken-Unique s id token f keeps u = elim (Option-cases (Dict.get id s.pending)) [
    | inl gone ↦ rw gone (remove-Unique id s.pending u)
    | inr (v, there) ↦ elim (Bool-cases (v.token == token)) [
      | inl own ↦
          rw (there, own)
            (subst Unique (sym (keeps v (record s { pending = Dict.remove id s.pending })))
              (remove-Unique id s.pending u))
      | inr other ↦ rw (there, other) (insert-Unique id v _ (remove-Unique id s.pending u))
    ]
  ]
