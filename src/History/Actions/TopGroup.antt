-- ===== src/History/Actions/TopGroup.antt =====
-- What `prepare_action` prepares: the whole group at the top of the visible stack.
use norves_editor.Common.{
  ℕ, ◌≡◌, refl, ap, ◌∙◌, inl, inr, Bool, true, false, some, List, [], ◌∷◌, ◌++◌, map, arith,
  take_while, All, Bool-cases, Option-cases, string_eq, nat_eq, option_eq, beq_refl,
}
use norves_editor.History.State.{HistoryState, visible_stack}
use norves_editor.History.Actions.{same_group, step_of, top_run, on_top, prepare_action}
use norves_editor.History.Types.{
  source_eq, HistoryDirection, group_key_eq, HistoryEntry, HistoryActionRequest, HistoryAction,
}

-- A list is a run that passes a test and a rest that does not begin with one that passes.
abbrev pub StopsAt {ℓ} : {A : Type ℓ} → (A → Bool) → List A → Type 0
StopsAt p [] = Unit {0}
StopsAt p (x ∷ xs) = p x ≡ false

take_while-split {ℓ} :
    {A : Type ℓ} (p : A → Bool) (xs : List A)
    → (rest : List A) × (xs ≡ take_while p xs ++ rest)
      × All (λ x. p x ≡ true) (take_while p xs)
      × StopsAt p rest
unfolding take_while
take_while-split p [] = ([], refl, tt, tt)
take_while-split p (x ∷ xs) = elim (Bool-cases (p x)) [
  | inr stop ↦ (x ∷ xs, rw stop, rw stop tt, stop)
  | inl go ↦
      let (rest, e, all, stops) = take_while-split p xs in
      (rest, rw go (ap (◌∷◌ x) e), rw go (go, all), stops)
]

module _ {V : Type 0} where
  -- The group's run begins with the top entry itself.
  top_run-cons :
      (e : HistoryEntry V) (es : List (HistoryEntry V))
      → top_run (e ∷ es) e.group.key
        ≡ step_of e ∷ map step_of (take_while (same_group e.group.key) es)
  unfolding top_run take_while
  top_run-cons e es = rw (beq_refl e.group.key)

  -- What is prepared on a stack is on its top entry, with its record and its group.
  on_top-head :
      (direction : HistoryDirection) (e : HistoryEntry V) (es : List (HistoryEntry V))
      (expected : ℕ) (a : HistoryAction V)
      → on_top direction (e ∷ es) expected ≡ some a
      → (a.direction ≡ direction)
        × (a.entry_id ≡ e.marker.sequence)
        × (a.record_of ≡ e.record_of)
        × (a.group ≡ e.group)
        × (a.steps ≡ top_run (e ∷ es) e.group.key)
        × (expected ≡ e.marker.sequence)
  unfolding on_top
  on_top-head direction e es expected a h = ground (arith, top_run-cons e es)

  -- An action is prepared only when nothing is pending and the state is the one that was asked for.
  prepare_action-on_top :
      (s : HistoryState V) (asked : HistoryActionRequest) (a : HistoryAction V)
      → prepare_action s asked ≡ some a
      → (expected : ℕ) × (asked.expected_head_id ≡ some expected)
        × (s.pending ≡ false)
        × (s.edit_unsupported ≡ false)
        × (asked.expected_revision ≡ s.revision)
        × (on_top asked.direction (visible_stack asked.direction s) expected ≡ some a)
  unfolding prepare_action
  prepare_action-on_top s asked a h = elim (Option-cases asked.expected_head_id) [
    | inl e ↦ absurd (ground arith)
    | inr (expected, e) ↦ (expected, e, ground arith, ground arith, ground arith, ground arith)
  ]

  pub prepare_action-head :
      (s : HistoryState V) (asked : HistoryActionRequest) (a : HistoryAction V) (e : HistoryEntry V)
      (es : List (HistoryEntry V))
      → visible_stack asked.direction s ≡ e ∷ es
      → prepare_action s asked ≡ some a
      → (a.direction ≡ asked.direction)
        × (a.entry_id ≡ e.marker.sequence)
        × (a.record_of ≡ e.record_of)
        × (a.group ≡ e.group)
        × (a.steps ≡ top_run (e ∷ es) e.group.key)
        × (asked.expected_head_id ≡ some e.marker.sequence)
  prepare_action-head s asked a e es top h =
      let (expected, he, _, _, _, prepared) = prepare_action-on_top s asked a h in
      let (d, i, r, g, st, x) = on_top-head asked.direction e es expected a (rw top at prepared) in
      (d, i, r, g, st, he ∙ ap some x)

  -- A prepared action stands for the whole group at the top of the visible stack: its steps are
  -- the entries of that group there, top first, and what lies below them does not begin with that
  -- group. It is prepared only if nothing is pending, edits are supported, and the head and the
  -- revision are the ones that were asked for.
  pub prepare_action_takes_top_group :
      (s : HistoryState V) (asked : HistoryActionRequest) (a : HistoryAction V)
      → prepare_action s asked ≡ some a
      → (run rest : List (HistoryEntry V)) × (visible_stack asked.direction s ≡ run ++ rest)
        × (a.steps ≡ map step_of run)
        × All (λ e. same_group a.group.key e ≡ true) run
        × StopsAt (same_group a.group.key) rest
        × (s.pending ≡ false)
        × (s.edit_unsupported ≡ false)
        × (asked.expected_revision ≡ s.revision)
        × (asked.expected_head_id ≡ some a.entry_id)
  unfolding top_run
  prepare_action_takes_top_group s asked a h = go (visible_stack asked.direction s) refl
    where
      go :
          (entries : List (HistoryEntry V))
          → visible_stack asked.direction s ≡ entries
          → (run rest : List (HistoryEntry V)) × (visible_stack asked.direction s ≡ run ++ rest)
            × (a.steps ≡ map step_of run)
            × All (λ e. same_group a.group.key e ≡ true) run
            × StopsAt (same_group a.group.key) rest
            × (s.pending ≡ false)
            × (s.edit_unsupported ≡ false)
            × (asked.expected_revision ≡ s.revision)
            × (asked.expected_head_id ≡ some a.entry_id)
      go [] top =
          let (expected, _, _, _, _, prepared) = prepare_action-on_top s asked a h in
          absurd (unfold on_top in cc (rw top at prepared))
      go (e ∷ es) top =
          let (_, _, quiet, supported, revision, _) = prepare_action-on_top s asked a h in
          let (_, i, _, g, st, x) = prepare_action-head s asked a e es top h in
          let (rest, split, all, stops) = take_while-split (same_group e.group.key) (e ∷ es) in
          (
            take_while (same_group e.group.key) (e ∷ es),
            rest,
            top ∙ split,
            st,
            rw g all,
            rw g stops,
            quiet,
            supported,
            revision,
            rw i x,
          )
