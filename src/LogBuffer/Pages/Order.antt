-- ===== src/LogBuffer/Pages/Order.antt =====
-- That the records of a generation are in the order of their numbers, over the operations on states.
use norves_editor.Common.{
  ℕ, zero, suc, ◌≤◌, ◌<◌, ◌≡◌, ◌⊎◌, inl, inr, refl, sym, subst, true, false, none, some, List, [],
  ◌∷◌, ◌++◌, arith, any, length, All, ltb, leb, ◌==◌, nat_eq, option_eq, nat_beq_iff, Bool-cases,
  Option-cases, beq_refl,
}
use norves_editor.Common.Dict
use norves_editor.Common.Dict.{Dict, get-insert, get-remove}
use norves_editor.LogBuffer.{
  LogSubscriptionStatus, LogEntry, GenerationState, LogBuffer, default_state, ensure_generation,
  is_removable, pick, prune_loop, prune, max_tracked_generations,
}
use norves_editor.LogBuffer.Operations.{
  begin_generation, cancelled_if_open, change_state, end_generation, note_last,
  set_subscription_status, missed_more, note_missed_events, one_missing, evict, is_over, make_room,
  append,
}
use norves_editor.LogBuffer.Bounds.{pick-passes}
use norves_editor.LogBuffer.Pages.Continued.{precedes, IsAscending}

-- The number of the last record that a generation's state knows.
abbrev pub last_in : Dict ℕ GenerationState → ℕ → ℕ
last_in generations g = elim (Dict.get g generations) [
  | none ↦ 0
  | some state ↦ state.last_observed_sequence
]

pub cancelled_same :
    (s : GenerationState) → (cancelled_if_open s).last_observed_sequence ≡ s.last_observed_sequence
cancelled_same s = ground arith

module _ {L : Type 0} where
  abbrev pub IsBelow : Dict ℕ GenerationState → LogEntry L → Type 0
  IsBelow generations e = e.sequence ≤ last_in generations e.generation

  pub record IsOrdered (b : LogBuffer L) : Type 0 where
    pub ascending : IsAscending b.entries
    pub below : All (IsBelow b.generations) b.entries

  pub All-map :
      (P Q : LogEntry L → Type 0) (es : List (LogEntry L))
      → ((e : LogEntry L) → P e → Q e)
      → All P es
      → All Q es
  All-map P Q [] f h = tt
  All-map P Q (e ∷ es) f h = (f e h.0, All-map P Q es f h.1)

  -- States that know no less leave the records in order.
  pub IsOrdered-more :
      (b c : LogBuffer L)
      → c.entries ≡ b.entries
      → ((g : ℕ) → last_in b.generations g ≤ last_in c.generations g)
      → IsOrdered b
      → IsOrdered c
  IsOrdered-more b c same more h = record {
    ascending = subst IsAscending (sym same) h.ascending;
    below = subst (All (IsBelow c.generations)) (sym same) (
        All-map (IsBelow b.generations) (IsBelow c.generations) b.entries
          (λ e k. omega (arith, k, more e.generation)) h.below);
  }

  pub change_state-more :
      (f : GenerationState → GenerationState) (g : ℕ) (b : LogBuffer L)
      → ((s : GenerationState)
          → Dict.get g b.generations ≡ some s
          → s.last_observed_sequence ≤ (f s).last_observed_sequence)
      → (k : ℕ) → last_in b.generations k ≤ last_in (change_state f g b).generations k
  change_state-more f g b grows k = elim (Option-cases (Dict.get g b.generations)) [
    | inl gone ↦ ground (arith, gone)
    | inr (s, there) ↦ elim (Bool-cases (g == k)) [
      | inl same ↦
          ground (arith, there, get-insert k g (f s) b.generations, nat_beq_iff g k, grows s there)
      | inr other ↦ ground (arith, there, get-insert k g (f s) b.generations)
    ]
  ]

  pub change_state-entries :
      (f : GenerationState → GenerationState) (g : ℕ) (b : LogBuffer L)
      → (change_state f g b).entries ≡ b.entries
  change_state-entries f g b = ground arith

  pub change_state-IsOrdered :
      (f : GenerationState → GenerationState) (g : ℕ) (b : LogBuffer L)
      → ((s : GenerationState)
          → Dict.get g b.generations ≡ some s
          → s.last_observed_sequence ≤ (f s).last_observed_sequence)
      → IsOrdered b
      → IsOrdered (change_state f g b)
  change_state-IsOrdered f g b grows h =
      IsOrdered-more b (change_state f g b) (change_state-entries f g b)
        (change_state-more f g b grows) h

  pub note_last-IsOrdered : (b : LogBuffer L) (g : ℕ) → IsOrdered b → IsOrdered (note_last b g)
  note_last-IsOrdered b g h = IsOrdered-more b (note_last b g) (ground arith) (λ k. ground arith) h

  pub ensure_generation-IsOrdered :
      (b : LogBuffer L) (g : ℕ) → IsOrdered b → IsOrdered (ensure_generation b g)
  unfolding ensure_generation
  ensure_generation-IsOrdered b g h = elim (Option-cases (Dict.get g b.generations)) [
    | inr (s, there) ↦ rw (there, ensure_generation) h
    | inl gone ↦
        rw (gone, ensure_generation)
          (IsOrdered-more b _ refl
            (λ k. ground (arith, gone, get-insert k g default_state b.generations, nat_beq_iff g k))
            h)
  ]

  pub evict-IsOrdered :
      (b : LogBuffer L) (x : LogEntry L) (xs : List (LogEntry L))
      → b.entries ≡ x ∷ xs
      → IsOrdered b
      → IsOrdered (evict x xs b)
  evict-IsOrdered b x xs e h =
      change_state-IsOrdered one_missing x.generation _ (λ s there. omega arith)
        (record {
          ascending = (subst IsAscending e h.ascending).1;
          below = (subst (All (IsBelow b.generations)) e h.below).1;
        })

  pub evict-entries :
      (b : LogBuffer L) (x : LogEntry L) (xs : List (LogEntry L)) → (evict x xs b).entries ≡ xs
  evict-entries b x xs = ground arith

  pub evict-more :
      (b : LogBuffer L) (x : LogEntry L) (xs : List (LogEntry L)) (k : ℕ)
      → last_in b.generations k ≤ last_in (evict x xs b).generations k
  evict-more b x xs k = change_state-more one_missing x.generation _ (λ s there. omega arith) k

  -- What holds of all records of an ordered buffer still does when there is room.
  pub make_room-IsOrdered :
      (P : LogEntry L → Type 0) (fuel : ℕ) (b : LogBuffer L) (n : ℕ)
      → IsOrdered b
      → All P b.entries
      → IsOrdered (make_room fuel b n)
        × All P (make_room fuel b n).entries
        × ((k : ℕ) → last_in b.generations k ≤ last_in (make_room fuel b n).generations k)
  unfolding make_room
  make_room-IsOrdered P zero b n h p = (h, p, λ k. omega arith)
  make_room-IsOrdered P (suc fuel) b n h p = elim (Bool-cases (is_over b n)) [
    | inr under ↦ rw (under, make_room) (h, p, λ k. omega arith)
    | inl over ↦ elim (List-cases b.entries) [
      | inl e ↦ rw (over, e, make_room) (h, p, λ k. omega arith)
      | inr (x, xs, e) ↦
          let (h', p', more) =
            make_room-IsOrdered P fuel (evict x xs b) n (evict-IsOrdered b x xs e h)
              (subst (All P) (sym (evict-entries b x xs)) (subst (All P) e p).1) in
          rw (over, e, make_room) (h', p', λ k. omega (arith, more k, evict-more b x xs k))
    ]
  ]
    where
      List-cases :
          (es : List (LogEntry L))
          → (es ≡ []) ⊎ ((x : LogEntry L) × (xs : List (LogEntry L)) × (es ≡ x ∷ xs))
      List-cases [] = inl refl
      List-cases (x ∷ xs) = inr (x, xs, refl)

  pub All-last :
      (P : LogEntry L → Type 0) (es : List (LogEntry L)) (e : LogEntry L)
      → All P es
      → P e
      → All P (es ++ e ∷ [])
  All-last P [] e h p = (p, tt)
  All-last P (x ∷ es) e h p = (h.0, All-last P es e h.1 p)

  pub append-IsAscending :
      (es : List (LogEntry L)) (e : LogEntry L)
      → IsAscending es
      → All (λ x. precedes x e ≡ true) es
      → IsAscending (es ++ e ∷ [])
  append-IsAscending [] e h p = (tt, tt)
  append-IsAscending (x ∷ es) e h p = (All-last _ es e h.0 p.0, append-IsAscending es e h.1 p.1)

  pub remove-IsBelow :
      (g : ℕ) (generations : Dict ℕ GenerationState) (es : List (LogEntry L))
      → any (λ e. e.generation == g) es ≡ false
      → All (IsBelow generations) es
      → All (IsBelow (Dict.remove g generations)) es
  unfolding any
  remove-IsBelow g generations [] absent h = tt
  remove-IsBelow g generations (e ∷ es) absent h = (
    ground (
      arith,
      get-remove e.generation g generations,
      nat_beq_iff e.generation g,
      nat_beq_iff g e.generation,
      h.0,
    ),
    remove-IsBelow g generations es (ground arith) h.1,
  )

  pub prune_loop-IsOrdered :
      (fuel : ℕ) (b : LogBuffer L) → IsOrdered b → IsOrdered (prune_loop fuel b)
  unfolding prune_loop
  prune_loop-IsOrdered zero b h = h
  prune_loop-IsOrdered (suc fuel) b h =
      elim (Bool-cases (ltb max_tracked_generations (length b.generations))) [
        | inr few ↦ rw (few, prune_loop) h
        | inl many ↦ elim (Option-cases (pick (is_removable b) b.generation_order)) [
          | inl e ↦ rw (many, e, prune_loop) h
          | inr ((g, order), e) ↦
              rw (many, e, prune_loop)
                (prune_loop-IsOrdered fuel _ (record {
                  ascending = h.ascending;
                  below =
                      remove-IsBelow g b.generations b.entries
                        (absent g (pick-passes (is_removable b) b.generation_order g order e))
                        h.below;
                }))
        ]
      ]
    where
      absent : (g : ℕ) → is_removable b g ≡ true → any (λ e. e.generation == g) b.entries ≡ false
      absent g r = ground arith

  pub prune-IsOrdered : (b : LogBuffer L) → IsOrdered b → IsOrdered (prune b)
  unfolding prune
  prune-IsOrdered b h = elim (Bool-cases (leb (length b.generations) max_tracked_generations)) [
    | inl few ↦ rw (few, prune) h
    | inr many ↦
        let k = prune_loop-IsOrdered (suc (length b.generation_order)) b h in
        rw (many, prune) (record { ascending = k.ascending; below = k.below })
  ]

  pub begin_generation-IsOrdered :
      (b : LogBuffer L) (g : ℕ) → IsOrdered b → IsOrdered (begin_generation b g)
  unfolding begin_generation
  begin_generation-IsOrdered b g h =
      prune-IsOrdered _
        (ensure_generation-IsOrdered _ g (record { ascending = h.ascending; below = h.below }))

  pub end_generation-IsOrdered :
      (b : LogBuffer L) (g : ℕ) → IsOrdered b → IsOrdered (end_generation b g)
  unfolding end_generation
  end_generation-IsOrdered b g h = elim (Bool-cases (b.active_generation == some g)) [
    | inr other ↦ rw (other, end_generation) (prune-IsOrdered b h)
    | inl own ↦
        rw (own, end_generation)
          (prune-IsOrdered _ (
            change_state-IsOrdered cancelled_if_open g _
              (λ s there. omega (arith, cancelled_same s))
              (record { ascending = h.ascending; below = h.below })))
  ]

  pub set_subscription_status-IsOrdered :
      (b : LogBuffer L) (g : ℕ) (status : LogSubscriptionStatus)
      → IsOrdered b
      → IsOrdered (set_subscription_status b g status)
  unfolding set_subscription_status
  set_subscription_status-IsOrdered b g status h = prune-IsOrdered _ (
      note_last-IsOrdered _ g (
        change_state-IsOrdered _ g (ensure_generation b g) (λ s there. omega arith)
          (ensure_generation-IsOrdered b g h)))

  pub note_missed_events-IsOrdered :
      (b : LogBuffer L) (g n : ℕ) → IsOrdered b → IsOrdered (note_missed_events b g n).1
  unfolding note_missed_events
  note_missed_events-IsOrdered b g n h = elim (Bool-cases (b.active_generation == some g)) [
    | inr other ↦ rw (other, note_missed_events) h
    | inl own ↦ elim (Option-cases (Dict.get g b.generations)) [
      | inl gone ↦ rw (own, gone, note_missed_events) h
      | inr (state, there) ↦
          subst IsOrdered (sym (noted own state there))
            (change_state-IsOrdered (missed_more n) g b (λ s there. omega arith) h)
    ]
  ]
    where
      noted :
          b.active_generation == some g ≡ true
          → (s : GenerationState) → Dict.get g b.generations ≡ some s
          → (note_missed_events b g n).1 ≡ change_state (missed_more n) g b
      noted own s there = ground arith

  -- A record with the next number of its generation.
  pub append-IsOrdered :
      (b : LogBuffer L) (e : LogEntry L)
      → IsOrdered b
      → All (λ x. precedes x e ≡ true) b.entries
      → IsBelow b.generations e
      → IsOrdered (append b e)
  unfolding append
  append-IsOrdered b e h p low =
      let (h', p', more) =
        make_room-IsOrdered (λ x. precedes x e ≡ true) (length b.entries) b e.stored_bytes h p in
      record {
        ascending = append-IsAscending _ e h'.ascending p';
        below = All-last _ _ e h'.below (omega (arith, low, more e.generation));
      }

  -- Records below a number stand before the one that gets it.
  pub below-precedes :
      (b : LogBuffer L) (e : LogEntry L)
      → last_in b.generations e.generation < e.sequence
      → All (IsBelow b.generations) b.entries
      → All (λ x. precedes x e ≡ true) b.entries
  below-precedes b e low h =
      All-map (IsBelow b.generations) (λ x. precedes x e ≡ true) b.entries
        (λ x k. ground (arith, k, low, nat_beq_iff x.generation e.generation)) h

  pub observed-IsOrdered :
      (b : LogBuffer L) (g n : ℕ)
      → last_in b.generations g ≤ n
      → IsOrdered b
      → IsOrdered (change_state (λ s. record s { last_observed_sequence = n }) g b)
  observed-IsOrdered b g n fits h =
      change_state-IsOrdered _ g b (λ s there. ground (arith, there, fits)) h

  pub observed-last :
      (b : LogBuffer L) (g n : ℕ) (state : GenerationState)
      → Dict.get g b.generations ≡ some state
      → last_in (change_state (λ s. record s { last_observed_sequence = n }) g b).generations g ≡ n
  observed-last b g n state there = ground (
    arith,
    there,
    get-insert g g (record state { last_observed_sequence = n }) b.generations,
    beq_refl g,
  )
