-- ===== src/LogBuffer/Bounds.antt =====
-- The limits of the log buffer, and the account of the records that are missing from it.
use norves_editor.Common.{
  ℕ, zero, suc, ◌+◌, ◌≤◌, ◌≡◌, refl, sym, ap, subst, ◌∙◌, ◌⊎◌, inl, inr, Bool, true, false, Option,
  none, some, List, [], ◌∷◌, ◌++◌, arith, length, any, if◌then◌else◌, ltb, leb, Bool-cases,
  Option-cases, ◌==◌, string_eq, nat_eq, option_eq, u64_max,
}
use norves_editor.Common.Dict
use norves_editor.Common.Dict.{Dict, get-insert, get-remove}
use norves_editor.LogBuffer.{
  max_log_entries, max_log_bytes, LogEntry, GenerationState, default_state, LogBuffer,
  ensure_generation, is_removable, pick, prune_loop, forget_unknown, prune, max_tracked_generations,
}
use norves_editor.LogBuffer.Operations.{
  change_state, note_last, one_missing, evict, is_over, make_room,
}

-- What a generation's state says of the records that are kept of it.
abbrev pub Accounts : Option GenerationState → ℕ → Type 0
Accounts none n = n ≡ 0
Accounts (some state) n =
    (n + state.missing_count ≡ state.last_observed_sequence)
    × (state.last_observed_sequence ≤ u64_max)

pub pick-passes :
    (test : ℕ → Bool) (order : List ℕ) (g : ℕ) (others : List ℕ)
    → pick test order ≡ some (g, others)
    → test g ≡ true
unfolding pick
pick-passes test [] g others h = absurd (ground arith)
pick-passes test (x ∷ order) g others h = elim (Bool-cases (test x)) [
  | inl good ↦ ground arith
  | inr bad ↦ elim (Option-cases (pick test order)) [
    | inl e ↦ absurd (ground arith)
    | inr ((g', others'), e) ↦ ground (arith, pick-passes test order g' others' e)
  ]
]

module _ {L : Type 0} where
  abbrev pub total : List (LogEntry L) → ℕ
  total [] = 0
  total (e ∷ es) = e.stored_bytes + total es

  abbrev pub count : ℕ → List (LogEntry L) → ℕ
  count g [] = 0
  count g (e ∷ es) = (if e.generation == g then 1 else 0) + count g es

  -- Both limits hold, the bytes are those of the records, and of every generation the records that
  -- are kept, those that are missing and the ones about to be kept are together the ones observed.
  pub record IsHolding (about_to : ℕ → ℕ) (b : LogBuffer L) : Type 0 where
    pub few : length b.entries ≤ max_log_entries
    pub counted : b.retained_bytes ≡ total b.entries
    pub small : b.retained_bytes ≤ max_log_bytes
    pub accounted : (g : ℕ) → Accounts (Dict.get g b.generations) (about_to g + count g b.entries)

  pub total-append :
      (es : List (LogEntry L)) (e : LogEntry L) → total (es ++ (e ∷ [])) ≡ total es + e.stored_bytes
  total-append [] e = omega arith
  total-append (x ∷ es) e = omega (arith, total-append es e)

  pub count-append :
      (g : ℕ) (es : List (LogEntry L)) (e : LogEntry L)
      → count g (es ++ (e ∷ [])) ≡ count g es + (if e.generation == g then 1 else 0)
  count-append g [] e = omega arith
  count-append g (x ∷ es) e = omega (arith, count-append g es e)

  pub length-append_one :
      (es : List (LogEntry L)) (e : LogEntry L) → length (es ++ (e ∷ [])) ≡ suc (length es)
  length-append_one [] e = omega arith
  length-append_one (x ∷ es) e = omega (arith, length-append_one es e)

  count-any :
      (g : ℕ) (es : List (LogEntry L)) → any (λ e. e.generation == g) es ≡ false → count g es ≡ 0
  unfolding any
  count-any g [] h = refl
  count-any g (e ∷ es) h = ground (arith, count-any g es)

abbrev pub nothing : ℕ → ℕ
nothing g = 0

abbrev pub one_of : ℕ → ℕ → ℕ
one_of g k = if g == k then 1 else 0

abbrev pub IsBounded : {L : Type 0} → LogBuffer L → Type 0
IsBounded b = IsHolding nothing b

module _ {L : Type 0} {extra : ℕ → ℕ} where
  pub ensure_generation-IsHolding :
      (b : LogBuffer L) (g : ℕ) → IsHolding extra b → IsHolding extra (ensure_generation b g)
  unfolding ensure_generation
  ensure_generation-IsHolding b g h = elim (Option-cases (Dict.get g b.generations)) [
    | inr (state, there) ↦ rw (there, ensure_generation) h
    | inl gone ↦
        rw (gone, ensure_generation)
          (record {
            few = h.few;
            counted = h.counted;
            small = h.small;
            accounted = λ k. elim (Bool-cases (g == k)) [
              | inl same ↦
                  rw (get-insert k g default_state b.generations, same)
                    (ground (arith, h.accounted g, gone))
              | inr other ↦ rw (get-insert k g default_state b.generations, other) (h.accounted k)
            ];
          })
  ]

  pub change_state-IsHolding :
      (f : GenerationState → GenerationState) (g : ℕ) (b : LogBuffer L)
      → ((s : GenerationState)
          → ((f s).missing_count ≡ s.missing_count)
            × ((f s).last_observed_sequence ≡ s.last_observed_sequence))
      → IsHolding extra b
      → IsHolding extra (change_state f g b)
  change_state-IsHolding f g b same_counts h = elim (Option-cases (Dict.get g b.generations)) [
    | inl gone ↦ rw (gone, change_state) h
    | inr (state, there) ↦
        rw (there, change_state)
          (record {
            few = h.few;
            counted = h.counted;
            small = h.small;
            accounted = λ k. elim (Bool-cases (g == k)) [
              | inl same ↦
                  rw (get-insert k g (f state) b.generations, same)
                    (ground (arith, same_counts state, rw there at (h.accounted g)))
              | inr other ↦ rw (get-insert k g (f state) b.generations, other) (h.accounted k)
            ];
          })
  ]

  pub note_last-IsHolding :
      (b : LogBuffer L) (g : ℕ) → IsHolding extra b → IsHolding extra (note_last b g)
  note_last-IsHolding b g h = elim (Option-cases b.active_generation) [
    | inl e ↦
        rw (e, note_last)
          (record { few = h.few; counted = h.counted; small = h.small; accounted = h.accounted })
    | inr (a, e) ↦ rw (e, note_last) h
  ]

  evict-IsHolding :
      (b : LogBuffer L) (oldest : LogEntry L) (entries : List (LogEntry L))
      → b.entries ≡ oldest ∷ entries
      → IsHolding extra b
      → IsHolding extra (evict oldest entries b)
  evict-IsHolding b oldest entries e h =
      elim (Option-cases (Dict.get oldest.generation b.generations)) [
        | inl gone ↦ absurd (ground (arith, rw (gone, e) at (h.accounted oldest.generation)))
        | inr (state, there) ↦
            rw (there, evict, change_state)
              (record {
                few = omega (arith, h.few, ap length e);
                counted = omega (arith, h.counted, ap total e);
                small = omega (arith, h.small);
                accounted = λ k. elim (Bool-cases (oldest.generation == k)) [
                  | inl same ↦
                      rw (get-insert k oldest.generation (one_missing state) b.generations, same)
                        (ground (arith, rw (there, e) at (h.accounted oldest.generation)))
                  | inr other ↦
                      rw (get-insert k oldest.generation (one_missing state) b.generations, other)
                        (ground (arith, rw (e, other) at (h.accounted k)))
                ];
              })
      ]

  total-zero : (b : LogBuffer L) → b.entries ≡ [] → IsHolding extra b → b.retained_bytes ≡ 0
  total-zero b e h = h.counted ∙ ap total e

  is_over-empty :
      (b : LogBuffer L) (n : ℕ)
      → b.entries ≡ []
      → IsHolding extra b
      → n ≤ max_log_bytes
      → is_over b n ≡ false
  is_over-empty b n e h small = ground (arith, total-zero b e h, ap length e)

  -- With as much fuel as there are records, the loop ends with room for the new one.
  pub make_room-IsHolding :
      (fuel : ℕ) (b : LogBuffer L) (n : ℕ)
      → IsHolding extra b
      → length b.entries ≤ fuel
      → n ≤ max_log_bytes
      → IsHolding extra (make_room fuel b n) × (is_over (make_room fuel b n) n ≡ false)
  unfolding make_room
  make_room-IsHolding zero b n h l small = (h, is_over-empty b n (no_entries b.entries l) h small)
    where
      no_entries : (es : List (LogEntry L)) → length es ≤ 0 → es ≡ []
      no_entries [] k = refl
      no_entries (x ∷ es) k = absurd (omega arith)
  make_room-IsHolding (suc fuel) b n h l small = elim (Bool-cases (is_over b n)) [
    | inr under ↦ rw (under, make_room) (h, under)
    | inl over ↦ elim (List-cases b.entries) [
      | inl e ↦ absurd (cc (over, is_over-empty b n e h small))
      | inr (oldest, entries, e) ↦
          rw (over, e, make_room)
            (make_room-IsHolding fuel (evict oldest entries b) n
              (evict-IsHolding b oldest entries e h)
              (subst (λ es. length es ≤ fuel) (sym (evict-entries b oldest entries))
                (omega (arith, ap length e)))
              small)
    ]
  ]
    where
      List-cases :
          (es : List (LogEntry L))
          → (es ≡ []) ⊎ ((x : LogEntry L) × (xs : List (LogEntry L)) × (es ≡ x ∷ xs))
      List-cases [] = inl refl
      List-cases (x ∷ xs) = inr (x, xs, refl)

      evict-entries :
          (b : LogBuffer L) (x : LogEntry L) (xs : List (LogEntry L)) → (evict x xs b).entries ≡ xs
      evict-entries b x xs = ground arith

module _ {L : Type 0} where
  -- Only a generation without records goes.
  forget-IsBounded :
      (b : LogBuffer L) (g : ℕ) (order : List ℕ)
      → is_removable b g ≡ true
      → IsBounded b
      → IsBounded (record b { generation_order = order; generations = Dict.remove g b.generations })
  forget-IsBounded b g order r h = record {
    few = h.few;
    counted = h.counted;
    small = h.small;
    accounted = λ k. elim (Bool-cases (g == k)) [
      | inl same ↦ rw (get-remove k g b.generations, same) (ground (arith, count-any g b.entries))
      | inr other ↦ rw (get-remove k g b.generations, other) (h.accounted k)
    ];
  }

  prune_loop-IsBounded : (fuel : ℕ) (b : LogBuffer L) → IsBounded b → IsBounded (prune_loop fuel b)
  unfolding prune_loop
  prune_loop-IsBounded zero b h = h
  prune_loop-IsBounded (suc fuel) b h =
      elim (Bool-cases (ltb max_tracked_generations (length b.generations))) [
        | inr few ↦ rw (few, prune_loop) h
        | inl many ↦ elim (Option-cases (pick (is_removable b) b.generation_order)) [
          | inl e ↦ rw (many, e, prune_loop) h
          | inr ((g, order), e) ↦
              rw (many, e, prune_loop)
                (prune_loop-IsBounded fuel _ (
                  forget-IsBounded b g order
                    (pick-passes (is_removable b) b.generation_order g order e) h))
        ]
      ]

  pub prune-IsBounded : (b : LogBuffer L) → IsBounded b → IsBounded (prune b)
  unfolding prune
  prune-IsBounded b h = elim (Bool-cases (leb (length b.generations) max_tracked_generations)) [
    | inl few ↦ rw (few, prune) h
    | inr many ↦
        rw (many, prune) (forgotten (prune_loop-IsBounded (suc (length b.generation_order)) b h))
  ]
    where
      forgotten : {c : LogBuffer L} → IsBounded c → IsBounded (forget_unknown c)
      forgotten k = record {
        few = k.few;
        counted = k.counted;
        small = k.small;
        accounted = k.accounted;
      }
