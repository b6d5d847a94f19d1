-- ===== src/History/Recording/Effects.antt =====
-- What an accepted edit sets, by the answer of the engine, and the full history of last values after
-- it.
use norves_editor.Common.{
  ℕ, ◌≡◌, ◌∙◌, refl, sym, ap, subst, inl, inr, true, false, not, String, Option, none, some, arith,
  if◌then◌else◌, Bool-cases, Option-cases, ◌==◌, string_eq, nat_eq, option_eq, beq_refl,
}
use norves_editor.History.Corrections.{CorrectionKey, CorrectionValue, key_eq, key_beq_iff}
use norves_editor.History.Corrections.Tracking.{Latest, update}
use norves_editor.History.Records.{accepted, non_empty_new_id}
use norves_editor.History.Recording.{correction_of, is_deletion, applied_value}
use norves_editor.History.Types.{Json, PreparedHistoryRequest, QueuedEditResult}

module _ {V : Type 0} where
  -- What the full history says after an edit.
  abbrev pub noted : Latest V → Option (CorrectionKey × CorrectionValue V) → ℕ → Latest V
  noted latest none r = latest
  noted latest (some (key, value)) r = update latest key r value

-- What an edit that was accepted sets: the parent of an object, where it is known, or the value of
-- a property, which is the one that the engine says it applied, or else the one asked for.
pub data Sets {V : Type 0} (j : Json V) (result : V)
    : PreparedHistoryRequest V → CorrectionKey → CorrectionValue V → Type 0 where
  creates :
      (parent_id kind : Option String) (id : String)
      → non_empty_new_id j result ≡ some id
      → Sets j result
          (PreparedHistoryRequest.create_object parent_id kind)
          (CorrectionKey.parent id)
          (CorrectionValue.parent parent_id)
  duplicates :
      (source_id parent_id id : String)
      → non_empty_new_id j result ≡ some id
      → Sets j result
          (PreparedHistoryRequest.duplicate_object source_id (some parent_id))
          (CorrectionKey.parent id)
          (CorrectionValue.parent (some parent_id))
  reparents :
      (id : String) (new_parent_id : Option String) (old : Option (Option String))
      → Sets j result
          (PreparedHistoryRequest.reparent_object id new_parent_id old)
          (CorrectionKey.parent id)
          (CorrectionValue.parent new_parent_id)
  applies :
      (id property : String) (requested applied : V) (old : Option V)
      → j.field result "appliedValue" ≡ some applied
      → Sets j result
          (PreparedHistoryRequest.set_property id property requested old)
          (CorrectionKey.property id property)
          (CorrectionValue.property applied)
  requests :
      (id property : String) (requested : V) (old : Option V)
      → j.field result "appliedValue" ≡ none
      → Sets j result
          (PreparedHistoryRequest.set_property id property requested old)
          (CorrectionKey.property id property)
          (CorrectionValue.property requested)

some_injective : {A : Type 0} {a b : A} → some a ≡ some b → a ≡ b
some_injective h = ground arith

module _ {V : Type 0} (j : Json V) where
  -- The full history after an edit that ended at `revision`: what it set, and nothing else, is new.
  pub record IsAfter (latest : Latest V) (prepared : PreparedHistoryRequest V) (result : V)
      (revision : ℕ) (latest' : Latest V) : Type 0 where
    pub refused : accepted j result ≡ false → (k : CorrectionKey) → latest' k ≡ latest k
    pub set :
        accepted j result ≡ true
        → (k : CorrectionKey) (v : CorrectionValue V) → Sets j result prepared k v
        → latest' k ≡ some (revision, v)
    pub kept :
        accepted j result ≡ true
        → (k : CorrectionKey) → ((v : CorrectionValue V) → ¬ Sets j result prepared k v)
        → latest' k ≡ latest k

  abbrev applied_under : String → String → V → Option (CorrectionKey × CorrectionValue V)
  applied_under id property x =
      some (CorrectionKey.property id property, CorrectionValue.property x)

  applied_value-none :
      (result requested : V)
      → j.field result "appliedValue" ≡ none
      → applied_value j result requested ≡ requested
  applied_value-none result requested e = ground arith

  applied_value-some :
      (result requested applied : V)
      → j.field result "appliedValue" ≡ some applied
      → applied_value j result requested ≡ applied
  applied_value-some result requested applied e = ground arith

  carried :
      {prepared : PreparedHistoryRequest V} {result : V} {k key : CorrectionKey}
      {v value : CorrectionValue V}
      → ◌≡◌ {A = Option (CorrectionKey × CorrectionValue V)} (some (k, v)) (some (key, value))
      → Sets j result prepared k v
      → Sets j result prepared key value
  carried {prepared} {result} h sets =
      subst (λ x. Sets j result prepared x.0 x.1) (some_injective h) sets

  correction_of-Sets :
      (prepared : PreparedHistoryRequest V) (r : QueuedEditResult V) (key : CorrectionKey)
      (value : CorrectionValue V)
      → correction_of j prepared r ≡ some (key, value)
      → Sets j r.value prepared key value
  unfolding correction_of
  correction_of-Sets (PreparedHistoryRequest.create_object parent_id kind) r key value h =
      elim (Option-cases (non_empty_new_id j r.value)) [
        | inl unnamed ↦ cc (rw (unnamed, correction_of) at h)
        | inr (id, made) ↦
            carried (rw (made, correction_of) at h) (Sets.creates parent_id kind id made)
      ]
  correction_of-Sets (PreparedHistoryRequest.duplicate_object source_id none) r key value h =
      ground arith
  correction_of-Sets (PreparedHistoryRequest.duplicate_object source_id (some p)) r key value h =
      elim (Option-cases (non_empty_new_id j r.value)) [
        | inl unnamed ↦ cc (rw (unnamed, correction_of) at h)
        | inr (id, made) ↦
            carried (rw (made, correction_of) at h) (Sets.duplicates source_id p id made)
      ]
  correction_of-Sets (PreparedHistoryRequest.reparent_object id new old) r key value h =
      carried h (Sets.reparents id new old)
  correction_of-Sets (PreparedHistoryRequest.set_property id property requested old) r key value h =
      elim (Option-cases (j.field r.value "appliedValue")) [
        | inl absent ↦
            carried
              (ap (applied_under id property) (sym (applied_value-none r.value requested absent))
                ∙ h)
              (Sets.requests id property requested old absent)
        | inr (applied, there) ↦
            carried
              (ap (applied_under id property)
                  (sym (applied_value-some r.value requested applied there))
                ∙ h)
              (Sets.applies id property requested applied old there)
      ]
  correction_of-Sets (PreparedHistoryRequest.delete_object id) r key value h = ground arith

  Sets-correction_of :
      (prepared : PreparedHistoryRequest V) (r : QueuedEditResult V) (key : CorrectionKey)
      (value : CorrectionValue V)
      → Sets j r.value prepared key value
      → correction_of j prepared r ≡ some (key, value)
  unfolding correction_of
  Sets-correction_of _ r _ _ (Sets.creates p kind id made) = rw (made, correction_of) refl
  Sets-correction_of _ r _ _ (Sets.duplicates s p id made) = rw (made, correction_of) refl
  Sets-correction_of _ r _ _ (Sets.reparents id new old) = refl
  Sets-correction_of _ r _ _ (Sets.applies id property requested applied old e) =
      ap (applied_under id property) (applied_value-some r.value requested applied e)
  Sets-correction_of _ r _ _ (Sets.requests id property requested old e) =
      ap (applied_under id property) (applied_value-none r.value requested e)

  -- What the full history says after a finished edit: an edit that the engine did not accept, and a
  -- deletion, add nothing.
  abbrev pub noted_success : Latest V → PreparedHistoryRequest V → QueuedEditResult V → ℕ → Latest V
  noted_success latest prepared r revision =
      if not (accepted j r.value)
      then latest
      else if is_deletion prepared
      then latest
      else noted latest (correction_of j prepared r) revision

  correction_of_deletion :
      (prepared : PreparedHistoryRequest V) (r : QueuedEditResult V)
      → is_deletion prepared ≡ true
      → correction_of j prepared r ≡ none
  unfolding correction_of
  correction_of_deletion (PreparedHistoryRequest.create_object parent_id kind) r h = ground arith
  correction_of_deletion (PreparedHistoryRequest.duplicate_object source_id p) r h = ground arith
  correction_of_deletion (PreparedHistoryRequest.reparent_object id new old) r h = ground arith
  correction_of_deletion (PreparedHistoryRequest.set_property id property requested old) r h =
      ground arith
  correction_of_deletion (PreparedHistoryRequest.delete_object id) r h = refl

  -- The corrections of an accepted edit make up the full history after it.
  noted-IsAfter :
      (latest latest' : Latest V) (prepared : PreparedHistoryRequest V) (r : QueuedEditResult V)
      (revision : ℕ)
      → IsAfter latest prepared r.value revision latest'
      → accepted j r.value ≡ true
      → (k : CorrectionKey) → latest' k ≡ noted latest (correction_of j prepared r) revision k
  noted-IsAfter latest latest' prepared r revision after taken k =
      elim (Option-cases (correction_of j prepared r)) [
        | inl e ↦
            rw e (after.kept taken k (λ v sets. cc (e, Sets-correction_of prepared r k v sets)))
        | inr ((key, value), e) ↦ elim (Bool-cases (key == k)) [
          | inl same ↦
              let here : key ≡ k = (key_beq_iff key k).0 same in
              rw (e, same)
                (after.set taken k value (
                  subst (λ x. Sets j r.value prepared x value) here
                    (correction_of-Sets prepared r key value e)))
          | inr other ↦
              rw (e, other)
                (after.kept taken k (λ v sets. ground (
                  arith,
                  key_beq_iff key k,
                  some_injective (sym e ∙ Sets-correction_of prepared r k v sets),
                )))
        ]
      ]

  -- The same for the end of every edit.
  pub noted_success_unique :
      (latest latest' : Latest V) (prepared : PreparedHistoryRequest V) (r : QueuedEditResult V)
      (revision : ℕ)
      → IsAfter latest prepared r.value revision latest'
      → (k : CorrectionKey) → latest' k ≡ noted_success latest prepared r revision k
  noted_success_unique latest latest' prepared r revision after k =
      elim (Bool-cases (accepted j r.value)) [
        | inr refused ↦ rw refused (after.refused refused k)
        | inl taken ↦ elim (Bool-cases (is_deletion prepared)) [
          | inl deletion ↦
              rw (taken, deletion)
                (rw (correction_of_deletion prepared r deletion) at
                  (noted-IsAfter latest latest' prepared r revision after taken k))
          | inr edit ↦
              rw (taken, edit) (noted-IsAfter latest latest' prepared r revision after taken k)
        ]
      ]

  -- There is always such a history.
  pub noted_success-IsAfter :
      (latest : Latest V) (prepared : PreparedHistoryRequest V) (r : QueuedEditResult V)
      (revision : ℕ)
      → IsAfter latest prepared r.value revision (noted_success latest prepared r revision)
  noted_success-IsAfter latest prepared r revision = record {
    refused = λ no k. rw no refl;
    set = λ taken k v sets. elim (Bool-cases (is_deletion prepared)) [
      | inl deletion ↦
          cc (correction_of_deletion prepared r deletion, Sets-correction_of prepared r k v sets)
      | inr edit ↦ rw (taken, edit, Sets-correction_of prepared r k v sets, beq_refl k) refl
    ];
    kept = λ taken k nothing. elim (Bool-cases (is_deletion prepared)) [
      | inl deletion ↦ rw (taken, deletion) refl
      | inr edit ↦ elim (Option-cases (correction_of j prepared r)) [
        | inl e ↦ rw (taken, edit, e) refl
        | inr ((key, value), e) ↦ elim (Bool-cases (key == k)) [
          | inr other ↦ rw (taken, edit, e, other) refl
          | inl same ↦ absurd (
              nothing value (
                subst (λ x. Sets j r.value prepared x value) ((key_beq_iff key k).0 same)
                  (correction_of-Sets prepared r key value e)))
        ]
      ]
    ];
  }
