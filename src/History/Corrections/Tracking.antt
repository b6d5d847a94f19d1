-- ===== src/History/Corrections/Tracking.antt =====
-- `CorrectionCache` against a history that forgets nothing: for each key the last value that was
-- inserted. What the cache has dropped lies at or below `lost_through`.
use norves_editor.Common.{
  ℕ, zero, suc, ◌≤◌, ◌≡◌, refl, inl, inr, subst, String, Option, none, some, List, [], ◌∷◌, arith,
  length, if◌then◌else◌, ltb, max, Bool-cases, Option-cases, ◌==◌, u64_max,
}
use norves_editor.Common.Dict
use norves_editor.Common.Dict.{Dict, Unique, get-remove, get-insert}
use norves_editor.History.Types.{Json}
use norves_editor.History.Corrections.{
  CorrectionKey, key_eq, key_beq_iff, CorrectionValue, CorrectionEntry, CorrectionCache,
  max_correction_bytes, mark_lost_through, oldest, drop_entry, evict, is_over, make_room, store,
  insert, needed_bytes, clear_and_mark_lost_through, keys_of, drop_all, remove_object,
}
use norves_editor.History.Corrections.Bounds.{
  IsBounded, oldest-get, evict-IsBounded, drop_entry-IsBounded, get-drop_entry_self,
}

-- The full history: the revision and the value of the last insertion under each key.
abbrev pub Latest : Type 0 → Type 0
Latest V = CorrectionKey → Option (ℕ × CorrectionValue V)

abbrev pub never : {V : Type 0} → Latest V
never k = none

abbrev pub update : {V : Type 0} → Latest V → CorrectionKey → ℕ → CorrectionValue V → Latest V
update latest key revision value k = if key == k then some (revision, value) else latest k

-- An entry is the last insertion of its key; an insertion with no entry is at most `lost`.
abbrev pub Agrees :
    {V : Type 0} → Option (CorrectionEntry V) → Option (ℕ × CorrectionValue V) → ℕ → ℕ → Type 0
Agrees (some e) (some (r, v)) lost now = (e.revision ≡ r) × (e.value ≡ v) × (r ≤ now)
Agrees (some e) none lost now = ⊥
Agrees none (some (r, v)) lost now = (r ≤ lost) × (r ≤ now)
Agrees none none lost now = Unit {0}

-- What is known of every other key.
abbrev forget : {V : Type 0} → Latest V → CorrectionKey → Latest V
forget latest key k = if key == k then none else latest k

-- Stated of the map alone, for a bound `lost` on what may be missing.
abbrev TracksIn : {V : Type 0} → Dict CorrectionKey (CorrectionEntry V) → Latest V → ℕ → ℕ → Type 0
TracksIn entries latest lost now =
    (k : CorrectionKey) → Agrees (Dict.get k entries) (latest k) lost now

abbrev pub Tracks : {V : Type 0} → CorrectionCache V → Latest V → ℕ → Type 0
Tracks c latest now =
    (k : CorrectionKey) → Agrees (Dict.get k c.entries) (latest k) c.lost_through now

module _ {V : Type 0} where
  Agrees-mono :
      (o : Option (CorrectionEntry V)) (l : Option (ℕ × CorrectionValue V))
      (lost lost' now now' : ℕ)
      → Agrees o l lost now
      → lost ≤ lost'
      → now ≤ now'
      → Agrees o l lost' now'
  Agrees-mono (some e) (some (r, v)) lost lost' now now' a p q = ground arith
  Agrees-mono (some e) none lost lost' now now' a p q = a
  Agrees-mono none (some (r, v)) lost lost' now now' a p q = ground arith
  Agrees-mono none none lost lost' now now' a p q = tt

  -- An entry may be forgotten once its revision counts as lost.
  Agrees-forget :
      (e : CorrectionEntry V) (l : Option (ℕ × CorrectionValue V)) (lost now : ℕ)
      → Agrees (some e) l lost now
      → Agrees none l (max lost e.revision) now
  Agrees-forget e (some (r, v)) lost now a = omega arith
  Agrees-forget e none lost now a = absurd a

  Agrees-drop :
      (o : Option (CorrectionEntry V)) (l : Option (ℕ × CorrectionValue V)) (lost now : ℕ)
      → Agrees o l lost now
      → now ≤ lost
      → Agrees none l lost now
  Agrees-drop (some e) (some (r, v)) lost now a p = omega arith
  Agrees-drop (some e) none lost now a p = absurd a
  Agrees-drop none l lost now a p = a

  evict-Tracks :
      (c : CorrectionCache V) (latest : Latest V) (now : ℕ) (key : CorrectionKey)
      (e : CorrectionEntry V)
      → Tracks c latest now
      → Dict.get key c.entries ≡ some e
      → Tracks (evict c key e) latest now
  unfolding evict mark_lost_through
  evict-Tracks c latest now key e t h k = elim (Bool-cases (key == k)) [
    | inl same ↦
        rw (get-remove k key c.entries, same)
          (Agrees-forget e (latest k) c.lost_through now (
            subst (λ x. Agrees (some e) (latest x) c.lost_through now) ((key_beq_iff key k).0 same)
              (rw h at (t key))))
    | inr other ↦
        rw (get-remove k key c.entries, other)
          (Agrees-mono _ (latest k) c.lost_through _ now now (t k) (omega arith) (omega arith))
  ]

  make_room-Tracks :
      (fuel : ℕ) (c : CorrectionCache V) (n : ℕ) (latest : Latest V) (now : ℕ)
      → IsBounded c
      → Tracks c latest now
      → Tracks (make_room fuel c n) latest now
  unfolding make_room
  make_room-Tracks zero c n latest now b t = t
  make_room-Tracks (suc fuel) c n latest now b t = elim (Bool-cases (is_over c n)) [
    | inl over ↦ elim (Option-cases (oldest c.entries)) [
      | inl e ↦ rw (over, e, make_room) t
      | inr ((k, x), e) ↦
          let held = oldest-get c.entries k x b.unique e in
          rw (over, e, make_room)
            (make_room-Tracks fuel (evict c k x) n latest now (evict-IsBounded c k x b held)
              (evict-Tracks c latest now k x t held))
    ]
    | inr under ↦ rw (under, make_room) t
  ]

  get-drop_entry :
      (c : CorrectionCache V) (key k : CorrectionKey)
      → Dict.get k (drop_entry c key).entries ≡ (if key == k then none else Dict.get k c.entries)
  unfolding drop_entry
  get-drop_entry c key k = ground (arith, get-remove k key c.entries, key_beq_iff key k)

  lost_through-drop_entry :
      (c : CorrectionCache V) (key : CorrectionKey)
      → (drop_entry c key).lost_through ≡ c.lost_through
  unfolding drop_entry
  lost_through-drop_entry c key = ground arith

  drop_entry-Tracks :
      (c : CorrectionCache V) (latest : Latest V) (now : ℕ) (key : CorrectionKey)
      → Tracks c latest now
      → Tracks (drop_entry c key) (forget latest key) now
  drop_entry-Tracks c latest now key t k = elim (Bool-cases (key == k)) [
    | inl same ↦ rw (get-drop_entry c key k, same) tt
    | inr other ↦ rw (get-drop_entry c key k, lost_through-drop_entry c key, other) (t k)
  ]

  -- An insertion that is refused for its size is lost, and known to be.
  lost-Tracks :
      (c : CorrectionCache V) (latest : Latest V) (now : ℕ) (key : CorrectionKey) (r : ℕ)
      (v : CorrectionValue V)
      → Tracks c (forget latest key) now
      → now ≤ r
      → Dict.get key c.entries ≡ none
      → Tracks (mark_lost_through c r) (update latest key r v) r
  unfolding mark_lost_through
  lost-Tracks c latest now key r v t h gone k = elim (Bool-cases (key == k)) [
    | inl same ↦ rw (same, ← (key_beq_iff key k).0 same, gone) (omega arith, omega arith)
    | inr other ↦
        rw other
          (Agrees-mono _ (latest k) c.lost_through _ now r (rw other at (t k)) (omega arith) h)
  ]

  store-Tracks :
      (c : CorrectionCache V) (latest : Latest V) (now : ℕ) (key : CorrectionKey)
      (e : CorrectionEntry V)
      → Tracks c (forget latest key) now
      → now ≤ e.revision
      → Tracks (store c key e) (update latest key e.revision e.value) e.revision
  unfolding store
  store-Tracks c latest now key e t h k = elim (Bool-cases (key == k)) [
    | inl same ↦ rw (get-insert k key e c.entries, same) (refl, refl, omega arith)
    | inr other ↦
        rw (get-insert k key e c.entries, other)
          (Agrees-mono _ (latest k) c.lost_through _ now _ (rw other at (t k)) (omega arith) h)
  ]

  -- An insertion is remembered, or known to be lost; nothing else that is known changes.
  pub insert-Tracks :
      (j : Json V) (c : CorrectionCache V) (latest : Latest V) (now : ℕ) (key : CorrectionKey)
      (r : ℕ) (v : CorrectionValue V)
      → IsBounded c
      → Tracks c latest now
      → now ≤ r
      → Tracks (insert j c key r v) (update latest key r v) r
  unfolding insert
  insert-Tracks j c latest now key r v b t h =
      let n = needed_bytes j key v in
      let c' = drop_entry c key in
      let t' = drop_entry-Tracks c latest now key t in
      let gone = get-drop_entry_self c key in
      elim (Bool-cases (ltb u64_max n)) [
        | inl huge ↦ rw (huge, insert) (lost-Tracks c' latest now key r v t' h gone)
        | inr fits ↦ elim (Bool-cases (ltb max_correction_bytes n)) [
          | inl big ↦ rw (fits, big, insert) (lost-Tracks c' latest now key r v t' h gone)
          | inr small ↦
              rw (fits, small, insert)
                (store-Tracks (make_room (length c'.entries) c' n) latest now key
                  (record { revision = r; value = v; byte_len = n })
                  (make_room-Tracks (length c'.entries) c' n (forget latest key) now
                    (drop_entry-IsBounded c key b) t')
                  h)
        ]
      ]

  drop_all-Tracks :
      (c : CorrectionCache V) (ks : List CorrectionKey) (latest : Latest V) (lost now : ℕ)
      → TracksIn c.entries latest lost now
      → now ≤ lost
      → TracksIn (drop_all c ks).entries latest lost now
  unfolding drop_all
  drop_all-Tracks c [] latest lost now t h = t
  drop_all-Tracks c (key ∷ ks) latest lost now t h =
      drop_all-Tracks (drop_entry c key) ks latest lost now dropped h
    where
      dropped : TracksIn (drop_entry c key).entries latest lost now
      dropped k = elim (Bool-cases (key == k)) [
        | inl same ↦ rw (get-drop_entry c key k, same) (Agrees-drop _ (latest k) lost now (t k) h)
        | inr other ↦ rw (get-drop_entry c key k, other) (t k)
      ]

  lost_through-drop_all :
      (c : CorrectionCache V) (ks : List CorrectionKey)
      → (drop_all c ks).lost_through ≡ c.lost_through
  unfolding drop_all
  lost_through-drop_all c [] = refl
  lost_through-drop_all c (k ∷ ks) =
      cc (lost_through-drop_all (drop_entry c k) ks, lost_through-drop_entry c k)

  pub remove_object-Tracks :
      (c : CorrectionCache V) (latest : Latest V) (now : ℕ) (o : String) (r : ℕ)
      → Tracks c latest now
      → now ≤ r
      → Tracks (remove_object c o r) latest now
  unfolding remove_object mark_lost_through
  remove_object-Tracks c latest now o r t h = go (keys_of o c.entries) refl
    where
      widened : TracksIn c.entries latest (max c.lost_through r) now
      widened k =
          Agrees-mono _ (latest k) c.lost_through _ now now (t k) (omega arith) (omega arith)

      go :
          (ks : List CorrectionKey)
          → keys_of o c.entries ≡ ks
          → Tracks (remove_object c o r) latest now
      go [] e = rw (e, remove_object) t
      go (key ∷ ks) e =
          rw (e, remove_object)
            (rw (lost_through-drop_all c (key ∷ ks)) (
              drop_all-Tracks c (key ∷ ks) latest (max c.lost_through r) now widened (omega arith)))

  pub Tracks-later :
      (c : CorrectionCache V) (latest : Latest V) (now now' : ℕ)
      → Tracks c latest now
      → now ≤ now'
      → Tracks c latest now'
  Tracks-later c latest now now' t h k =
      Agrees-mono _ (latest k) c.lost_through _ now now' (t k) (omega arith) h

  Agrees-cleared :
      (o : Option (CorrectionEntry V)) (l : Option (ℕ × CorrectionValue V)) (lost now r : ℕ)
      → Agrees o l lost now
      → now ≤ r
      → Agrees {V = V} none l r r
  Agrees-cleared (some e) (some (r', v)) lost now r a p = omega arith
  Agrees-cleared (some e) none lost now r a p = absurd a
  Agrees-cleared none (some (r', v)) lost now r a p = omega arith
  Agrees-cleared none none lost now r a p = tt

  -- A deletion keeps the history: everything in it counts as lost.
  pub clear_and_mark_lost_through-Tracks :
      (c : CorrectionCache V) (latest : Latest V) (now r : ℕ)
      → Tracks c latest now
      → now ≤ r
      → Tracks (clear_and_mark_lost_through c r) latest r
  unfolding clear_and_mark_lost_through Dict.get
  clear_and_mark_lost_through-Tracks c latest now r t h k =
      Agrees-cleared _ (latest k) c.lost_through now r (t k) h
