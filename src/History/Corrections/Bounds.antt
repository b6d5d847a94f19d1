-- ===== src/History/Corrections/Bounds.antt =====
-- The bounds of `CorrectionCache`: entries, bytes, and the account of the bytes.
use norves_editor.Common.{
  ℕ, zero, suc, ◌+◌, ◌≤◌, ◌≡◌, refl, ap, inl, inr, false, String, none, some, List, [], ◌∷◌, arith,
  length, ltb, Bool-cases, Option-cases, ◌==◌, u64_max,
}
use norves_editor.Common.Dict
use norves_editor.Common.Dict.{Dict, Unique, get-remove, remove-Unique, insert-Unique, remove-none}
use norves_editor.History.Types.{Json}
use norves_editor.History.Corrections.{
  CorrectionKey, key_eq, key_beq_iff, CorrectionValue, CorrectionEntry, CorrectionCache, empty,
  max_correction_entries, max_correction_bytes, mark_lost_through, oldest, drop_entry, evict,
  is_over, make_room, store, insert, needed_bytes, clear, clear_and_mark_lost_through, keys_of,
  drop_all, remove_object,
}

module _ {V : Type 0} where
  abbrev pub total : Dict CorrectionKey (CorrectionEntry V) → ℕ
  total [] = 0
  total ((k, e) ∷ m) = e.byte_len + total m

  -- The keys are distinct, `bytes` is the sum of the entries' lengths, and both limits hold.
  pub record IsBounded (c : CorrectionCache V) : Type 0 where
    pub unique : Unique c.entries
    pub counted : c.bytes ≡ total c.entries
    pub few : length c.entries ≤ max_correction_entries
    pub small : c.bytes ≤ max_correction_bytes

  total-remove :
      (k : CorrectionKey) (m : Dict CorrectionKey (CorrectionEntry V)) (e : CorrectionEntry V)
      → Unique m
      → Dict.get k m ≡ some e
      → (total (Dict.remove k m) + e.byte_len ≡ total m)
        × (suc (length (Dict.remove k m)) ≡ length m)
  unfolding Dict.get Dict.remove
  total-remove k [] e u h = absurd (cc)
  total-remove k ((j, x) ∷ m) e u h = elim (Bool-cases (j == k)) [
    | inl same ↦ ground (arith, key_beq_iff j k, remove-none k m)
    | inr other ↦ ground (arith, total-remove k m e u.1)
  ]

  -- What `oldest` returns stands in the map.
  pub oldest-get :
      (m : Dict CorrectionKey (CorrectionEntry V)) (k : CorrectionKey) (e : CorrectionEntry V)
      → Unique m
      → oldest m ≡ some (k, e)
      → Dict.get k m ≡ some e
  unfolding oldest Dict.get
  oldest-get [] k e u h = absurd (cc)
  oldest-get ((j, x) ∷ m) k e u h = ground (arith, key_beq_iff j k, oldest-get m k e u.1)

  oldest-none : (m : Dict CorrectionKey (CorrectionEntry V)) → oldest m ≡ none → m ≡ []
  unfolding oldest
  oldest-none [] h = refl
  oldest-none ((j, x) ∷ m) h = ground arith

  pub evict-IsBounded :
      (c : CorrectionCache V) (k : CorrectionKey) (e : CorrectionEntry V)
      → IsBounded c
      → Dict.get k c.entries ≡ some e
      → IsBounded (evict c k e)
  unfolding evict mark_lost_through
  evict-IsBounded c k e b h = record {
    unique = remove-Unique k c.entries b.unique;
    counted = omega (arith, total-remove k c.entries e b.unique h, b);
    few = omega (arith, total-remove k c.entries e b.unique h, b);
    small = omega (arith, b);
  }

  pub drop_entry-IsBounded :
      (c : CorrectionCache V) (k : CorrectionKey) → IsBounded c → IsBounded (drop_entry c k)
  unfolding drop_entry
  drop_entry-IsBounded c k b = elim (Option-cases (Dict.get k c.entries)) [
    | inl e ↦ rw (e, drop_entry) b
    | inr (x, e) ↦
        rw (e, drop_entry)
          (record {
            unique = remove-Unique k c.entries b.unique;
            counted = omega (arith, total-remove k c.entries x b.unique e, b);
            few = omega (arith, total-remove k c.entries x b.unique e, b);
            small = omega (arith, b);
          })
  ]

  empty-is_over :
      (c : CorrectionCache V) (n : ℕ)
      → IsBounded c
      → length c.entries ≤ 0
      → n ≤ max_correction_bytes
      → is_over c n ≡ false
  unfolding is_over
  empty-is_over c n b l h = ground (arith, empty_total c.entries l)
    where
      empty_total : (m : Dict CorrectionKey (CorrectionEntry V)) → length m ≤ 0 → total m ≡ 0
      empty_total [] l = refl
      empty_total (x ∷ m) l = absurd (omega arith)

  -- With as much fuel as there are entries, the loop ends with room for the new entry.
  pub make_room-IsBounded :
      (fuel : ℕ) (c : CorrectionCache V) (n : ℕ)
      → IsBounded c
      → length c.entries ≤ fuel
      → n ≤ max_correction_bytes
      → IsBounded (make_room fuel c n) × (is_over (make_room fuel c n) n ≡ false)
  unfolding make_room
  make_room-IsBounded zero c n b l h = (b, empty-is_over c n b l h)
  make_room-IsBounded (suc fuel) c n b l h = elim (Bool-cases (is_over c n)) [
    | inl over ↦ elim (Option-cases (oldest c.entries)) [
      | inl e ↦
          absurd
            (cc (over, empty-is_over c n b (omega (arith, ap length (oldest-none c.entries e))) h))
      | inr ((k, x), e) ↦
          let held = oldest-get c.entries k x b.unique e in
          rw (over, e, make_room)
            (make_room-IsBounded fuel (evict c k x) n (evict-IsBounded c k x b held)
              (unfold evict mark_lost_through in
                omega (arith, total-remove k c.entries x b.unique held))
              h)
    ]
    | inr under ↦ rw (under, make_room) (b, under)
  ]

  store-IsBounded :
      (c : CorrectionCache V) (k : CorrectionKey) (e : CorrectionEntry V)
      → IsBounded c
      → Dict.get k c.entries ≡ none
      → is_over c e.byte_len ≡ false
      → IsBounded (store c k e)
  unfolding store is_over Dict.insert
  store-IsBounded c k e b fresh room =
      let same = remove-none k c.entries fresh in
      record {
        unique = insert-Unique k e c.entries b.unique;
        counted = ground (arith, same);
        few = ground (arith, same);
        small = ground arith;
      }

  pub get-drop_entry_self :
      (c : CorrectionCache V) (k : CorrectionKey) → Dict.get k (drop_entry c k).entries ≡ none
  unfolding drop_entry
  get-drop_entry_self c k = ground (arith, get-remove k k c.entries, key_beq_iff k k)

  -- Making room brings no key back.
  get-make_room-none :
      (fuel : ℕ) (c : CorrectionCache V) (n : ℕ) (k : CorrectionKey)
      → Dict.get k c.entries ≡ none
      → Dict.get k (make_room fuel c n).entries ≡ none
  unfolding make_room
  get-make_room-none zero c n k h = h
  get-make_room-none (suc fuel) c n k h = elim (Bool-cases (is_over c n)) [
    | inl over ↦ elim (Option-cases (oldest c.entries)) [
      | inl e ↦ rw (over, e, make_room) h
      | inr ((j, x), e) ↦
          rw (over, e, make_room)
            (get-make_room-none fuel (evict c j x) n k
              (unfold evict mark_lost_through in ground (arith, get-remove k j c.entries)))
    ]
    | inr under ↦ rw (under, make_room) h
  ]

  mark_lost_through-IsBounded :
      (c : CorrectionCache V) (r : ℕ) → IsBounded c → IsBounded (mark_lost_through c r)
  unfolding mark_lost_through
  mark_lost_through-IsBounded c r b = record {
    unique = b.unique;
    counted = b.counted;
    few = b.few;
    small = b.small;
  }

  -- Whatever is inserted, the cache keeps its limits and its account of the bytes.
  pub insert-IsBounded :
      (j : Json V) (c : CorrectionCache V) (k : CorrectionKey) (r : ℕ) (v : CorrectionValue V)
      → IsBounded c
      → IsBounded (insert j c k r v)
  unfolding insert
  insert-IsBounded j c k r v b =
      let n = needed_bytes j k v in
      let c' = drop_entry c k in
      let b' = drop_entry-IsBounded c k b in
      elim (Bool-cases (ltb u64_max n)) [
        | inl huge ↦ rw (huge, insert) (mark_lost_through-IsBounded c' r b')
        | inr fits ↦ elim (Bool-cases (ltb max_correction_bytes n)) [
          | inl big ↦ rw (fits, big, insert) (mark_lost_through-IsBounded c' r b')
          | inr small ↦
              let room =
                make_room-IsBounded (length c'.entries) c' n b' (omega arith) (ground arith) in
              rw (fits, small, insert)
                (store-IsBounded _ k _ room.0
                  (get-make_room-none (length c'.entries) c' n k (get-drop_entry_self c k)) room.1)
        ]
      ]

  drop_all-IsBounded :
      (c : CorrectionCache V) (ks : List CorrectionKey) → IsBounded c → IsBounded (drop_all c ks)
  unfolding drop_all
  drop_all-IsBounded c [] b = b
  drop_all-IsBounded c (k ∷ ks) b =
      drop_all-IsBounded (drop_entry c k) ks (drop_entry-IsBounded c k b)

  pub remove_object-IsBounded :
      (c : CorrectionCache V) (o : String) (r : ℕ) → IsBounded c → IsBounded (remove_object c o r)
  unfolding remove_object
  remove_object-IsBounded c o r b = go (keys_of o c.entries) refl
    where
      go : (ks : List CorrectionKey) → keys_of o c.entries ≡ ks → IsBounded (remove_object c o r)
      go [] e = rw (e, remove_object) b
      go (k ∷ ks) e =
          rw (e, remove_object) (mark_lost_through-IsBounded _ r (drop_all-IsBounded c (k ∷ ks) b))

  pub empty-IsBounded : IsBounded (empty {V = V})
  empty-IsBounded = record { unique = tt; counted = refl; few = omega arith; small = omega arith }

  pub clear-IsBounded : (c : CorrectionCache V) → IsBounded (clear c)
  unfolding clear
  clear-IsBounded c = record { unique = tt; counted = refl; few = omega arith; small = omega arith }

  pub clear_and_mark_lost_through-IsBounded :
      (c : CorrectionCache V) (r : ℕ) → IsBounded (clear_and_mark_lost_through c r)
  unfolding clear_and_mark_lost_through
  clear_and_mark_lost_through-IsBounded c r = record {
    unique = tt;
    counted = refl;
    few = omega arith;
    small = omega arith;
  }
