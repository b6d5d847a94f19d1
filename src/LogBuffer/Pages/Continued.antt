-- ===== src/LogBuffer/Pages/Continued.antt =====
-- A page of the log and the page that follows it.
use norves_editor.Common.{
  ℕ, zero, suc, ◌≡◌, ◌∙◌, inl, inr, refl, sym, ap, subst, Bool, true, false, not, ◌||◌, none, some,
  List, [], ◌∷◌, ◌++◌, arith, length, All, retain, ltb, ◌==◌, nat_eq, nat_beq_iff, Bool-cases,
  Option-cases, min,
}
use norves_editor.LogBuffer.{LogEntry, LogBuffer}
use norves_editor.LogBuffer.Pages.{LogQuery, limit_of, matches_query, fill_page, last_of, read}

-- The query that goes on after a number.
abbrev pub after : LogQuery → ℕ → LogQuery
after query n = record query { after_sequence = some n }

module _ {L : Type 0} where
  -- All that a query selects.
  abbrev pub selected : LogQuery → List (LogEntry L) → List (LogEntry L)
  selected query = retain (λ e. matches_query e query)

  -- The records of one generation are numbered in ascending order.
  abbrev pub precedes : LogEntry L → LogEntry L → Bool
  precedes d e = not (d.generation == e.generation) || ltb d.sequence e.sequence

  abbrev pub IsAscending : List (LogEntry L) → Type 0
  IsAscending [] = Unit
  IsAscending (e ∷ es) = All (λ later. precedes e later ≡ true) es × IsAscending es

  some_injective : {a b : LogEntry L} → some a ≡ some b → a ≡ b
  some_injective h = ground arith

  fill_page-All :
      (P : LogEntry L → Type 0) (left : ℕ) (query : LogQuery) (es : List (LogEntry L))
      → All P es
      → All (λ e. P e × (matches_query e query ≡ true)) (fill_page left query es).0
  unfolding fill_page
  fill_page-All P left query [] h = tt
  fill_page-All P zero query (e ∷ es) h = elim (Bool-cases (matches_query e query)) [
    | inl good ↦ rw good tt
    | inr bad ↦ rw bad (fill_page-All P zero query es h.1)
  ]
  fill_page-All P (suc left) query (e ∷ es) h = elim (Bool-cases (matches_query e query)) [
    | inl good ↦ rw good ((h.0, good), fill_page-All P left query es h.1)
    | inr bad ↦ rw bad (fill_page-All P (suc left) query es h.1)
  ]

  last_of-All :
      (P : LogEntry L → Type 0) (xs : List (LogEntry L)) (l : LogEntry L)
      → All P xs
      → last_of xs ≡ some l
      → P l
  last_of-All P [] l h e = cc
  last_of-All P (x ∷ xs) l h e = elim (Option-cases (last_of xs)) [
    | inl none_ ↦ subst P (some_injective (rw none_ at e)) h.0
    | inr (later, some_) ↦ last_of-All P xs l h.1 (some_ ∙ rw some_ at e)
  ]

  fill_page_full : (query : LogQuery) (es : List (LogEntry L)) → (fill_page 0 query es).0 ≡ []
  unfolding fill_page
  fill_page_full query [] = refl
  fill_page_full query (e ∷ es) = elim (Bool-cases (matches_query e query)) [
    | inl good ↦ rw good refl
    | inr bad ↦ rw bad (fill_page_full query es)
  ]

  last_of-none : (xs : List (LogEntry L)) → last_of xs ≡ none → xs ≡ []
  last_of-none [] h = refl
  last_of-none (x ∷ xs) h = elim (Option-cases (last_of xs)) [
    | inl e ↦ cc (rw e at h)
    | inr (l, e) ↦ cc (rw e at h)
  ]

  module _ (query : LogQuery) (g : ℕ) (one : query.generation ≡ some g) where
    match-generation : (e : LogEntry L) → matches_query e query ≡ true → e.generation ≡ g
    unfolding matches_query
    match-generation e h = ground (arith, one, nat_beq_iff g e.generation)

    -- What stands before a record of the page is not selected after it.
    before_last :
        (e l : LogEntry L)
        → precedes e l ≡ true
        → matches_query l query ≡ true
        → matches_query e (after query l.sequence) ≡ false
    unfolding matches_query
    before_last e l p h = ground (
      arith,
      one,
      nat_beq_iff g e.generation,
      nat_beq_iff g l.generation,
      nat_beq_iff e.generation l.generation,
    )

    not_after_itself : (e : LogEntry L) → matches_query e (after query e.sequence) ≡ false
    unfolding matches_query
    not_after_itself e = ground arith

    -- What stands after a record of the page is selected after it if it was selected.
    after_last :
        (e x : LogEntry L)
        → precedes e x ≡ true
        → matches_query e query ≡ true
        → matches_query x (after query e.sequence) ≡ matches_query x query
    unfolding matches_query
    after_last e x p h = elim (Bool-cases (g == x.generation)) [
      | inr other ↦ rw (one, other) refl
      | inl same ↦ elim (Option-cases query.after_sequence) [
        | inl n ↦ rw (one, same, n) (ground (arith, ahead e x p h same))
        | inr (a, n) ↦ rw (one, same, n) (ground (arith, ahead e x p h same, passed e a h n))
      ]
    ]
      where
        ahead :
            (e x : LogEntry L)
            → precedes e x ≡ true
            → matches_query e query ≡ true
            → (g == x.generation) ≡ true
            → ltb e.sequence x.sequence ≡ true
        ahead e x p h same = ground (
          arith,
          match-generation e h,
          nat_beq_iff g x.generation,
          nat_beq_iff e.generation x.generation,
        )

        passed :
            (e : LogEntry L) (a : ℕ)
            → matches_query e query ≡ true
            → query.after_sequence ≡ some a
            → ltb a e.sequence ≡ true
        passed e a h n = ground arith

    selected-after :
        (e : LogEntry L) (es : List (LogEntry L))
        → All (λ x. precedes e x ≡ true) es
        → matches_query e query ≡ true
        → selected (after query e.sequence) es ≡ selected query es
    unfolding retain
    selected-after e [] p h = refl
    selected-after e (x ∷ es) p h =
        let head = after_last e x p.0 h in
        let tail = selected-after e es p.1 h in
        elim (Bool-cases (matches_query x query)) [
          | inl good ↦ rw (head ∙ good, good) (ap (λ xs. x ∷ xs) tail)
          | inr bad ↦ rw (head ∙ bad, bad) tail
        ]

    -- The page and what is selected after its last record are all that is selected.
    fill_page-continued :
        (left : ℕ) (es : List (LogEntry L)) (l : LogEntry L)
        → IsAscending es
        → last_of (fill_page left query es).0 ≡ some l
        → selected query es ≡ (fill_page left query es).0 ++ selected (after query l.sequence) es
    unfolding fill_page retain
    fill_page-continued left [] l asc h = cc
    fill_page-continued zero (e ∷ es) l asc h =
        cc (sym (ap last_of (fill_page_full query (e ∷ es))) ∙ h)
    fill_page-continued (suc left) (e ∷ es) l asc h = elim (Bool-cases (matches_query e query)) [
      | inr bad ↦
          let h' = rw bad at h in
          let (p, good) =
            last_of-All _ (fill_page (suc left) query es).0 l
              (fill_page-All (λ x. precedes e x ≡ true) (suc left) query es asc.0) h' in
          rw (bad, before_last e l p good) (fill_page-continued (suc left) es l asc.1 h')
      | inl good ↦ elim (Option-cases (last_of (fill_page left query es).0)) [
        | inl none_ ↦
            let same : e ≡ l = some_injective (rw (good, none_) at h) in
            subst
              (λ (l : LogEntry L).
                selected query (e ∷ es)
                ≡ (fill_page (suc left) query (e ∷ es)).0
                  ++ selected (after query l.sequence) (e ∷ es))
              same
              (rw (good, last_of-none (fill_page left query es).0 none_, not_after_itself e)
                (ap (λ xs. e ∷ xs) (sym (selected-after e es asc.0 good))))
        | inr (m, some_) ↦
            let h' : last_of (fill_page left query es).0 ≡ some l = some_ ∙ rw (good, some_) at h in
            let (p, found) =
              last_of-All _ (fill_page left query es).0 l
                (fill_page-All (λ x. precedes e x ≡ true) left query es asc.0) h' in
            rw (good, before_last e l p found)
              (ap (λ xs. e ∷ xs) (fill_page-continued left es l asc.1 h'))
      ]
    ]

  -- How long a page is, and whether there is more.
  fill_page-length :
      (left : ℕ) (query : LogQuery) (es : List (LogEntry L))
      → (length (fill_page left query es).0 ≡ min left (length (selected query es)))
        × ((fill_page left query es).1 ≡ ltb left (length (selected query es)))
  unfolding fill_page retain
  fill_page-length left query [] = ground arith
  fill_page-length zero query (e ∷ es) = elim (Bool-cases (matches_query e query)) [
    | inl good ↦ rw good (ground arith)
    | inr bad ↦ rw bad (fill_page-length zero query es)
  ]
  fill_page-length (suc left) query (e ∷ es) = elim (Bool-cases (matches_query e query)) [
    | inl good ↦ rw good (ground (arith, fill_page-length left query es))
    | inr bad ↦ rw bad (fill_page-length (suc left) query es)
  ]

  -- A page has as many records as the query selects, but at most its limit, and it says that there
  -- are more exactly where the query selects more than the limit.
  pub length-read :
      (b : LogBuffer L) (query : LogQuery)
      → (length (read b query).entries ≡ min (limit_of query) (length (selected query b.entries)))
        × ((read b query).has_more ≡ ltb (limit_of query) (length (selected query b.entries)))
  unfolding read
  length-read b query = fill_page-length (limit_of query) query b.entries

  read-next :
      (b : LogBuffer L) (query : LogQuery) (g n : ℕ)
      → query.generation ≡ some g
      → (read b query).next_after_sequence ≡ some n
      → (l : LogEntry L) × (last_of (fill_page (limit_of query) query b.entries).0 ≡ some l)
        × (l.sequence ≡ n)
  unfolding read
  read-next b query g n one h =
      elim (Option-cases (last_of (fill_page (limit_of query) query b.entries).0)) [
        | inl none_ ↦ ground arith
        | inr (l, some_) ↦ (l, some_, ground arith)
      ]

  pub read_continued :
      (b : LogBuffer L) (query : LogQuery) (g n : ℕ)
      → query.generation ≡ some g
      → IsAscending b.entries
      → (read b query).next_after_sequence ≡ some n
      → selected query b.entries ≡ (read b query).entries ++ selected (after query n) b.entries
  unfolding read
  read_continued b query g n one asc h =
      let (l, last, same) = read-next b query g n one h in
      subst
        (λ m.
          selected query b.entries
          ≡ (fill_page (limit_of query) query b.entries).0 ++ selected (after query m) b.entries)
        same (fill_page-continued query g one (limit_of query) b.entries l asc last)
