-- ===== src/Mcp/Operations/Records.antt =====
-- The records of the store over all runs of calls.
use norves_editor.Common.{
  ℕ, ◌≡◌, ◌<◌, ◌∙◌, inl, inr, refl, sym, ap, subst, Bool, true, false, String, Option, none, some,
  List, [], ◌∷◌, arith, ◌==◌, string_eq, nat_eq, Bool-cases, Option-cases, nat_beq_iff,
}
use norves_editor.Common.Dict
use norves_editor.Common.Dict.{Dict, get-insert}
use norves_editor.Mcp.Operations.{
  McpOperationDto, Outside, World, Call, begin, new, fresh, finish, set_group, call, run,
}
use norves_editor.Mcp.Operations.Storage.{Files, AreSmall}
use norves_editor.Mcp.Operations.Kept.{
  IsSound, known_tool-known, some_injective, insert-IsKnown, finish-IsKept, finish-next_id,
  finish_done,
}

module _ {V : Type 0} (outside : Outside V) where
  call-IsSound : (c : Call V) (w : World) → IsSound w → IsSound (call outside c w)
  unfolding call begin
  call-IsSound (Call.begins now tool arguments) w h = record {
    kept = record {
      few = h.kept.few;
      distinct = h.kept.distinct;
      known = h.kept.known;
      small = h.kept.small;
    };
    known = insert-IsKnown w.store.next_id _ w.handles (known_tool-known tool) h.known;
  }
  call-IsSound (Call.groups k id) w h = elim (Option-cases (Dict.get k w.handles)) [
    | inl e ↦ rw (e, call) h
    | inr (r, e) ↦
        rw (e, call)
          (record {
            kept = h.kept;
            known = insert-IsKnown k (set_group id r) w.handles (h.known k r e) h.known;
          })
  ]
  call-IsSound (Call.finishes k now update storage) w h =
      elim (Option-cases (Dict.get k w.handles)) [
        | inl e ↦ rw (e, call) h
        | inr (r, e) ↦
            let (known, kept) = finish-IsKept now update storage r w.store (h.known k r e) h.kept in
            rw (e, call)
              (record {
                kept = kept;
                known =
                    insert-IsKnown k (finish now update storage r w.store).0 w.handles known
                      h.known;
              })
      ]

  run-IsSound : (w : World) (cs : List (Call V)) → IsSound w → IsSound (run outside w cs)
  unfolding run
  run-IsSound w [] h = h
  run-IsSound w (c ∷ cs) h = run-IsSound (call outside c w) cs (call-IsSound c w h)

  -- A handle that the actor has finished.
  record IsFinished (h : ℕ) (r : McpOperationDto) (w : World) : Type 0 where
    begun : h < w.store.next_id
    there : Dict.get h w.handles ≡ some r
    done : r.actor_finished ≡ true

  abbrev Stays : ℕ → McpOperationDto → World → Type 0
  Stays h r w =
      (r' : McpOperationDto) × IsFinished h r' w
      × (record r' { display_group_id = r.display_group_id } ≡ r)

  call-Stays :
      (c : Call V) (h : ℕ) (r : McpOperationDto) (w : World)
      → IsFinished h r w
      → Stays h r (call outside c w)
  unfolding call begin
  call-Stays (Call.begins now tool arguments) h r w f = (
    r,
    record {
      begun = omega (arith, f.begun);
      there =
          get-insert h w.store.next_id (begin outside now tool arguments w.store).0 w.handles
          ∙ ground (arith, f.begun, f.there);
      done = f.done;
    },
    refl,
  )
  call-Stays (Call.groups k id) h r w f = elim (Option-cases (Dict.get k w.handles)) [
    | inl e ↦ rw (e, call) (r, f, refl)
    | inr (q, e) ↦ elim (Bool-cases (k == h)) [
      | inl same ↦
          let mine : q ≡ r =
            some_injective
              (sym e ∙ ap (λ n. Dict.get n w.handles) ((nat_beq_iff k h).0 same) ∙ f.there) in
          rw (e, call)
            (
              set_group id q,
              record {
                begun = f.begun;
                there = get-insert h k (set_group id q) w.handles ∙ rw same refl;
                done = ap (λ (x : McpOperationDto). x.actor_finished) mine ∙ f.done;
              },
              ap (λ (x : McpOperationDto). record x { display_group_id = r.display_group_id }) mine,
            )
      | inr other ↦
          rw (e, call)
            (
              r,
              record {
                begun = f.begun;
                there = get-insert h k (set_group id q) w.handles ∙ rw other f.there;
                done = f.done;
              },
              refl,
            )
    ]
  ]
  call-Stays (Call.finishes k now update storage) h r w f =
      elim (Option-cases (Dict.get k w.handles)) [
        | inl e ↦ rw (e, call) (r, f, refl)
        | inr (q, e) ↦
            rw (e, call)
              (
                r,
                record {
                  begun =
                      subst (λ n. h < n) (sym (finish-next_id now update storage q w.store))
                        f.begun;
                  there = elim (Bool-cases (k == h)) [
                    | inl same ↦
                        let mine : q ≡ r = some_injective (
                          sym e
                          ∙ ap (λ n. Dict.get n w.handles) ((nat_beq_iff k h).0 same)
                          ∙ f.there) in
                        get-insert h k (finish now update storage q w.store).0 w.handles
                        ∙ rw same (
                            ap some (
                              finish_done now update storage q w.store
                                (ap (λ (x : McpOperationDto). x.actor_finished) mine ∙ f.done)
                              ∙ mine))
                    | inr other ↦
                        get-insert h k (finish now update storage q w.store).0 w.handles
                        ∙ rw other f.there
                  ];
                  done = f.done;
                },
                refl,
              )
      ]

  run-Stays :
      (cs : List (Call V)) (h : ℕ) (r : McpOperationDto) (w : World)
      → IsFinished h r w
      → Stays h r (run outside w cs)
  unfolding run
  run-Stays [] h r w f = (r, f, refl)
  run-Stays (c ∷ cs) h r w f =
      let (q, g, same) = call-Stays c h r w f in
      let (p, g', again) = run-Stays cs h q (call outside c w) g in
      (
        p,
        g',
        ap (λ (x : McpOperationDto). record x { display_group_id = r.display_group_id }) again
            ∙ same,
      )

  -- If the record of a handle that has begun is finished by the actor, then whatever is called
  -- later, for this handle or another one, the handle keeps that record: only its group's name may
  -- change.
  pub run_keeps_finished :
      (cs : List (Call V)) (h : ℕ) (r : McpOperationDto) (w : World)
      → h < w.store.next_id
      → Dict.get h w.handles ≡ some r
      → r.actor_finished ≡ true
      → (r' : McpOperationDto) × (Dict.get h (run outside w cs).handles ≡ some r')
        × (record r' { display_group_id = r.display_group_id } ≡ r)
  run_keeps_finished cs h r w begun there done =
      let (p, f, same) =
        run-Stays cs h r w (record { begun = begun; there = there; done = done }) in
      (p, f.there, same)

-- Whatever is called on a new store, and whatever fails in the file system and when: there are at
-- most 500 records, no two of one request, each names a tool of the closed list or none, and each
-- of the two files stays within 1 MiB if both were before.
pub run_from_new-IsSound :
    {V : Type 0} (outside : Outside V) (session : String) (directory : Option Files) (fails : Bool)
    (cs : List (Call V))
    → ((files : Files) → directory ≡ some files → AreSmall files)
    → IsSound (run outside (fresh (new session directory fails)) cs)
unfolding new Dict.get
run_from_new-IsSound outside session directory fails cs small =
    run-IsSound outside (fresh (new session directory fails)) cs (record {
      kept = record {
        few = omega arith;
        distinct = tt;
        known = tt;
        small = opened directory fails small;
      };
      known = λ h r e. cc;
    })
  where
    opened :
        (directory : Option Files) (fails : Bool)
        → ((files : Files) → directory ≡ some files → AreSmall files)
        → (files : Files) → (new session directory fails).directory ≡ some files
        → AreSmall files
    opened none fails small files e = cc
    opened (some before) true small files e = small files e
    opened (some before) false small files e =
        subst AreSmall (some_injective e) (record {
          current = (small before refl).current;
          previous = (small before refl).previous;
        })
