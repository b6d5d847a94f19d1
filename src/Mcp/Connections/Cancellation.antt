-- ===== src/Mcp/Connections/Cancellation.antt =====
-- Which request a cancellation by its key reaches.
use norves_editor.Common.{
  ℕ, ◌≡◌, inl, inr, refl, sym, subst, true, false, ◌&&◌, ◌||◌, some, List, [], ◌∷◌, ◌++◌, arith,
  any, ◌==◌, Eq, string_eq, nat_eq, nat_beq_iff, option_eq, option_beq_iff, Bool-cases,
  Option-cases, beq_refl,
}
use norves_editor.Common.Dict.{Dict}
use norves_editor.Mcp.Permits.{holds}
use norves_editor.Mcp.Connections.{
  RequestKey, key_eq, ActiveHttpRequest, Server, empty, active_of, works_on, request_ids,
  cancel_request, Event, run,
}
use norves_editor.Mcp.Connections.Keys.{is_registered, run_from_empty-IsUnique}

holds-append : (r : ℕ) (xs ys : List ℕ) → holds r (xs ++ ys) ≡ (holds r xs || holds r ys)
unfolding any
holds-append r [] ys = refl
holds-append r (x ∷ xs) ys = ground (arith, holds-append r xs ys)

module _ {K : Type 0} ⦃e : Eq K⦄ where
  works_on-active :
      (k : RequestKey K) (s : Server K) (i : ℕ) (active : ActiveHttpRequest K)
      → active_of i s ≡ some active
      → active.key ≡ some k
      → works_on k s i ≡ true
  works_on-active k s i active at_work is_key = ground (arith, option_beq_iff active.key (some k))

  request_ids-other :
      (k : RequestKey K) (s : Server K) (remote c : ℕ) (m : Dict ℕ ℕ)
      → works_on k s c ≡ false
      → request_ids k s ((remote, c) ∷ m) ≡ request_ids k s m
  unfolding request_ids
  request_ids-other k s remote c m other = elim (Option-cases (active_of c s)) [
    | inl idle ↦ rw (idle, request_ids) refl
    | inr (active, at_work) ↦ ground arith
  ]

  request_ids-same :
      (k : RequestKey K) (s : Server K) (remote c : ℕ) (m : Dict ℕ ℕ) (active : ActiveHttpRequest K)
      → active_of c s ≡ some active
      → active.key ≡ some k
      → request_ids k s ((remote, c) ∷ m) ≡ active.lease.request_id ∷ request_ids k s m
  unfolding request_ids
  request_ids-same k s remote c m active at_work is_key =
      ground (arith, option_beq_iff active.key (some k))

  holds-request_ids :
      (k : RequestKey K) (s : Server K) (i : ℕ) (active : ActiveHttpRequest K) (r : ℕ)
      (m : Dict ℕ ℕ)
      → active_of i s ≡ some active
      → active.key ≡ some k
      → ((j : ℕ) → any (λ entry. entry.1 == j) m ≡ true → works_on k s j ≡ true → j ≡ i)
      → holds r (request_ids k s m)
        ≡ (any (λ entry. entry.1 == i) m && active.lease.request_id == r)
  unfolding any request_ids
  holds-request_ids k s i active r [] at_work is_key only = refl
  holds-request_ids k s i active r ((remote, c) ∷ m) at_work is_key only =
      let rest =
        holds-request_ids k s i active r m at_work is_key (λ j later. only j (ground arith)) in
      elim (Bool-cases (c == i)) [
        | inl same ↦
            let here : active_of c s ≡ some active =
              subst (λ n. active_of n s ≡ some active) (sym ((nat_beq_iff c i).0 same)) at_work in
            ground (arith, rest, request_ids-same k s remote c m active here is_key)
        | inr other ↦ elim (Bool-cases (works_on k s c)) [
          | inl busy ↦ ground (arith, only c (ground (arith, beq_refl c)) busy, nat_beq_iff c i)
          | inr idle ↦ ground (arith, rest, request_ids-other k s remote c m idle)
        ]
      ]

  -- After whatever events on a server without connections, if a registered connection that is
  -- alive works on a request of some key, then a cancellation of that key cancels this request and
  -- no other one.
  pub run_from_empty-cancel_request :
      (xs : List (Event K)) (k : RequestKey K) (i : ℕ) (active : ActiveHttpRequest K) (r : ℕ)
      → is_registered (run empty xs) i ≡ true
      → active_of i (run empty xs) ≡ some active
      → active.key ≡ some k
      → holds r (cancel_request k (run empty xs)).cancelled
        ≡ (active.lease.request_id == r || holds r (run empty xs).cancelled)
  unfolding cancel_request
  run_from_empty-cancel_request xs k i active r registered at_work is_key =
      let s = run {K = K} empty xs in
      let busy = works_on-active k s i active at_work is_key in
      ground (
        arith,
        holds-append r (request_ids k s s.entries) s.cancelled,
        holds-request_ids k s i active r s.entries at_work is_key
            (λ j there at_it. run_from_empty-IsUnique xs k j i (ground arith) (ground arith)),
      )
