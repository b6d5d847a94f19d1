-- ===== src/Mcp/Connections/Keys.antt =====
-- No two registered connections work on requests of the same key.
use norves_editor.Common.{
  ℕ, ◌≡◌, ◌∙◌, ◌⊎◌, inl, inr, sym, subst, Bool, true, false, ◌&&◌, Option, none, some, List, [],
  ◌∷◌, arith, any, if◌then◌else◌, ◌==◌, Eq, string_eq, nat_eq, nat_beq_iff, option_eq,
  option_beq_iff, Bool-cases, Option-cases,
}
use norves_editor.Common.Dict
use norves_editor.Common.Dict.{Dict, get-insert, get-remove}
use norves_editor.Mcp.Permits.{McpRequestLease}
use norves_editor.Mcp.Connections.{
  RequestKey, key_eq, ActiveHttpRequest, Server, empty, set_active, active_of, retain_active,
  finish_request, cancel_active_request, insert, get, remove, close, free, works_on, is_taken,
  retain_request, cancel_request, Event, happen, run,
}

any-remove :
    (test : ℕ → Bool) (r : ℕ) (m : Dict ℕ ℕ)
    → any (λ entry. test entry.1) (Dict.remove r m) ≡ true
    → any (λ entry. test entry.1) m ≡ true
unfolding any Dict.remove
any-remove test r [] h = h
any-remove test r ((a, c) ∷ m) h = ground (arith, any-remove test r m)

module _ {K : Type 0} where
  abbrev pub is_registered : Server K → ℕ → Bool
  is_registered s i = any (λ entry. entry.1 == i) s.entries

  active_of-set_active :
      (i c : ℕ) (active : Option (ActiveHttpRequest K)) (s : Server K)
      → active_of i (set_active c active s) ≡ (
          if c == i
          then elim (Dict.get c s.connections) [ none ↦ none | some state ↦ active ]
          else active_of i s)
  active_of-set_active i c active s = elim (Option-cases (Dict.get c s.connections)) [
    | inl gone ↦ elim (Bool-cases (c == i)) [
      | inl same ↦ ground (arith, nat_beq_iff c i)
      | inr other ↦ ground arith
    ]
    | inr (state, there) ↦
        ground (arith, get-insert i c (record state { active_request = active }) s.connections)
  ]

module _ {K : Type 0} ⦃e : Eq K⦄ where
  abbrev pub is_busy : RequestKey K → Server K → ℕ → Bool
  is_busy key s i = is_registered s i && works_on key s i

  abbrev pub IsUnique : Server K → Type 0
  IsUnique s =
      (key : RequestKey K) (i j : ℕ) → is_busy key s i ≡ true → is_busy key s j ≡ true → i ≡ j

  IsUnique-fewer :
      (s s' : Server K)
      → ((key : RequestKey K) (i : ℕ) → is_busy key s' i ≡ true → is_busy key s i ≡ true)
      → IsUnique s
      → IsUnique s'
  IsUnique-fewer s s' fewer h key i j a b = h key i j (fewer key i a) (fewer key j b)

  idle-set_active :
      (c : ℕ) (s : Server K) (key : RequestKey K) (i : ℕ)
      → works_on key (set_active c none s) i ≡ true
      → works_on key s i ≡ true
  idle-set_active c s key i h = elim (Bool-cases (c == i)) [
    | inl same ↦ ground (arith, active_of-set_active i c none s)
    | inr other ↦ ground (arith, active_of-set_active i c none s)
  ]

  is_busy-is_taken :
      (key : RequestKey K) (s : Server K) (i : ℕ) (m : Dict ℕ ℕ)
      → any (λ entry. entry.1 == i) m ≡ true
      → works_on key s i ≡ true
      → any (λ entry. works_on key s entry.1) m ≡ true
  unfolding any
  is_busy-is_taken key s i [] h w = h
  is_busy-is_taken key s i ((a, c) ∷ m) h w = elim (Bool-cases (c == i)) [
    | inl same ↦
        let here : works_on key s c ≡ true =
          subst (λ n. works_on key s n ≡ true) (sym ((nat_beq_iff c i).0 same)) w in
        ground arith
    | inr other ↦ ground (arith, is_busy-is_taken key s i m)
  ]

  insert-IsUnique : (remote c : ℕ) (s : Server K) → IsUnique s → IsUnique (insert remote c s)
  unfolding insert Dict.insert any
  insert-IsUnique remote c s = IsUnique-fewer s (insert remote c s) (λ key i h. ground (
    arith,
    nat_beq_iff c i,
    any-remove (λ n. n == i) remote s.entries,
    get-insert i c (record { active_request = none }) s.connections,
  ))

  finish_request-IsUnique :
      (c request_id : ℕ) (s : Server K) → IsUnique s → IsUnique (finish_request c request_id s)
  unfolding finish_request
  finish_request-IsUnique c request_id s =
      IsUnique-fewer s (finish_request c request_id s)
        (λ key i h. ground (arith, idle-set_active c s key i))

  get-IsUnique : (remote : ℕ) (s : Server K) → IsUnique s → IsUnique (get remote s).1
  unfolding get
  get-IsUnique remote s =
      IsUnique-fewer s (get remote s).1
        (λ key i h. ground (arith, any-remove (λ n. n == i) remote s.entries))

  cancel_active_request-IsUnique :
      (c : ℕ) (s : Server K) → IsUnique s → IsUnique (cancel_active_request c s)
  unfolding cancel_active_request
  cancel_active_request-IsUnique c s =
      IsUnique-fewer s (cancel_active_request c s)
        (λ key i h. ground (arith, idle-set_active c s key i))

  remove-IsUnique : (remote c : ℕ) (s : Server K) → IsUnique s → IsUnique (remove remote c s)
  unfolding remove
  remove-IsUnique remote c s =
      IsUnique-fewer s (remove remote c s)
        (λ key i h. ground (arith, any-remove (λ n. n == i) remote s.entries))

  free-IsUnique : (c : ℕ) (s : Server K) → IsUnique s → IsUnique (free c s)
  unfolding free
  free-IsUnique c s =
      IsUnique-fewer s (free c s) (λ key i h. ground (arith, get-remove i c s.connections))

  -- Of a request that another connection has not.
  retained-works_on :
      (c : ℕ) (lease : McpRequestLease) (key : Option (RequestKey K)) (s : Server K)
      (k : RequestKey K) (i : ℕ)
      → works_on k (set_active c (some (record { lease = lease; key = key })) s) i ≡ true
      → ((c ≡ i) × (key ≡ some k)) ⊎ (works_on k s i ≡ true)
  retained-works_on c lease key s k i h = elim (Bool-cases (c == i)) [
    | inl same ↦ inl (
      (nat_beq_iff c i).0 same,
      ground (
        arith,
        option_beq_iff key (some k),
        active_of-set_active i c (some (record { lease = lease; key = key })) s,
      ),
    )
    | inr other ↦
        inr
          (ground (arith, active_of-set_active i c (some (record { lease = lease; key = key })) s))
  ]

  retained-IsUnique :
      (c : ℕ) (lease : McpRequestLease) (key : Option (RequestKey K)) (s : Server K)
      → ((k : RequestKey K) → key ≡ some k → is_taken k s ≡ false)
      → IsUnique s
      → IsUnique (set_active c (some (record { lease = lease; key = key })) s)
  retained-IsUnique c lease key s free_ h k i j a b =
      elim (retained-works_on c lease key s k i (ground arith)) [
        | inl (here, is_key) ↦ elim (retained-works_on c lease key s k j (ground arith)) [
          | inl (there, again) ↦ sym here ∙ there
          | inr busy ↦ ground (arith, is_busy-is_taken k s j s.entries, free_ k is_key)
        ]
        | inr busy ↦ elim (retained-works_on c lease key s k j (ground arith)) [
          | inl (there, is_key) ↦ ground (arith, is_busy-is_taken k s i s.entries, free_ k is_key)
          | inr busy' ↦ h k i j (ground arith) (ground arith)
        ]
      ]

  retain_active-IsUnique :
      (c : ℕ) (lease : McpRequestLease) (key : Option (RequestKey K)) (s : Server K)
      → ((k : RequestKey K) → key ≡ some k → is_taken k s ≡ false)
      → IsUnique s
      → IsUnique (retain_active c (record { lease = lease; key = key }) s).1
  unfolding retain_active
  retain_active-IsUnique c lease key s free_ h = elim (Option-cases (active_of c s)) [
    | inl idle ↦ rw (idle, retain_active) (retained-IsUnique c lease key s free_ h)
    | inr (active, at_work) ↦ rw (at_work, retain_active) h
  ]

  retain_request-IsUnique :
      (c : ℕ) (lease : McpRequestLease) (key : Option (RequestKey K)) (s : Server K)
      → IsUnique s
      → IsUnique (retain_request c lease key s).1
  unfolding retain_request
  retain_request-IsUnique c lease none s h =
      retain_active-IsUnique c lease none s (λ k is_key. ground arith) h
  retain_request-IsUnique c lease (some key) s h = elim (Bool-cases (is_taken key s)) [
    | inl taken ↦ rw (taken, retain_request) h
    | inr untaken ↦
        rw (untaken, retain_request)
          (retain_active-IsUnique c lease (some key) s
            (λ k is_key. subst (λ n. is_taken n s ≡ false) (ground arith) untaken) h)
  ]

  happen-IsUnique : (s : Server K) (x : Event K) → IsUnique s → IsUnique (happen s x)
  unfolding happen close cancel_request
  happen-IsUnique s (Event.accepts remote c) h = insert-IsUnique remote c s h
  happen-IsUnique s (Event.retains c lease key) h = retain_request-IsUnique c lease key s h
  happen-IsUnique s (Event.finishes c request_id) h = finish_request-IsUnique c request_id s h
  happen-IsUnique s (Event.cancels key) h = h
  happen-IsUnique s (Event.looks_up remote) h = get-IsUnique remote s h
  happen-IsUnique s (Event.closes remote c) h =
      remove-IsUnique remote c (cancel_active_request c s) (cancel_active_request-IsUnique c s h)
  happen-IsUnique s (Event.frees c) h = free-IsUnique c s h

  run-IsUnique : (s : Server K) (xs : List (Event K)) → IsUnique s → IsUnique (run s xs)
  unfolding run
  run-IsUnique s [] h = h
  run-IsUnique s (x ∷ xs) h = run-IsUnique (happen s x) xs (happen-IsUnique s x h)

  -- After whatever events on a server without connections, no two registered connections that are
  -- alive work on requests of the same key.
  pub run_from_empty-IsUnique : (xs : List (Event K)) → IsUnique (run empty xs)
  unfolding any
  run_from_empty-IsUnique xs = run-IsUnique empty xs (λ key i j a b. ground arith)
