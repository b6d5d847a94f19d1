-- ===== src/Mcp/Connections.antt =====
-- `ConnectionRegistry` and `ConnectionState` of apps/editor/src-tauri/src/mcp.rs: which connection
-- works on which request, and the cancellation of a request by its key.
pub mod Keys
pub mod Cancellation
use norves_editor.Common.{
  ℕ, ◌≡◌, ◌↔◌, refl, Bool, true, false, not, ◌&&◌, ◌||◌, String, Option, none, some, List, [], ◌∷◌,
  ◌++◌, arith, any, if◌then◌else◌, ◌==◌, Eq, string_eq, nat_eq, option_eq, option_beq_iff,
}
use norves_editor.Common.Dict
use norves_editor.Common.Dict.{Dict}
use norves_editor.Mcp.Permits.{McpRequestLease, holds}

-- `RequestKey` of mcp/request_lifetime.rs; `K` is the type of JSON-RPC identifiers.
pub record RequestKey (K : Type 0) : Type 0 where
  pub session : Option String
  pub id : K

module _ {K : Type 0} ⦃e : Eq K⦄ where
  abbrev pub key_beq : RequestKey K → RequestKey K → Bool
  key_beq a b = a.session == b.session && a.id == b.id

  pub key_beq_iff : (a b : RequestKey K) → (key_beq a b ≡ true) ↔ (a ≡ b)
  key_beq_iff a b = ground (arith, option_beq_iff a.session b.session, e.equal_iff a.id b.id)

instance abbrev pub key_eq : {K : Type 0} ⦃e : Eq K⦄ → Eq (RequestKey K)
key_eq = record { equal = key_beq; equal_iff = key_beq_iff }

pub record ActiveHttpRequest (K : Type 0) : Type 0 where
  pub lease : McpRequestLease
  pub key : Option (RequestKey K)

-- `ConnectionState`, without the permits, the deadline and the mark of a HEAD request.
pub record ConnectionState (K : Type 0) : Type 0 where
  pub active_request : Option (ActiveHttpRequest K)

-- The registry, with the connections that are still alive, by their numbers, and the requests
-- cancelled. An entry is an address and the weak reference to a connection.
pub record Server (K : Type 0) : Type 0 where
  pub entries : Dict ℕ ℕ
  pub connections : Dict ℕ (ConnectionState K)
  pub cancelled : List ℕ

module _ {K : Type 0} where
  abbrev pub empty : Server K
  empty = record { entries = []; connections = []; cancelled = [] }

  -- A connection's request changes; a connection that is gone has none.
  abbrev pub set_active : ℕ → Option (ActiveHttpRequest K) → Server K → Server K
  set_active c active s = record s {
    connections = elim (Dict.get c s.connections) [
      | none ↦ s.connections
      | some state ↦ Dict.insert c (record state { active_request = active }) s.connections
    ];
  }

  abbrev pub active_of : ℕ → Server K → Option (ActiveHttpRequest K)
  active_of c s = elim (Dict.get c s.connections) [
    | none ↦ none
    | some state ↦ state.active_request
  ]

  -- `ConnectionState::retain_request`
  unfoldable pub retain_active : ℕ → ActiveHttpRequest K → Server K → Bool × Server K
  retain_active c request s = elim (active_of c s) [
    | some active ↦ (false, s)
    | none ↦ (true, set_active c (some request) s)
  ]

  unfoldable pub finish_request : ℕ → ℕ → Server K → Server K
  finish_request c request_id s = elim (active_of c s) [
    | none ↦ s
    | some active ↦ if active.lease.request_id == request_id then set_active c none s else s
  ]

  unfoldable pub cancel_active_request : ℕ → Server K → Server K
  cancel_active_request c s = elim (active_of c s) [
    | none ↦ s
    | some active ↦ record (set_active c none s) {
      cancelled = active.lease.request_id ∷ s.cancelled;
    }
  ]

  -- The accepted connection is registered under its address.
  unfoldable pub insert : ℕ → ℕ → Server K → Server K
  insert remote c s = record s {
    entries = Dict.insert remote c s.entries;
    connections = Dict.insert c (record { active_request = none }) s.connections;
  }

  unfoldable pub get : ℕ → Server K → Option ℕ × Server K
  get remote s =
      let gone : Option ℕ × Server K =
        (none, record s { entries = Dict.remove remote s.entries }) in
      elim (Dict.get remote s.entries) [
        | none ↦ gone
        | some c ↦ elim (Dict.get c s.connections) [ none ↦ gone | some state ↦ (some c, s) ]
      ]

  unfoldable pub remove : ℕ → ℕ → Server K → Server K
  remove remote c s = elim (Dict.get remote s.entries) [
    | none ↦ s
    | some current ↦ elim (Dict.get current s.connections) [
      | none ↦ s
      | some state ↦ if current == c then record s { entries = Dict.remove remote s.entries } else s
    ]
  ]

  -- `ConnectionIo::drop`
  unfoldable pub close : ℕ → ℕ → Server K → Server K
  unfolding cancel_active_request remove
  close remote c s = remove remote c (cancel_active_request c s)

  -- The last strong reference to a connection goes.
  unfoldable pub free : ℕ → Server K → Server K
  free c s = record s { connections = Dict.remove c s.connections }

module _ {K : Type 0} ⦃e : Eq K⦄ where
  -- Whether a connection that is alive works on a request of this key.
  abbrev pub works_on : RequestKey K → Server K → ℕ → Bool
  works_on key s c = elim (active_of c s) [ none ↦ false | some active ↦ active.key == some key ]

  abbrev pub is_taken : RequestKey K → Server K → Bool
  is_taken key s = any (λ entry. works_on key s entry.1) s.entries

  -- `ConnectionRegistry::retain_request`
  unfoldable pub retain_request :
      ℕ → McpRequestLease → Option (RequestKey K) → Server K → Bool × Server K
  unfolding retain_active any
  retain_request c lease key s =
      let retained = retain_active c (record { lease = lease; key = key }) s in
      if elim key [ none ↦ false | some k ↦ is_taken k s ] then (false, s) else retained

  -- The requests of this key, in the order of the entries.
  unfoldable pub request_ids : RequestKey K → Server K → Dict ℕ ℕ → List ℕ
  request_ids key s [] = []
  request_ids key s ((remote, c) ∷ m) =
      let rest = request_ids key s m in
      elim (active_of c s) [
        | none ↦ rest
        | some active ↦ if active.key == some key then active.lease.request_id ∷ rest else rest
      ]

  unfoldable pub cancel_request : RequestKey K → Server K → Server K
  unfolding request_ids
  cancel_request key s = record s { cancelled = request_ids key s s.entries ++ s.cancelled }

pub data Event (K : Type 0) : Type 0 where
  accepts : (remote connection : ℕ) → Event K
  retains : (connection : ℕ) → McpRequestLease → Option (RequestKey K) → Event K
  finishes : (connection request_id : ℕ) → Event K
  cancels : RequestKey K → Event K
  looks_up : (remote : ℕ) → Event K
  closes : (remote connection : ℕ) → Event K
  frees : (connection : ℕ) → Event K

module _ {K : Type 0} ⦃e : Eq K⦄ where
  unfoldable pub happen : Server K → Event K → Server K
  unfolding insert retain_request finish_request cancel_request get close free
  happen s (Event.accepts remote c) = insert remote c s
  happen s (Event.retains c lease key) = (retain_request c lease key s).1
  happen s (Event.finishes c request_id) = finish_request c request_id s
  happen s (Event.cancels key) = cancel_request key s
  happen s (Event.looks_up remote) = (get remote s).1
  happen s (Event.closes remote c) = close remote c s
  happen s (Event.frees c) = free c s

  unfoldable pub run : Server K → List (Event K) → Server K
  unfolding happen
  run s [] = s
  run s (x ∷ xs) = run (happen s x) xs
