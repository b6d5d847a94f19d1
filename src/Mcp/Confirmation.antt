-- ===== src/Mcp/Confirmation.antt =====
-- `McpConfirmationBroker` of apps/editor/src-tauri/src/mcp/confirmation.rs as a machine on the calls
-- of the server, the user and the timers. A call of `request` and its channel are one number.
pub mod Published
pub mod Decisions
use norves_editor.Common.{
  ℕ, ◌≡◌, Bool, true, false, not, ◌&&◌, ◌||◌, String, Option, none, some, List, [], ◌∷◌, map, arith,
  length, if◌then◌else◌, ltb, leb, string_eq, nat_eq,
}
use norves_editor.Common.Dict
use norves_editor.Common.Dict.{Dict}

pub data ConfirmationResult : Type 0 where
  approved rejected timed_out cancelled generation_changed unavailable : ConfirmationResult

-- `McpConfirmationRequestDto` of dto.rs; `D` is the type of what only the screen reads.
pub record Request (D : Type 0) : Type 0 where
  pub id : String
  pub expires_at : ℕ
  pub details : D

pub record PendingConfirmation (D : Type 0) : Type 0 where
  pub request : Request D
  pub decision : ℕ
  pub auth_revision : ℕ

-- `McpRequestLease`, as `request` reads it at its start.
pub record Lease : Type 0 where
  pub confirmation_deadline : Option ℕ
  pub is_current : Bool
  pub revision : ℕ

-- What a waiting call finds when it is polled.
pub record Signals : Type 0 where
  pub authorization_cancelled : Bool
  pub request_cancelled : Bool
  pub past_deadline : Bool
  pub generation_changed : Bool

abbrev pub of_decision : Option Bool → ConfirmationResult
of_decision (some true) = ConfirmationResult.approved
of_decision (some false) = ConfirmationResult.rejected
of_decision none = ConfirmationResult.cancelled

abbrev pub of_channel : Option (Option Bool) → Option ConfirmationResult
of_channel none = none
of_channel (some d) = some (of_decision d)

-- The branch of the `select!` that is ready first, in the order in which they stand.
unfoldable pub select : Signals → Option (Option Bool) → Option ConfirmationResult
select s channel =
    if s.authorization_cancelled
    then some ConfirmationResult.cancelled
    else if s.request_cancelled
    then some ConfirmationResult.cancelled
    else if s.past_deadline
    then some ConfirmationResult.timed_out
    else if s.generation_changed
    then some ConfirmationResult.generation_changed
    else of_channel channel

-- `requests` and the last of `updates`; beside them the calls that wait, under their identifier,
-- the channels that were decided or whose sender was dropped (`none`), and what the calls returned.
pub record Broker (D : Type 0) : Type 0 where
  pub requests : Dict String (PendingConfirmation D)
  pub updates : List (Request D)
  pub waiting : Dict ℕ String
  pub decisions : Dict ℕ (Option Bool)
  pub results : List (ℕ × ConfirmationResult)

abbrev pub max_pending_confirmations : ℕ
max_pending_confirmations = 16

module _ {D : Type 0} where
  abbrev pub default : Broker D
  default = record { requests = []; updates = []; waiting = []; decisions = []; results = [] }

  -- `sort_by_key`, stable.
  unfoldable pub insert_by_expiry : Request D → List (Request D) → List (Request D)
  insert_by_expiry r [] = r ∷ []
  insert_by_expiry r (q ∷ qs) =
      let rest = insert_by_expiry r qs in
      if leb r.expires_at q.expires_at then r ∷ q ∷ qs else q ∷ rest

  unfoldable pub sort_by_expiry : List (Request D) → List (Request D)
  unfolding insert_by_expiry
  sort_by_expiry [] = []
  sort_by_expiry (r ∷ rs) = insert_by_expiry r (sort_by_expiry rs)

  -- `requests.values().map(|entry| entry.request.clone())`
  abbrev pub pending : Dict String (PendingConfirmation D) → List (Request D)
  pending [] = []
  pending ((id, p) ∷ m) = p.request ∷ pending m

  unfoldable pub publish_locked : Broker D → Broker D
  unfolding sort_by_expiry
  publish_locked s = record s { updates = sort_by_expiry (pending s.requests) }

  -- A sender that is dropped closes its channel.
  abbrev pub drop_sender : Option (PendingConfirmation D) → Broker D → Broker D
  drop_sender none s = s
  drop_sender (some p) s = record s { decisions = Dict.insert p.decision none s.decisions }

  unfoldable pub remove : String → Broker D → Broker D
  unfolding publish_locked
  remove id s = elim (Dict.get id s.requests) [
    | none ↦ s
    | some p ↦
        drop_sender (some p) (publish_locked (record s { requests = Dict.remove id s.requests }))
  ]

  -- Whether the receiver of a channel still waits.
  abbrev pub is_waiting : ℕ → Broker D → Bool
  is_waiting c s = elim (Dict.get c s.waiting) [ none ↦ false | some id ↦ true ]

  unfoldable pub decide : String → Bool → Broker D → Bool × Broker D
  unfolding publish_locked
  decide id verdict s = elim (Dict.get id s.requests) [
    | none ↦ (false, s)
    | some p ↦
        let taken = publish_locked (record s { requests = Dict.remove id s.requests }) in
        (
          is_waiting p.decision s,
          record taken { decisions = Dict.insert p.decision (some verdict) s.decisions },
        )
  ]

  abbrev pub approve : String → Broker D → Bool × Broker D
  approve id s = decide id true s

  abbrev pub reject : String → Broker D → Bool × Broker D
  reject id s = decide id false s

  -- `requests.retain(|_, pending| pending.auth_revision >= revision)`
  unfoldable pub newer :
      ℕ → Dict String (PendingConfirmation D) → Dict String (PendingConfirmation D)
  newer revision [] = []
  newer revision ((id, p) ∷ m) =
      if leb revision p.auth_revision then (id, p) ∷ newer revision m else newer revision m

  unfoldable pub drop_older :
      ℕ → Dict String (PendingConfirmation D) → Dict ℕ (Option Bool) → Dict ℕ (Option Bool)
  drop_older revision [] decisions = decisions
  drop_older revision ((id, p) ∷ m) decisions =
      let rest = drop_older revision m decisions in
      if leb revision p.auth_revision then rest else Dict.insert p.decision none rest

  unfoldable pub cancel_before_revision : ℕ → Broker D → Broker D
  unfolding publish_locked newer drop_older
  cancel_before_revision revision s = publish_locked (record s {
    requests = newer revision s.requests;
    decisions = drop_older revision s.requests s.decisions;
  })

  abbrev pub return : ℕ → ConfirmationResult → Broker D → Broker D
  return c r s = record s { results = (c, r) ∷ s.results }

  abbrev pub entry_of : ℕ → Request D → String → ℕ → PendingConfirmation D
  entry_of c request id revision = record {
    request = record request { id = id };
    decision = c;
    auth_revision = revision;
  }

  -- `requests.insert` in `request`, and its notice.
  unfoldable pub register : ℕ → Request D → String → ℕ → Broker D → Broker D
  unfolding publish_locked
  register c request id revision s =
      let open_ = drop_sender (Dict.get id s.requests) s in
      publish_locked (record open_ {
        requests = Dict.insert id (entry_of c request id revision) s.requests;
        waiting = Dict.insert c id s.waiting;
      })

  -- `request` up to its `select!`. The registration that a full broker refuses removes its
  -- identifier when it is dropped.
  unfoldable pub begin : ℕ → Request D → Lease → Option String → Broker D → Broker D
  unfolding register remove
  begin c request lease fresh s = elim lease.confirmation_deadline [
    | none ↦ return c ConfirmationResult.timed_out s
    | some deadline ↦
        if not lease.is_current then return c ConfirmationResult.cancelled s else elim fresh [
          | none ↦ return c ConfirmationResult.unavailable s
          | some id ↦
              if leb max_pending_confirmations (length s.requests)
              then return c ConfirmationResult.unavailable (remove id s)
              else register c request id lease.revision s
        ]
  ]

  -- The call ends, and its registration is dropped.
  unfoldable pub leave : ℕ → String → Broker D → Broker D
  unfolding remove
  leave c id s = let gone = remove id s in record gone { waiting = Dict.remove c gone.waiting }

  -- A waiting call is polled.
  unfoldable pub poll : ℕ → Signals → Broker D → Broker D
  unfolding select leave
  poll c signals s = elim (Dict.get c s.waiting) [
    | none ↦ s
    | some id ↦ elim (select signals (Dict.get c s.decisions)) [
      | none ↦ s
      | some r ↦ return c r (leave c id s)
    ]
  ]

  -- The future of a waiting call is dropped.
  unfoldable pub abandon : ℕ → Broker D → Broker D
  unfolding leave
  abandon c s = elim (Dict.get c s.waiting) [ none ↦ s | some id ↦ leave c id s ]

pub data Input (D : Type 0) : Type 0 where
  begins : (call : ℕ) → Request D → Lease → (fresh : Option String) → Input D
  polls : (call : ℕ) → Signals → Input D
  abandons : (call : ℕ) → Input D
  decides : (id : String) → (verdict : Bool) → Input D
  cancels_before : (revision : ℕ) → Input D

module _ {D : Type 0} where
  unfoldable pub step : Input D → Broker D → Broker D
  unfolding begin poll abandon decide cancel_before_revision
  step (begins c request lease fresh) s = begin c request lease fresh s
  step (polls c signals) s = poll c signals s
  step (abandons c) s = abandon c s
  step (decides id verdict) s = (decide id verdict s).1
  step (cancels_before revision) s = cancel_before_revision revision s

  unfoldable pub run : Broker D → List (Input D) → Broker D
  unfolding step
  run s [] = s
  run s (i ∷ is) = run (step i s) is
