-- ===== src/Tests/Connections.antt =====
-- The theorems on connections on a small run.
use norves_editor.Common.{
  ℕ, ◌≡◌, refl, ◌||◌, none, some, List, [], ◌∷◌, any, nat_beq, string_eq, nat_eq, option_eq,
}
use norves_editor.Common.Dict
use norves_editor.Mcp.Permits.{McpRequestLease, holds}
use norves_editor.Mcp.Connections.{
  RequestKey, ActiveHttpRequest, key_eq, empty, retain_active, insert, retain_request,
  cancel_request, Event, happen, run,
}
use norves_editor.Mcp.Connections.Keys.{IsUnique, run_from_empty-IsUnique}
use norves_editor.Mcp.Connections.Cancellation.{run_from_empty-cancel_request}

abbrev lease_of : ℕ → McpRequestLease
lease_of n = record { revision = 1; request_id = n; deadline = 125 }

abbrev key : RequestKey ℕ
key = record { session = none; id = 7 }

abbrev active : ActiveHttpRequest ℕ
active = record { lease = lease_of 1; key = some key }

-- Two connections ask for one key; the second one is refused.
abbrev two_connections : List (Event ℕ)
two_connections =
    Event.accepts 8000 1
    ∷ Event.accepts 8001 2
    ∷ Event.retains 1 (lease_of 1) (some key)
    ∷ Event.retains 2 (lease_of 2) (some key)
    ∷ []

run_from_empty-IsUnique_example : IsUnique (run empty two_connections)
run_from_empty-IsUnique_example = run_from_empty-IsUnique two_connections

run_from_empty-cancel_request_example :
    holds 1 (cancel_request key (run empty two_connections)).cancelled
    ≡ (nat_beq 1 1 || holds 1 (run empty two_connections).cancelled)
unfolding run happen insert retain_request retain_active Dict.get Dict.insert Dict.remove any
run_from_empty-cancel_request_example =
    run_from_empty-cancel_request two_connections key 1 active 1 refl refl refl
