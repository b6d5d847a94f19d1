-- ===== src/Tests/Bridge.antt =====
-- The bridge's theorems on small inputs.
use norves_editor.Common.{
  ℕ, ◌+◌, ◌/◌, ◌≤◌, min, ◌≡◌, refl, ◌↔◌, true, false, ◌&&◌, String, Option, none, some, List, [],
  ◌∷◌, arith, any, if◌then◌else◌, ◌==◌, string_eq, nat_eq, option_eq,
}
use norves_editor.Common.Dict
use norves_editor.Bridge.Envelope.{
  Violation, structural_violation, json, Checked, Envelope, ResponsePayload, ValidatedEnvelope,
  validate, try_from, flatten,
}
use norves_editor.Bridge.Envelope.Structure.{Conforms, validate_iff, try_from_iff, try_from-error}
use norves_editor.Bridge.Correlation.{observe}
use norves_editor.Bridge.Correlation.Order.{
  is_regressed, observe_all, reaches, observe_regresses_iff,
}
use norves_editor.Bridge.Dispatcher.{
  TaskState, spawned, Input, send_request, cancel, frame, stop, run, on_cancel,
}
use norves_editor.Bridge.Dispatcher.Accounts.{sent_to, issued_in}
use norves_editor.Bridge.Dispatcher.Answers.{dropped_in, run_answers_every_request, on_cancel-get}
use norves_editor.Bridge.Reconnect.{RetryConfig, next_backoff, Dialed, refused, connect_with_retry}
use norves_editor.Bridge.Reconnect.Budget.{
  IsReturned, Advances, next_backoff-bounds, connect_with_retry-IsReturned,
}

-- A request under an id, and an answer to it.
abbrev play : ValidatedEnvelope String String
play = ValidatedEnvelope.request "0.1" "a" "runtime.play" none none none

abbrev played : ValidatedEnvelope String String
played = ValidatedEnvelope.response "0.1" "a" (ResponsePayload.result "done") none none

-- An event that carries an id.
abbrev odd_event : Envelope String String
odd_event = record (flatten (ValidatedEnvelope.event "0.1" "log.message" none none none)) {
  id = some "a";
}

validate_iff_example :
    (validate (flatten play) ≡ Checked.ok tt) ↔ Conforms (flatten play) (flatten play).kind
validate_iff_example = validate_iff (flatten play)

try_from_iff_example :
    (try_from (flatten played) ≡ Checked.ok played) ↔ (flatten played ≡ flatten played)
try_from_iff_example = try_from_iff (flatten played) played

odd_event_refused :
    try_from odd_event ≡ Checked.err (structural_violation Violation.event_carries_id)
unfolding try_from flatten
odd_event_refused = refl

try_from-error_example :
    validate odd_event ≡ Checked.err (structural_violation Violation.event_carries_id)
try_from-error_example =
    try_from-error odd_event (structural_violation Violation.event_carries_id) odd_event_refused

-- Five events, one without a number.
abbrev numbers : List (Option ℕ)
numbers = some 1 ∷ some 2 ∷ none ∷ some 7 ∷ some 5 ∷ []

observe_regresses_iff_example :
    is_regressed (observe (observe_all none numbers) (some 6)).0 ≡ any (reaches 6) numbers
observe_regresses_iff_example =
    observe_regresses_iff numbers 6
      (omega arith, (omega arith, (tt, (omega arith, (omega arith, tt)))))

abbrev encode_any : Envelope String String → Checked String
encode_any e = Checked.ok "request"

abbrev decode_text : String → Checked (Envelope String String)
decode_text text = if text == "response" then Checked.ok (flatten played) else Checked.err json

-- Two requests under one id, the answer to the second, a stale cancellation, and the end.
abbrev inputs : List (Input String String)
inputs =
    send_request true "a" 0 (flatten play) 10
    ∷ send_request true "a" 1 (flatten play) 11
    ∷ cancel "a" 0
    ∷ frame "response"
    ∷ stop
    ∷ []

inputs_stop : (run encode_any decode_text spawned inputs).1 ≡ true
unfolding run
inputs_stop = refl

run_answers_every_request_example :
    sent_to 11 (run encode_any decode_text spawned inputs).0.answers
      + dropped_in encode_any decode_text 11 spawned inputs
    ≡ issued_in 11 inputs
run_answers_every_request_example =
    run_answers_every_request encode_any decode_text 11 inputs inputs_stop

abbrev one_waiting : TaskState String String
one_waiting = record spawned { pending = ("a", record { token = 1; responder = 11 }) ∷ [] }

abbrev reused : String
reused = "a"

on_cancel-get_example : Dict.get reused (on_cancel one_waiting reused 0).pending ≡ (
    if reused == reused
      && elim (Dict.get reused one_waiting.pending) [ none ↦ false | some w ↦ w.token == 0 ]
    then none
    else Dict.get reused one_waiting.pending)
on_cancel-get_example = on_cancel-get one_waiting reused 0 reused

next_backoff-bounds_example :
    (min 50 1000 ≤ next_backoff 50 1000 true 3)
    × (next_backoff 50 1000 true 3 ≤ min 50 1000 + min 50 1000 / 4)
next_backoff-bounds_example = next_backoff-bounds 50 1000 true 3 (omega arith)

-- An engine that never answers, tried with sleeps of one unit until a budget of three is spent.
abbrev patient : RetryConfig
patient = record { initial_backoff = 1; max_backoff = 1; max_elapsed = 3; jitter = false }

abbrev never_there : ℕ → Dialed ℕ String
never_there attempt = refused "refused"

abbrev ticking : ℕ → ℕ
ticking attempt = attempt

ticking-Advances : Advances patient never_there ticking 3
unfolding next_backoff
ticking-Advances n = omega arith

connect_with_retry-IsReturned_example :
    IsReturned (connect_with_retry patient never_there ticking 0 4)
connect_with_retry-IsReturned_example =
    connect_with_retry-IsReturned patient never_there ticking 0 3 (omega arith) (omega arith)
      ticking-Advances (omega arith)
