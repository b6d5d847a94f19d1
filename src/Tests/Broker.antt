-- ===== src/Tests/Broker.antt =====
-- The theorems on confirmations and on the records of operations on small inputs.
use norves_editor.Common.{
  subst, ◌<◌, ◌≡◌, refl, true, false, String, none, some, List, [], ◌∷◌, arith, any, string_eq,
  nat_eq, option_eq,
}
use norves_editor.Common.Dict
use norves_editor.Mcp.Confirmation.{Request, Lease, Signals, Input, default, step, run, decide}
use norves_editor.Mcp.Confirmation.Decisions.{
  is_approved, Warranted, approved-Warranted, decide_again,
}
use norves_editor.Mcp.Confirmation.Published.{IsPublished, run_from_default-IsPublished}
use norves_editor.Mcp.Operations.{
  McpOperationDto, OperationUpdate, Outside, World, Call, new, fresh, known_tool, find_target,
  publish, finish, call,
}
use norves_editor.Mcp.Operations
use norves_editor.Mcp.Operations.Storage.{Files, Faults, AreSmall}
use norves_editor.Mcp.Operations.Kept.{IsSound}
use norves_editor.Mcp.Operations.Records.{run_from_new-IsSound, run_keeps_finished}

abbrev question : Request String
question = record { id = ""; expires_at = 120; details = "delete the door" }

abbrev lease : Lease
lease = record { confirmation_deadline = some 120; is_current = true; revision = 1 }

abbrev quiet : Signals
quiet = record {
  authorization_cancelled = false;
  request_cancelled = false;
  past_deadline = false;
  generation_changed = false;
}

-- A call is asked about, approved, and polled.
abbrev asked : List (Input String)
asked = Input.begins 7 question lease (some "k") ∷ Input.decides "k" true ∷ Input.polls 7 quiet ∷ []

run_from_default-IsPublished_example : IsPublished (run default asked)
run_from_default-IsPublished_example = run_from_default-IsPublished asked

approves_seven : any (is_approved 7) (run default asked).results ≡ true
unfolding run Dict.get Dict.insert Dict.remove any
approves_seven = refl

approved-Warranted_example : Warranted asked 7
approved-Warranted_example = approved-Warranted asked 7 approves_seven

decide_again_example :
    (decide "k" false
      (decide "k" true (step (Input.begins 7 question lease (some "k")) default)).1).0
    ≡ false
decide_again_example =
    decide_again "k" true false (step (Input.begins 7 question lease (some "k")) default)

abbrev outside : Outside String
outside = record {
  get = λ v key. none;
  as_str = λ v. some v;
  display = λ n. "1";
  fingerprint = λ value. "00";
}

abbrev files : Files
files = record { current = none; previous = none }

abbrev sound : Faults
sound = record {
  metadata = false;
  remove_previous = false;
  remove_current = false;
  rename = false;
  open_file = false;
  write = none;
}

abbrev applied : OperationUpdate
applied = record {
  result = "success";
  outcome = "applied";
  completed = 1;
  pending = false;
  retry_allowed = false;
  actor_finished = true;
}

abbrev cancelled : OperationUpdate
cancelled = record applied { result = "cancelled"; outcome = "notApplied" }

abbrev late : List (Call String)
late = Call.finishes 1 9 cancelled (some 200, sound) ∷ []

abbrev played : List (Call String)
played = Call.begins 5 "runtime_play" "{}" ∷ Call.finishes 1 6 applied (some 200, sound) ∷ late

small : (f : Files) → some files ≡ some f → AreSmall f
small f e = subst AreSmall (files_are e) (record { current = omega arith; previous = omega arith })
  where
    files_are : {a b : Files} → some a ≡ some b → a ≡ b
    files_are h = ground arith

run_from_new-IsSound_example :
    IsSound (Operations.run outside (fresh (new "s" (some files) false)) played)
run_from_new-IsSound_example = run_from_new-IsSound outside "s" (some files) false played small

-- The world after the actor's end, and what the handle then holds.
abbrev settled : World
settled =
    Operations.run outside (fresh (new "s" (some files) false))
      (Call.begins 5 "runtime_play" "{}" ∷ Call.finishes 1 6 applied (some 200, sound) ∷ [])

abbrev settled_record : McpOperationDto
settled_record = record {
  request_id = "mcp-write-s-1";
  session_id = "s";
  timestamp = 6;
  tool = "runtime_play";
  target = "エンジン";
  summary = "操作が完了しました。";
  result = "success";
  outcome = "applied";
  display_group_id = none;
  completed_count = 1;
  pending = false;
  retry_allowed = false;
  automatic_retry_allowed = false;
  actor_finished = true;
}

settles : (1 < settled.store.next_id) × (Dict.get 1 settled.handles ≡ some settled_record)
unfolding Operations.run new finish publish Dict.get Dict.insert any find_target
settles = (omega arith, refl)

run_keeps_finished_example :
    (r' : McpOperationDto) × (Dict.get 1 (Operations.run outside settled late).handles ≡ some r')
    × (record r' { display_group_id = none } ≡ settled_record)
run_keeps_finished_example =
    run_keeps_finished outside late 1 settled_record settled settles.0 settles.1 refl
