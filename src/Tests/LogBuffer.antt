-- ===== src/Tests/LogBuffer.antt =====
-- The log buffer's theorem on a small input.
use norves_editor.Common.{
  String, ◌≡◌, refl, min, ltb, length, ◌++◌, none, some, List, [], ◌∷◌, arith, string_eq, nat_eq,
  option_eq,
}
use norves_editor.LogBuffer.{LogParams, LogSubscriptionStatus, empty}
use norves_editor.LogBuffer.Pages.{LogQuery, read}
use norves_editor.LogBuffer.Pages.Continued.{after, selected, length-read}
use norves_editor.LogBuffer.Pages.Ordered.{pages_lose_nothing}
use norves_editor.Common.Dict
use norves_editor.LogBuffer.Bounds.{IsBounded}
use norves_editor.LogBuffer.Runs.{
  Operation, begins, ends, sets_status, misses, logs, apply, run, run_from_empty-IsBounded,
}

-- Parameters that are one text, read under every key.
abbrev one_text : LogParams String String String
one_text = record { get = λ m key. some m; as_str = λ v. some v; level = λ v. some v }

abbrev day : List (Operation String)
day =
    begins 1
    ∷ sets_status 1 LogSubscriptionStatus.subscribed
    ∷ logs 1 "info" 5
    ∷ misses 1 2
    ∷ ends 1
    ∷ []

run_from_empty-IsBounded_example : IsBounded (run one_text 160 empty day)
run_from_empty-IsBounded_example = run_from_empty-IsBounded one_text 160 day (omega arith)

-- Two records, read one at a time.
abbrev two_logs : List (Operation String)
two_logs = begins 1 ∷ logs 1 "info" 5 ∷ logs 1 "warn" 6 ∷ []

abbrev first_page : LogQuery
first_page = record {
  generation = some 1;
  from_time_ms = none;
  to_time_ms = none;
  after_sequence = none;
  through_sequence = none;
  limit = some 1;
}

pages_lose_nothing_example :
    selected first_page (run one_text 160 empty two_logs).entries
    ≡ (read (run one_text 160 empty two_logs) first_page).entries
      ++ selected (after first_page 1) (run one_text 160 empty two_logs).entries
unfolding run apply read Dict.get Dict.insert
pages_lose_nothing_example = pages_lose_nothing one_text 160 two_logs first_page 1 1 refl refl

length-read_example :
    (length (read (run one_text 160 empty two_logs) first_page).entries
      ≡ min 1 (length (selected first_page (run one_text 160 empty two_logs).entries)))
    × ((read (run one_text 160 empty two_logs) first_page).has_more
        ≡ ltb 1 (length (selected first_page (run one_text 160 empty two_logs).entries)))
length-read_example = length-read (run one_text 160 empty two_logs) first_page
