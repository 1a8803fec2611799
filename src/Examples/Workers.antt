-- ===== src/Examples/Workers.antt =====
-- The worker's pace and reports, at concrete rounds.
use go_o11y.Prelude.{◌≡◌, refl, ℕ, ◌*◌, true, false, none, some, [], ◌∷◌, if◌then◌else◌}
use go_o11y.Errors.{var, text, err_is, dont_error_trace}
use go_o11y.Span
use go_o11y.Span.Results.{raw_values}
use go_o11y.Worker.{
  BackOff, Config, Round, returned, panicked, do_work, step, run, run_from, err_should_backoff,
}
use go_o11y.Worker.Pacing.{given, run_from-backoff}
use go_o11y.Worker.Reporting.{do_work-reports}

-- A policy that doubles what is waited.
abbrev doubling : BackOff ℕ
doubling = record { initial = 50; next = λ b. (some b, 2 * b) }

abbrev config : Config ℕ
config = record {
  name = "jobs";
  no_work_back_off = doubling;
  max_work_time = 1000;
  min_work_time = 100;
  backoff_on_all_errors = false;
}

abbrev busy : Round
busy = record { work = returned none; took = 30 }

abbrev idle : Round
idle = record { work = returned (some (var err_should_backoff)); took = 1 }

waits :
    (run config (busy ∷ idle ∷ idle ∷ idle ∷ busy ∷ idle ∷ [])).0
    ≡ some 70 ∷ some 50 ∷ some 100 ∷ some 200 ∷ some 70 ∷ some 50 ∷ []
unfolding run err_is
waits = refl

run_from-backoff_example : run_from config (busy ∷ idle ∷ idle ∷ []) 400 ≡ (
  (step config busy 400).0 ∷ (given config (idle ∷ idle ∷ []) 50).0,
  (given config (idle ∷ idle ∷ []) 50).1,
)
unfolding do_work err_is
run_from-backoff_example =
    run_from-backoff config busy (idle ∷ idle ∷ []) 400 refl
      ((var err_should_backoff, refl, refl), ((var err_should_backoff, refl, refl), tt))
      (refl, (refl, tt))

do_work-reports_example :
    let e = text "failed" in
    let took = config.no_work_back_off.next 50 in
    let all = config.backoff_on_all_errors in
    let asked = do_work config (returned (some e)) 50 in
    (err_is (some e) err_should_backoff ≡ true
      → (raw_values "result" asked.1 ≡ Span.text "success" ∷ [])
        × (asked.0.backoff ≡ took.0)
        × (asked.0.policy ≡ took.1))
    × (err_is (some e) err_should_backoff ≡ false
        → (asked.0.backoff ≡ (if all then took.0 else none))
          × (asked.0.policy ≡ (if all then took.1 else 50)))
    × (err_is (some e) err_should_backoff ≡ false
        → dont_error_trace (some e) ≡ false
        → raw_values "error" asked.1 ≡ Span.message e ∷ [])
    × ((do_work config (returned none) 50).0.backoff ≡ none)
    × ((do_work config (returned none) 50).0.policy ≡ 50)
    × (raw_values "panic" (do_work config (panicked "p" "at") 50).1 ≡ Span.text "p" ∷ [])
    × (raw_values "result" (do_work config (panicked "p" "at") 50).1 ≡ Span.text "error" ∷ [])
    × ((do_work config (panicked "p" "at") 50).0.backoff ≡ (if all then took.0 else none))
    × ((do_work config (panicked "p" "at") 50).0.policy ≡ (if all then took.1 else 50))
do_work-reports_example = do_work-reports config 50 (text "failed") "p" "at"
