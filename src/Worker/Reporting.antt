-- ===== src/Worker/Reporting.antt =====
-- What a round of the worker reports (worker/worker.go).
use go_o11y.Prelude.{◌≡◌, arith, String, true, false, none, some, [], ◌∷◌, if◌then◌else◌}
use go_o11y.Errors.{is_warning, Err, err_is, dont_error_trace, is}
use go_o11y.Span
use go_o11y.Span.{Span, end_span, Value}
use go_o11y.Span.Results.{raw_values, end_span-result}
use go_o11y.Worker.{Config, returned, panicked, do_work, err_should_backoff, handle_panic}

module _ {B : Type 0} (cfg : Config B) (b : B) where
  -- A round that asks to back off takes the policy's next duration and is traced as a success. Any
  -- other error takes it only if BackoffOnAllErrors is set, and else does not back off and leaves the
  -- policy alone; and it is traced as it is, unless it is not to be traced as an error. A round
  -- without an error does not back off and leaves the policy alone. A panic is an error that does not
  -- ask to back off, and is reported with its value.
  pub do_work-reports :
      (e : Err) (p stack : String)
      → let took = cfg.no_work_back_off.next b in
        let all = cfg.backoff_on_all_errors in
        let asked = do_work cfg (returned (some e)) b in
        (err_is (some e) err_should_backoff ≡ true
          → (raw_values "result" asked.1 ≡ Span.text "success" ∷ [])
            × (asked.0.backoff ≡ took.0)
            × (asked.0.policy ≡ took.1))
        × (err_is (some e) err_should_backoff ≡ false
            → (asked.0.backoff ≡ (if all then took.0 else none))
              × (asked.0.policy ≡ (if all then took.1 else b)))
        × (err_is (some e) err_should_backoff ≡ false
            → dont_error_trace (some e) ≡ false
            → raw_values "error" asked.1 ≡ Value.message e ∷ [])
        × ((do_work cfg (returned none) b).0.backoff ≡ none)
        × ((do_work cfg (returned none) b).0.policy ≡ b)
        × (raw_values "panic" (do_work cfg (panicked p stack) b).1 ≡ Span.text p ∷ [])
        × (raw_values "result" (do_work cfg (panicked p stack) b).1 ≡ Span.text "error" ∷ [])
        × ((do_work cfg (panicked p stack) b).0.backoff ≡ (if all then took.0 else none))
        × ((do_work cfg (panicked p stack) b).0.policy ≡ (if all then took.1 else b))
  unfolding do_work handle_panic end_span err_is is is_warning
  do_work-reports e p stack = (
    λ h. (ground arith, ground arith, ground arith),
    λ h. (ground arith, ground arith),
    λ h k. ground (arith, end_span-result (some e)),
    ground arith,
    ground arith,
    ground arith,
    ground arith,
    ground arith,
    ground arith,
  )
