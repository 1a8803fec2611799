-- ===== src/Worker.antt =====
-- The worker loop (worker/worker.go) and HandlePanic of o11y/o11y.go. Durations are in nanoseconds; a
-- `none` duration is a negative one: backoff.Stop of a policy, or the -1 of doWork.
pub mod Pacing
pub mod Reporting
use Prim.Native.String.{◌++◌ as concat}
use go_o11y.Prelude.{
  ℕ, String, Bool, true, false, Option, none, some, List, [], ◌∷◌, ◌++◌, ◌-◌, ◌/◌, ltb, is_some,
  ◌&&◌, if◌then◌else◌,
}
use go_o11y.Errors.{Err, Var, plain, text, err_is}
use go_o11y.Span
use go_o11y.Span.{
  Span, add_raw_field, add_field, add_field_to_trace, record_metric, start, timing, incr, num,
  end_span,
}

abbrev pub err_should_backoff : Var
err_should_backoff = plain 10

-- The interface backoff.BackOff: Reset goes to the initial state, and NextBackOff gives a duration.
pub record BackOff (B : Type 0) : Type 0 where
  pub initial : B
  pub next : B → Option ℕ × B

pub record Config (B : Type 0) : Type 0 where
  pub name : String
  pub no_work_back_off : BackOff B
  pub max_work_time : ℕ
  pub min_work_time : ℕ
  pub backoff_on_all_errors : Bool

-- How WorkFunc ends: by returning, or by a panic, with its value and the stack as texts.
pub data Work : Type 0 where
  returned : Option Err → Work
  panicked : String → String → Work

-- One round: the time that doWork took, and how WorkFunc ended.
pub record Round : Type 0 where
  pub work : Work
  pub took : ℕ

-- HandlePanic: its error and its calls on the span. The error does not wrap what was recovered.
unfoldable pub handle_panic : String → String → Err × Span
handle_panic p stack = (
  text (concat "panic handled: " p),
  add_raw_field "panic" (Span.text p)
      ∷ add_raw_field "has_panicked" (Span.text "true")
      ∷ add_raw_field "stack" (Span.text stack)
      ∷ record_metric (incr "panics" ("name" ∷ []))
      ∷ [],
)

recovered : Work → Option Err × Span
recovered (returned e) = (e, [])
recovered (panicked p stack) = let (e, calls) = handle_panic p stack in (some e, calls)

-- What the deferred function makes of the error: the duration, the error that is traced, and the
-- state of the policy.
pub record Decision (B : Type 0) : Type 0 where
  pub backoff : Option ℕ
  pub error : Option Err
  pub policy : B

-- Duration.Milliseconds; that of -1 ns is 0.
milliseconds : Option ℕ → ℕ
milliseconds none = 0
milliseconds (some d) = d / 1000000

module _ {B : Type 0} where
  unfoldable pub decide : Config B → Option Err → B → Decision B
  decide cfg e b =
      let (d, b') = cfg.no_work_back_off.next b in
      if err_is e err_should_backoff
      then record { backoff = d; error = none; policy = b' }
      else if cfg.backoff_on_all_errors && is_some e
      then record { backoff = d; error = e; policy = b' }
      else record { backoff = none; error = e; policy = b }

  -- doWork: the decision, and the calls on the span.
  unfoldable pub do_work : Config B → Work → B → Decision B × Span
  unfolding recovered milliseconds decide
  do_work cfg work b =
      let (e, calls) = recovered work in
      let d = decide cfg e b in
      (
        d,
        start (concat "worker loop: " cfg.name) (record { kind = none })
            ∷ add_field_to_trace "loop_name" (Span.text cfg.name)
            ∷ add_raw_field "meta.type" (Span.text "worker_loop")
            ∷ record_metric (timing "worker_loop" ("loop_name" ∷ "result" ∷ []))
            ∷ (calls ++ (add_field "backoff_ms" (num (milliseconds d.backoff)) ∷ end_span d.error)),
      )

  -- The body of the loop of Run: what is waited, `none` for `continue`, and the policy.
  unfoldable pub step : Config B → Round → B → Option ℕ × B
  unfolding do_work
  step cfg r b =
      let d = (do_work cfg r.work b).0 in
      elim d.backoff [
        | some wait ↦ (some wait, d.policy)
        | none ↦
            let reset = cfg.no_work_back_off.initial in
            if ltb cfg.min_work_time r.took
            then (none, reset)
            else (some (cfg.min_work_time - r.took), reset)
      ]

  -- Run, over the rounds that are begun before the context is done.
  unfoldable pub run_from : Config B → List Round → B → List (Option ℕ) × B
  unfolding step
  run_from cfg [] b = ([], b)
  run_from cfg (r ∷ rs) b =
      let (w, b') = step cfg r b in let (ws, b'') = run_from cfg rs b' in (w ∷ ws, b'')

  unfoldable pub run : Config B → List Round → List (Option ℕ) × B
  unfolding run_from
  run cfg rs = run_from cfg rs cfg.no_work_back_off.initial
