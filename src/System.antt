-- ===== src/System.antt =====
-- A system of services, with its health checks, producers of metrics and cleanups (system/system.go).
-- `W` is the state that cleanups act on.
pub mod CleaningUp
pub mod Gauges
use go_o11y.Prelude.{
  ℕ, zero, suc, String, Bool, ◌||◌, Option, none, some, List, [], ◌∷◌, ◌++◌, length, ltb,
  if◌then◌else◌,
}
use go_o11y.Errors.{Err}
use go_o11y.Span.{Span, start, record_metric, timing, end_span}

-- A check of a context that is done or not is its answer at one time.
pub record HealthChecker : Type 0 where
  pub name : String
  pub ready : Option (Option Err)
  pub live : Option (Option Err)

-- A float64 stands under a number. A map is the list of its entries.
pub record TaggedValue : Type 0 where
  pub val : ℕ
  pub tags : List String

pub record MetricProducer : Type 0 where
  pub metric_name : String
  pub gauges : List (String × ℕ)

pub record GaugeProducer : Type 0 where
  pub gauge_name : String
  pub gauges : List (String × List TaggedValue)

abbrev pub Cleanup : Type 0 → Type 0
Cleanup W = W → Option Err × W

-- `services` are the services by numbers.
pub record System (W : Type 0) : Type 0 where
  pub services : List ℕ
  pub health_checks : List HealthChecker
  pub gauge_producers : List GaugeProducer
  pub metric_producers : List MetricProducer
  pub cleanups : List (Cleanup W)

-- The functions that Run gives to the errgroup.
pub data Task : Type 0 where
  termination : Task
  service : ℕ → Task
  metrics_reporter : Task

abbrev get_elem? {ℓ} : {A : Type ℓ} → List A → ℕ → Option A
get_elem? [] n = none
get_elem? (x ∷ xs) zero = some x
get_elem? (x ∷ xs) (suc n) = get_elem? xs n

abbrev started : List ℕ → List Task
started [] = []
started (f ∷ fs) = service f ∷ started fs

module _ {W : Type 0} where
  unfoldable pub new_system : System W
  new_system = record {
    services = [];
    health_checks = [];
    gauge_producers = [];
    metric_producers = [];
    cleanups = [];
  }

  unfoldable pub add_service : ℕ → System W → System W
  add_service f r = record r { services = r.services ++ f ∷ [] }

  unfoldable pub add_health_check : HealthChecker → System W → System W
  add_health_check h r = record r { health_checks = r.health_checks ++ h ∷ [] }

  unfoldable pub add_metrics : MetricProducer → System W → System W
  add_metrics m r = record r { metric_producers = r.metric_producers ++ m ∷ [] }

  unfoldable pub add_gauges : GaugeProducer → System W → System W
  add_gauges g r = record r { gauge_producers = r.gauge_producers ++ g ∷ [] }

  unfoldable pub add_cleanup : Cleanup W → System W → System W
  add_cleanup c r = record r { cleanups = r.cleanups ++ c ∷ [] }

  -- HealthChecks
  unfoldable pub health_checks_of : System W → List HealthChecker
  health_checks_of r = r.health_checks

  unfoldable pub tasks : System W → List Task
  tasks r =
      termination ∷ started r.services
      ++ (if ltb 0 (length r.metric_producers) || ltb 0 (length r.gauge_producers)
          then metrics_reporter ∷ []
          else [])

  -- Run: its error, and its span. `wait` is Wait of the errgroup of these functions.
  unfoldable pub run : (List Task → Option Err) → System W → Option Err × Span
  unfolding tasks
  run wait r =
      let e = wait (tasks r) in
      (
        e,
        start "system: run" (record { kind = none })
            ∷ record_metric (timing "system.run" ("result" ∷ []))
            ∷ end_span e,
      )

  -- One cleanup: its error is logged.
  unfoldable pub clean_one : Option (Cleanup W) → List Err × W → List Err × W
  clean_one none s = s
  clean_one (some c) (logged, w) =
      let (e, w') = c w in elim e [ none ↦ (logged, w') | some f ↦ (logged ++ f ∷ [], w') ]

  -- The loop of Cleanup with `n` cleanups to go, of which the next has the index n - 1.
  unfoldable pub clean_from : ℕ → List (Cleanup W) → List Err × W → List Err × W
  unfolding clean_one
  clean_from zero cs s = s
  clean_from (suc n) cs s = clean_from n cs (clean_one (get_elem? cs n) s)

  -- Cleanup
  unfoldable pub clean_up : System W → W → List Err × W
  unfolding clean_from
  clean_up r w = clean_from (length r.cleanups) r.cleanups ([], w)
