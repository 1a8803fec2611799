-- ===== src/Examples/Systems.antt =====
-- A system with two cleanups, two producers and a service with health checks.
use go_o11y.Prelude.{
  ◌≡◌, ◌<◌, refl, sym, ap, ◌∙◌, arith, ℕ, suc, false, Option, none, some, List, [], ◌∷◌, ◌++◌,
}
use go_o11y.Errors.{Err, Result, ok, text}
use go_o11y.Span
use go_o11y.System.{
  System, Cleanup, HealthChecker, MetricProducer, GaugeProducer, new_system, clean_up,
  add_health_check,
}
use go_o11y.System.CleaningUp.{
  Addition, a_service, a_cleanup, add_all, run_latest_first, clean_up-latest_first,
}
use go_o11y.System.Gauges.{metrics_round}
use go_o11y.System.Gauges.Published.{published, made_with, metrics_round-published}
use go_o11y.Otel.Spans.{upd}
use go_o11y.HealthCheck.{HealthLibrary, CheckConfig, Api, load_api, get_health}
use go_o11y.HealthCheck.Registered.{
  Documented, live_checks, ready_checks, any_failed, status_of, load_api-checks,
}

abbrev closing : ℕ → Option Err → Cleanup (List ℕ)
closing n e w = (e, w ++ n ∷ [])

abbrev additions : List (Addition (List ℕ))
additions =
    a_cleanup (closing 1 none) ∷ a_service 7 ∷ a_cleanup (closing 2 (some (text "late"))) ∷ []

-- The second cleanup runs first, and its error does not stop the first.
clean_up_both : clean_up (add_all additions new_system) [] ≡ (text "late" ∷ [], 2 ∷ 1 ∷ [])
unfolding clean_up new_system go_o11y.System.CleaningUp.add go_o11y.System.add_cleanup
    go_o11y.System.add_service
clean_up_both = refl

clean_up-latest_first_example :
    clean_up (add_all additions new_system) [] ≡ run_latest_first additions []
clean_up-latest_first_example = clean_up-latest_first additions []

abbrev connections : MetricProducer
connections = record { metric_name = "tcp-server"; gauges = ("total", 3) ∷ [] }

abbrev pool : GaugeProducer
pool = record {
  gauge_name = "db";
  gauges = ("open", record { val = 2; tags = "rw" ∷ [] } ∷ []) ∷ ("idle", []) ∷ [];
}

metrics_round-published_example :
    metrics_round false (connections ∷ []) (pool ∷ [])
    ≡ made_with false [] (published (connections ∷ []) (pool ∷ []))
metrics_round-published_example = metrics_round-published false (connections ∷ []) (pool ∷ [])

-- A store of the checks of each health.Health, by its number, with the number of the next one.
abbrev Stored : Type 0
Stored = ℕ × (ℕ → List CheckConfig)

abbrev library : HealthLibrary Stored ℕ
library = record {
  new = λ s. (ok s.0, (suc s.0, upd s.0 [] s.1));
  register = λ h c s. (none, (s.0, upd h (s.1 h ++ c ∷ []) s.1));
  measure = λ h s. record { unavailable = any_failed (s.1 h); failures = Span.flag false };
}

ok_inj : {A : Type 0} {a b : A} → Result.ok a ≡ ok b → a ≡ b
ok_inj p = cc

new_parts :
    (s t : Stored) (h : ℕ)
    → library.new s ≡ (ok h, t)
    → (s.0 ≡ h) × (suc s.0 ≡ t.0) × (upd s.0 [] s.1 ≡ t.1)
new_parts s t h e = (ok_inj (ap (λ x. x.0) e), ap (λ x. x.1.0) e, ap (λ x. x.1.1) e)

documented : Documented Stored ℕ library
documented = record {
  checks = λ s h. s.1 h;
  IsMade = λ s h. h < s.0;
  new_made = λ s t h e. let (a, b, c) = new_parts s t h e in omega (arith, a, b);
  new_fresh = λ s t h e k. let (a, b, c) = new_parts s t h e in absurd (omega (arith, a, k));
  new_checks =
      λ s t h e. let (a, b, c) = new_parts s t h e in ap (λ f. f h) (sym c) ∙ ground (arith, a);
  new_others = λ s t h g e k.
      let (a, b, c) = new_parts s t h e in
      (omega (arith, b, k), ap (λ f. f g) (sym c) ∙ ground (arith, k));
  register_checks = λ s t h c e. ap (λ x. x.1.1 h) (sym e) ∙ ground arith;
  register_others = λ s t h g c e n. ap (λ x. x.1.1 g) (sym e) ∙ ground (arith, n);
  measure_unavailable = λ s h. refl;
}

abbrev checker : HealthChecker
checker = record { name = "db"; ready = some (some (text "down")); live = some none }

abbrev sys : System (List ℕ)
unfolding add_health_check new_system
sys = add_health_check checker new_system

abbrev api : Api ℕ
api = record { live = 0; ready = 1 }

abbrev begun : Stored
begun = (0, λ h. [])

abbrev after_load : Stored
unfolding load_api add_health_check new_system
after_load = (load_api library sys begun).1

load_api-checks_example :
    (documented.checks after_load api.live ≡ live_checks sys.health_checks)
    × (documented.checks after_load api.ready ≡ ready_checks sys.health_checks)
    × (status_of (get_health library api "/live" after_load) ≡ some 200)
    × (status_of (get_health library api "/ready" after_load) ≡ some 503)
unfolding load_api add_health_check new_system
load_api-checks_example = load_api-checks library documented sys begun after_load api refl
