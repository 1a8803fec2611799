-- ===== src/HealthCheck.antt =====
-- The admin API of health checks (httpserver/healthcheck/healthcheck.go and system.go beside it). The
-- library health-go is a parameter: `H` stands for pointers to its health.Health, and `S` for the
-- store that they point into.
pub mod Registered
use go_o11y.Prelude.{
  ℕ, String, Bool, false, Option, none, some, List, [], ◌∷◌, str_eq, if◌then◌else◌,
}
use go_o11y.Errors.{Err, Result, ok, err, text, wrap}
use go_o11y.Span.{Span, Value, add_field}
use go_o11y.System.{System, HealthChecker, health_checks_of}

-- health.Config: a check is its answer at one time.
pub record CheckConfig : Type 0 where
  pub name : String
  pub timeout : ℕ
  pub skip_on_err : Bool
  pub check : Option Err

-- What Measure gives: its status is StatusUnavailable or another, and the failures as a value of a
-- span.
pub record Check : Type 0 where
  pub unavailable : Bool
  pub failures : Value

pub record HealthLibrary (S H : Type 0) : Type 0 where
  pub new : S → Result H × S
  pub register : H → CheckConfig → S → Option Err × S
  pub measure : H → S → Check

-- What a path of pprof is served with.
pub data Profile : Type 0 where
  cmdline profile symbol trace index : Profile

-- handlePprof
unfoldable pub handle_pprof : String → Profile
handle_pprof prof =
    if str_eq prof "/cmdline"
    then cmdline
    else if str_eq prof "/profile"
    then profile
    else if str_eq prof "/symbol"
    then symbol
    else if str_eq prof "/trace"
    then trace
    else index

-- The handlers of the admin API, for the paths /live and /ready.
pub record Api (H : Type 0) : Type 0 where
  pub live : H
  pub ready : H

module _ {S : Type 0} where
  -- `if err != nil { return err }`
  abbrev pub and_then : Option Err × S → (S → Option Err × S) → Option Err × S
  and_then (none, s) f = f s
  and_then (some e, s) f = (some e, s)

  abbrev pub when_ok : {A B : Type 0} → Result A × S → (A → S → Result B × S) → Result B × S
  when_ok (ok a, s) f = f a s
  when_ok (err e, s) f = (err e, s)

  abbrev pub with_value : {A : Type 0} → A → Option Err × S → Result A × S
  with_value a (none, s) = (ok a, s)
  with_value a (some e, s) = (err e, s)

  abbrev pub on_error : {A : Type 0} → (Err → Err) → Result A × S → Result A × S
  on_error f (ok a, s) = (ok a, s)
  on_error f (err e, s) = (err (f e), s)

module _ {S H : Type 0} (lib : HealthLibrary S H) where
  -- handleHealth: the status of the response, and the calls on the request's span.
  unfoldable pub handle_health : H → S → ℕ × Span
  handle_health h s =
      let check = lib.measure h s in
      if check.unavailable then (503, add_field "failures" check.failures ∷ []) else (200, [])

  -- The routes of the router that are health checks.
  unfoldable pub get_health : Api H → String → S → Option (ℕ × Span)
  unfolding handle_health
  get_health a path s =
      if str_eq path "/live"
      then some (handle_health a.live s)
      else if str_eq path "/ready"
      then some (handle_health a.ready s)
      else none

  -- A check that is not nil is registered.
  unfoldable pub register_one : String → Option (Option Err) → H → S → Option Err × S
  register_one name none h s = (none, s)
  register_one name (some c) h s =
      lib.register h (record { name = name; timeout = 5000000000; skip_on_err = false; check = c })
        s

  -- The loop of newHealthHandlers, over the ready and the live checks.
  unfoldable pub register_each : List HealthChecker → H → H → S → Option Err × S
  unfolding register_one
  register_each [] live ready s = (none, s)
  register_each (c ∷ cs) live ready s =
      and_then (register_one c.name c.ready ready s)
        (λ s1. and_then (register_one c.name c.live live s1) (register_each cs live ready))

  -- newHealthHandlers
  unfoldable pub new_health_handlers : List HealthChecker → S → Result (H × H) × S
  unfolding register_each
  new_health_handlers checked s = when_ok (lib.new s) (λ live s1.
      when_ok (lib.new s1)
        (λ ready s2. with_value (live, ready) (register_each checked live ready s2)))

  api_of : H × H → S → Result (Api H) × S
  api_of (live, ready) s = (ok (record { live = live; ready = ready }), s)

  -- New of package healthcheck
  unfoldable pub new_api : List HealthChecker → S → Result (Api H) × S
  unfolding new_health_handlers api_of
  new_api checked s =
      when_ok (on_error (wrap "failed to create health checks") (new_health_handlers checked s))
        api_of

  -- Load, up to the start of the server.
  unfoldable pub load_api : {W : Type 0} → System W → S → Result (Api H) × S
  unfolding new_api health_checks_of
  load_api sys s =
      on_error (λ e. text "error creating health check API") (new_api (health_checks_of sys) s)
