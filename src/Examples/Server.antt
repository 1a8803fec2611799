-- ===== src/Examples/Server.antt =====
-- The listener of the server, and the metrics of the client's connections, at concrete inputs.
use go_o11y.Prelude.{◌≡◌, refl, arith, ℕ, String, true, Option, none, some, List, [], ◌∷◌}
use go_o11y.Prelude.Int.{pos, ◌+ℤ◌}
use go_o11y.Prelude.Partial.{◌>>=◌}
use go_o11y.Errors.{Err, ok, text}
use go_o11y.Server.Tracking.{Conn, new_listener, accept, close_conn, gauges}
use go_o11y.Server.Tracking.Counts.{Serving}
use go_o11y.HttpClient.Metrics.{Metrics, GotConnInfo, new_metrics, with_tracer}
use go_o11y.HttpClient.Metrics.{gauges as flight_gauges}
use go_o11y.HttpClient.Metrics.Flight.{Trip, enters, leaves, played, Peak, gauges-played}
use go_o11y.HttpClient.Metrics.Hooks.{get_conn, got_conn, put_idle_conn, on_events}
use go_o11y.HttpClient.Metrics.Pool.{pool_available, total, on_events-pool}

abbrev hostname : String → String
hostname addr = addr

abbrev near : Conn
near = record { id = 1; remote_addr = "near" }

abbrev far : Conn
far = record { id = 2; remote_addr = "far" }

abbrev closes_well : Conn → Option Err
closes_well c = none

abbrev both : Serving
both = record {
  listener = (accept hostname (ok far) (accept hostname (ok near) (new_listener "api")).1).1;
  live = far ∷ near ∷ [];
  total = 2;
}

abbrev one_left : Serving
one_left = record both {
  listener = (close_conn hostname closes_well near both.listener).1;
  live = far ∷ [];
}

abbrev metrics : Metrics
metrics = new_metrics true "api"

-- Two requests enter, and one leaves.
abbrev history : List Trip
history = leaves ∷ enters ∷ enters ∷ []

gauges-played_example :
    ((flight_gauges (played true "api" history)).instant ≡ pos 1)
    × ((k : ℕ) × ((flight_gauges (played true "api" history)).max ≡ pos k) × Peak history k)
gauges-played_example =
    gauges-played true "api" history (omega arith, (omega arith, (omega arith, tt)))

abbrev decimal : ℕ → String
decimal n = "1"

abbrev reused : GotConnInfo
reused = record { reused = true; was_idle = true; idle_time = 5000000 }

on_events-pool_example :
    (on_events decimal
        (get_conn "api:80" 1
          ∷ got_conn reused 2
          ∷ put_idle_conn none
          ∷ put_idle_conn (some (text "full"))
          ∷ [])
        (with_tracer metrics "ping")
      >>= pool_available)
    ≡ some (
        metrics.pool_available
        +ℤ total (got_conn reused 2 ∷ put_idle_conn none ∷ put_idle_conn (some (text "full")) ∷ []))
unfolding new_metrics
on_events-pool_example =
    on_events-pool decimal metrics "ping" "api:80" 1
      (got_conn reused 2 ∷ put_idle_conn none ∷ put_idle_conn (some (text "full")) ∷ []) refl
