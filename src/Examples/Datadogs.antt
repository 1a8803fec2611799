-- ===== src/Examples/Datadogs.antt =====
-- A Datadog server that answers every query.
use go_o11y.Prelude.{◌≡◌, refl, ℕ, String, true, none, some, str_eq, if◌then◌else◌}
use go_o11y.Errors.{ok, err, var, Result}
use go_o11y.Datadog.{Env, Client, RateLimit, QueryParams, Reply, query, err_http, load_from_header}
use go_o11y.Datadog.Queries.{Fetched, query-Fetched}

-- The header for the period is the one that differs.
abbrev header : String → String
header k = if str_eq k "X-RateLimit-Period" then "p" else "n"

abbrev server : Env
server = record {
  resolved = λ base path q. base;
  new_request_fault = λ u. none;
  send = λ req. ok (record { status_code = 200; get = header; body = "{}"; closed = none });
  parse_int = λ t. some (if str_eq t "p" then 3600 else 7);
  format_int = λ n. "0";
  encode = λ v. "";
  decode_errors = λ b. err (var err_http);
}

abbrev decode : String → Result (Reply ℕ)
decode b = ok (record { status = "ok"; error = ""; series = 5 })

abbrev client : Client
client = record { api_key = "k"; app_key = ""; base_url = none }

abbrev params : QueryParams
params = record { from = 1; to = 2; query = "q" }

abbrev limits : RateLimit
limits = record { limit = 7; period = 3600000000000; remaining = 7; reset = 7000000000 }

query_succeeds :
    query server decode client params ≡ (record { series = some 5; meta = some limits }, none)
unfolding query load_from_header go_o11y.Closer.error_handler
query_succeeds = refl

query-Fetched_example :
    (v : Reply ℕ) × (meta : RateLimit) × Fetched server decode meta v
    × (str_eq v.status "ok" ≡ true)
    × ((query server decode client params).0 ≡ record { series = some v.series; meta = some meta })
unfolding query load_from_header go_o11y.Closer.error_handler
query-Fetched_example = query-Fetched server decode client params refl
