-- ===== src/Examples/Http.antt =====
-- The HTTP client against a server that answers with one status after another.
use go_o11y.Prelude.{
  ℕ, zero, suc, ◌+◌, ◌*◌, ◌≡◌, refl, arith, true, false, Option, none, some, List, [], ◌∷◌, get,
  put, or_else, ltb, leb, length, ◌&&◌, ◌||◌, ◌==◌, is_some,
}
use go_o11y.Errors.{Err, ok, find}
use go_o11y.HttpClient.Config.{Client, new_client}
use go_o11y.HttpClient.Request.{Request, new_request, with_header, validate}
use go_o11y.HttpClient.Status.{
  extract_http_error, done_retrying, has_status_code, is_request_problem, is_no_content,
}
use go_o11y.HttpClient.World.{Env, World}
use go_o11y.HttpClient.Build.{header_of, json_type}
use go_o11y.HttpClient.Attempt.{should_backoff, set_last429, attempt, ten_seconds}
use go_o11y.HttpClient.Call.{Policies, call}
use go_o11y.HttpClient.Call.Trace.{CallOutcome, call-Run}
use go_o11y.HttpClient.Call.Once.{NothingSent, call-call_429}
use go_o11y.HttpClient.Build.Precedence.{
  header_of-precedence, last_of, auth_value, cookie_value, accept_value, content_value,
}
use go_o11y.HttpClient.Status.Classes.{extract_http_error-class, is_permanent}
use go_o11y.Examples.Retrying.{retrying}

abbrev client : Client
client =
    new_client (λ n. n)
      (record {
        name = "jobs";
        base_url = "http://jobs";
        auth_header = "";
        auth_token = "secret";
        accept_type = "";
        timeout = 0;
        max_connections_per_host = 0;
        user_agent = "";
        transport = none;
        transport_modifier = none;
        tracer = false;
        dial_context = none;
        no_rate_limit_backoff = false;
        disable_w3c_trace_propagation = false;
      })

abbrev request : Request
request = new_request "GET" "/job" (with_header "k" "v" ∷ [])

-- A server that answers the n-th request with the n-th status, and at last with 200.
abbrev pub answer : List ℕ → ℕ → ℕ
answer [] n = 200
answer (c ∷ cs) zero = c
answer (c ∷ cs) (suc n) = answer cs n

abbrev pub serving : List ℕ → Env
serving codes = record {
  canonical = λ k. k;
  parse_url = λ s. ok (record { scheme = "http"; host = "jobs"; path = s; raw_query = "" });
  url_text = λ u. u.path;
  encode = λ q. "";
  new_request_fault = λ m u. none;
  propagated = λ b. [];
  has_metrics = true;
  now = λ n. 2 * ten_seconds + n;
  round_trip = λ sent req. ok (record {
    status_code = answer codes (length sent);
    header = [];
    body = record { content = ""; fault = none };
  });
}

abbrev pub policies : Policies
policies = λ limit. retrying 5

abbrev pub fresh : World
fresh = record {
  readings = 0;
  last429 = 0;
  attempt_counter = 0;
  sent = [];
  statuses = [];
  spans = [];
  timed = [];
  decoded = [];
  headers_seen = [];
}

-- Two failures are retried, and the 200 ends the call.
call_retries :
    let out = call (serving (503 ∷ 500 ∷ [])) policies client request fresh in
    (out.0 ≡ none) × (out.1.statuses ≡ 503 ∷ 500 ∷ 200 ∷ []) × (out.1.attempt_counter ≡ 3)
unfolding call attempt retrying new_client new_request with_header validate extract_http_error
    has_status_code done_retrying find go_o11y.HttpClient.Call.valid_call
    go_o11y.HttpClient.Call.retry_request go_o11y.HttpClient.Build.new_request_fn
    go_o11y.HttpClient.Attempt.send go_o11y.HttpClient.Attempt.on_response
    go_o11y.HttpClient.Attempt.failed_response go_o11y.HttpClient.Attempt.good_response
    go_o11y.HttpClient.Attempt.decode_body go_o11y.HttpClient.Request.get_decoder
call_retries = (refl, refl, refl)

call-Run_example :
    CallOutcome
      (serving (503 ∷ 500 ∷ []))
      policies
      client
      request
      fresh
      (call (serving (503 ∷ 500 ∷ [])) policies client request fresh)
call-Run_example = call-Run (serving (503 ∷ 500 ∷ [])) policies client request fresh

abbrev limited : Env
limited = serving (503 ∷ 429 ∷ [])

-- A call that met a 429 after a 503, and the next one.
call-call_429_example :
    NothingSent
      (call limited policies client request fresh).1
      (call limited policies client request (call limited policies client request fresh).1)
unfolding call attempt retrying new_client new_request with_header validate extract_http_error
    has_status_code done_retrying find go_o11y.HttpClient.Call.valid_call
    go_o11y.HttpClient.Call.retry_request go_o11y.HttpClient.Build.new_request_fn
    go_o11y.HttpClient.Attempt.send go_o11y.HttpClient.Attempt.on_response
    go_o11y.HttpClient.Attempt.failed_response
call-call_429_example =
    call-call_429 limited policies policies client request request fresh (503 ∷ 429 ∷ []) refl refl
      refl (λ n h. omega arith)

-- The first reading of this clock is less than ten seconds after the zero time.
abbrev early : Env
early = record limited { now = λ n. n }

header_of-precedence_example :
    get "User-Agent" (header_of (λ k. k) client request)
    ≡ or_else (content_value (λ k. k) request "User-Agent") (
        or_else (accept_value (λ k. k) client "User-Agent") (
          cookie_value
            (λ k. k)
            request.cookie
            "User-Agent"
            (or_else (last_of (λ k. k) "User-Agent" request.headers) (
              or_else
                (last_of (λ k. k) "User-Agent" client.additional_headers)
                (auth_value (λ k. k) client "User-Agent")))))
header_of-precedence_example = header_of-precedence (λ k. k) client request "User-Agent"

user_agent : get "User-Agent" (header_of (λ k. k) client request) ≡ some "jobs"
unfolding header_of get new_client new_request with_header put
user_agent = refl

extract_http_error-class_example :
    let e = extract_http_error "GET" 404 1 "/job" in
    (is_some e ≡ (leb 300 404 || 404 == 204))
    × (is_permanent e ≡ (is_some e && ltb 404 500))
    × (has_status_code e (403 ∷ []) ≡ (leb 300 404 && 404 == 403))
    × (is_request_problem e ≡ (leb 400 404 && ltb 404 500))
    × (is_no_content e ≡ 404 == 204)
extract_http_error-class_example = extract_http_error-class "GET" "/job" 1 404 403

abbrev missing : Option Err
missing = extract_http_error "GET" 404 1 "/job"
