-- ===== src/HttpClient/Call.antt =====
-- retryRequest and Call of httpclient/httpclient.go.
pub mod Cases
pub mod Once
pub mod Trace
use Prim.Native.String.{◌++◌ as concat}
use go_o11y.Prelude.{ℕ, String, Bool, true, false, Option, none, some, ltb, str_eq, if◌then◌else◌}
use go_o11y.Errors.{Err, Result, ok, err}
use go_o11y.Backoff.{Retry}
use go_o11y.HttpClient.Config.{Client}
use go_o11y.HttpClient.Request.{Request, validate}
use go_o11y.HttpClient.Status.{done_retrying}
use go_o11y.HttpClient.World.{Url, HttpRequest, Env, World}
use go_o11y.HttpClient.Build.{new_request_fn}
use go_o11y.HttpClient.Attempt.{attempt}

-- What retryRequest is given of backoff: Retry under the policy with this MaxElapsedTime.
abbrev pub Policies : Type 0
Policies = ℕ → Retry World

unfoldable pub max_elapsed : Client → Request → ℕ
max_elapsed c r =
    if ltb 0 r.max_elapsed_time then r.max_elapsed_time else c.back_off_max_elapsed_time

-- retryRequest
unfoldable pub retry_request :
    Env → Policies → Client → Request → String → Result HttpRequest → World → Option Err × World
unfolding max_elapsed
retry_request env policies c r name built w =
    let w0 = record w { attempt_counter = 0 } in
    if r.retry
    then (policies (max_elapsed c r)).run (attempt env c r name built) w0
    else attempt env c r name built w0

span_name : Client → Request → String
span_name c r = concat "httpclient: " (concat c.name (concat " " r.route))

-- A Request that NewRequest did not make has no url.
url_of : Request → String
url_of r = if str_eq r.url "" then r.route else r.url

with_query : Env → Request → Url → Url
with_query env r u = record u {
  raw_query = if str_eq r.rawquery "" then env.encode r.query else r.rawquery;
}

-- Call after url.Parse.
unfoldable pub parsed_call :
    Env → Policies → Client → Request → Result Url → World → Option Err × World
unfolding span_name with_query
parsed_call env policies c r (err e) w = (some e, w)
parsed_call env policies c r (ok u) w =
    let (e, w') =
      retry_request env policies c r (span_name c r) (new_request_fn env c r (with_query env r u))
        w in
    (done_retrying e, w')

-- Call after its validation.
unfoldable pub valid_call :
    Env → Policies → Client → Request → Option Err → World → Option Err × World
unfolding url_of parsed_call
valid_call env policies c r (some e) w = (some e, w)
valid_call env policies c r none w =
    parsed_call env policies c r (env.parse_url (concat c.base_url (url_of r))) w

-- Call
unfoldable pub call : Env → Policies → Client → Request → World → Option Err × World
call env policies c r w = valid_call env policies c r (validate r) w
