-- ===== src/HttpClient/Status.antt =====
-- HTTPError and the functions that classify a response's status, of httpclient/httpclient.go.
pub mod Classes
use go_o11y.Prelude.{
  ℕ, String, Bool, true, false, ◌&&◌, ◌||◌, Option, none, some, List, [], ◌∷◌, ◌==◌, ltb, leb,
  if◌then◌else◌,
}
use go_o11y.Errors.{
  Err, Var, HttpError, warning, plain, var, http, permanent, find, as_http, err_is,
}

abbrev pub err_no_content : Var
err_no_content = warning 1

abbrev pub err_server_backoff : Var
err_server_backoff = plain 3

-- (*HTTPError).Code
unfoldable pub code_of : HttpError → ℕ
code_of e = e.code

-- The HTTPError that errors.As finds.
unfoldable pub http_error_of : Option Err → Option HttpError
unfolding find
http_error_of none = none
http_error_of (some e) = find e as_http

unfoldable pub contains : List ℕ → ℕ → Bool
contains [] n = false
contains (c ∷ cs) n = n == c || contains cs n

-- HasStatusCode
unfoldable pub has_status_code : Option Err → List ℕ → Bool
unfolding http_error_of contains
has_status_code err codes = elim (http_error_of err) [
  | none ↦ false
  | some e ↦ contains codes e.code
]

-- IsRequestProblem
unfoldable pub is_request_problem : Option Err → Bool
unfolding http_error_of
is_request_problem err = elim (http_error_of err) [
  | none ↦ false
  | some e ↦ leb 400 e.code && ltb e.code 500
]

-- IsNoContent
unfoldable pub is_no_content : Option Err → Bool
unfolding err_is
is_no_content err = err_is err err_no_content

-- extractHTTPError, of a request's method and a response's status.
unfoldable pub extract_http_error : String → ℕ → ℕ → String → Option Err
extract_http_error method code attempts route =
    let e = http (record {
      method = method;
      route = route;
      code = code;
      attempts = attempts;
      done_retrying = Bool.false;
    }) in
    if leb 500 code
    then some e
    else if leb 300 code
    then some (permanent e)
    else if code == 204
    then some (permanent (var err_no_content))
    else none

-- doneRetrying: the HTTPError found in the error takes its place, marked.
unfoldable pub done_retrying : Option Err → Option Err
unfolding http_error_of
done_retrying err = elim (http_error_of err) [
  | none ↦ err
  | some e ↦ some (http (record e { done_retrying = Bool.true }))
]
