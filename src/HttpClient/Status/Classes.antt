-- ===== src/HttpClient/Status/Classes.antt =====
-- How a response's status ends a call (httpclient/httpclient.go).
use go_o11y.Prelude.{
  ◌≡◌, arith, ℕ, String, Bool, true, false, ◌&&◌, ◌||◌, Option, some, [], ◌∷◌, ltb, leb, ◌==◌,
  is_some,
}
use go_o11y.Errors.{Err, permanent}
use go_o11y.HttpClient.Status.{
  extract_http_error, has_status_code, is_request_problem, is_no_content,
}

-- Whether backoff.Retry ends at this error.
abbrev pub is_permanent : Option Err → Bool
is_permanent (some (permanent e)) = true
is_permanent _ = false

module _ (method route : String) (attempts : ℕ) where
  abbrev of_status : ℕ → Option Err
  of_status code = extract_http_error method code attempts route

  -- A response ends in an error exactly when its status is 300 or more, or 204; the error ends the
  -- retries exactly when the status is below 500. An HTTPError carries the status. It is a request
  -- problem exactly for 400 to 499, has no other code, and a 204 is no HTTPError.
  pub extract_http_error-class :
      (code other : ℕ)
      → (is_some (of_status code) ≡ (leb 300 code || code == 204))
        × (is_permanent (of_status code) ≡ (is_some (of_status code) && ltb code 500))
        × (has_status_code (of_status code) (other ∷ []) ≡ (leb 300 code && code == other))
        × (is_request_problem (of_status code) ≡ (leb 400 code && ltb code 500))
        × (is_no_content (of_status code) ≡ code == 204)
  unfolding extract_http_error has_status_code is_request_problem is_no_content
  extract_http_error-class code other =
      (ground arith, ground arith, ground arith, ground arith, ground arith)
