-- ===== src/HttpClient/World.antt =====
-- What a call reads and changes: the parts of net/http and of the machine that it uses, as `Env`, and
-- the state of the client together with what can be observed of it, as `World`.
use go_o11y.Prelude.{ℕ, String, Bool, Option, List, Dict}
use go_o11y.Errors.{Result, Err}
use go_o11y.Span.{Span}
use go_o11y.HttpClient.Request.{Body}

pub record Url : Type 0 where
  pub scheme : String
  pub host : String
  pub path : String
  pub raw_query : String

-- The *http.Request as it is sent: `header` by canonical key, `traced` the route that the tracer was
-- given, and `timeout` that of its context.
pub record HttpRequest : Type 0 where
  pub method : String
  pub url : Url
  pub header : Dict String
  pub body : Option String
  pub timeout : ℕ
  pub traced : Option String

pub record Response : Type 0 where
  pub status_code : ℕ
  pub header : Dict String
  pub body : Body

-- `canonical` is http.CanonicalHeaderKey, `encode` url.Values.Encode, `new_request_fault` the error
-- of http.NewRequest, `propagated` the headers of ExtractPropagation, `now n` the n-th reading of the
-- client's clock, and `round_trip` the answer of http.Client.Do, which may depend on all that was
-- sent before.
pub record Env : Type 0 where
  pub canonical : String → String
  pub parse_url : String → Result Url
  pub url_text : Url → String
  pub encode : Dict String → String
  pub new_request_fault : String → String → Option Err
  pub propagated : Bool → Dict String
  pub has_metrics : Bool
  pub now : ℕ → ℕ
  pub round_trip : List HttpRequest → HttpRequest → Result Response

-- The tags of a measurement by TimeInMilliseconds.
pub record Timed : Type 0 where
  pub client_name : String
  pub route : String
  pub method : String
  pub status_code : ℕ
  pub retry : Bool

pub record World : Type 0 where
  pub readings : ℕ
  pub last429 : ℕ
  pub attempt_counter : ℕ
  pub sent : List HttpRequest
  pub statuses : List ℕ
  pub spans : List Span
  pub timed : List Timed
  pub decoded : List String
  pub headers_seen : List (Dict String)
