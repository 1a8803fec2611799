-- ===== src/Datadog.antt =====
-- The Datadog client (datadog/client.go).
pub mod Limits
pub mod Queries
use go_o11y.Prelude.{
  ℕ, String, Bool, not, Option, none, some, List, [], ◌∷◌, ◌*◌, ◌%◌, ◌^◌, leb, str_eq, is_some,
  if◌then◌else◌, Dict, put,
}
use go_o11y.Closer.{error_handler}
use go_o11y.Errors.{Err, Var, Result, ok, err, plain, var, wrap}

abbrev pub err_http : Var
err_http = plain 30

abbrev pub err_invalid_query : Var
err_invalid_query = plain 31

-- An int64 is its residue of 2 ^ 64, and a time.Duration is one in nanoseconds.
pub record RateLimit : Type 0 where
  pub limit : ℕ
  pub period : ℕ
  pub remaining : ℕ
  pub reset : ℕ

-- A reply of the server: `get` is Get of its header, and `closed` the error of Close of its body.
pub record Response : Type 0 where
  pub status_code : ℕ
  pub get : String → String
  pub body : String
  pub closed : Option Err

pub record HttpRequest : Type 0 where
  pub url : String
  pub header : Dict String

-- What is used of net/http, net/url, strconv and encoding/json: the URL of a path and a query
-- against the base, the error of a new request, the reply, ParseInt and FormatInt to base 10 and 64 bits, Encode of url.Values, and the
-- errors of a decoded error response as a text.
pub record Env : Type 0 where
  pub resolved : String → String → String → String
  pub new_request_fault : String → Option Err
  pub send : HttpRequest → Result Response
  pub parse_int : String → Option ℕ
  pub format_int : ℕ → String
  pub encode : Dict String → String
  pub decode_errors : String → Result String

pub record Client : Type 0 where
  pub api_key : String
  pub app_key : String
  pub base_url : Option String

abbrev default_base_url : String
default_base_url = "https://api.datadoghq.com/api/v1/"

-- baseURL
unfoldable pub base_url_of : Client → String
base_url_of c = elim c.base_url [ none ↦ default_base_url | some u ↦ u ]

-- time.Duration(i) * time.Second
unfoldable pub seconds : ℕ → ℕ
seconds i = (i * 1000000000) % 2 ^ 64

-- The times are those of Unix.
pub record QueryParams : Type 0 where
  pub from : ℕ
  pub to : ℕ
  pub query : String

-- The decoded reply to a query; `Series` is []Series.
pub record Reply (Series : Type 0) : Type 0 where
  pub status : String
  pub error : String
  pub series : Series

-- No series is a nil slice.
pub record QueryResponse (Series : Type 0) : Type 0 where
  pub series : Option Series
  pub meta : Option RateLimit

abbrev zero_limit : RateLimit
zero_limit = record { limit = 0; period = 0; remaining = 0; reset = 0 }

module _ (env : Env) where
  unfoldable pub parse_int_from_header : (String → String) → String → Option ℕ
  parse_int_from_header get name = env.parse_int (get name)

  -- A step of LoadFromHeader: a field is set, and the next ones read, if its header is a number.
  unfoldable pub loaded :
      String → Option ℕ → (ℕ → Option Err × RateLimit) → RateLimit → Option Err × RateLimit
  loaded name none next r = (some (wrap name (var err_http)), r)
  loaded name (some i) next r = next i

  -- LoadFromHeader
  unfoldable pub load_from_header : (String → String) → RateLimit → Option Err × RateLimit
  unfolding parse_int_from_header loaded seconds
  load_from_header get r =
      loaded "failed to read RateLimit.Limit" (parse_int_from_header get "X-RateLimit-Limit")
        (λ l.
          let r1 = record r { limit = l } in
          loaded "failed to read RateLimit.Period" (parse_int_from_header get "X-RateLimit-Period")
            (λ p.
              let r2 = record r1 { period = seconds p } in
              loaded "failed to read RateLimit.Remaining"
                (parse_int_from_header get "X-RateLimit-Remaining")
                (λ m.
                  let r3 = record r2 { remaining = m } in
                  loaded "failed to read RateLimit.Reset"
                    (parse_int_from_header get "X-RateLimit-Reset")
                    (λ s. (none, record r3 { reset = seconds s })) r3)
                r2)
            r1)
        r

  -- The metadata of a response, if the caller wants it.
  unfoldable pub load_meta : (String → String) → Option RateLimit → Option Err × Option RateLimit
  unfolding load_from_header
  load_meta get none = (none, none)
  load_meta get (some r) = let (e, r') = load_from_header get r in (e, some r')

  unfoldable pub request_headers : Client → Dict String → Dict String
  request_headers c h =
      let h1 =
        put "DD-API-KEY" c.api_key
          (put "Accept" "application/json" (put "Content-Type" "application/json" h)) in
      if not (str_eq c.app_key "") then put "DD-APPLICATION-KEY" c.app_key h1 else h1

  -- The error of a response with an error status.
  unfoldable pub error_of : Result String → Err
  error_of (err e) = wrap "failed to decode error" e
  error_of (ok errors) = wrap errors (var err_http)

  module _ {A : Type 0} (decode : String → Result A) where
    unfoldable pub decoded : Result A → Result A
    decoded (err e) = err (wrap "failed to decode response" e)
    decoded (ok a) = ok a

    unfoldable pub after_meta : Response → Option Err → Result A
    unfolding decoded error_of
    after_meta res (some e) = err e
    after_meta res none =
        if leb 300 res.status_code
        then err (error_of (env.decode_errors res.body))
        else decoded (decode res.body)

    -- The deferred ErrorHandler.
    unfoldable pub close_body : Response → Result A → Result A
    close_body res (err e) = err e
    close_body res (ok a) = elim (error_handler res.closed none) [ none ↦ ok a | some e ↦ err e ]

    unfoldable pub on_reply : Option RateLimit → Result Response → Result A × Option RateLimit
    unfolding load_meta after_meta close_body
    on_reply meta (err e) = (err (wrap "failed to execute HTTP request" e), meta)
    on_reply meta (ok res) =
        let (e, meta') = load_meta res.get meta in (close_body res (after_meta res e), meta')

    -- doRequest: the decoded value, or the error; and the metadata.
    unfoldable pub do_request :
        Client → HttpRequest → Option RateLimit → Result A × Option RateLimit
    unfolding request_headers on_reply
    do_request c req meta =
        on_reply meta (env.send (record req { header = request_headers c req.header }))

    -- doGet
    unfoldable pub do_get :
        Client → String → String → Option RateLimit → Result A × Option RateLimit
    unfolding base_url_of do_request
    do_get c path query meta =
        let url = env.resolved (base_url_of c) path query in
        elim (env.new_request_fault url) [
          | some e ↦ (err (wrap "failed to create HTTP request" e), meta)
          | none ↦ do_request c (record { url = url; header = [] }) meta
        ]

  -- Validate; `decode` reads the field valid.
  unfoldable pub validate_key : (String → Result Bool) → Client → Result Bool
  unfolding do_get
  validate_key decode c = (do_get decode c "validate" "" none).0

  module _ {Series : Type 0} (decode : String → Result (Reply Series)) where
    -- Query after doGet: the response is that of the named result.
    unfoldable pub checked_status :
        Result (Reply Series) × Option RateLimit → QueryResponse Series × Option Err
    checked_status (err e, meta) = (record { series = none; meta = meta }, some e)
    checked_status (ok v, meta) =
        if not (str_eq v.status "ok")
        then (record { series = none; meta = meta }, some (wrap v.error (var err_invalid_query)))
        else (record { series = some v.series; meta = meta }, none)

    -- Query
    unfoldable pub query : Client → QueryParams → QueryResponse Series × Option Err
    unfolding do_get checked_status
    query c q =
        let v =
          put "query" q.query
            (put "to" (env.format_int q.to) (put "from" (env.format_int q.from) [])) in
        checked_status (do_get decode c "query" (env.encode v) (some zero_limit))
