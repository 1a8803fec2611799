-- ===== src/Datadog/Queries.antt =====
-- What a query that reports no error has behind it (Query and doRequest of datadog/client.go).
use go_o11y.Prelude.{
  ◌≡◌, refl, ap, arith, String, Bool, true, false, Option, none, some, [], put, leb, str_eq,
  if◌then◌else◌, Bool-cases, inl, inr,
}
use go_o11y.Closer.{error_handler}
use go_o11y.Errors.{Err, Result, ok, err, wrap}
use go_o11y.Datadog.{
  Env, Client, Response, HttpRequest, RateLimit, QueryParams, Reply, QueryResponse, query, do_get,
  do_request, on_reply, load_meta, after_meta, decoded, error_of, close_body, error_handler,
  checked_status, base_url_of, request_headers, zero_limit, load_from_header,
}
use go_o11y.Datadog.Limits.{Headers, load_from_header-Headers}

module _ {A : Type 0} (env : Env) (decode : String → Result A) where
  -- A request that was answered with the value, and the rate limit of its headers.
  pub record Fetched (meta : RateLimit) (a : A) : Type 0 where
    pub request : HttpRequest
    pub response : Response
    pub answered : env.send request ≡ ok response
    pub succeeded : leb 300 response.status_code ≡ false
    pub of_body : decode response.body ≡ ok a
    pub closed : response.closed ≡ none
    pub of_header : Headers env response.get meta

  after_meta-ok :
      (res : Response) (e : Option Err) (a : A)
      → close_body env decode res (after_meta env decode res e) ≡ ok a
      → (e ≡ none)
        × (leb 300 res.status_code ≡ false)
        × (decode res.body ≡ ok a)
        × (res.closed ≡ none)
  unfolding after_meta close_body decoded error_handler
  after_meta-ok res (some e) a h = cc
  after_meta-ok res none a h =
      let (a, b, c) = go (leb 300 res.status_code) (decode res.body) res.closed refl refl refl h in
      (refl, a, b, c)
    where
      go :
          (b : Bool) (d : Result A) (c : Option Err)
          → leb 300 res.status_code ≡ b
          → decode res.body ≡ d
          → res.closed ≡ c
          → close_body env decode
              (record res { closed = c })
              (if b then err (error_of env (env.decode_errors res.body)) else decoded env decode d)
            ≡ ok a
          → (leb 300 res.status_code ≡ false) × (decode res.body ≡ ok a) × (res.closed ≡ none)
      go true d c hb hd hc q = cc
      go false (err f) c hb hd hc q = cc
      go false (ok x) (some f) hb hd hc q = cc
      go false (ok x) none hb hd hc q = (hb, cc (hd, q), hc)

  -- The answer, for the metadata that is wanted.
  on_reply-Fetched :
      (req : HttpRequest) (r : RateLimit) (a : A)
      → (on_reply env decode (some r) (env.send req)).0 ≡ ok a
      → (meta : RateLimit) × ((on_reply env decode (some r) (env.send req)).1 ≡ some meta)
        × Fetched meta a
  unfolding on_reply load_meta
  on_reply-Fetched req r a h = go (env.send req) refl h
    where
      go :
          (x : Result Response)
          → env.send req ≡ x
          → (on_reply env decode (some r) x).0 ≡ ok a
          → (meta : RateLimit) × ((on_reply env decode (some r) x).1 ≡ some meta) × Fetched meta a
      go (err e) hx q = cc
      go (ok res) hx q =
          let l = load_from_header env res.get r in
          let (e, s, b, c) = after_meta-ok res l.0 a q in
          (
            l.1,
            refl,
            record {
              request = req;
              response = res;
              answered = hx;
              succeeded = s;
              of_body = b;
              closed = c;
              of_header = load_from_header-Headers env res.get r e;
            },
          )

  do_get-Fetched :
      (c : Client) (path q : String) (r : RateLimit) (a : A)
      → (do_get env decode c path q (some r)).0 ≡ ok a
      → (meta : RateLimit) × ((do_get env decode c path q (some r)).1 ≡ some meta) × Fetched meta a
  unfolding do_get do_request
  do_get-Fetched c path q r a h = go (env.new_request_fault (env.resolved (base_url_of c) path q)) h
    where
      url : String
      url = env.resolved (base_url_of c) path q

      sent : HttpRequest
      sent = record { url = env.resolved (base_url_of c) path q; header = request_headers env c [] }

      got : Option Err → Result A × Option RateLimit
      got (some e) = (err (wrap "failed to create HTTP request" e), some r)
      got none =
          do_request env decode c
            (record { url = env.resolved (base_url_of c) path q; header = [] }) (some r)

      go :
          (f : Option Err)
          → (got f).0 ≡ ok a
          → (meta : RateLimit) × ((got f).1 ≡ some meta) × Fetched meta a
      go (some e) k = cc
      go none k = on_reply-Fetched sent r a k

module _ {Series : Type 0} (env : Env) (decode : String → Result (Reply Series)) where
  abbrev Behind : QueryResponse Series × Option Err → Type 0
  Behind out =
      (v : Reply Series) × (meta : RateLimit) × Fetched env decode meta v
      × (str_eq v.status "ok" ≡ true)
      × (out.0 ≡ record { series = some v.series; meta = some meta })

  checked_status-Behind :
      (x : Result (Reply Series) × Option RateLimit)
      → ((v : Reply Series)
          → x.0 ≡ ok v
          → (meta : RateLimit) × (x.1 ≡ some meta) × Fetched env decode meta v)
      → (checked_status env decode x).1 ≡ none
      → Behind (checked_status env decode x)
  unfolding checked_status
  checked_status-Behind (err e, m) k h = cc
  checked_status-Behind (ok v, m) k h =
      let (meta, p, f) = k v refl in
      elim (Bool-cases (str_eq v.status "ok")) [
        | inr b ↦ ground (arith, b, h)
        | inl b ↦ (v, meta, f, b, rw b (ap (λ x. record { series = some v.series; meta = x }) p))
      ]

  -- A query that reports no error was answered with a status below 300, a body that could be decoded,
  -- with the status "ok", and closed without an error; the response has the series of the body and the
  -- rate limit of the headers, of which each one was a number, its period and reset in nanoseconds.
  pub query-Fetched :
      (c : Client) (q : QueryParams)
      → (query env decode c q).1 ≡ none
      → (v : Reply Series) × (meta : RateLimit) × Fetched env decode meta v
        × (str_eq v.status "ok" ≡ true)
        × ((query env decode c q).0 ≡ record { series = some v.series; meta = some meta })
  unfolding query
  query-Fetched c q h =
      let v =
        put "query" q.query
          (put "to" (env.format_int q.to) (put "from" (env.format_int q.from) [])) in
      let x = do_get env decode c "query" (env.encode v) (some zero_limit) in
      checked_status-Behind x
        (λ a k. do_get-Fetched env decode c "query" (env.encode v) zero_limit a k) h
