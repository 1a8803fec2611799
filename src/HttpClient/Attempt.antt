-- ===== src/HttpClient/Attempt.antt =====
-- One attempt of retryRequest, and the functions that it calls (httpclient/httpclient.go).
pub mod Window
pub mod Outcomes
use go_o11y.Prelude.{
  ℕ, suc, String, Bool, true, false, ◌+◌, Option, none, some, List, [], ◌∷◌, ◌++◌, ◌==◌, ltb,
  str_eq, if◌then◌else◌, Dict, get, put, or_else,
}
use Prim.Native.String.{◌++◌ as concat}
use go_o11y.Errors.{Err, Result, ok, err, wrap, var, permanent, find, as_url}
use go_o11y.Span
use go_o11y.Span.{
  SpanCall, Span, client, start, add_raw_field, flatten, add_result_to_span, end_span, num, flag,
  fault, with_span_kind,
}
use go_o11y.HttpClient.Config.{Client}
use go_o11y.HttpClient.Request.{Request, Decoder, StatusKey, success, status, get_decoder, Decoded}
use go_o11y.HttpClient.Status.{extract_http_error, has_status_code, err_server_backoff}
use go_o11y.HttpClient.World.{Url, HttpRequest, Response, Env, World, Timed}

abbrev pub ten_seconds : ℕ
ten_seconds = 10000000000

abbrev pub five_seconds : ℕ
five_seconds = 5000000000

-- shouldBackoff. Times count from the zero time.Time. The clock is read unless the test is off.
unfoldable pub should_backoff : Env → Client → World → Bool × World
should_backoff env c w = if c.no_rate_limit_backoff then (false, w) else (
  ltb (env.now w.readings) (w.last429 + ten_seconds),
  record w { readings = suc w.readings },
)

unfoldable pub set_last429 : Env → World → World
set_last429 env w = record w { last429 = env.now w.readings; readings = suc w.readings }

-- addPropagationHeader: the keys are set as they are.
unfoldable pub put_headers : Dict String → Dict String → Dict String
put_headers [] h = h
put_headers ((k, v) ∷ kvs) h = put_headers kvs (put k v h)

abbrev header_text : String → Dict String → String
header_text k h = elim (get k h) [ none ↦ "" | some v ↦ v ]

-- The decoder that decodeBody chooses: one for the status goes before that of success.
unfoldable pub chosen_decoder : Request → ℕ → Bool → Option Decoder
chosen_decoder r code succeeded =
    or_else (get_decoder (status code) r.decoders)
      (if succeeded then get_decoder success r.decoders else none)

-- decodeBody: its error, and what the decoder wrote.
unfoldable pub decode_body : Request → Response → Bool → Option Err × List String
unfolding chosen_decoder
decode_body r res succeeded = elim (chosen_decoder r res.status_code succeeded) [
  | none ↦ (none, [])
  | some d ↦
      let out = d res.body in
      elim out.error [
        | none ↦ (none, out.written)
        | some e ↦ (some (permanent (wrap "decoder" e)), out.written)
      ]
]

-- addReqToSpan
unfoldable pub add_req_to_span : Env → HttpRequest → ℕ → Span
add_req_to_span env req attempt =
    add_raw_field "meta.type" (Span.text "http_client")
    ∷ add_raw_field "http.scheme" (Span.text req.url.scheme)
    ∷ add_raw_field "http.host" (Span.text req.url.host)
    ∷ add_raw_field "http.target" (Span.text req.url.path)
    ∷ add_raw_field "http.method" (Span.text req.method)
    ∷ add_raw_field "http.attempt" (num attempt)
    ∷ add_raw_field "http.retry" (flag (ltb 1 attempt))
    ∷ add_raw_field "http.url" (Span.text (env.url_text req.url))
    ∷ add_raw_field "http.user_agent"
        (Span.text (header_text (env.canonical "User-Agent") req.header))
    ∷ add_raw_field "http.request_content_length" (num 0)
    ∷ []

unfoldable pub add_resp_field : Env → Response → String → String → Span
add_resp_field env res key field_name =
    let v = header_text (env.canonical key) res.header in
    if str_eq v "" then [] else add_raw_field field_name (Span.text v) ∷ []

-- addRespToSpan
unfoldable pub add_resp_to_span : Env → Response → Span
unfolding add_resp_field
add_resp_to_span env res =
    add_resp_field env res "Content-Length" "http.response_content_length"
    ++ (add_resp_field env res "Content-Type" "http.response_content_type"
        ++ (add_resp_field env res "Content-Encoding" "http.response_content_encoding"
            ++ (add_resp_field env res "x-amz-request-id" "http.amz_request_id"
                ++ (add_resp_field env res "x-amz-id-2" "http.amz_id_2"
                    ++ add_raw_field "http.status_code" (num res.status_code) ∷ []))))

-- What part of an attempt gives: its error, the calls that it made on the span, and the state.
abbrev pub Outcome : Type 0
Outcome = Option Err × Span × World

-- A response that is an error: a 429 starts the window, and a decoder for the status is tried.
unfoldable pub failed_response : Env → Request → Response → Err → World → Outcome
unfolding set_last429
failed_response env r res e w =
    let w1 = if has_status_code (some e) (429 ∷ []) then set_last429 env w else w in
    let d = decode_body r res false in
    let calls : Span = elim d.0 [
      | none ↦ []
      | some f ↦ add_raw_field "fail_decoder_error" (fault f) ∷ []
    ] in
    (some e, calls, record w1 { decoded = w1.decoded ++ d.1 })

unfoldable pub good_response : Request → Response → World → Outcome
good_response r res w =
    let seen = if r.header_fn then w.headers_seen ++ res.header ∷ [] else w.headers_seen in
    let d = decode_body r res true in
    (d.0, [], record w { headers_seen = seen; decoded = w.decoded ++ d.1 })

-- The part of the attempt after Do has returned a response.
unfoldable pub on_response : Env → Client → Request → HttpRequest → Response → World → Outcome
on_response env c r req res w =
    let entry : Timed = record {
      client_name = c.name;
      route = r.route;
      method = r.method;
      status_code = res.status_code;
      retry = ltb 1 w.attempt_counter;
    } in
    let w1 = record w {
      statuses = w.statuses ++ res.status_code ∷ [];
      timed = if env.has_metrics then w.timed ++ entry ∷ [] else w.timed;
    } in
    let out : Outcome =
      elim (extract_http_error req.method res.status_code w.attempt_counter r.route) [
        | some e ↦ failed_response env r res e w1
        | none ↦ good_response r res w1
      ] in
    (out.0, add_resp_to_span env res ++ out.1, out.2)

-- errors.As to *url.Error, and its Err.
unfoldable pub without_url_error : Err → Err
without_url_error e = elim (find e as_url) [ none ↦ e | some inner ↦ inner ]

-- The request with the context and the propagation headers of the attempt.
unfoldable pub prepared : Env → Client → Request → HttpRequest → HttpRequest
unfolding put_headers
prepared env c r req = record req {
  timeout = if r.timeout == 0 then five_seconds else r.timeout;
  traced = if c.tracer then some r.route else none;
  header =
      if r.propagation
      then put_headers (env.propagated c.disable_w3c_trace_propagation) req.header
      else req.header;
}

-- The part of the attempt that sends the request.
unfoldable pub send : Env → Client → Request → HttpRequest → World → Outcome
unfolding prepared without_url_error
send env c r built w =
    let req = prepared env c r built in
    let calls =
      add_raw_field "http.client_name" (Span.text c.name)
      ∷ add_raw_field "http.route" (Span.text r.route)
      ∷ add_raw_field "http.base_url" (Span.text c.base_url)
      ∷ add_req_to_span env req w.attempt_counter in
    let w1 = record w { sent = w.sent ++ req ∷ [] } in
    elim (env.round_trip w.sent req) [
      | err e ↦ (some (wrap "httpclient do" (without_url_error e)), calls, w1)
      | ok res ↦ let out = on_response env c r req res w1 in (out.0, calls ++ out.1, out.2)
    ]

-- The attempt between StartSpan and End.
unfoldable pub attempt_body : Env → Client → Request → Result HttpRequest → World → Outcome
unfolding should_backoff
attempt_body env c r built w =
    let w1 = record w { attempt_counter = suc w.attempt_counter } in
    let (back_off, w2) = should_backoff env c w1 in
    if back_off
    then (some (permanent (var err_server_backoff)), [], w2)
    else elim built [ err e ↦ (some (permanent e), [], w2) | ok req ↦ send env c r req w2 ]

-- The inner `attempt` of retryRequest. `built` is what newReq returns.
unfoldable pub attempt :
    Env → Client → Request → String → Result HttpRequest → World → Option Err × World
unfolding attempt_body
attempt env c r name built w =
    let out = attempt_body env c r built w in
    let opened = start name (with_span_kind client (record { kind = none })) in
    let flat = if str_eq r.flatten "" then [] else flatten (concat "hc_" r.flatten) ∷ [] in
    let span : Span = opened ∷ flat ++ (out.1 ++ end_span out.0) in
    (out.0, record out.2 { spans = out.2.spans ++ span ∷ [] })
