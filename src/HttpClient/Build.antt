-- ===== src/HttpClient/Build.antt =====
-- The inner newRequestFn of Call (httpclient/httpclient.go): how a request to send is built.
pub mod Precedence
use Prim.Native.String.{◌++◌ as concat}
use go_o11y.Prelude.{
  ℕ, String, Bool, true, false, Option, none, some, List, [], ◌∷◌, str_eq, if◌then◌else◌, Dict, get,
  put, or_else,
}
use go_o11y.Errors.{Err, Result, ok, err, wrap}
use go_o11y.HttpClient.Config.{Client}
use go_o11y.HttpClient.Request.{Request, Payload, encodable, unencodable}
use go_o11y.HttpClient.World.{Url, HttpRequest, Env}

abbrev pub json_type : String
json_type = "application/json; charset=utf-8"

-- http.Header.Set for each entry, in the order of the loop.
unfoldable pub set_headers : (String → String) → Dict String → Dict String → Dict String
set_headers canonical [] h = h
set_headers canonical ((k, v) ∷ kvs) h = set_headers canonical kvs (put (canonical k) v h)

-- The authorization, by the configured header or as a bearer token.
unfoldable pub auth_headers : (String → String) → Client → Dict String
auth_headers canonical c =
    if str_eq c.auth_token ""
    then []
    else if str_eq c.auth_header ""
    then put (canonical "Authorization") (concat "Bearer " c.auth_token) []
    else put (canonical c.auth_header) c.auth_token []

-- AddCookie of a request's cookie, as the text that net/http makes of it: all cookies stand in one
-- header, which Get reads as "" if it is missing.
unfoldable pub add_cookie : (String → String) → Option String → Dict String → Dict String
add_cookie canonical none h = h
add_cookie canonical (some c) h =
    let old = elim (get (canonical "Cookie") h) as (λ _. String) [ none ↦ "" | some v ↦ v ] in
    put (canonical "Cookie") (if str_eq old "" then c else concat old (concat "; " c)) h

-- The headers: authorization, the client's own, the request's, its cookie, and the two that are set
-- last.
unfoldable pub header_of : (String → String) → Client → Request → Dict String
unfolding set_headers auth_headers add_cookie
header_of canonical c r =
    let h1 = set_headers canonical c.additional_headers (auth_headers canonical c) in
    let h2 = add_cookie canonical r.cookie (set_headers canonical r.headers h1) in
    let h3 = if str_eq c.accept_type "" then h2 else put (canonical "Accept") c.accept_type h2 in
    elim r.body [ none ↦ h3 | some b ↦ put (canonical "Content-Type") json_type h3 ]

json_body : Option Payload → Result (Option String)
json_body none = ok none
json_body (some (encodable s)) = ok (some s)
json_body (some (unencodable e)) = err (wrap "could not json encode Request" e)

-- newRequestFn. The context of the attempt is added later.
unfoldable pub new_request_fn : Env → Client → Request → Url → Result HttpRequest
unfolding header_of json_body
new_request_fn env c r u = elim (env.new_request_fault r.method (env.url_text u)) [
  | some e ↦ err e
  | none ↦ elim (json_body r.body) [
    | err e ↦ err e
    | ok b ↦ ok (record {
      method = r.method;
      url = u;
      header = header_of env.canonical c r;
      body = or_else r.raw_body b;
      timeout = 0;
      traced = none;
    })
  ]
]
