-- ===== src/HttpClient/Request.antt =====
-- Request, NewRequest, its options and its validation, of httpclient/httpclient.go.
use go_o11y.Prelude.{
  ℕ, String, Bool, true, false, not, ◌&&◌, ◌||◌, Option, none, some, List, [], ◌∷◌, ◌==◌, str_eq,
  is_some, if◌then◌else◌, Dict, put,
}
use go_o11y.Errors.{Err, text, wrap}

-- A body as it is read: its bytes, and the error that ends the reading if that is not io.EOF.
pub record Body : Type 0 where
  pub content : String
  pub fault : Option Err

-- What a decoder writes to its variable, in order, and the error that it returns.
pub record Decoded : Type 0 where
  pub written : List String
  pub error : Option Err

abbrev pub Decoder : Type 0
Decoder = Body → Decoded

-- The value given to Body: its JSON encoding, or the error of the encoder.
pub data Payload : Type 0 where
  encodable : String → Payload
  unencodable : Err → Payload

-- A key of the decoders: successDecodeStatus is -1, and no response has another negative status.
pub data StatusKey : Type 0 where
  success : StatusKey
  status : ℕ → StatusKey

unfoldable pub same_key : StatusKey → StatusKey → Bool
same_key success success = true
same_key (status a) (status b) = a == b
same_key success (status b) = false
same_key (status a) success = false

pub record Request : Type 0 where
  pub method : String
  pub route : String
  pub body : Option Payload
  pub raw_body : Option String
  pub decoders : List (StatusKey × Decoder)
  pub header_fn : Bool
  pub cookie : Option String
  pub headers : Dict String
  pub timeout : ℕ
  pub max_elapsed_time : ℕ
  pub retry : Bool
  pub query : Dict String
  pub rawquery : String
  pub propagation : Bool
  pub flatten : String
  pub url : String

-- An option of NewRequest.
abbrev pub RequestOption : Type 0
RequestOption = Request → Request

abbrev pub apply_options : List RequestOption → Request → Request
apply_options [] r = r
apply_options (o ∷ os) r = apply_options os (o r)

unfoldable pub new_request : String → String → List RequestOption → Request
new_request method route opts = apply_options opts (record {
  method = method;
  route = route;
  body = none;
  raw_body = none;
  decoders = [];
  header_fn = false;
  cookie = none;
  headers = [];
  timeout = 0;
  max_elapsed_time = 0;
  retry = true;
  query = [];
  rawquery = "";
  propagation = true;
  flatten = "";
  url = route;
})

-- `sprintf` is fmt.Sprintf.
unfoldable pub route_params : (String → List String → String) → List String → RequestOption
route_params sprintf params r = record r { url = sprintf r.route params }

unfoldable pub put_decoder :
    StatusKey → Decoder → List (StatusKey × Decoder) → List (StatusKey × Decoder)
unfolding same_key
put_decoder k d [] = (k, d) ∷ []
put_decoder k d ((j, e) ∷ ds) = if same_key j k then (k, d) ∷ ds else (j, e) ∷ put_decoder k d ds

unfoldable pub get_decoder : StatusKey → List (StatusKey × Decoder) → Option Decoder
unfolding same_key
get_decoder k [] = none
get_decoder k ((j, d) ∷ ds) = if same_key j k then some d else get_decoder k ds

-- Decoder
unfoldable pub with_decoder : StatusKey → Decoder → RequestOption
with_decoder k d r = record r { decoders = put_decoder k d r.decoders }

-- SuccessDecoder
unfoldable pub success_decoder : Decoder → RequestOption
unfolding with_decoder
success_decoder d = with_decoder success d

-- NewBytesDecoder: io.ReadAll fails as the body does, and then nothing is written.
unfoldable pub new_bytes_decoder : Decoder
new_bytes_decoder b = elim b.fault [
  | none ↦ record { written = b.content ∷ []; error = none }
  | some e ↦ record { written = []; error = some e }
]

-- NewStringDecoder: through a byte slice of its own, which is then converted.
unfoldable pub new_string_decoder : Decoder
unfolding new_bytes_decoder
new_string_decoder b =
    let bs = new_bytes_decoder b in
    elim bs.error [
      | none ↦ record { written = bs.written; error = none }
      | some e ↦ record { written = []; error = some e }
    ]

-- NewJSONDecoder; `unmarshal` is what Decode writes to the value, and its error.
unfoldable pub new_json_decoder : (Body → Decoded) → Decoder
new_json_decoder unmarshal b =
    let d = unmarshal b in
    elim d.error [ none ↦ d | some e ↦ record d { error = some (wrap "failed to unmarshal" e) } ]

unfoldable pub json_decoder : (Body → Decoded) → RequestOption
unfolding success_decoder new_json_decoder
json_decoder unmarshal = success_decoder (new_json_decoder unmarshal)

unfoldable pub string_decoder : RequestOption
unfolding success_decoder new_string_decoder
string_decoder = success_decoder new_string_decoder

unfoldable pub bytes_decoder : RequestOption
unfolding success_decoder new_bytes_decoder
bytes_decoder = success_decoder new_bytes_decoder

-- ResponseHeader
unfoldable pub response_header : RequestOption
response_header r = record r { header_fn = true }

-- Body
unfoldable pub with_body : Option Payload → RequestOption
with_body b r = record r { body = b }

-- RawBody
unfoldable pub with_raw_body : Option String → RequestOption
with_raw_body b r = record r { raw_body = b }

-- Cookie
unfoldable pub with_cookie : Option String → RequestOption
with_cookie c r = record r { cookie = c }

-- Header
unfoldable pub with_header : String → String → RequestOption
with_header k v r = record r { headers = put k v r.headers }

unfoldable pub put_all : Dict String → Dict String → Dict String
put_all [] m = m
put_all ((k, v) ∷ kvs) m = put_all kvs (put k v m)

-- Headers
unfoldable pub with_headers : Dict String → RequestOption
unfolding put_all
with_headers hs r = record r { headers = put_all hs r.headers }

-- RawQuery
unfoldable pub with_raw_query : String → RequestOption
with_raw_query q r = record r { rawquery = q }

-- QueryParam
unfoldable pub with_query_param : String → String → RequestOption
with_query_param k v r = record r { query = put k v r.query }

-- QueryParams
unfoldable pub with_query_params : Dict String → RequestOption
unfolding put_all
with_query_params ps r = record r { query = put_all ps r.query }

-- Timeout
unfoldable pub with_timeout : ℕ → RequestOption
with_timeout t r = record r { timeout = t }

-- MaxElapsedTime
unfoldable pub with_max_elapsed_time : ℕ → RequestOption
with_max_elapsed_time t r = record r { max_elapsed_time = t }

-- NoRetry
unfoldable pub no_retry : RequestOption
no_retry r = record r { retry = false }

-- Propagation
unfoldable pub with_propagation : Bool → RequestOption
with_propagation p r = record r { propagation = p }

-- Flatten
unfoldable pub with_flatten : String → RequestOption
with_flatten prefix r = record r { flatten = prefix }

unfoldable pub has_body : Request → Bool
has_body r = is_some r.body || is_some r.raw_body

unfoldable pub validate_get_with_body : Request → Bool
unfolding has_body
validate_get_with_body r = if str_eq r.method "GET" && has_body r then false else true

unfoldable pub validate_only_raw_body_or_body : Request → Bool
validate_only_raw_body_or_body r = if is_some r.raw_body && is_some r.body then false else true

-- validate: the error of the first test that fails.
unfoldable pub validate : Request → Option Err
unfolding validate_get_with_body validate_only_raw_body_or_body
validate r =
    if not (validate_get_with_body r)
    then some (text "cannot have GET request with body or raw body")
    else if not (validate_only_raw_body_or_body r)
    then some (text "cannot have both body and raw body be set")
    else none
