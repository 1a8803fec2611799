-- ===== src/Releases/S3.antt =====
-- The list of releases in S3 (releases/release/list_s3.go), through the HTTP client.
use Prim.Native.Char.{code}
use Prim.Native.String.{[] as empty, ◌∷◌ as prepend, ◌++◌ as concat}
use go_o11y.Prelude.{
  String, false, ◌&&◌, Option, none, some, List, [], ◌∷◌, ◌==◌, contains, if◌then◌else◌,
}
use go_o11y.Errors.{Err, Result, ok, err, var}
use go_o11y.HttpClient.Config.{Client, new_client}
use go_o11y.HttpClient.Request.{
  Request, Decoder, new_request, route_params, with_timeout, success_decoder,
}
use go_o11y.HttpClient.Status.{has_status_code}
use go_o11y.HttpClient.World.{Env, World}
use go_o11y.HttpClient.Call.{Policies, call}
use go_o11y.Releases.{Requirements, Release, err_not_found}

-- What the list uses of other packages: the environment and the policies of the HTTP client, Sprintf
-- for the user agent and for a route, and `scan`, the lines that a bufio.Scanner gives of a text.
pub record Outside : Type 0 where
  pub http : Env
  pub policies : Policies
  pub user_agent_of : String → String
  pub sprintf : String → List String → String
  pub scan : String → List String

pub record S3List : Type 0 where
  pub base_url : String
  pub client : Client

unfoldable pub new_s3_list : Outside → String → S3List
new_s3_list o base_url = record {
  base_url = base_url;
  client = new_client o.user_agent_of (record {
    name = "s3-release-list";
    base_url = base_url;
    auth_header = "";
    auth_token = "";
    accept_type = "";
    timeout = 10000000000;
    max_connections_per_host = 0;
    user_agent = "";
    transport = none;
    transport_modifier = none;
    tracer = false;
    dial_context = none;
    no_rate_limit_backoff = false;
    disable_w3c_trace_propagation = false;
  });
}

-- decodeVersion, of the lines of the body.
unfoldable pub decode_version : List String → Result String
decode_version [] = err (var err_not_found)
decode_version (l ∷ ls) = ok l

-- strings.Split(s, " ")
abbrev pub add_to_first : String → List String → List String
add_to_first s [] = s ∷ []
add_to_first s (p ∷ ps) = concat s p ∷ ps

unfoldable pub split_spaces : String → List String
split_spaces empty = "" ∷ []
split_spaces (prepend c s) =
    let rest = split_spaces s in
    if code c == 32 then "" ∷ rest else add_to_first (prepend c empty) rest

-- parts[1][1:], which panics when there is no second part and when it has no first character. The
-- file names are ASCII, whose characters are bytes.
unfoldable pub drop_first : String → Option String
drop_first empty = none
drop_first (prepend c s) = some s

unfoldable pub filename_of : List String → Option String
unfolding drop_first
filename_of (a ∷ b ∷ ps) = drop_first b
filename_of _ = none

abbrev pub first_part : List String → String
first_part [] = ""
first_part (p ∷ ps) = p

-- The release of a line of checksums.txt; a panic is `none`.
unfoldable pub release_of : String → Requirements → String → Option Release
unfolding filename_of
release_of base_url rq txt =
    let parts = split_spaces txt in
    elim (filename_of parts) [
      | none ↦ none
      | some f ↦ some (record {
        url = concat base_url (concat "/" (concat rq.version (concat "/" f)));
        checksum = first_part parts;
        version = rq.version;
      })
    ]

-- decodeRelease, of the lines of the body: the first line that names the platform and the
-- architecture.
unfoldable pub decode_release : String → Requirements → List String → Option (Result Release)
decode_release base_url rq [] = some (err (var err_not_found))
decode_release base_url rq (l ∷ ls) =
    let rest = decode_release base_url rq ls in
    if contains l rq.platform && contains l rq.arch
    then elim (release_of base_url rq l) [ none ↦ none | some r ↦ some (ok r) ]
    else rest

abbrev fault_of {ℓ} : {A : Type ℓ} → Result A → Option Err
fault_of (ok a) = none
fault_of (err e) = some e

abbrev pub value_of {ℓ} : {A : Type ℓ} → Result A → Option A
value_of (ok a) = some a
value_of (err e) = none

-- A decoder keeps the text that it read: the variable that it sets is a function of that.
unfoldable pub version_decoder : Outside → Decoder
unfolding decode_version
version_decoder o b = record {
  written = b.content ∷ [];
  error = fault_of (decode_version (o.scan b.content));
}

unfoldable pub release_decoder : Outside → String → Requirements → Decoder
release_decoder o base_url rq b = record {
  written = b.content ∷ [];
  error = elim (decode_release base_url rq (o.scan b.content)) [
    | none ↦ none
    | some r ↦ fault_of r
  ];
}

-- The text that was decoded last after the given ones.
unfoldable pub last_after : List String → List String → Option String
last_after (a ∷ old) (b ∷ l) = last_after old l
last_after (a ∷ old) [] = none
last_after [] [] = none
last_after [] (b ∷ []) = some b
last_after [] (b ∷ c ∷ l) = last_after [] (c ∷ l)

unfoldable pub version_request : Outside → String → Request
unfolding version_decoder
version_request o release_type = new_request "GET" "/%s.txt" (
    route_params o.sprintf (release_type ∷ [])
    ∷ with_timeout 1000000000
    ∷ success_decoder (version_decoder o)
    ∷ [])

unfoldable pub release_request : Outside → String → Requirements → Request
unfolding release_decoder
release_request o base_url rq = new_request "GET" "/%s/checksums.txt" (
    route_params o.sprintf (rq.version ∷ [])
    ∷ with_timeout 1000000000
    ∷ success_decoder (release_decoder o base_url rq)
    ∷ [])

version_in : Outside → Option String → String
unfolding decode_version
version_in o none = ""
version_in o (some t) = elim (decode_version (o.scan t)) [ ok v ↦ v | err e ↦ "" ]

-- Version: the value of the variable once Call has returned, and the error of Call.
unfoldable pub version : Outside → S3List → String → World → String × Option Err × World
unfolding version_in last_after
version o d release_type w =
    let (e, w') = call o.http o.policies d.client (version_request o release_type) w in
    (version_in o (last_after w.decoded w'.decoded), e, w')

unfoldable pub release_in :
    Outside → String → Requirements → Option String → Option (Option Release)
release_in o base_url rq none = some none
release_in o base_url rq (some t) = elim (decode_release base_url rq (o.scan t)) [
  | none ↦ none
  | some r ↦ some (value_of r)
]

-- What a lookup gives: nothing if the decoder panicked.
abbrev pub Looked : Type 0
Looked = Option (Option Release × Option Err × World)

-- 404 and 403 are reported as ErrNotFound.
unfoldable pub unless_missing : Option (Option Release) → Option Err → World → Looked
unless_missing none e w = none
unless_missing (some r) e w =
    if has_status_code e (404 ∷ 403 ∷ [])
    then some (none, some (var err_not_found), w)
    else some (r, e, w)

-- Lookup of s3List
unfoldable pub lookup_s3 : Outside → S3List → Requirements → World → Looked
unfolding release_in last_after unless_missing
lookup_s3 o d rq w =
    let (e, w') = call o.http o.policies d.client (release_request o d.base_url rq) w in
    unless_missing (release_in o d.base_url rq (last_after w.decoded w'.decoded)) e w'
