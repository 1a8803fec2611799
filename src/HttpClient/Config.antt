-- ===== src/HttpClient/Config.antt =====
-- Config, Client and New of httpclient/httpclient.go. Durations are in nanoseconds.
use go_o11y.Prelude.{
  ℕ, String, Bool, Option, none, some, [], ◌∷◌, ◌==◌, str_eq, if◌then◌else◌, Dict,
}

-- What New sets of an *http.Transport; `dial_context` is the injected function, by a number.
pub record HttpTransport : Type 0 where
  pub max_conns_per_host : ℕ
  pub max_idle_conns_per_host : ℕ
  pub dial_context : Option ℕ

-- An http.RoundTripper: an *http.Transport, one of another type, or one that a tracer wrapped.
pub data RoundTripper : Type 0 where
  http_transport : HttpTransport → RoundTripper
  other_transport : ℕ → RoundTripper
  traced : String → RoundTripper → RoundTripper

pub record Config : Type 0 where
  pub name : String
  pub base_url : String
  pub auth_header : String
  pub auth_token : String
  pub accept_type : String
  pub timeout : ℕ
  pub max_connections_per_host : ℕ
  pub user_agent : String
  pub transport : Option RoundTripper
  pub transport_modifier : Option (HttpTransport → HttpTransport)
  pub tracer : Bool
  pub dial_context : Option ℕ
  pub no_rate_limit_backoff : Bool
  pub disable_w3c_trace_propagation : Bool

-- The fields that do not change; `last429` stands in the state of `HttpClient.World`.
pub record Client : Type 0 where
  pub name : String
  pub base_url : String
  pub back_off_max_elapsed_time : ℕ
  pub auth_token : String
  pub auth_header : String
  pub accept_type : String
  pub additional_headers : Dict String
  pub tracer : Bool
  pub round_tripper : RoundTripper
  pub no_rate_limit_backoff : Bool
  pub disable_w3c_trace_propagation : Bool

-- http.DefaultTransport with the pool size that New sets.
default_transport : ℕ → Option ℕ → RoundTripper
default_transport limit dial =
    let n = if limit == 0 then 10 else limit in
    http_transport
      (record { max_conns_per_host = n; max_idle_conns_per_host = n; dial_context = dial })

base_transport : Config → RoundTripper
unfolding default_transport
base_transport cfg = elim cfg.transport [
  | none ↦ default_transport cfg.max_connections_per_host cfg.dial_context
  | some t ↦ t
]

modified : Option (HttpTransport → HttpTransport) → RoundTripper → RoundTripper
modified (some f) (http_transport t) = http_transport (f t)
modified (some f) (other_transport n) = other_transport n
modified (some f) (traced n t) = traced n t
modified none t = t

-- New. `user_agent_of` is fmt.Sprintf("CircleCI (%s, ex)", name).
unfoldable pub new_client : (String → String) → Config → Client
unfolding base_transport modified
new_client user_agent_of cfg =
    let ua = if str_eq cfg.user_agent "" then user_agent_of cfg.name else cfg.user_agent in
    let t = modified cfg.transport_modifier (base_transport cfg) in
    record {
      name = cfg.name;
      base_url = cfg.base_url;
      back_off_max_elapsed_time = cfg.timeout;
      auth_token = cfg.auth_token;
      auth_header = cfg.auth_header;
      accept_type = cfg.accept_type;
      additional_headers = ("User-Agent", ua) ∷ [];
      tracer = cfg.tracer;
      round_tripper = if cfg.tracer then traced cfg.name t else t;
      no_rate_limit_backoff = cfg.no_rate_limit_backoff;
      disable_w3c_trace_propagation = cfg.disable_w3c_trace_propagation;
    }
