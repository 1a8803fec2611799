-- ===== src/HttpClient/Metrics.antt =====
-- The metrics of a client's connections (httpclient/metrics/metrics.go). Times are in nanoseconds from
-- the zero time, and `none` is a panic: a nil pointer, or a nil metrics provider, is used.
pub mod Hooks
pub mod Flight
pub mod Pool
use Prim.Native.String.{◌++◌ as concat}
use go_o11y.Prelude.{
  ℕ, suc, ◌/◌, String, Bool, true, false, Option, none, some, List, [], ◌∷◌, ◌++◌, is_some, ◌==◌,
  if◌then◌else◌, Dict,
}
use go_o11y.Prelude.Int.{ℤ, pos, negsuc, sub_ℕ, ◌+ℤ◌, ◌-ℤ◌, ltb_ℤ}
use go_o11y.Prelude.Partial.{◌>>=◌}
use go_o11y.Errors.{Err}

-- The state that all requests of the client share.
pub record Metrics : Type 0 where
  pub has_provider : Bool
  pub name : String
  pub pool_available : ℤ
  pub in_flight : ℤ
  pub in_flight_max : ℤ

-- New and Wrap.
unfoldable pub new_metrics : Bool → String → Metrics
new_metrics has_provider name = record {
  has_provider = has_provider;
  name = name;
  pool_available = pos 0;
  in_flight = pos 0;
  in_flight_max = pos 0;
}

-- The first critical section of RoundTrip, and the deferred one.
unfoldable pub enter : Metrics → Metrics
enter m =
    let n = m.in_flight +ℤ pos 1 in
    record m {
      in_flight = n;
      in_flight_max = if ltb_ℤ m.in_flight_max n then n else m.in_flight_max;
    }

unfoldable pub leave : Metrics → Metrics
leave m = record m { in_flight = m.in_flight -ℤ pos 1 }

pub record FlightGauges : Type 0 where
  pub instant : ℤ
  pub max : ℤ
  pub pool_avail_estimate : ℤ

-- Gauges
unfoldable pub gauges : Metrics → FlightGauges
gauges m = record {
  instant = m.in_flight;
  max = m.in_flight_max;
  pool_avail_estimate = if ltb_ℤ m.pool_available (pos 0) then pos 0 else m.pool_available;
}

pub record DnsLookup : Type 0 where
  pub host : String
  pub start_at : ℕ
  pub done_at : ℕ
  pub addr_count : ℕ
  pub coalesced : Bool
  pub error : Bool

pub record Con : Type 0 where
  pub host : String
  pub get_at : ℕ
  pub dial_start_at : ℕ
  pub dial_done_at : ℕ
  pub tls_start_at : ℕ
  pub tls_done_at : ℕ
  pub dns : Option DnsLookup

-- A call of TimeInMilliseconds.
pub record Measured : Type 0 where
  pub name : String
  pub millis : ℤ
  pub tags : List String

-- A field added to the span.
pub data FieldValue : Type 0 where
  flag : Bool → FieldValue
  time : ℤ → FieldValue
  text : String → FieldValue

-- The request with the shared state, and what was reported so far.
pub record TracedRequest : Type 0 where
  pub metrics : Metrics
  pub common_tags : List String
  pub con : Option Con
  pub con_done_at : ℕ
  pub request_done_at : ℕ
  pub measured : List Measured
  pub fields : Dict FieldValue

-- WithTracer
unfoldable pub with_tracer : Metrics → String → TracedRequest
with_tracer m route = record {
  metrics = m;
  common_tags = concat "client:" m.name ∷ concat "route:" route ∷ [];
  con = none;
  con_done_at = 0;
  request_done_at = 0;
  measured = [];
  fields = [];
}

-- Duration.Milliseconds, which drops the part below a millisecond.
unfoldable pub to_millis : ℤ → ℤ
to_millis (pos n) = pos (n / 1000000)
to_millis (negsuc n) = sub_ℕ 0 (suc n / 1000000)

-- Time.Sub, which stops at the greatest and the least Duration.
unfoldable pub between : ℕ → ℕ → ℤ
between later earlier =
    let d = sub_ℕ later earlier in
    if ltb_ℤ (pos 9223372036854775807) d
    then pos 9223372036854775807
    else if ltb_ℤ d (negsuc 9223372036854775807)
    then negsuc 9223372036854775807
    else d

unfoldable pub measure : String → ℤ → List String → TracedRequest → Option TracedRequest
unfolding to_millis
measure name d tags r =
    if r.metrics.has_provider
    then some (record r {
      measured = r.measured ++ record { name = name; millis = to_millis d; tags = tags } ∷ [];
    })
    else none

unfoldable pub add_field : String → FieldValue → TracedRequest → TracedRequest
add_field k v r = record r { fields = r.fields ++ (k, v) ∷ [] }

unfoldable pub add_pool : ℤ → TracedRequest → TracedRequest
add_pool n r = record r {
  metrics = record r.metrics { pool_available = r.metrics.pool_available +ℤ n };
}

-- A httptrace.GotConnInfo.
pub record GotConnInfo : Type 0 where
  pub reused : Bool
  pub was_idle : Bool
  pub idle_time : ℕ

-- The map of tags of gotCon, in one of the orders of its loop.
pub record ConTags : Type 0 where
  pub reused : Bool
  pub starved : Bool
  pub idle : Bool
  pub delayed : Bool

abbrev show : Bool → String
show true = "true"
show false = "false"

unfoldable pub tag_pairs : ConTags → List (String × String)
tag_pairs t =
    ("reused", show t.reused)
    ∷ ("starved", show t.starved)
    ∷ ("idle", show t.idle)
    ∷ ("delayed", show t.delayed)
    ∷ []

unfoldable pub add_tag_fields : List (String × String) → TracedRequest → TracedRequest
unfolding add_field
add_tag_fields [] r = r
add_tag_fields ((k, v) ∷ kvs) r = add_tag_fields kvs (add_field (concat "req.con_" k) (text v) r)

unfoldable pub tag_list : List (String × String) → List String
tag_list [] = []
tag_list ((k, v) ∷ kvs) = concat k (concat ":" v) ∷ tag_list kvs

-- gotCon for a connection that was used before: its tags.
unfoldable pub got_reused : GotConnInfo → ℤ → TracedRequest → Option (ConTags × TracedRequest)
unfolding measure add_field add_pool
got_reused info delay r =
    let tags : ConTags = record {
      reused = true;
      starved = if info.was_idle then false else true;
      idle = info.was_idle;
      delayed = ltb_ℤ (pos 10000000) delay;
    } in
    let r1 = add_pool (negsuc 0) r in
    if info.was_idle
    then (do
      r2 ← measure "httpclient.con.idle" (pos info.idle_time) r1.common_tags r1
      some (tags, add_field "req.con_idle" (time (pos info.idle_time)) r2))
    else some (tags, r1)

-- Its measurements of a new connection, of DNS and TLS. `decimal` is %d.
unfoldable pub got_dns :
    (ℕ → String) → List String → Option DnsLookup → TracedRequest → Option TracedRequest
unfolding measure add_field between
got_dns decimal tags none r = some r
got_dns decimal tags (some d) r = do
  let dur = between d.done_at d.start_at
  r1 ←
      measure "httpclient.con.dns" dur
        (tags
          ++ concat "adresses:" (decimal d.addr_count)
            ∷ concat "coalesced:" (show d.coalesced)
            ∷ concat "error:" (show d.error)
            ∷ [])
        r
  some (add_field "req.con_dns" (time dur) r1)

unfoldable pub got_tls : List String → Con → TracedRequest → Option TracedRequest
unfolding measure add_field between
got_tls tags c r = if c.tls_done_at == 0 then some r else do
  let dur = between c.tls_done_at c.tls_start_at
  r1 ← measure "httpclient.con.tls" dur tags r
  some (add_field "req.con_tls" (time dur) r1)

unfoldable pub got_new : (ℕ → String) → List String → Con → TracedRequest → Option TracedRequest
unfolding got_dns got_tls between
got_new decimal tags c r = do
  let made = between c.dial_done_at c.dial_start_at
  r1 ← measure "httpclient.con.new" made tags r
  r2 ← got_dns decimal tags c.dns (add_field "req.con_new" (time made) r1)
  got_tls tags c r2
