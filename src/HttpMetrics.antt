-- ===== src/HttpMetrics.antt =====
-- The metrics provider that publishes over HTTP (o11y/httpmetrics/provider.go). `V` stands for
-- float64. A timestamp is an argument, since time.Now is read when a metric is recorded.
pub mod Conserved
use Prim.Native.String.{◌++◌ as concat}
use go_o11y.Prelude.{
  ℕ, String, Bool, true, false, Option, none, some, List, [], ◌∷◌, ◌++◌, ◌==◌, str_eq,
  if◌then◌else◌, Dict, is_some,
}
use go_o11y.Errors.{Err}

pub record Config : Type 0 where
  pub url : String
  pub auth_token : String
  pub global_tags : Dict String
  pub client_name : String
  pub publish_interval : ℕ
  pub namespace : String

pub record MetricData (V : Type 0) : Type 0 where
  pub type : String
  pub name : String
  pub timestamp : ℕ
  pub value : V
  pub tags : List String

-- The provider; of its client, the name and the user agent are kept.
pub record Provider (V : Type 0) : Type 0 where
  pub client_name : String
  pub user_agent : String
  pub namespace : String
  pub global_metric_tags : List String
  pub publish_interval : ℕ
  pub buffer : List (MetricData V)
  pub stopped : Bool

tag_texts : Dict String → List String
tag_texts [] = []
tag_texts ((k, v) ∷ m) = concat k (concat ":" v) ∷ tag_texts m

abbrev pub minute : ℕ
minute = 60000000000

-- createProvider
unfoldable pub create_provider : {V : Type 0} → Config → Provider V
unfolding tag_texts
create_provider cfg =
    let name = if str_eq cfg.client_name "" then "http-metrics-client" else cfg.client_name in
    record {
      client_name = name;
      user_agent = concat name ", ex";
      namespace = cfg.namespace;
      global_metric_tags = tag_texts cfg.global_tags;
      publish_interval = if cfg.publish_interval == 0 then minute else cfg.publish_interval;
      buffer = [];
      stopped = false;
    }

module _ {V : Type 0} where
  -- record
  unfoldable pub record_metric : String → String → V → List String → ℕ → Provider V → Provider V
  record_metric type metric_name value tags at m =
      let name =
        if str_eq m.namespace ""
        then metric_name
        else concat m.namespace (concat "." metric_name) in
      let d : MetricData V = record {
        type = type;
        name = name;
        timestamp = at;
        value = value;
        tags = tags;
      } in
      record m { buffer = m.buffer ++ d ∷ [] }

  unfoldable pub gauge : String → V → List String → ℕ → Provider V → Provider V
  unfolding record_metric
  gauge n v t at m = record_metric "gauge" n v t at m

  unfoldable pub histogram : String → V → List String → ℕ → Provider V → Provider V
  unfolding record_metric
  histogram n v t at m = record_metric "histogram" n v t at m

  unfoldable pub time_in_milliseconds : String → V → List String → ℕ → Provider V → Provider V
  unfolding record_metric
  time_in_milliseconds n v t at m = record_metric "timeInMilliseconds" n v t at m

  -- `of_int` is the conversion of an int64.
  unfoldable pub count : (ℕ → V) → String → ℕ → List String → ℕ → Provider V → Provider V
  unfolding record_metric
  count of_int n v t at m = record_metric "count" n (of_int v) t at m

  -- The first critical section of Publish: the data to send, and what is left.
  unfoldable pub take_data : Provider V → List (MetricData V) × Provider V
  take_data m = (m.buffer, record m { buffer = [] })

  -- Its second one, after a failure: the backup goes before what was recorded in between.
  unfoldable pub restore : List (MetricData V) → Provider V → Provider V
  restore backup m = record m { buffer = backup ++ m.buffer }

  -- The body of the request that Publish sends, if there is data.
  unfoldable pub to_send : List (MetricData V) → Option (List (MetricData V))
  to_send [] = none
  to_send (d ∷ ds) = some (d ∷ ds)

  -- Publish after its first critical section; `call` is the error of Client.Call.
  unfoldable pub send_batch :
      (List (MetricData V) → Option Err) → List (MetricData V) → Provider V → Provider V
  unfolding restore
  send_batch call [] m = m
  send_batch call (d ∷ ds) m = if is_some (call (d ∷ ds)) then restore (d ∷ ds) m else m

  -- Publish with nothing recorded meanwhile, and what it sends.
  unfoldable pub publish :
      (List (MetricData V) → Option Err) → Provider V → Option (List (MetricData V)) × Provider V
  unfolding take_data send_batch to_send
  publish call m = let (batch, taken) = take_data m in (to_send batch, send_batch call batch taken)

  -- Close: the once-only part stops the loop and publishes.
  unfoldable pub close : (List (MetricData V) → Option Err) → Provider V → Provider V
  unfolding publish
  close call m = if m.stopped then m else (publish call (record m { stopped = true })).1
