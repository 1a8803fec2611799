-- ===== src/Honeycomb/Provider.antt =====
-- The Honeycomb provider (o11y/honeycomb/honeycomb.go): its configuration, the fields and metrics of
-- a span, and what its hooks send. beeline-go and libhoney are not part of it.
use Prim.Native.String.{◌++◌ as concat}
use go_o11y.Prelude.{
  ℕ, String, Bool, true, false, not, ◌&&◌, ◌||◌, Option, none, some, List, [], ◌∷◌, ◌++◌, ◌==◌,
  str_eq, is_some, contains, if◌then◌else◌, Dict, put,
}
use go_o11y.Errors.{Err, text}
use go_o11y.Span.{Metric, Tag}
use go_o11y.Prelude.Int.{ℤ}
use go_o11y.Otel.Metrics.{Any, MetricCall, standard_error_metrics, extract_metrics}
use go_o11y.Otel.Metrics as Metrics

-- The parts of Config that decide something: the Sender by a number, whether there is a KeyFunc.
pub record Config : Type 0 where
  pub key : String
  pub format : String
  pub send_traces : Bool
  pub sender : Option ℕ
  pub sample_traces : Bool
  pub has_metrics : Bool

-- A transmission.Sender that the provider makes, or the one that it is given.
pub data Sender : Type 0 where
  honeycomb : Sender
  given : ℕ → Sender
  text_sender : Bool → Sender
  writer : Sender

-- Validate
unfoldable pub validate_config : Config → Option Err
validate_config c =
    if c.send_traces && (str_eq c.key "" && not (is_some c.sender))
    then some (text "honeycomb_key key required for honeycomb")
    else none

-- The switch on the format in sender.
unfoldable pub format_senders : String → List Sender
format_senders format =
    if str_eq format "text"
    then text_sender false ∷ []
    else if str_eq format "colour" || str_eq format "color"
    then text_sender true ∷ []
    else if str_eq format "none"
    then []
    else writer ∷ []

-- sender: those of its MultiSender.
unfoldable pub senders_of : Config → List Sender
unfolding format_senders
senders_of c =
    (if c.send_traces then elim c.sender [ none ↦ honeycomb ∷ [] | some s ↦ given s ∷ [] ] else [])
    ++ format_senders c.format

-- Which of the two hooks of beeline New sets.
pub record Hooks : Type 0 where
  pub sampler_hook : Bool
  pub presend_hook : Bool

unfoldable pub hooks_of : Config → Hooks
hooks_of c = record { sampler_hook = c.sample_traces; presend_hook = not c.sample_traces }

-- The fields of a span: those under other keys, and the metrics under metricKey.
pub record Fields (F : Type 0) : Type 0 where
  pub values : Dict (Any F)
  pub metrics : Option (List Metric)

-- A span of beeline with the wrappers that the provider makes of it, by numbers: each has the metrics
-- recorded through it.
pub record BeelineSpan (F : Type 0) : Type 0 where
  pub fields : Fields F
  pub recorded : ℕ → List Metric

module _ {F : Type 0} where
  -- mustValidateKey: a panic is `none`.
  unfoldable pub must_validate_key : String → BeelineSpan F → Option (BeelineSpan F)
  must_validate_key key s = if contains key "-" then none else some s

  -- An error is kept as its text, which `message` gives.
  unfoldable pub plain_value : (Err → String) → Any F → Any F
  plain_value message (Metrics.fault e) = Metrics.text (message e)
  plain_value message v = v

  -- AddRawField
  unfoldable pub add_raw_to :
      (Err → String) → String → Any F → BeelineSpan F → Option (BeelineSpan F)
  unfolding must_validate_key plain_value
  add_raw_to message key val s = elim (must_validate_key key s) [
    | none ↦ none
    | some t ↦ some (record t {
      fields = record t.fields { values = put key (plain_value message val) t.fields.values };
    })
  ]

  -- AddField
  unfoldable pub add_app_to :
      (Err → String) → String → Any F → BeelineSpan F → Option (BeelineSpan F)
  unfolding must_validate_key plain_value
  add_app_to message key val s = elim (must_validate_key key s) [
    | none ↦ none
    | some t ↦ some (record t {
      fields = record t.fields {
        values = put (concat "app." key) (plain_value message val) t.fields.values;
      };
    })
  ]

  -- RecordMetric, through the wrapper `i`: the field gets the metrics of this wrapper.
  unfoldable pub record_through : ℕ → Metric → BeelineSpan F → BeelineSpan F
  record_through i m s =
      let ms = s.recorded i ++ m ∷ [] in
      record {
        fields = record s.fields { metrics = some ms };
        recorded = λ j. if j == i then ms else s.recorded j;
      }

  -- stripMetrics
  unfoldable pub strip_metrics : Fields F → Fields F
  strip_metrics f = record f { metrics = none }

  module _ (of_int : ℤ → F) (show : Any F → String) (tag_text : Tag → String) where
    -- The rest of the hook after the standard metrics; a panic is `none`.
    unfoldable pub send_recorded :
        Option (List Metric)
        → Dict (Any F)
        → List (MetricCall F)
        → Option (List (MetricCall F) × Fields F)
    send_recorded none values calls = some (calls, record { values = values; metrics = none })
    send_recorded (some ms) values calls = elim (extract_metrics of_int show tag_text ms values) [
      | none ↦ none
      | some sent ↦ some (calls ++ sent, record { values = values; metrics = none })
    ]

    -- The hook that extractAndSendMetrics makes, with a metrics provider or without one: the calls on
    -- it, and the fields.
    unfoldable pub extract_hook : Bool → Fields F → Option (List (MetricCall F) × Fields F)
    unfolding send_recorded strip_metrics
    extract_hook false f = some ([], strip_metrics f)
    extract_hook true f =
        let out = standard_error_metrics f.values in send_recorded f.metrics out.1 out.0

    -- What happens to the fields of a span that ends: beeline calls the hook for sampling, and the
    -- one before sending for a span that is kept.
    unfoldable pub on_end :
        Config → (Fields F → Bool) → Fields F → Option (List (MetricCall F) × Fields F)
    unfolding extract_hook hooks_of
    on_end c keep f =
        if (hooks_of c).sampler_hook || ((hooks_of c).presend_hook && keep f)
        then extract_hook c.has_metrics f
        else some ([], f)
