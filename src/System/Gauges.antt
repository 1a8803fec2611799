-- ===== src/System/Gauges.antt =====
-- What the metrics loop of a system publishes (system/metrics.go and system/gauges.go).
pub mod Published
use Prim.Native.Char.{code}
use Prim.Native.String.{[] as empty, ◌∷◌ as prepend, ◌++◌ as concat}
use go_o11y.Prelude.{
  ℕ, String, Bool, true, false, Option, none, some, List, [], ◌∷◌, ◌++◌, ◌==◌, if◌then◌else◌,
}
use go_o11y.Prelude.Partial.{◌>>=◌}
use go_o11y.System.{MetricProducer, GaugeProducer, TaggedValue}

-- A call of Gauge on the metrics provider; its rate is 1, and its error is dropped.
pub record GaugeCall : Type 0 where
  pub name : String
  pub value : ℕ
  pub tags : List String

-- strings.Replace(s, "-", "_", -1)
unfoldable pub underscored : String → String
underscored empty = empty
underscored (prepend c s) =
    let rest = underscored s in if code c == 45 then prepend "_" rest else prepend c rest

unfoldable pub scoped_field : String → String → String
scoped_field producer f = concat "gauge." (concat producer (concat "." f))

-- A call on the provider, which panics if there is none.
unfoldable pub call_gauge : Bool → GaugeCall → List GaugeCall → Option (List GaugeCall)
call_gauge true g made = some (made ++ g ∷ [])
call_gauge false g made = none

-- traceMetric
unfoldable pub trace_metric_fields :
    Bool → String → List (String × ℕ) → List GaugeCall → Option (List GaugeCall)
unfolding scoped_field call_gauge
trace_metric_fields provider name [] made = some made
trace_metric_fields provider name ((f, v) ∷ fs) made =
    call_gauge provider (record { name = scoped_field name f; value = v; tags = [] }) made
    >>= trace_metric_fields provider name fs

unfoldable pub trace_metric : Bool → MetricProducer → List GaugeCall → Option (List GaugeCall)
unfolding underscored trace_metric_fields
trace_metric provider p made =
    trace_metric_fields provider (underscored p.metric_name) p.gauges made

-- traceMetrics; `provider` says whether there is a metrics provider.
unfoldable pub trace_metrics : Bool → List MetricProducer → List GaugeCall → Option (List GaugeCall)
unfolding trace_metric
trace_metrics provider [] made = some made
trace_metrics provider (p ∷ ps) made = trace_metric provider p made >>= trace_metrics provider ps

-- emitGauge
unfoldable pub emit_values :
    Bool → String → List TaggedValue → List GaugeCall → Option (List GaugeCall)
unfolding call_gauge
emit_values provider field [] made = some made
emit_values provider field (tv ∷ tvs) made =
    call_gauge provider (record { name = field; value = tv.val; tags = tv.tags }) made
    >>= emit_values provider field tvs

unfoldable pub emit_fields :
    Bool → String → List (String × List TaggedValue) → List GaugeCall → Option (List GaugeCall)
unfolding scoped_field emit_values
emit_fields provider name [] made = some made
emit_fields provider name ((f, tvs) ∷ fs) made =
    emit_values provider (scoped_field name f) tvs made >>= emit_fields provider name fs

unfoldable pub emit_gauge : Bool → GaugeProducer → List GaugeCall → Option (List GaugeCall)
unfolding underscored emit_fields
emit_gauge provider p made = emit_fields provider (underscored p.gauge_name) p.gauges made

-- emitGauges
unfoldable pub emit_gauges : Bool → List GaugeProducer → List GaugeCall → Option (List GaugeCall)
unfolding emit_gauge
emit_gauges provider [] made = some made
emit_gauges provider (p ∷ ps) made = emit_gauge provider p made >>= emit_gauges provider ps

-- A round of the metrics loop: WorkFunc of metricsReporter, which asks for a back-off.
unfoldable pub metrics_round :
    Bool → List MetricProducer → List GaugeProducer → Option (List GaugeCall)
unfolding trace_metrics emit_gauges
metrics_round provider ms gs = trace_metrics provider ms [] >>= emit_gauges provider gs
