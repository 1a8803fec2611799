-- ===== src/System/Gauges/Published.antt =====
-- The calls of a round of the metrics loop, against a description of them (system/metrics.go and
-- system/gauges.go).
use mathlib.Core.Path.{subst}
use Prim.Native.Char.{code}
use Prim.Native.String.{[] as empty, ◌∷◌ as prepend, ◌++◌ as concat}
use go_o11y.Prelude.{
  ◌≡◌, refl, sym, ap, ◌∙◌, ℕ, String, Bool, true, false, Option, none, some, List, [], ◌∷◌, ◌++◌,
  append_assoc, append-nil, map, ◌==◌, if◌then◌else◌, arith,
}
use go_o11y.Prelude.Partial.{◌>>=◌}
use go_o11y.System.{MetricProducer, GaugeProducer, TaggedValue}
use go_o11y.System.Gauges.{
  GaugeCall, underscored, scoped_field, call_gauge, trace_metric_fields, trace_metric,
  trace_metrics, emit_values, emit_fields, emit_gauge, emit_gauges, metrics_round,
}

abbrev concat_map : {A : Type 0} → (A → List GaugeCall) → List A → List GaugeCall
concat_map f [] = []
concat_map f (x ∷ xs) = f x ++ concat_map f xs

-- A name with underscores for its dashes, one character after another.
abbrev pub without_dashes : String → String
without_dashes empty = empty
without_dashes (prepend c s) = prepend (if code c == 45 then "_" else c) (without_dashes s)

-- The name of a gauge of a producer.
abbrev pub gauge_of : String → String → String
gauge_of producer f = concat "gauge." (concat (without_dashes producer) (concat "." f))

underscored-without_dashes : (s : String) → underscored s ≡ without_dashes s
unfolding underscored
underscored-without_dashes empty = refl
underscored-without_dashes (prepend c s) = ground (arith, underscored-without_dashes s)

scoped_field-gauge_of : (p f : String) → scoped_field (underscored p) f ≡ gauge_of p f
unfolding scoped_field
scoped_field-gauge_of p f =
    ap (λ n. concat "gauge." (concat n (concat "." f))) (underscored-without_dashes p)

-- One call for each gauge, under the producer's name and its own.
abbrev untagged : String → String × ℕ → GaugeCall
untagged name (f, v) = record { name = gauge_of name f; value = v; tags = [] }

abbrev tagged : String → TaggedValue → GaugeCall
tagged field tv = record { name = field; value = tv.val; tags = tv.tags }

abbrev of_metrics : MetricProducer → List GaugeCall
of_metrics p = map (untagged p.metric_name) p.gauges

abbrev of_field : String → String × List TaggedValue → List GaugeCall
of_field name (f, tvs) = map (tagged (gauge_of name f)) tvs

abbrev of_gauges : GaugeProducer → List GaugeCall
of_gauges p = concat_map (of_field p.gauge_name) p.gauges

abbrev pub published : List MetricProducer → List GaugeProducer → List GaugeCall
published ms gs = concat_map of_metrics ms ++ concat_map of_gauges gs

-- What is left of some calls: without a provider the first one panics.
abbrev pub made_with : Bool → List GaugeCall → List GaugeCall → Option (List GaugeCall)
made_with true made l = some (made ++ l)
made_with false made [] = some made
made_with false made (g ∷ l) = none

abbrev Makes : Bool → (List GaugeCall → Option (List GaugeCall)) → List GaugeCall → Type 0
Makes b f l = (made : List GaugeCall) → f made ≡ made_with b made l

made_with-nil : (b : Bool) (made : List GaugeCall) → some made ≡ made_with b made []
made_with-nil true made = ap some (sym (append-nil made))
made_with-nil false made = refl

Makes-bind :
    (b : Bool) (f g : List GaugeCall → Option (List GaugeCall)) (l m : List GaugeCall)
    → Makes b f l
    → Makes b g m
    → Makes b (λ made. f made >>= g) (l ++ m)
Makes-bind b f g l m h k made = ap (λ o. o >>= g) (h made) ∙ go b l k
  where
    go :
        (b : Bool) (l : List GaugeCall)
        → Makes b g m
        → made_with b made l >>= g ≡ made_with b made (l ++ m)
    go true l k = k (made ++ l) ∙ ap some (append_assoc made l m)
    go false [] k = k made
    go false (x ∷ l) k = refl

call_gauge-Makes : (b : Bool) (g : GaugeCall) → Makes b (call_gauge b g) (g ∷ [])
unfolding call_gauge
call_gauge-Makes true g made = refl
call_gauge-Makes false g made = refl

module _ (b : Bool) where
  trace_metric_fields-Makes :
      (name : String) (fs : List (String × ℕ))
      → Makes b (trace_metric_fields b (underscored name) fs) (map (untagged name) fs)
  unfolding trace_metric_fields
  trace_metric_fields-Makes name [] = made_with-nil b
  trace_metric_fields-Makes name ((f, v) ∷ fs) =
      let g = untagged name (f, v) in
      let made = λ (n : String). call_gauge b (record { name = n; value = v; tags = [] }) in
      Makes-bind b (made (scoped_field (underscored name) f))
        (trace_metric_fields b (underscored name) fs) (g ∷ []) (map (untagged name) fs)
        (subst (λ n. Makes b (made n) (g ∷ [])) (sym (scoped_field-gauge_of name f))
          (call_gauge-Makes b g))
        (trace_metric_fields-Makes name fs)

  trace_metrics-Makes :
      (ms : List MetricProducer) → Makes b (trace_metrics b ms) (concat_map of_metrics ms)
  unfolding trace_metrics trace_metric
  trace_metrics-Makes [] = made_with-nil b
  trace_metrics-Makes (p ∷ ps) =
      Makes-bind b (trace_metric b p) (trace_metrics b ps) (of_metrics p) (concat_map of_metrics ps)
        (trace_metric_fields-Makes p.metric_name p.gauges) (trace_metrics-Makes ps)

  emit_values-Makes :
      (field : String) (tvs : List TaggedValue)
      → Makes b (emit_values b field tvs) (map (tagged field) tvs)
  unfolding emit_values
  emit_values-Makes field [] = made_with-nil b
  emit_values-Makes field (tv ∷ tvs) =
      Makes-bind b (call_gauge b (tagged field tv)) (emit_values b field tvs) (tagged field tv ∷ [])
        (map (tagged field) tvs) (call_gauge-Makes b (tagged field tv))
        (emit_values-Makes field tvs)

  emit_fields-Makes :
      (name : String) (fs : List (String × List TaggedValue))
      → Makes b (emit_fields b (underscored name) fs) (concat_map (of_field name) fs)
  unfolding emit_fields
  emit_fields-Makes name [] = made_with-nil b
  emit_fields-Makes name ((f, tvs) ∷ fs) =
      Makes-bind b (emit_values b (scoped_field (underscored name) f) tvs)
        (emit_fields b (underscored name) fs) (of_field name (f, tvs))
        (concat_map (of_field name) fs)
        (subst (λ n. Makes b (emit_values b n tvs) (of_field name (f, tvs)))
          (sym (scoped_field-gauge_of name f)) (emit_values-Makes (gauge_of name f) tvs))
        (emit_fields-Makes name fs)

  emit_gauges-Makes :
      (gs : List GaugeProducer) → Makes b (emit_gauges b gs) (concat_map of_gauges gs)
  unfolding emit_gauges emit_gauge
  emit_gauges-Makes [] = made_with-nil b
  emit_gauges-Makes (p ∷ ps) =
      Makes-bind b (emit_gauge b p) (emit_gauges b ps) (of_gauges p) (concat_map of_gauges ps)
        (emit_fields-Makes p.gauge_name p.gauges) (emit_gauges-Makes ps)

-- A round of the metrics loop publishes every gauge of every producer once, with its value and its
-- tags, in order, those without tags first. It is under the name `gauge.`, the name of the producer
-- with underscores for its dashes, a dot, and the name of the gauge.
-- Without a metrics provider it panics if there is any gauge, and does nothing otherwise.
pub metrics_round-published :
    (provider : Bool) (ms : List MetricProducer) (gs : List GaugeProducer)
    → metrics_round provider ms gs ≡ made_with provider [] (published ms gs)
unfolding metrics_round
metrics_round-published b ms gs =
    Makes-bind b (trace_metrics b ms) (emit_gauges b gs) (concat_map of_metrics ms)
      (concat_map of_gauges gs) (trace_metrics-Makes b ms) (emit_gauges-Makes b gs) []
