-- ===== src/Span.antt =====
-- Spans and the fields that every ended span gets: AddResultToSpan, End and LogError of o11y/o11y.go,
-- and o11y/spanopt.go. A span is the list of calls made on it, in order.
pub mod Results
use go_o11y.Prelude.{ℕ, String, Bool, ◌||◌, Option, none, some, List, [], ◌∷◌, ◌++◌, if◌then◌else◌}
use go_o11y.Errors.{Err, is_warning, err_is, canceled, deadline_exceeded}

-- `message e` is the text of e.Error(), and `fault e` the error as a value.
pub data Value : Type 0 where
  text : String → Value
  num : ℕ → Value
  flag : Bool → Value
  message : Err → Value
  fault : Err → Value

pub data SpanKind : Type 0 where
  internal server client producer consumer : SpanKind

pub record SpanConfig : Type 0 where
  pub kind : Option SpanKind

-- A SpanOpt; the zero SpanKind is `none`.
unfoldable pub with_span_kind : SpanKind → SpanConfig → SpanConfig
with_span_kind k cfg = record cfg { kind = some k }

pub data MetricType : Type 0 where
  timer gauge_metric count_metric : MetricType

pub record Tag : Type 0 where
  pub name : String
  pub value : Value

pub record Metric : Type 0 where
  pub type : MetricType
  pub name : String
  pub field_name : String
  pub fixed_tag : Option Tag
  pub tag_fields : List String

unfoldable pub timing : String → List String → Metric
timing name fields = record {
  type = timer;
  name = name;
  field_name = "duration_ms";
  fixed_tag = none;
  tag_fields = fields;
}

unfoldable pub duration : String → String → List String → Metric
duration name value_field fields = record {
  type = timer;
  name = name;
  field_name = value_field;
  fixed_tag = none;
  tag_fields = fields;
}

unfoldable pub incr : String → List String → Metric
incr name fields = record {
  type = count_metric;
  name = name;
  field_name = "";
  fixed_tag = none;
  tag_fields = fields;
}

unfoldable pub gauge : String → String → List String → Metric
gauge name value_field fields = record {
  type = gauge_metric;
  name = name;
  field_name = value_field;
  fixed_tag = none;
  tag_fields = fields;
}

unfoldable pub count : String → String → Option Tag → List String → Metric
count name value_field fixed fields = record {
  type = count_metric;
  name = name;
  field_name = value_field;
  fixed_tag = fixed;
  tag_fields = fields;
}

-- A call on the Span interface; `start` is the StartSpan that made the span, and `add_field_to_trace`
-- the provider's call in the context of the span.
pub data SpanCall : Type 0 where
  start : String → SpanConfig → SpanCall
  add_field : String → Value → SpanCall
  add_raw_field : String → Value → SpanCall
  add_field_to_trace : String → Value → SpanCall
  record_metric : Metric → SpanCall
  flatten : String → SpanCall
  end : SpanCall

abbrev pub Span : Type 0
Span = List SpanCall

pub record Pair : Type 0 where
  pub key : String
  pub value : Value

failed_result : Option Err → Span
failed_result none = add_raw_field "result" (text "success") ∷ []
failed_result (some e) =
    add_raw_field "result" (text "error") ∷ add_raw_field "error" (message e) ∷ []

text_of : Option Err → Span
text_of none = []
text_of (some e) = add_raw_field "warning" (message e) ∷ []

-- AddResultToSpan: a warning is reported as a success, and the end of a context as canceled.
unfoldable pub add_result_to_span : Option Err → Span
unfolding failed_result text_of
add_result_to_span err =
    if is_warning err
    then text_of err ++ add_raw_field "result" (text "success") ∷ []
    else if err_is err canceled || err_is err deadline_exceeded
    then add_raw_field "result" (text "canceled") ∷ text_of err
    else failed_result err

-- End, of a non-nil error pointer.
unfoldable pub end_span : Option Err → Span
unfolding add_result_to_span
end_span err = add_result_to_span err ++ end ∷ []

fields_of : List Pair → Span
fields_of [] = []
fields_of (p ∷ ps) = add_field p.key p.value ∷ fields_of ps

-- LogError
unfoldable pub log_error : String → Option Err → List Pair → Span
unfolding fields_of add_result_to_span
log_error name err fields =
    start name (record { kind = none }) ∷ (fields_of fields ++ (add_result_to_span err ++ end ∷ []))
